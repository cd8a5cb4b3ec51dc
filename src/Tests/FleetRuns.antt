-- ===== src/Tests/FleetRuns.antt =====
-- Runs of the outbox, and of its publish where the second answer is a failure.
use claude_chats.Prelude.{
  ℕ, suc, ◌≡◌, refl, true, false, not, ◌&&◌, some, List, [], ◌∷◌, ◌++◌, ◌==◌, if◌then◌else◌, arith,
  Bytes, codes,
}
use claude_chats.Fleet.{
  Outbox, fleet_respond, send_status, fleet_take, fleet_put_back, Event, responded, heartbeat,
  happen_all, Poster, post_all, post_status, post_taken, publish_taken, publish_once,
  publish_outbox,
}
use claude_chats.Fleet.Publishing.{queued_meanwhile, publish_outbox_lem}
use claude_chats.Fleet.Accepted.{empty, publish_outbox-accepted}

-- Counts its posts; the second fails with 503.
abbrev second_fails : Poster
second_fails = record {
  Ctx = ℕ;
  post = λ retain body n. (some (if n == 1 then 503 else 200), suc n);
}

abbrev always : Poster
always = record { Ctx = ℕ; post = λ retain body n. (some 200, suc n) }

abbrev two_waiting : Outbox
two_waiting = record { status = some (codes "up"); out = codes "a" ∷ codes "b" ∷ [] }

abbrev meanwhile : List Event
meanwhile =
    responded true (codes "c")
    ∷ heartbeat false true (codes "new")
    ∷ responded false (codes "d")
    ∷ []

-- The first went; the second waits again, ahead of what was queued meanwhile, with the newer status.
second_kept : publish_outbox second_fails meanwhile [] true two_waiting 0 ≡ (
  (codes "a" ∷ [], true),
  (record { status = some (codes "new"); out = codes "b" ∷ codes "c" ∷ [] }, 2),
)
unfolding publish_outbox publish_once publish_taken post_taken post_all post_status fleet_take
    fleet_put_back happen_all fleet_respond send_status
second_kept = refl

-- All of it goes, the status last, and then once more what came meanwhile.
all_sent :
    publish_outbox always meanwhile [] true two_waiting 0
    ≡ ((codes "a" ∷ codes "b" ∷ codes "c" ∷ [], false), (empty, 5))
unfolding publish_outbox publish_once publish_taken post_taken post_all post_status fleet_take
    fleet_put_back happen_all fleet_respond send_status
all_sent = refl

publish_outbox_lem_example :
    (publish_outbox second_fails meanwhile [] true two_waiting 0).0.0
      ++ (publish_outbox second_fails meanwhile [] true two_waiting 0).1.0.out
    ≡ two_waiting.out
      ++ queued_meanwhile meanwhile [] true
          (publish_outbox second_fails meanwhile [] true two_waiting 0).0.1
publish_outbox_lem_example =
    publish_outbox_lem second_fails meanwhile [] true two_waiting 0 (omega arith)

publish_outbox-accepted_example :
    ((rest : List Bytes) × ((publish_outbox always meanwhile [] true two_waiting 0).0.0
        ≡ two_waiting.out ++ rest))
    × ((publish_outbox always meanwhile [] true two_waiting 0).1.0
        ≡ happen_all
            (if true && not (publish_outbox always meanwhile [] true two_waiting 0).0.1
              then []
              else meanwhile)
            empty)
publish_outbox-accepted_example =
    publish_outbox-accepted always (λ retain body c. refl) meanwhile [] true two_waiting 0
      (omega arith)
