-- ===== src/Fleet/Accepted.antt =====
-- `publish_outbox` of esp32-embedder/firmware/full/main/kata_worker.c, while IoT Core takes everything.
use claude_chats.Prelude.{
  ℕ, ◌≤◌, ◌≡◌, refl, sym, ap, ◌∙◌, inl, inr, Bool, true, false, Bool-cases, not, ◌&&◌, Option, none,
  some, List, [], ◌∷◌, ◌++◌, append-nil, length, ◌==◌, if◌then◌else◌, arith, Bytes,
}
use mathlib.Core.Path.{subst}
use claude_chats.Fleet.{
  fleet_outbox, Outbox, Event, happen_all, Poster, went, post_all, post_status, post_taken,
  nothing_waits, publish_taken, publish_once, publish_outbox,
}
use claude_chats.Fleet.Publishing.{nothing-nil, not_again}
use claude_chats.Fleet.Queueing.{take_everything, happen_all-bounded}

abbrev pub empty : Outbox
empty = record { status = none; out = [] }

module _ (y : Poster)
    (accepts : (retain : Bool) (body : Bytes) (c : y.Ctx)
      → went (y.post retain body c).0 ≡ true) where
  post_all-accepted :
      (st : Option ℕ) (ms : List Bytes) (c : y.Ctx)
      → ((post_all y st ms c).sent ≡ ms) × ((post_all y st ms c).left ≡ [])
  unfolding post_all
  post_all-accepted st [] c = (refl, refl)
  post_all-accepted st (m ∷ ms) c =
      let goes = accepts false m c in
      let (sent, left) = post_all-accepted (y.post false m c).0 ms (y.post false m c).1 in
      rw (goes, post_all) (ap (λ l. m ∷ l) sent, left)

  post_all-went :
      (st : Option ℕ) (ms : List Bytes) (c : y.Ctx)
      → went st ≡ true
      → went (post_all y st ms c).st ≡ true
  unfolding post_all
  post_all-went st [] c good = good
  post_all-went st (m ∷ ms) c good =
      let goes = accepts false m c in
      rw (goes, post_all) (post_all-went (y.post false m c).0 ms (y.post false m c).1 goes)

  -- What was taken, where it is something, goes whole.
  post_taken-accepted :
      (status : Option Bytes) (ms : List Bytes) (c : y.Ctx)
      → nothing_waits y status ms ≡ false
      → ((post_taken y status ms c).sent ≡ ms) × (went (post_taken y status ms c).st ≡ true)
  unfolding post_taken post_status post_all
  post_taken-accepted none [] c something = absurd (ground arith)
  post_taken-accepted none (m ∷ ms) c something =
      let goes = accepts false m c in
      let (sent, left) = post_all-accepted (some 0) (m ∷ ms) c in
      let rest = post_all-went (y.post false m c).0 ms (y.post false m c).1 goes in
      (sent, rw (goes, post_all) rest)
  post_taken-accepted (some s) ms c something =
      let p = post_all y (some 0) ms c in
      let (sent, left) = post_all-accepted (some 0) ms c in
      let gone : (length p.left == 0) ≡ true = rw left refl in
      let goes = accepts true s p.ctx in
      rw (gone, post_status) (rw (goes, post_status) (sent, goes))

  publish_taken-accepted :
      (status : Option Bytes) (ms : List Bytes) (es : List Event) (c : y.Ctx)
      → ((publish_taken y status ms es empty c).0.1.sent ≡ ms)
        × ((publish_taken y status ms es empty c).1 ≡ happen_all es empty)
  unfolding publish_taken
  publish_taken-accepted status ms es c = elim (Bool-cases (nothing_waits y status ms)) [
    | inl nothing ↦ rw nothing (sym (nothing-nil y status ms nothing), refl)
    | inr something ↦
        let (sent, all) = post_taken-accepted status ms c something in
        rw (something, publish_taken) (rw (all, publish_taken) (sent, refl))
  ]

  publish_once-accepted :
      (es : List Event) (o : Outbox) (c : y.Ctx)
      → length o.out ≤ fleet_outbox
      → ((publish_once y es o c).0.1.sent ≡ o.out)
        × ((publish_once y es o c).1 ≡ happen_all es empty)
  unfolding publish_once
  publish_once-accepted es o c few =
      subst
        (λ x.
          ((publish_taken y x.0.0 x.0.1 es x.1 c).0.1.sent ≡ o.out)
          × ((publish_taken y x.0.0 x.0.1 es x.1 c).1 ≡ happen_all es empty))
        (sym (take_everything o few)) (publish_taken-accepted o.status o.out es c)

  -- While iot_post takes everything, one call sends all the responses that waited, in their order and before any
  -- other, and what waits after it, the status too, is only what was queued after its last take.
  pub publish_outbox-accepted :
      (events more : List Event) (first : Bool) (o : Outbox) (c : y.Ctx)
      → length o.out ≤ fleet_outbox
      → (let ((sent, still_first), (o', c')) = publish_outbox y events more first o c in
          ((rest : List Bytes) × (sent ≡ o.out ++ rest))
          × (o' ≡ happen_all (if first && not still_first then more else events) empty))
  unfolding publish_outbox
  publish_outbox-accepted events more first o c few =
      let r = publish_once y events o c in
      let (sent, left) = publish_once-accepted events o c few in
      let r' = publish_once y more r.1 r.0.1.ctx in
      let bounded : length r.1.out ≤ fleet_outbox =
        omega (arith, ap (λ x. length x.out) left, happen_all-bounded events empty (omega arith)) in
      let (sent', left') = publish_once-accepted more r.1 r.0.1.ctx bounded in
      elim (Bool-cases (r.0.0 && first)) [
        | inl again ↦
            let is_first : first ≡ true = ground arith in
            rw again (
              (r'.0.1.sent, ap (λ x. x ++ r'.0.1.sent) sent),
              left'
                  ∙ ap (λ b. happen_all (if b && true then more else events) empty) (sym is_first),
            )
        | inr once ↦ rw once (
          ([], sent ∙ sym (append-nil o.out)),
          left ∙ ap (λ b. happen_all (if b then more else events) empty) (sym (not_again first)),
        )
      ]
