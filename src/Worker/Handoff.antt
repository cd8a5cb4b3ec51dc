-- ===== src/Worker/Handoff.antt =====
-- `handoff` of esp32-embedder/worker/worker.c: results to Cal, then the ingest jobs deleted.
use claude_chats.Prelude.{
  ℕ, ◌+◌, ◌-◌, Bool, true, false, not, ◌&&◌, ◌||◌, List, [], ◌∷◌, length, ltb, ◌==◌, if◌then◌else◌,
  Bytes, codes,
}
use claude_chats.Prelude.Int.{incr, minus_one, is_negative, above}
use claude_chats.Worker.Types.{
  Job, to_delete, is_result, is_delete, bytes_or_nil, result_len, sqs_max_batch_bytes,
}
use claude_chats.Worker.Env.{Env, Event, sent, deleted, Sys, on_worker, on_log, ask, count}
use claude_chats.Worker.Pool.{set_error, remove_jobs}
use claude_chats.Worker.Rounds.{
  Slot, slots_of, jobs_of, select, gather, settle_each, accepted, rounds,
}

abbrev pub too_big : Job → Bool
too_big j = is_result j && ltb sqs_max_batch_bytes (result_len j)

-- What a SendMessageBatch shows of itself: each body, and whether SQS accepted it.
unfoldable pub sent_events : (ℕ → Bool) → ℕ → List Bytes → List Event
sent_events ok b [] = []
sent_events ok b (body ∷ bodies) = sent body (ok b) ∷ sent_events ok (b + 1) bodies

unfoldable pub deleted_events : List Bytes → List Event
deleted_events [] = []
deleted_events (r ∷ rs) = deleted r ∷ deleted_events rs

abbrev pub select_results : List Slot → List ℕ
select_results = select is_result result_len sqs_max_batch_bytes 0 0 0

abbrev pub select_deletes : List Slot → List ℕ
select_deletes = select is_delete (λ j. 0) 0 0 0 0

abbrev pub result_bytes : Job → Bytes
result_bytes j = bytes_or_nil j.result

abbrev pub receipt_of : Job → Bytes
receipt_of j = j.m.receipt

abbrev pub mark_sent : Bool → Job → Job
mark_sent ok j = if ok then record j { state = to_delete } else j

-- A refused entry is done with as an accepted one is; a failed call counts a try.
abbrev pub mark_deleted : Bool → Bool → Job → Job
mark_deleted went_through ok j =
    if went_through
    then record j { delete_tries = minus_one }
    else record j { delete_tries = incr j.delete_tries }

abbrev pub given_up : Job → Bool
given_up j = is_delete j && (is_negative j.delete_tries || above j.delete_tries 2)

module _ {e : Env} where
  -- One SendMessageBatch; the count is `sent` so far.
  unfoldable pub send_round : List ℕ → List Slot × ℕ → Sys e → (Bool × (List Slot × ℕ)) × Sys e
  send_round idx (slots, so_far) s =
      let bodies = gather result_bytes idx slots in
      let (reply, s1) = ask e (e.send_batch bodies) s in
      let s2 = on_log (sent_events reply.ok 0 bodies) s1 in
      let taken = accepted reply.ok 0 idx in
      let s3 =
        on_worker (count (λ c. record c { send_failures = c.send_failures + (length idx - taken) }))
          s2 in
      let slots' = settle_each mark_sent reply.ok 0 idx slots in
      if reply.went_through
      then ((false, (slots', so_far + taken)), s3)
      else ((true, (slots', so_far + taken)), on_worker (set_error (e.sqs_error s3.ctx)) s3)

  -- One DeleteMessageBatch.
  unfoldable pub delete_round : List ℕ → List Slot → Sys e → (Bool × List Slot) × Sys e
  delete_round idx slots s =
      let receipts = gather receipt_of idx slots in
      let (reply, s1) = ask e (e.delete_batch receipts) s in
      let s2 = on_log (deleted_events receipts) s1 in
      let slots' = settle_each (mark_deleted reply.went_through) reply.ok 0 idx slots in
      let failures =
        if reply.went_through then length idx - accepted reply.ok 0 idx else length idx in
      (
        (not reply.went_through, slots'),
        on_worker (count (λ c. record c { delete_failures = c.delete_failures + failures })) s2,
      )

  abbrev pub set_pool : List Slot → Sys e → Sys e
  set_pool slots = on_worker (λ w. record w { pool = jobs_of slots })

  -- The sends, and the clock of the hand-offs. `false` when memory for `tried` ran out.
  unfoldable pub send_results : Sys e → Bool × Sys e
  send_results s =
      let n = length s.w.pool in
      let (room, s1) = ask e (e.alloc (if n == 0 then 1 else n)) s in
      let ((slots, k), s2) =
        rounds (λ a. select_results a.0) send_round (n + 1) (slots_of s1.w.pool, 0) s1 in
      let s3 = set_pool slots s2 in
      let (t, s4) = ask e e.now s3 in
      if not room
      then (false, on_worker (set_error (codes "out of memory for the hand-off")) s1)
      else if k == 0
      then (true, s3)
      else (true, on_worker (λ w. record w { progress_at = t; last_handoff_at = t }) s4)

  -- The deletes, and the jobs that are done with or given up on removed.
  unfoldable pub delete_jobs : Sys e → Sys e
  delete_jobs s =
      let n = length s.w.pool in
      let (room, s1) = ask e (e.alloc (if n == 0 then 1 else n)) s in
      let (slots, s2) = rounds select_deletes delete_round (n + 1) (slots_of s1.w.pool) s1 in
      if not room
      then on_worker (set_error (codes "out of memory for the deletes")) s1
      else on_worker (remove_jobs given_up) (set_pool slots s2)

  unfoldable pub handoff : Sys e → Sys e
  handoff s =
      let (sending, s1) = send_results (on_worker (remove_jobs too_big) s) in
      if sending then delete_jobs s1 else s1
