-- ===== src/Worker/Visibility.antt =====
-- `visibility` of esp32-embedder/worker/worker.c: keeps the held jobs hidden, or releases the pending ones.
use claude_chats.Prelude.{
  ℕ, ◌+◌, Bool, true, false, not, ◌&&◌, List, [], ◌∷◌, length, ◌==◌, if◌then◌else◌, Bytes, codes,
}
use claude_chats.Prelude.Int.{pos, minus_one, is_negative, below}
use claude_chats.Worker.Types.{Job, is_pending, extend_horizon_s, Worker}
use claude_chats.Worker.Env.{Env, Event, made_visible, Sys, on_worker, on_log, ask, count}
use claude_chats.Worker.Pool.{set_error, remove_jobs}
use claude_chats.Worker.Handoff.{receipt_of, set_pool}
use claude_chats.Worker.Rounds.{Slot, slots_of, select, gather, settle_each, rounds}

-- The jobs whose visibility is to change, at time `t`.
abbrev pub wanted : Bool → ℕ → Job → Bool
wanted all_pending t j =
    if all_pending then is_pending j else below j.visible_until (t + extend_horizon_s)

-- A refused handle is stale: a pending job is marked to leave the pool.
abbrev pub mark_visible : Bool → ℕ → Bool → Bool → Job → Job
mark_visible all_pending until went_through ok j =
    if not went_through
    then j
    else if ok
    then record j { visible_until = pos until }
    else if is_pending j && not all_pending
    then record j { visible_until = minus_one }
    else j

-- Only -1 is negative here: every other time is a sum of times.
abbrev pub is_stale : Job → Bool
is_stale j = is_pending j && is_negative j.visible_until

unfoldable pub visible_events : ℕ → List Bytes → List Event
visible_events seconds [] = []
visible_events seconds (r ∷ rs) = made_visible r seconds ∷ visible_events seconds rs

abbrev pub select_visible : Bool → ℕ → List Slot → List ℕ
select_visible all_pending t = select (wanted all_pending t) (λ j. 0) 0 0 0 0

abbrev pub note_failure : Bytes → Worker → Worker
note_failure why w =
    set_error why (count (λ c. record c { visibility_failures = c.visibility_failures + 1 }) w)

module _ {e : Env} (all_pending : Bool) (seconds t : ℕ) where
  -- One ChangeMessageVisibilityBatch; the flag is whether a call has failed.
  unfoldable pub visibility_round :
      List ℕ → List Slot × Bool → Sys e → (Bool × (List Slot × Bool)) × Sys e
  visibility_round idx (slots, failed) s =
      let receipts = gather receipt_of idx slots in
      let (reply, s1) = ask e (e.visibility_batch receipts seconds) s in
      let s2 = on_log (visible_events seconds receipts) s1 in
      let slots' =
        settle_each (mark_visible all_pending (t + seconds) reply.went_through) reply.ok 0 idx
          slots in
      if reply.went_through
      then ((false, (slots', failed)), s2)
      else ((true, (slots', true)), on_worker (note_failure (e.sqs_error s2.ctx)) s2)

module _ {e : Env} where
  -- `true` is -1: a call failed, or memory ran out.
  unfoldable pub visibility : Bool → ℕ → Sys e → Bool × Sys e
  visibility all_pending seconds s0 =
      let (t, s) = ask e e.now s0 in
      let n = length s.w.pool in
      let (room, s1) = ask e (e.alloc (if n == 0 then 1 else n)) s in
      let ((slots, failed), s2) =
        rounds (λ a. select_visible all_pending t a.0) (visibility_round all_pending seconds t)
          (n + 1) (slots_of s1.w.pool, false) s1 in
      if not room
      then (true, on_worker (note_failure (codes "out of memory for the visibility extension")) s1)
      else (failed, on_worker (remove_jobs is_stale) (set_pool slots s2))
