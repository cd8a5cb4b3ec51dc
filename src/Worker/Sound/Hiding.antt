-- ===== src/Worker/Sound/Hiding.antt =====
-- The invariant of the worker over `visibility`, worker.c.
use claude_chats.Prelude.{
  ℕ, ◌+◌, refl, Bool, true, false, Bool-cases, inl, inr, List, [], ◌∷◌, ◌++◌, length, arith,
  if◌then◌else◌, ◌==◌, Bytes,
}
use claude_chats.Worker.Env.{Env, Event, Sys}
use claude_chats.Worker.Rounds.{Slot, slots_of, gather}
use claude_chats.Worker.Handoff.{receipt_of}
use claude_chats.Worker.Visibility.{
  mark_visible, is_stale, visible_events, select_visible, visibility_round, visibility,
}
use claude_chats.Worker.Sound.{Sound, InLedger}
use claude_chats.Worker.Sound.Ledger.{Safe, Safe-refl, Safe-trans, Safe-Steady}
use claude_chats.Worker.Sound.Slots.{
  rounds_inv, Inert, settle_inert-Holds, Keeping, Keeping-start, Keeping-Safe,
}
use claude_chats.Worker.Sound.Deleting.{remove_jobs-Safe}

visible_events-ledger :
    (seconds : ℕ) (rs : List Bytes) (log : List Event)
    → InLedger log
    → InLedger (visible_events seconds rs ++ log)
unfolding visible_events
visible_events-ledger seconds [] log h = h
visible_events-ledger seconds (r ∷ rs) log h = visible_events-ledger seconds rs log h

mark_visible-Inert :
    (all_pending : Bool) (until : ℕ) (went_through ok : Bool)
    → Inert (mark_visible all_pending until went_through ok)
mark_visible-Inert all_pending until went_through ok = record {
  m = λ j. ground arith;
  state = λ j. ground arith;
  body = λ j. ground arith;
  ids = λ j. ground arith;
  n_ids = λ j. ground arith;
  result = λ j. ground arith;
}

module _ {e : Env} (start : Sys e) (all_pending : Bool) (seconds t : ℕ) where
  visibility_round-Keeping :
      (a : List Slot × Bool) (s : Sys e)
      → Keeping start a.0 s
      → let ((stop, a'), s') =
          visibility_round all_pending seconds t (select_visible all_pending t a.0) a s in
        Keeping start a'.0 s'
  unfolding visibility_round
  visibility_round-Keeping a s k =
      let idx = select_visible all_pending t a.0 in
      let receipts = gather receipt_of idx a.0 in
      let r = e.visibility_batch receipts seconds s.ctx in
      let ledger = visible_events-ledger seconds receipts s.log k.holds.ledger in
      let u = t + seconds in
      let evs = visible_events seconds receipts in
      elim (Bool-cases r.0.went_through) [
        | inl fine ↦ rw fine (record {
          holds =
              settle_inert-Holds (mark_visible all_pending u true)
                (mark_visible-Inert all_pending u true) r.0.ok idx a.0 evs s _ refl refl refl ledger
                k.holds;
          frame = ground (arith, k.frame);
        })
        | inr failed ↦ rw failed (record {
          holds =
              settle_inert-Holds (mark_visible all_pending u false)
                (mark_visible-Inert all_pending u false) r.0.ok idx a.0 evs s _ refl refl refl
                ledger k.holds;
          frame = ground (arith, k.frame);
        })
      ]

module _ {e : Env} where
  -- Changing the visibility keeps the worker sound, whatever SQS answers.
  pub visibility-Safe :
      (all_pending : Bool) (seconds : ℕ) (s : Sys e)
      → Sound s
      → Safe s (visibility all_pending seconds s).1
  unfolding visibility
  visibility-Safe all_pending seconds s h =
      let now = e.now s.ctx in
      let n = length s.w.pool in
      let a = e.alloc (if n == 0 then 1 else n) now.1 in
      let s1 : Sys e = record s { ctx = a.1 } in
      let k =
        rounds_inv (λ x. select_visible all_pending now.0 x.0)
          (visibility_round all_pending seconds now.0) (λ x s'. Keeping s x.0 s')
          (visibility_round-Keeping s all_pending seconds now.0) (n + 1) (slots_of s.w.pool, false)
          s1 (Keeping-start s s1 refl refl h) in
      let done = Keeping-Safe k in
      elim (Bool-cases a.0) [
        | inr no_room ↦ rw no_room (Safe-Steady (Safe-refl h) (ground arith))
        | inl room ↦ rw room (Safe-trans done (remove_jobs-Safe is_stale _ done.sound))
      ]
