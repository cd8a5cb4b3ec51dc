-- ===== src/Worker/Sound/Deleting.antt =====
-- The invariant of the worker over the deletes of `handoff`, worker.c.
use claude_chats.Prelude.{
  ℕ, ◌+◌, ◌≡◌, refl, Bool, true, Bool-cases, inl, inr, List, [], ◌∷◌, ◌++◌, length, All, In, arith,
  if◌then◌else◌, ◌==◌, Bytes,
}
use mathlib.Core.Path.{subst}
use claude_chats.Worker.Types.{Msg, Job, to_delete, is_delete, bytes_or_nil}
use claude_chats.Worker.Env.{Env, Event, received, Sys, on_worker}
use claude_chats.Worker.Pool.{remove_jobs}
use claude_chats.Worker.Rounds.{Slot, slots_of, jobs_of, gather}
use claude_chats.Worker.Handoff.{
  too_big, given_up, deleted_events, select_deletes, receipt_of, mark_deleted, delete_round,
  send_results, delete_jobs, handoff,
}
use claude_chats.Worker.Sound.{Carries, JobOk, HandedOn, Sound, InLedger}
use claude_chats.Worker.Sound.Ledger.{
  In-append, remove_jobs-Sound, Safe, Safe-refl, Safe-trans, Safe-Steady,
}
use claude_chats.Worker.Sound.Slots.{
  rounds_inv, Picked, select-Picked, gather-cons, All-get_elem?, Inert, settle_inert-Holds, Keeping,
  Keeping-start, Keeping-Safe,
}
use claude_chats.Worker.Sound.Sending.{send_results-Safe}

-- A received message has this receipt, and SQS has accepted a result for it.
abbrev Justified : List Event → Bytes → Type 0
Justified log receipt = (m : Msg) × (m.receipt ≡ receipt) × In (received m) log × HandedOn log m

Justified-append : (evs log : List Event) (r : Bytes) → Justified log r → Justified (evs ++ log) r
Justified-append evs log r (m, e, i, (b, is_result, s)) =
    (m, e, In-append _ evs log i, (b, is_result, In-append _ evs log s))

deleted_events-ledger :
    (rs : List Bytes) (log : List Event)
    → All (Justified log) rs
    → InLedger log
    → InLedger (deleted_events rs ++ log)
unfolding deleted_events
deleted_events-ledger [] log h d = d
deleted_events-ledger (r ∷ rs) log h d =
    (Justified-append (deleted_events rs) log r h.0, deleted_events-ledger rs log h.1 d)

-- A job marked for deletion justifies the delete of its receipt.
to_delete-Justified :
    (log : List Event) (j : Job) → is_delete j ≡ true → JobOk log j → Justified log j.m.receipt
to_delete-Justified log j e h =
    let at_delete : j.state ≡ to_delete = ground arith in
    let c = subst (λ st. Carries log st j) at_delete h.1 in
    (j.m, refl, h.0, (bytes_or_nil j.result, c.0, c.1))

gather-Justified :
    (log : List Event) (idx : List ℕ) (slots : List Slot)
    → Picked is_delete slots idx
    → All (JobOk log) (jobs_of slots)
    → All (Justified log) (gather receipt_of idx slots)
gather-Justified log [] slots p h = unfold gather in tt
gather-Justified log (i ∷ is) slots p h =
    let (x, found, want) = p.0 in
    rw (gather-cons receipt_of i is slots x found) (
      to_delete-Justified log x.job want (All-get_elem? (JobOk log) slots i x found h),
      gather-Justified log is slots p.1 h,
    )

mark_deleted-Inert : (went_through ok : Bool) → Inert (mark_deleted went_through ok)
mark_deleted-Inert went_through ok = record {
  m = λ j. ground arith;
  state = λ j. ground arith;
  body = λ j. ground arith;
  ids = λ j. ground arith;
  n_ids = λ j. ground arith;
  result = λ j. ground arith;
}

module _ {e : Env} (start : Sys e) where
  delete_round-Keeping :
      (slots : List Slot) (s : Sys e)
      → Keeping start slots s
      → let ((stop, slots'), s') = delete_round (select_deletes slots) slots s in
        Keeping start slots' s'
  unfolding delete_round
  delete_round-Keeping slots s k =
      let idx = select_deletes slots in
      let receipts = gather receipt_of idx slots in
      let r = e.delete_batch receipts s.ctx in
      let picked = select-Picked is_delete (λ j. 0) 0 0 0 0 slots slots refl in
      let ledger =
        deleted_events-ledger receipts s.log (gather-Justified s.log idx slots picked k.holds.jobs)
          k.holds.ledger in
      record {
        holds =
            settle_inert-Holds (mark_deleted r.0.went_through) (mark_deleted-Inert r.0.went_through)
              r.0.ok idx slots (deleted_events receipts) s _ refl refl refl ledger k.holds;
        frame = ground (arith, k.frame);
      }

module _ {e : Env} where
  pub remove_jobs-Safe :
      (test : Job → Bool) (s : Sys e) → Sound s → Safe s (on_worker (remove_jobs test) s)
  remove_jobs-Safe test s h = record { sound = remove_jobs-Sound test s h; frame = ground arith }

  delete_jobs-Safe : (s : Sys e) → Sound s → Safe s (delete_jobs s)
  unfolding delete_jobs
  delete_jobs-Safe s h =
      let n = length s.w.pool in
      let a = e.alloc (if n == 0 then 1 else n) s.ctx in
      let s1 : Sys e = record s { ctx = a.1 } in
      let k =
        rounds_inv select_deletes delete_round (λ x s'. Keeping s x s') (delete_round-Keeping s)
          (n + 1) (slots_of s.w.pool) s1 (Keeping-start s s1 refl refl h) in
      let done = Keeping-Safe k in
      elim (Bool-cases a.0) [
        | inr no_room ↦ rw no_room (Safe-Steady (Safe-refl h) (ground arith))
        | inl room ↦ rw room (Safe-trans done (remove_jobs-Safe given_up _ done.sound))
      ]

  -- A hand-off keeps the worker sound: no delete goes out before its result is accepted.
  pub handoff-Safe : (s : Sys e) → Sound s → Safe s (handoff s)
  unfolding handoff
  handoff-Safe s h =
      let s0 : Sys e = on_worker (remove_jobs too_big) s in
      let first = remove_jobs-Safe too_big s h in
      let second = Safe-trans first (send_results-Safe s0 first.sound) in
      elim (Bool-cases (send_results s0).0) [
        | inl sending ↦ rw sending (Safe-trans second (delete_jobs-Safe _ second.sound))
        | inr failed ↦ rw failed second
      ]
