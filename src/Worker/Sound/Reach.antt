-- ===== src/Worker/Sound/Reach.antt =====
-- The states that a run of the worker reaches: the steps of its task, worker.c, with the calls of other
-- tasks between them, in any order, and surroundings that answer anything.
use claude_chats.Prelude.{
  ◌≤◌, ◌≡◌, refl, true, List, [], ◌∷◌, length, All, In, ℕ, inl, inr, arith, Bytes,
}
use mathlib.Core.Path.{subst}
use claude_chats.Prep.{prep_max_tokens}
use claude_chats.Worker.Pass.{sum}
use claude_chats.Worker.Types.{Config, worker_init}
use claude_chats.Worker.Env.{
  Env, Event, received, sent, deleted, made_visible, embed_started, Sys, on_worker,
}
use claude_chats.Worker.Step.{worker_step, worker_set_sick, worker_request_park, worker_resume}
use claude_chats.Worker.Sound.{JobOk, held_sum, Contract, DeletesJustified, InLedger, Packed}
use claude_chats.Worker.Sound.Stepping.{
  Good, worker_step-Good, worker_set_sick-Good, worker_request_park-Good, worker_resume-Good,
}

-- The states that a worker comes to from `worker_init`.
pub data Reach (e : Env) (cfg : Config) : Sys e → Type 0 where
  begins : (c : e.Ctx) → Reach e cfg (record { w = worker_init cfg; ctx = c; log = [] })
  steps : (s : Sys e) → Reach e cfg s → Reach e cfg (worker_step s).1
  sickens : (why : Bytes) (s : Sys e) → Reach e cfg s → Reach e cfg (worker_set_sick why s)
  parks : (s : Sys e) → Reach e cfg s → Reach e cfg (on_worker worker_request_park s)
  resumes : (s : Sys e) → Reach e cfg s → Reach e cfg (on_worker worker_resume s)

ledger-DeletesJustified : (log : List Event) → InLedger log → DeletesJustified log
ledger-DeletesJustified [] h = tt
ledger-DeletesJustified (deleted r ∷ log) h = (h.0, ledger-DeletesJustified log h.1)
ledger-DeletesJustified (embed_started lens ∷ log) h = ledger-DeletesJustified log h.1
ledger-DeletesJustified (received m ∷ log) h = ledger-DeletesJustified log h
ledger-DeletesJustified (sent b ok ∷ log) h = ledger-DeletesJustified log h
ledger-DeletesJustified (made_visible r n ∷ log) h = ledger-DeletesJustified log h

ledger-Packed :
    (log : List Event) (lens : List ℕ) → InLedger log → In (embed_started lens) log → Packed lens
ledger-Packed [] lens h there = absurd there
ledger-Packed (deleted r ∷ log) lens h (inl here) = absurd (cc here)
ledger-Packed (deleted r ∷ log) lens h (inr there) = ledger-Packed log lens h.1 there
ledger-Packed (embed_started ls ∷ log) lens h (inl here) =
    let same : ls ≡ lens = cc in subst Packed same h.0
ledger-Packed (embed_started ls ∷ log) lens h (inr there) = ledger-Packed log lens h.1 there
ledger-Packed (received m ∷ log) lens h (inl here) = absurd (cc here)
ledger-Packed (received m ∷ log) lens h (inr there) = ledger-Packed log lens h there
ledger-Packed (sent b ok ∷ log) lens h (inl here) = absurd (cc here)
ledger-Packed (sent b ok ∷ log) lens h (inr there) = ledger-Packed log lens h there
ledger-Packed (made_visible r n ∷ log) lens h (inl here) = absurd (cc here)
ledger-Packed (made_visible r n ∷ log) lens h (inr there) = ledger-Packed log lens h there

module _ {e : Env} (k : Contract e) {cfg : Config} where
  Reach-Good : {s : Sys e} → Reach e cfg s → Good s
  unfolding worker_init
  Reach-Good (begins c) = record {
    sound = record { jobs = tt; tokens = unfold held_sum in refl; room = omega arith; ledger = tt };
    parked_empty = λ now. refl;
  }
  Reach-Good (steps s r) = worker_step-Good k s (Reach-Good r)
  Reach-Good (sickens why s r) = worker_set_sick-Good why s (Reach-Good r)
  Reach-Good (parks s r) = worker_request_park-Good s (Reach-Good r)
  Reach-Good (resumes s r) = worker_resume-Good s (Reach-Good r)

  -- Where the tokeniser and ReceiveMessage keep to what they were asked for: in every state that a
  -- run can reach, each delete sent so far was of the receipt of a message received before it, for
  -- which SQS had accepted, before it, the results message with that message's body, id and count.
  pub deletes_follow_results : {s : Sys e} → Reach e cfg s → DeletesJustified s.log
  deletes_follow_results {s} r = ledger-DeletesJustified s.log (Reach-Good r).sound.ledger

  -- Where the tokeniser and ReceiveMessage keep to what they were asked for, in every state that a
  -- run can reach: the pool holds at most `pool_max` jobs.
  pub pool_bounded : {s : Sys e} → Reach e cfg s → length s.w.pool ≤ s.w.cfg.pool_max
  pool_bounded r = (Reach-Good r).sound.room

  -- Where the tokeniser and ReceiveMessage keep to what they were asked for, in every state that a
  -- run can reach: `pool_tokens` is the sum of the ids of the pending jobs.
  pub pool_tokens_exact : {s : Sys e} → Reach e cfg s → s.w.pool_tokens ≡ held_sum s.w.pool
  pool_tokens_exact r = (Reach-Good r).sound.tokens

  -- Where the tokeniser and ReceiveMessage keep to what they were asked for, in every state that a
  -- run can reach: each job in the pool is of a message received; a pending one has its body still
  -- and from 2 to 512 ids, as many as its `n_ids` says; any other has its results message, and one
  -- that is to be deleted has had it accepted by SQS.
  pub jobs_well_formed : {s : Sys e} → Reach e cfg s → All (JobOk s.log) s.w.pool
  jobs_well_formed r = (Reach-Good r).sound.jobs

  -- Where the tokeniser and ReceiveMessage keep to what they were asked for, in every state that a
  -- run can reach: a parked worker holds no job.
  pub parked_holds_nothing : {s : Sys e} → Reach e cfg s → s.w.parked ≡ true → s.w.pool ≡ []
  parked_holds_nothing r = (Reach-Good r).parked_empty

  -- Where the tokeniser and ReceiveMessage keep to what they were asked for: each call of the model on
  -- record, in every state that a run can reach, was with at most 512 ids, the room of its buffer, and
  -- with at most 64 messages, the room of its arrays.
  pub passes_fit :
      {s : Sys e} (lens : List ℕ)
      → Reach e cfg s
      → In (embed_started lens) s.log
      → (sum lens ≤ prep_max_tokens) × (length lens ≤ 64)
  passes_fit {s} lens r there = ledger-Packed s.log lens (Reach-Good r).sound.ledger there
