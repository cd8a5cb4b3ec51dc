-- ===== src/Worker/Sound.antt =====
-- The invariant of the worker, worker.c, and of the record of its calls on the queues.
pub mod Ledger
pub mod Slots
pub mod Arrivals
pub mod Settled
pub mod Receiving
pub mod Sending
pub mod Deleting
pub mod Hiding
pub mod Building
pub mod Picking
pub mod Passing
pub mod Outcomes
pub mod Running
pub mod Stepping
pub mod Packing
pub mod Reach
use claude_chats.Prelude.{
  ℕ, ◌+◌, ◌≤◌, ◌≡◌, true, Option, none, some, List, [], ◌∷◌, ◌++◌, length, All, In, Bytes,
}
use claude_chats.Prep.{prep_max_tokens}
use claude_chats.Result.{KataResult}
use claude_chats.Result.Laws.{result_text}
use claude_chats.Worker.Types.{
  Msg, Job, JobState, pending, has_result, to_delete, bytes_or_nil, ids_or_nil,
}
use claude_chats.Worker.Env.{Env, Event, received, sent, deleted, made_visible, embed_started, Sys}
use claude_chats.Worker.Pass.{sum}
use claude_chats.Worker.Pool.{held}

-- The bytes are a results message for this ingest message, its body in it as it was received.
abbrev pub IsResultOf : Msg → Bytes → Type 0
IsResultOf m b =
    (r : KataResult) × (b ≡ result_text r)
    × (r.envelope ≡ m.body)
    × (r.message_id ≡ some m.message_id)
    × (r.receive_count ≡ m.receive_count)

-- A result for this message that SQS has accepted.
abbrev pub HandedOn : List Event → Msg → Type 0
HandedOn log m = (b : Bytes) × IsResultOf m b × In (sent b true) log

-- Every delete on record names the receipt of a message received before it, for which SQS had
-- accepted a result before it.
abbrev pub DeletesJustified : List Event → Type 0
DeletesJustified [] = Unit
DeletesJustified (deleted receipt ∷ older) =
    ((m : Msg) × (m.receipt ≡ receipt) × In (received m) older × HandedOn older m)
    × DeletesJustified older
DeletesJustified (received m ∷ older) = DeletesJustified older
DeletesJustified (_ ∷ older) = DeletesJustified older

-- The lengths of the messages of a pass: their ids fit in its buffer, and its arrays have room for them.
abbrev pub Packed : List ℕ → Type 0
Packed lens = (sum lens ≤ prep_max_tokens) × (length lens ≤ 64)

-- What is true of each event on record, given those before it.
abbrev pub InLedger : List Event → Type 0
InLedger [] = Unit
InLedger (deleted receipt ∷ older) =
    ((m : Msg) × (m.receipt ≡ receipt) × In (received m) older × HandedOn older m) × InLedger older
InLedger (embed_started lens ∷ older) = Packed lens × InLedger older
InLedger (received m ∷ older) = InLedger older
InLedger (sent b ok ∷ older) = InLedger older
InLedger (made_visible r seconds ∷ older) = InLedger older

-- What a job holds, by its state.
abbrev pub Carries : List Event → JobState → Job → Type 0
Carries log pending j =
    (j.body ≡ some j.m.body)
    × (length (ids_or_nil j.ids) ≡ j.n_ids)
    × (2 ≤ j.n_ids)
    × (j.n_ids ≤ prep_max_tokens)
Carries log has_result j = IsResultOf j.m (bytes_or_nil j.result)
Carries log to_delete j =
    IsResultOf j.m (bytes_or_nil j.result) × In (sent (bytes_or_nil j.result) true) log

abbrev pub JobOk : List Event → Job → Type 0
JobOk log j = In (received j.m) log × Carries log j.state j

-- The tokens of the pending jobs.
unfoldable pub held_sum : List Job → ℕ
held_sum [] = 0
held_sum (j ∷ js) = held j + held_sum js

-- The jobs, held by the worker `s`, and its record of what it did.
pub record Holds {e : Env} (js : List Job) (s : Sys e) : Type 0 where
  pub jobs : All (JobOk s.log) js
  pub tokens : s.w.pool_tokens ≡ held_sum js
  pub room : length js ≤ s.w.cfg.pool_max
  pub ledger : InLedger s.log

abbrev pub Sound : {e : Env} → Sys e → Type 0
Sound s = Holds s.w.pool s

-- What the callbacks promise: the tokeniser writes at most as many ids as it was given room for, and
-- ReceiveMessage, asked for at least one message, returns at most as many as it was asked for.
pub record Contract (e : Env) : Type 0 where
  pub tokenise_le :
      (text : Bytes) (most : ℕ) (c c' : e.Ctx) (l : List ℕ)
      → e.tokenise text most c ≡ (some l, c')
      → length l ≤ most
  pub receive_le :
      (most wait seconds : ℕ) (c c' : e.Ctx) (ms : List Msg)
      → 1 ≤ most
      → e.receive most wait seconds c ≡ (some ms, c')
      → length ms ≤ most
