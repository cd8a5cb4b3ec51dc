-- ===== src/Worker/Rounds.antt =====
-- The batch loops of esp32-embedder/worker/worker.c: `for (;;)` that picks up to ten jobs not yet
-- tried, makes one call for them, settles each, and ends when nothing is left or a call fails.
pub mod Ends
use claude_chats.Prelude.{
  ℕ, zero, suc, ◌+◌, Bool, true, false, ◌&&◌, not, none, some, List, [], ◌∷◌, get_elem?, modify,
  leb, if◌then◌else◌, Bytes,
}
use claude_chats.Worker.Types.{Job, sqs_max_batch}
use claude_chats.Worker.Env.{Env, Sys}

-- A job of the pool with its flag in `tried[]` or `att[]`.
pub record Slot : Type 0 where
  pub job : Job
  pub tried : Bool

abbrev pub slots_of : List Job → List Slot
slots_of [] = []
slots_of (j ∷ js) = record { job = j; tried = false } ∷ slots_of js

abbrev pub jobs_of : List Slot → List Job
jobs_of [] = []
jobs_of (x ∷ xs) = x.job ∷ jobs_of xs

-- The loop that fills `idx[]`: `k` are picked, `room` is what the batch's bodies may still add, and
-- `size` what a job adds; 0 everywhere where there is no such limit.
unfoldable pub select : (Job → Bool) → (Job → ℕ) → ℕ → ℕ → ℕ → ℕ → List Slot → List ℕ
select want size limit i k total [] = []
select want size limit i k total (x ∷ xs) =
    let fits = want x.job && (not x.tried && leb (total + size x.job) limit) in
    let rest =
      select want size limit (i + 1) (if fits then k + 1 else k)
        (if fits then total + size x.job else total) xs in
    if leb sqs_max_batch k then [] else (if fits then i ∷ rest else rest)

-- What the call is given for each picked job.
unfoldable pub gather : (Job → Bytes) → List ℕ → List Slot → List Bytes
gather what [] slots = []
gather what (i ∷ is) slots = elim (get_elem? slots i) [
  | none ↦ gather what is slots
  | some x ↦ what x.job ∷ gather what is slots
]

-- The loop over the reply: entry `b` of the batch is the job at the next index.
unfoldable pub settle_each : (Bool → Job → Job) → (ℕ → Bool) → ℕ → List ℕ → List Slot → List Slot
settle_each f ok b [] slots = slots
settle_each f ok b (i ∷ is) slots =
    settle_each f ok (b + 1) is
      (modify slots i (λ x. record { job = f (ok b) x.job; tried = true }))

-- How many of the entries `b`, `b + 1`, … of the batch were accepted.
unfoldable pub accepted : (ℕ → Bool) → ℕ → List ℕ → ℕ
accepted ok b [] = 0
accepted ok b (i ∷ is) = (if ok b then 1 else 0) + accepted ok (b + 1) is

-- `for (;;)` on fuel; a round's `true` is its `break`.
module _ {e : Env} {S : Type 0} (pick : S → List ℕ)
    (round : List ℕ → S → Sys e → (Bool × S) × Sys e) where
  unfoldable pub rounds : ℕ → S → Sys e → S × Sys e
  rounds zero a s = (a, s)
  rounds (suc fuel) a s = elim (pick a) [
    | [] ↦ (a, s)
    | i ∷ is ↦
        let ((stop, a'), s') = round (i ∷ is) a s in
        let rest = rounds fuel a' s' in if stop then (a', s') else rest
  ]
