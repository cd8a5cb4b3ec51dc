-- ===== src/Batch/Bounds.antt =====
-- `batch_plan` of esp32-embedder/worker/batch.c: the order of a plan and the tokens it holds.
use claude_chats.Prelude.{ℕ, suc, ◌+◌, ◌≤◌, ◌<◌, ◌≡◌, refl, List, [], ◌∷◌, arith, length, get_or}
use claude_chats.Batch.{plan_rest, batch_plan}

-- The tokens of the picked messages.
abbrev pub picked : List ℕ → List ℕ → ℕ
picked lens [] = 0
picked lens (i ∷ is) = get_or lens i 0 + picked lens is

-- Indices in queue order, each at least `lo` and below `n`.
abbrev pub InOrder : ℕ → ℕ → List ℕ → Type 0
InOrder lo n [] = Unit
InOrder lo n (i ∷ is) = (lo ≤ i) × (i < n) × InOrder (i + 1) n is

InOrder-weaken : (lo lo' n : ℕ) (is : List ℕ) → lo' ≤ lo → InOrder lo n is → InOrder lo' n is
InOrder-weaken lo lo' n [] h o = tt
InOrder-weaken lo lo' n (i ∷ is) h o = (omega arith, o.1, o.2)

plan_rest-InOrder :
    (cap target total i n : ℕ) (ls : List ℕ)
    → i + length ls ≤ n
    → InOrder i n (plan_rest cap target total i ls)
unfolding plan_rest
plan_rest-InOrder cap target total i n [] h = tt
plan_rest-InOrder cap target total i n (l ∷ ls) h = ground (
  arith,
  plan_rest-InOrder cap target (total + l) (i + 1) n ls,
  plan_rest-InOrder cap target total (i + 1) n ls,
  InOrder-weaken (i + 1) i n (plan_rest cap target total (i + 1) ls),
)

-- The plan of a queue that is not empty starts with the oldest message, and goes on in queue
-- order with indices inside the queue.
pub batch_plan-InOrder :
    (l : ℕ) (ls : List ℕ) (cap target : ℕ)
    → (is : List ℕ) × (batch_plan (l ∷ ls) cap target ≡ 0 ∷ is) × InOrder 1 (length (l ∷ ls)) is
unfolding batch_plan
batch_plan-InOrder l ls cap target = (
  plan_rest cap target l 1 ls,
  refl,
  plan_rest-InOrder cap target l 1 (suc (length ls)) ls (omega arith),
)
