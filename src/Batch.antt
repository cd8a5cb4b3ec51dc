-- ===== src/Batch.antt =====
-- `batch_plan` of esp32-embedder/worker/batch.c: which queued messages go into the next pass.
pub mod Bounds
pub mod Greedy
use claude_chats.Prelude.{ℕ, ◌+◌, ◌-◌, List, [], ◌∷◌, ◌&&◌, ltb, leb, if◌then◌else◌}

-- The loop from queue index `i` on, with `total` tokens picked so far.
unfoldable pub plan_rest : ℕ → ℕ → ℕ → ℕ → List ℕ → List ℕ
plan_rest cap target total i [] = []
plan_rest cap target total i (l ∷ ls) =
    let pick = i ∷ plan_rest cap target (total + l) (i + 1) ls in
    let pass_over = plan_rest cap target total (i + 1) ls in
    if ltb total target && ltb total cap
    then (if leb l (cap - total) then pick else pass_over)
    else []

-- The lengths are those of the queued messages, oldest first; the result is the queue indices.
unfoldable pub batch_plan : List ℕ → ℕ → ℕ → List ℕ
unfolding plan_rest
batch_plan [] cap target = []
batch_plan (l ∷ ls) cap target = 0 ∷ plan_rest cap target l 1 ls
