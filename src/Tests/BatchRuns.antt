-- ===== src/Tests/BatchRuns.antt =====
-- esp32-embedder/test/test_batch.c's kind of queues, planned.
use claude_chats.Prelude.{ℕ, ◌+◌, ◌<◌, List, [], ◌∷◌, ◌≡◌, refl, arith}
use claude_chats.Batch.{batch_plan}
use claude_chats.Batch.Bounds.{picked, InOrder, batch_plan-InOrder}
use claude_chats.Batch.Greedy.{batch_plan_greedy}

abbrev queue : List ℕ
queue = 100 ∷ 300 ∷ 200 ∷ 50 ∷ []

plan_passes_over : batch_plan queue 512 500 ≡ 0 ∷ 1 ∷ 3 ∷ []
unfolding batch_plan
plan_passes_over = refl

batch_plan-InOrder_example : (is : List ℕ) × (batch_plan queue 512 500 ≡ 0 ∷ is) × InOrder 1 4 is
batch_plan-InOrder_example = batch_plan-InOrder 100 (300 ∷ 200 ∷ 50 ∷ []) 512 500

-- 450 tokens are under the target, and the message of 200 would not fit beside them.
batch_plan_greedy_example : 512 < picked queue (batch_plan queue 512 500) + 200
unfolding batch_plan
batch_plan_greedy_example =
    batch_plan_greedy 100 (300 ∷ 200 ∷ 50 ∷ []) 512 500 2 (omega arith) (omega arith) (omega arith)
      (ground arith)
