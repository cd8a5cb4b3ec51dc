-- ===== src/Sqs/Received.antt =====
-- The messages that `sqs_receive` of esp32-embedder/worker/sqs.c returns.
use claude_chats.Prelude.{ℕ, ◌+◌, ◌≤◌, ◌<◌, List, [], ◌∷◌, length, arith}
use claude_chats.Sqs.{Reading, clamp_max, read_message, read_messages}

clamp_max_lem :
    (most : ℕ) → (0 < clamp_max most) × (clamp_max most ≤ 10) × (1 ≤ most → clamp_max most ≤ most)
unfolding clamp_max
clamp_max_lem most = ground arith

module _ (r : Reading) where
  -- However many messages the reply holds: no more are taken than are still wanted.
  read_messages-le :
      (max k : ℕ) (ms : List r.Node) (c : r.Ctx)
      → k < max
      → k + length (read_messages r max k ms c).0 ≤ max
  unfolding read_messages
  read_messages-le max k [] c h = omega arith
  read_messages-le max k (m ∷ ms) c h = ground (
    arith,
    read_messages-le max k ms (read_message r m c).1 h,
    read_messages-le max (k + 1) ms (read_message r m c).1,
  )

  -- Whatever the reply holds, at most as many messages are returned as were asked for, and never more
  -- than ten: a reply of more cannot overrun the pool. A `most` of 0 counts as 1.
  pub sqs_receive-le :
      (most : ℕ) (ms : List r.Node) (c : r.Ctx)
      → (length (read_messages r (clamp_max most) 0 ms c).0 ≤ 10)
        × (1 ≤ most → length (read_messages r (clamp_max most) 0 ms c).0 ≤ most)
  sqs_receive-le most ms c =
      let ask = clamp_max_lem most in
      let le = read_messages-le (clamp_max most) 0 ms c ask.0 in
      (omega (arith, le, ask.1), λ h. omega (arith, le, ask.2 h))
