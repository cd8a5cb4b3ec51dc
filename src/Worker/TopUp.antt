-- ===== src/Worker/TopUp.antt =====
-- `top_up` of esp32-embedder/worker/worker.c: messages received into the pool while it has room.
use claude_chats.Prelude.{
  ℕ, zero, suc, ◌+◌, ◌-◌, ◌/◌, Bool, true, false, not, ◌&&◌, ◌||◌, none, some, List, [], ◌∷◌, ◌++◌,
  length, ltb, leb, ◌==◌, if◌then◌else◌, is_none,
}
use claude_chats.Worker.Types.{
  Msg, Job, fresh_job, is_pending, worst_body, max_receive, long_poll_s, visibility_s, Worker,
}
use claude_chats.Worker.Env.{Env, received, Sys, on_worker, on_log, ask}
use claude_chats.Worker.Pool.{held, pool_bytes, set_error}
use claude_chats.Worker.Arrive.{Verdict, keep, drop, later, arrive}

-- How many messages a ReceiveMessage may ask for.
unfoldable pub receive_max : Worker → ℕ
receive_max w =
    let used = pool_bytes w.pool in
    let room = if ltb used w.cfg.pool_budget then (w.cfg.pool_budget - used) / worst_body else 0 in
    let most = if ltb room 10 then room else 10 in
    let free = w.cfg.pool_max - length w.pool in if ltb free most then free else most

abbrev pub is_kept : Verdict → Bool
is_kept keep = true
is_kept drop = false
is_kept later = false

module _ {e : Env} where
  -- A job that has arrived stays at the end of the pool, or is removed from there.
  unfoldable pub place : Verdict → Job → Sys e → Sys e
  place verdict j s =
      if not (is_kept verdict) || is_pending j && is_none j.ids
      then on_worker (λ w. record w { pool_tokens = w.pool_tokens - held j }) s
      else on_worker (λ w. record w { pool = w.pool ++ (j ∷ []) }) s

  unfoldable pub admit : Msg → Sys e → Sys e
  admit m s =
      let ((verdict, j), s') = arrive e (fresh_job m) (on_log (received m ∷ []) s) in
      place verdict j s'

  unfoldable pub admit_all : List Msg → Sys e → Sys e
  admit_all [] s = s
  admit_all (m ∷ ms) s = admit_all ms (admit m s)

  -- The loop with so many rounds left; the count is of the messages that arrived.
  unfoldable pub top_up_from : ℕ → ℕ → Sys e → ℕ × Sys e
  top_up_from zero arrived s = (arrived, s)
  top_up_from (suc left) arrived s =
      let most = receive_max s.w in
      if leb s.w.cfg.target_tokens s.w.pool_tokens || ltb most 1
      then (arrived, s)
      else (let (got, s1) =
            ask e (e.receive most (if length s.w.pool == 0 then long_poll_s else 0) visibility_s)
              s in
          elim got [
            | none ↦ (arrived, on_worker (set_error (e.sqs_error s1.ctx)) s1)
            | some [] ↦ (arrived, s1)
            | some (m ∷ ms) ↦ top_up_from left (arrived + length (m ∷ ms)) (admit_all (m ∷ ms) s1)
          ])

  unfoldable pub top_up : Sys e → ℕ × Sys e
  top_up s = top_up_from max_receive 0 s
