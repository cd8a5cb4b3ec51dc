-- ===== src/Worker/Waits.antt =====
-- The waits that `worker_step` asks for and the back-off of its retries, worker.c.
use claude_chats.Prelude.{
  ℕ, zero, suc, ◌≤◌, ◌*◌, ◌^◌, min, ◌≡◌, ◌&&◌, not, none, some, Option, arith, if-elim, Bytes,
}
use claude_chats.Worker.Types.{is_pending, retry_first_s, retry_max_s}
use claude_chats.Worker.Env.{Env, Sys}
use claude_chats.Worker.Pool.{roll_today, any_job}
use claude_chats.Worker.Handoff.{handoff}
use claude_chats.Worker.Step.{
  next_retry, undelivered, backoff, park, hold, receive_phase, after_phase, work, network, begun,
  worker_step,
}

next_retry-le : (r : ℕ) → next_retry r ≤ retry_max_s
next_retry-le r = ground arith

-- `n` failures after the last success.
unfoldable pub after_failures : ℕ → ℕ
after_failures zero = 0
after_failures (suc n) = next_retry (after_failures n)

module _ {e : Env} where
  backoff-le : (s : Sys e) → (backoff s).0 ≤ retry_max_s
  unfolding backoff
  backoff-le s = next_retry-le s.w.retry_s

  abbrev Short : ℕ × Sys e → Type 0
  Short r = r.0 ≤ retry_max_s

  park-le : (s : Sys e) → (park s).0 ≤ retry_max_s
  unfolding park
  park-le s = ground arith

  after_phase-le : (arrived : ℕ) (s : Sys e) → (after_phase arrived s).0 ≤ retry_max_s
  unfolding after_phase
  after_phase-le arrived s =
      if-elim Short (any_job is_pending s.w.pool && not s.w.sick) (λ runs. omega arith)
        (λ waits. if-elim Short (undelivered s.w) (λ left. omega arith) (λ done. ground arith))

  work-le : (s : Sys e) → (work s).0 ≤ retry_max_s
  unfolding work
  work-le s =
      if-elim Short (receive_phase s).0.1 (λ failed. backoff-le _)
        (λ fine. after_phase-le (receive_phase s).0.0 _)

  network-le : (s : Sys e) → (network s).0 ≤ retry_max_s
  unfolding network hold
  network-le s =
      if-elim Short (handoff s).w.park_requested (λ asked. park-le (handoff s))
        (λ free.
          if-elim Short (undelivered (handoff s).w) (λ left. backoff-le _)
            (λ clear. work-le (handoff s)))

  begun-le : (why : Option Bytes) (s : Sys e) → (begun why s).0 ≤ retry_max_s
  unfolding begun
  begun-le none s = network-le s
  begun-le (some msg) s = backoff-le _

  -- A step asks for a wait of at most five minutes, whatever its surroundings answer.
  pub worker_step-le : (s : Sys e) → (worker_step s).0 ≤ retry_max_s
  unfolding worker_step
  worker_step-le s =
      if-elim Short (roll_today s).w.parked (λ parked. omega arith) (λ awake. begun-le _ _)

next_retry-min :
    (p : ℕ)
    → 1 ≤ p
    → next_retry (min (retry_first_s * p) retry_max_s) ≡ min (retry_first_s * (p * 2)) retry_max_s
next_retry-min p h = ground arith

pow_pos : (n : ℕ) → 1 ≤ 2 ^ n
pow_pos zero = omega arith
pow_pos (suc n) = omega (arith, pow_pos n)

-- The retry after `n + 1` failures in a row: 30 s, doubled up to four times, and 300 s from then on.
pub after_failures_lem : (n : ℕ) → after_failures (suc n) ≡ min (retry_first_s * 2 ^ n) retry_max_s
unfolding after_failures
after_failures_lem zero = ground arith
after_failures_lem (suc n) =
    let q : 2 ^ suc n ≡ 2 ^ n * 2 = omega arith in
    rw (after_failures_lem n, q) (next_retry-min (2 ^ n) (pow_pos n))
