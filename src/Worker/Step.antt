-- ===== src/Worker/Step.antt =====
-- `worker_step` of esp32-embedder/worker/worker.c, and the calls that other tasks make.
use claude_chats.Prelude.{
  ℕ, ◌+◌, ◌*◌, Bool, true, false, not, ◌&&◌, ◌||◌, Option, none, some, length, ltb, ◌==◌,
  if◌then◌else◌, Bytes,
}
use claude_chats.Worker.Types.{
  is_pending, is_result, is_delete, Activity, idle, receiving, embedding, handing_off, sick_state,
  parked_state, checking, Worker, kata_unhealthy, visibility_s, idle_s, retry_first_s, retry_max_s,
  health_every_s, bad_passes_limit,
}
use claude_chats.Worker.Env.{Env, Sys, on_worker, ask, count}
use claude_chats.Worker.Pool.{set_error, roll_today, any_job, remove_jobs, unembed_pool}
use claude_chats.Worker.Handoff.{handoff}
use claude_chats.Worker.Visibility.{visibility}
use claude_chats.Worker.TopUp.{top_up}
use claude_chats.Worker.Pass.{pass, go_sick}

abbrev pub set_state : Activity → Worker → Worker
set_state a w = record w { state = a }

-- `w->state = w->sick ? "sick" : ...`
abbrev pub rest_as : Activity → Worker → Worker
rest_as a w = record w { state = if w.sick then sick_state else a }

abbrev pub next_retry : ℕ → ℕ
next_retry r =
    if r == 0 then retry_first_s else (if ltb retry_max_s (r * 2) then retry_max_s else r * 2)

-- Some result or delete is still to go out.
abbrev pub undelivered : Worker → Bool
undelivered w = any_job is_result w.pool || any_job is_delete w.pool

module _ {e : Env} where
  unfoldable pub backoff : Sys e → ℕ × Sys e
  backoff s =
      (next_retry s.w.retry_s, on_worker (λ w. record w { retry_s = next_retry w.retry_s }) s)

  -- A sick worker's check of itself, when it is due.
  unfoldable pub check_health : Sys e → Sys e
  check_health s =
      let (t, s1) = ask e e.now s in
      let (healthy, s2) = ask e e.health (on_worker (set_state checking) s1) in
      let (t', s3) = ask e e.now s2 in
      if not (s.w.sick && not s.w.park_requested)
      then s
      else if ltb t s.w.next_health
      then s1
      else if healthy
      then on_worker (λ w. record w { sick = false; bad_in_row = 0 }) s2
      else on_worker (λ w. record w { next_health = t' + health_every_s }) s3

  -- After the hand-off, when a park is requested: what is left is released, and the worker parks once
  -- it holds nothing.
  unfoldable pub park : Sys e → ℕ × Sys e
  park s =
      let s1 = (visibility true 0 s).1 in
      let s2 = on_worker (remove_jobs is_pending) s1 in
      let s3 = record s2 { ctx = e.net_end s2.ctx } in
      let (why, s4) = ask e e.net_begin s3 in
      let s5 = (visibility false visibility_s s4).1 in
      let s6 = record s5 { ctx = e.net_end s5.ctx } in
      if length s2.w.pool == 0
      then (
        0,
        on_worker (λ w. record w { progress_at = 0; parked = true; state = parked_state }) s3,
      )
      else (5, on_worker (set_state handing_off) (elim why [ none ↦ s6 | some msg ↦ s4 ]))

  -- After the hand-off, when some of it did not go through: everything stays hidden.
  unfoldable pub hold : Sys e → ℕ × Sys e
  hold s =
      let s1 = (visibility false visibility_s s).1 in
      let s2 = record s1 { ctx = e.net_end s1.ctx } in backoff (on_worker (rest_as handing_off) s2)

  -- The stall clock: it runs while there is work.
  unfoldable pub note_progress : ℕ → Sys e → Sys e
  note_progress arrived s =
      let (t, s1) = ask e e.now s in
      if length s.w.pool == 0 && arrived == 0
      then on_worker (λ w. record w { progress_at = 0 }) s
      else if s.w.progress_at == 0
      then on_worker (λ w. record w { progress_at = t }) s1
      else s

  -- The rest of the network phase: messages received, sorted, and kept hidden.
  unfoldable pub receive_phase : Sys e → (ℕ × Bool) × Sys e
  receive_phase s =
      let (arrived, s1) = top_up (on_worker (set_state receiving) s) in
      let s2 = if s1.w.sick then unembed_pool kata_unhealthy s1 else s1 in
      let s3 = if any_job is_result s2.w.pool then handoff s2 else s2 in
      let (failed, s4) = visibility false visibility_s (note_progress arrived s3) in
      ((arrived, failed), record s4 { ctx = e.net_end s4.ctx })

  -- What follows a network phase that went through: a pass, or the wait for the next step.
  unfoldable pub after_phase : ℕ → Sys e → ℕ × Sys e
  after_phase arrived s =
      if any_job is_pending s.w.pool && not s.w.sick
      then (0, on_worker (rest_as idle) (pass (on_worker (set_state embedding) s)))
      else if undelivered s.w
      then (0, on_worker (rest_as idle) s)
      else (if arrived == 0 then idle_s else 5, on_worker (rest_as idle) s)

  -- After a hand-off that left nothing undelivered.
  unfoldable pub work : Sys e → ℕ × Sys e
  work s =
      let ((arrived, failed), s1) = receive_phase s in
      if failed
      then backoff (on_worker (rest_as idle) s1)
      else after_phase arrived (on_worker (λ w. record w { retry_s = 0 }) s1)

  -- Within a network phase.
  unfoldable pub network : Sys e → ℕ × Sys e
  network s =
      let s1 = handoff s in
      if s1.w.park_requested then park s1 else if undelivered s1.w then hold s1 else work s1

  -- Once `net_begin` has answered: NULL, or what went wrong.
  unfoldable pub begun : Option Bytes → Sys e → ℕ × Sys e
  begun none s = network s
  begun (some msg) s = backoff (
      on_worker
        (λ w.
          rest_as idle
            (set_error msg (count (λ c. record c { phase_failures = c.phase_failures + 1 }) w)))
        s)

  -- The seconds to wait before the next step.
  unfoldable pub worker_step : Sys e → ℕ × Sys e
  worker_step s0 =
      let s1 = roll_today s0 in
      let s2 = on_worker (set_state handing_off) (check_health s1) in
      let (why, s3) = ask e e.net_begin s2 in
      if s1.w.parked then (5, on_worker (set_state parked_state) s1) else begun why s3

  unfoldable pub worker_set_sick : Bytes → Sys e → Sys e
  worker_set_sick why s =
      on_worker (set_state sick_state)
        (go_sick (on_worker (λ w. set_error why (record w { bad_in_row = bad_passes_limit })) s))

unfoldable pub worker_request_park : Worker → Worker
worker_request_park w = record w { park_requested = true }

unfoldable pub worker_resume : Worker → Worker
worker_resume w = rest_as idle (record w { park_requested = false; parked = false })
