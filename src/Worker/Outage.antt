-- ===== src/Worker/Outage.antt =====
-- The waits between the steps of a worker whose network does not come up, worker.c.
use claude_chats.Prelude.{
  ℕ, zero, suc, ◌*◌, ◌^◌, min, ◌≡◌, refl, ap, ◌∙◌, false, Bool-cases, if-elim, inl, inr, not, ◌&&◌,
  Option, none, some, Bytes, bytes_eq, ltb,
}
use claude_chats.Kw.Time.{kw_ymd}
use claude_chats.Worker.Env.{Env, Sys}
use claude_chats.Worker.Pool.{roll_today}
use claude_chats.Worker.Step.{next_retry, backoff, check_health, begun, worker_step}
use claude_chats.Worker.Waits.{after_failures, after_failures_lem}

module _ {e : Env} where
  -- Back-off and parking as they were.
  abbrev Same : Sys e → Sys e → Type 0
  Same s s' = (s'.w.retry_s ≡ s.w.retry_s) × (s'.w.parked ≡ s.w.parked)

  roll_today-Same : (s : Sys e) → Same s (roll_today s)
  unfolding roll_today
  roll_today-Same s = elim (Bool-cases (bytes_eq (kw_ymd (e.now s.ctx).0) s.w.today_ymd)) [
    | inl same_day ↦ rw same_day (refl, refl)
    | inr new_day ↦ rw new_day (refl, refl)
  ]

  check_health-Same : (s : Sys e) → Same s (check_health s)
  unfolding check_health
  check_health-Same s =
      let t = e.now s.ctx in
      let c = e.health t.1 in
      elim (Bool-cases (not (s.w.sick && not s.w.park_requested))) [
        | inl idle_sick ↦ rw idle_sick (refl, refl)
        | inr asks ↦ elim (Bool-cases (ltb t.0 s.w.next_health)) [
          | inl early ↦ rw (asks, early) (refl, refl)
          | inr due ↦ elim (Bool-cases c.0) [
            | inl well ↦ rw (asks, due, well) (refl, refl)
            | inr ill ↦ rw (asks, due, ill) (refl, refl)
          ]
        ]
      ]

  -- The states after so many steps.
  unfoldable pub after_steps : ℕ → Sys e → Sys e
  after_steps zero s = s
  after_steps (suc n) s = (worker_step (after_steps n s)).1

  -- An answer of a step that backs off from this wait, and leaves the worker awake.
  abbrev BacksOff : ℕ → ℕ × Sys e → Type 0
  BacksOff r x = (x.0 ≡ next_retry r) × (x.1.w.retry_s ≡ next_retry r) × (x.1.w.parked ≡ false)

  begun-BacksOff :
      (o : Option Bytes) (why : Bytes) (r : ℕ) (s : Sys e)
      → o ≡ some why
      → s.w.retry_s ≡ r
      → s.w.parked ≡ false
      → BacksOff r (begun o s)
  unfolding begun backoff
  begun-BacksOff none why r s fails retry awake = absurd (cc fails)
  begun-BacksOff (some msg) why r s fails retry awake =
      (ap next_retry retry, ap next_retry retry, awake)

  module _ (down : (c : e.Ctx) → (why : Bytes) × ((e.net_begin c).0 ≡ some why)) where
    worker_step-BacksOff : (s : Sys e) → s.w.parked ≡ false → BacksOff s.w.retry_s (worker_step s)
    unfolding worker_step
    worker_step-BacksOff s awake =
        let (r1, p1) = roll_today-Same s in
        let s1 = roll_today s in
        let (r2, p2) = check_health-Same s1 in
        let (why, fails) = down (check_health s1).ctx in
        if-elim (BacksOff s.w.retry_s) s1.w.parked (λ parked. absurd (cc (parked, p1, awake)))
          (λ still. begun-BacksOff _ why s.w.retry_s _ fails (r2 ∙ r1) (p2 ∙ still))

    after_steps-failed :
        (n : ℕ) (s : Sys e)
        → s.w.parked ≡ false
        → s.w.retry_s ≡ 0
        → ((after_steps n s).w.retry_s ≡ after_failures n) × ((after_steps n s).w.parked ≡ false)
    unfolding after_steps after_failures
    after_steps-failed zero s awake fresh = (fresh, awake)
    after_steps-failed (suc n) s awake fresh =
        let (retry, up) = after_steps-failed n s awake fresh in
        let (wait, next, still) = worker_step-BacksOff (after_steps n s) up in
        (next ∙ ap next_retry retry, still)

    -- While `net_begin` fails, a worker that is not parked and has not backed off yet waits 30 s after the first
    -- step, twice as long after each further one, and 300 s from the fifth on.
    pub worker_step-down :
        (n : ℕ) (s : Sys e)
        → s.w.parked ≡ false
        → s.w.retry_s ≡ 0
        → (worker_step (after_steps n s)).0 ≡ min (30 * 2 ^ n) 300
    unfolding after_failures
    worker_step-down n s awake fresh =
        let (retry, up) = after_steps-failed n s awake fresh in
        let (wait, next, still) = worker_step-BacksOff (after_steps n s) up in
        wait ∙ ap next_retry retry ∙ after_failures_lem n
