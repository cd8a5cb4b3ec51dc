-- ===== src/Worker/Sound/Stepping.antt =====
-- The invariant of the worker over `worker_step` and the calls of other tasks, worker.c.
use claude_chats.Prelude.{
  ℕ, ◌≡◌, refl, sym, ◌∙◌, not, ◌&&◌, Bool, true, false, Bool-cases, if-elim, inl, inr, Option, none,
  some, Option-cases, [], length, arith, ltb, ◌==◌, if◌then◌else◌, Bytes, bytes_eq,
}
use claude_chats.Kw.Time.{kw_ymd}
use claude_chats.Worker.Sound.Ledger.{Holds-same}
use claude_chats.Worker.Types.{
  is_pending, is_result, receiving, embedding, handing_off, kata_unhealthy, visibility_s,
  bad_passes_limit,
}
use claude_chats.Worker.Env.{Env, Sys, on_worker}
use claude_chats.Worker.Pool.{
  unembed_pending, set_error, roll_today, any_job, remove_jobs, unembed_pool,
}
use claude_chats.Worker.Handoff.{handoff}
use claude_chats.Worker.Visibility.{visibility}
use claude_chats.Worker.TopUp.{top_up}
use claude_chats.Worker.Pass.{go_sick}
use claude_chats.Worker.Step.{
  set_state, undelivered, backoff, check_health, park, hold, note_progress, receive_phase,
  after_phase, work, network, begun, worker_step, worker_set_sick, worker_request_park,
  worker_resume,
}
use claude_chats.Worker.Sound.{Contract, Sound}
use claude_chats.Worker.Sound.Receiving.{top_up-Sound}
use claude_chats.Worker.Sound.Deleting.{remove_jobs-Safe, handoff-Safe}
use claude_chats.Worker.Sound.Hiding.{visibility-Safe}
use claude_chats.Worker.Sound.Building.{unembed_pool-Safe}
use claude_chats.Worker.Sound.Outcomes.{
  Fine, Fine-refl, Fine-trans, Fine-same, Safe-Fine, go_sick-Fine,
}
use claude_chats.Worker.Sound.Running.{pass-Fine}

-- Sound, and holding nothing while parked.
pub record Good {e : Env} (s : Sys e) : Type 0 where
  pub sound : Sound s
  pub parked_empty : s.w.parked ≡ true → s.w.pool ≡ []

module _ {e : Env} where
  -- A worker that was not parked is not parked.
  Fine-Good : {s s' : Sys e} → Fine s s' → s.w.parked ≡ false → Good s'
  Fine-Good p out = record { sound = p.sound; parked_empty = λ now. absurd (cc (p.parked, out)) }

  backoff-Fine : {s s' : Sys e} → Fine s s' → Fine s (backoff s').1
  unfolding backoff
  backoff-Fine p = Fine-same p refl refl refl refl refl

  visibility-Fine :
      (all : Bool) (seconds : ℕ) {s s' : Sys e} → Fine s s' → Fine s (visibility all seconds s').1
  visibility-Fine all seconds {s} {s'} p =
      Fine-trans p (Safe-Fine (visibility-Safe all seconds s' p.sound))

  handoff-Fine : {s s' : Sys e} → Fine s s' → Fine s (handoff s')
  handoff-Fine {s} {s'} p = Fine-trans p (Safe-Fine (handoff-Safe s' p.sound))

  roll_today-Fine :
      (s : Sys e) → Sound s → Fine s (roll_today s) × ((roll_today s).w.pool ≡ s.w.pool)
  unfolding roll_today
  roll_today-Fine s h = elim (Bool-cases (bytes_eq (kw_ymd (e.now s.ctx).0) s.w.today_ymd)) [
    | inl same_day ↦ rw same_day (Fine-same (Fine-refl h) refl refl refl refl refl, refl)
    | inr new_day ↦ rw new_day (Fine-same (Fine-refl h) refl refl refl refl refl, refl)
  ]

  check_health-Fine : {s s' : Sys e} → Fine s s' → Fine s (check_health s')
  unfolding check_health
  check_health-Fine {s} {s'} p =
      let t = e.now s'.ctx in
      let c = e.health t.1 in
      elim (Bool-cases (not (s'.w.sick && not s'.w.park_requested))) [
        | inl idle_sick ↦ rw idle_sick p
        | inr asks ↦ elim (Bool-cases (ltb t.0 s'.w.next_health)) [
          | inl early ↦ rw (asks, early) (Fine-same p refl refl refl refl refl)
          | inr due ↦ elim (Bool-cases c.0) [
            | inl well ↦ rw (asks, due, well) (Fine-same p refl refl refl refl refl)
            | inr ill ↦ rw (asks, due, ill) (Fine-same p refl refl refl refl refl)
          ]
        ]
      ]

  note_progress-Fine : (arrived : ℕ) {s s' : Sys e} → Fine s s' → Fine s (note_progress arrived s')
  unfolding note_progress
  note_progress-Fine arrived {s} {s'} p =
      elim (Bool-cases (length s'.w.pool == 0 && arrived == 0)) [
        | inl bare ↦ rw bare (Fine-same p refl refl refl refl refl)
        | inr busy ↦ elim (Bool-cases (s'.w.progress_at == 0)) [
          | inl starts ↦ rw (busy, starts) (Fine-same p refl refl refl refl refl)
          | inr runs ↦ rw (busy, runs) p
        ]
      ]

  hold-Fine : {s s' : Sys e} → Fine s s' → Fine s (hold s').1
  unfolding hold
  hold-Fine p =
      backoff-Fine (Fine-same (visibility-Fine false visibility_s p) refl refl refl refl refl)

  if_sick-Fine :
      (b : Bool) {s s' : Sys e}
      → Fine s s'
      → Fine s (if b then unembed_pool kata_unhealthy s' else s')
  if_sick-Fine b {s} {s'} p = elim (Bool-cases b) [
    | inl ill ↦ rw ill (Fine-trans p (Safe-Fine (unembed_pool-Safe kata_unhealthy s' p.sound)))
    | inr well ↦ rw well p
  ]

  if_results-Fine : (b : Bool) {s s' : Sys e} → Fine s s' → Fine s (if b then handoff s' else s')
  if_results-Fine b {s} {s'} p = elim (Bool-cases b) [
    | inl held ↦ rw held (handoff-Fine p)
    | inr empty ↦ rw empty p
  ]

  after_phase-Fine : (arrived : ℕ) {s s' : Sys e} → Fine s s' → Fine s (after_phase arrived s').1
  unfolding after_phase
  after_phase-Fine arrived {s} {s'} p =
      let s1 = on_worker (set_state embedding) s' in
      let q : Fine s s1 = Fine-same p refl refl refl refl refl in
      let run = Fine-trans q (pass-Fine s1 q.sound) in
      elim (Bool-cases (any_job is_pending s'.w.pool && not s'.w.sick)) [
        | inl runs ↦ rw runs (Fine-same run refl refl refl refl refl)
        | inr waits ↦ elim (Bool-cases (undelivered s'.w)) [
          | inl left ↦ rw (waits, left) (Fine-same p refl refl refl refl refl)
          | inr done ↦ rw (waits, done) (Fine-same p refl refl refl refl refl)
        ]
      ]

  park-Good : (s : Sys e) → Sound s → s.w.parked ≡ false → Good (park s).1
  unfolding park
  park-Good s h out =
      let s1 = (visibility true 0 s).1 in
      let shown = visibility-Fine true 0 (Fine-refl h) in
      let swept = Fine-trans shown (Safe-Fine (remove_jobs-Safe is_pending s1 shown.sound)) in
      let swept = Fine-trans shown (Safe-Fine (remove_jobs-Safe is_pending s1 shown.sound)) in
      let s2 = on_worker (remove_jobs is_pending) s1 in
      let n = e.net_begin (e.net_end s2.ctx) in
      let s4 : Sys e = record s2 { ctx = n.1 } in
      let again : Fine s s4 = Fine-same swept refl refl refl refl refl in
      let hidden = visibility-Fine false visibility_s again in
      elim (Bool-cases (length s2.w.pool == 0)) [
        | inl nothing ↦
            let bare : s2.w.pool ≡ [] = ground arith in
            rw nothing
              (record { sound = Holds-same refl refl refl swept.sound; parked_empty = λ now. bare })
        | inr left ↦ elim (Option-cases n.0) [
          | inl fine ↦ rw (left, fine) (Fine-Good (Fine-same hidden refl refl refl refl refl) out)
          | inr (msg, failed) ↦
              rw (left, failed) (Fine-Good (Fine-same again refl refl refl refl refl) out)
        ]
      ]

  module _ (k : Contract e) where
    receive_phase-Fine : {s s' : Sys e} → Fine s s' → Fine s (receive_phase s').1
    unfolding receive_phase
    receive_phase-Fine {s} {s'} p =
        let s0 = on_worker (set_state receiving) s' in
        let started : Fine s s0 = Fine-same p refl refl refl refl refl in
        let got = top_up-Sound k s0 started.sound in
        let s1 = (top_up s0).1 in
        let arrived : Fine s s1 =
          Fine-trans started (record { sound = got.0; cfg = got.1.cfg; parked = got.1.parked }) in
        let sorted = if_sick-Fine s1.w.sick arrived in
        let s2 = if s1.w.sick then unembed_pool kata_unhealthy s1 else s1 in
        let handed = if_results-Fine (any_job is_result s2.w.pool) sorted in
        let noted = note_progress-Fine (top_up s0).0 handed in
        Fine-same (visibility-Fine false visibility_s noted) refl refl refl refl refl

    work-Fine : {s s' : Sys e} → Fine s s' → Fine s (work s').1
    unfolding work
    work-Fine {s} {s'} p =
        let got = receive_phase-Fine p in
        let r = receive_phase s' in
        elim (Bool-cases r.0.1) [
          | inl failed ↦ rw failed (backoff-Fine (Fine-same got refl refl refl refl refl))
          | inr fine ↦ rw fine (after_phase-Fine r.0.0 (Fine-same got refl refl refl refl refl))
        ]

    network-Good : (s : Sys e) → Sound s → s.w.parked ≡ false → Good (network s).1
    unfolding network
    network-Good s h out =
        let s1 = handoff s in
        let handed = handoff-Fine (Fine-refl h) in
        if-elim (λ (r : ℕ × Sys e). Good r.1) s1.w.park_requested
          (λ asked. park-Good s1 handed.sound (handed.parked ∙ out))
          (λ free.
            if-elim (λ (r : ℕ × Sys e). Good r.1) (undelivered s1.w)
              (λ left. Fine-Good (hold-Fine handed) out)
              (λ clear. Fine-Good (work-Fine handed) out))

    -- The network comes up, or its failure is noted.
    begun-Good :
        {s : Sys e} (s3 : Sys e) (why : Option Bytes)
        → Fine s s3
        → s.w.parked ≡ false
        → Good (begun why s3).1
    unfolding begun
    begun-Good s3 (some msg) p out =
        Fine-Good (backoff-Fine (Fine-same p refl refl refl refl refl)) out
    begun-Good s3 none p out = network-Good s3 p.sound (p.parked ∙ out)

    -- One step, whatever the surroundings answer.
    pub worker_step-Good : (s : Sys e) → Good s → Good (worker_step s).1
    unfolding worker_step
    worker_step-Good s g =
        let today = roll_today-Fine s g.sound in
        let s1 = roll_today s in
        let checked = check_health-Fine today.0 in
        let n = e.net_begin (check_health s1).ctx in
        let up : Fine s (record (check_health s1) {
          w = set_state handing_off (check_health s1).w;
          ctx = n.1;
        }) =
          Fine-same checked refl refl refl refl refl in
        if-elim (λ (r : ℕ × Sys e). Good r.1) s1.w.parked
          (λ parked. record {
            sound = Holds-same refl refl refl today.0.sound;
            parked_empty = λ now. today.1 ∙ g.parked_empty (sym today.0.parked ∙ parked);
          })
          (λ awake. begun-Good _ n.0 up (sym today.0.parked ∙ awake))

  pub worker_set_sick-Good : (why : Bytes) (s : Sys e) → Good s → Good (worker_set_sick why s)
  unfolding worker_set_sick
  worker_set_sick-Good why s g =
      let s1 = on_worker (λ w. set_error why (record w { bad_in_row = bad_passes_limit })) s in
      let noted : Fine s s1 = Fine-same (Fine-refl g.sound) refl refl refl refl refl in
      let sick = Fine-trans noted (go_sick-Fine s1 noted.sound) in
      elim (Bool-cases s.w.parked) [
        | inr out ↦ Fine-Good (Fine-same sick refl refl refl refl refl) out
        | inl parked ↦ record {
          sound = Holds-same refl refl refl sick.sound;
          parked_empty = λ now. unfold go_sick unembed_pending in rw (g.parked_empty parked) refl;
        }
      ]

  pub worker_request_park-Good : (s : Sys e) → Good s → Good (on_worker worker_request_park s)
  unfolding worker_request_park
  worker_request_park-Good s g = record {
    sound = Holds-same refl refl refl g.sound;
    parked_empty = g.parked_empty;
  }

  pub worker_resume-Good : (s : Sys e) → Good s → Good (on_worker worker_resume s)
  unfolding worker_resume
  worker_resume-Good s g = record {
    sound = Holds-same refl refl refl g.sound;
    parked_empty = λ now. absurd (ground arith);
  }
