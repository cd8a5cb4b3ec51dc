-- ===== src/Worker/Sound/Outcomes.antt =====
-- The invariant of the worker over what follows the embedding of a pass: `go_sick`, the good and the
-- bad outcome, worker.c.
use claude_chats.Prelude.{
  ℕ, ◌+◌, ◌≡◌, refl, ◌∙◌, not, ◌&&◌, true, Bool-cases, inl, inr, List, length, All, leb, ltb, ◌++◌,
  codes, Bytes,
}
use claude_chats.Result.{PassStats}
use claude_chats.Worker.Types.{kata_unhealthy, bad_passes_limit, health_every_s}
use claude_chats.Worker.Env.{Env, Embedded, Sys, on_worker}
use claude_chats.Worker.Pool.{set_error}
use claude_chats.Worker.Pass.{
  go_sick, finish_each, unembed_each, sick_if_due, note_bad, note_pass, good_pass, bad_pass,
}
use claude_chats.Worker.Sound.{Sound}
use claude_chats.Worker.Sound.Ledger.{Safe, Holds-same}
use claude_chats.Worker.Sound.Building.{unembed_pool-Safe}
use claude_chats.Worker.Sound.Picking.{PendingAt, Rising}
use claude_chats.Worker.Sound.Passing.{finish_each-Safe, unembed_each-Safe}

-- The worker is sound, and still parked or not, with its configuration.
pub record Fine {e : Env} (s s' : Sys e) : Type 0 where
  pub sound : Sound s'
  pub cfg : s'.w.cfg ≡ s.w.cfg
  pub parked : s'.w.parked ≡ s.w.parked

pub Fine-refl : {e : Env} {s : Sys e} → Sound s → Fine s s
Fine-refl h = record { sound = h; cfg = refl; parked = refl }

pub Fine-trans : {e : Env} {s s' s'' : Sys e} → Fine s s' → Fine s' s'' → Fine s s''
Fine-trans p q = record { sound = q.sound; cfg = q.cfg ∙ p.cfg; parked = q.parked ∙ p.parked }

pub Safe-Fine : {e : Env} {s s' : Sys e} → Safe s s' → Fine s s'
Safe-Fine p = record { sound = p.sound; cfg = p.frame.cfg; parked = p.frame.parked }

-- A change of none of these, and neither of the pool, its count or the record of calls.
pub Fine-same :
    {e : Env} {s s' s'' : Sys e}
    → Fine s s'
    → s''.log ≡ s'.log
    → s''.w.pool ≡ s'.w.pool
    → s''.w.pool_tokens ≡ s'.w.pool_tokens
    → s''.w.cfg ≡ s'.w.cfg
    → s''.w.parked ≡ s'.w.parked
    → Fine s s''
Fine-same p l pool t c k = record {
  sound = rw pool (Holds-same l c t p.sound);
  cfg = c ∙ p.cfg;
  parked = k ∙ p.parked;
}

module _ {e : Env} where
  pub go_sick-Fine : (s : Sys e) → Sound s → Fine s (go_sick s)
  unfolding go_sick
  go_sick-Fine s h =
      let t = e.now s.ctx in
      let s1 : Sys e = record {
        w = record s.w { sick = true; sick_since = t.0; next_health = t.0 + health_every_s };
        ctx = t.1;
        log = s.log;
      } in
      let marked : Fine s s1 = Fine-same (Fine-refl h) refl refl refl refl refl in
      Fine-trans marked (Safe-Fine (unembed_pool-Safe kata_unhealthy s1 marked.sound))

  sick_if_due-Fine : (s : Sys e) → Sound s → Fine s (sick_if_due s)
  sick_if_due-Fine s h = elim (Bool-cases (leb bad_passes_limit s.w.bad_in_row && not s.w.sick)) [
    | inl due ↦ rw due (go_sick-Fine s h)
    | inr fine ↦ rw fine (Fine-refl h)
  ]

  pub note_pass-Fine :
      (np tokens : ℕ) (info : Embedded) (s : Sys e) → Sound s → Fine s (note_pass np tokens info s)
  unfolding note_pass
  note_pass-Fine np tokens info s h = Fine-same (Fine-refl h) refl refl refl refl refl

  module _ (idx : List ℕ) (s : Sys e) (h : Sound s) (r : Rising 0 idx)
      (p : All (PendingAt s.w.pool) idx) where
    pub good_pass-Fine : (tokens : ℕ) (info : Embedded) → Fine s (good_pass idx tokens info s)
    unfolding good_pass
    good_pass-Fine tokens info =
        let stats : PassStats = record { n_seg = length idx; tokens = tokens; ms = info.ms } in
        let done = Safe-Fine (finish_each-Safe info.vecs stats 0 idx 0 s h r p) in
        let f = finish_each info.vecs stats 0 idx s in
        elim (Bool-cases (ltb 0 f.0)) [
          | inl some_lost ↦
              let noted = Fine-same done refl refl refl refl refl in
              rw some_lost
                (Fine-trans noted (sick_if_due-Fine (on_worker note_bad f.1) noted.sound))
          | inr none_lost ↦ rw none_lost (Fine-same done refl refl refl refl refl)
        ]

    pub bad_pass-Fine : (why : Bytes) → Fine s (bad_pass idx why s)
    unfolding bad_pass
    bad_pass-Fine why =
        let s1 = on_worker (λ w. set_error (codes "bad pass: " ++ why) (note_bad w)) s in
        let noted : Fine s s1 = Fine-same (Fine-refl h) refl refl refl refl refl in
        let done = Fine-trans noted (Safe-Fine (unembed_each-Safe idx 0 s1 noted.sound r p)) in
        Fine-trans done (sick_if_due-Fine (unembed_each idx s1) done.sound)
