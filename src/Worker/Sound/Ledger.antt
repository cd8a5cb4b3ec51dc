-- ===== src/Worker/Sound/Ledger.antt =====
-- The record of calls as it grows, and the counts of the loops over the pool, worker.c.
use claude_chats.Prelude.{
  ℕ, ◌+◌, ◌≤◌, ◌≡◌, Bool, Bool-cases, inl, inr, List, [], ◌∷◌, ◌++◌, length, All, In, arith,
}
use claude_chats.Worker.Types.{Job, JobState, pending, has_result, to_delete}
use claude_chats.Worker.Env.{Env, Event, Sys}
use claude_chats.Worker.Pool.{sweep, remove_jobs}
use claude_chats.Worker.Pool.Laws.{Frame, Frame-refl, Frame-trans}
use claude_chats.Worker.Sound.{JobOk, Carries, held_sum, Holds, Sound}

pub In-append : {A : Type 0} (a : A) (xs ys : List A) → In a ys → In a (xs ++ ys)
In-append a [] ys h = h
In-append a (x ∷ xs) ys h = inr (In-append a xs ys h)

Carries-append :
    (evs log : List Event) (st : JobState) (j : Job) → Carries log st j → Carries (evs ++ log) st j
Carries-append evs log pending j h = h
Carries-append evs log has_result j h = h
Carries-append evs log to_delete j h = (h.0, In-append _ evs log h.1)

pub JobOk-append : (evs log : List Event) (j : Job) → JobOk log j → JobOk (evs ++ log) j
JobOk-append evs log j h = (In-append _ evs log h.0, Carries-append evs log j.state j h.1)

pub jobs-append :
    (evs log : List Event) (js : List Job) → All (JobOk log) js → All (JobOk (evs ++ log)) js
jobs-append evs log [] h = tt
jobs-append evs log (j ∷ js) h = (JobOk-append evs log j h.0, jobs-append evs log js h.1)

pub held_sum-append : (js ks : List Job) → held_sum (js ++ ks) ≡ held_sum js + held_sum ks
unfolding held_sum
held_sum-append [] ks = omega arith
held_sum-append (j ∷ js) ks = omega (arith, held_sum-append js ks)

-- What stays of a pool that loses some jobs.
record Swept (js : List Job) (tokens : ℕ) (js' : List Job) (tokens' : ℕ) : Type 0 where
  fewer : length js' ≤ length js
  counted : tokens' + held_sum js ≡ tokens + held_sum js'
  left : held_sum js' ≤ held_sum js

sweep-Swept :
    (test : Job → Bool) (js : List Job) (tokens : ℕ)
    → held_sum js ≤ tokens
    → let (js', tokens') = sweep test js tokens in Swept js tokens js' tokens'
unfolding sweep held_sum
sweep-Swept test [] tokens h = ground arith
sweep-Swept test (j ∷ js) tokens h = ground (arith, sweep-Swept test js tokens)

pub sweep-All {κ} :
    (P : Job → Type κ) (test : Job → Bool) (js : List Job) (tokens : ℕ)
    → All P js
    → All P (sweep test js tokens).0
unfolding sweep
sweep-All P test [] tokens h = h
sweep-All P test (j ∷ js) tokens h = elim (Bool-cases (test j)) [
  | inl out ↦ rw out (sweep-All P test js tokens h.1)
  | inr stays ↦ rw stays (h.0, sweep-All P test js tokens h.1)
]

module _ {e : Env} where
  -- Removing jobs keeps the pool sound, and only the pool and its count change.
  pub remove_jobs-Sound :
      (test : Job → Bool) (s : Sys e) → Sound s → Sound (record s { w = remove_jobs test s.w })
  remove_jobs-Sound test s h =
      let p = sweep-Swept test s.w.pool s.w.pool_tokens (omega (arith, h.tokens)) in
      record {
        jobs = sweep-All (JobOk s.log) test s.w.pool s.w.pool_tokens h.jobs;
        tokens = omega (arith, h.tokens, p.counted);
        room = omega (arith, h.room, p.fewer);
        ledger = h.ledger;
      }

  -- A change that keeps the log, the configuration and the count keeps what is held.
  pub Holds-same :
      {js : List Job} {s s' : Sys e}
      → s'.log ≡ s.log
      → s'.w.cfg ≡ s.w.cfg
      → s'.w.pool_tokens ≡ s.w.pool_tokens
      → Holds js s
      → Holds js s'
  Holds-same {js} l c t h = record {
    jobs = rw l h.jobs;
    tokens = rw t h.tokens;
    room = rw c h.room;
    ledger = rw l h.ledger;
  }

-- The worker is sound, and the rest of it as it was.
pub record Safe {e : Env} (s s' : Sys e) : Type 0 where
  pub sound : Sound s'
  pub frame : Frame s s'

pub Safe-refl : {e : Env} {s : Sys e} → Sound s → Safe s s
Safe-refl {s = s} h = record { sound = h; frame = Frame-refl s }

pub Safe-trans : {e : Env} {s s' s'' : Sys e} → Safe s s' → Safe s' s'' → Safe s s''
Safe-trans p q = record { sound = q.sound; frame = Frame-trans p.frame q.frame }

-- Neither the pool, its count nor the record of calls has changed.
pub record Steady {e : Env} (s s' : Sys e) : Type 0 where
  pub log : s'.log ≡ s.log
  pub pool : s'.w.pool ≡ s.w.pool
  pub pool_tokens : s'.w.pool_tokens ≡ s.w.pool_tokens
  pub frame : Frame s s'

pub Safe-Steady : {e : Env} {s s' s'' : Sys e} → Safe s s' → Steady s' s'' → Safe s s''
Safe-Steady p q = record {
  sound = rw q.pool (Holds-same q.log q.frame.cfg q.pool_tokens p.sound);
  frame = Frame-trans p.frame q.frame;
}
