-- ===== src/Worker/Sound/Building.antt =====
-- The invariant of the worker over results built in place: `finish` and `unembedded`, worker.c.
use claude_chats.Prelude.{
  ℕ, suc, ◌+◌, ◌≤◌, ◌≡◌, refl, sym, ap, Bool-cases, inl, inr, Option, none, some, List, [], ◌∷◌,
  length, All, arith, if◌then◌else◌,
}
use mathlib.Core.Path.{subst}
use claude_chats.Result.{PassStats}
use claude_chats.Worker.Types.{Job, pending, is_pending, Reason, Config}
use claude_chats.Worker.Env.{Env, Event, Sys}
use claude_chats.Worker.Pool.{held, finish, unembedded, unembed_pending, unembed_pool}
use claude_chats.Worker.Pool.Laws.{
  Kept, Kept-refl, Kept-trans, with_result, finish_lem, unembedded_lem,
}
use claude_chats.Worker.Sound.{Carries, JobOk, held_sum, Sound, InLedger}
use claude_chats.Worker.Sound.Ledger.{Safe}
use claude_chats.Worker.Sound.Settled.{with_result-IsResultOf}

module _ (log : List Event) (j : Job) (at_pending : j.state ≡ pending) (ok : JobOk log j) where
  -- A pending job whose result is built keeps its place in the ledger.
  pub with_result-JobOk :
      (cfg : Config) (vec : Option (List ℕ)) (stats : Option PassStats) (why : Option Reason)
      → JobOk log (with_result cfg (record j { reason = why }) vec stats)
  with_result-JobOk cfg vec stats why =
      let c = subst (λ st. Carries log st j) at_pending ok.1 in
      (ok.0, with_result-IsResultOf cfg (record j { reason = why }) vec stats c.0)

  pub reason-JobOk : (why : Option Reason) → JobOk log (record j { reason = why })
  reason-JobOk why =
      let c = subst (λ st. Carries log st j) at_pending ok.1 in
      (ok.0, subst (λ st. Carries log st (record j { reason = why })) (sym at_pending) c)

-- What an in-place change of a pending job comes to.
pub record Rebuilt {e : Env} (j : Job) (s : Sys e) (j' : Job) (s' : Sys e) : Type 0 where
  pub kept : Kept s s'
  pub job : JobOk s.log j'
  pub tokens : s'.w.pool_tokens + held j ≡ s.w.pool_tokens + held j'

module _ {e : Env} (j : Job) (s : Sys e) (at_pending : j.state ≡ pending) (ok : JobOk s.log j)
    (counted : held j ≤ s.w.pool_tokens) where
  pub unembedded-Rebuilt : (why : Reason) → let (j', s') = unembedded why j s in Rebuilt j s j' s'
  unembedded-Rebuilt why =
      let u = unembedded_lem why j s in
      elim u.0 [
        | inl (same, t) ↦ record {
          kept = u.1;
          job = rw same (reason-JobOk s.log j at_pending ok (some why));
          tokens = ground arith;
        }
        | inr (built, t) ↦ record {
          kept = u.1;
          job = rw built (with_result-JobOk s.log j at_pending ok s.w.cfg none none (some why));
          tokens = ground arith;
        }
      ]

  pub finish-Rebuilt :
      (vec : Option (List ℕ)) (stats : Option PassStats)
      → let ((j', built), s') = finish vec stats j s in Rebuilt j s j' s'
  finish-Rebuilt vec stats =
      let u = finish_lem vec stats j s in
      elim u.0 [
        | inl (no_memory, same, t) ↦ record { kept = u.1; job = rw same ok; tokens = ground arith }
        | inr (done, built, t) ↦ record {
          kept = u.1;
          job = rw built (with_result-JobOk s.log j at_pending ok s.w.cfg vec stats j.reason);
          tokens = ground arith;
        }
      ]

-- The loop over the whole pool, `extra` tokens being held elsewhere.
record Swapped {e : Env} (extra : ℕ) (js : List Job) (s : Sys e) (js' : List Job) (s' : Sys e)
    : Type 0 where
  kept : Kept s s'
  jobs : All (JobOk s.log) js'
  tokens : s'.w.pool_tokens ≡ extra + held_sum js'
  long : length js' ≡ length js

module _ {e : Env} where
  unembed_one :
      (why : Reason) (j : Job) (s : Sys e)
      → JobOk s.log j
      → held j ≤ s.w.pool_tokens
      → let (j', s') = if is_pending j then unembedded why j s else (j, s) in Rebuilt j s j' s'
  unembed_one why j s ok counted = elim (Bool-cases (is_pending j)) [
    | inl p ↦ rw p (unembedded-Rebuilt j s (ground arith) ok counted why)
    | inr p ↦ rw p (record { kept = Kept-refl s; job = ok; tokens = refl })
  ]

  unembed_pending-Swapped :
      (why : Reason) (js : List Job) (extra : ℕ) (s : Sys e)
      → All (JobOk s.log) js
      → s.w.pool_tokens ≡ extra + held_sum js
      → let (js', s') = unembed_pending why js s in Swapped extra js s js' s'
  unfolding unembed_pending held_sum
  unembed_pending-Swapped why [] extra s ok t = record {
    kept = Kept-refl s;
    jobs = tt;
    tokens = t;
    long = refl;
  }
  unembed_pending-Swapped why (j ∷ js) extra s ok t =
      let r : (Job × Sys e) = if is_pending j then unembedded why j s else (j, s) in
      let one = unembed_one why j s ok.0 (omega (arith, t)) in
      let more =
        unembed_pending-Swapped why js (extra + held r.0) r.1
          (subst (λ l. All (JobOk l) js) (sym one.kept.log) ok.1) (omega (arith, t, one.tokens)) in
      record {
        kept = Kept-trans one.kept more.kept;
        jobs = (
          one.job,
          subst (λ l. All (JobOk l) (unembed_pending why js r.1).0) one.kept.log more.jobs,
        );
        tokens = omega (arith, more.tokens);
        long = ap suc more.long;
      }

  pub unembed_pool-Safe : (why : Reason) (s : Sys e) → Sound s → Safe s (unembed_pool why s)
  unembed_pool-Safe why s h =
      let r = unembed_pending-Swapped why s.w.pool 0 s h.jobs (omega (arith, h.tokens)) in
      record {
        sound = record {
          jobs =
              subst (λ l. All (JobOk l) (unembed_pending why s.w.pool s).0) (sym r.kept.log) r.jobs;
          tokens = omega (arith, r.tokens);
          room =
              subst (λ (c : Config). length (unembed_pending why s.w.pool s).0 ≤ c.pool_max)
                (sym r.kept.cfg) (omega (arith, r.long, h.room));
          ledger = subst InLedger (sym r.kept.log) h.ledger;
        };
        frame = ground (arith, r.kept);
      }
