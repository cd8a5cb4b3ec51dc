-- ===== src/Worker/Pool/Laws.antt =====
-- What building a result, `finish` of worker.c, does to a job and to the worker.
use claude_chats.Prelude.{
  ℕ, ◌-◌, ◌≡◌, Bool, true, false, ◌⊎◌, inl, inr, Option, none, some, Option-cases, List, arith,
}
use claude_chats.Kw.Jbuf.{jb_init}
use claude_chats.Result.{PassStats, result_encode}
use claude_chats.Result.Laws.{result_text, result_encode_lem}
use claude_chats.Worker.Types.{Job, has_result, Reason, Config}
use claude_chats.Worker.Env.{Env, Sys}
use claude_chats.Worker.Pool.{alloc_raw, held, result_of, finish, unembedded}

-- What the handling of one job leaves as it is.
pub record Kept {e : Env} (s s' : Sys e) : Type 0 where
  pub cfg : s'.w.cfg ≡ s.w.cfg
  pub pool : s'.w.pool ≡ s.w.pool
  pub sick : s'.w.sick ≡ s.w.sick
  pub bad_in_row : s'.w.bad_in_row ≡ s.w.bad_in_row
  pub retry_s : s'.w.retry_s ≡ s.w.retry_s
  pub park_requested : s'.w.park_requested ≡ s.w.park_requested
  pub parked : s'.w.parked ≡ s.w.parked
  pub log : s'.log ≡ s.log

pub Kept-refl : {e : Env} (s : Sys e) → Kept s s
Kept-refl s = ground arith

pub Kept-trans : {e : Env} {s s' s'' : Sys e} → Kept s s' → Kept s' s'' → Kept s s''
Kept-trans p q = ground arith

-- What the network phase leaves as it is, beside the pool and the record of its calls.
pub record Frame {e : Env} (s s' : Sys e) : Type 0 where
  pub cfg : s'.w.cfg ≡ s.w.cfg
  pub sick : s'.w.sick ≡ s.w.sick
  pub bad_in_row : s'.w.bad_in_row ≡ s.w.bad_in_row
  pub retry_s : s'.w.retry_s ≡ s.w.retry_s
  pub park_requested : s'.w.park_requested ≡ s.w.park_requested
  pub parked : s'.w.parked ≡ s.w.parked

pub Frame-refl : {e : Env} (s : Sys e) → Frame s s
Frame-refl s = ground arith

pub Frame-trans : {e : Env} {s s' s'' : Sys e} → Frame s s' → Frame s' s'' → Frame s s''
Frame-trans p q = ground arith

pub Kept-Frame : {e : Env} {s s' : Sys e} → Kept s s' → Frame s s'
Kept-Frame p = ground arith

-- The job once its result is built.
abbrev pub with_result : Config → Job → Option (List ℕ) → Option PassStats → Job
with_result cfg j vec stats = record j {
  result = some (result_text (result_of cfg j vec stats));
  body = none;
  ids = none;
  state = has_result;
}

module _ {e : Env} where
  -- The result is built whole and the job's tokens leave the pool, or nothing has changed.
  abbrev pub Finishes :
      Option (List ℕ) → Option PassStats → Job → Sys e → Job → Bool → Sys e → Type 0
  Finishes vec stats j s j' built s' =
      ((built ≡ false) × (j' ≡ j) × (s'.w.pool_tokens ≡ s.w.pool_tokens))
      ⊎ ((built ≡ true)
          × (j' ≡ with_result s.w.cfg j vec stats)
          × (s'.w.pool_tokens ≡ s.w.pool_tokens - held j))

  pub finish_lem :
      (vec : Option (List ℕ)) (stats : Option PassStats) (j : Job) (s : Sys e)
      → let ((j', built), s') = finish vec stats j s in
        Finishes vec stats j s j' built s' × Kept s s'
  unfolding finish
  finish_lem vec stats j s =
      let g = e.grow s.ctx in
      let a = alloc_raw e vec g.1 in
      let r = result_of s.w.cfg j vec stats in
      elim (Option-cases (result_encode g.0 a.0 r jb_init)) [
        | inl out ↦ ground arith
        | inr (b, done) ↦ ground (arith, result_encode_lem g.0 a.0 r jb_init b done)
      ]

  -- Unembedded: the result says why, or memory ran out and the job only remembers the reason.
  abbrev pub Unembeds : Reason → Job → Sys e → Job → Sys e → Type 0
  Unembeds why j s j' s' =
      ((j' ≡ record j { reason = some why }) × (s'.w.pool_tokens ≡ s.w.pool_tokens))
      ⊎ ((j' ≡ with_result s.w.cfg (record j { reason = some why }) none none)
          × (s'.w.pool_tokens ≡ s.w.pool_tokens - held j))

  pub unembedded_lem :
      (why : Reason) (j : Job) (s : Sys e)
      → let (j', s') = unembedded why j s in Unembeds why j s j' s' × Kept s s'
  unfolding unembedded
  unembedded_lem why j s = ground (arith, finish_lem none none (record j { reason = some why }) s)
