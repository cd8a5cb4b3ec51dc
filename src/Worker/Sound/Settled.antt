-- ===== src/Worker/Sound/Settled.antt =====
-- The invariant of the worker over `arrive`, worker.c: what becomes of a message.
use claude_chats.Prelude.{
  ℕ, ◌+◌, ◌≡◌, refl, ap, Bool, true, false, ◌&&◌, ◌||◌, not, is_none, ◌⊎◌, inl, inr, Option, none,
  some, List, arith,
}
use claude_chats.Prelude.Int.{pos}
use claude_chats.Result.{PassStats}
use claude_chats.Worker.Types.{
  Msg, Job, JobState, pending, has_result, Config, fresh_job, is_pending, bytes_or_nil,
  visibility_s,
}
use claude_chats.Worker.Env.{Env, Sys, Parsed-cases}
use claude_chats.Worker.Strict.{parse_strict, field, string_value}
use claude_chats.Worker.Pool.{held, result_of}
use claude_chats.Worker.Pool.Laws.{Kept, with_result, unembedded_lem}
use claude_chats.Worker.Arrive.{
  sort_job, Sorted, unready, ready, comes_back, Verdict, settle, drop_invalid, take_in, arrive,
}
use claude_chats.Worker.TopUp.{is_kept}
use claude_chats.Worker.Sound.{Contract, IsResultOf}
use claude_chats.Worker.Sound.Arrivals.{
  Prepares, Filled, Reads, Reads-trans, is_ready, sort_job_lem, parse_strict_lem,
}

-- A result built from a job that still has its body is a result for the job's message.
pub with_result-IsResultOf :
    (cfg : Config) (j : Job) (vec : Option (List ℕ)) (stats : Option PassStats)
    → j.body ≡ some j.m.body
    → IsResultOf j.m (bytes_or_nil (with_result cfg j vec stats).result)
with_result-IsResultOf cfg j vec stats h =
    (result_of cfg j vec stats, refl, ap bytes_or_nil h, refl, refl)

-- The test on which `top_up` keeps a job in the pool.
abbrev pub stays : Verdict → Job → Bool
stays verdict j = not (not (is_kept verdict) || is_pending j && is_none j.ids)

-- The carried facts that need no log.
abbrev pub HasCargo : JobState → Job → Type 0
HasCargo pending j = (j.body ≡ some j.m.body) × Filled j
HasCargo has_result j = IsResultOf j.m (bytes_or_nil j.result)
HasCargo _ j = ⊥

pub record Arrived {e : Env} (m : Msg) (s : Sys e) (verdict : Verdict) (j : Job) (s' : Sys e)
    : Type 0 where
  pub kept : Kept s s'
  pub message : j.m ≡ m
  pub cargo : (stays verdict j ≡ false) ⊎ HasCargo j.state j
  pub counted : (stays verdict j ≡ false) ⊎ (s'.w.pool_tokens ≡ s.w.pool_tokens + held j)
  pub dropped : (stays verdict j ≡ true) ⊎ ((s'.w.pool_tokens ≡ s.w.pool_tokens) × (held j ≡ 0))

-- A sorted job before it is settled.
record Ripe (m : Msg) (sorted : Sorted) (j : Job) : Type 0 where
  message : j.m ≡ m
  body : j.body ≡ some m.body
  state : j.state ≡ pending
  filled : (is_ready sorted ≡ false) ⊎ Filled j
  empty : (is_ready sorted ≡ true) ⊎ ((j.ids ≡ none) × (j.n_ids ≡ 0))

module _ {e : Env} where
  settle_lem :
      (m : Msg) (sorted : Sorted) (j : Job) (s : Sys e)
      → Ripe m sorted j
      → let ((verdict, j'), s') = settle e sorted j s in Arrived m s verdict j' s'
  unfolding settle
  settle_lem m ready j s r = ground arith
  settle_lem m comes_back j s r = ground arith
  settle_lem m (unready why) j s r = ground (
    arith,
    unembedded_lem why j s,
    with_result-IsResultOf s.w.cfg (record j { reason = some why }) none none,
  )

  Arrived-after :
      {m : Msg} {s s1 s' : Sys e} {v : Verdict} {j : Job}
      → Reads s s1
      → Arrived m s1 v j s'
      → Arrived m s v j s'
  Arrived-after r a = record {
    kept = ground (arith, a.kept);
    message = a.message;
    cargo = a.cargo;
    counted = ground (arith, a.counted);
    dropped = ground (arith, a.dropped);
  }

  drop_invalid_lem :
      (m : Msg) (j : Job) (s : Sys e)
      → Ripe m comes_back j
      → let ((v, j'), s') = drop_invalid e j s in Arrived m s v j' s'
  unfolding drop_invalid
  drop_invalid_lem m j s r = ground arith

Ripe-Prepares :
    {m : Msg} {sorted : Sorted} {j j' : Job}
    → Ripe m comes_back j
    → Prepares (is_ready sorted) j j'
    → Ripe m sorted j'
Ripe-Prepares r p = ground arith

module _ {e : Env} (k : Contract e) where
  take_in_lem :
      (m : Msg) (j : Job) (env : e.Node) (s : Sys e)
      → Ripe m comes_back j
      → let ((v, j'), s') = take_in e j env s in Arrived m s v j' s'
  unfolding take_in
  take_in_lem m j env s r =
      let ju : Job = record j {
        uuid = bytes_or_nil (string_value e (field e (some env) "message_uuid"));
      } in
      let p = sort_job e ju env s in
      let sorts = sort_job_lem k ju env s in
      let ripe : Ripe m p.0.0 p.0.1 = Ripe-Prepares {j = ju} (ground arith) sorts.0 in
      let settled = Arrived-after sorts.1 (settle_lem m p.0.0 p.0.1 p.1 ripe) in
      ground (arith, drop_invalid_lem m j s r)

  pub arrive_lem :
      (m : Msg) (s : Sys e)
      → let ((verdict, j), s') = arrive e (fresh_job m) s in Arrived m s verdict j s'
  unfolding arrive
  arrive_lem m s =
      let s1 : Sys e = record s { ctx = (e.now s.ctx).1 } in
      let j : Job = record (fresh_job m) {
        received_at = (e.now s.ctx).0;
        visible_until = pos ((e.now s.ctx).0 + visibility_s);
      } in
      let p = parse_strict e m.body s1 in
      let ready_to_sort : Reads s p.1 =
        Reads-trans (record { worker = refl; log = refl }) (parse_strict_lem k m.body s1) in
      let ripe : Ripe m comes_back j = ground arith in
      elim (Parsed-cases p.0) [
        | inl other ↦ ground (arith, Arrived-after ready_to_sort (drop_invalid_lem m j p.1 ripe))
        | inr (env, found) ↦
            ground (arith, Arrived-after ready_to_sort (take_in_lem m j env p.1 ripe))
      ]
