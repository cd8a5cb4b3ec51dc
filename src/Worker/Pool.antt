-- ===== src/Worker/Pool.antt =====
-- The pool of esp32-embedder/worker/worker.c: results built, jobs removed, the counters.
pub mod Laws
use claude_chats.Prelude.{
  ℕ, ◌+◌, ◌-◌, ◌*◌, Bool, true, false, ◌&&◌, Option, none, some, List, [], ◌∷◌, ◌++◌, length,
  modify, take, if◌then◌else◌, Bytes, bytes_eq,
}
use claude_chats.Kw.Jbuf.{jb_init, jb_take}
use claude_chats.Kw.Time.{kw_ymd}
use claude_chats.Result.{PassStats, KataResult, result_encode, result_dims}
use claude_chats.Worker.Types.{
  Config, Counts, no_counts, Job, JobState, pending, has_result, to_delete, is_pending, Reason,
  reason_text, reason_index, bytes_or_nil, body_len, result_len, Worker,
}
use claude_chats.Worker.Env.{Env, Sys, on_worker, ask, count}

-- `snprintf` into `last_error[160]`.
abbrev pub set_error : Bytes → Worker → Worker
set_error why w = record w { last_error = take 159 why }

module _ {e : Env} where
  unfoldable pub roll_today : Sys e → Sys e
  roll_today s =
      let (t, s') = ask e e.now s in
      let ymd = kw_ymd t in
      if bytes_eq ymd s'.w.today_ymd
      then s'
      else on_worker (λ w. record w { today = no_counts; today_ymd = ymd }) s'

abbrev pub count_reason : Reason → Worker → Worker
count_reason why =
    count (λ c. record c { unembedded = modify c.unembedded (reason_index why) (λ k. k + 1) })

-- The tokens that a job adds to `pool_tokens`.
abbrev pub held : Job → ℕ
held j = if is_pending j then j.n_ids else 0

-- The loops that call `remove_job` for the jobs that pass a test, from the last to the first: what
-- stays, and `pool_tokens` after them.
unfoldable pub sweep : (Job → Bool) → List Job → ℕ → List Job × ℕ
sweep test [] tokens = ([], tokens)
sweep test (j ∷ js) tokens =
    let (js', tokens') = sweep test js tokens in
    if test j then (js', tokens' - held j) else (j ∷ js', tokens')

abbrev pub remove_jobs : (Job → Bool) → Worker → Worker
remove_jobs test w =
    let (pool, tokens) = sweep test w.pool w.pool_tokens in
    record w { pool = pool; pool_tokens = tokens }

unfoldable pub pool_bytes : List Job → ℕ
pool_bytes [] = 0
pool_bytes (j ∷ js) = body_len j + result_len j + j.n_ids * 4 + pool_bytes js

-- `count_state(w, s) != 0`.
unfoldable pub any_job : (Job → Bool) → List Job → Bool
any_job test [] = false
any_job test (j ∷ js) = if test j then true else any_job test js

-- The message that `finish` hands to Cal.
abbrev pub result_of : Config → Job → Option (List ℕ) → Option PassStats → KataResult
result_of cfg j vec stats = record {
  embedded = elim vec [ none ↦ false | some v ↦ true ];
  message_uuid = some j.uuid;
  envelope = bytes_or_nil j.body;
  embedder = some cfg.embedder;
  vector = elim vec [ none ↦ [] | some v ↦ v ];
  tokens = j.n_ids;
  truncated_chars = j.truncated;
  reason = elim vec [
    | some v ↦ none
    | none ↦ elim j.reason [ none ↦ none | some r ↦ some (reason_text r) ]
  ];
  board = some cfg.board;
  fw = some cfg.fw;
  pass = stats;
  message_id = some j.m.message_id;
  receive_count = j.m.receive_count;
}

-- The `kw_alloc` of `result_encode`, made for a vector only.
abbrev pub alloc_raw : (e : Env) → Option (List ℕ) → e.Ctx → Bool × e.Ctx
alloc_raw e none c = (true, c)
alloc_raw e (some v) c = e.alloc (result_dims * 4) c

module _ {e : Env} where
  -- The job with its result, body and ids freed; `false` when memory ran out and nothing changed.
  unfoldable pub finish : Option (List ℕ) → Option PassStats → Job → Sys e → (Job × Bool) × Sys e
  finish vec stats j s =
      let (grow, s1) = ask e e.grow s in
      let (raw_ok, s2) = ask e (alloc_raw e vec) s1 in
      elim (result_encode grow raw_ok (result_of s.w.cfg j vec stats) jb_init) [
        | none ↦ ((j, false), s2)
        | some b ↦ (
          (record j { result = jb_take grow b; body = none; ids = none; state = has_result }, true),
          on_worker (λ w. record w { pool_tokens = w.pool_tokens - held j }) s2,
        )
      ]

  unfoldable pub unembedded : Reason → Job → Sys e → Job × Sys e
  unembedded why j s =
      let ((j', built), s') = finish none none (record j { reason = some why }) s in
      if built then (j', on_worker (count_reason why) s') else (j', s')

  -- `for (i = 0; i < w->n; i++) if (pending) unembedded(...)`
  unfoldable pub unembed_pending : Reason → List Job → Sys e → List Job × Sys e
  unembed_pending why [] s = ([], s)
  unembed_pending why (j ∷ js) s =
      let (j', s1) = if is_pending j then unembedded why j s else (j, s) in
      let (js', s2) = unembed_pending why js s1 in (j' ∷ js', s2)

  abbrev pub unembed_pool : Reason → Sys e → Sys e
  unembed_pool why s =
      let (js, s') = unembed_pending why s.w.pool s in on_worker (λ w. record w { pool = js }) s'
