-- ===== src/Worker/Pass.antt =====
-- `pass` of esp32-embedder/worker/worker.c: the jobs of one pass chosen, embedded and finished.
use claude_chats.Prelude.{
  ℕ, zero, suc, ◌+◌, ◌*◌, ◌%◌, Bool, true, false, not, ◌&&◌, ◌||◌, Option, none, some, List, [],
  ◌∷◌, ◌++◌, map, length, get_elem?, get_or, modify, take, leb, ltb, if◌then◌else◌, is_none, Bytes,
  codes,
}
use claude_chats.Batch.{batch_plan}
use claude_chats.Prep.{prep_max_tokens}
use claude_chats.Result.{PassStats, result_dims}
use claude_chats.Worker.Types.{
  Job, is_pending, ids_or_nil, kata_unhealthy, Worker, card_history, health_every_s,
  bad_passes_limit,
}
use claude_chats.Worker.Env.{Env, embed_started, Embedded, Sys, on_worker, on_log, ask, count}
use claude_chats.Worker.Pool.{set_error, finish, unembedded, unembed_pool}

-- `pend[]`: the pool indices of the pending jobs that have ids, 64 at most.
unfoldable pub pending_from : ℕ → ℕ → List Job → List ℕ
pending_from i n [] = []
pending_from i n (j ∷ js) =
    let ready = is_pending j && not (is_none j.ids) in
    let rest = pending_from (i + 1) (if ready then n + 1 else n) js in
    if leb 64 n then [] else (if ready then i ∷ rest else rest)

-- The jobs at these pool indices.
unfoldable pub jobs_at : List Job → List ℕ → List Job
jobs_at pool [] = []
jobs_at pool (i ∷ is) = elim (get_elem? pool i) [
  | none ↦ jobs_at pool is
  | some j ↦ j ∷ jobs_at pool is
]

-- A solo job is given a length that no pass has room for.
abbrev pub plan_len : Job → ℕ
plan_len j = if j.solo then prep_max_tokens + 1 else j.n_ids

-- `pick[]`: places in `pend[]`.
unfoldable pub choose : List Job → ℕ → List ℕ
choose [] target = []
choose (j ∷ js) target =
    if j.solo then 0 ∷ [] else batch_plan (map plan_len (j ∷ js)) prep_max_tokens target

-- `pend[pick[k]]`.
abbrev pub chosen : List ℕ → List ℕ → List ℕ
chosen pend picks = map (λ k. get_or pend k 0) picks

-- The packed ids, and the length of each message.
unfoldable pub pack_ids : List Job → List ℕ
pack_ids [] = []
pack_ids (j ∷ js) = take j.n_ids (ids_or_nil j.ids) ++ pack_ids js

abbrev pub seg_lens : List Job → List ℕ
seg_lens js = map (λ (j : Job). j.n_ids) js

unfoldable pub sum : List ℕ → ℕ
sum [] = 0
sum (x ∷ xs) = x + sum xs

module _ (e : Env) where
  -- The squares summed, unless a value is not finite.
  unfoldable pub sum_squares : e.Double → List ℕ → Option e.Double
  sum_squares ss [] = some ss
  sum_squares ss (v ∷ vs) = if not (e.isfinite v) then none else sum_squares (e.add_square ss v) vs

  -- A norm from 10 to 30, by its square.
  unfoldable pub vector_ok : List ℕ → Bool
  vector_ok v = elim (sum_squares e.zero_sum v) [
    | none ↦ false
    | some ss ↦ e.at_least ss 100 && e.at_most ss 900
  ]

  -- The first `np` vectors.
  unfoldable pub vectors_ok : ℕ → ℕ → List (List ℕ) → Bool
  vectors_ok k zero vecs = true
  vectors_ok k (suc left) vecs = vector_ok (get_or vecs k []) && vectors_ok (k + 1) left vecs

-- `bad_passes` and `bad_in_row` counted.
abbrev pub note_bad : Worker → Worker
note_bad w = record (count (λ c. record c { bad_passes = c.bad_passes + 1 }) w) {
  bad_in_row = w.bad_in_row + 1;
}

module _ {e : Env} where
  unfoldable pub go_sick : Sys e → Sys e
  go_sick s =
      let (t, s1) = ask e e.now s in
      unembed_pool kata_unhealthy (
        on_worker (λ w. record w { sick = true; sick_since = t; next_health = t + health_every_s })
          s1)

  -- One of `job_t *j = &w->pool[i]` changed.
  abbrev pub set_job : ℕ → Job → Sys e → Sys e
  set_job i j = on_worker (λ w. record w { pool = modify w.pool i (λ old. j) })

  -- The vectors of a good pass, `k` done; the result counts the jobs whose result had no memory.
  unfoldable pub finish_each : List (List ℕ) → PassStats → ℕ → List ℕ → Sys e → ℕ × Sys e
  finish_each vecs stats k [] s = (0, s)
  finish_each vecs stats k (i ∷ is) s = elim (get_elem? s.w.pool i) [
    | none ↦ finish_each vecs stats (k + 1) is s
    | some j ↦
        let ((j', built), s1) = finish (some (get_or vecs k [])) (some stats) j s in
        let s2 = set_job i j' s1 in
        let s3 =
          if built
          then on_worker (count (λ c. record c { messages = c.messages + 1 })) s2
          else s2 in
        let (lost, s4) = finish_each vecs stats (k + 1) is s3 in
        (if built then lost else lost + 1, s4)
  ]

  unfoldable pub unembed_each : List ℕ → Sys e → Sys e
  unembed_each [] s = s
  unembed_each (i ∷ is) s = elim (get_elem? s.w.pool i) [
    | none ↦ unembed_each is s
    | some j ↦ let (j', s1) = unembedded kata_unhealthy j s in unembed_each is (set_job i j' s1)
  ]

  abbrev pub sick_if_due : Sys e → Sys e
  sick_if_due s = if leb bad_passes_limit s.w.bad_in_row && not s.w.sick then go_sick s else s

  -- What the worker notes of a pass, good or bad.
  unfoldable pub note_pass : ℕ → ℕ → Embedded → Sys e → Sys e
  note_pass np tokens info s =
      let (t, s1) = ask e e.now s in
      on_worker
        (λ w.
          count (λ c. record c { passes = c.passes + 1 })
            (record w {
              last_pass = record {
                n_seg = np;
                tokens = tokens;
                ms = info.ms;
                card_wait_ms = info.card_wait_ms;
                at = t;
              };
              progress_at = t;
              card_wait = modify w.card_wait (w.n_card % card_history) (λ old. info.card_wait_ms);
              n_card = w.n_card + 1;
            }))
        s1

  unfoldable pub good_pass : List ℕ → ℕ → Embedded → Sys e → Sys e
  good_pass idx tokens info s =
      let stats : PassStats = record { n_seg = length idx; tokens = tokens; ms = info.ms } in
      let (lost, s1) = finish_each info.vecs stats 0 idx s in
      if ltb 0 lost
      then sick_if_due (on_worker note_bad s1)
      else on_worker (λ w. record w { bad_in_row = 0 }) s1

  unfoldable pub bad_pass : List ℕ → Bytes → Sys e → Sys e
  bad_pass idx why s =
      sick_if_due
        (unembed_each idx (on_worker (λ w. set_error (codes "bad pass: " ++ why) (note_bad w)) s))

  -- The pass over the jobs at these pool indices.
  unfoldable pub run_pass : List ℕ → Sys e → Sys e
  run_pass idx s =
      let jobs = jobs_at s.w.pool idx in
      let np = length idx in
      let tokens = sum (seg_lens jobs) in
      let (ids_ok, s1) = ask e (e.alloc (prep_max_tokens * 4)) s in
      let (vecs_ok, s2) = ask e (e.alloc (np * result_dims * 4)) s1 in
      let (info, s3) = ask e (e.embed (pack_ids jobs) (seg_lens jobs)) s2 in
      let s4 = note_pass np tokens info (on_log (embed_started (seg_lens jobs) ∷ []) s3) in
      let fit = vectors_ok e 0 np info.vecs in
      if not ids_ok || not vecs_ok
      then on_worker (set_error (codes "out of memory for a pass")) s2
      else if not info.ok
      then bad_pass idx info.why s4
      else if not fit
      then bad_pass idx (codes "a vector isn't finite, or its norm is outside 10-30") s4
      else good_pass idx tokens info s4

  unfoldable pub pass : Sys e → Sys e
  pass s = elim (pending_from 0 0 s.w.pool) [
    | [] ↦ s
    | i ∷ is ↦
        run_pass (chosen (i ∷ is) (choose (jobs_at s.w.pool (i ∷ is)) s.w.cfg.target_tokens)) s
  ]
