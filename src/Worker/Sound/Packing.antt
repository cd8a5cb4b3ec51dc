-- ===== src/Worker/Sound/Packing.antt =====
-- What a pass packs: `pass` of worker.c writes the ids of the jobs it picked into a buffer of 512,
-- and its places into arrays of 64.
use claude_chats.Prelude.{
  ℕ, zero, suc, ◌+◌, ◌≤◌, ◌<◌, ◌≡◌, refl, sym, ap, ◌∙◌, true, false, Bool-cases, inl, inr, some,
  List, [], ◌∷◌, map, length, get_elem?, get_or, drop, All, arith,
}
use mathlib.Core.Path.{subst}
use claude_chats.Batch.Bounds.{InOrder, picked}
use claude_chats.Batch.Greedy.{batch_plan-le-cap}
use claude_chats.Prep.{prep_max_tokens}
use claude_chats.Worker.Types.{Job, pending, is_pending}
use claude_chats.Worker.Env.{Event}
use claude_chats.Worker.Sound.{JobOk, Carries, Packed}
use claude_chats.Worker.Pass.{pending_from, jobs_at, plan_len, choose, chosen, seg_lens, sum}
use claude_chats.Worker.Sound.Picking.{
  drop-cons, pending_from-cases, choose-InOrder, length-jobs_at, InOrder-weaken,
}

-- A pending job has at most 512 ids.
abbrev Bounded : Job → Type 0
Bounded j = is_pending j ≡ true → j.n_ids ≤ prep_max_tokens

abbrev Found : List Job → ℕ → Type 0
Found pool i = (j : Job) × (get_elem? pool i ≡ some j) × (j.n_ids ≤ prep_max_tokens)

pending_from-Found :
    (pool : List Job) (i n : ℕ) (js : List Job)
    → drop i pool ≡ js
    → All Bounded js
    → All (Found pool) (pending_from i n js)
pending_from-Found pool i n [] d b = unfold pending_from in tt
pending_from-Found pool i n (j ∷ js) d b =
    let here = drop-cons pool i j js d in
    elim (pending_from-cases i n j js) [
      | inl (inl full) ↦ rw full tt
      | inl (inr (ready, taken)) ↦
          rw taken
            ((j, here.0, b.0 (ground arith)), pending_from-Found pool (i + 1) (n + 1) js here.1 b.1)
      | inr passed ↦ rw passed (pending_from-Found pool (i + 1) n js here.1 b.1)
    ]

-- `pend[]` has room for what is put into it.
length-pending_from : (i n : ℕ) (js : List Job) → n ≤ 64 → n + length (pending_from i n js) ≤ 64
unfolding pending_from
length-pending_from i n [] h = omega arith
length-pending_from i n (j ∷ js) h =
    ground (arith, length-pending_from (i + 1) (n + 1) js, length-pending_from (i + 1) n js)

jobs_at-cons :
    (pool : List Job) (i : ℕ) (is : List ℕ) (j : Job)
    → get_elem? pool i ≡ some j
    → jobs_at pool (i ∷ is) ≡ j ∷ jobs_at pool is
unfolding jobs_at
jobs_at-cons pool i is j e = ground arith

plan_len-ge : (j : Job) → j.n_ids ≤ prep_max_tokens → j.n_ids ≤ plan_len j
plan_len-ge j b = ground arith

-- The job at a place of `pend[]`, and its length in the plan.
at_place :
    (pool : List Job) (pend : List ℕ) (k : ℕ)
    → All (Found pool) pend
    → k < length pend
    → (j : Job) × (get_elem? pool (get_or pend k 0) ≡ some j)
      × (j.n_ids ≤ prep_max_tokens)
      × (get_or (map plan_len (jobs_at pool pend)) k 0 ≡ plan_len j)
at_place pool [] k f h = absurd (omega arith)
at_place pool (i ∷ is) zero f h =
    let (j, e, b) = f.0 in (j, e, b, rw (jobs_at-cons pool i is j e) refl)
at_place pool (i ∷ is) (suc k) f h =
    let (j, e, b, l) = at_place pool is k f.1 (omega arith) in
    let (j0, e0, b0) = f.0 in (j, e, b, rw (jobs_at-cons pool i is j0 e0) l)

-- The ids packed are at most what the plan counted.
packed-le-picked :
    (pool : List Job) (pend picks : List ℕ) (lo : ℕ)
    → All (Found pool) pend
    → InOrder lo (length pend) picks
    → sum (seg_lens (jobs_at pool (chosen pend picks)))
      ≤ picked (map plan_len (jobs_at pool pend)) picks
unfolding sum
packed-le-picked pool pend [] lo f o = unfold jobs_at in omega arith
packed-le-picked pool pend (k ∷ ks) lo f o =
    let (j, e, b, l) = at_place pool pend k f o.1 in
    let rest = packed-le-picked pool pend ks (k + 1) f o.2 in
    rw (jobs_at-cons pool (get_or pend k 0) (chosen pend ks) j e, l)
      (omega (arith, rest, plan_len-ge j b))

length-chosen :
    (pend picks : List ℕ) (lo n : ℕ)
    → InOrder lo n picks
    → lo ≤ n
    → lo + length (chosen pend picks) ≤ n
length-chosen pend [] lo n o h = omega arith
length-chosen pend (i ∷ is) lo n o h =
    omega (arith, length-chosen pend is (i + 1) n o.2 (omega (arith, o.1)), o.0)

choose-shared :
    (j : Job) (js : List Job) (target : ℕ)
    → j.solo ≡ false
    → j.n_ids ≤ prep_max_tokens
    → picked (map plan_len (j ∷ js)) (choose (j ∷ js) target) ≤ prep_max_tokens
unfolding choose
choose-shared j js target shared b =
    rw shared (batch_plan-le-cap j.n_ids (map plan_len js) prep_max_tokens target b)

choose-alone :
    (j : Job) (js : List Job) (target : ℕ) → j.solo ≡ true → choose (j ∷ js) target ≡ 0 ∷ []
unfolding choose
choose-alone j js target alone = rw alone refl

-- A job alone in its pass.
alone-le-cap :
    (pool : List Job) (i : ℕ) (is : List ℕ)
    → Found pool i
    → sum (seg_lens (jobs_at pool (chosen (i ∷ is) (0 ∷ [])))) ≤ prep_max_tokens
unfolding sum
alone-le-cap pool i is (j, e, b) =
    rw (jobs_at-cons pool i [] j e) (unfold jobs_at in omega (arith, b))

-- The choice of a pass, by places in `pend[]`.
chosen-le-cap :
    (pool : List Job) (pend : List ℕ) (target : ℕ)
    → All (Found pool) pend
    → InOrder 0 (length pend) (choose (jobs_at pool pend) target)
    → sum (seg_lens (jobs_at pool (chosen pend (choose (jobs_at pool pend) target))))
      ≤ prep_max_tokens
chosen-le-cap pool [] target f o = unfold jobs_at choose sum in omega arith
chosen-le-cap pool (i ∷ is) target f o =
    let (j, e, b) = f.0 in
    let js = jobs_at pool is in
    let cons = jobs_at-cons pool i is j e in
    let le = packed-le-picked pool (i ∷ is) (choose (jobs_at pool (i ∷ is)) target) 0 f o in
    elim (Bool-cases j.solo) [
      | inl alone ↦
          let one : choose (jobs_at pool (i ∷ is)) target ≡ 0 ∷ [] =
            ap (λ l. choose l target) cons ∙ choose-alone j js target alone in
          subst (λ picks. sum (seg_lens (jobs_at pool (chosen (i ∷ is) picks))) ≤ prep_max_tokens)
            (sym one) (alone-le-cap pool i is f.0)
      | inr shared ↦
          let cap =
            subst (λ l. picked (map plan_len l) (choose l target) ≤ prep_max_tokens) (sym cons)
              (choose-shared j js target shared b) in
          omega (arith, le, cap)
    ]

-- In a pool whose pending jobs have at most 512 ids each: the ids that a pass packs are at most the
-- 512 of its buffer, and it picks at most the 64 jobs that `pend[]`, `pick[]` and `seg[]` hold.
pass_fits :
    (pool : List Job) (target : ℕ)
    → All Bounded pool
    → let pend = pending_from 0 0 pool in
      let idx = chosen pend (choose (jobs_at pool pend) target) in
      (sum (seg_lens (jobs_at pool idx)) ≤ prep_max_tokens) × (length idx ≤ 64)
pass_fits pool target h =
    let pend = pending_from 0 0 pool in
    let o =
      InOrder-weaken 0 (length (jobs_at pool pend)) (length pend) _ (length-jobs_at pool pend)
        (choose-InOrder (jobs_at pool pend) target) in
    (
      chosen-le-cap pool pend target (pending_from-Found pool 0 0 pool refl h) o,
      omega (
        arith,
        length-pending_from 0 0 pool (omega arith),
        length-chosen pend (choose (jobs_at pool pend) target) 0 (length pend) o (omega arith),
      ),
    )

JobOk-Bounded : (log : List Event) (j : Job) → JobOk log j → Bounded j
JobOk-Bounded log j h p =
    let at_pending : j.state ≡ pending = ground arith in
    let c = subst (λ st. Carries log st j) at_pending h.1 in c.3

pub All-Bounded : (log : List Event) (js : List Job) → All (JobOk log) js → All Bounded js
All-Bounded log [] h = tt
All-Bounded log (j ∷ js) h = (JobOk-Bounded log j h.0, All-Bounded log js h.1)

length-seg_lens : (js : List Job) → length (seg_lens js) ≡ length js
length-seg_lens [] = refl
length-seg_lens (j ∷ js) = ap suc (length-seg_lens js)

pub pass_packs :
    (pool : List Job) (target : ℕ)
    → All Bounded pool
    → let pend = pending_from 0 0 pool in
      Packed (seg_lens (jobs_at pool (chosen pend (choose (jobs_at pool pend) target))))
pass_packs pool target h =
    let pend = pending_from 0 0 pool in
    let idx = chosen pend (choose (jobs_at pool pend) target) in
    let (fits, few) = pass_fits pool target h in
    (fits, omega (arith, few, length-jobs_at pool idx, length-seg_lens (jobs_at pool idx)))
