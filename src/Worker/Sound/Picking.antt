-- ===== src/Worker/Sound/Picking.antt =====
-- The places in the pool that `pass`, worker.c, picks.
use claude_chats.Prelude.{
  ℕ, zero, suc, ◌+◌, ◌≤◌, ◌<◌, ◌≡◌, refl, ap, ◌&&◌, not, Bool, true, false, Bool-cases, ◌⊎◌, inl,
  inr, some, is_none, List, [], ◌∷◌, map, length, get_elem?, get_or, drop, All, arith,
}
use claude_chats.Batch.Bounds.{InOrder, batch_plan-InOrder}
use claude_chats.Prep.{prep_max_tokens}
use claude_chats.Worker.Types.{Job, pending, is_pending}
use claude_chats.Worker.Pass.{pending_from, jobs_at, plan_len, choose, chosen}

-- Whatever stands at the place is a pending job with ids.
abbrev pub PendingAt : List Job → ℕ → Type 0
PendingAt pool i =
    (j : Job) → get_elem? pool i ≡ some j → (j.state ≡ pending) × (is_none j.ids ≡ false)

-- Places that rise, from `lo` on.
abbrev pub Rising : ℕ → List ℕ → Type 0
Rising lo [] = Unit
Rising lo (i ∷ is) = (lo ≤ i) × Rising (i + 1) is

Rising-weaken : (lo lo' : ℕ) (is : List ℕ) → lo' ≤ lo → Rising lo is → Rising lo' is
Rising-weaken lo lo' [] h r = tt
Rising-weaken lo lo' (i ∷ is) h r = (omega arith, r.1)

pub drop-cons :
    (pool : List Job) (i : ℕ) (j : Job) (js : List Job)
    → drop i pool ≡ j ∷ js
    → (get_elem? pool i ≡ some j) × (drop (i + 1) pool ≡ js)
drop-cons [] zero j js h = ground arith
drop-cons [] (suc i) j js h = ground arith
drop-cons (y ∷ ys) zero j js h = ground arith
drop-cons (y ∷ ys) (suc i) j js h = ground (arith, drop-cons ys i j js h)

abbrev pub is_ready_job : Job → Bool
is_ready_job j = is_pending j && not (is_none j.ids)

pub pending_from-cases :
    (i n : ℕ) (j : Job) (js : List Job)
    → ((pending_from i n (j ∷ js) ≡ [])
        ⊎ ((is_ready_job j ≡ true)
            × (pending_from i n (j ∷ js) ≡ i ∷ pending_from (i + 1) (n + 1) js)))
      ⊎ (pending_from i n (j ∷ js) ≡ pending_from (i + 1) n js)
unfolding pending_from
pending_from-cases i n j js = elim (Bool-cases (is_ready_job j)) [
  | inl ready ↦ ground arith
  | inr other ↦ ground arith
]

-- `pend[]` holds places of pending jobs with ids, in the pool's order.
pub pending_from-Rising :
    (pool : List Job) (i n : ℕ) (js : List Job)
    → drop i pool ≡ js
    → All (PendingAt pool) (pending_from i n js) × Rising i (pending_from i n js)
pending_from-Rising pool i n [] d = unfold pending_from in (tt, tt)
pending_from-Rising pool i n (j ∷ js) d =
    let here = drop-cons pool i j js d in
    elim (pending_from-cases i n j js) [
      | inl (inl full) ↦ rw full (tt, tt)
      | inl (inr (ready, taken)) ↦
          let rest = pending_from-Rising pool (i + 1) (n + 1) js here.1 in
          rw taken (
            ((λ x e. let same : j ≡ x = cc (here.0) in ground arith), rest.0),
            (omega arith, rest.1),
          )
      | inr passed ↦
          let rest = pending_from-Rising pool (i + 1) n js here.1 in
          rw passed
            (rest.0, Rising-weaken (i + 1) i (pending_from (i + 1) n js) (omega arith) rest.1)
    ]

Rising-get_or : (lo k : ℕ) (is : List ℕ) → Rising lo is → k < length is → lo + k ≤ get_or is k 0
Rising-get_or lo k [] r h = absurd (omega arith)
Rising-get_or lo zero (i ∷ is) r h = omega arith
Rising-get_or lo (suc k) (i ∷ is) r h = omega (arith, Rising-get_or (i + 1) k is r.1 (omega arith))

Rising-get_or-lt :
    (lo k n : ℕ) (is : List ℕ)
    → Rising lo is
    → k < n
    → n < length is
    → get_or is k 0 + 1 ≤ get_or is n 0
Rising-get_or-lt lo k n [] r h b = absurd (omega arith)
Rising-get_or-lt lo k zero (i ∷ is) r h b = absurd (omega arith)
Rising-get_or-lt lo zero (suc n) (i ∷ is) r h b =
    omega (arith, Rising-get_or (i + 1) n is r.1 (omega arith))
Rising-get_or-lt lo (suc k) (suc n) (i ∷ is) r h b =
    Rising-get_or-lt (i + 1) k n is r.1 (omega arith) (omega arith)

All-get_or {κ} :
    (P : ℕ → Type κ) (is : List ℕ) (k : ℕ) → All P is → k < length is → P (get_or is k 0)
All-get_or P [] k h b = absurd (omega arith)
All-get_or P (i ∷ is) zero h b = h.0
All-get_or P (i ∷ is) (suc k) h b = All-get_or P is k h.1 (omega arith)

chosen-Rising :
    (P : ℕ → Type 0) (pend picks : List ℕ) (low lo from : ℕ)
    → Rising low pend
    → All P pend
    → ((k : ℕ) → lo ≤ k → k < length pend → from ≤ get_or pend k 0)
    → InOrder lo (length pend) picks
    → All P (chosen pend picks) × Rising from (chosen pend picks)
chosen-Rising P pend [] low lo from r h above o = (tt, tt)
chosen-Rising P pend (i ∷ is) low lo from r h above o =
    let rest =
      chosen-Rising P pend is low (i + 1) (get_or pend i 0 + 1) r h
        (λ k a b. Rising-get_or-lt low i k pend r (omega arith) b) o.2 in
    ((All-get_or P pend i h o.1, rest.0), (above i o.0 o.1, rest.1))

length-map : (js : List Job) → length (map plan_len js) ≡ length js
length-map [] = refl
length-map (j ∷ js) = ap suc (length-map js)

-- The picks are in order and inside `pend[]`.
pub choose-InOrder : (js : List Job) (target : ℕ) → InOrder 0 (length js) (choose js target)
unfolding choose
choose-InOrder [] target = tt
choose-InOrder (j ∷ js) target = elim (Bool-cases j.solo) [
  | inl solo ↦ rw solo (omega arith, omega arith, tt)
  | inr shared ↦
      let (is, e, o) = batch_plan-InOrder j.n_ids (map plan_len js) prep_max_tokens target in
      rw (shared, e) (omega arith, omega arith, rw length-map at o)
]

pub length-jobs_at : (pool : List Job) (is : List ℕ) → length (jobs_at pool is) ≤ length is
unfolding jobs_at
length-jobs_at pool [] = omega arith
length-jobs_at pool (i ∷ is) = ground (arith, length-jobs_at pool is)

pub InOrder-weaken : (lo n n' : ℕ) (is : List ℕ) → n ≤ n' → InOrder lo n is → InOrder lo n' is
InOrder-weaken lo n n' [] h o = tt
InOrder-weaken lo n n' (i ∷ is) h o = (o.0, omega arith, InOrder-weaken (i + 1) n n' is h o.2)

-- The places that a pass takes: distinct, rising, each of a pending job with ids.
pub pass_places :
    (pool : List Job) (target : ℕ)
    → let pend = pending_from 0 0 pool in
      let idx = chosen pend (choose (jobs_at pool pend) target) in
      All (PendingAt pool) idx × Rising 0 idx
pass_places pool target =
    let pend = pending_from 0 0 pool in
    let r = pending_from-Rising pool 0 0 pool refl in
    let o =
      InOrder-weaken 0 (length (jobs_at pool pend)) (length pend) _ (length-jobs_at pool pend)
        (choose-InOrder (jobs_at pool pend) target) in
    chosen-Rising (PendingAt pool) pend (choose (jobs_at pool pend) target) 0 0 0 r.1 r.0
      (λ k a b. omega arith) o
