-- ===== src/Worker/Sound/Slots.antt =====
-- What the batch loops of worker.c keep, for any test and any change of the picked jobs.
use claude_chats.Prelude.{
  ℕ, zero, suc, ◌+◌, ◌≡◌, refl, sym, ap, ◌∙◌, ◌++◌, Bool, true, Bool-cases, ◌&&◌, ◌⊎◌, inl, inr,
  some, List, [], ◌∷◌, length, get_elem?, modify, drop, All, List-cases, not, leb, arith,
  if◌then◌else◌, Bytes,
}
use mathlib.Core.Path.{subst}
use claude_chats.Worker.Types.{Job, JobState, pending, has_result, to_delete, Worker}
use claude_chats.Worker.Env.{Env, Event, Sys}
use claude_chats.Worker.Pool.Laws.{Frame}
use claude_chats.Worker.Handoff.{set_pool}
use claude_chats.Worker.Sound.Ledger.{jobs-append, Holds-same, Safe}
use claude_chats.Worker.Pool.{held}
use claude_chats.Worker.Rounds.{Slot, slots_of, jobs_of, select, gather, settle_each, rounds}
use claude_chats.Worker.Sound.{Carries, JobOk, held_sum, Holds, Sound, InLedger}

module _ {e : Env} {S : Type 0} (pick : S → List ℕ)
    (round : List ℕ → S → Sys e → (Bool × S) × Sys e) where
  rounds-nil :
      (fuel : ℕ) (a : S) (s : Sys e) → pick a ≡ [] → rounds pick round (suc fuel) a s ≡ (a, s)
  unfolding rounds
  rounds-nil fuel a s none_left = ground arith

  rounds-cons :
      (fuel i : ℕ) (is : List ℕ) (a : S) (s : Sys e)
      → pick a ≡ i ∷ is
      → let ((stop, a'), s') = round (pick a) a s in
        rounds pick round (suc fuel) a s ≡ (if stop then (a', s') else rounds pick round fuel a' s')
  unfolding rounds
  rounds-cons fuel i is a s more = ground arith

  -- What every round keeps, the loop keeps.
  pub rounds_inv {κ} :
      (P : S → Sys e → Type κ)
      → ((a : S) (s : Sys e) → P a s → let ((stop, a'), s') = round (pick a) a s in P a' s')
      → (fuel : ℕ) (a : S) (s : Sys e) → P a s
      → let (a', s') = rounds pick round fuel a s in P a' s'
  rounds_inv P keep zero a s h = unfold rounds in h
  rounds_inv P keep (suc fuel) a s h = elim (List-cases (pick a)) [
    | inl none_left ↦ rw (rounds-nil fuel a s none_left) h
    | inr (i, is, more) ↦
        let r = round (pick a) a s in
        rw (rounds-cons fuel i is a s more) (elim (Bool-cases r.0.0) [
          | inl stop ↦ rw stop (keep a s h)
          | inr go_on ↦ rw go_on (rounds_inv P keep fuel r.0.1 r.1 (keep a s h))
        ])
  ]

pub jobs_of-slots_of : (js : List Job) → jobs_of (slots_of js) ≡ js
jobs_of-slots_of [] = refl
jobs_of-slots_of (j ∷ js) = ap (◌∷◌ j) (jobs_of-slots_of js)

-- The picked indices stand for jobs of the pool that the test wants.
abbrev pub Picked : (Job → Bool) → List Slot → List ℕ → Type 0
Picked want slots [] = Unit
Picked want slots (i ∷ is) =
    ((x : Slot) × (get_elem? slots i ≡ some x) × (want x.job ≡ true)) × Picked want slots is

drop-cons :
    (slots : List Slot) (i : ℕ) (x : Slot) (xs : List Slot)
    → drop i slots ≡ x ∷ xs
    → (get_elem? slots i ≡ some x) × (drop (i + 1) slots ≡ xs)
drop-cons [] zero x xs h = ground arith
drop-cons [] (suc i) x xs h = ground arith
drop-cons (y ∷ ys) zero x xs h = ground arith
drop-cons (y ∷ ys) (suc i) x xs h = ground (arith, drop-cons ys i x xs h)

-- The test on which the index of a slot is taken.
abbrev fits_in : (Job → Bool) → (Job → ℕ) → ℕ → ℕ → Slot → Bool
fits_in want size limit total x = want x.job && (not x.tried && leb (total + size x.job) limit)

select-cases :
    (want : Job → Bool) (size : Job → ℕ) (limit i k total : ℕ) (x : Slot) (xs : List Slot)
    → ((select want size limit i k total (x ∷ xs) ≡ [])
        ⊎ ((fits_in want size limit total x ≡ true)
            × (select want size limit i k total (x ∷ xs)
                ≡ i ∷ select want size limit (i + 1) (k + 1) (total + size x.job) xs)))
      ⊎ (select want size limit i k total (x ∷ xs) ≡ select want size limit (i + 1) k total xs)
unfolding select
select-cases want size limit i k total x xs = elim (Bool-cases (fits_in want size limit total x)) [
  | inl fits ↦ ground arith
  | inr passed ↦ ground arith
]

pub select-Picked :
    (want : Job → Bool) (size : Job → ℕ) (limit i k total : ℕ) (slots xs : List Slot)
    → drop i slots ≡ xs
    → Picked want slots (select want size limit i k total xs)
select-Picked want size limit i k total slots [] d = unfold select in tt
select-Picked want size limit i k total slots (x ∷ xs) d =
    let here = drop-cons slots i x xs d in
    elim (select-cases want size limit i k total x xs) [
      | inl (inl full) ↦ rw full tt
      | inl (inr (fits, taken)) ↦ rw taken (
        (x, here.0, ground arith),
        select-Picked want size limit (i + 1) (k + 1) (total + size x.job) slots xs here.1,
      )
      | inr passed ↦ rw passed (select-Picked want size limit (i + 1) k total slots xs here.1)
    ]

-- An element of a list with one element changed is an old one, perhaps changed.
pub get_elem?-modify {ℓ} :
    {A : Type ℓ} (xs : List A) (i n : ℕ) (f : A → A) (y : A)
    → get_elem? (modify xs i f) n ≡ some y
    → (x : A) × (get_elem? xs n ≡ some x) × ((y ≡ x) ⊎ (y ≡ f x))
get_elem?-modify [] i n f y h = ground arith
get_elem?-modify (x ∷ xs) zero zero f y h = (x, refl, inr (ground arith))
get_elem?-modify (x ∷ xs) zero (suc n) f y h = (y, h, inl refl)
get_elem?-modify (x ∷ xs) (suc i) zero f y h = (y, h, inl refl)
get_elem?-modify (x ∷ xs) (suc i) (suc n) f y h = get_elem?-modify xs i n f y h

module _ {κ} (P : Job → Type κ) (f : Job → Job) where
  -- One slot's job changed, given what the slot at that index is.
  pub All-jobs_of-modify :
      (slots : List Slot) (i : ℕ)
      → ((x : Slot) → get_elem? slots i ≡ some x → P x.job → P (f x.job))
      → All P (jobs_of slots)
      → All P (jobs_of (modify slots i (λ x. record { job = f x.job; tried = true })))
  All-jobs_of-modify [] i keep h = h
  All-jobs_of-modify (x ∷ xs) zero keep h = (keep x refl h.0, h.1)
  All-jobs_of-modify (x ∷ xs) (suc i) keep h = (h.0, All-jobs_of-modify xs i keep h.1)

pub held_sum-jobs_of-modify :
    (f : Job → Job) (slots : List Slot) (i : ℕ)
    → ((x : Slot) → get_elem? slots i ≡ some x → held (f x.job) ≡ held x.job)
    → held_sum (jobs_of (modify slots i (λ x. record { job = f x.job; tried = true })))
      ≡ held_sum (jobs_of slots)
unfolding held_sum
held_sum-jobs_of-modify f [] i keep = refl
held_sum-jobs_of-modify f (x ∷ xs) zero keep = ground (arith, keep x refl)
held_sum-jobs_of-modify f (x ∷ xs) (suc i) keep =
    ground (arith, held_sum-jobs_of-modify f xs i keep)

pub length-jobs_of-modify :
    (f : Slot → Slot) (slots : List Slot) (i : ℕ)
    → length (jobs_of (modify slots i f)) ≡ length (jobs_of slots)
length-jobs_of-modify f [] i = refl
length-jobs_of-modify f (x ∷ xs) zero = refl
length-jobs_of-modify f (x ∷ xs) (suc i) = ap suc (length-jobs_of-modify f xs i)

pub gather-cons :
    (what : Job → Bytes) (i : ℕ) (is : List ℕ) (slots : List Slot) (x : Slot)
    → get_elem? slots i ≡ some x
    → gather what (i ∷ is) slots ≡ what x.job ∷ gather what is slots
unfolding gather
gather-cons what i is slots x e = ground arith

module _ {κ} (P : Job → Type κ) where
  pub All-get_elem? :
      (slots : List Slot) (i : ℕ) (x : Slot)
      → get_elem? slots i ≡ some x
      → All P (jobs_of slots)
      → P x.job
  All-get_elem? [] i x e h = absurd (ground arith)
  All-get_elem? (y ∷ ys) zero x e h =
      let same : y ≡ x = cc in subst (λ (z : Slot). P z.job) same h.0
  All-get_elem? (y ∷ ys) (suc i) x e h = All-get_elem? ys i x e h.1

-- A change that touches nothing that the ledger speaks of.
pub record Inert (f : Job → Job) : Type 0 where
  pub m : (j : Job) → (f j).m ≡ j.m
  pub state : (j : Job) → (f j).state ≡ j.state
  pub body : (j : Job) → (f j).body ≡ j.body
  pub ids : (j : Job) → (f j).ids ≡ j.ids
  pub n_ids : (j : Job) → (f j).n_ids ≡ j.n_ids
  pub result : (j : Job) → (f j).result ≡ j.result

Carries-same :
    (log : List Event) (st : JobState) (j j' : Job)
    → j'.m ≡ j.m
    → j'.body ≡ j.body
    → j'.ids ≡ j.ids
    → j'.n_ids ≡ j.n_ids
    → j'.result ≡ j.result
    → Carries log st j
    → Carries log st j'
Carries-same log pending j j' m b i n r h = ground arith
Carries-same log has_result j j' m b i n r h = rw (m, r) h
Carries-same log to_delete j j' m b i n r h = rw (m, r) h

Inert-JobOk :
    (log : List Event) (f : Job → Job) → Inert f → (j : Job) → JobOk log j → JobOk log (f j)
Inert-JobOk log f v j h = (
  rw (v.m j) h.0,
  subst (λ st. Carries log st (f j)) (sym (v.state j))
      (Carries-same log j.state j (f j) (v.m j) (v.body j) (v.ids j) (v.n_ids j) (v.result j) h.1),
)

settle-Inert-Ok :
    (log : List Event) (f : Bool → Job → Job)
    → ((ok : Bool) → Inert (f ok))
    → (ok : ℕ → Bool) (b : ℕ) (idx : List ℕ) (slots : List Slot) → All (JobOk log) (jobs_of slots)
    → let slots' = settle_each f ok b idx slots in
      All (JobOk log) (jobs_of slots')
      × (held_sum (jobs_of slots') ≡ held_sum (jobs_of slots))
      × (length (jobs_of slots') ≡ length (jobs_of slots))
unfolding settle_each
settle-Inert-Ok log f v ok b [] slots h = (h, refl, refl)
settle-Inert-Ok log f v ok b (i ∷ is) slots h =
    let g = f (ok b) in
    let inert = v (ok b) in
    let next = modify slots i (λ x. record { job = g x.job; tried = true }) in
    let ok_next =
      All-jobs_of-modify (JobOk log) g slots i (λ x e p. Inert-JobOk log g inert x.job p) h in
    let rest = settle-Inert-Ok log f v ok (b + 1) is next ok_next in
    let same =
      held_sum-jobs_of-modify g slots i
        (λ x e. held-same x.job (g x.job) (inert.state x.job) (inert.n_ids x.job)) in
    let long = length-jobs_of-modify (λ x. record { job = g x.job; tried = true }) slots i in
    (rest.0, rest.1 ∙ same, rest.2 ∙ long)
  where
    held-same : (j j' : Job) → j'.state ≡ j.state → j'.n_ids ≡ j.n_ids → held j' ≡ held j
    held-same j j' p q = ground arith

-- A round that changes jobs inertly and records `evs` keeps what is held.
pub settle_inert-Holds :
    {e : Env} (f : Bool → Job → Job)
    → ((ok : Bool) → Inert (f ok))
    → (ok : ℕ → Bool) (idx : List ℕ) (slots : List Slot) (evs : List Event) (s s' : Sys e)
    → s'.log ≡ evs ++ s.log
    → s'.w.cfg ≡ s.w.cfg
    → s'.w.pool_tokens ≡ s.w.pool_tokens
    → InLedger (evs ++ s.log)
    → Holds (jobs_of slots) s
    → Holds (jobs_of (settle_each f ok 0 idx slots)) s'
settle_inert-Holds f v ok idx slots evs s s' l c t ledger h =
    let out =
      settle-Inert-Ok (evs ++ s.log) f v ok 0 idx slots
        (jobs-append evs s.log (jobs_of slots) h.jobs) in
    record {
      jobs = rw l out.0;
      tokens = omega (arith, t, out.1, h.tokens);
      room = rw c (omega (arith, out.2, h.room));
      ledger = rw l ledger;
    }

-- What a batch loop keeps: the slots' jobs are held, and the rest of the worker is as at its start.
pub record Keeping {e : Env} (start : Sys e) (slots : List Slot) (s : Sys e) : Type 0 where
  pub holds : Holds (jobs_of slots) s
  pub frame : Frame start s

pub Keeping-start :
    {e : Env} (s s1 : Sys e)
    → s1.w ≡ s.w
    → s1.log ≡ s.log
    → Sound s
    → Keeping s (slots_of s.w.pool) s1
Keeping-start s s1 w l h = record {
  holds =
      rw jobs_of-slots_of
        (Holds-same l (ap (λ (x : Worker). x.cfg) w) (ap (λ (x : Worker). x.pool_tokens) w) h);
  frame = ground arith;
}

-- The slots' jobs become the pool again.
pub Keeping-Safe :
    {e : Env} {start s : Sys e} {slots : List Slot}
    → Keeping start slots s
    → Safe start (set_pool slots s)
Keeping-Safe k = record {
  sound = Holds-same refl refl refl k.holds;
  frame = ground (arith, k.frame);
}
