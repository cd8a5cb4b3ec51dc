-- ===== src/Worker/Sound/Passing.antt =====
-- The invariant of the worker over the outcomes of a pass, good and bad, worker.c.
use claude_chats.Prelude.{
  ℕ, zero, suc, ◌+◌, ◌≤◌, ◌≡◌, refl, sym, ◌∙◌, Bool, Bool-cases, inl, inr, some, Option-cases, List,
  [], ◌∷◌, length, length-modify, get_elem?, get_or, modify, All, All-modify, arith, if◌then◌else◌,
}
use mathlib.Core.Path.{subst}
use claude_chats.Result.{PassStats}
use claude_chats.Worker.Types.{Job, kata_unhealthy, Config}
use claude_chats.Worker.Env.{Env, Sys, on_worker, count}
use claude_chats.Worker.Pool.{held, finish, unembedded}
use claude_chats.Worker.Pool.Laws.{Kept}
use claude_chats.Worker.Pass.{set_job, finish_each, unembed_each}
use claude_chats.Worker.Sound.{JobOk, held_sum, Sound, InLedger}
use claude_chats.Worker.Sound.Ledger.{Safe, Safe-refl, Safe-trans, Steady, Safe-Steady}
use claude_chats.Worker.Sound.Building.{Rebuilt, unembedded-Rebuilt, finish-Rebuilt}
use claude_chats.Worker.Sound.Picking.{PendingAt, Rising}

All-get_elem? {κ} :
    (P : Job → Type κ) (js : List Job) (i : ℕ) (j : Job) → get_elem? js i ≡ some j → All P js → P j
All-get_elem? P [] i j e h = absurd (ground arith)
All-get_elem? P (x ∷ xs) zero j e h = let same : x ≡ j = cc in subst P same h.0
All-get_elem? P (x ∷ xs) (suc i) j e h = All-get_elem? P xs i j e h.1

held-le-held_sum :
    (js : List Job) (i : ℕ) (j : Job) → get_elem? js i ≡ some j → held j ≤ held_sum js
unfolding held_sum
held-le-held_sum [] i j e = absurd (ground arith)
held-le-held_sum (x ∷ xs) zero j e =
    let same : x ≡ j = cc in subst (λ y. held y ≤ held x + held_sum xs) same (omega arith)
held-le-held_sum (x ∷ xs) (suc i) j e = omega (arith, held-le-held_sum xs i j e)

held_sum-modify :
    (js : List Job) (i : ℕ) (j j' : Job)
    → get_elem? js i ≡ some j
    → held_sum (modify js i (λ old. j')) + held j ≡ held_sum js + held j'
unfolding held_sum
held_sum-modify [] i j j' e = absurd (ground arith)
held_sum-modify (x ∷ xs) zero j j' e =
    let same : x ≡ j = cc in
    subst (λ y. held j' + held_sum xs + held y ≡ held x + held_sum xs + held j') same (omega arith)
held_sum-modify (x ∷ xs) (suc i) j j' e = omega (arith, held_sum-modify xs i j j' e)

get_elem?-modify_ne {ℓ} :
    {A : Type ℓ} (xs : List A) (i n : ℕ) (f : A → A)
    → i + 1 ≤ n
    → get_elem? (modify xs i f) n ≡ get_elem? xs n
get_elem?-modify_ne [] i n f h = refl
get_elem?-modify_ne (x ∷ xs) zero zero f h = absurd (omega arith)
get_elem?-modify_ne (x ∷ xs) zero (suc n) f h = refl
get_elem?-modify_ne (x ∷ xs) (suc i) zero f h = absurd (omega arith)
get_elem?-modify_ne (x ∷ xs) (suc i) (suc n) f h = get_elem?-modify_ne xs i n f (omega arith)

-- The places after a changed one are as they were.
PendingAt-modify :
    (pool : List Job) (i : ℕ) (j : Job) (is : List ℕ)
    → Rising (i + 1) is
    → All (PendingAt pool) is
    → All (PendingAt (modify pool i (λ old. j))) is
PendingAt-modify pool i j is r h = go (i + 1) is r (omega arith) h
  where
    go :
        (lo : ℕ) (is : List ℕ)
        → Rising lo is
        → i + 1 ≤ lo
        → All (PendingAt pool) is
        → All (PendingAt (modify pool i (λ old. j))) is
    go lo [] r b h = tt
    go lo (n ∷ ns) r b h = (
      (λ x e. h.0 x (sym (get_elem?-modify_ne pool i n (λ old. j) (omega arith)) ∙ e)),
      go (n + 1) ns r.1 (omega arith) h.1,
    )

-- The job at a place rebuilt in place.
set_job-Safe :
    {e : Env} (i : ℕ) (j j' : Job) (s s1 : Sys e)
    → Sound s
    → get_elem? s.w.pool i ≡ some j
    → Rebuilt j s j' s1
    → Safe s (set_job i j' s1)
set_job-Safe i j j' s s1 h at r = record {
  sound = record {
    jobs =
        subst (λ l. All (JobOk l) (modify s1.w.pool i (λ old. j'))) (sym r.kept.log)
          (subst (λ js. All (JobOk s.log) (modify js i (λ old. j'))) (sym r.kept.pool)
            (All-modify (JobOk s.log) (λ old. j') (λ old ok. r.job) s.w.pool i h.jobs));
    tokens =
        subst (λ js. s1.w.pool_tokens ≡ held_sum (modify js i (λ old. j'))) (sym r.kept.pool)
          (omega (arith, r.tokens, h.tokens, held_sum-modify s.w.pool i j j' at));
    room =
        subst (λ (c : Config). length (modify s1.w.pool i (λ old. j')) ≤ c.pool_max)
          (sym r.kept.cfg)
          (subst (λ (js : List Job). length (modify js i (λ old. j')) ≤ s.w.cfg.pool_max)
            (sym r.kept.pool) (omega (arith, length-modify s.w.pool i (λ old. j'), h.room)));
    ledger = subst InLedger (sym r.kept.log) h.ledger;
  };
  frame = ground (arith, r.kept);
}

module _ {e : Env} where
  -- The places still to come, after one job of the pass.
  places_left :
      (i : ℕ) (j' : Job) (is : List ℕ) (s s1 : Sys e)
      → Kept s s1
      → Rising (i + 1) is
      → All (PendingAt s.w.pool) is
      → All (PendingAt (modify s1.w.pool i (λ old. j'))) is
  places_left i j' is s s1 k r h =
      subst (λ pool. All (PendingAt (modify pool i (λ old. j'))) is) (sym k.pool)
        (PendingAt-modify s.w.pool i j' is r h)

  count_if : Bool → Sys e → Sys e
  count_if built s =
      if built then on_worker (count (λ c. record c { messages = c.messages + 1 })) s else s

  count_if-Steady : (built : Bool) (s : Sys e) → Steady s (count_if built s)
  unfolding count_if
  count_if-Steady built s = elim (Bool-cases built) [
    | inl whole ↦
        rw whole (record { log = refl; pool = refl; pool_tokens = refl; frame = ground arith })
    | inr out ↦
        rw out (record { log = refl; pool = refl; pool_tokens = refl; frame = ground arith })
  ]

  -- A pass that went well keeps the worker sound, also where a result had no memory.
  pub finish_each-Safe :
      (vecs : List (List ℕ)) (stats : PassStats) (k : ℕ) (is : List ℕ) (lo : ℕ) (s : Sys e)
      → Sound s
      → Rising lo is
      → All (PendingAt s.w.pool) is
      → Safe s (finish_each vecs stats k is s).1
  unfolding finish_each count_if
  finish_each-Safe vecs stats k [] lo s h r p = Safe-refl h
  finish_each-Safe vecs stats k (i ∷ is) lo s h r p = elim (Option-cases (get_elem? s.w.pool i)) [
    | inl gone ↦ rw (gone, finish_each) (finish_each-Safe vecs stats (k + 1) is (i + 1) s h r.1 p.1)
    | inr (j, at) ↦
        let f = finish (some (get_or vecs k [])) (some stats) j s in
        let counted : held j ≤ s.w.pool_tokens =
          omega (arith, h.tokens, held-le-held_sum s.w.pool i j at) in
        let built =
          finish-Rebuilt j s (p.0 j at).0 (All-get_elem? (JobOk s.log) s.w.pool i j at h.jobs)
            counted (some (get_or vecs k [])) (some stats) in
        let one = set_job-Safe i j f.0.0 s f.1 h at built in
        let s2 = set_job i f.0.0 f.1 in
        let steady = count_if-Steady f.0.1 s2 in
        let two = Safe-Steady one steady in
        let left =
          subst (λ pool. All (PendingAt pool) is) (sym steady.pool)
            (places_left i f.0.0 is s f.1 built.kept r.1 p.1) in
        rw (at, finish_each)
          (Safe-trans two
            (finish_each-Safe vecs stats (k + 1) is (i + 1) (count_if f.0.1 s2) two.sound r.1 left))
  ]

  pub unembed_each-Safe :
      (is : List ℕ) (lo : ℕ) (s : Sys e)
      → Sound s
      → Rising lo is
      → All (PendingAt s.w.pool) is
      → Safe s (unembed_each is s)
  unfolding unembed_each
  unembed_each-Safe [] lo s h r p = Safe-refl h
  unembed_each-Safe (i ∷ is) lo s h r p = elim (Option-cases (get_elem? s.w.pool i)) [
    | inl gone ↦ rw (gone, unembed_each) (unembed_each-Safe is (i + 1) s h r.1 p.1)
    | inr (j, at) ↦
        let f = unembedded kata_unhealthy j s in
        let counted : held j ≤ s.w.pool_tokens =
          omega (arith, h.tokens, held-le-held_sum s.w.pool i j at) in
        let built =
          unembedded-Rebuilt j s (p.0 j at).0 (All-get_elem? (JobOk s.log) s.w.pool i j at h.jobs)
            counted kata_unhealthy in
        let one = set_job-Safe i j f.0 s f.1 h at built in
        rw (at, unembed_each)
          (Safe-trans one (
            unembed_each-Safe is (i + 1) (set_job i f.0 f.1) one.sound r.1
              (places_left i f.0 is s f.1 built.kept r.1 p.1)))
  ]
