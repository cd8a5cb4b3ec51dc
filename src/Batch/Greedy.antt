-- ===== src/Batch/Greedy.antt =====
-- `batch_plan` of esp32-embedder/worker/batch.c: how much a plan holds.
use claude_chats.Prelude.{
  ℕ, zero, suc, ◌+◌, ◌≤◌, ◌<◌, ◌≡◌, refl, List, [], ◌∷◌, arith, length, get_or, drop, In, ◌⊎◌, inl,
  inr,
}
use native.Mathlib.Decide.{dec_lt}
use claude_chats.Batch.{plan_rest, batch_plan}
use claude_chats.Batch.Bounds.{picked}

drop-cons :
    (lens : List ℕ) (i l : ℕ) (ls : List ℕ)
    → drop i lens ≡ l ∷ ls
    → (get_or lens i 0 ≡ l) × (drop (i + 1) lens ≡ ls)
drop-cons [] zero l ls h = ground arith
drop-cons [] (suc i) l ls h = ground arith
drop-cons (x ∷ xs) zero l ls h = ground arith
drop-cons (x ∷ xs) (suc i) l ls h = ground (arith, drop-cons xs i l ls h)

plan_rest-le-cap :
    (lens : List ℕ) (cap target total i : ℕ) (ls : List ℕ)
    → drop i lens ≡ ls
    → total ≤ cap
    → total + picked lens (plan_rest cap target total i ls) ≤ cap
unfolding plan_rest
plan_rest-le-cap lens cap target total i [] d h = omega arith
plan_rest-le-cap lens cap target total i (l ∷ ls) d h = ground (
  arith,
  drop-cons lens i l ls d,
  plan_rest-le-cap lens cap target (total + l) (i + 1) ls,
  plan_rest-le-cap lens cap target total (i + 1) ls,
)

-- Every pick was made with less than the target, and less than the cap, in the pass so far.
abbrev pub Justified : List ℕ → ℕ → ℕ → ℕ → List ℕ → Type 0
Justified lens cap target total [] = Unit
Justified lens cap target total (i ∷ is) =
    (total < target) × (total < cap) × Justified lens cap target (total + get_or lens i 0) is

plan_rest-Justified :
    (lens : List ℕ) (cap target total i : ℕ) (ls : List ℕ)
    → drop i lens ≡ ls
    → Justified lens cap target total (plan_rest cap target total i ls)
unfolding plan_rest
plan_rest-Justified lens cap target total i [] d = tt
plan_rest-Justified lens cap target total i (l ∷ ls) d = ground (
  arith,
  drop-cons lens i l ls d,
  plan_rest-Justified lens cap target (total + l) (i + 1) ls,
  plan_rest-Justified lens cap target total (i + 1) ls,
)

-- The three ways that one round of the loop can go.
plan_rest-cases :
    (cap target total i l : ℕ) (ls : List ℕ)
    → ((plan_rest cap target total i (l ∷ ls) ≡ []) × ((target ≤ total) ⊎ (cap ≤ total)))
      ⊎ (((total + l ≤ cap)
            × (plan_rest cap target total i (l ∷ ls)
                ≡ i ∷ plan_rest cap target (total + l) (i + 1) ls))
          ⊎ ((cap < total + l)
              × (plan_rest cap target total i (l ∷ ls) ≡ plan_rest cap target total (i + 1) ls)))
unfolding plan_rest
plan_rest-cases cap target total i l ls = ground arith

-- What the greedy choice leaves: under the target and the cap, only what does not fit.
abbrev LeavesOnlyMisfits : List ℕ → ℕ → ℕ → ℕ → ℕ → ℕ → List ℕ → Type 0
LeavesOnlyMisfits lens cap target total lo n is =
    total + picked lens is < target
    → total + picked lens is < cap
    → (j : ℕ) → lo ≤ j
    → j < n
    → ¬ In j is
    → cap < total + picked lens is + get_or lens j 0

plan_rest_greedy :
    (lens : List ℕ) (cap target total i : ℕ) (ls : List ℕ)
    → drop i lens ≡ ls
    → LeavesOnlyMisfits lens cap target total i (i + length ls) (plan_rest cap target total i ls)
plan_rest_greedy lens cap target total i [] d = λ t c j lo hi out. absurd (omega arith)
plan_rest_greedy lens cap target total i (l ∷ ls) d =
    elim (plan_rest-cases cap target total i l ls) [
      | inl (stop, full) ↦ rw stop (λ t c j lo hi out. absurd (omega arith))
      | inr (inl (fits, pick)) ↦ rw pick (λ t c j lo hi out.
          let here = drop-cons lens i l ls d in
          omega (
            arith,
            here.0,
            plan_rest_greedy lens cap target (total + l) (i + 1) ls here.1 (omega (arith, here.0))
                (omega (arith, here.0)) j (other i j lo (λ e. out (inl e))) (omega arith)
                (λ m. out (inr m)),
          ))
      | inr (inr (misfit, pass_over)) ↦ rw pass_over (λ t c j lo hi out.
          let here = drop-cons lens i l ls d in
          elim (dec_lt i j) [
            | yes later ↦
                plan_rest_greedy lens cap target total (i + 1) ls here.1 t c j (omega arith)
                  (omega arith) out
            | no now ↦ let e : j ≡ i = omega arith in rw e (omega (arith, here.0))
          ])
    ]
  where
    other : (i j : ℕ) → i ≤ j → ¬ (j ≡ i) → i + 1 ≤ j
    other i j lo ne = omega arith

-- A pass whose oldest message fits holds at most `cap` tokens.
pub batch_plan-le-cap :
    (l : ℕ) (ls : List ℕ) (cap target : ℕ)
    → l ≤ cap
    → picked (l ∷ ls) (batch_plan (l ∷ ls) cap target) ≤ cap
unfolding batch_plan
batch_plan-le-cap l ls cap target h = plan_rest-le-cap (l ∷ ls) cap target l 1 ls refl h

-- Every message after the oldest joined a pass that held less than the target and the cap: the
-- target is crossed by the last pick at most.
pub batch_plan-Justified :
    (l : ℕ) (ls : List ℕ) (cap target : ℕ)
    → (is : List ℕ) × (batch_plan (l ∷ ls) cap target ≡ 0 ∷ is) × Justified (l ∷ ls) cap target l is
unfolding batch_plan
batch_plan-Justified l ls cap target =
    (plan_rest cap target l 1 ls, refl, plan_rest-Justified (l ∷ ls) cap target l 1 ls refl)

-- A plan that ends under the target and the cap leaves in the queue only messages that would
-- not fit beside it.
pub batch_plan_greedy :
    (l : ℕ) (ls : List ℕ) (cap target j : ℕ)
    → picked (l ∷ ls) (batch_plan (l ∷ ls) cap target) < target
    → picked (l ∷ ls) (batch_plan (l ∷ ls) cap target) < cap
    → j < length (l ∷ ls)
    → ¬ In j (batch_plan (l ∷ ls) cap target)
    → cap < picked (l ∷ ls) (batch_plan (l ∷ ls) cap target) + get_or (l ∷ ls) j 0
unfolding batch_plan
batch_plan_greedy l ls cap target zero t c h out = absurd (out (inl refl))
batch_plan_greedy l ls cap target (suc j) t c h out =
    plan_rest_greedy (l ∷ ls) cap target l 1 ls refl t c (suc j) (omega arith) (omega arith)
      (λ m. out (inr m))
