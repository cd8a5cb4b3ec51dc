-- ===== src/Tok/Unicode/Search.antt =====
-- The searches of `cpt_class`, `cpt_nfd` and `cpt_lower`, esp32-embedder/tok/tok.c, in tables in order.
use claude_chats.Prelude.{
  ℕ, suc, zero, ◌+◌, ◌-◌, ◌/◌, ◌%◌, ◌<◌, ◌≤◌, ◌≡◌, ◌≢◌, refl, ap, ◌⊎◌, inl, inr, true, false,
  Bool-cases, length, get_or, ltb, leb, ◌==◌, arith,
}
use mathlib.Core.Path.{subst}
use claude_chats.Tok.Unicode.{
  Tables, class_start, cpt_class, nfd_at, cpt_nfd, lower_at, lower_from, cpt_lower, last_start,
}

-- Each of the `n` keys is above the one before it.
abbrev pub IsRising : (ℕ → ℕ) → ℕ → Type 0
IsRising key n = (i j : ℕ) → i < j → j < n → key i < key j

-- The last of the indices from `lo` to `hi` that starts at `cp` or before it.
last_start_lem :
    (start : ℕ → ℕ) (cp n : ℕ)
    → IsRising start n
    → (i : ℕ) → i < n
    → start i ≤ cp
    → ((j : ℕ) → i < j → j < n → cp < start j)
    → (fuel lo hi : ℕ) → hi ≤ lo + fuel
    → lo ≤ i
    → i ≤ hi
    → hi < n
    → last_start start cp fuel lo hi ≡ i
unfolding last_start
last_start_lem start cp n up i i_in below after zero lo hi enough lo_i i_hi hi_n = omega arith
last_start_lem start cp n up i i_in below after (suc fuel) lo hi enough lo_i i_hi hi_n =
    let mid = (lo + hi + 1) / 2 in
    elim (Bool-cases (ltb lo hi)) [
      | inr f ↦ rw (last_start, f) (ground arith)
      | inl t ↦ elim (Bool-cases (leb (start mid) cp)) [
        | inl left ↦
            let reaches : mid ≤ i = elim (Bool-cases (leb mid i)) [
              | inl fits ↦ ground arith
              | inr past ↦
                  (let beyond = after mid (ground arith) (ground arith) in absurd (ground arith))
            ] in
            rw (last_start, t, left)
              (last_start_lem start cp n up i i_in below after fuel mid hi (ground arith) reaches
                i_hi hi_n)
        | inr right ↦
            let stops : i < mid = elim (Bool-cases (ltb i mid)) [
              | inl fits ↦ ground arith
              | inr reached ↦ elim (Bool-cases (i == mid)) [
                | inl same ↦
                    (let e : i ≡ mid = ground arith in
                      let b : start mid ≤ cp = subst (λ x. start x ≤ cp) e below in
                      absurd (ground arith))
                | inr before ↦ (let less = up mid i (ground arith) i_in in absurd (ground arith))
              ]
            ] in
            rw (last_start, t, right)
              (last_start_lem start cp n up i i_in below after fuel lo (mid - 1) (ground arith) lo_i
                (omega arith) (ground arith))
      ]
    ]

-- Where the class runs start at rising code points, the class of a code point is that of the run it
-- lies in: the run that starts at it or before it, and the next one, if any, after it.
pub cpt_class_lem :
    (t : Tables) (cp i : ℕ)
    → IsRising (class_start t) (length t.class_runs)
    → cp < 0x110000
    → i < length t.class_runs
    → class_start t i ≤ cp
    → ((j : ℕ) → i < j → j < length t.class_runs → cp < class_start t j)
    → cpt_class t cp ≡ get_or t.class_runs i 0 % 4
unfolding cpt_class
cpt_class_lem t cp i up valid i_in below after =
    let n = length t.class_runs in
    let inside : leb 0x110000 cp ≡ false = ground arith in
    rw
      (
        inside,
        last_start_lem (class_start t) cp n up i i_in below after (n - 1) 0 (n - 1) (omega arith)
            (omega arith) (omega arith) (omega arith),
      )
      refl

-- Where the ranges start at rising code points, a code point of a range has the range's base, and one
-- between ranges is kept.
pub cpt_nfd_lem :
    (t : Tables) (cp i : ℕ)
    → IsRising (λ k. (nfd_at t k).0) (length t.nfd)
    → i < length t.nfd
    → (nfd_at t i).0 ≤ cp
    → ((j : ℕ) → i < j → j < length t.nfd → cp < (nfd_at t j).0)
    → ((cp ≤ (nfd_at t i).1) × (cpt_nfd t cp ≡ (nfd_at t i).2))
      ⊎ (((nfd_at t i).1 < cp) × (cpt_nfd t cp ≡ cp))
unfolding cpt_nfd
cpt_nfd_lem t cp i up i_in below after =
    let n = length t.nfd in
    let found =
      last_start_lem (λ k. (nfd_at t k).0) cp n up i i_in below after (n - 1) 0 (n - 1)
        (omega arith) (omega arith) (omega arith) (omega arith) in
    let first : leb (nfd_at t i).0 cp ≡ true = ground arith in
    elim (Bool-cases (leb cp (nfd_at t i).1)) [
      | inl inside ↦ inl (ground arith, rw (found, first, inside) refl)
      | inr past ↦ inr (ground arith, rw (found, first, past) refl)
    ]

-- The pair of `cp` is found from every window that it lies in.
lower_from-found :
    (t : Tables) (n i : ℕ)
    → IsRising (λ k. (lower_at t k).0) n
    → i < n
    → (fuel lo stop : ℕ) → stop ≤ lo + fuel
    → lo ≤ i
    → i < stop
    → stop ≤ n
    → lower_from t (lower_at t i).0 fuel lo stop ≡ (lower_at t i).1
unfolding lower_from
lower_from-found t n i up i_in zero lo stop enough lo_i i_stop stop_n = absurd (omega arith)
lower_from-found t n i up i_in (suc fuel) lo stop enough lo_i i_stop stop_n =
    let mid = (lo + (stop - 1)) / 2 in
    let more : ltb lo stop ≡ true = ground arith in
    elim (Bool-cases (ltb mid i)) [
      | inl after ↦
          let less = up mid i (ground arith) i_in in
          let t1 : ltb (lower_at t mid).0 (lower_at t i).0 ≡ true = ground arith in
          let t2 : ((lower_at t mid).0 == (lower_at t i).0) ≡ false = ground arith in
          rw (lower_from, more, t2, t1)
            (lower_from-found t n i up i_in fuel (mid + 1) stop (ground arith) (ground arith) i_stop
              stop_n)
      | inr reached ↦ elim (Bool-cases (i == mid)) [
        | inl same ↦
            let e : mid ≡ i = ground arith in
            let here : ((lower_at t i).0 == (lower_at t i).0) ≡ true = ground arith in
            rw (lower_from, more, e, here) (ap (λ k. (lower_at t k).1) e)
        | inr before ↦
            let less = up i mid (ground arith) (ground arith) in
            let t1 : ltb (lower_at t mid).0 (lower_at t i).0 ≡ false = ground arith in
            let t2 : ((lower_at t mid).0 == (lower_at t i).0) ≡ false = ground arith in
            rw (lower_from, more, t2, t1)
              (lower_from-found t n i up i_in fuel lo mid (ground arith) lo_i (ground arith)
                (ground arith))
      ]
    ]

lower_from-absent :
    (t : Tables) (cp n : ℕ)
    → ((k : ℕ) → k < n → (lower_at t k).0 ≢ cp)
    → (fuel lo stop : ℕ) → stop ≤ n
    → lower_from t cp fuel lo stop ≡ cp
unfolding lower_from
lower_from-absent t cp n absent zero lo stop stop_n = refl
lower_from-absent t cp n absent (suc fuel) lo stop stop_n = elim (Bool-cases (ltb lo stop)) [
  | inr done ↦ rw (lower_from, done) refl
  | inl more ↦
      let mid = (lo + (stop - 1)) / 2 in
      let not_here = absent mid (ground arith) in
      let t2 : ((lower_at t mid).0 == cp) ≡ false = ground arith in
      elim (Bool-cases (ltb (lower_at t mid).0 cp)) [
        | inl right ↦
            rw (lower_from, more, t2, right)
              (lower_from-absent t cp n absent fuel (mid + 1) stop stop_n)
        | inr left ↦
            rw (lower_from, more, t2, left)
              (lower_from-absent t cp n absent fuel lo mid (ground arith))
      ]
]

-- Where the pairs are in the order of their code points, lower case is looked up: the pair's second
-- code point for the first of any pair, and every other code point for itself.
pub cpt_lower_lem :
    (t : Tables) (cp : ℕ)
    → IsRising (λ k. (lower_at t k).0) (length t.lower)
    → ((i : ℕ) → i < length t.lower → cpt_lower t (lower_at t i).0 ≡ (lower_at t i).1)
      × (((k : ℕ) → k < length t.lower → (lower_at t k).0 ≢ cp) → cpt_lower t cp ≡ cp)
unfolding cpt_lower
cpt_lower_lem t cp up =
    let n = length t.lower in
    (
      λ i i_in. lower_from-found t n i up i_in n 0 n (omega arith) (omega arith) i_in (omega arith),
      λ absent. lower_from-absent t cp n absent n 0 n (omega arith),
    )
