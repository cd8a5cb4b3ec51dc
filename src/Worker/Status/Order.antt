-- ===== src/Worker/Status/Order.antt =====
-- The order of the waits in `worker_card_wait` of esp32-embedder/worker/worker.c.
use claude_chats.Prelude.{
  ℕ, ◌+◌, ◌≤◌, ◌≡◌, refl, ◌==◌, List, [], ◌∷◌, All, take, arith, ltb, if◌then◌else◌, if-elim,
}
use claude_chats.Worker.Types.{Worker}
use claude_chats.Worker.Status.{place_in, sort_onto, n_waits, sorted_waits}

-- From the largest to the smallest.
abbrev pub Falling : List ℕ → Type 0
Falling [] = Unit
Falling (x ∷ xs) = All (λ y. y ≤ x) xs × Falling xs

abbrev pub occurrences : ℕ → List ℕ → ℕ
occurrences v [] = 0
occurrences v (x ∷ xs) = (if v == x then 1 else 0) + occurrences v xs

All-weaken : (x y : ℕ) (xs : List ℕ) → x ≤ y → All (λ z. z ≤ x) xs → All (λ z. z ≤ y) xs
All-weaken x y [] h a = tt
All-weaken x y (z ∷ zs) h a = (omega (arith, a.0), All-weaken x y zs h a.1)

place_in-All :
    (x b : ℕ) (xs : List ℕ) → x ≤ b → All (λ z. z ≤ b) xs → All (λ z. z ≤ b) (place_in x xs)
unfolding place_in
place_in-All x b [] h a = (h, tt)
place_in-All x b (y ∷ ys) h a = ground (arith, place_in-All x b ys h a.1)

place_in-Falling : (x : ℕ) (xs : List ℕ) → Falling xs → Falling (place_in x xs)
unfolding place_in
place_in-Falling x [] f = (tt, tt)
place_in-Falling x (y ∷ ys) f =
    if-elim Falling (ltb x y)
      (λ lower. (place_in-All x y ys (ground arith) f.0, place_in-Falling x ys f.1))
      (λ here. let le : y ≤ x = ground arith in ((le, All-weaken y x ys le f.0), f))

occurrences-place_in :
    (v x : ℕ) (xs : List ℕ) → occurrences v (place_in x xs) ≡ occurrences v (x ∷ xs)
unfolding place_in
occurrences-place_in v x [] = refl
occurrences-place_in v x (y ∷ ys) = ground (arith, occurrences-place_in v x ys)

sort_onto_lem :
    (done xs : List ℕ)
    → Falling done
    → Falling (sort_onto done xs)
      × ((v : ℕ) → occurrences v (sort_onto done xs) ≡ occurrences v done + occurrences v xs)
unfolding sort_onto
sort_onto_lem done [] f = (f, λ v. omega arith)
sort_onto_lem done (x ∷ xs) f =
    let rest = sort_onto_lem (place_in x done) xs (place_in-Falling x done f) in
    (rest.0, λ v. omega (arith, rest.1 v, occurrences-place_in v x done))

-- The values that the median is taken from are in order, and each of the waits remembered is among
-- them as often as it was remembered.
pub sorted_waits_lem :
    (w : Worker)
    → Falling (sorted_waits w)
      × ((v : ℕ) → occurrences v (sorted_waits w) ≡ occurrences v (take (n_waits w) w.card_wait))
unfolding sorted_waits
sorted_waits_lem w =
    let sorted = sort_onto_lem [] (take (n_waits w) w.card_wait) tt in
    (sorted.0, λ v. omega (arith, sorted.1 v))
