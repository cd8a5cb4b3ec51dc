-- ===== src/Prelude/Text.antt =====
-- Bytes of the C strings, and what `printf` writes for numbers.
use Prim.Native.Nat.{ℕ, zero, suc, ◌+◌, ◌-◌, ◌/◌, ◌%◌}
use Prim.Native.Char.{code}
use Prim.Native.String.{String}
use mathlib.Core.Path.{◌≡◌, refl, sym, ap, ◌∙◌}
use mathlib.Core.Logic.{inl, inr}
use native.Mathlib.Omega.{arith}
use mathlib.Core.Bool.{Bool, true, false, ◌&&◌}
use mathlib.Core.Option.{Option, none, some}
use mathlib.Core.List.{List, [], ◌∷◌, ◌++◌}
use claude_chats.Prelude.Tests.{Bool-cases, Option-cases, ltb, ◌==◌, if◌then◌else◌}
use claude_chats.Prelude.Preds.{All}
use claude_chats.Prelude.Lists.{length, replicate, take, drop, take-append-drop}

abbrev pub Bytes : Type 0
Bytes = List ℕ

-- The bytes of an ASCII literal.
abbrev pub codes : String → Bytes
codes String.[] = []
codes (String.◌∷◌ c s) = code c ∷ codes s

-- `strcmp(a, b) == 0`, `memcmp` on equal lengths.
unfoldable pub bytes_eq : Bytes → Bytes → Bool
bytes_eq [] [] = true
bytes_eq (x ∷ xs) (y ∷ ys) = x == y && bytes_eq xs ys
bytes_eq _ _ = false

-- The digits of `n`, most significant first, in front of `acc`; the fuel is more than `n`.
unfoldable pub decimal_onto : ℕ → ℕ → Bytes → Bytes
decimal_onto zero n acc = acc
decimal_onto (suc f) n acc =
    let more = decimal_onto f (n / 10) ((48 + n % 10) ∷ acc) in
    if ltb n 10 then (48 + n) ∷ acc else more

-- `%d`, `%u`, `%lu` at a number that is not negative.
unfoldable pub decimal : ℕ → Bytes
unfolding decimal_onto
decimal n = decimal_onto (suc n) n []

-- `%04d`, `%02u`: zeros in front, up to the width.
unfoldable pub padded : ℕ → ℕ → Bytes
unfolding decimal
padded width n = let ds = decimal n in replicate (width - length ds) 48 ++ ds

-- `memchr`: what stands before the first `c` and after it.
unfoldable pub split_at : ℕ → Bytes → Option (Bytes × Bytes)
split_at c [] = none
split_at c (x ∷ xs) =
    let rest = split_at c xs in
    if x == c then some ([], xs) else elim rest [ none ↦ none | some (a, b) ↦ some (x ∷ a, b) ]

pub bytes_eq→eq : (a b : Bytes) → bytes_eq a b ≡ true → a ≡ b
unfolding bytes_eq
bytes_eq→eq [] [] h = refl
bytes_eq→eq [] (y ∷ ys) h = cc
bytes_eq→eq (x ∷ xs) [] h = cc
bytes_eq→eq (x ∷ xs) (y ∷ ys) h = ground (arith, bytes_eq→eq xs ys)

pub bytes_eq_refl : (s : Bytes) → bytes_eq s s ≡ true
unfolding bytes_eq
bytes_eq_refl [] = refl
bytes_eq_refl (x ∷ s) = ground (arith, bytes_eq_refl s)

-- What `memchr` found, put together again.
pub split_at_lem : (c : ℕ) (s a b : Bytes) → split_at c s ≡ some (a, b) → s ≡ a ++ (c ∷ b)
unfolding split_at
split_at_lem c [] a b h = cc
split_at_lem c (x ∷ xs) a b h = elim (Bool-cases (x == c)) [
  | inl here ↦ ground arith
  | inr further ↦ elim (Option-cases (split_at c xs)) [
    | inl gone ↦ absurd (ground arith)
    | inr ((a', b'), found) ↦ ground (arith, split_at_lem c xs a' b' found)
  ]
]

-- A prefix that was compared, put back in front of the rest.
pub take_is : (n : ℕ) (t w : Bytes) → bytes_eq (take n t) w ≡ true → t ≡ w ++ drop n t
take_is n t w h = sym (take-append-drop n t) ∙ ap (λ x. x ++ drop n t) (bytes_eq→eq (take n t) w h)

-- No byte of the text is `c`.
abbrev pub Lacks : ℕ → Bytes → Type 0
Lacks c s = All (λ x. (x == c) ≡ false) s

pub split_at-append : (c : ℕ) (a b : Bytes) → Lacks c a → split_at c (a ++ (c ∷ b)) ≡ some (a, b)
unfolding split_at
split_at-append c [] b h = ground arith
split_at-append c (x ∷ a) b (other, h) = rw (other, split_at-append c a b h) refl

pub split_at-none : (c : ℕ) (a : Bytes) → Lacks c a → split_at c a ≡ none
unfolding split_at
split_at-none c [] h = refl
split_at-none c (x ∷ a) (other, h) = rw (other, split_at-none c a h) refl
