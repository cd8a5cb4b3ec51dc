-- ===== src/Tok/Vocab/Masks.antt =====
-- `& hmask` in esp32-embedder/tok/tok.c, where the mask is one less than a power of two.
use Prim.Native.Nat.{bit_and, digits, bit_and-bitwise}
use native.Mathlib.Nat.{pow-suc, one-le-pow}
use claude_chats.Prelude.{
  ℕ, zero, suc, ◌+◌, ◌-◌, ◌*◌, ◌/◌, ◌%◌, ◌^◌, ◌<◌, ◌≤◌, ◌≡◌, refl, sym, ap, min, arith,
}

-- The digits that the operation is made of, lowest first, on fuel.
abbrev common : ℕ → ℕ → ℕ → ℕ
common fuel a b = digits (λ x. zero) min fuel a b

common_fuel : (n m a b : ℕ) → a ≤ n → a ≤ m → common n a b ≡ common m a b
common_fuel zero zero zero b p q = refl
common_fuel zero (suc m) zero b p q = refl
common_fuel (suc n) zero zero b p q = refl
common_fuel (suc n) (suc m) zero b p q = refl
common_fuel zero m (suc a) b p q = absurd (omega arith)
common_fuel (suc n) zero (suc a) b p q = absurd (omega arith)
common_fuel (suc n) (suc m) (suc a) b p q =
    omega (arith, common_fuel n m (suc a / 2) (b / 2) (omega arith) (omega arith))

-- The lowest digit, and the others.
halves : (a b : ℕ) → bit_and a b ≡ bit_and (a / 2) (b / 2) * 2 + min (a % 2) (b % 2)
halves zero b = omega (arith, bit_and-bitwise 0 b, bit_and-bitwise 0 (b / 2))
halves (suc a) b = omega (
  arith,
  bit_and-bitwise (suc a) b,
  bit_and-bitwise (suc a / 2) (b / 2),
  common_fuel a (suc a / 2) (suc a / 2) (b / 2) (omega arith) (omega arith),
)

no_mask_fuel : (fuel a : ℕ) → a ≤ fuel → bit_and a 0 ≡ 0
no_mask_fuel fuel zero h = refl
no_mask_fuel zero (suc a) h = absurd (omega arith)
no_mask_fuel (suc fuel) (suc a) h =
    omega (arith, halves (suc a) 0, no_mask_fuel fuel (suc a / 2) (omega arith))

double_power : (q k : ℕ) → q * 2 ^ suc k ≡ (q * 2 ^ k) * 2
double_power q k = omega (arith, ap (λ (t : ℕ). q * t) (pow-suc 2 k))

-- A number of k digits behind others.
last_digits : (k q r : ℕ) → r < 2 ^ k → bit_and (q * 2 ^ k + r) (2 ^ k - 1) ≡ r
last_digits zero q r h =
    (let e : r ≡ 0 = omega arith in
      rw (no_mask_fuel (q * 2 ^ 0 + r) (q * 2 ^ 0 + r) (omega arith)) (sym e))
last_digits (suc k) q r h = ground (
  arith,
  halves (q * 2 ^ suc k + r) (2 ^ suc k - 1),
  double_power q k,
  pow-suc 2 k,
  last_digits k q (r / 2) (omega arith),
)

-- Of a mask of k ones, the last k digits are left.
pub bit_and-mask : (k a : ℕ) → bit_and a (2 ^ k - 1) ≡ a % 2 ^ k
bit_and-mask k a = ground (arith, one-le-pow k 2, last_digits k (a / 2 ^ k) (a % 2 ^ k))
