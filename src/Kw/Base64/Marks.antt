-- ===== src/Kw/Base64/Marks.antt =====
-- How many `=` `b64_encode` of esp32-embedder/worker/kw.c writes, and how many `b64_decode` counts.
use claude_chats.Prelude.{
  ℕ, suc, ◌+◌, ◌-◌, ◌*◌, ◌/◌, ◌%◌, ◌^◌, ◌≤◌, ◌<◌, ◌≡◌, ◌≢◌, refl, ap, ◌∙◌, inl, inr, true, false,
  Bool-cases, some, [], ◌∷◌, ◌++◌, length, length-append, get_or, ltb, ◌==◌, ==_iff, if◌then◌else◌,
  arith, Bytes,
}
use mathlib.Core.Path.{subst}
use claude_chats.Kw.Base64.{b64_char, b64_val, b64_encode, padding}
use claude_chats.Kw.Base64.Digits.{b64_val-b64_char}
use claude_chats.Kw.Base64.Groups.{AreBytes, unpadded}

pub length-unpadded : (d : Bytes) → (length (unpadded d) % 4 == 1) ≡ false
unfolding unpadded
length-unpadded [] = refl
length-unpadded (a ∷ []) = refl
length-unpadded (a ∷ b ∷ []) = refl
length-unpadded (a ∷ b ∷ c ∷ more) = ground (arith, length-unpadded more)

-- How many `=` are written behind the characters.
pub pads : Bytes → ℕ
pads [] = 0
pads (a ∷ []) = 2
pads (a ∷ b ∷ []) = 1
pads (a ∷ b ∷ c ∷ more) = pads more

abbrev pub marks : ℕ → Bytes
marks k = if k == 0 then [] else if k == 1 then b'=' ∷ [] else b'=' ∷ b'=' ∷ []

pub b64_encode-unpadded : (d : Bytes) → AreBytes d → b64_encode d ≡ unpadded d ++ marks (pads d)
unfolding b64_encode unpadded pads
b64_encode-unpadded [] h = refl
b64_encode-unpadded (a ∷ []) (ha, _) =
    let first : a * 2 ^ 16 / 2 ^ 18 ≡ a / 4 = omega arith in
    let second : a * 2 ^ 16 / 2 ^ 12 % 64 ≡ a % 4 * 16 = omega arith in rw (first, second) refl
b64_encode-unpadded (a ∷ b ∷ []) (ha, (hb, _)) =
    let v = a * 2 ^ 16 + b * 2 ^ 8 in
    let first : v / 2 ^ 18 ≡ a / 4 = omega arith in
    let second : v / 2 ^ 12 % 64 ≡ a % 4 * 16 + b / 16 = omega arith in
    let third : v / 2 ^ 6 % 64 ≡ b % 16 * 4 = omega arith in rw (first, second, third) refl
b64_encode-unpadded (a ∷ b ∷ c ∷ more) (ha, (hb, (hc, h))) =
    let v = a * 2 ^ 16 + b * 2 ^ 8 + c in
    let first : v / 2 ^ 18 ≡ a / 4 = omega arith in
    let second : v / 2 ^ 12 % 64 ≡ a % 4 * 16 + b / 16 = omega arith in
    let third : v / 2 ^ 6 % 64 ≡ b % 16 * 4 + c / 64 = omega arith in
    let fourth : v % 64 ≡ c % 64 = omega arith in
    rw (first, second, third, fourth, b64_encode-unpadded more h) refl

mark_has_no_value : (v : ℕ) → b64_val b'=' ≢ some v
unfolding b64_val
mark_has_no_value v h = cc

mark_is_no_char : (v : ℕ) → v < 64 → (b64_char v == b'=') ≡ false
mark_is_no_char v h = elim (Bool-cases (b64_char v == b'=')) [
  | inl is ↦
      let same : b64_char v ≡ b'=' = (==_iff (b64_char v) b'=').0 is in
      absurd (mark_has_no_value v (subst (λ x. b64_val x ≡ some v) same (b64_val-b64_char v h)))
  | inr is ↦ is
]

get_or-append : (s t : Bytes) (i : ℕ) → get_or (s ++ t) (length s + i) 0 ≡ get_or t i 0
get_or-append [] t i = ap (λ n. get_or t n 0) (omega arith)
get_or-append (x ∷ s) t i =
    ap (λ n. get_or (x ∷ (s ++ t)) n 0) {x = suc (length s) + i} {y = suc (length s + i)}
      (omega arith)
    ∙ get_or-append s t i

-- The count of `=` by the last two characters.
pub padding-last :
    (s : Bytes) (x y : ℕ)
    → padding (s ++ (x ∷ y ∷ [])) ≡ (if y == b'=' then (if x == b'=' then 2 else 1) else 0)
unfolding padding
padding-last s x y =
    let long : length (s ++ (x ∷ y ∷ [])) ≡ length s + 2 = length-append s (x ∷ y ∷ []) in
    let e1 : length s + 2 - 1 ≡ length s + 1 = omega arith in
    let e2 : length s + 2 - 2 ≡ length s + 0 = omega arith in
    let t0 : ltb 0 (length s + 2) ≡ true = ground arith in
    let t1 : ltb 1 (length s + 2) ≡ true = ground arith in
    rw (long, e1, e2, t0, t1, get_or-append s (x ∷ y ∷ []) 1, get_or-append s (x ∷ y ∷ []) 0) refl

-- A text of at least two characters, by its last two.
pub last_two :
    (a b : ℕ) (s : Bytes) → (t : Bytes) × (x : ℕ) × (y : ℕ) × (a ∷ b ∷ s ≡ t ++ (x ∷ y ∷ []))
last_two a b [] = ([], a, b, refl)
last_two a b (c ∷ s) = let (t, x, y, is) = last_two b c s in (a ∷ t, x, y, ap (λ l. a ∷ l) is)

pub length-pads : (d : Bytes) → ((length (unpadded d) + pads d) % 4 ≡ 0) × (pads d ≤ 2)
unfolding unpadded pads
length-pads [] = omega arith
length-pads (a ∷ []) = omega arith
length-pads (a ∷ b ∷ []) = omega arith
length-pads (a ∷ b ∷ c ∷ more) = omega (arith, length-pads more)

pub length-marks : (k : ℕ) → k ≤ 2 → length (marks k) ≡ k
length-marks k h = ground arith

pub length-b64_encode_groups :
    (d : Bytes)
    → AreBytes d
    → (length (b64_encode d) ≡ length (unpadded d) + pads d) × (length (b64_encode d) % 4 ≡ 0)
length-b64_encode_groups d h =
    let e : length (b64_encode d) ≡ length (unpadded d) + length (marks (pads d)) =
      ap length (b64_encode-unpadded d h) ∙ length-append (unpadded d) (marks (pads d)) in
    let m = length-marks (pads d) (length-pads d).1 in
    (omega (arith, e, m), omega (arith, e, m, length-pads d))

b64_encode-last :
    (a : ℕ) (d : Bytes)
    → AreBytes (a ∷ d)
    → (t : Bytes) × (x : ℕ) × (y : ℕ) × (b64_encode (a ∷ d) ≡ t ++ (x ∷ y ∷ []))
      × ((if y == b'=' then (if x == b'=' then 2 else 1) else 0) ≡ pads (a ∷ d))
unfolding b64_encode pads
b64_encode-last a [] h =
    let v = a * 2 ^ 16 in
    (b64_char (v / 2 ^ 18) ∷ b64_char (v / 2 ^ 12 % 64) ∷ [], b'=', b'=', refl, refl)
b64_encode-last a (b ∷ []) h =
    let v = a * 2 ^ 16 + b * 2 ^ 8 in
    (
      b64_char (v / 2 ^ 18) ∷ b64_char (v / 2 ^ 12 % 64) ∷ [],
      b64_char (v / 2 ^ 6 % 64),
      b'=',
      refl,
      rw (mark_is_no_char (v / 2 ^ 6 % 64) (omega arith)) refl,
    )
b64_encode-last a (b ∷ c ∷ []) h =
    let v = a * 2 ^ 16 + b * 2 ^ 8 + c in
    (
      b64_char (v / 2 ^ 18) ∷ b64_char (v / 2 ^ 12 % 64) ∷ [],
      b64_char (v / 2 ^ 6 % 64),
      b64_char (v % 64),
      refl,
      rw (mark_is_no_char (v % 64) (omega arith)) refl,
    )
b64_encode-last a (b ∷ c ∷ e ∷ more) (ha, (hb, (hc, h))) =
    let v = a * 2 ^ 16 + b * 2 ^ 8 + c in
    let front : Bytes → Bytes = λ l.
      b64_char (v / 2 ^ 18)
      ∷ b64_char (v / 2 ^ 12 % 64)
      ∷ b64_char (v / 2 ^ 6 % 64)
      ∷ b64_char (v % 64)
      ∷ l in
    let (t, x, y, is, kind) = b64_encode-last e more h in (front t, x, y, ap front is, kind)

pub padding-b64_encode : (d : Bytes) → AreBytes d → padding (b64_encode d) ≡ pads d
padding-b64_encode [] h = unfold padding b64_encode pads in refl
padding-b64_encode (a ∷ d) h =
    let (t, x, y, is, kind) = b64_encode-last a d h in ap padding is ∙ padding-last t x y ∙ kind
