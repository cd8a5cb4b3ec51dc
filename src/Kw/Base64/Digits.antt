-- ===== src/Kw/Base64/Digits.antt =====
-- The characters of base64 and their values, `B64` and `b64_val` of esp32-embedder/worker/kw.c, and the
-- steps of the decoding loop.
use claude_chats.Prelude.{
  ℕ, zero, suc, ◌+◌, ◌*◌, ◌/◌, ◌%◌, ◌^◌, ◌<◌, ◌≡◌, refl, sym, Bool, true, false, ◌&&◌, Option, none,
  some, ◌∷◌, ltb, ◌==◌, ==_iff, arith, Bytes,
}
use mathlib.Core.Option
use claude_chats.Kw.Base64.{b64_char, b64_val, shift_in, decode_from}

every_below : ℕ → (ℕ → Bool) → Bool
every_below zero p = true
every_below (suc n) p = p n && every_below n p

every_below_lem : (n : ℕ) (p : ℕ → Bool) (x : ℕ) → every_below n p ≡ true → x < n → p x ≡ true
unfolding every_below
every_below_lem zero p x h lt = absurd (omega arith)
every_below_lem (suc n) p x h lt = ground (arith, every_below_lem n p x)

abbrev reads_back : ℕ → Bool
unfolding b64_val
reads_back v = elim (b64_val (b64_char v)) [ none ↦ false | some w ↦ w == v ]

abbrev writes_back : ℕ → Bool
unfolding b64_val
writes_back c = elim (b64_val c) [ none ↦ true | some v ↦ ltb v 64 && b64_char v == c ]

read_table : every_below 64 reads_back ≡ true
unfolding every_below b64_val
read_table = refl

written_table : every_below 128 writes_back ≡ true
unfolding every_below b64_val
written_table = refl

pub b64_val-b64_char : (v : ℕ) → v < 64 → b64_val (b64_char v) ≡ some v
unfolding b64_val
b64_val-b64_char v h =
    from_table (b64_val (b64_char v)) (every_below_lem 64 reads_back v read_table h)
  where
    from_table : (o : Option ℕ) → elim o [ none ↦ false | some w ↦ w == v ] ≡ true → o ≡ some v
    from_table none e = cc
    from_table (some w) e = ground (arith, ==_iff w v)

b64_val-lt : (c v : ℕ) → b64_val c ≡ some v → c < 128
unfolding b64_val
b64_val-lt c v h = ground arith

pub b64_char-b64_val : (c v : ℕ) → b64_val c ≡ some v → (v < 64) × (c ≡ b64_char v)
unfolding b64_val writes_back
b64_char-b64_val c v h =
    from_table (b64_val c) h (every_below_lem 128 writes_back c written_table (b64_val-lt c v h))
  where
    from_table :
        (o : Option ℕ)
        → o ≡ some v
        → elim o [ none ↦ true | some w ↦ ltb w 64 && b64_char w == c ] ≡ true
        → (v < 64) × (c ≡ b64_char v)
    from_table none is e = cc
    from_table (some w) is e =
        let same : w ≡ v = cc in
        let low : w < 64 = ground arith in
        let char : b64_char w ≡ c = (==_iff (b64_char w) c).0 (ground arith) in
        (rw (← same) low, rw (← same) (sym char))

-- One character read with 0, 6, 4 and 2 bits left over.
module _ (c v : ℕ) (cs : Bytes) (value : b64_val c ≡ some v) (low : v < 64) where
  pub decode_from-none_left : decode_from (c ∷ cs) 0 0 ≡ decode_from cs v 6
  unfolding decode_from
  decode_from-none_left =
      let a : shift_in 0 v ≡ v = omega arith in rw (value, decode_from) (rw a refl)

  pub decode_from-six_left :
      (acc : ℕ)
      → acc < 64
      → decode_from (c ∷ cs) acc 6 ≡ Option.map (◌∷◌ (acc * 4 + v / 16)) (decode_from cs (v % 16) 4)
  unfolding decode_from
  decode_from-six_left acc h =
      let a : shift_in acc v / 2 ^ 4 % 256 ≡ acc * 4 + v / 16 = omega arith in
      let m : shift_in acc v % 2 ^ 4 ≡ v % 16 = omega arith in
      rw (value, decode_from) (rw (a, m) refl)

  pub decode_from-four_left :
      (acc : ℕ)
      → acc < 16
      → decode_from (c ∷ cs) acc 4 ≡ Option.map (◌∷◌ (acc * 16 + v / 4)) (decode_from cs (v % 4) 2)
  unfolding decode_from
  decode_from-four_left acc h =
      let a : shift_in acc v / 2 ^ 2 % 256 ≡ acc * 16 + v / 4 = omega arith in
      let m : shift_in acc v % 2 ^ 2 ≡ v % 4 = omega arith in
      rw (value, decode_from) (rw (a, m) refl)

  pub decode_from-two_left :
      (acc : ℕ)
      → acc < 4
      → decode_from (c ∷ cs) acc 2 ≡ Option.map (◌∷◌ (acc * 64 + v)) (decode_from cs 0 0)
  unfolding decode_from
  decode_from-two_left acc h =
      let a : shift_in acc v / 2 ^ 0 % 256 ≡ acc * 64 + v = omega arith in
      let m : shift_in acc v % 2 ^ 0 ≡ 0 = omega arith in rw (value, decode_from) (rw (a, m) refl)
