-- ===== src/Tok/Unicode/Bytewise.antt =====
-- `utf8_put` and `utf8_next` of esp32-embedder/tok/tok.c.
use claude_chats.Prelude.{
  ℕ, suc, ◌+◌, ◌*◌, ◌/◌, ◌%◌, ◌^◌, ◌<◌, ◌≡◌, refl, ap, inl, inr, true, false, Bool-cases, some, ◌∷◌,
  ◌++◌, ltb, ◌==◌, arith, Bytes,
}
use claude_chats.Tok.Unicode.{is_follower, followers, sequence, utf8_next, utf8_put}

followers-first :
    (k v x : ℕ) (s : Bytes)
    → x < 64
    → followers (suc k) v ((0x80 + x) ∷ s) ≡ followers k (v * 64 + x) s
unfolding followers
followers-first k v x s h =
    let first : is_follower (0x80 + x) ≡ true = ground arith in
    let value : (0x80 + x) % 64 ≡ x = omega arith in rw (first, value) refl

two_bytes :
    (a b : ℕ) (s : Bytes)
    → a < 32
    → b < 64
    → utf8_next ((0xc0 + a) ∷ (0x80 + b) ∷ s) ≡ some (a * 64 + b, s)
unfolding utf8_next sequence followers
two_bytes a b s ha hb =
    let m : (0xc0 + a) % 32 ≡ a = omega arith in
    let t7 : ((0xc0 + a) / 128 % 2 == 0) ≡ false = ground arith in
    let t6 : ((0xc0 + a) / 64 % 2 == 0) ≡ false = ground arith in
    let t5 : ((0xc0 + a) / 32 % 2 == 0) ≡ true = ground arith in
    rw (t7, t6, t5, m, followers-first 0 a b s hb) refl

three_bytes :
    (a b c : ℕ) (s : Bytes)
    → a < 16
    → b < 64
    → c < 64
    → utf8_next ((0xe0 + a) ∷ (0x80 + b) ∷ (0x80 + c) ∷ s) ≡ some ((a * 64 + b) * 64 + c, s)
unfolding utf8_next sequence followers
three_bytes a b c s ha hb hc =
    let m : (0xe0 + a) % 16 ≡ a = omega arith in
    let t7 : ((0xe0 + a) / 128 % 2 == 0) ≡ false = ground arith in
    let t6 : ((0xe0 + a) / 64 % 2 == 0) ≡ false = ground arith in
    let t5 : ((0xe0 + a) / 32 % 2 == 0) ≡ false = ground arith in
    let t4 : ((0xe0 + a) / 16 % 2 == 0) ≡ true = ground arith in
    rw
      (
        t7,
        t6,
        t5,
        t4,
        m,
        followers-first 1 a b ((0x80 + c) ∷ s) hb,
        followers-first 0 (a * 64 + b) c s hc,
      )
      refl

four_bytes :
    (a b c d : ℕ) (s : Bytes)
    → a < 8
    → b < 64
    → c < 64
    → d < 64
    → utf8_next ((0xf0 + a) ∷ (0x80 + b) ∷ (0x80 + c) ∷ (0x80 + d) ∷ s)
      ≡ some (((a * 64 + b) * 64 + c) * 64 + d, s)
unfolding utf8_next sequence followers
four_bytes a b c d s ha hb hc hd =
    let m : (0xf0 + a) % 8 ≡ a = omega arith in
    let t7 : ((0xf0 + a) / 128 % 2 == 0) ≡ false = ground arith in
    let t6 : ((0xf0 + a) / 64 % 2 == 0) ≡ false = ground arith in
    let t5 : ((0xf0 + a) / 32 % 2 == 0) ≡ false = ground arith in
    let t4 : ((0xf0 + a) / 16 % 2 == 0) ≡ false = ground arith in
    let t3 : ((0xf0 + a) / 8 % 2 == 0) ≡ true = ground arith in
    rw
      (
        t7,
        t6,
        t5,
        t4,
        t3,
        m,
        followers-first 2 a b ((0x80 + c) ∷ (0x80 + d) ∷ s) hb,
        followers-first 1 (a * 64 + b) c ((0x80 + d) ∷ s) hc,
        followers-first 0 ((a * 64 + b) * 64 + c) d s hd,
      )
      refl

-- Every Unicode code point, surrogates too, is read back from the bytes that are put for it.
pub utf8_next-utf8_put :
    (cp : ℕ) (s : Bytes) → cp < 0x110000 → utf8_next (utf8_put cp ++ s) ≡ some (cp, s)
unfolding utf8_put utf8_next
utf8_next-utf8_put cp s h = elim (Bool-cases (ltb cp 0x80)) [
  | inl one ↦ ground arith
  | inr n1 ↦ elim (Bool-cases (ltb cp 0x800)) [
    | inl two ↦
        rw (n1, two, two_bytes (cp / 2 ^ 6) (cp % 64) s (ground arith) (omega arith))
          (ap (λ x. some (x, s)) (omega arith))
    | inr n2 ↦ elim (Bool-cases (ltb cp 0x10000)) [
      | inl three ↦
          rw
            (
              n1,
              n2,
              three,
              three_bytes (cp / 2 ^ 12) (cp / 2 ^ 6 % 64) (cp % 64) s (ground arith) (omega arith)
                  (omega arith),
            )
            (ap (λ x. some (x, s)) (omega arith))
      | inr n3 ↦
          rw
            (
              n1,
              n2,
              n3,
              four_bytes (cp / 2 ^ 18) (cp / 2 ^ 12 % 64) (cp / 2 ^ 6 % 64) (cp % 64) s
                  (omega arith) (omega arith) (omega arith) (omega arith),
            )
            (ap (λ x. some (x, s)) (omega arith))
    ]
  ]
]
