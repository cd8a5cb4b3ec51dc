-- ===== src/Kw/Base64/Groups.antt =====
-- The texts of `b64_encode` in esp32-embedder/worker/kw.c without their `=`, and that they are read.
use claude_chats.Prelude.{
  ℕ, ◌+◌, ◌*◌, ◌/◌, ◌%◌, ◌<◌, ◌≡◌, refl, ap, ◌∙◌, Option, none, some, [], ◌∷◌, All, arith, Bytes,
}
use mathlib.Core.Option
use claude_chats.Kw.Base64.{b64_char, b64_val, decode_from}
use claude_chats.Kw.Base64.Digits.{
  b64_val-b64_char, decode_from-none_left, decode_from-six_left, decode_from-four_left,
  decode_from-two_left,
}

abbrev pub AreBytes : Bytes → Type 0
AreBytes d = All (λ b. b < 256) d

-- The encoding without `=`.
unfoldable pub unpadded : Bytes → Bytes
unpadded [] = []
unpadded (a ∷ []) = b64_char (a / 4) ∷ b64_char (a % 4 * 16) ∷ []
unpadded (a ∷ b ∷ []) =
    b64_char (a / 4) ∷ b64_char (a % 4 * 16 + b / 16) ∷ b64_char (b % 16 * 4) ∷ []
unpadded (a ∷ b ∷ c ∷ more) =
    b64_char (a / 4)
    ∷ b64_char (a % 4 * 16 + b / 16)
    ∷ b64_char (b % 16 * 4 + c / 64)
    ∷ b64_char (c % 64)
    ∷ unpadded more

-- Two, three and four characters with these values, read from the start of a group.
module _ (c1 c2 v1 v2 : ℕ) (e1 : b64_val c1 ≡ some v1) (e2 : b64_val c2 ≡ some v2) (l1 : v1 < 64)
    (l2 : v2 < 64) where
  from_two :
      (cs : Bytes)
      → decode_from (c1 ∷ c2 ∷ cs) 0 0
        ≡ Option.map (◌∷◌ (v1 * 4 + v2 / 16)) (decode_from cs (v2 % 16) 4)
  from_two cs =
      decode_from-none_left c1 v1 (c2 ∷ cs) e1 l1 ∙ decode_from-six_left c2 v2 cs e2 l2 v1 l1

  module _ (c3 v3 : ℕ) (e3 : b64_val c3 ≡ some v3) (l3 : v3 < 64) where
    from_three :
        (cs : Bytes)
        → decode_from (c1 ∷ c2 ∷ c3 ∷ cs) 0 0
          ≡ Option.map
              (◌∷◌ (v1 * 4 + v2 / 16))
              (Option.map (◌∷◌ (v2 % 16 * 16 + v3 / 4)) (decode_from cs (v3 % 4) 2))
    from_three cs =
        from_two (c3 ∷ cs)
        ∙ ap (Option.map (◌∷◌ (v1 * 4 + v2 / 16)))
            (decode_from-four_left c3 v3 cs e3 l3 (v2 % 16) (omega arith))

    from_four :
        (c4 v4 : ℕ)
        → b64_val c4 ≡ some v4
        → v4 < 64
        → (cs : Bytes)
        → decode_from (c1 ∷ c2 ∷ c3 ∷ c4 ∷ cs) 0 0
          ≡ Option.map
              (λ d. (v1 * 4 + v2 / 16) ∷ (v2 % 16 * 16 + v3 / 4) ∷ (v3 % 4 * 64 + v4) ∷ d)
              (decode_from cs 0 0)
    from_four c4 v4 e4 l4 cs =
        from_three (c4 ∷ cs)
        ∙ ap (λ o. Option.map (◌∷◌ (v1 * 4 + v2 / 16)) (Option.map (◌∷◌ (v2 % 16 * 16 + v3 / 4)) o))
            (decode_from-two_left c4 v4 cs e4 l4 (v3 % 4) (omega arith))
        ∙ together (decode_from cs 0 0)
      where
        together :
            (o : Option Bytes)
            → Option.map
                (◌∷◌ (v1 * 4 + v2 / 16))
                (Option.map (◌∷◌ (v2 % 16 * 16 + v3 / 4)) (Option.map (◌∷◌ (v3 % 4 * 64 + v4)) o))
              ≡ Option.map
                  (λ d. (v1 * 4 + v2 / 16) ∷ (v2 % 16 * 16 + v3 / 4) ∷ (v3 % 4 * 64 + v4) ∷ d)
                  o
        together none = refl
        together (some d) = refl

-- Leftover bits that are zero.
nothing_left : (bits : ℕ) → decode_from [] 0 bits ≡ some []
unfolding decode_from
nothing_left bits = ground arith

pub decode_from-unpadded : (d : Bytes) → AreBytes d → decode_from (unpadded d) 0 0 ≡ some d
unfolding unpadded
decode_from-unpadded [] h = nothing_left 0
decode_from-unpadded (a ∷ []) (ha, _) =
    from_two (b64_char (a / 4)) (b64_char (a % 4 * 16)) (a / 4) (a % 4 * 16)
      (b64_val-b64_char (a / 4) (omega arith)) (b64_val-b64_char (a % 4 * 16) (omega arith))
      (omega arith) (omega arith) []
    ∙ (let first : a / 4 * 4 + a % 4 * 16 / 16 ≡ a = omega arith in
        let left : a % 4 * 16 % 16 ≡ 0 = omega arith in rw (first, left, nothing_left 4) refl)
decode_from-unpadded (a ∷ b ∷ []) (ha, (hb, _)) =
    from_three (b64_char (a / 4)) (b64_char (a % 4 * 16 + b / 16)) (a / 4) (a % 4 * 16 + b / 16)
      (b64_val-b64_char (a / 4) (omega arith))
      (b64_val-b64_char (a % 4 * 16 + b / 16) (omega arith)) (omega arith) (omega arith)
      (b64_char (b % 16 * 4)) (b % 16 * 4) (b64_val-b64_char (b % 16 * 4) (omega arith))
      (omega arith) []
    ∙ (let first : a / 4 * 4 + (a % 4 * 16 + b / 16) / 16 ≡ a = omega arith in
        let second : (a % 4 * 16 + b / 16) % 16 * 16 + b % 16 * 4 / 4 ≡ b = omega arith in
        let left : b % 16 * 4 % 4 ≡ 0 = omega arith in
        rw (first, second, left, nothing_left 2) refl)
decode_from-unpadded (a ∷ b ∷ c ∷ more) (ha, (hb, (hc, hmore))) =
    from_four (b64_char (a / 4)) (b64_char (a % 4 * 16 + b / 16)) (a / 4) (a % 4 * 16 + b / 16)
      (b64_val-b64_char (a / 4) (omega arith))
      (b64_val-b64_char (a % 4 * 16 + b / 16) (omega arith)) (omega arith) (omega arith)
      (b64_char (b % 16 * 4 + c / 64)) (b % 16 * 4 + c / 64)
      (b64_val-b64_char (b % 16 * 4 + c / 64) (omega arith)) (omega arith) (b64_char (c % 64))
      (c % 64) (b64_val-b64_char (c % 64) (omega arith)) (omega arith) (unpadded more)
    ∙ (let first : a / 4 * 4 + (a % 4 * 16 + b / 16) / 16 ≡ a = omega arith in
        let second : (a % 4 * 16 + b / 16) % 16 * 16 + (b % 16 * 4 + c / 64) / 4 ≡ b =
          omega arith in
        let third : (b % 16 * 4 + c / 64) % 4 * 64 + c % 64 ≡ c = omega arith in
        rw (first, second, third, decode_from-unpadded more hmore) refl)
