-- ===== src/Kw/Base64/Exact.antt =====
-- What `b64_decode` of esp32-embedder/worker/kw.c takes, against the texts of `b64_encode`.
use claude_chats.Prelude.{
  ℕ, ◌+◌, ◌*◌, ◌/◌, ◌%◌, ◌<◌, ◌≡◌, refl, sym, ap, ◌∙◌, inl, inr, false, Option, none, some,
  Option-cases, [], ◌∷◌, length, ◌==◌, arith, Bytes,
}
use mathlib.Core.Option
use mathlib.Core.Path.{subst}
use claude_chats.Kw.Base64.{b64_char, b64_val, decode_from}
use claude_chats.Kw.Base64.Digits.{
  b64_char-b64_val, decode_from-none_left, decode_from-six_left, decode_from-four_left,
  decode_from-two_left,
}
use claude_chats.Kw.Base64.Groups.{AreBytes, unpadded}

first_value :
    (c : ℕ) (cs : Bytes) (acc bits : ℕ) (d : Bytes)
    → decode_from (c ∷ cs) acc bits ≡ some d
    → (v : ℕ) × (b64_val c ≡ some v) × (v < 64) × (c ≡ b64_char v)
unfolding decode_from
first_value c cs acc bits d h = elim (Option-cases (b64_val c)) [
  | inl gone ↦ absurd (
      let refused : decode_from (c ∷ cs) acc bits ≡ none = rw (gone, decode_from) refl in
      ground arith)
  | inr (v, is) ↦ (let (low, char) = b64_char-b64_val c v is in (v, is, low, char))
]

map_inverse :
    {A B : Type 0} (f : A → B) (o : Option A) (b : B)
    → Option.map f o ≡ some b
    → (a : A) × (o ≡ some a) × (f a ≡ b)
map_inverse f none b h = cc
map_inverse f (some a) b h = (a, refl, cc)

-- The characters of a text that is read, one after the other.
module _ (c : ℕ) (cs d : Bytes) where
  read_first :
      decode_from (c ∷ cs) 0 0 ≡ some d
      → (v : ℕ) × (v < 64) × (c ≡ b64_char v) × (decode_from cs v 6 ≡ some d)
  read_first h =
      let (v, is, low, char) = first_value c cs 0 0 d h in
      (v, low, char, sym (decode_from-none_left c v cs is low) ∙ h)

  read_second :
      (acc : ℕ)
      → acc < 64
      → decode_from (c ∷ cs) acc 6 ≡ some d
      → (v : ℕ) × (d' : Bytes) × (v < 64)
        × (c ≡ b64_char v)
        × (decode_from cs (v % 16) 4 ≡ some d')
        × ((acc * 4 + v / 16) ∷ d' ≡ d)
  read_second acc few h =
      let (v, is, low, char) = first_value c cs acc 6 d h in
      let (d', more, out) =
        map_inverse (◌∷◌ (acc * 4 + v / 16)) (decode_from cs (v % 16) 4) d
          (sym (decode_from-six_left c v cs is low acc few) ∙ h) in
      (v, d', low, char, more, out)

  read_third :
      (acc : ℕ)
      → acc < 16
      → decode_from (c ∷ cs) acc 4 ≡ some d
      → (v : ℕ) × (d' : Bytes) × (v < 64)
        × (c ≡ b64_char v)
        × (decode_from cs (v % 4) 2 ≡ some d')
        × ((acc * 16 + v / 4) ∷ d' ≡ d)
  read_third acc few h =
      let (v, is, low, char) = first_value c cs acc 4 d h in
      let (d', more, out) =
        map_inverse (◌∷◌ (acc * 16 + v / 4)) (decode_from cs (v % 4) 2) d
          (sym (decode_from-four_left c v cs is low acc few) ∙ h) in
      (v, d', low, char, more, out)

  read_fourth :
      (acc : ℕ)
      → acc < 4
      → decode_from (c ∷ cs) acc 2 ≡ some d
      → (v : ℕ) × (d' : Bytes) × (v < 64)
        × (c ≡ b64_char v)
        × (decode_from cs 0 0 ≡ some d')
        × ((acc * 64 + v) ∷ d' ≡ d)
  read_fourth acc few h =
      let (v, is, low, char) = first_value c cs acc 2 d h in
      let (d', more, out) =
        map_inverse (◌∷◌ (acc * 64 + v)) (decode_from cs 0 0) d
          (sym (decode_from-two_left c v cs is low acc few) ∙ h) in
      (v, d', low, char, more, out)

read_end :
    (acc bits : ℕ) (d : Bytes) → 0 < bits → decode_from [] acc bits ≡ some d → (acc ≡ 0) × (d ≡ [])
unfolding decode_from
read_end acc bits d some_bits h = ground arith

-- The text of bytes that come from these values is these characters.
one_byte :
    (c1 c2 v1 v2 : ℕ)
    → c1 ≡ b64_char v1
    → c2 ≡ b64_char v2
    → v1 < 64
    → v2 < 64
    → v2 % 16 ≡ 0
    → c1 ∷ c2 ∷ [] ≡ unpadded ((v1 * 4 + v2 / 16) ∷ [])
unfolding unpadded
one_byte c1 c2 v1 v2 is1 is2 l1 l2 none_left =
    let first : (v1 * 4 + v2 / 16) / 4 ≡ v1 = omega arith in
    let second : (v1 * 4 + v2 / 16) % 4 * 16 ≡ v2 = omega arith in rw (first, second, is1, is2) refl

two_bytes :
    (c1 c2 c3 v1 v2 v3 : ℕ)
    → c1 ≡ b64_char v1
    → c2 ≡ b64_char v2
    → c3 ≡ b64_char v3
    → v1 < 64
    → v2 < 64
    → v3 < 64
    → v3 % 4 ≡ 0
    → c1 ∷ c2 ∷ c3 ∷ [] ≡ unpadded ((v1 * 4 + v2 / 16) ∷ (v2 % 16 * 16 + v3 / 4) ∷ [])
unfolding unpadded
two_bytes c1 c2 c3 v1 v2 v3 is1 is2 is3 l1 l2 l3 none_left =
    let first : (v1 * 4 + v2 / 16) / 4 ≡ v1 = omega arith in
    let second : (v1 * 4 + v2 / 16) % 4 * 16 + (v2 % 16 * 16 + v3 / 4) / 16 ≡ v2 = omega arith in
    let third : (v2 % 16 * 16 + v3 / 4) % 16 * 4 ≡ v3 = omega arith in
    rw (first, second, third, is1, is2, is3) refl

three_bytes :
    (c1 c2 c3 c4 v1 v2 v3 v4 : ℕ) (more : Bytes)
    → c1 ≡ b64_char v1
    → c2 ≡ b64_char v2
    → c3 ≡ b64_char v3
    → c4 ≡ b64_char v4
    → v1 < 64
    → v2 < 64
    → v3 < 64
    → v4 < 64
    → c1 ∷ c2 ∷ c3 ∷ c4 ∷ unpadded more
      ≡ unpadded ((v1 * 4 + v2 / 16) ∷ (v2 % 16 * 16 + v3 / 4) ∷ (v3 % 4 * 64 + v4) ∷ more)
unfolding unpadded
three_bytes c1 c2 c3 c4 v1 v2 v3 v4 more is1 is2 is3 is4 l1 l2 l3 l4 =
    let first : (v1 * 4 + v2 / 16) / 4 ≡ v1 = omega arith in
    let second : (v1 * 4 + v2 / 16) % 4 * 16 + (v2 % 16 * 16 + v3 / 4) / 16 ≡ v2 = omega arith in
    let third : (v2 % 16 * 16 + v3 / 4) % 16 * 4 + (v3 % 4 * 64 + v4) / 64 ≡ v3 = omega arith in
    let fourth : (v3 % 4 * 64 + v4) % 64 ≡ v4 = omega arith in
    rw (first, second, third, fourth, is1, is2, is3, is4) refl

-- What is read from whole groups and the characters left over, and from which text.
pub decode_from-some :
    (s d : Bytes)
    → decode_from s 0 0 ≡ some d
    → (length s % 4 == 1) ≡ false
    → (s ≡ unpadded d) × AreBytes d
unfolding decode_from unpadded
decode_from-some [] d h left =
    let none_read : [] ≡ d = ground arith in
    subst (λ x. ([] ≡ unpadded x) × AreBytes x) none_read (refl, tt)
decode_from-some (c1 ∷ []) d h left = absurd (ground arith)
decode_from-some (c1 ∷ c2 ∷ []) d h left =
    let (v1, l1, is1, h1) = read_first c1 (c2 ∷ []) d h in
    let (v2, d2, l2, is2, h2, out2) = read_second c2 [] d v1 l1 h1 in
    let (zero_left, no_more) = read_end (v2 % 16) 4 d2 (omega arith) h2 in
    let all : (v1 * 4 + v2 / 16) ∷ [] ≡ d = cc in
    subst (λ x. (c1 ∷ c2 ∷ [] ≡ unpadded x) × AreBytes x) all
      (one_byte c1 c2 v1 v2 is1 is2 l1 l2 zero_left, (omega arith, tt))
decode_from-some (c1 ∷ c2 ∷ c3 ∷ []) d h left =
    let (v1, l1, is1, h1) = read_first c1 (c2 ∷ c3 ∷ []) d h in
    let (v2, d2, l2, is2, h2, out2) = read_second c2 (c3 ∷ []) d v1 l1 h1 in
    let (v3, d3, l3, is3, h3, out3) = read_third c3 [] d2 (v2 % 16) (omega arith) h2 in
    let (zero_left, no_more) = read_end (v3 % 4) 2 d3 (omega arith) h3 in
    let all : (v1 * 4 + v2 / 16) ∷ (v2 % 16 * 16 + v3 / 4) ∷ [] ≡ d = cc in
    subst (λ x. (c1 ∷ c2 ∷ c3 ∷ [] ≡ unpadded x) × AreBytes x) all
      (two_bytes c1 c2 c3 v1 v2 v3 is1 is2 is3 l1 l2 l3 zero_left, (omega arith, (omega arith, tt)))
decode_from-some (c1 ∷ c2 ∷ c3 ∷ c4 ∷ s) d h left =
    let (v1, l1, is1, h1) = read_first c1 (c2 ∷ c3 ∷ c4 ∷ s) d h in
    let (v2, d2, l2, is2, h2, out2) = read_second c2 (c3 ∷ c4 ∷ s) d v1 l1 h1 in
    let (v3, d3, l3, is3, h3, out3) = read_third c3 (c4 ∷ s) d2 (v2 % 16) (omega arith) h2 in
    let (v4, d4, l4, is4, h4, out4) = read_fourth c4 s d3 (v3 % 4) (omega arith) h3 in
    let (texts, bytes) = decode_from-some s d4 h4 (ground arith) in
    let all : (v1 * 4 + v2 / 16) ∷ (v2 % 16 * 16 + v3 / 4) ∷ (v3 % 4 * 64 + v4) ∷ d4 ≡ d = cc in
    subst (λ x. (c1 ∷ c2 ∷ c3 ∷ c4 ∷ s ≡ unpadded x) × AreBytes x) all
      (
        ap (λ x. c1 ∷ c2 ∷ c3 ∷ c4 ∷ x) texts
            ∙ three_bytes c1 c2 c3 c4 v1 v2 v3 v4 d4 is1 is2 is3 is4 l1 l2 l3 l4,
        (omega arith, (omega arith, (omega arith, bytes))),
      )
