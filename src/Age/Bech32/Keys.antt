-- ===== src/Age/Bech32/Keys.antt =====
-- The keys that `bech32_decode` of esp32-embedder/worker/age.c takes.
use claude_chats.Prelude.{
  ℕ, ◌+◌, ◌*◌, ◌/◌, ◌%◌, ◌^◌, ◌<◌, ◌≡◌, refl, sym, ap, ◌∙◌, ◌⊎◌, inl, inr, Bool, true, false,
  Bool-cases, not, ◌&&◌, ◌||◌, some, Option-cases, List, [], ◌∷◌, ◌++◌, map, length, ltb, ◌==◌,
  ==_iff, arith, All, Bytes,
}
use mathlib.Core.List.{map-append}
use mathlib.Core.Path.{subst}
use claude_chats.Kw.Base64.Groups.{AreBytes}
use claude_chats.Age.Bech32.{
  polymod_step, to_lower, all_printable, some_lower, some_upper, split_last, match_hrp, low_bits,
  Gathered, read_data, nothing_gathered, is_whole, bech32_data, bech32_decode,
}
use claude_chats.Age.Bech32.Spelling.{
  chars_of, value_onto, polymod, Spells, Reads, DataRead, read_data-Reads,
}

split_last-append : (c : ℕ) (s a b : Bytes) → split_last c s ≡ some (a, b) → s ≡ a ++ (c ∷ b)
unfolding split_last
split_last-append c [] a b h = absurd (ground arith)
split_last-append c (x ∷ s) a b h = elim (Option-cases (split_last c s)) [
  | inr ((a', b'), found) ↦ ground (arith, split_last-append c s a' b' found)
  | inl gone ↦ elim (Bool-cases (x == c)) [
    | inl here ↦ ground arith
    | inr other ↦ absurd (ground arith)
  ]
]

match_hrp-some :
    (before hrp : Bytes) (chk chk' : ℕ)
    → match_hrp before hrp chk ≡ some chk'
    → (map to_lower before ≡ hrp) × (chk' ≡ polymod chk (map (λ h. h / 2 ^ 5) hrp))
unfolding match_hrp
match_hrp-some [] [] chk chk' h = (refl, cc)
match_hrp-some [] (h1 ∷ hrp) chk chk' h = absurd (ground arith)
match_hrp-some (c ∷ s) [] chk chk' h = absurd (ground arith)
match_hrp-some (c ∷ s) (h1 ∷ hrp) chk chk' h = elim (Bool-cases (to_lower c == h1)) [
  | inr other ↦ absurd (ground arith)
  | inl same ↦
      let is : to_lower c ≡ h1 = (==_iff (to_lower c) h1).0 same in
      let rest : match_hrp s hrp (polymod_step chk (to_lower c / 2 ^ 5)) ≡ some chk' =
        ground arith in
      let (text, sum) = match_hrp-some s hrp (polymod_step chk (to_lower c / 2 ^ 5)) chk' rest in
      (
        ap (λ x. x ∷ map to_lower s) is ∙ ap (λ x. h1 ∷ x) text,
        sum ∙ ap (λ x. polymod (polymod_step chk (x / 2 ^ 5)) (map (λ h2. h2 / 2 ^ 5) hrp)) is,
      )
]

low_bits-polymod : (hrp : Bytes) (chk : ℕ) → low_bits hrp chk ≡ polymod chk (map (λ h. h % 32) hrp)
unfolding low_bits
low_bits-polymod [] chk = refl
low_bits-polymod (h ∷ hrp) chk = low_bits-polymod hrp (polymod_step chk (h % 32))

-- The checksum of a prefix and values, BIP 173.
abbrev pub checksum : Bytes → List ℕ → ℕ
checksum hrp vs =
    polymod
      (polymod (polymod_step (polymod 1 (map (λ h. h / 2 ^ 5) hrp)) 0) (map (λ h. h % 32) hrp)) vs

-- The text, in one case, is the prefix, `1`, 52 characters for the 256 bits of the key and four zero bits, and
-- six of a checksum that fits.
abbrev pub KeyText : Bytes → Bytes → Bytes → Type 0
KeyText s hrp key =
    (vs : List ℕ) × (ws : List ℕ) × (map to_lower s ≡ hrp ++ (b'1' ∷ chars_of (vs ++ ws)))
    × All (λ v. v < 32) (vs ++ ws)
    × (length vs ≡ 52)
    × (length ws ≡ 6)
    × (value_onto 32 0 vs ≡ value_onto 256 0 key * 16)
    × (length key ≡ 32)
    × AreBytes key
    × (checksum hrp (vs ++ ws) ≡ 1)
    × ((some_lower s ≡ false) ⊎ (some_upper s ≡ false))

start : Reads 0 0 nothing_gathered
start = record { few = omega arith; low = omega arith; digits = refl; whole = refl; bytes = tt }

key_of :
    (g : Gathered) (n m : ℕ)
    → Reads n m g
    → length g.out ≡ 32
    → g.bits < 5
    → g.acc ≡ 0
    → (m ≡ 52) × (n ≡ value_onto 256 0 g.out * 16)
key_of g n m r long few zero_left =
    let count : m ≡ 52 = omega (arith, r.digits) in
    let four : g.bits ≡ 4 = omega (arith, r.digits) in
    (count, r.whole ∙ ap (λ b. value_onto 256 0 g.out * 2 ^ b + g.acc) four ∙ omega arith)

-- The characters behind the separator, for a key.
abbrev KeyData : Bytes → Bytes → Bytes → Type 0
KeyData after hrp key =
    (vs : List ℕ) × (ws : List ℕ) × Spells after (vs ++ ws)
    × (length ws ≡ 6)
    × (length vs ≡ 52)
    × (value_onto 32 0 vs ≡ value_onto 256 0 key * 16)
    × (length key ≡ 32)
    × AreBytes key
    × (checksum hrp (vs ++ ws) ≡ 1)

finished :
    (after hrp : Bytes) (chk chk' : ℕ) (g : Gathered)
    → chk ≡ polymod 1 (map (λ h. h / 2 ^ 5) hrp)
    → DataRead after chk' g 0 0 (low_bits hrp (polymod_step chk 0))
    → chk' ≡ 1
    → length g.out ≡ 32
    → g.bits < 5
    → g.acc ≡ 0
    → KeyData after hrp g.out
finished after hrp chk chk' g high (vs, ws, spells, six, r, sum) one long few zero_left =
    let (count, number) = key_of g (value_onto 32 0 vs) (0 + length vs) r long few zero_left in
    let begun : low_bits hrp (polymod_step chk 0)
        ≡ polymod (polymod_step (polymod 1 (map (λ h. h / 2 ^ 5) hrp)) 0) (map (λ h. h % 32) hrp) =
      low_bits-polymod hrp (polymod_step chk 0)
      ∙ ap (λ x. polymod (polymod_step x 0) (map (λ h. h % 32) hrp)) high in
    (
      vs,
      ws,
      spells,
      six,
      omega (arith, count),
      number,
      long,
      r.bytes,
      ap (λ x. polymod x (vs ++ ws)) (sym begun) ∙ sym sum ∙ one,
    )

bech32_data-some :
    (before after hrp key : Bytes)
    → bech32_data before after hrp ≡ some key
    → (map to_lower before ≡ hrp) × KeyData after hrp key
unfolding bech32_data
bech32_data-some before after hrp key h =
    elim (Bool-cases (not (length before == length hrp) || ltb (length after) 6)) [
      | inl bad ↦ absurd (ground arith)
      | inr good ↦ elim (Option-cases (match_hrp before hrp 1)) [
        | inl other ↦ absurd (ground arith)
        | inr (chk, matched) ↦
            let begun = low_bits hrp (polymod_step chk 0) in
            elim (Option-cases (read_data after begun nothing_gathered)) [
              | inl bad ↦ absurd (ground arith)
              | inr ((chk', g), read) ↦ elim (Bool-cases (is_whole chk' g)) [
                | inr part ↦ absurd (ground arith)
                | inl whole ↦
                    let (text, high) = match_hrp-some before hrp 1 chk matched in
                    let data_read =
                      read_data-Reads after begun nothing_gathered chk' g 0 0 (ground arith) start
                        read in
                    let same : g.out ≡ key = ground arith in
                    (
                      text,
                      subst (KeyData after hrp) same (
                          finished after hrp chk chk' g high data_read (ground arith) (ground arith)
                            (ground arith) (ground arith)),
                    )
              ]
            ]
      ]
    ]

-- A text is taken for a key only if, in one case, it is the prefix, `1`, the 52 characters that write the
-- key's 256 bits and four zero bits, and six characters of a checksum that fits.
pub bech32_decode-KeyText : (s hrp key : Bytes) → bech32_decode s hrp ≡ some key → KeyText s hrp key
unfolding bech32_decode
bech32_decode-KeyText s hrp key h =
    elim (Bool-cases (not (all_printable s) || (some_lower s && some_upper s))) [
      | inl bad ↦ absurd (ground arith)
      | inr good ↦ elim (Option-cases (split_last b'1' s)) [
        | inl none_there ↦ absurd (ground arith)
        | inr ((before, after), found) ↦
            let parts = split_last-append b'1' s before after found in
            let (text, (vs, ws, (chars, lows), six, count, number, long, fine, sum)) =
              bech32_data-some before after hrp key (ground arith) in
            let spelt : map to_lower s ≡ hrp ++ (b'1' ∷ chars_of (vs ++ ws)) =
              ap (map to_lower) parts
              ∙ map-append to_lower before (b'1' ∷ after)
              ∙ ap (λ x. x ++ (b'1' ∷ map to_lower after)) text
              ∙ ap (λ x. hrp ++ (b'1' ∷ x)) chars in
            (
              vs,
              ws,
              spelt,
              lows,
              count,
              six,
              number,
              long,
              fine,
              sum,
              one_case (some_lower s) (some_upper s) (ground arith),
            )
      ]
    ]
  where
    one_case : (a b : Bool) → (a && b) ≡ false → (a ≡ false) ⊎ (b ≡ false)
    one_case true b h = inr h
    one_case false b h = inl refl
