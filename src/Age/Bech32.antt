-- ===== src/Age/Bech32.antt =====
-- Bech32 and the keys written in it, esp32-embedder/worker/age.c. A C string is its bytes without the NUL.
pub mod Spelling
pub mod Keys
use claude_chats.Prelude.{
  ℕ, zero, suc, ◌+◌, ◌-◌, ◌*◌, ◌/◌, ◌%◌, ◌^◌, Bool, true, false, not, ◌&&◌, ◌||◌, Option, none,
  some, List, [], ◌∷◌, ◌++◌, length, replicate, ltb, leb, ◌==◌, if◌then◌else◌, Bytes, codes,
}
use Prim.Native.Nat.{bit_xor}
use claude_chats.Age.{AgeIdentity, Crypto, x25519}

abbrev pub charset : Bytes
charset = codes "qpzry9x8gf2tvdw0s3jn54khce6mua7l"

-- One bit of the generator.
abbrev pub generate : ℕ → ℕ → ℕ → ℕ → ℕ
generate top i g chk = if top / 2 ^ i % 2 == 1 then bit_xor chk g else chk

unfoldable pub polymod_step : ℕ → ℕ → ℕ
polymod_step chk v =
    let top = chk / 2 ^ 25 % 256 in
    let start = bit_xor (chk % 2 ^ 25 * 2 ^ 5) v in
    generate top 4 0x2a1462b3 (
      generate top 3 0x3d4233dd
        (generate top 2 0x1ea119fa (generate top 1 0x26508e6d (generate top 0 0x3b6a57b2 start))))

abbrev pub is_upper : ℕ → Bool
is_upper c = leb b'A' c && leb c b'Z'

abbrev pub is_lower : ℕ → Bool
is_lower c = leb b'a' c && leb c b'z'

abbrev pub to_lower : ℕ → ℕ
to_lower c = if is_upper c then c + 32 else c

unfoldable pub all_printable : Bytes → Bool
all_printable [] = true
all_printable (c ∷ s) = (leb 33 c && leb c 126) && all_printable s

unfoldable pub some_lower : Bytes → Bool
some_lower [] = false
some_lower (c ∷ s) = is_lower c || some_lower s

unfoldable pub some_upper : Bytes → Bool
some_upper [] = false
some_upper (c ∷ s) = is_upper c || some_upper s

-- `strrchr`: what stands before the last `c` and after it.
unfoldable pub split_last : ℕ → Bytes → Option (Bytes × Bytes)
split_last c [] = none
split_last c (x ∷ s) = elim (split_last c s) [
  | some (a, b) ↦ some (x ∷ a, b)
  | none ↦ if x == c then some ([], s) else none
]

-- `strchr(CHARSET, c) - CHARSET`.
unfoldable pub index_in : Bytes → ℕ → Option ℕ
index_in [] c = none
index_in (x ∷ s) c = elim (x == c) [
  | true ↦ some 0
  | false ↦ elim (index_in s c) [ none ↦ none | some i ↦ some (suc i) ]
]

-- The part in front of the separator against `hrp`, and the checksum behind the high bits.
unfoldable pub match_hrp : Bytes → Bytes → ℕ → Option ℕ
match_hrp [] [] chk = some chk
match_hrp (c ∷ s) (h ∷ hrp) chk =
    if to_lower c == h then match_hrp s hrp (polymod_step chk (to_lower c / 2 ^ 5)) else none
match_hrp _ _ chk = none

unfoldable pub low_bits : Bytes → ℕ → ℕ
low_bits [] chk = chk
low_bits (h ∷ hrp) chk = low_bits hrp (polymod_step chk (h % 32))

-- The bits that wait for a whole byte, and the bytes so far.
pub record Gathered : Type 0 where
  pub acc : ℕ
  pub bits : ℕ
  pub out : Bytes

-- Five more bits; `none` is a 33rd byte.
unfoldable pub gather_bits : Gathered → ℕ → Option Gathered
gather_bits g v =
    let a = (g.acc * 2 ^ 5 + v) % 2 ^ 32 in
    let left = g.bits + 5 - 8 in
    if ltb (g.bits + 5) 8
    then some (record g { acc = a; bits = g.bits + 5 })
    else if length g.out == 32
    then none
    else some (record { acc = a % 2 ^ left; bits = left; out = g.out ++ (a / 2 ^ left % 256) ∷ [] })

-- The loop over the characters behind the separator, the last six being the checksum.
unfoldable pub read_data : Bytes → ℕ → Gathered → Option (ℕ × Gathered)
unfolding gather_bits index_in
read_data [] chk g = some (chk, g)
read_data (c ∷ s) chk g = elim (index_in charset (to_lower c)) [
  | none ↦ none
  | some v ↦ elim (if leb (length (c ∷ s)) 6 then some g else gather_bits g v) [
    | none ↦ none
    | some g' ↦ read_data s (polymod_step chk v) g'
  ]
]

abbrev pub nothing_gathered : Gathered
nothing_gathered = record { acc = 0; bits = 0; out = [] }

-- The tests behind the loop.
abbrev pub is_whole : ℕ → Gathered → Bool
is_whole chk g = (chk == 1 && length g.out == 32) && (ltb g.bits 5 && g.acc == 0)

unfoldable pub bech32_data : Bytes → Bytes → Bytes → Option Bytes
unfolding match_hrp low_bits read_data
bech32_data before after hrp =
    if not (length before == length hrp) || ltb (length after) 6
    then none
    else elim (match_hrp before hrp 1) [
      | none ↦ none
      | some chk ↦ elim (read_data after (low_bits hrp (polymod_step chk 0)) nothing_gathered) [
        | none ↦ none
        | some (chk', g) ↦ if is_whole chk' g then some g.out else none
      ]
    ]

unfoldable pub bech32_decode : Bytes → Bytes → Option Bytes
unfolding all_printable some_lower some_upper split_last bech32_data
bech32_decode s hrp =
    if not (all_printable s) || (some_lower s && some_upper s)
    then none
    else elim (split_last b'1' s) [
      | none ↦ none
      | some (before, after) ↦ bech32_data before after hrp
    ]

module _ (y : Crypto) where
  unfoldable pub age_identity_parse : Bytes → y.Ctx → Option AgeIdentity × y.Ctx
  age_identity_parse s c = elim (bech32_decode s (codes "age-secret-key-")) [
    | none ↦ (none, c)
    | some secret ↦
        let (o, c1) = x25519 y secret (9 ∷ replicate 31 0) c in
        elim o [
          | none ↦ (none, c1)
          | some public ↦ (some (record { secret = secret; public = public }), c1)
        ]
  ]

unfoldable pub age_recipient_parse : Bytes → Option Bytes
age_recipient_parse s = bech32_decode s (codes "age")
