-- ===== src/Age/Bech32/Spelling.antt =====
-- How the keys that `bech32_decode` of esp32-embedder/worker/age.c takes are spelt.
use claude_chats.Prelude.{
  ℕ, zero, suc, ◌+◌, ◌-◌, ◌*◌, ◌/◌, ◌%◌, ◌^◌, ◌≤◌, ◌<◌, ◌≡◌, refl, sym, ap, ◌∙◌, inl, inr,
  Bool-cases, some, Option-cases, List, [], ◌∷◌, ◌++◌, map, length, length-append, get_or, ltb, leb,
  ◌==◌, ==_iff, if◌then◌else◌, arith, All, All-append, Bytes,
}
use mathlib.Core.Path.{subst}
use claude_chats.Kw.Base64.Groups.{AreBytes}
use claude_chats.Age.Bech32.{
  charset, polymod_step, to_lower, index_in, Gathered, gather_bits, read_data,
}

-- The characters of 5-bit values, and the number that digits write in a base.
abbrev pub chars_of : List ℕ → Bytes
chars_of vs = map (λ v. get_or charset v 0) vs

abbrev pub value_onto : ℕ → ℕ → List ℕ → ℕ
value_onto base n [] = n
value_onto base n (d ∷ ds) = value_onto base (n * base + d) ds

value_onto-append :
    (base n : ℕ) (ds : List ℕ) (d : ℕ)
    → value_onto base n (ds ++ (d ∷ [])) ≡ value_onto base n ds * base + d
value_onto-append base n [] d = refl
value_onto-append base n (e ∷ ds) d = value_onto-append base (n * base + e) ds d

-- The checksum over values.
abbrev pub polymod : ℕ → List ℕ → ℕ
polymod chk [] = chk
polymod chk (v ∷ vs) = polymod (polymod_step chk v) vs

index_in-get : (s : Bytes) (c i : ℕ) → index_in s c ≡ some i → (i < length s) × (c ≡ get_or s i 0)
unfolding index_in
index_in-get [] c i h = absurd (ground arith)
index_in-get (x ∷ s) c i h = elim (Bool-cases (x == c)) [
  | inl here ↦
      let first : 0 ≡ i = ground arith in
      subst (λ k. (k < suc (length s)) × (c ≡ get_or (x ∷ s) k 0)) first
        (omega arith, sym ((==_iff x c).0 here))
  | inr further ↦ elim (Option-cases (index_in s c)) [
    | inl gone ↦ absurd (ground arith)
    | inr (j, is) ↦
        let (low, char) = index_in-get s c j is in
        let next : suc j ≡ i = ground arith in
        subst (λ k. (k < suc (length s)) × (c ≡ get_or (x ∷ s) k 0)) next (omega (arith, low), char)
  ]
]

-- What has been read of a number: `n` in base 32, of `m` digits.
pub record Reads (n m : ℕ) (g : Gathered) : Type 0 where
  pub few : g.bits < 8
  pub low : g.acc < 2 ^ g.bits
  pub digits : m * 5 ≡ length g.out * 8 + g.bits
  pub whole : n ≡ value_onto 256 0 g.out * 2 ^ g.bits + g.acc
  pub bytes : AreBytes g.out

-- Five bits more that wait, and five that fill a byte.
wait_bits :
    (bits acc v n whole : ℕ)
    → v < 32
    → bits < 3
    → acc < 2 ^ bits
    → n ≡ whole * 2 ^ bits + acc
    → (let a = (acc * 2 ^ 5 + v) % 2 ^ 32 in
        (a < 2 ^ (bits + 5)) × (n * 32 + v ≡ whole * 2 ^ (bits + 5) + a))
wait_bits zero acc v n whole five waits low is = omega arith
wait_bits (suc zero) acc v n whole five waits low is = omega arith
wait_bits (suc (suc zero)) acc v n whole five waits low is = omega arith
wait_bits (suc (suc (suc bits))) acc v n whole five waits low is = absurd (omega arith)

fill_byte :
    (bits acc v n whole : ℕ)
    → v < 32
    → 3 ≤ bits
    → bits < 8
    → acc < 2 ^ bits
    → n ≡ whole * 2 ^ bits + acc
    → (let a = (acc * 2 ^ 5 + v) % 2 ^ 32 in
        let left = bits + 5 - 8 in
        (a % 2 ^ left < 2 ^ left)
        × (n * 32 + v ≡ (whole * 256 + a / 2 ^ left % 256) * 2 ^ left + a % 2 ^ left))
fill_byte zero acc v n whole five full few low is = absurd (omega arith)
fill_byte (suc zero) acc v n whole five full few low is = absurd (omega arith)
fill_byte (suc (suc zero)) acc v n whole five full few low is = absurd (omega arith)
fill_byte (suc (suc (suc zero))) acc v n whole five full few low is = omega arith
fill_byte (suc (suc (suc (suc zero)))) acc v n whole five full few low is = omega arith
fill_byte (suc (suc (suc (suc (suc zero))))) acc v n whole five full few low is = omega arith
fill_byte (suc (suc (suc (suc (suc (suc zero)))))) acc v n whole five full few low is = omega arith
fill_byte (suc (suc (suc (suc (suc (suc (suc zero))))))) acc v n whole five full few low is =
    omega arith
fill_byte (suc (suc (suc (suc (suc (suc (suc (suc bits)))))))) acc v n whole five full few low is =
    absurd (omega arith)

gather_bits-Reads :
    (n m v : ℕ) (g g' : Gathered)
    → v < 32
    → Reads n m g
    → gather_bits g v ≡ some g'
    → Reads (n * 32 + v) (m + 1) g'
unfolding gather_bits
gather_bits-Reads n m v g g' five r h =
    let a = (g.acc * 2 ^ 5 + v) % 2 ^ 32 in
    let left = g.bits + 5 - 8 in
    let sofar = value_onto 256 0 g.out in
    elim (Bool-cases (ltb (g.bits + 5) 8)) [
      | inl waits ↦
          let (low, whole) = wait_bits g.bits g.acc v n sofar five (ground arith) r.low r.whole in
          let same : record g { acc = a; bits = g.bits + 5 } ≡ g' = ground arith in
          subst (Reads (n * 32 + v) (m + 1)) same (record {
            few = ground arith;
            low = low;
            digits = omega (arith, r.digits);
            whole = whole;
            bytes = r.bytes;
          })
      | inr full ↦
          let (low, whole) =
            fill_byte g.bits g.acc v n sofar five (ground arith) r.few r.low r.whole in
          let byte = a / 2 ^ left % 256 in
          let next : Gathered = record {
            acc = a % 2 ^ left;
            bits = left;
            out = g.out ++ (byte ∷ []);
          } in
          let same : next ≡ g' = elim (Bool-cases (length g.out == 32)) [
            | inl no_room ↦ absurd (ground arith)
            | inr room ↦ ground arith
          ] in
          let many : 8 ≤ g.bits + 5 = ground arith in
          subst (Reads (n * 32 + v) (m + 1)) same (record {
            few = omega (arith, r.few);
            low = low;
            digits = omega (arith, r.digits, length-append g.out (byte ∷ []), many);
            whole =
                whole
                ∙ ap (λ x. x * 2 ^ left + a % 2 ^ left) (sym (value_onto-append 256 0 g.out byte));
            bytes = All-append (λ b. b < 256) g.out (byte ∷ []) r.bytes (omega arith, tt);
          })
    ]

-- Values below 32, and their characters.
abbrev pub Spells : Bytes → List ℕ → Type 0
Spells s vs = (map to_lower s ≡ chars_of vs) × All (λ v. v < 32) vs

Spells-cons :
    (c v : ℕ) (s : Bytes) (vs : List ℕ)
    → v < 32
    → to_lower c ≡ get_or charset v 0
    → Spells s vs
    → Spells (c ∷ s) (v ∷ vs)
Spells-cons c v s vs low char (chars, lows) =
    (ap (λ x. x ∷ map to_lower s) char ∙ ap (λ x. get_or charset v 0 ∷ x) chars, (low, lows))

-- The characters are values, those of the number and six of the checksum.
abbrev pub DataRead : Bytes → ℕ → Gathered → ℕ → ℕ → ℕ → Type 0
DataRead s chk' g' n m chk =
    (vs : List ℕ) × (ws : List ℕ) × Spells s (vs ++ ws)
    × (length ws ≡ 6)
    × Reads (value_onto 32 n vs) (m + length vs) g'
    × (chk' ≡ polymod chk (vs ++ ws))

DataRead-cons :
    (c v : ℕ) (s : Bytes) (chk chk' : ℕ) (g' : Gathered) (n m : ℕ)
    → v < 32
    → to_lower c ≡ get_or charset v 0
    → DataRead s chk' g' (n * 32 + v) (m + 1) (polymod_step chk v)
    → DataRead (c ∷ s) chk' g' n m chk
DataRead-cons c v s chk chk' g' n m low char (vs, ws, spells, six, r, sum) =
    let count : m + 1 + length vs ≡ m + suc (length vs) = omega arith in
    (
      v ∷ vs,
      ws,
      Spells-cons c v s (vs ++ ws) low char spells,
      six,
      subst (λ k. Reads (value_onto 32 (n * 32 + v) vs) k g') count r,
      sum,
    )

module _ (c : ℕ) (s : Bytes) (chk : ℕ) (g : Gathered) (chk' : ℕ) (g' : Gathered) where
  -- One character of the loop.
  read_one :
      read_data (c ∷ s) chk g ≡ some (chk', g')
      → (v : ℕ) × (h : Gathered) × (v < 32)
        × (to_lower c ≡ get_or charset v 0)
        × ((if leb (length (c ∷ s)) 6 then some g else gather_bits g v) ≡ some h)
        × (read_data s (polymod_step chk v) h ≡ some (chk', g'))
  unfolding read_data
  read_one h = elim (Option-cases (index_in charset (to_lower c))) [
    | inl gone ↦ absurd (ground arith)
    | inr (v, found) ↦
        let (low, char) = index_in-get charset (to_lower c) v found in
        elim (Option-cases (if leb (length (c ∷ s)) 6 then some g else gather_bits g v)) [
          | inl no_room ↦ absurd (ground arith)
          | inr (g1, is) ↦ (v, g1, low, char, is, ground arith)
        ]
  ]

read_checksum :
    (s : Bytes) (chk : ℕ) (g : Gathered) (chk' : ℕ) (g' : Gathered)
    → length s ≤ 6
    → read_data s chk g ≡ some (chk', g')
    → (ws : List ℕ) × Spells s ws × (length ws ≡ length s) × (g ≡ g') × (chk' ≡ polymod chk ws)
unfolding read_data
read_checksum [] chk g chk' g' few h = ([], (refl, tt), refl, cc, cc)
read_checksum (c ∷ s) chk g chk' g' few h =
    let (v, g1, low, char, is, more) = read_one c s chk g chk' g' h in
    let kept : g ≡ g1 = ground arith in
    let (ws, spells, long, same, sum) =
      read_checksum s (polymod_step chk v) g1 chk' g' (omega arith) more in
    (v ∷ ws, Spells-cons c v s ws low char spells, ap suc long, kept ∙ same, sum)

pub read_data-Reads :
    (s : Bytes) (chk : ℕ) (g : Gathered) (chk' : ℕ) (g' : Gathered) (n m : ℕ)
    → 6 ≤ length s
    → Reads n m g
    → read_data s chk g ≡ some (chk', g')
    → DataRead s chk' g' n m chk
read_data-Reads [] chk g chk' g' n m many r h = absurd (omega arith)
read_data-Reads (c ∷ s) chk g chk' g' n m many r h = elim (Bool-cases (leb (length (c ∷ s)) 6)) [
  | inl last ↦
      let six : length (c ∷ s) ≡ 6 = ground arith in
      let (ws, spells, long, same, sum) =
        read_checksum (c ∷ s) chk g chk' g' (omega (arith, six)) h in
      (
        [],
        ws,
        spells,
        long ∙ six,
        subst (Reads n (m + 0)) same (subst (λ k. Reads n k g) (omega arith) r),
        sum,
      )
  | inr before ↦
      let (v, g1, low, char, is, more) = read_one c s chk g chk' g' h in
      let gathered : gather_bits g v ≡ some g1 = ground arith in
      let r1 = gather_bits-Reads n m v g g1 low r gathered in
      DataRead-cons c v s chk chk' g' n m low char (
        read_data-Reads s (polymod_step chk v) g1 chk' g' (n * 32 + v) (m + 1) (ground arith) r1
          more)
]
