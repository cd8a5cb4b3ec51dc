-- ===== src/Tok/Unicode.antt =====
-- Code points in esp32-embedder/tok/tok.c: their bytes, and their class, base and lower case in the
-- generated tables.
pub mod Bytewise
pub mod Search
use claude_chats.Prelude.{
  ℕ, zero, suc, ◌+◌, ◌-◌, ◌*◌, ◌/◌, ◌%◌, ◌^◌, Bool, true, false, ◌&&◌, Option, none, some, List, [],
  ◌∷◌, length, get_or, ltb, leb, ◌==◌, if◌then◌else◌, Bytes,
}

-- `tok_tables.h`: the class runs, each 4 * first + class; the pairs for lower case; the ranges for NFD
-- as first, last and base.
pub record Tables : Type 0 where
  pub class_runs : List ℕ
  pub lower : List (ℕ × ℕ)
  pub nfd : List (ℕ × ℕ × ℕ)

abbrev pub class_keep : ℕ
class_keep = 0

abbrev pub class_ws : ℕ
class_ws = 1

abbrev pub class_drop : ℕ
class_drop = 2

abbrev pub class_split : ℕ
class_split = 3

-- The last index from `lo` to `hi` that starts at `cp` or before it, by halving; the fuel is at least
-- `hi - lo`.
unfoldable pub last_start : (ℕ → ℕ) → ℕ → ℕ → ℕ → ℕ → ℕ
last_start start cp zero lo hi = lo
last_start start cp (suc fuel) lo hi =
    let mid = (lo + hi + 1) / 2 in
    let rest : ℕ × ℕ = if leb (start mid) cp then (mid, hi) else (lo, mid - 1) in
    elim (ltb lo hi) [ false ↦ lo | true ↦ last_start start cp fuel rest.0 rest.1 ]

abbrev pub class_start : Tables → ℕ → ℕ
class_start t i = get_or t.class_runs i 0 / 4

unfoldable pub cpt_class : Tables → ℕ → ℕ
cpt_class t cp =
    if leb 0x110000 cp
    then class_keep
    else (let top = length t.class_runs - 1 in
        get_or t.class_runs (last_start (class_start t) cp top 0 top) 0 % 4)

abbrev pub nfd_at : Tables → ℕ → ℕ × ℕ × ℕ
nfd_at t i = get_or t.nfd i (0, 0, 0)

unfoldable pub cpt_nfd : Tables → ℕ → ℕ
cpt_nfd t cp =
    let top = length t.nfd - 1 in
    let (first, last, base) = nfd_at t (last_start (λ i. (nfd_at t i).0) cp top 0 top) in
    if leb first cp && leb cp last then base else cp

abbrev pub lower_at : Tables → ℕ → ℕ × ℕ
lower_at t i = get_or t.lower i (0, 0)

-- The pairs from `lo` up to `stop`, which is `hi + 1`; the fuel is at least `stop - lo`.
unfoldable pub lower_from : Tables → ℕ → ℕ → ℕ → ℕ → ℕ
lower_from t cp zero lo stop = cp
lower_from t cp (suc fuel) lo stop =
    let mid = (lo + (stop - 1)) / 2 in
    let rest : ℕ × ℕ = if ltb (lower_at t mid).0 cp then (mid + 1, stop) else (lo, mid) in
    elim (ltb lo stop) [
      | false ↦ cp
      | true ↦ elim ((lower_at t mid).0 == cp) [
        | true ↦ (lower_at t mid).1
        | false ↦ lower_from t cp fuel rest.0 rest.1
      ]
    ]

unfoldable pub cpt_lower : Tables → ℕ → ℕ
cpt_lower t cp = lower_from t cp (length t.lower) 0 (length t.lower)

-- `(b & 0xc0) == 0x80`
abbrev pub is_follower : ℕ → Bool
is_follower b = b / 64 % 4 == 2

-- The following bytes of a sequence, six bits each.
unfoldable pub followers : ℕ → ℕ → Bytes → Option (ℕ × Bytes)
followers zero v s = some (v, s)
followers (suc k) v [] = none
followers (suc k) v (b ∷ s) =
    let rest = followers k (v * 64 + b % 64) s in if is_follower b then rest else none

-- What a first byte from 0x80 on starts.
unfoldable pub sequence : ℕ → Bytes → Option (ℕ × Bytes)
sequence c s =
    if c / 64 % 2 == 0
    then none
    else if c / 32 % 2 == 0
    then followers 1 (c % 32) s
    else if c / 16 % 2 == 0
    then followers 2 (c % 16) s
    else if c / 8 % 2 == 0
    then followers 3 (c % 8) s
    else none

-- The code point at the front of the text and what follows it; nothing at the end of the text.
unfoldable pub utf8_next : Bytes → Option (ℕ × Bytes)
utf8_next [] = none
utf8_next (c ∷ s) =
    if c / 128 % 2 == 0
    then some (c, s)
    else elim (sequence c s) [ none ↦ some (0xFFFD, s) | some r ↦ some r ]

-- The bytes of a code point below 0x110000, which is all that it is called for.
unfoldable pub utf8_put : ℕ → Bytes
utf8_put cp =
    if ltb cp 0x80
    then cp ∷ []
    else if ltb cp 0x800
    then (0xc0 + cp / 2 ^ 6) ∷ (0x80 + cp % 64) ∷ []
    else if ltb cp 0x10000
    then (0xe0 + cp / 2 ^ 12) ∷ (0x80 + cp / 2 ^ 6 % 64) ∷ (0x80 + cp % 64) ∷ []
    else (0xf0 + cp / 2 ^ 18)
      ∷ (0x80 + cp / 2 ^ 12 % 64)
      ∷ (0x80 + cp / 2 ^ 6 % 64)
      ∷ (0x80 + cp % 64)
      ∷ []
