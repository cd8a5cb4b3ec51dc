-- ===== src/Sigv4.antt =====
-- The parts of AWS Signature Version 4 in esp32-embedder/worker/sigv4.c: encoding, and the canonical
-- query and headers. `grow` is the allocator, as for the buffers.
pub mod Sign
pub mod Encoding
use claude_chats.Prelude.{
  ℕ, zero, suc, ◌+◌, ◌-◌, ◌*◌, ◌/◌, ◌%◌, Bool, true, false, not, ◌&&◌, ◌||◌, Option, none, some,
  List, [], ◌∷◌, ◌++◌, length, ltb, leb, ◌==◌, if◌then◌else◌, Bytes, codes, bytes_eq, split_at,
}
use claude_chats.Kw.Jbuf.{Jbuf, jb_init, jb_put, jb_take}

abbrev pub max_hdrs : ℕ
max_hdrs = 16

abbrev pub max_params : ℕ
max_params = 32

-- What sigv4.c uses of mbedtls and of the C library: SHA-256, HMAC-SHA-256, and `qsort` by the name and
-- by the name and the value.
pub record Library : Type 0 where
  pub sha256 : Bytes → Bytes
  pub hmac : Bytes → Bytes → Bytes
  pub sort_names : List (Bytes × Bytes) → List (Bytes × Bytes)
  pub sort_pairs : List (Bytes × Bytes) → List (Bytes × Bytes)

-- `H[d]`, and the capital digits of `%02X`.
abbrev pub hex_low : ℕ → ℕ
hex_low d = if ltb d 10 then 48 + d else 87 + d

abbrev pub hex_capital : ℕ → ℕ
hex_capital d = if ltb d 10 then 48 + d else 55 + d

unfoldable pub hex : Bytes → Bytes
hex [] = []
hex (b ∷ bs) = hex_low (b / 16) ∷ hex_low (b % 16) ∷ hex bs

unfoldable pub sv4_sha256_hex : Library → Bytes → Bytes
sv4_sha256_hex lib bytes = hex (lib.sha256 bytes)

abbrev pub within : ℕ → ℕ → ℕ → Bool
within lo hi c = leb lo c && leb c hi

unfoldable pub unreserved : ℕ → Bool
unreserved c =
    (within b'A' b'Z' c || (within b'a' b'z' c || within b'0' b'9' c))
    || (c == b'-' || (c == b'.' || (c == b'_' || c == b'~')))

-- What is put for a byte.
unfoldable pub encode_byte : Bool → ℕ → Bytes
encode_byte path c =
    if unreserved c || (path && c == b'/')
    then c ∷ []
    else b'%' ∷ hex_capital (c / 16) ∷ hex_capital (c % 16) ∷ []

-- -1 for a byte that is no digit.
unfoldable pub hexval : ℕ → Option ℕ
hexval c =
    if within b'0' b'9' c
    then some (c - b'0')
    else if within b'a' b'f' c
    then some (c - b'a' + 10)
    else if within b'A' b'F' c
    then some (c - b'A' + 10)
    else none

-- The byte of an escape: its two digits, if they are ones.
unfoldable pub escaped_value : ℕ → ℕ → Option ℕ
escaped_value a b = elim (hexval a) [
  | none ↦ none
  | some h ↦ elim (hexval b) [ none ↦ none | some l ↦ some (h * 16 + l) ]
]

abbrev pub is_blank : ℕ → Bool
is_blank c = c == b' ' || (c == b'\t' || (c == b'\n' || c == b'\r'))

unfoldable pub skip_blanks : Bytes → Bytes
skip_blanks [] = []
skip_blanks (c ∷ s) = if is_blank c then skip_blanks s else c ∷ s

-- The name as it is signed.
unfoldable pub lower_name : Bytes → Bytes
lower_name [] = []
lower_name (c ∷ s) = (if within b'A' b'Z' c then c + 32 else c) ∷ lower_name s

module _ (grow : ℕ → Bool) where
  unfoldable pub uri_encode : Jbuf → Bytes → Bool → Jbuf
  uri_encode b [] path = b
  uri_encode b (c ∷ s) path = uri_encode (jb_put grow b (encode_byte path c)) s path

  -- `jb_putc` of each byte.
  unfoldable pub put_each : Jbuf → Bytes → Jbuf
  put_each b [] = b
  put_each b (c ∷ s) = put_each (jb_put grow b (c ∷ [])) s

  -- The loop that %-decodes.
  unfoldable pub unescape : Jbuf → Bytes → Jbuf
  unescape raw [] = raw
  unescape raw (c ∷ []) = jb_put grow raw (c ∷ [])
  unescape raw (c ∷ d ∷ []) = unescape (jb_put grow raw (c ∷ [])) (d ∷ [])
  unescape raw (c ∷ d ∷ e ∷ s) = elim (if c == b'%' then escaped_value d e else none) [
    | some v ↦ unescape (jb_put grow raw (v ∷ [])) s
    | none ↦ unescape (jb_put grow raw (c ∷ [])) (d ∷ e ∷ s)
  ]

  unfoldable pub query_part : Jbuf → Bytes → Jbuf
  query_part b s =
      let raw = unescape jb_init s in
      let done = uri_encode b raw.bytes false in record done { oom = done.oom || raw.oom }

  -- A parameter: its key and its value, each with a NUL put, so that an empty one is allocated.
  unfoldable pub query_pair : Bytes → Option (Bytes × Bytes)
  query_pair p =
      let (key, value) : Jbuf × Jbuf = elim (split_at b'=' p) [
        | none ↦ (query_part jb_init p, jb_init)
        | some (k, v) ↦ (query_part jb_init k, query_part jb_init v)
      ] in
      elim (jb_take grow (jb_put grow key [])) [
        | none ↦ none
        | some k ↦ elim (jb_take grow (jb_put grow value [])) [ none ↦ none | some v ↦ some (k, v) ]
      ]

  -- The parameters up to the 32nd, and whether there was memory for each; the fuel is how many may
  -- still come.
  unfoldable pub query_pairs : ℕ → Bytes → List (Bytes × Bytes) × Bool
  query_pairs fuel [] = ([], true)
  query_pairs zero (c ∷ q) = ([], true)
  query_pairs (suc fuel) (c ∷ q) =
      let (p, rest) : Bytes × Bytes = elim (split_at b'&' (c ∷ q)) [
        | none ↦ (c ∷ q, [])
        | some (a, b) ↦ (a, b)
      ] in
      elim (query_pair p) [
        | none ↦ ([], false)
        | some kv ↦ (let (more, fine) = query_pairs fuel rest in (kv ∷ more, fine))
      ]

  unfoldable pub put_pairs : Bool → List (Bytes × Bytes) → Jbuf → Jbuf
  put_pairs first [] out = out
  put_pairs first ((k, v) ∷ rest) out =
      let out1 = if first then out else jb_put grow out (codes "&") in
      put_pairs false rest (jb_put grow (jb_put grow (jb_put grow out1 k) (codes "=")) v)

  -- No query is NULL or the empty text.
  unfoldable pub canonical_query : Library → Jbuf → Bytes → Jbuf
  canonical_query lib out [] = out
  canonical_query lib out (c ∷ q) =
      let (kv, fine) = query_pairs max_params (c ∷ q) in
      put_pairs true (lib.sort_pairs kv) (if fine then out else record out { oom = true })

  -- The value from its first byte that is no blank; `space` is whether blanks stand in front.
  unfoldable pub fold_value : Bool → Jbuf → Bytes → Jbuf
  fold_value space b [] = b
  fold_value space b (c ∷ s) =
      let next =
        if is_blank c
        then b
        else jb_put grow (if space then jb_put grow b (codes " ") else b) (c ∷ []) in
      fold_value (is_blank c) next s

  unfoldable pub header_value : Jbuf → Bytes → Jbuf
  header_value b s = fold_value false b (skip_blanks s)
