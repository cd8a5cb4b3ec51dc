-- ===== src/Age/Header.antt =====
-- The header of an age file, `parse_stanza` and the loop of `age_decrypt` in esp32-embedder/worker/age.c.
pub mod Text
pub mod Parses
pub mod Exact
pub mod Lines
pub mod Reads
use claude_chats.Prelude.{
  ℕ, zero, suc, ◌+◌, ◌*◌, ◌/◌, Bool, true, false, not, ◌&&◌, ◌||◌, Option, none, some, List, [],
  ◌∷◌, ◌++◌, length, get_or, take, drop, ltb, leb, ◌==◌, if◌then◌else◌, Bytes, codes, bytes_eq,
  split_at,
}
use claude_chats.Kw.Base64.{raw_strict, b64_decode}
use claude_chats.Age.{AgeErr, header_err, nomem, Crypto}

abbrev pub cols : ℕ
cols = 64

abbrev pub max_stanzas : ℕ
max_stanzas = 64

-- All the arguments; the code keeps the first two and counts the others.
pub record Stanza : Type 0 where
  pub kind : Bytes
  pub args : List Bytes
  pub body : Bytes

unfoldable pub vchar : ℕ → Bool
vchar c = leb 0x21 c && leb c 0x7e

unfoldable pub all_vchars : Bytes → Bool
unfolding vchar
all_vchars [] = true
all_vchars (c ∷ s) = vchar c && all_vchars s

abbrev pub no_bytes : Bytes → Bool
no_bytes [] = true
no_bytes (c ∷ s) = false

abbrev pub is_word : Bytes → Bool
is_word w = not (no_bytes w) && all_vchars w

-- The words of a line, with one space between each; the fuel is more than the line's length.
unfoldable pub stanza_words : ℕ → Bytes → Option (List Bytes)
unfolding all_vchars
stanza_words zero line = none
stanza_words (suc fuel) line = elim (split_at b' ' line) [
  | none ↦ if is_word line then some (line ∷ []) else none
  | some (w, rest) ↦
      if is_word w && not (no_bytes rest)
      then elim (stanza_words fuel rest) [ none ↦ none | some ws ↦ some (w ∷ ws) ]
      else none
]

-- The body's characters without the newlines, and what stands behind it: lines of exactly 64, then a
-- shorter one. The fuel is more than the length.
unfoldable pub body_lines : ℕ → Bytes → Option (Bytes × Bytes)
body_lines zero s = none
body_lines (suc fuel) s = elim (split_at b'\n' s) [
  | none ↦ none
  | some (line, rest) ↦
      let more = body_lines fuel rest in
      if ltb cols (length line)
      then none
      else if ltb (length line) cols
      then some (line, rest)
      else elim more [ none ↦ none | some (chars, behind) ↦ some (line ++ chars, behind) ]
]

-- -1 is `malformed`, -2 is `stanza_nomem`.
pub data ParsedStanza : Type 0 where
  parsed_stanza : Stanza → Bytes → ParsedStanza
  malformed : ParsedStanza
  stanza_nomem : ParsedStanza

-- The words and the body's characters decoded.
unfoldable pub stanza_of : List Bytes → Bytes → Bytes → ParsedStanza
stanza_of [] chars behind = malformed
stanza_of (kind ∷ args) chars behind = elim (b64_decode raw_strict chars) [
  | none ↦ malformed
  | some body ↦ parsed_stanza (record { kind = kind; args = args; body = body }) behind
]

pub data ParsedHeader : Type 0 where
  -- The stanzas, the MAC, what stands behind the part that it covers, and what stands behind its line.
  parsed_header : List Stanza → Bytes → Bytes → Bytes → ParsedHeader
  no_header : AgeErr → ParsedHeader

unfoldable pub mac_line : Bytes → ParsedHeader
mac_line s = elim (split_at b'\n' s) [
  | none ↦ no_header header_err
  | some (line, behind) ↦
      if length line == 47 && get_or line 3 0 == b' '
      then elim (b64_decode raw_strict (drop 4 line)) [
        | none ↦ no_header header_err
        | some mac ↦
            if length mac == 32
            then parsed_header [] mac (drop 3 s) behind
            else no_header header_err
      ]
      else no_header header_err
]

abbrev pub with_stanza : Stanza → ParsedHeader → ParsedHeader
with_stanza st (parsed_header sts mac uncovered behind) =
    parsed_header (st ∷ sts) mac uncovered behind
with_stanza st (no_header e) = no_header e

module _ (y : Crypto) where
  unfoldable pub parse_stanza : Bytes → y.Ctx → ParsedStanza × y.Ctx
  unfolding stanza_words body_lines stanza_of
  parse_stanza s c = elim (split_at b'\n' s) [
    | none ↦ (malformed, c)
    | some (line, after) ↦ elim (stanza_words (suc (length line)) line) [
      | none ↦ (malformed, c)
      | some ws ↦ elim (body_lines (suc (length after)) after) [
        | none ↦ (malformed, c)
        | some (chars, behind) ↦
            let (raw, c1) = y.alloc (length chars + 1) c in
            let (body, c2) = y.alloc (length chars * 3 / 4 + 3) c1 in
            if raw && body then (stanza_of ws chars behind, c2) else (stanza_nomem, c2)
      ]
    ]
  ]

  -- Stanzas up to the line of the MAC, with `ns` of them read; the fuel is more than the length.
  unfoldable pub read_header : ℕ → ℕ → Bytes → y.Ctx → ParsedHeader × y.Ctx
  unfolding mac_line parse_stanza
  read_header zero ns s c = (no_header header_err, c)
  read_header (suc fuel) ns s c =
      if bytes_eq (take 3 s) (codes "---")
      then (mac_line s, c)
      else if not (bytes_eq (take 3 s) (codes "-> ")) || ns == max_stanzas
      then (no_header header_err, c)
      else (let (st, c1) = parse_stanza (drop 3 s) c in
          elim st [
            | malformed ↦ (no_header header_err, c1)
            | stanza_nomem ↦ (no_header nomem, c1)
            | parsed_stanza st behind ↦
                let (more, c2) = read_header fuel (ns + 1) behind c1 in (with_stanza st more, c2)
          ])
