-- ===== src/Kw/Escape.antt =====
-- `jb_json_str` of esp32-embedder/worker/kw.c: a JSON string, escaped into a buffer.
pub mod Laws
pub mod Whole
use claude_chats.Prelude.{
  ℕ, ◌+◌, ◌/◌, ◌%◌, Bool, ◌&&◌, not, List, [], ◌∷◌, ◌++◌, length, ltb, leb, ◌==◌, if◌then◌else◌,
  Bytes, codes,
}
use claude_chats.Kw.Jbuf.{Jbuf, jb_reserve, jb_put}

-- A byte that stands in a JSON string as it is.
unfoldable pub is_plain : ℕ → Bool
is_plain c = leb 0x20 c && (not (c == b'"') && not (c == b'\\'))

unfoldable pub hex_digit : ℕ → ℕ
hex_digit d = if ltb d 10 then 48 + d else 87 + d

-- What the switch writes for a byte that is not plain; `%04x` in the default case.
unfoldable pub escape_byte : ℕ → Bytes
unfolding hex_digit
escape_byte c =
    if c == b'"'
    then codes "\\\""
    else if c == b'\\'
    then codes "\\\\"
    else if c == b'\n'
    then codes "\\n"
    else if c == b'\r'
    then codes "\\r"
    else if c == b'\t'
    then codes "\\t"
    else codes "\\u"
      ++ (hex_digit (c / 4096 % 16)
          ∷ hex_digit (c / 256 % 16)
          ∷ hex_digit (c / 16 % 16)
          ∷ hex_digit (c % 16)
          ∷ [])

module _ (grow : ℕ → Bool) where
  -- The loop; `run` holds the plain bytes `s[run .. i)` that are not put yet.
  unfoldable pub escape_run : Jbuf → Bytes → Bytes → Jbuf
  unfolding is_plain escape_byte
  escape_run b run [] = jb_put grow b run
  escape_run b run (c ∷ cs) =
      escape_run (if is_plain c then b else jb_put grow (jb_put grow b run) (escape_byte c))
        (if is_plain c then run ++ (c ∷ []) else []) cs

  unfoldable pub jb_json_str : Jbuf → Bytes → Jbuf
  unfolding escape_run
  jb_json_str b s =
      let (ok, r) = jb_reserve grow b (length s + 2) in
      if ok then jb_put grow (escape_run (jb_put grow r (b'"' ∷ [])) [] s) (b'"' ∷ []) else r
