-- ===== src/Kw/Base64.antt =====
-- base64 of esp32-embedder/worker/kw.c, over bytes below 256.
pub mod Digits
pub mod Groups
pub mod Exact
pub mod Marks
pub mod Padded
pub mod Laws
use claude_chats.Prelude.{
  ℕ, zero, suc, ◌+◌, ◌-◌, ◌*◌, ◌/◌, ◌%◌, ◌^◌, Bool, true, false, ◌&&◌, not, Option, none, some,
  List, [], ◌∷◌, ◌++◌, length, get_or, take, ltb, leb, ◌==◌, if◌then◌else◌, Bytes, codes,
}
use mathlib.Core.Option
use claude_chats.Kw.Jbuf.{Jbuf, jb_reserve}

abbrev pub alphabet : Bytes
alphabet = codes "ABCDEFGHIJKLMNOPQRSTUVWXYZabcdefghijklmnopqrstuvwxyz0123456789+/"

abbrev pub b64_char : ℕ → ℕ
b64_char i = get_or alphabet i 0

unfoldable pub b64_encoded_len : ℕ → ℕ
b64_encoded_len n = (n + 2) / 3 * 4

unfoldable pub b64_encode : Bytes → Bytes
b64_encode [] = []
b64_encode (a ∷ []) =
    let v = a * 2 ^ 16 in b64_char (v / 2 ^ 18) ∷ b64_char (v / 2 ^ 12 % 64) ∷ b'=' ∷ b'=' ∷ []
b64_encode (a ∷ b ∷ []) =
    let v = a * 2 ^ 16 + b * 2 ^ 8 in
    b64_char (v / 2 ^ 18) ∷ b64_char (v / 2 ^ 12 % 64) ∷ b64_char (v / 2 ^ 6 % 64) ∷ b'=' ∷ []
b64_encode (a ∷ b ∷ c ∷ more) =
    let v = a * 2 ^ 16 + b * 2 ^ 8 + c in
    b64_char (v / 2 ^ 18)
    ∷ b64_char (v / 2 ^ 12 % 64)
    ∷ b64_char (v / 2 ^ 6 % 64)
    ∷ b64_char (v % 64)
    ∷ b64_encode more

-- Reserves for the whole text, then writes it behind the content.
unfoldable pub jb_b64 : (ℕ → Bool) → Jbuf → Bytes → Jbuf
unfolding b64_encoded_len b64_encode
jb_b64 grow b d =
    let (ok, r) = jb_reserve grow b (b64_encoded_len (length d)) in
    if ok then record r { bytes = r.bytes ++ b64_encode d } else r

unfoldable pub b64_val : ℕ → Option ℕ
b64_val c =
    if leb b'A' c && leb c b'Z'
    then some (c - b'A')
    else if leb b'a' c && leb c b'z'
    then some (c - b'a' + 26)
    else if leb b'0' c && leb c b'9'
    then some (c - b'0' + 52)
    else if c == b'+'
    then some 62
    else if c == b'/'
    then some 63
    else none

-- One character's six bits behind the `bits` bits of `acc`.
abbrev pub shift_in : ℕ → ℕ → ℕ
shift_in acc v = (acc * 2 ^ 6 + v) % 2 ^ 32

-- The decoding loop, and the test of the leftover bits behind it.
unfoldable pub decode_from : Bytes → ℕ → ℕ → Option Bytes
unfolding b64_val
decode_from [] acc bits = if not (bits == 0) && not (acc == 0) then none else some []
decode_from (c ∷ cs) acc bits = elim (b64_val c) [
  | none ↦ none
  | some v ↦
      let a = shift_in acc v in
      let full = leb 8 (bits + 6) in
      let left = if full then bits + 6 - 8 else bits + 6 in
      let rest = decode_from cs (if full then a % 2 ^ left else a) left in
      if full then Option.map (◌∷◌ (a / 2 ^ left % 256)) rest else rest
]

pub data Mode : Type 0 where
  padded_mode raw_strict : Mode

-- `while (pad < 2 && n > pad && in[n - 1 - pad] == '=') pad++;`
unfoldable pub padding : Bytes → ℕ
padding s =
    let n = length s in
    if ltb 0 n && get_or s (n - 1) 0 == b'='
    then (if ltb 1 n && get_or s (n - 2) 0 == b'=' then 2 else 1)
    else 0

abbrev pub decode_body : Bytes → Option Bytes
decode_body s = if length s % 4 == 1 then none else decode_from s 0 0

unfoldable pub b64_decode : Mode → Bytes → Option Bytes
unfolding decode_from padding
b64_decode padded_mode s =
    if not (length s % 4 == 0) then none else decode_body (take (length s - padding s) s)
b64_decode raw_strict s = decode_body s
