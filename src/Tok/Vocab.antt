-- ===== src/Tok/Vocab.antt =====
-- The vocabulary of esp32-embedder/tok/tok.c: its strings and their hash table.
pub mod Masks
pub mod Loads
pub mod Probing
use Prim.Native.Nat.{bit_and, bit_xor}
use claude_chats.Prelude.{
  ℕ, zero, suc, ◌+◌, ◌-◌, ◌*◌, ◌%◌, ◌^◌, Bool, true, false, not, ◌&&◌, ◌||◌, Option, none, some,
  List, [], ◌∷◌, ◌++◌, max, length, get_or, modify, drop, replicate, ltb, leb, ◌==◌, if◌then◌else◌,
  Bytes, bytes_eq, split_at,
}

-- `tok_vocab`: the strings with a NUL behind each, their offsets, and the table, which holds id + 1 or 0.
pub record Vocab : Type 0 where
  pub buf : Bytes
  pub off : List ℕ
  pub hash : List ℕ
  pub hmask : ℕ
  pub n : ℕ
  pub max_len : ℕ

unfoldable pub fnv1a_from : ℕ → Bytes → ℕ
fnv1a_from h [] = h
fnv1a_from h (b ∷ s) = fnv1a_from (bit_xor h b * 16777619 % 2 ^ 32) s

unfoldable pub fnv1a : Bytes → ℕ
fnv1a s = fnv1a_from 2166136261 s

-- `!strncmp(t, s, len)`, where `s` is the `len` bytes and what lies past the end of the buffer is 0.
unfoldable pub strncmp_eq : Bytes → Bytes → Bool
strncmp_eq t [] = true
strncmp_eq [] (b ∷ s) = b == 0
strncmp_eq (a ∷ t) (b ∷ s) = a == b && (a == 0 || strncmp_eq t s)

-- The string of an id, with all that lies behind it.
abbrev pub string_at : Vocab → ℕ → Bytes
string_at v id = drop (get_or v.off id 0) v.buf

abbrev pub is_string : Vocab → ℕ → Bytes → Bool
is_string v id s = strncmp_eq (string_at v id) s && get_or (string_at v id) (length s) 0 == 0

-- The probes from slot `h` on, on fuel: the table's length is enough where a slot is empty.
unfoldable pub probe : ℕ → Vocab → ℕ → Bytes → Option ℕ
probe zero v h s = none
probe (suc fuel) v h s =
    let e = get_or v.hash h 0 in
    elim (e == 0) [
      | true ↦ none
      | false ↦ elim (is_string v (e - 1) s) [
        | true ↦ some (e - 1)
        | false ↦ probe fuel v (bit_and (h + 1) v.hmask) s
      ]
    ]

-- The id, or nothing for -1.
unfoldable pub tok_lookup : Vocab → Bytes → Option ℕ
tok_lookup v s = probe (length v.hash) v (bit_and (fnv1a s) v.hmask) s

-- `while (hsize < 2u * n) hsize <<= 1`, on fuel: 17 is enough for n below 0xFFFF.
unfoldable pub hash_size : ℕ → ℕ → ℕ → ℕ
hash_size zero n size = size
hash_size (suc fuel) n size =
    let rest = hash_size fuel n (size * 2) in if ltb size (2 * n) then rest else size

abbrev pub word_mark : Bytes
word_mark = 0xe2 ∷ 0x96 ∷ 0x81 ∷ []

-- "##piece" as "piece", "[X]" as it is, "word" with the mark in front.
unfoldable pub gguf_form : Bytes → Bytes
gguf_form p =
    let l = length p in
    if leb 2 l && (get_or p 0 0 == b'#' && get_or p 1 0 == b'#')
    then drop 2 p
    else if leb 2 l && (get_or p 0 0 == b'[' && get_or p (l - 1) 0 == b']')
    then p
    else word_mark ++ p

-- A C string's bytes in front of its NUL.
unfoldable pub c_string : Bytes → Bytes
c_string [] = []
c_string (b ∷ s) = if b == 0 then [] else b ∷ c_string s

-- The slot for the string, from `h` on: an empty one or the one of an equal string.
unfoldable pub find_slot : ℕ → Vocab → ℕ → Bytes → ℕ
find_slot zero v h s = h
find_slot (suc fuel) v h s =
    let e = get_or v.hash h 0 in
    elim (not (e == 0) && not (bytes_eq (c_string (string_at v (e - 1))) s)) [
      | false ↦ h
      | true ↦ find_slot fuel v (bit_and (h + 1) v.hmask) s
    ]

-- One turn of the loop of `tok_init`: string `i`.
unfoldable pub add_string : ℕ → Bytes → Vocab → Vocab
add_string i p v =
    let s = gguf_form p in
    let v1 = record v {
      buf = v.buf ++ (s ++ (0 ∷ []));
      off = v.off ++ (length v.buf ∷ []);
      max_len = max v.max_len (length s);
    } in
    let slot = find_slot (length v.hash) v1 (bit_and (fnv1a s) v.hmask) s in
    record v1 { hash = modify v.hash slot (λ _. (i + 1) % 2 ^ 16) }

unfoldable pub add_strings : ℕ → ℕ → Bytes → Vocab → Option Vocab
add_strings zero i hf v = some v
add_strings (suc left) i hf v = elim (split_at 0 hf) [
  | none ↦ none
  | some (p, rest) ↦ add_strings left (i + 1) rest (add_string i p v)
]

-- The three blocks that `tok_init` asks for: whether it gets each.
pub record Blocks : Type 0 where
  pub got_buf : Bool
  pub got_off : Bool
  pub got_hash : Bool

unfoldable pub tok_init : Blocks → Bytes → ℕ → Option Vocab
tok_init blocks hf n =
    let size = hash_size 17 n 1 in
    if n == 0 || leb 0xFFFF n
    then none
    else if not blocks.got_buf || (not blocks.got_off || not blocks.got_hash)
    then none
    else elim (add_strings n 0 hf (record {
      buf = [];
      off = [];
      hash = replicate size 0;
      hmask = size - 1;
      n = 0;
      max_len = 0;
    })) [ none ↦ none | some v ↦ some (record v { n = n }) ]
