-- ===== src/Tok/Encode.antt =====
-- Text to token ids in esp32-embedder/tok/tok.c: words, their pieces, and `tok_encode`.
pub mod Spec
pub mod View
pub mod Refines
pub mod Scans
pub mod Longest
use claude_chats.Prelude.{
  ℕ, zero, suc, ◌+◌, ◌-◌, Bool, true, false, ◌&&◌, Option, none, some, List, [], ◌∷◌, ◌++◌, min,
  length, take, drop, ltb, ◌==◌, if◌then◌else◌, Bytes, codes, bytes_eq,
}
use claude_chats.Prelude.Int.{ℤ, pos, minus_one}
use claude_chats.Tok.Unicode.{
  Tables, class_ws, class_drop, class_split, cpt_class, cpt_nfd, cpt_lower, utf8_next, utf8_put,
}
use claude_chats.Tok.Vocab.{Vocab, tok_lookup, word_mark}

abbrev pub tok_cls : ℕ
tok_cls = 101

abbrev pub tok_sep : ℕ
tok_sep = 102

abbrev pub tok_unk : ℕ
tok_unk = 100

-- `SPECIAL`
abbrev pub special : List Bytes
special = codes "[PAD]" ∷ codes "[UNK]" ∷ codes "[CLS]" ∷ codes "[SEP]" ∷ codes "[MASK]" ∷ []

-- `enc`, without the vocabulary: the cells written from `ids[1]` on, how many text tokens fit and how
-- many there are, and the word, with its mark.
pub record Enc : Type 0 where
  pub ids : List ℤ
  pub cap : ℕ
  pub n : ℕ
  pub word : Bytes

-- Cell `i` of an array whose cells in front of it were written.
abbrev pub store {ℓ} : {A : Type ℓ} → ℕ → A → List A → List A
store i a xs = take i xs ++ (a ∷ drop (suc i) xs)

unfoldable pub push : Enc → ℤ → Enc
push e id = record e { ids = if ltb e.n e.cap then store e.n id e.ids else e.ids; n = e.n + 1 }

-- The longest string of the vocabulary at the front of `s`, of `j` bytes at most and one at least:
-- its length and its id.
unfoldable pub longest : Vocab → Bytes → ℕ → Option (ℕ × ℕ)
longest v s zero = none
longest v s (suc j) = elim (tok_lookup v (take (suc j) s)) [
  | none ↦ longest v s j
  | some id ↦ some (suc j, id)
]

-- The pieces of a word from `s` on, and whether all of it is covered; the fuel is the length of `s`.
unfoldable pub pieces : Vocab → ℕ → Bytes → Enc → Enc × Bool
pieces v fuel [] e = (e, true)
pieces v zero (c ∷ s) e = (e, false)
pieces v (suc fuel) (c ∷ s) e = elim (longest v (c ∷ s) (min (v.max_len + 1) (length (c ∷ s)))) [
  | none ↦ (e, false)
  | some (k, id) ↦ pieces v fuel (drop k (c ∷ s)) (push e (pos id))
]

-- After the pieces: no piece where one was missing, and UNK where there is none.
unfoldable pub end_word : ℕ → Enc × Bool → Enc
end_word start (e, whole) =
    let e1 = if whole then e else record e { n = start } in
    let e2 = if e1.n == start then push e1 (pos tok_unk) else e1 in record e2 { word = word_mark }

unfoldable pub flush_word : Vocab → Enc → Enc
flush_word v e = if length e.word == 3 then e else end_word e.n (pieces v (length e.word) e.word e)

abbrev pub put_in_word : ℕ → Enc → Enc
put_in_word cp e = record e { word = e.word ++ utf8_put cp }

-- One code point, after NFD; nothing where llama.cpp throws.
unfoldable pub take_point : Tables → Vocab → ℕ → Enc → Option Enc
take_point t v cp e =
    let low = cpt_lower t cp in
    if cpt_class t cp == class_ws
    then some (flush_word v e)
    else if cpt_class t cp == class_drop
    then some e
    else if ltb 0x10FFFF low
    then none
    else if cpt_class t cp == class_split
    then some (flush_word v (put_in_word low (flush_word v e)))
    else some (put_in_word low e)

-- False for -2. The fuel is the length of the text, since each code point takes a byte at least.
unfoldable pub fragment : Tables → Vocab → ℕ → Bytes → Enc → Enc × Bool
fragment t v fuel [] e = (flush_word v e, true)
fragment t v zero (c ∷ s) e = (flush_word v e, true)
fragment t v (suc fuel) (c ∷ s) e = elim (utf8_next (c ∷ s)) [
  | none ↦ (flush_word v e, true)
  | some (raw, rest) ↦ elim (take_point t v (cpt_nfd t raw) e) [
    | none ↦ (e, false)
    | some e1 ↦ fragment t v fuel rest e1
  ]
]

abbrev pub starts_with : Bytes → Bytes → Bool
starts_with p s = bytes_eq (take (length p) s) p

-- The special token whose text stands at the front, if one does.
unfoldable pub special_at : List Bytes → Bytes → Option Bytes
special_at [] s = none
special_at (p ∷ ps) s = let rest = special_at ps s in if starts_with p s then some p else rest

-- -1 for a string that is not in the vocabulary.
abbrev pub id_or_minus_one : Option ℕ → ℤ
id_or_minus_one none = minus_one
id_or_minus_one (some id) = pos id

-- The scan for special tokens, with the text since the last one; the fuel is the length of `s`.
unfoldable pub scan : Tables → Vocab → ℕ → Bytes → Bytes → Enc → Enc × Bool
scan t v fuel since [] e = fragment t v (length since) since e
scan t v zero since (c ∷ s) e = fragment t v (length since) since e
scan t v (suc fuel) since (c ∷ s) e =
    elim (if c == b'[' then special_at special (c ∷ s) else none) [
      | none ↦ scan t v fuel (since ++ (c ∷ [])) s e
      | some p ↦
          let (e1, fine) = fragment t v (length since) since e in
          let e2 = push e1 (id_or_minus_one (tok_lookup v p)) in
          elim fine [ false ↦ (e2, false) | true ↦ scan t v fuel [] (drop (length p) (c ∷ s)) e2 ]
    ]

-- -1, -2, or the ids written and `*total`.
pub data Encoded : Type 0 where
  no_room bad_point : Encoded
  encoded : List ℤ → ℕ → Encoded

-- `got_word` is whether the allocator has memory for the word.
unfoldable pub tok_encode : Tables → Vocab → Bool → Bytes → ℕ → Encoded
tok_encode t v got_word text max_ids =
    if ltb max_ids 2
    then no_room
    else if got_word
    then (let (e, fine) =
          scan t v (length text) [] text
            (record { ids = []; cap = max_ids - 2; n = 0; word = word_mark }) in
        if fine
        then encoded (pos tok_cls ∷ (take (min e.n e.cap) e.ids ++ (pos tok_sep ∷ []))) (e.n + 2)
        else bad_point)
    else no_room
