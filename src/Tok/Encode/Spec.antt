-- ===== src/Tok/Encode/Spec.antt =====
-- What the tokens of a text are, apart from the buffers of esp32-embedder/tok/tok.c: the text between
-- special tokens is cut into words, and each word into the longest strings of the vocabulary.
use claude_chats.Prelude.{
  ℕ, zero, suc, Option, none, some, List, [], ◌∷◌, ◌++◌, min, length, drop, ltb, ◌==◌,
  if◌then◌else◌, ◌+◌, Bytes,
}
use claude_chats.Prelude.Int.{ℤ, pos}
use claude_chats.Tok.Unicode.{
  Tables, class_ws, class_drop, class_split, cpt_class, cpt_nfd, cpt_lower, utf8_next, utf8_put,
}
use claude_chats.Tok.Vocab.{Vocab, tok_lookup, word_mark}
use claude_chats.Tok.Encode.{tok_unk, longest, special, special_at, id_or_minus_one}

abbrev pub in_front : ℤ → Option (List ℤ) → Option (List ℤ)
in_front id none = none
in_front id (some ids) = some (id ∷ ids)

-- The pieces that cover the text, each the longest, or none where one is missing.
unfoldable pub segment : Vocab → ℕ → Bytes → Option (List ℤ)
segment v fuel [] = some []
segment v zero (c ∷ s) = none
segment v (suc fuel) (c ∷ s) = elim (longest v (c ∷ s) (min (v.max_len + 1) (length (c ∷ s)))) [
  | none ↦ none
  | some (k, id) ↦ in_front (pos id) (segment v fuel (drop k (c ∷ s)))
]

abbrev pub or_unk : Option (List ℤ) → List ℤ
or_unk none = pos tok_unk ∷ []
or_unk (some []) = pos tok_unk ∷ []
or_unk (some (id ∷ ids)) = id ∷ ids

-- The tokens of a word with its mark; a mark alone has none.
unfoldable pub word_ids : Vocab → Bytes → List ℤ
word_ids v w = if length w == 3 then [] else or_unk (segment v (length w) w)

unfoldable pub words_ids : Vocab → List Bytes → List ℤ
words_ids v [] = []
words_ids v (w ∷ ws) = word_ids v w ++ words_ids v ws

-- The words that a code point ends, and the word after it.
abbrev pub point_words : Tables → ℕ → Bytes → Option (List Bytes × Bytes)
point_words t cp w =
    let low = cpt_lower t cp in
    if cpt_class t cp == class_ws
    then some (w ∷ [], word_mark)
    else if cpt_class t cp == class_drop
    then some ([], w)
    else if ltb 0x10FFFF low
    then none
    else if cpt_class t cp == class_split
    then some (w ∷ (word_mark ++ utf8_put low) ∷ [], word_mark)
    else some ([], w ++ utf8_put low)

abbrev pub after_words : List Bytes → Option (List Bytes) → Option (List Bytes)
after_words ws none = none
after_words ws (some more) = some (ws ++ more)

-- The words of a text that goes on from the word `w`.
unfoldable pub text_words : Tables → ℕ → Bytes → Bytes → Option (List Bytes)
text_words t fuel [] w = some (w ∷ [])
text_words t zero (c ∷ s) w = some (w ∷ [])
text_words t (suc fuel) (c ∷ s) w = elim (utf8_next (c ∷ s)) [
  | none ↦ some (w ∷ [])
  | some (raw, rest) ↦ elim (point_words t (cpt_nfd t raw) w) [
    | none ↦ none
    | some (ws, w1) ↦ after_words ws (text_words t fuel rest w1)
  ]
]

abbrev pub ids_of_words : Vocab → Option (List Bytes) → Option (List ℤ)
ids_of_words v none = none
ids_of_words v (some ws) = some (words_ids v ws)

abbrev pub fragment_ids : Tables → Vocab → Bytes → Option (List ℤ)
fragment_ids t v s = ids_of_words v (text_words t (length s) s word_mark)

abbrev pub joined_ids : Option (List ℤ) → ℤ → Option (List ℤ) → Option (List ℤ)
joined_ids none id rest = none
joined_ids (some ids) id none = none
joined_ids (some ids) id (some more) = some (ids ++ (id ∷ more))

-- All the tokens of a text, without CLS and SEP.
unfoldable pub text_ids : Tables → Vocab → ℕ → Bytes → Bytes → Option (List ℤ)
text_ids t v fuel since [] = fragment_ids t v since
text_ids t v zero since (c ∷ s) = fragment_ids t v since
text_ids t v (suc fuel) since (c ∷ s) =
    elim (if c == b'[' then special_at special (c ∷ s) else none) [
      | none ↦ text_ids t v fuel (since ++ (c ∷ [])) s
      | some p ↦
          joined_ids (fragment_ids t v since) (id_or_minus_one (tok_lookup v p))
            (text_ids t v fuel [] (drop (length p) (c ∷ s)))
    ]
