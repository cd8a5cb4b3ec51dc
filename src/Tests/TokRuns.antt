-- ===== src/Tests/TokRuns.antt =====
-- A vocabulary of three strings, small tables, and a text.
use claude_chats.Prelude.{
  ℕ, zero, suc, ◌<◌, ◌≡◌, ◌↔◌, ◌%◌, refl, ◌⊎◌, true, false, some, List, [], ◌∷◌, ◌++◌, Bytes, codes,
  split_at, arith, bytes_eq, get_or,
}
use claude_chats.Prelude.Int.{ℤ, pos}
use claude_chats.Tok.Unicode.{
  Tables, class_start, cpt_class, cpt_nfd, cpt_lower, last_start, lower_from, utf8_next, utf8_put,
  sequence, followers,
}
use claude_chats.Tok.Unicode.Bytewise.{utf8_next-utf8_put}
use claude_chats.Tok.Unicode.Search.{IsRising, cpt_class_lem}
use claude_chats.Tok.Vocab.{
  Vocab, Blocks, tok_init, add_strings, add_string, gguf_form, hash_size, find_slot, fnv1a,
  fnv1a_from, c_string, strncmp_eq, probe, tok_lookup,
}
use Prim.Native.Nat.{bit_and}
use claude_chats.Tok.Vocab.Probing.{tok_lookup_ends}
use claude_chats.Tok.Encode.{
  Enc, longest, pieces, push, end_word, flush_word, take_point, fragment, special_at, scan, encoded,
  tok_encode,
}
use claude_chats.Tok.Encode.Spec.{text_ids}
use claude_chats.Tok.Encode.Scans.{encoding_of, tok_encode_lem}
use claude_chats.Tok.Encode.Longest.{Greedy, push_all, pieces_lem}

abbrev all_blocks : Blocks
all_blocks = record { got_buf = true; got_off = true; got_hash = true }

abbrev three_strings : Bytes
three_strings = codes "he" ++ (0 ∷ (codes "##llo" ++ (0 ∷ (codes "[UNK]" ++ (0 ∷ [])))))

abbrev pub three : Vocab
three = record {
  buf = 226 ∷ 150 ∷ 129 ∷ 104 ∷ 101 ∷ 0 ∷ 108 ∷ 108 ∷ 111 ∷ 0 ∷ 91 ∷ 85 ∷ 78 ∷ 75 ∷ 93 ∷ 0 ∷ [];
  off = 0 ∷ 6 ∷ 10 ∷ [];
  hash = 0 ∷ 3 ∷ 0 ∷ 0 ∷ 0 ∷ 0 ∷ 2 ∷ 1 ∷ [];
  hmask = 7;
  n = 3;
  max_len = 5;
}

three_built : tok_init all_blocks three_strings 3 ≡ some three
unfolding tok_init add_strings add_string gguf_form hash_size find_slot fnv1a fnv1a_from c_string
    split_at bytes_eq
three_built = refl

-- Controls dropped up to '!', capitals H and I, and the letters like E with a mark.
abbrev pub tables : Tables
tables = record {
  class_runs = 2 ∷ 132 ∷ [];
  lower = (72, 104) ∷ (73, 105) ∷ [];
  nfd = (0, 0, 0) ∷ (0xC8, 0xCB, 0x45) ∷ [];
}

two_keys_rise : (key : ℕ → ℕ) → key 0 < key 1 → IsRising key 2
two_keys_rise key h zero zero lt two = absurd (omega arith)
two_keys_rise key h zero (suc zero) lt two = h
two_keys_rise key h zero (suc (suc j)) lt two = absurd (omega arith)
two_keys_rise key h (suc i) j lt two = absurd (omega arith)

utf8_next-utf8_put_example : utf8_next (utf8_put 0x20AC ++ codes "!") ≡ some (0x20AC, codes "!")
utf8_next-utf8_put_example = utf8_next-utf8_put 0x20AC (codes "!") (omega arith)

cpt_class_lem_example : cpt_class tables 72 ≡ get_or (2 ∷ 132 ∷ []) 1 0 % 4
cpt_class_lem_example =
    cpt_class_lem tables 72 1 (two_keys_rise (class_start tables) (omega arith)) (omega arith)
      (omega arith) (omega arith) (λ j above below. absurd (omega arith))

tok_encode_lem_example :
    tok_encode tables three true (codes "Hello") 512
    ≡ encoding_of 512 (text_ids tables three 5 [] (codes "Hello"))
tok_encode_lem_example = tok_encode_lem tables three (codes "Hello") 512 (omega arith)

abbrev hello_ids : List ℤ
hello_ids = pos 101 ∷ pos 0 ∷ pos 102 ∷ []

hello_cut : tok_encode tables three true (codes "Hello") 3 ≡ encoded hello_ids 4
unfolding tok_encode scan special_at fragment take_point flush_word end_word pieces push longest
    tok_lookup probe fnv1a fnv1a_from strncmp_eq cpt_class cpt_nfd cpt_lower last_start lower_from
    utf8_next utf8_put sequence followers bytes_eq
hello_cut = refl

abbrev nothing_yet : Enc
nothing_yet = record { ids = []; cap = 8; n = 0; word = [] }

pieces_lem_example :
    (((pieces three 3 (codes "llo") nothing_yet).1 ≡ true)
      ↔ ((ids : List ℤ) × Greedy three (codes "llo") ids))
    × (((pieces three 3 (codes "llo") nothing_yet).1 ≡ false)
        ⊎ ((ids : List ℤ) × Greedy three (codes "llo") ids
            × (pieces three 3 (codes "llo") nothing_yet ≡ (push_all ids nothing_yet, true))))
pieces_lem_example = pieces_lem three (codes "llo") nothing_yet

tok_lookup_ends_example :
    probe 13 three (bit_and (fnv1a (codes "llo")) 7) (codes "llo") ≡ tok_lookup three (codes "llo")
tok_lookup_ends_example =
    tok_lookup_ends all_blocks three_strings 3 three (codes "llo") 5 three_built
