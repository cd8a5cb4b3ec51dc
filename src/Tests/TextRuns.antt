-- ===== src/Tests/TextRuns.antt =====
-- The text routines, run.
use claude_chats.Prelude.{
  ℕ, ◌≤◌, ◌≡◌, refl, ◌⊎◌, ◌↔◌, min, ltb, Bool, true, false, none, some, [], ◌∷◌, ◌++◌, take, inl,
  codes, decimal, decimal_onto,
}
use claude_chats.Kw.Jbuf.{Jbuf, jb_init, doubled, jb_reserve, jb_put, jb_take}
use claude_chats.Kw.Jbuf.Laws.{IsRoomy, Extends, jb_put-IsRoomy}
use claude_chats.Kw.Escape.{is_plain, hex_digit, escape_byte, escape_run, jb_json_str}
use claude_chats.Kw.Escape.Laws.{escaped, json_string}
use claude_chats.Kw.Escape.Whole.{jb_json_str_lem}
use claude_chats.Kw.Jbuf.Refusals.{AllOrRefused}
use claude_chats.Kw.Base64.{b64_encode, padded_mode, b64_decode, jb_b64}
use claude_chats.Kw.Base64.Groups.{AreBytes}
use claude_chats.Kw.Base64.Padded.{b64_decode_lem}
use claude_chats.Kw.Base64.Laws.{jb_b64-Extends}
use claude_chats.Result.{
  KataResult, result_encode, put_head, put_vector, put_tail, put_pass, str_or_null,
}
use claude_chats.Result.Laws.{
  result_text, head_text, vector_text, tail_text, pass_text, result_encode_lem,
}
use claude_chats.Prep.{prep_truncate}
use claude_chats.Prep.Truncate.{chars, AtBoundary, prep_truncate_lem}

-- Memory for 256 bytes, and no more.
abbrev small : ℕ → Bool
small n = ltb n 257

init-IsRoomy : IsRoomy jb_init
init-IsRoomy = record { room = inl (refl, refl) }

jb_put-IsRoomy_example :
    IsRoomy (jb_put small jb_init (codes "ab"))
    × ((((jb_put small jb_init (codes "ab")).oom ≡ true)
          × ((jb_put small jb_init (codes "ab")).bytes ≡ []))
        ⊎ (((jb_put small jb_init (codes "ab")).oom ≡ false)
            × ((jb_put small jb_init (codes "ab")).bytes ≡ [] ++ codes "ab")))
jb_put-IsRoomy_example = jb_put-IsRoomy small jb_init (codes "ab") init-IsRoomy

jb_json_str_lem_example :
    AllOrRefused small jb_init
      (jb_json_str small jb_init (b'"' ∷ codes "a"))
      (json_string (b'"' ∷ codes "a"))
jb_json_str_lem_example = jb_json_str_lem small jb_init (b'"' ∷ codes "a")

b64_decode_lem_example :
    (b64_decode padded_mode (codes "YWI=") ≡ some (codes "ab"))
    ↔ ((codes "YWI=" ≡ b64_encode (codes "ab")) × AreBytes (codes "ab"))
b64_decode_lem_example = b64_decode_lem padded_mode (codes "YWI=") (codes "ab")

jb_b64-Extends_example :
    Extends jb_init (jb_b64 small jb_init (codes "abcd")) (b64_encode (codes "abcd"))
jb_b64-Extends_example = jb_b64-Extends small jb_init (codes "abcd")

-- Three characters, the second of two bytes, cut to two.
prep_truncate_lem_example :
    let (kept, truncated) = prep_truncate (97 ∷ 195 ∷ 169 ∷ 98 ∷ []) 2 in
    (kept ≤ 4)
    × (chars (take kept (97 ∷ 195 ∷ 169 ∷ 98 ∷ [])) ≡ min 2 (chars (97 ∷ 195 ∷ 169 ∷ 98 ∷ [])))
    × AtBoundary (97 ∷ 195 ∷ 169 ∷ 98 ∷ []) kept
    × (truncated ≡ ltb 2 (chars (97 ∷ 195 ∷ 169 ∷ 98 ∷ [])))
prep_truncate_lem_example = prep_truncate_lem (97 ∷ 195 ∷ 169 ∷ 98 ∷ []) 2

-- A result without a vector, for a message "{}".
abbrev unembedded_result : KataResult
unembedded_result = record {
  embedded = false;
  message_uuid = some (codes "u-1");
  envelope = codes "{}";
  embedder = none;
  vector = [];
  tokens = 0;
  truncated_chars = false;
  reason = some (codes "retries");
  board = some (codes "b");
  fw = some (codes "f");
  pass = none;
  message_id = some (codes "m-1");
  receive_count = 3;
}

abbrev built : Jbuf
built = record { bytes = result_text unembedded_result; cap = 256; oom = false }

result_encode_lem_example : jb_take small built ≡ some ([] ++ result_text unembedded_result)
unfolding result_encode put_head put_vector put_tail put_pass str_or_null jb_json_str escape_run
    escape_byte jb_put jb_reserve doubled result_text head_text vector_text tail_text pass_text
    escaped is_plain decimal decimal_onto hex_digit
result_encode_lem_example = result_encode_lem small true unembedded_result jb_init built refl
