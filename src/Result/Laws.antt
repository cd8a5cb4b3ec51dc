-- ===== src/Result/Laws.antt =====
-- The text of a results-queue message, for `result_encode` of esp32-embedder/worker/result.c.
use claude_chats.Prelude.{
  ℕ, ◌≡◌, Bool, Bool-cases, inl, inr, Option, none, some, [], ◌∷◌, ◌++◌, arith, ltb, if◌then◌else◌,
  Bytes, codes, decimal,
}
use claude_chats.Kw.Jbuf.{Jbuf, jb_put, jb_take}
use claude_chats.Kw.Jbuf.Laws.{Extends, Extends-trans, jb_put-Extends}
use claude_chats.Kw.Escape.Laws.{json_string, jb_json_str-Extends}
use claude_chats.Kw.Base64.{b64_encode, jb_b64}
use claude_chats.Kw.Base64.Laws.{jb_b64-Extends}
use claude_chats.Result.{
  KataResult, PassStats, little_endian, str_or_null, put_head, put_vector, put_pass, put_tail,
  result_encode,
}

abbrev pub nullable : Option Bytes → Bytes
nullable none = codes "null"
nullable (some s) = json_string s

-- The fields of the message, in order, as one text.
unfoldable pub head_text : KataResult → Bytes
head_text r =
    (codes "{\"v\":1,\"kind\":\""
      ++ ((if r.embedded then codes "embedded" else codes "unembedded")
          ++ codes "\",\"message_uuid\":"))
    ++ (nullable r.message_uuid
        ++ (codes ",\"envelope\":"
            ++ (r.envelope
                ++ (codes ",\"embedder\":"
                    ++ (nullable (if r.embedded then r.embedder else none)
                        ++ codes ",\"vector\":")))))

unfoldable pub vector_text : KataResult → Bytes
vector_text r =
    if r.embedded
    then (b'"' ∷ [])
      ++ (b64_encode (little_endian r.vector)
          ++ ((b'"' ∷ [])
              ++ (codes ",\"tokens\":"
                  ++ (decimal r.tokens
                      ++ (codes ",\"truncated_chars\":"
                          ++ ((if r.truncated_chars then codes "true" else codes "false")
                              ++ codes ",\"reason\":null"))))))
    else codes "null,\"tokens\":null,\"truncated_chars\":null,\"reason\":" ++ nullable r.reason

unfoldable pub pass_text : Option PassStats → Bytes
pass_text none = codes ",\"pass\":null"
pass_text (some p) =
    codes ",\"pass\":{\"n_seg\":"
    ++ (decimal p.n_seg
        ++ (codes ",\"tokens\":"
            ++ (decimal p.tokens ++ (codes ",\"ms\":" ++ (decimal p.ms ++ codes "}")))))

unfoldable pub tail_text : KataResult → Bytes
unfolding pass_text
tail_text r =
    codes ",\"board\":"
    ++ (nullable r.board
        ++ (codes ",\"fw\":"
            ++ (nullable r.fw
                ++ (pass_text r.pass
                    ++ (codes ",\"ingest\":{\"message_id\":"
                        ++ (nullable r.message_id
                            ++ (if ltb 0 r.receive_count
                                then codes ",\"receive_count\":"
                                  ++ (decimal r.receive_count ++ codes "}}")
                                else codes ",\"receive_count\":null}}")))))))

unfoldable pub result_text : KataResult → Bytes
unfolding head_text vector_text tail_text
result_text r = head_text r ++ (vector_text r ++ tail_text r)

module _ (grow : ℕ → Bool) where
  str_or_null-Extends :
      (b : Jbuf) (s : Option Bytes) → Extends b (str_or_null grow b s) (nullable s)
  unfolding str_or_null
  str_or_null-Extends b none = jb_put-Extends grow b (codes "null")
  str_or_null-Extends b (some s) = jb_json_str-Extends grow b s

  put_then :
      (b : Jbuf) (d : Bytes) {b' : Jbuf} {d' : Bytes}
      → Extends (jb_put grow b d) b' d'
      → Extends b b' (d ++ d')
  put_then b d p = Extends-trans (jb_put-Extends grow b d) p

  str_then :
      (b : Jbuf) (s : Option Bytes) {b' : Jbuf} {d' : Bytes}
      → Extends (str_or_null grow b s) b' d'
      → Extends b b' (nullable s ++ d')
  str_then b s p = Extends-trans (str_or_null-Extends b s) p

  put_head-Extends : (b : Jbuf) (r : KataResult) → Extends b (put_head grow b r) (head_text r)
  unfolding put_head head_text
  put_head-Extends b r = put_then _ _ (
      str_then _ _
        (put_then _ _ (put_then _ _ (put_then _ _ (str_then _ _ (jb_put-Extends grow _ _))))))

  vector_then :
      (b : Jbuf) (d : Bytes) {b' : Jbuf} {d' : Bytes}
      → Extends (jb_b64 grow b d) b' d'
      → Extends b b' (b64_encode d ++ d')
  vector_then b d p = Extends-trans (jb_b64-Extends grow b d) p

  put_vector-Extends : (b : Jbuf) (r : KataResult) → Extends b (put_vector grow b r) (vector_text r)
  unfolding put_vector vector_text
  put_vector-Extends b r = elim (Bool-cases r.embedded) [
    | inl yes_vector ↦
        rw yes_vector (put_then _ _ (vector_then _ _ (put_then _ _ (jb_put-Extends grow _ _))))
    | inr no_vector ↦ rw no_vector (put_then _ _ (str_or_null-Extends _ r.reason))
  ]

  put_pass-Extends : (b : Jbuf) (p : Option PassStats) → Extends b (put_pass grow b p) (pass_text p)
  unfolding put_pass pass_text
  put_pass-Extends b none = jb_put-Extends grow b _
  put_pass-Extends b (some p) = jb_put-Extends grow b _

  put_tail-Extends : (b : Jbuf) (r : KataResult) → Extends b (put_tail grow b r) (tail_text r)
  unfolding put_tail tail_text
  put_tail-Extends b r = put_then _ _ (
      str_then _ _ (
        put_then _ _ (
          str_then _ _ (
            Extends-trans (put_pass-Extends _ r.pass)
              (put_then _ _ (str_then _ _ (jb_put-Extends grow _ _)))))))

  parts-Extends :
      (b : Jbuf) (r : KataResult)
      → Extends b (put_tail grow (put_vector grow (put_head grow b r) r) r) (result_text r)
  unfolding result_text
  parts-Extends b r =
      Extends-trans (put_head-Extends b r)
        (Extends-trans (put_vector-Extends _ r) (put_tail-Extends _ r))

  -- Where `result_encode` succeeds, the buffer holds the whole message behind what it held: the
  -- ingest body stands in it byte for byte.
  pub result_encode_lem :
      (raw_ok : Bool) (r : KataResult) (b b' : Jbuf)
      → result_encode grow raw_ok r b ≡ some b'
      → (jb_take grow b' ≡ some (b.bytes ++ result_text r))
  unfolding result_encode jb_take
  result_encode_lem raw_ok r b b' h =
      ground (arith, (parts-Extends b r).appended, (parts-Extends b r).allocated)
