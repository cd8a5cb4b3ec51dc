-- ===== src/Result.antt =====
-- The results-queue message of esp32-embedder/worker/result.c.
pub mod Laws
use claude_chats.Prelude.{
  ℕ, ◌/◌, ◌%◌, ◌^◌, Bool, ◌&&◌, not, Option, none, some, List, [], ◌∷◌, ◌++◌, ltb, if◌then◌else◌,
  Bytes, codes, decimal,
}
use claude_chats.Kw.Jbuf.{Jbuf, jb_put}
use claude_chats.Kw.Escape.{jb_json_str}
use claude_chats.Kw.Base64.{jb_b64}

abbrev pub result_dims : ℕ
result_dims = 1024

-- A pass's statistics, where `has_pass`.
pub record PassStats : Type 0 where
  pub n_seg : ℕ
  pub tokens : ℕ
  pub ms : ℕ

-- `kata_result_t`. A string is absent where the pointer is NULL; the vector is the bit patterns of
-- its `float`s.
pub record KataResult : Type 0 where
  pub embedded : Bool
  pub message_uuid : Option Bytes
  pub envelope : Bytes
  pub embedder : Option Bytes
  pub vector : List ℕ
  pub tokens : ℕ
  pub truncated_chars : Bool
  pub reason : Option Bytes
  pub board : Option Bytes
  pub fw : Option Bytes
  pub pass : Option PassStats
  pub message_id : Option Bytes
  pub receive_count : ℕ

-- Each `float` as four bytes, the lowest first.
unfoldable pub little_endian : List ℕ → Bytes
little_endian [] = []
little_endian (u ∷ us) =
    u % 256 ∷ u / 2 ^ 8 % 256 ∷ u / 2 ^ 16 % 256 ∷ u / 2 ^ 24 % 256 ∷ little_endian us

module _ (grow : ℕ → Bool) where
  unfoldable pub str_or_null : Jbuf → Option Bytes → Jbuf
  str_or_null b none = jb_put grow b (codes "null")
  str_or_null b (some s) = jb_json_str grow b s

  unfoldable pub put_head : Jbuf → KataResult → Jbuf
  unfolding str_or_null
  put_head b r =
      let b1 = jb_put grow b (
        codes "{\"v\":1,\"kind\":\""
        ++ ((if r.embedded then codes "embedded" else codes "unembedded")
            ++ codes "\",\"message_uuid\":")) in
      let b2 = str_or_null b1 r.message_uuid in
      let b3 = jb_put grow b2 (codes ",\"envelope\":") in
      let b4 = jb_put grow b3 r.envelope in
      let b5 = jb_put grow b4 (codes ",\"embedder\":") in
      let b6 = str_or_null b5 (if r.embedded then r.embedder else none) in
      jb_put grow b6 (codes ",\"vector\":")

  -- The branch on `r->embedded`, after `raw` is allocated.
  unfoldable pub put_vector : Jbuf → KataResult → Jbuf
  unfolding str_or_null little_endian
  put_vector b r =
      if r.embedded
      then (let b1 = jb_put grow b (b'"' ∷ []) in
          let b2 = jb_b64 grow b1 (little_endian r.vector) in
          let b3 = jb_put grow b2 (b'"' ∷ []) in
          jb_put grow b3 (
            codes ",\"tokens\":"
            ++ (decimal r.tokens
                ++ (codes ",\"truncated_chars\":"
                    ++ ((if r.truncated_chars then codes "true" else codes "false")
                        ++ codes ",\"reason\":null")))))
      else (let b1 =
            jb_put grow b (codes "null,\"tokens\":null,\"truncated_chars\":null,\"reason\":") in
          str_or_null b1 r.reason)

  unfoldable pub put_pass : Jbuf → Option PassStats → Jbuf
  put_pass b none = jb_put grow b (codes ",\"pass\":null")
  put_pass b (some p) = jb_put grow b (
      codes ",\"pass\":{\"n_seg\":"
      ++ (decimal p.n_seg
          ++ (codes ",\"tokens\":"
              ++ (decimal p.tokens ++ (codes ",\"ms\":" ++ (decimal p.ms ++ codes "}"))))))

  unfoldable pub put_tail : Jbuf → KataResult → Jbuf
  unfolding str_or_null put_pass
  put_tail b r =
      let b1 = jb_put grow b (codes ",\"board\":") in
      let b2 = str_or_null b1 r.board in
      let b3 = jb_put grow b2 (codes ",\"fw\":") in
      let b4 = str_or_null b3 r.fw in
      let b5 = put_pass b4 r.pass in
      let b6 = jb_put grow b5 (codes ",\"ingest\":{\"message_id\":") in
      let b7 = str_or_null b6 r.message_id in
      jb_put grow b7 (
        if ltb 0 r.receive_count
        then codes ",\"receive_count\":" ++ (decimal r.receive_count ++ codes "}}")
        else codes ",\"receive_count\":null}}")

  -- `raw_ok`: the `kw_alloc` for the vector's bytes succeeds. Nothing is -1, out of memory.
  unfoldable pub result_encode : Bool → KataResult → Jbuf → Option Jbuf
  unfolding put_head put_vector put_tail
  result_encode raw_ok r b =
      let b1 = put_head b r in
      let b2 = put_tail (put_vector b1 r) r in
      if r.embedded && not raw_ok then none else (if b2.oom then none else some b2)
