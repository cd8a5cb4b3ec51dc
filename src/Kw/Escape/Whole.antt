-- ===== src/Kw/Escape/Whole.antt =====
-- `jb_json_str` of esp32-embedder/worker/kw.c writes all of a string, unless the allocator refuses.
use claude_chats.Prelude.{ℕ, ◌+◌, inl, inr, Bool, Bool-cases, [], ◌∷◌, ◌++◌, length, Bytes}
use claude_chats.Kw.Jbuf.{Jbuf, jb_reserve, jb_put}
use claude_chats.Kw.Jbuf.Refusals.{
  Alright, Alright-trans, jb_reserve-Alright, jb_put-Alright, AllOrRefused, Grows-AllOrRefused,
}
use claude_chats.Kw.Escape.{is_plain, escape_byte, escape_run, jb_json_str}
use claude_chats.Kw.Escape.Laws.{
  json_string, escape_run-plain, escape_run-special, jb_json_str-Extends,
}

module _ (grow : ℕ → Bool) where
  escape_run-Alright :
      (s : Bytes) (b : Jbuf) (run : Bytes) → Alright grow b (escape_run grow b run s)
  unfolding escape_run
  escape_run-Alright [] b run = jb_put-Alright grow b run
  escape_run-Alright (c ∷ cs) b run = elim (Bool-cases (is_plain c)) [
    | inl as_is ↦
        rw (escape_run-plain grow b run c cs as_is) (escape_run-Alright cs b (run ++ (c ∷ [])))
    | inr special ↦
        let b1 = jb_put grow b run in
        let b2 = jb_put grow b1 (escape_byte c) in
        let whole = escape_run grow b2 [] cs in
        rw (escape_run-special grow b run c cs special) (
          Alright-trans grow b b2 whole
            (Alright-trans grow b b1 b2 (jb_put-Alright grow b run)
              (jb_put-Alright grow b1 (escape_byte c)))
            (escape_run-Alright cs b2 []))
  ]

  pub jb_json_str-Alright : (b : Jbuf) (s : Bytes) → Alright grow b (jb_json_str grow b s)
  unfolding jb_json_str
  jb_json_str-Alright b s =
      let q : Bytes = b'"' ∷ [] in
      let r = jb_reserve grow b (length s + 2) in
      let b1 = jb_put grow r.1 q in
      let b2 = escape_run grow b1 [] s in
      let b3 = jb_put grow b2 q in
      let room = jb_reserve-Alright grow b (length s + 2) in
      elim (Bool-cases r.0) [
        | inr out ↦ rw out room
        | inl ok ↦ rw ok (
            Alright-trans grow b r.1 b3 room (
              Alright-trans grow r.1 b1 b3 (jb_put-Alright grow r.1 q) (
                Alright-trans grow b1 b2 b3 (escape_run-Alright s b1 [])
                  (jb_put-Alright grow b2 q))))
      ]

  -- `jb_json_str` appends the whole JSON string, each byte in it as RFC 8259 has it; or memory ran out, before
  -- or now, and then the allocator refuses some size or it had run out before.
  pub jb_json_str_lem :
      (b : Jbuf) (s : Bytes) → AllOrRefused grow b (jb_json_str grow b s) (json_string s)
  jb_json_str_lem b s =
      Grows-AllOrRefused grow b (jb_json_str grow b s) (json_string s)
        ((jb_json_str-Extends grow b s).appended) (jb_json_str-Alright b s)
