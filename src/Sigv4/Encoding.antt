-- ===== src/Sigv4/Encoding.antt =====
-- `uri_encode` and `query_part` of esp32-embedder/worker/sigv4.c.
use claude_chats.Prelude.{
  ℕ, ◌+◌, ◌*◌, ◌/◌, ◌%◌, ◌<◌, ◌≡◌, refl, sym, ap, ◌∙◌, inl, inr, Bool, true, false, Bool-cases,
  some, [], ◌∷◌, ◌++◌, append-nil, ◌==◌, arith, Bytes, All,
}
use mathlib.Core.Path.{subst}
use claude_chats.Kw.Jbuf.{Jbuf, jb_init, jb_put}
use claude_chats.Kw.Jbuf.Laws.{Grows, Grows-trans, jb_put-Extends}
use claude_chats.Sigv4.{
  hex_capital, unreserved, encode_byte, hexval, escaped_value, uri_encode, unescape, query_part,
}

-- A text with each byte that is not kept %-encoded.
unfoldable pub encoded_text : Bool → Bytes → Bytes
encoded_text path [] = []
encoded_text path (c ∷ s) = encode_byte path c ++ encoded_text path s

abbrev pub IsByte : ℕ → Type 0
IsByte c = c < 256

hexval-hex_capital : (d : ℕ) → d < 16 → hexval (hex_capital d) ≡ some d
unfolding hexval
hexval-hex_capital d h = ground arith

escaped_value-hex_capital :
    (c : ℕ) → c < 256 → escaped_value (hex_capital (c / 16)) (hex_capital (c % 16)) ≡ some c
unfolding escaped_value
escaped_value-hex_capital c h =
    let back : c / 16 * 16 + c % 16 ≡ c = omega arith in
    rw
      (
        escaped_value,
        hexval-hex_capital (c / 16) (omega arith),
        hexval-hex_capital (c % 16) (omega arith),
        back,
      )
      refl

unreserved_lem : (c : ℕ) → unreserved c ≡ true → (c == b'%') ≡ false
unfolding unreserved
unreserved_lem c h = ground arith

module _ (grow : ℕ → Bool) where
  uri_encode-Grows :
      (b : Jbuf) (s : Bytes) (path : Bool)
      → Grows b (uri_encode grow b s path) (encoded_text path s)
  unfolding uri_encode encoded_text
  uri_encode-Grows b [] path = λ k. (k, sym (append-nil b.bytes))
  uri_encode-Grows b (c ∷ s) path =
      let b1 = jb_put grow b (encode_byte path c) in
      Grows-trans b b1 (uri_encode grow b1 s path) (encode_byte path c) (encoded_text path s)
        (jb_put-Extends grow b (encode_byte path c)).appended (uri_encode-Grows b1 s path)

  unescape_plain :
      (raw : Jbuf) (c : ℕ) (t : Bytes)
      → (c == b'%') ≡ false
      → unescape grow raw (c ∷ t) ≡ unescape grow (jb_put grow raw (c ∷ [])) t
  unfolding unescape
  unescape_plain raw c [] h = refl
  unescape_plain raw c (d ∷ []) h = refl
  unescape_plain raw c (d ∷ e ∷ s) h = rw (unescape, h) refl

  unescape_escape :
      (raw : Jbuf) (c : ℕ) (t : Bytes)
      → c < 256
      → unescape grow raw (b'%' ∷ hex_capital (c / 16) ∷ hex_capital (c % 16) ∷ t)
        ≡ unescape grow (jb_put grow raw (c ∷ [])) t
  unfolding unescape
  unescape_escape raw c t h = rw (unescape, escaped_value-hex_capital c h) refl

  unescape_byte :
      (raw : Jbuf) (c : ℕ) (t : Bytes)
      → c < 256
      → unescape grow raw (encode_byte false c ++ t) ≡ unescape grow (jb_put grow raw (c ∷ [])) t
  unfolding encode_byte
  unescape_byte raw c t h = elim (Bool-cases (unreserved c)) [
    | inl kept ↦ rw kept (unescape_plain raw c t (unreserved_lem c kept))
    | inr escaped ↦ rw escaped (unescape_escape raw c t h)
  ]

  unescape-Grows :
      (s : Bytes) (raw : Jbuf)
      → All IsByte s
      → Grows raw (unescape grow raw (encoded_text false s)) s
  unfolding encoded_text unescape
  unescape-Grows [] raw h = λ k. (k, sym (append-nil raw.bytes))
  unescape-Grows (c ∷ s) raw h =
      let raw1 = jb_put grow raw (c ∷ []) in
      let rest = unescape grow raw1 (encoded_text false s) in
      subst (λ x. Grows raw x (c ∷ s)) (sym (unescape_byte raw c (encoded_text false s) h.0))
        (Grows-trans raw raw1 rest (c ∷ []) s (jb_put-Extends grow raw (c ∷ [])).appended
          (unescape-Grows s raw1 h.1))

  -- A part of a query that is %-encoded already is decoded and encoded to itself, where memory does not
  -- run out.
  pub query_part_lem :
      (b : Jbuf) (s : Bytes)
      → All IsByte s
      → let done = query_part grow b (encoded_text false s) in
        done.oom ≡ false → done.bytes ≡ b.bytes ++ encoded_text false s
  unfolding query_part
  query_part_lem b s bytes k =
      let raw = unescape grow jb_init (encoded_text false s) in
      let raw_is = (unescape-Grows s jb_init bytes (ground arith)).1 in
      let out = (uri_encode-Grows b raw.bytes false (ground arith)).1 in
      out ∙ ap (λ x. b.bytes ++ encoded_text false x) raw_is
