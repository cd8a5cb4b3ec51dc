-- ===== src/Kw/Escape/Laws.antt =====
-- The text of a JSON string, for `jb_json_str` of esp32-embedder/worker/kw.c.
use claude_chats.Prelude.{
  ℕ, ◌+◌, ◌-◌, ◌/◌, ◌%◌, ◌<◌, ltb, ◌==◌, codes, ◌≡◌, refl, Bool, true, false, Bool-cases, inl, inr,
  [], ◌∷◌, ◌++◌, append_assoc, append-nil, arith, length, if◌then◌else◌, Bytes,
}
use claude_chats.Kw.Jbuf.{Jbuf, jb_reserve, jb_put}
use claude_chats.Kw.Jbuf.Laws.{Extends, Extends-trans, jb_put-Extends, jb_reserve-Extends}
use claude_chats.Kw.Escape.{is_plain, hex_digit, escape_byte, escape_run, jb_json_str}

-- A digit of a number in base 16, in small letters.
abbrev pub hex_char : ℕ → ℕ
hex_char d = if ltb d 10 then b'0' + d else b'a' + (d - 10)

-- A control character in a JSON string.
abbrev pub control_text : ℕ → Bytes
control_text c =
    if c == 0x0A
    then codes "\\n"
    else if c == 0x0D
    then codes "\\r"
    else if c == 0x09
    then codes "\\t"
    else codes "\\u00" ++ (hex_char (c / 16) ∷ hex_char (c % 16) ∷ [])

-- One byte as it stands in a JSON string, RFC 8259: the quote, the backslash and what is below a space do
-- not stand there as they are.
abbrev pub char_text : ℕ → Bytes
char_text c =
    if c == 0x22
    then codes "\\\""
    else if c == 0x5C
    then codes "\\\\"
    else if ltb c 0x20
    then control_text c
    else c ∷ []

unfoldable pub escaped : Bytes → Bytes
escaped [] = []
escaped (c ∷ cs) = char_text c ++ escaped cs

abbrev pub json_string : Bytes → Bytes
json_string s = 0x22 ∷ (escaped s ++ (0x22 ∷ []))

plain_text : (c : ℕ) → is_plain c ≡ true → char_text c ≡ c ∷ []
unfolding is_plain
plain_text c h = ground arith

hex_same : (d : ℕ) → hex_digit d ≡ hex_char d
unfolding hex_digit
hex_same d = ground arith

below : (c : ℕ) → ltb c 0x20 ≡ true → c < 0x20
below c h = ground arith

escape_text : (c : ℕ) → is_plain c ≡ false → char_text c ≡ escape_byte c
unfolding is_plain escape_byte
escape_text c h = elim (Bool-cases (ltb c 0x20)) [
  | inr high ↦ ground arith
  | inl low ↦
      let d1 : c / 4096 % 16 ≡ 0 = omega (arith, below c low) in
      let d2 : c / 256 % 16 ≡ 0 = omega (arith, below c low) in
      let d3 : c / 16 % 16 ≡ c / 16 = omega (arith, below c low) in
      rw (d1, d2, d3) (ground (arith, hex_same (c / 16), hex_same (c % 16)))
]

module _ (grow : ℕ → Bool) where
  pub escape_run-plain :
      (b : Jbuf) (run : Bytes) (c : ℕ) (cs : Bytes)
      → is_plain c ≡ true
      → escape_run grow b run (c ∷ cs) ≡ escape_run grow b (run ++ (c ∷ [])) cs
  unfolding escape_run
  escape_run-plain b run c cs h = ground arith

  pub escape_run-special :
      (b : Jbuf) (run : Bytes) (c : ℕ) (cs : Bytes)
      → is_plain c ≡ false
      → escape_run grow b run (c ∷ cs)
        ≡ escape_run grow (jb_put grow (jb_put grow b run) (escape_byte c)) [] cs
  unfolding escape_run
  escape_run-special b run c cs h = ground arith

  escape_run-nil : (b : Jbuf) (run : Bytes) → escape_run grow b run [] ≡ jb_put grow b run
  unfolding escape_run
  escape_run-nil b run = refl

  escape_run-Extends :
      (s : Bytes) (b : Jbuf) (run : Bytes) → Extends b (escape_run grow b run s) (run ++ escaped s)
  unfolding escaped
  escape_run-Extends [] b run = rw (escape_run-nil, append-nil) (jb_put-Extends grow b run)
  escape_run-Extends (c ∷ cs) b run = elim (Bool-cases (is_plain c)) [
    | inl as_is ↦
        rw (escape_run-plain b run c cs as_is, plain_text c as_is)
          (rw append_assoc at (escape_run-Extends cs b (run ++ (c ∷ []))))
    | inr special ↦
        let b1 = jb_put grow b run in
        let b2 = jb_put grow b1 (escape_byte c) in
        rw (escape_run-special b run c cs special, escape_text c special)
          (rw append_assoc at (
            Extends-trans
              (Extends-trans (jb_put-Extends grow b run) (jb_put-Extends grow b1 (escape_byte c)))
              (escape_run-Extends cs b2 [])))
  ]

  -- The three puts of `jb_json_str` behind its reservation.
  quoted-Extends :
      (r : Jbuf) (s : Bytes)
      → Extends r
          (jb_put grow (escape_run grow (jb_put grow r (b'"' ∷ [])) [] s) (b'"' ∷ []))
          (json_string s)
  quoted-Extends r s =
      let q : Bytes = b'"' ∷ [] in
      let b1 = jb_put grow r q in
      let b2 = escape_run grow b1 [] s in
      Extends-trans (jb_put-Extends grow r q)
        (Extends-trans (escape_run-Extends s b1 []) (jb_put-Extends grow b2 q))

  -- Where memory has not run out, `jb_json_str` has appended the whole JSON string.
  pub jb_json_str-Extends :
      (b : Jbuf) (s : Bytes) → Extends b (jb_json_str grow b s) (json_string s)
  unfolding jb_json_str
  jb_json_str-Extends b s = record {
    appended =
        let r = (jb_reserve grow b (length s + 2)).1 in
        let q = (quoted-Extends r s).appended in
        ground (arith, jb_reserve-Extends grow b (length s + 2), q);
    allocated =
        let r = (jb_reserve grow b (length s + 2)).1 in
        let q = (quoted-Extends r s).allocated in
        ground (arith, jb_reserve-Extends grow b (length s + 2), q);
  }
