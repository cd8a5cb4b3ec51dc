-- ===== src/Age/Header/Parses.antt =====
-- The stanza and the line of the MAC that esp32-embedder/worker/age.c takes are the texts that age writes.
use claude_chats.Prelude.{
  suc, ◌≡◌, sym, ap, ◌∙◌, inl, inr, true, Bool-cases, ◌&&◌, some, Option-cases, List, [], ◌∷◌, ◌++◌,
  append_assoc, length, get_or, take, drop, ◌==◌, arith, Bytes, codes, bytes_eq, split_at,
  split_at_lem, take_is,
}
use mathlib.Core.Path.{subst}
use claude_chats.Kw.Base64.{raw_strict, b64_decode}
use claude_chats.Kw.Base64.Groups.{AreBytes, unpadded}
use claude_chats.Kw.Base64.Padded.{b64_decode_lem}
use claude_chats.Age.{Crypto}
use claude_chats.Age.Header.{
  Stanza, stanza_words, body_lines, parsed_stanza, stanza_of, parsed_header, mac_line, parse_stanza,
}
use claude_chats.Age.Header.Text.{
  words_text, BodyText, AreWords, StanzaText, stanza_words-text, body_lines-text,
}

stanza_of-text :
    (ws : List Bytes) (chars rest t line : Bytes) (st : Stanza) (behind : Bytes)
    → (line ≡ words_text ws) × AreWords ws
    → BodyText chars t
    → stanza_of ws chars rest ≡ parsed_stanza st behind
    → StanzaText st (line ++ (b'\n' ∷ t)) × (rest ≡ behind)
unfolding stanza_of
stanza_of-text [] chars rest t line st behind words body h = absurd (ground arith)
stanza_of-text (kind ∷ args) chars rest t line st behind (text, words) body h =
    elim (Option-cases (b64_decode raw_strict chars)) [
      | inl bad ↦ absurd (ground arith)
      | inr (bytes, decoded) ↦
          let made : parsed_stanza (record { kind = kind; args = args; body = bytes }) rest
              ≡ parsed_stanza st behind =
            ground arith in
          let same : record { kind = kind; args = args; body = bytes } ≡ st = cc in
          let left : rest ≡ behind = cc in
          let (is, fine) = (b64_decode_lem raw_strict chars bytes).0 decoded in
          (
            subst (λ x. StanzaText x (line ++ (b'\n' ∷ t))) same
                (
                  t,
                  subst (λ x. BodyText x t) is body,
                  fine,
                  words,
                  ap (λ x. x ++ (b'\n' ∷ t)) text,
                ),
            left,
          )
    ]

pub parse_stanza-text :
    (y : Crypto) (s : Bytes) (c : y.Ctx) (st : Stanza) (behind : Bytes)
    → (parse_stanza y s c).0 ≡ parsed_stanza st behind
    → (t : Bytes) × StanzaText st t × (s ≡ t ++ behind)
unfolding parse_stanza
parse_stanza-text y s c st behind h = elim (Option-cases (split_at b'\n' s)) [
  | inl no_line ↦ absurd (ground arith)
  | inr ((line, after), found) ↦ elim (Option-cases (stanza_words (suc (length line)) line)) [
    | inl no_words ↦ absurd (ground arith)
    | inr (ws, words) ↦ elim (Option-cases (body_lines (suc (length after)) after)) [
      | inl no_body ↦ absurd (ground arith)
      | inr ((chars, rest), lines) ↦
          let made : stanza_of ws chars rest ≡ parsed_stanza st behind = ground arith in
          let (text, fine, _) = stanza_words-text (suc (length line)) line ws words in
          let (t, body, after_is) = body_lines-text (suc (length after)) after chars rest lines in
          let (stanza, left) =
            stanza_of-text ws chars rest t line st behind (text, fine) body made in
          (
            line ++ (b'\n' ∷ t),
            stanza,
            split_at_lem b'\n' s line after found
                ∙ ap (λ x. line ++ (b'\n' ∷ x)) (after_is ∙ ap (λ x. t ++ x) left)
                ∙ sym (append_assoc line (b'\n' ∷ t) behind),
          )
    ]
  ]
]

-- The line of the MAC, its digits exact.
abbrev MacText : List Stanza → Bytes → Bytes → Bytes → Bytes → Type 0
MacText sts mac uncovered behind s =
    (sts ≡ [])
    × (s ≡ codes "---" ++ uncovered)
    × (uncovered ≡ b' ' ∷ (unpadded mac ++ (b'\n' ∷ behind)))
    × AreBytes mac
    × (length mac ≡ 32)

mac_parts :
    (line rest : Bytes) (sts : List Stanza) (mac uncovered behind : Bytes)
    → length line ≡ 47
    → get_or line 3 0 ≡ b' '
    → bytes_eq (take 3 (line ++ (b'\n' ∷ rest))) (codes "---") ≡ true
    → b64_decode raw_strict (drop 4 line) ≡ some mac
    → length mac ≡ 32
    → parsed_header [] mac (drop 3 (line ++ (b'\n' ∷ rest))) rest
      ≡ parsed_header sts mac uncovered behind
    → MacText sts mac uncovered behind (line ++ (b'\n' ∷ rest))
mac_parts (a ∷ b ∷ d ∷ e ∷ more) rest sts mac uncovered behind long space dashes decoded size same =
    let (text, fine) = (b64_decode_lem raw_strict more mac).0 decoded in
    let left : e ∷ (more ++ (b'\n' ∷ rest)) ≡ uncovered = cc in
    let after : rest ≡ behind = cc in
    let none_yet : [] ≡ sts = cc in
    (
      sym none_yet,
      take_is 3 (a ∷ b ∷ d ∷ e ∷ (more ++ (b'\n' ∷ rest))) (codes "---") dashes
          ∙ ap (λ x. codes "---" ++ x) left,
      sym left
          ∙ ap (λ x. x ∷ (more ++ (b'\n' ∷ rest))) space
          ∙ ap (λ x. b' ' ∷ (x ++ (b'\n' ∷ rest))) text
          ∙ ap (λ x. b' ' ∷ (unpadded mac ++ (b'\n' ∷ x))) after,
      fine,
      size,
    )
mac_parts [] rest sts mac uncovered behind long space dashes decoded size same =
    absurd (omega arith)
mac_parts (a ∷ []) rest sts mac uncovered behind long space dashes decoded size same =
    absurd (omega arith)
mac_parts (a ∷ b ∷ []) rest sts mac uncovered behind long space dashes decoded size same =
    absurd (omega arith)
mac_parts (a ∷ b ∷ d ∷ []) rest sts mac uncovered behind long space dashes decoded size same =
    absurd (omega arith)

pub mac_line-text :
    (s : Bytes) (sts : List Stanza) (mac uncovered behind : Bytes)
    → bytes_eq (take 3 s) (codes "---") ≡ true
    → mac_line s ≡ parsed_header sts mac uncovered behind
    → MacText sts mac uncovered behind s
unfolding mac_line
mac_line-text s sts mac uncovered behind dashes h = elim (Option-cases (split_at b'\n' s)) [
  | inl no_line ↦ absurd (ground arith)
  | inr ((line, rest), found) ↦
      let is = split_at_lem b'\n' s line rest found in
      elim (Bool-cases (length line == 47 && get_or line 3 0 == b' ')) [
        | inr shape ↦ absurd (ground arith)
        | inl shape ↦ elim (Option-cases (b64_decode raw_strict (drop 4 line))) [
          | inl bad ↦ absurd (ground arith)
          | inr (mac', decoded) ↦ elim (Bool-cases (length mac' == 32)) [
            | inr size ↦ absurd (ground arith)
            | inl size ↦
                let made : parsed_header [] mac' (drop 3 s) rest
                    ≡ parsed_header sts mac uncovered behind =
                  ground arith in
                let same : mac' ≡ mac = cc in
                subst (λ x. MacText sts mac uncovered behind x) (sym is)
                  (mac_parts line rest sts mac uncovered behind (ground arith) (ground arith)
                    (subst (λ x. bytes_eq (take 3 x) (codes "---") ≡ true) is dashes)
                    (rw (← same) decoded) (ground arith)
                    (subst
                      (λ x.
                        parsed_header [] mac (drop 3 x) rest
                        ≡ parsed_header sts mac uncovered behind)
                      is
                      (subst
                        (λ m.
                          parsed_header [] m (drop 3 s) rest
                          ≡ parsed_header sts mac uncovered behind)
                        same made)))
          ]
        ]
      ]
]
