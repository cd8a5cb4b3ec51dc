-- ===== src/Age/Header/Reads.antt =====
-- The header's texts, as age writes them, are read by esp32-embedder/worker/age.c.
use claude_chats.Prelude.{
  ℕ, zero, suc, ◌+◌, ◌*◌, ◌/◌, ◌≤◌, ◌<◌, ◌≡◌, refl, sym, ap, ◌∙◌, true, false, some, List, [], ◌∷◌,
  ◌++◌, append_assoc, length, length-append, take, drop, ◌==◌, arith, Bytes, codes, bytes_eq,
  split_at, Lacks, split_at-append,
}
use mathlib.Core.Path.{subst}
use claude_chats.Kw.Base64.{raw_strict, b64_decode}
use claude_chats.Kw.Base64.Groups.{AreBytes, unpadded}
use claude_chats.Kw.Base64.Padded.{b64_decode_lem}
use claude_chats.Age.{Crypto}
use claude_chats.Age.Header.{
  Stanza, max_stanzas, parsed_stanza, stanza_of, parsed_header, mac_line, with_stanza, parse_stanza,
  read_header,
}
use claude_chats.Age.Header.Text.{words_text, lines_text, all_lines, StanzaText, HeaderText}
use claude_chats.Age.Payload.Sealed.{HasMemory}
use claude_chats.Age.Header.Lines.{
  unpadded-Lacks, words_text-Lacks, length-words_text, stanza_words-words_text,
  body_lines-lines_text, length-lines_text,
}

stanza_of-words :
    (st : Stanza) (chars behind : Bytes)
    → AreBytes st.body
    → chars ≡ unpadded st.body
    → stanza_of (st.kind ∷ st.args) chars behind ≡ parsed_stanza st behind
unfolding stanza_of
stanza_of-words st chars behind fine is =
    let decoded : b64_decode raw_strict chars ≡ some st.body =
      (b64_decode_lem raw_strict chars st.body).1 (is, fine) in
    rw (decoded, stanza_of) refl

-- A stanza as age writes it is read, and nothing behind it.
pub parse_stanza-StanzaText :
    (y : Crypto) (st : Stanza) (a behind : Bytes) (c : y.Ctx)
    → HasMemory y
    → StanzaText st a
    → (parse_stanza y (a ++ behind) c).0 ≡ parsed_stanza st behind
unfolding parse_stanza
parse_stanza-StanzaText y st a behind c memory
      (b, (ls, last, full, short, chars, lines), fine, words, text) =
    let line : Bytes = words_text (st.kind ∷ st.args) in
    let after : Bytes = lines_text ls ++ (last ++ (b'\n' ∷ behind)) in
    let raw : Bytes = all_lines ls ++ last in
    let after_is : b ++ behind ≡ after =
      ap (λ x. x ++ behind) lines
      ∙ append_assoc (lines_text ls) (last ++ (b'\n' ∷ [])) behind
      ∙ ap (λ x. lines_text ls ++ x) (append_assoc last (b'\n' ∷ []) behind) in
    let whole : a ++ behind ≡ line ++ (b'\n' ∷ after) =
      ap (λ x. x ++ behind) text
      ∙ append_assoc line (b'\n' ∷ b) behind
      ∙ ap (λ x. line ++ (b'\n' ∷ x)) after_is in
    let found = split_at-append b'\n' line after (words_text-Lacks (st.kind ∷ st.args) words) in
    let read =
      stanza_words-words_text (suc (length line)) st.kind st.args words
        (omega (arith, length-words_text (st.kind ∷ st.args) words)) in
    let body =
      body_lines-lines_text (suc (length after)) ls last behind full short
        (subst (λ x. Lacks b'\n' x) chars (unpadded-Lacks st.body fine))
        (omega (
          arith,
          length-lines_text ls,
          length-append (lines_text ls) (last ++ (b'\n' ∷ behind)),
        )) in
    rw whole (
      rw (found, parse_stanza)
        (rw read (
          rw body (
            rw
              (
                memory.allocates (length raw + 1) c,
                memory.allocates (length raw * 3 / 4 + 3) (y.alloc (length raw + 1) c).1,
              )
              (stanza_of-words st raw behind fine (sym chars))))))

pub length-unpadded : (d : Bytes) → length (unpadded d) ≡ (length d * 4 + 2) / 3
unfolding unpadded
length-unpadded [] = omega arith
length-unpadded (a ∷ []) = omega arith
length-unpadded (a ∷ b ∷ []) = omega arith
length-unpadded (a ∷ b ∷ c ∷ more) = omega (arith, length-unpadded more)

-- The line of the MAC, behind its dashes.
mac_line-unpadded :
    (mac behind : Bytes)
    → AreBytes mac
    → length mac ≡ 32
    → (let uncovered : Bytes = b' ' ∷ (unpadded mac ++ (b'\n' ∷ behind)) in
        mac_line (codes "---" ++ uncovered) ≡ parsed_header [] mac uncovered behind)
unfolding mac_line
mac_line-unpadded mac behind fine size =
    let text : Bytes = unpadded mac in
    let line : Bytes = codes "--- " ++ text in
    let found : split_at b'\n' (line ++ (b'\n' ∷ behind)) ≡ some (line, behind) =
      split_at-append b'\n' line behind (refl, (refl, (refl, (refl, unpadded-Lacks mac fine)))) in
    let decoded : b64_decode raw_strict text ≡ some mac =
      (b64_decode_lem raw_strict text mac).1 (refl, fine) in
    let long : length text ≡ 43 = omega (arith, length-unpadded mac) in
    let whole : (length line == 47) ≡ true = ground arith in
    let size' : (length mac == 32) ≡ true = ground arith in
    rw (found, mac_line) (rw (whole) (rw (decoded, mac_line) (rw size' refl)))

read_stanza :
    (y : Crypto) (fuel ns : ℕ) (s left : Bytes) (st : Stanza) (c : y.Ctx)
    → bytes_eq (take 3 s) (codes "---") ≡ false
    → bytes_eq (take 3 s) (codes "-> ") ≡ true
    → (ns == max_stanzas) ≡ false
    → (parse_stanza y (drop 3 s) c).0 ≡ parsed_stanza st left
    → (read_header y (suc fuel) ns s c).0
      ≡ with_stanza st (read_header y fuel (ns + 1) left (parse_stanza y (drop 3 s) c).1).0
unfolding read_header
read_stanza y fuel ns s left st c no_dashes arrow room is = ground arith

-- A header as age writes it is read.
pub read_header-HeaderText :
    (y : Crypto) (fuel ns : ℕ) (sts : List Stanza) (t mac behind : Bytes) (c : y.Ctx)
    → HasMemory y
    → HeaderText sts t
    → length sts < fuel
    → ns + length sts ≤ max_stanzas
    → AreBytes mac
    → length mac ≡ 32
    → (let uncovered : Bytes = b' ' ∷ (unpadded mac ++ (b'\n' ∷ behind)) in
        (read_header y fuel ns (t ++ (codes "---" ++ uncovered)) c).0
        ≡ parsed_header sts mac uncovered behind)
read_header-HeaderText y zero ns sts t mac behind c memory text enough few fine size =
    absurd (omega arith)
read_header-HeaderText y (suc fuel) ns [] t mac behind c memory text enough few fine size =
    let uncovered : Bytes = b' ' ∷ (unpadded mac ++ (b'\n' ∷ behind)) in
    subst
      (λ x.
        (read_header y (suc fuel) ns (x ++ (codes "---" ++ uncovered)) c).0
        ≡ parsed_header [] mac uncovered behind)
      (sym text) (unfold read_header bytes_eq in mac_line-unpadded mac behind fine size)
read_header-HeaderText y (suc fuel) ns (st ∷ sts) t mac behind c memory (a, b, stanza, texts, is)
      enough few fine size =
    let uncovered : Bytes = b' ' ∷ (unpadded mac ++ (b'\n' ∷ behind)) in
    let rest : Bytes = codes "---" ++ uncovered in
    let s : Bytes = codes "-> " ++ (a ++ (b ++ rest)) in
    let whole : t ++ rest ≡ s =
      ap (λ x. x ++ rest) is ∙ ap (λ x. codes "-> " ++ x) (append_assoc a b rest) in
    let read = parse_stanza-StanzaText y st a (b ++ rest) c memory stanza in
    let left = parse_stanza y (a ++ (b ++ rest)) c in
    subst (λ x. (read_header y (suc fuel) ns x c).0 ≡ parsed_header (st ∷ sts) mac uncovered behind)
      (sym whole)
      (read_stanza y fuel ns s (b ++ rest) st c (unfold bytes_eq in refl) (unfold bytes_eq in refl)
          (ground arith) read
        ∙ ap (with_stanza st) (
            read_header-HeaderText y fuel (ns + 1) sts b mac behind left.1 memory texts
              (omega arith) (omega arith) fine size))

pub length-HeaderText : (sts : List Stanza) (t : Bytes) → HeaderText sts t → length sts ≤ length t
length-HeaderText [] t text = omega arith
length-HeaderText (st ∷ sts) t (a, b, stanza, texts, is) =
    omega (arith, ap length is, length-append a b, length-HeaderText sts b texts)
