-- ===== src/Age/Header/Exact.antt =====
-- A header that esp32-embedder/worker/age.c takes is the one text that age writes for its stanzas.
use claude_chats.Prelude.{
  ℕ, zero, suc, ◌+◌, ◌≤◌, ◌≡◌, refl, sym, ap, ◌∙◌, ◌⊎◌, inl, inr, Bool-cases, List, [], ◌∷◌, ◌++◌,
  append_assoc, length, take, drop, ◌==◌, arith, Bytes, codes, bytes_eq, take_is,
}
use mathlib.Core.Path.{subst}
use claude_chats.Kw.Base64.Groups.{AreBytes, unpadded}
use claude_chats.Age.{Crypto}
use claude_chats.Age.Header.{
  max_stanzas, Stanza, ParsedStanza, parsed_stanza, malformed, stanza_nomem, ParsedHeader,
  parsed_header, no_header, with_stanza, parse_stanza, read_header,
}
use claude_chats.Age.Header.Text.{StanzaText, HeaderText}
use claude_chats.Age.Header.Parses.{parse_stanza-text, mac_line-text}

ParsedStanza-cases :
    (x : ParsedStanza)
    → ((x ≡ malformed) ⊎ (x ≡ stanza_nomem))
      ⊎ ((st : Stanza) × (behind : Bytes) × (x ≡ parsed_stanza st behind))
ParsedStanza-cases (parsed_stanza st behind) = inr (st, behind, refl)
ParsedStanza-cases malformed = inl (inl refl)
ParsedStanza-cases stanza_nomem = inl (inr refl)

with_stanza-parsed :
    (st : Stanza) (more : ParsedHeader) (sts : List Stanza) (mac uncovered behind : Bytes)
    → with_stanza st more ≡ parsed_header sts mac uncovered behind
    → (rest : List Stanza) × (more ≡ parsed_header rest mac uncovered behind) × (st ∷ rest ≡ sts)
with_stanza-parsed st (parsed_header rest m u b) sts mac uncovered behind h = (rest, cc, cc)
with_stanza-parsed st (no_header e) sts mac uncovered behind h = absurd (ground arith)

-- `s` is the text of these stanzas and of the line of the MAC, with `behind` behind it, and there were
-- `ns` stanzas before it.
abbrev pub HeaderRead : ℕ → List Stanza → Bytes → Bytes → Bytes → Bytes → Type 0
HeaderRead ns sts mac uncovered behind s =
    (t : Bytes) × HeaderText sts t
    × (s ≡ t ++ (codes "---" ++ uncovered))
    × (uncovered ≡ b' ' ∷ (unpadded mac ++ (b'\n' ∷ behind)))
    × AreBytes mac
    × (length mac ≡ 32)
    × (ns + length sts ≤ max_stanzas)

read_one_more :
    (ns : ℕ) (st : Stanza) (rest sts : List Stanza) (mac uncovered behind s a front left : Bytes)
    → s ≡ codes "-> " ++ front
    → StanzaText st a
    → front ≡ a ++ left
    → HeaderRead (ns + 1) rest mac uncovered behind left
    → st ∷ rest ≡ sts
    → HeaderRead ns sts mac uncovered behind s
read_one_more ns st rest sts mac uncovered behind s a front left arrow stanza is
      (t, texts, left_is, line, fine, size, few) all =
    let whole : s ≡ (codes "-> " ++ (a ++ t)) ++ (codes "---" ++ uncovered) =
      arrow
      ∙ ap (λ x. codes "-> " ++ x)
          (is ∙ ap (λ x. a ++ x) left_is ∙ sym (append_assoc a t (codes "---" ++ uncovered))) in
    subst (λ x. HeaderRead ns x mac uncovered behind s) all
      (
        codes "-> " ++ (a ++ t),
        (a, t, stanza, texts, refl),
        whole,
        line,
        fine,
        size,
        omega (arith, few),
      )

-- A header that is read: its stanzas as age writes them, at most 64 of them, then the line of the MAC.
pub read_header-text :
    (y : Crypto) (fuel ns : ℕ) (s : Bytes) (c : y.Ctx) (sts : List Stanza)
    (mac uncovered behind : Bytes)
    → ns ≤ max_stanzas
    → (read_header y fuel ns s c).0 ≡ parsed_header sts mac uncovered behind
    → HeaderRead ns sts mac uncovered behind s
unfolding read_header
read_header-text y zero ns s c sts mac uncovered behind few h = absurd (ground arith)
read_header-text y (suc fuel) ns s c sts mac uncovered behind few h =
    elim (Bool-cases (bytes_eq (take 3 s) (codes "---"))) [
      | inl dashes ↦
          let (none_left, is, line, fine, size) =
            mac_line-text s sts mac uncovered behind dashes (ground arith) in
          (
            [],
            subst (λ x. HeaderText x []) (sym none_left) refl,
            is,
            line,
            fine,
            size,
            rw none_left omega (arith, few),
          )
      | inr no_dashes ↦ elim (Bool-cases (bytes_eq (take 3 s) (codes "-> "))) [
        | inr no_arrow ↦ absurd (ground arith)
        | inl arrow ↦ elim (Bool-cases (ns == max_stanzas)) [
          | inl full ↦ absurd (ground arith)
          | inr room ↦
              let p = parse_stanza y (drop 3 s) c in
              elim (ParsedStanza-cases p.0) [
                | inl (inl bad) ↦ absurd (ground arith)
                | inl (inr memory) ↦ absurd (ground arith)
                | inr (st, left, is) ↦
                    let more = read_header y fuel (ns + 1) left p.1 in
                    let (rest, read, all) =
                      with_stanza-parsed st more.0 sts mac uncovered behind (ground arith) in
                    let (a, stanza, front) = parse_stanza-text y (drop 3 s) c st left is in
                    read_one_more ns st rest sts mac uncovered behind s a (drop 3 s) left
                      (take_is 3 s (codes "-> ") arrow) stanza front
                      (read_header-text y fuel (ns + 1) left p.1 rest mac uncovered behind
                        (ground arith) read)
                      all
              ]
        ]
      ]
    ]
