-- ===== src/Age/Header/Text.antt =====
-- The texts that the header's reading in esp32-embedder/worker/age.c takes.
use claude_chats.Prelude.{
  ℕ, zero, suc, ◌≤◌, ◌<◌, ◌≡◌, refl, sym, ap, ◌∙◌, inl, inr, true, Bool-cases, some, Option-cases,
  List, [], ◌∷◌, ◌++◌, append_assoc, length, ltb, arith, All, Bytes, codes, split_at, split_at_lem,
}
use mathlib.Core.Path.{subst}
use claude_chats.Kw.Base64.Groups.{AreBytes, unpadded}
use claude_chats.Age.Header.{cols, Stanza, is_word, stanza_words, body_lines}

abbrev pub words_text : List Bytes → Bytes
words_text [] = []
words_text (w ∷ []) = w
words_text (w ∷ v ∷ ws) = w ++ (b' ' ∷ words_text (v ∷ ws))

abbrev pub lines_text : List Bytes → Bytes
lines_text [] = []
lines_text (l ∷ ls) = l ++ (b'\n' ∷ lines_text ls)

abbrev pub all_lines : List Bytes → Bytes
all_lines [] = []
all_lines (l ∷ ls) = l ++ all_lines ls

-- The words that a line is read as: not empty, of visible characters, with one space between each.
abbrev pub AreWords : List Bytes → Type 0
AreWords ws = All (λ w. is_word w ≡ true) ws

-- A body on lines: full ones of 64 characters, then one that is shorter.
abbrev pub BodyText : Bytes → Bytes → Type 0
BodyText chars t =
    (ls : List Bytes) × (last : Bytes) × All (λ l. length l ≡ cols) ls
    × (length last < cols)
    × (chars ≡ all_lines ls ++ last)
    × (t ≡ lines_text ls ++ (last ++ (b'\n' ∷ [])))

-- A stanza as age writes it, behind its arrow.
abbrev pub StanzaText : Stanza → Bytes → Type 0
StanzaText st t =
    (b : Bytes) × BodyText (unpadded st.body) b
    × AreBytes st.body
    × AreWords (st.kind ∷ st.args)
    × (t ≡ words_text (st.kind ∷ st.args) ++ (b'\n' ∷ b))

abbrev pub HeaderText : List Stanza → Bytes → Type 0
HeaderText [] t = t ≡ []
HeaderText (st ∷ sts) t =
    (a : Bytes) × (b : Bytes) × StanzaText st a × HeaderText sts b × (t ≡ codes "-> " ++ (a ++ b))

pub stanza_words-text :
    (fuel : ℕ) (line : Bytes) (ws : List Bytes)
    → stanza_words fuel line ≡ some ws
    → (line ≡ words_text ws) × AreWords ws × (1 ≤ length ws)
unfolding stanza_words
stanza_words-text zero line ws h = absurd (ground arith)
stanza_words-text (suc fuel) line ws h = elim (Option-cases (split_at b' ' line)) [
  | inl one ↦
      let word : is_word line ≡ true = ground arith in
      let all : line ∷ [] ≡ ws = ground arith in
      subst (λ x. (line ≡ words_text x) × AreWords x × (1 ≤ length x)) all
        (refl, (word, tt), omega arith)
  | inr ((w, rest), found) ↦ elim (Option-cases (stanza_words fuel rest)) [
    | inl gone ↦ absurd (ground arith)
    | inr (more, is) ↦
        add_word line w rest ws more (split_at_lem b' ' line w rest found)
          (stanza_words-text fuel rest more is) (ground arith) (ground arith)
  ]
]
  where
    add_word :
        (line w rest : Bytes) (ws more : List Bytes)
        → line ≡ w ++ (b' ' ∷ rest)
        → (rest ≡ words_text more) × AreWords more × (1 ≤ length more)
        → is_word w ≡ true
        → w ∷ more ≡ ws
        → (line ≡ words_text ws) × AreWords ws × (1 ≤ length ws)
    add_word line w rest ws [] is (text, fine, some_more) word all = absurd (omega arith)
    add_word line w rest ws (v ∷ more) is (text, fine, some_more) word all =
        subst (λ x. (line ≡ words_text x) × AreWords x × (1 ≤ length x)) all
          (is ∙ ap (λ x. w ++ (b' ' ∷ x)) text, (word, fine), omega arith)

pub body_lines-text :
    (fuel : ℕ) (s chars behind : Bytes)
    → body_lines fuel s ≡ some (chars, behind)
    → (t : Bytes) × BodyText chars t × (s ≡ t ++ behind)
unfolding body_lines
body_lines-text zero s chars behind h = absurd (ground arith)
body_lines-text (suc fuel) s chars behind h = elim (Option-cases (split_at b'\n' s)) [
  | inl gone ↦ absurd (ground arith)
  | inr ((line, rest), found) ↦ elim (Bool-cases (ltb cols (length line))) [
    | inl long ↦ absurd (ground arith)
    | inr fits ↦ elim (Bool-cases (ltb (length line) cols)) [
      | inl short ↦
          let same : line ≡ chars = ground arith in
          let left : rest ≡ behind = ground arith in
          let is : s ≡ line ++ (b'\n' ∷ rest) = split_at_lem b'\n' s line rest found in
          (
            line ++ (b'\n' ∷ []),
            ([], line, tt, ground arith, sym same, refl),
            is ∙ ap (λ x. line ++ (b'\n' ∷ x)) left ∙ sym (append_assoc line (b'\n' ∷ []) behind),
          )
      | inr full ↦ elim (Option-cases (body_lines fuel rest)) [
        | inl bad ↦ absurd (ground arith)
        | inr ((chars', behind'), is) ↦
            let (t, (ls, last, whole, part, text, lines), behind_is) =
              body_lines-text fuel rest chars' behind' is in
            let same : line ++ chars' ≡ chars = ground arith in
            let left : behind' ≡ behind = ground arith in
            (
              line ++ (b'\n' ∷ t),
              (
                line ∷ ls,
                last,
                (ground arith, whole),
                part,
                sym same ∙ ap (λ x. line ++ x) text ∙ sym (append_assoc line (all_lines ls) last),
                ap (λ x. line ++ (b'\n' ∷ x)) lines
                    ∙ sym (append_assoc line (b'\n' ∷ lines_text ls) (last ++ (b'\n' ∷ []))),
              ),
              split_at_lem b'\n' s line rest found
                  ∙ ap (λ x. line ++ (b'\n' ∷ x)) (behind_is ∙ ap (λ x. t ++ x) left)
                  ∙ sym (append_assoc line (b'\n' ∷ t) behind),
            )
      ]
    ]
  ]
]
