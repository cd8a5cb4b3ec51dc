-- ===== src/Age/Header/Lines.antt =====
-- The words and lines of a stanza, as age writes them, are read by esp32-embedder/worker/age.c.
use claude_chats.Prelude.{
  ℕ, zero, suc, ◌+◌, ◌*◌, ◌/◌, ◌%◌, ◌≤◌, ◌<◌, ◌≡◌, ◌≢◌, refl, inl, inr, true, false, Bool-cases,
  some, List, [], ◌∷◌, ◌++◌, append_assoc, length, length-append, ltb, ◌==◌, ==_iff, arith, All,
  All-append, All-front, All-back, Bytes, Lacks, split_at-append, split_at-none,
}
use mathlib.Core.Path.{subst}
use claude_chats.Kw.Base64.{b64_char, b64_val}
use claude_chats.Kw.Base64.Groups.{AreBytes, unpadded}
use claude_chats.Kw.Base64.Digits.{b64_val-b64_char}
use claude_chats.Age.Header.{cols, vchar, all_vchars, no_bytes, is_word, stanza_words, body_lines}
use claude_chats.Age.Header.Text.{words_text, lines_text, all_lines, AreWords}

vchars-Lacks : (c : ℕ) (w : Bytes) → c < 0x21 → all_vchars w ≡ true → Lacks c w
unfolding all_vchars vchar
vchars-Lacks c [] low h = tt
vchars-Lacks c (x ∷ w) low h = (ground arith, vchars-Lacks c w low (ground arith))

word-Lacks : (c : ℕ) (w : Bytes) → c < 0x21 → is_word w ≡ true → Lacks c w
word-Lacks c w low h = vchars-Lacks c w low (ground arith)

no_newline : (v : ℕ) → b64_val b'\n' ≢ some v
unfolding b64_val
no_newline v h = cc

newline_is_no_char : (v : ℕ) → v < 64 → (b64_char v == b'\n') ≡ false
newline_is_no_char v h = elim (Bool-cases (b64_char v == b'\n')) [
  | inl is ↦
      let same : b64_char v ≡ b'\n' = (==_iff (b64_char v) b'\n').0 is in
      absurd (no_newline v (subst (λ x. b64_val x ≡ some v) same (b64_val-b64_char v h)))
  | inr is ↦ is
]

pub unpadded-Lacks : (d : Bytes) → AreBytes d → Lacks b'\n' (unpadded d)
unfolding unpadded
unpadded-Lacks [] h = tt
unpadded-Lacks (a ∷ []) (ha, _) =
    (newline_is_no_char (a / 4) (omega arith), (newline_is_no_char (a % 4 * 16) (omega arith), tt))
unpadded-Lacks (a ∷ b ∷ []) (ha, (hb, _)) = (
  newline_is_no_char (a / 4) (omega arith),
  (
    newline_is_no_char (a % 4 * 16 + b / 16) (omega arith),
    (newline_is_no_char (b % 16 * 4) (omega arith), tt),
  ),
)
unpadded-Lacks (a ∷ b ∷ c ∷ more) (ha, (hb, (hc, h))) = (
  newline_is_no_char (a / 4) (omega arith),
  (
    newline_is_no_char (a % 4 * 16 + b / 16) (omega arith),
    (
      newline_is_no_char (b % 16 * 4 + c / 64) (omega arith),
      (newline_is_no_char (c % 64) (omega arith), unpadded-Lacks more h),
    ),
  ),
)

pub words_text-Lacks : (ws : List Bytes) → AreWords ws → Lacks b'\n' (words_text ws)
words_text-Lacks [] h = tt
words_text-Lacks (w ∷ []) (word, _) = word-Lacks b'\n' w (omega arith) word
words_text-Lacks (w ∷ v ∷ ws) (word, h) =
    All-append (λ x. (x == b'\n') ≡ false) w (b' ' ∷ words_text (v ∷ ws))
      (word-Lacks b'\n' w (omega arith) word) (refl, words_text-Lacks (v ∷ ws) h)

pub length-words_text : (ws : List Bytes) → AreWords ws → length ws ≤ length (words_text ws)
length-words_text [] h = omega arith
length-words_text ([] ∷ ws) (word, h) = absurd (ground arith)
length-words_text ((c ∷ w) ∷ []) h = omega arith
length-words_text ((c ∷ w) ∷ v ∷ ws) (word, h) =
    omega (arith, length-append w (b' ' ∷ words_text (v ∷ ws)), length-words_text (v ∷ ws) h)

more_words :
    (v : Bytes) (ws : List Bytes) → AreWords (v ∷ ws) → no_bytes (words_text (v ∷ ws)) ≡ false
more_words [] ws (word, h) = absurd (ground arith)
more_words (c ∷ v) [] h = refl
more_words (c ∷ v) (u ∷ ws) h = refl

pub stanza_words-words_text :
    (fuel : ℕ) (w : Bytes) (ws : List Bytes)
    → AreWords (w ∷ ws)
    → length (w ∷ ws) ≤ fuel
    → stanza_words fuel (words_text (w ∷ ws)) ≡ some (w ∷ ws)
unfolding stanza_words
stanza_words-words_text zero w ws h enough = absurd (omega arith)
stanza_words-words_text (suc fuel) w [] (word, h) enough =
    rw (split_at-none b' ' w (word-Lacks b' ' w (omega arith) word), stanza_words) (ground arith)
stanza_words-words_text (suc fuel) w (v ∷ ws) (word, h) enough =
    rw
      (
        split_at-append b' ' w (words_text (v ∷ ws)) (word-Lacks b' ' w (omega arith) word),
        stanza_words,
      )
      (ground (arith, more_words v ws h, stanza_words-words_text fuel v ws h (omega arith)))

pub body_lines-lines_text :
    (fuel : ℕ) (ls : List Bytes) (last behind : Bytes)
    → All (λ l. length l ≡ cols) ls
    → length last < cols
    → Lacks b'\n' (all_lines ls ++ last)
    → length ls < fuel
    → body_lines fuel (lines_text ls ++ (last ++ (b'\n' ∷ behind)))
      ≡ some (all_lines ls ++ last, behind)
unfolding body_lines
body_lines-lines_text zero ls last behind full short lacks enough = absurd (omega arith)
body_lines-lines_text (suc fuel) [] last behind full short lacks enough =
    let fits : ltb cols (length last) ≡ false = ground arith in
    let less : ltb (length last) cols ≡ true = ground arith in
    rw (split_at-append b'\n' last behind lacks, body_lines) (rw (fits, less) refl)
body_lines-lines_text (suc fuel) (l ∷ ls) last behind (whole, full) short lacks enough =
    let lacks' : Lacks b'\n' (l ++ (all_lines ls ++ last)) =
      subst (λ x. Lacks b'\n' x) (append_assoc l (all_lines ls) last) lacks in
    let rest = lines_text ls ++ (last ++ (b'\n' ∷ behind)) in
    let front =
      split_at-append b'\n' l rest
        (All-front (λ x. (x == b'\n') ≡ false) l (all_lines ls ++ last) lacks') in
    let more =
      body_lines-lines_text fuel ls last behind full short
        (All-back (λ x. (x == b'\n') ≡ false) l (all_lines ls ++ last) lacks') (omega arith) in
    let fits : ltb cols (length l) ≡ false = ground arith in
    let less : ltb (length l) cols ≡ false = ground arith in
    rw
      (
        append_assoc l (b'\n' ∷ lines_text ls) (last ++ (b'\n' ∷ behind)),
        append_assoc l (all_lines ls) last,
      )
      (rw (front, body_lines) (rw (fits, less, more) refl))

pub length-lines_text : (ls : List Bytes) → length ls ≤ length (lines_text ls)
length-lines_text [] = omega arith
length-lines_text (l ∷ ls) =
    omega (arith, length-append l (b'\n' ∷ lines_text ls), length-lines_text ls)
