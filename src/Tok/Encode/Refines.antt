-- ===== src/Tok/Encode/Refines.antt =====
-- `fragment` of esp32-embedder/tok/tok.c against the words of a text.
use claude_chats.Prelude.{
  ℕ, zero, suc, ◌≡◌, refl, sym, ap, ◌∙◌, inl, inr, Bool, true, false, Bool-cases, Option, none,
  some, Option-cases, List, [], ◌∷◌, ◌++◌, append-nil, append_assoc, ltb, ◌==◌, Bytes,
}
use mathlib.Core.Path.{subst}
use claude_chats.Prelude.Int.{ℤ}
use claude_chats.Tok.Unicode.{
  Tables, class_ws, class_drop, class_split, cpt_class, cpt_nfd, cpt_lower, utf8_next, utf8_put,
}
use claude_chats.Tok.Vocab.{Vocab, word_mark}
use claude_chats.Tok.Encode.{Enc, flush_word, put_in_word, take_point, fragment}
use claude_chats.Tok.Encode.Spec.{word_ids, words_ids, point_words, after_words, text_words}
use claude_chats.Tok.Encode.View.{View, Marked, flush_word-View}

words_ids-append :
    (v : Vocab) (xs ys : List Bytes) → words_ids v (xs ++ ys) ≡ words_ids v xs ++ words_ids v ys
unfolding words_ids
words_ids-append v [] ys = refl
words_ids-append v (x ∷ xs) ys =
    ap (λ l. word_ids v x ++ l) (words_ids-append v xs ys)
    ∙ sym (append_assoc (word_ids v x) (words_ids v xs) (words_ids v ys))

words_ids-one : (v : Vocab) (w : Bytes) → words_ids v (w ∷ []) ≡ word_ids v w
unfolding words_ids
words_ids-one v w = append-nil (word_ids v w)

pub bare_mark : Marked word_mark
bare_mark = ([], refl)

put_in_word-View :
    (cap : ℕ) (w : Bytes) (l : List ℤ) (e : Enc) (cp : ℕ)
    → View cap w l e
    → View cap (w ++ utf8_put cp) l (put_in_word cp e)
put_in_word-View cap w l e cp h = record {
  stale = h.stale;
  ids_are = h.ids_are;
  n_is = h.n_is;
  cap_is = h.cap_is;
  word_is = ap (λ x. x ++ utf8_put cp) h.word_is;
}

put-Marked : (w : Bytes) (more : Bytes) → Marked w → Marked (w ++ more)
put-Marked w more (rest, is) = (rest ++ more, ap (λ x. x ++ more) is)

split_point-View :
    (v : Vocab) (cap : ℕ) (w : Bytes) (l : List ℤ) (e : Enc) (low : ℕ)
    → Marked w
    → View cap w l e
    → View cap word_mark
        (l ++ words_ids v (w ∷ (word_mark ++ utf8_put low) ∷ []))
        (flush_word v (put_in_word low (flush_word v e)))
unfolding words_ids
split_point-View v cap w l e low m h =
    let w2 = word_mark ++ utf8_put low in
    let ended = flush_word-View v cap w l e m h in
    let put = put_in_word-View cap word_mark (l ++ word_ids v w) (flush_word v e) low ended in
    let both =
      flush_word-View v cap w2 (l ++ word_ids v w) (put_in_word low (flush_word v e))
        (utf8_put low, refl) put in
    subst (λ x. View cap word_mark x (flush_word v (put_in_word low (flush_word v e))))
      (append_assoc l (word_ids v w) (word_ids v w2)
        ∙ ap (λ x. l ++ (word_ids v w ++ x)) (sym (append-nil (word_ids v w2))))
      both

-- A code point in the code as in the words: it ends those words, and leaves that one.
abbrev Taken : Vocab → ℕ → List ℤ → Option (List Bytes × Bytes) → Option Enc → Type 0
Taken v cap l none none = Unit
Taken v cap l none (some e) = ⊥
Taken v cap l (some r) none = ⊥
Taken v cap l (some (ws, w)) (some e) = View cap w (l ++ words_ids v ws) e × Marked w

take_point-Taken :
    (t : Tables) (v : Vocab) (cap : ℕ) (w : Bytes) (l : List ℤ) (e : Enc) (cp : ℕ)
    → Marked w
    → View cap w l e
    → Taken v cap l (point_words t cp w) (take_point t v cp e)
unfolding take_point words_ids
take_point-Taken t v cap w l e cp m h =
    let low = cpt_lower t cp in
    elim (Bool-cases (cpt_class t cp == class_ws)) [
      | inl ws ↦
          rw (take_point, ws)
            (
              subst (λ x. View cap word_mark (l ++ x) (flush_word v e)) (sym (words_ids-one v w))
                  (flush_word-View v cap w l e m h),
              bare_mark,
            )
      | inr n1 ↦ elim (Bool-cases (cpt_class t cp == class_drop)) [
        | inl dropped ↦
            rw (take_point, n1, dropped) (subst (λ x. View cap w x e) (sym (append-nil l)) h, m)
        | inr n2 ↦ elim (Bool-cases (ltb 0x10FFFF low)) [
          | inl thrown ↦ rw (take_point, n1, n2, thrown) tt
          | inr n3 ↦ elim (Bool-cases (cpt_class t cp == class_split)) [
            | inl split ↦
                rw (take_point, n1, n2, n3, split) (split_point-View v cap w l e low m h, bare_mark)
            | inr kept ↦
                rw (take_point, n1, n2, n3, kept)
                  (
                    subst (λ x. View cap (w ++ utf8_put low) x (put_in_word low e))
                        (sym (append-nil l)) (put_in_word-View cap w l e low h),
                    put-Marked w (utf8_put low) m,
                  )
          ]
        ]
      ]
    ]

-- A text's end in the code as in the words.
abbrev pub Streamed : Vocab → ℕ → List ℤ → Option (List Bytes) → Enc × Bool → Type 0
Streamed v cap l none r = r.1 ≡ false
Streamed v cap l (some ws) r = (r.1 ≡ true) × View cap word_mark (l ++ words_ids v ws) r.0

Streamed-after_words :
    (v : Vocab) (cap : ℕ) (l : List ℤ) (ws : List Bytes) (o : Option (List Bytes)) (r : Enc × Bool)
    → Streamed v cap (l ++ words_ids v ws) o r
    → Streamed v cap l (after_words ws o) r
Streamed-after_words v cap l ws none r h = h
Streamed-after_words v cap l ws (some more) r (fine, h) = (
  fine,
  subst (λ x. View cap word_mark x r.0)
      (append_assoc l (words_ids v ws) (words_ids v more)
        ∙ ap (λ x. l ++ x) (sym (words_ids-append v ws more)))
      h,
)

last_word :
    (v : Vocab) (cap : ℕ) (w : Bytes) (l : List ℤ) (e : Enc)
    → Marked w
    → View cap w l e
    → Streamed v cap l (some (w ∷ [])) (flush_word v e, true)
last_word v cap w l e m h = (
  refl,
  subst (λ x. View cap word_mark (l ++ x) (flush_word v e)) (sym (words_ids-one v w))
      (flush_word-View v cap w l e m h),
)

Taken-at :
    (v : Vocab) (cap : ℕ) (l : List ℤ) (p p' : Option (List Bytes × Bytes)) (q q' : Option Enc)
    → p ≡ p'
    → q ≡ q'
    → Taken v cap l p q
    → Taken v cap l p' q'
Taken-at v cap l p p' q q' pe qe h =
    subst (λ x. Taken v cap l p' x) qe (subst (λ x. Taken v cap l x q) pe h)

pub fragment-Streamed :
    (t : Tables) (v : Vocab) (cap fuel : ℕ) (s w : Bytes) (l : List ℤ) (e : Enc)
    → Marked w
    → View cap w l e
    → Streamed v cap l (text_words t fuel s w) (fragment t v fuel s e)
unfolding fragment text_words
fragment-Streamed t v cap fuel [] w l e m h = last_word v cap w l e m h
fragment-Streamed t v cap zero (c ∷ s) w l e m h = last_word v cap w l e m h
fragment-Streamed t v cap (suc fuel) (c ∷ s) w l e m h = elim (Option-cases (utf8_next (c ∷ s))) [
  | inl ended ↦ rw (text_words, fragment, ended) (last_word v cap w l e m h)
  | inr ((raw, rest), found) ↦
      let cp = cpt_nfd t raw in
      let taken = take_point-Taken t v cap w l e cp m h in
      elim (Option-cases (point_words t cp w)) [
        | inl p_none ↦ elim (Option-cases (take_point t v cp e)) [
          | inl q_none ↦ rw (text_words, fragment, found, p_none, q_none) refl
          | inr (e1, q_some) ↦ absurd (Taken-at v cap l _ _ _ _ p_none q_some taken)
        ]
        | inr ((ws, w1), p_some) ↦ elim (Option-cases (take_point t v cp e)) [
          | inl q_none ↦ absurd (Taken-at v cap l _ _ _ _ p_some q_none taken)
          | inr (e1, q_some) ↦
              let (h1, m1) = Taken-at v cap l _ _ _ _ p_some q_some taken in
              rw (text_words, fragment, found, p_some, q_some)
                (Streamed-after_words v cap l ws (text_words t fuel rest w1)
                  (fragment t v fuel rest e1)
                  (fragment-Streamed t v cap fuel rest w1 (l ++ words_ids v ws) e1 m1 h1))
        ]
      ]
]
