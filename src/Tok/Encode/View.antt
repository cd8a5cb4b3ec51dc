-- ===== src/Tok/Encode/View.antt =====
-- The token buffer of esp32-embedder/tok/tok.c as the list of all tokens so far: the buffer holds as many
-- of them as fit, and stale cells behind.
use claude_chats.Prelude.{
  ℕ, zero, suc, ◌+◌, ◌≡◌, refl, sym, ap, ◌∙◌, inl, inr, Bool, true, false, Bool-cases, Option, none,
  some, Option-cases, List-cases, List, [], ◌∷◌, ◌++◌, append-nil, append_assoc, min, length,
  length-append, take, take-append, take_all, take-append_front, drop, ltb, ◌==◌, if◌then◌else◌,
  arith, Bytes,
}
use mathlib.Core.Path.{subst}
use claude_chats.Prelude.Int.{ℤ, pos}
use claude_chats.Tok.Vocab.{Vocab, word_mark}
use claude_chats.Tok.Encode.{Enc, store, push, longest, pieces, end_word, flush_word, tok_unk}
use claude_chats.Tok.Encode.Spec.{segment, in_front, or_unk, word_ids}

module _ {ℓ} {A : Type ℓ} where
  store-append : (xs ys : List A) (a : A) → store (length xs) a (xs ++ ys) ≡ xs ++ (a ∷ drop 1 ys)
  store-append [] ys a = refl
  store-append (x ∷ xs) ys a = ap (λ l. x ∷ l) (store-append xs ys a)

-- The tokens so far are `l`, and the word is `w`.
pub record View (cap : ℕ) (w : Bytes) (l : List ℤ) (e : Enc) : Type 0 where
  pub stale : List ℤ
  pub ids_are : e.ids ≡ take cap l ++ stale
  pub n_is : e.n ≡ length l
  pub cap_is : e.cap ≡ cap
  pub word_is : e.word ≡ w

pub push-View :
    (cap : ℕ) (w : Bytes) (l : List ℤ) (e : Enc) (id : ℤ)
    → View cap w l e
    → View cap w (l ++ (id ∷ [])) (push e id)
unfolding push
push-View cap w l e id h = elim (Bool-cases (ltb (length l) cap)) [
  | inl fits ↦ record {
    stale = drop 1 h.stale;
    ids_are =
        (let here : ltb e.n e.cap ≡ true = rw (h.n_is, h.cap_is) fits in
          let old : take cap l ≡ l = take_all cap l (ground arith) in
          let new : take cap (l ++ (id ∷ [])) ≡ l ++ (id ∷ []) =
            take_all cap (l ++ (id ∷ [])) (rw (length-append l (id ∷ [])) ground arith) in
          rw (here, h.n_is, h.ids_are, old, new, store-append l h.stale id)
            (sym (append_assoc l (id ∷ []) (drop 1 h.stale))));
    n_is = rw (length-append l (id ∷ []), h.n_is) refl;
    cap_is = h.cap_is;
    word_is = h.word_is;
  }
  | inr full ↦ record {
    stale = h.stale;
    ids_are =
        (let here : ltb e.n e.cap ≡ false = rw (h.n_is, h.cap_is) full in
          rw (here, take-append_front cap l (id ∷ []) (ground arith)) h.ids_are);
    n_is = rw (length-append l (id ∷ []), h.n_is) refl;
    cap_is = h.cap_is;
    word_is = h.word_is;
  }
]

-- Fewer tokens: the ones behind are stale.
pub View-back :
    (cap : ℕ) (w : Bytes) (l more : List ℤ) (e : Enc)
    → View cap w (l ++ more) e
    → View cap w l (record e { n = length l })
View-back cap w l more e h =
    let (rest, cut) = take-append cap l more in
    record {
      stale = rest ++ h.stale;
      ids_are = h.ids_are ∙ ap (λ x. x ++ h.stale) cut ∙ append_assoc (take cap l) rest h.stale;
      n_is = refl;
      cap_is = h.cap_is;
      word_is = h.word_is;
    }

-- After the pieces of a word: they are what `segment` says, or some of them stand there in vain.
abbrev Pieced : ℕ → Bytes → List ℤ → Option (List ℤ) → Enc × Bool → Type 0
Pieced cap w l none r = (r.1 ≡ false) × (extra : List ℤ) × View cap w (l ++ extra) r.0
Pieced cap w l (some ids) r = (r.1 ≡ true) × View cap w (l ++ ids) r.0

Pieced-in_front :
    (cap : ℕ) (w : Bytes) (l : List ℤ) (id : ℤ) (o : Option (List ℤ)) (r : Enc × Bool)
    → Pieced cap w (l ++ (id ∷ [])) o r
    → Pieced cap w l (in_front id o) r
Pieced-in_front cap w l id none r (e, extra, v) =
    (e, id ∷ extra, subst (λ x. View cap w x r.0) (append_assoc l (id ∷ []) extra) v)
Pieced-in_front cap w l id (some ids) r (e, v) =
    (e, subst (λ x. View cap w x r.0) (append_assoc l (id ∷ []) ids) v)

pieces-Pieced :
    (v : Vocab) (cap : ℕ) (w : Bytes) (fuel : ℕ) (s : Bytes) (l : List ℤ) (e : Enc)
    → View cap w l e
    → Pieced cap w l (segment v fuel s) (pieces v fuel s e)
unfolding pieces segment
pieces-Pieced v cap w fuel [] l e h = (refl, subst (λ x. View cap w x e) (sym (append-nil l)) h)
pieces-Pieced v cap w zero (c ∷ s) l e h =
    (refl, [], subst (λ x. View cap w x e) (sym (append-nil l)) h)
pieces-Pieced v cap w (suc fuel) (c ∷ s) l e h =
    elim (Option-cases (longest v (c ∷ s) (min (v.max_len + 1) (length (c ∷ s))))) [
      | inl missing ↦
          rw (pieces, segment, missing)
            (refl, [], subst (λ x. View cap w x e) (sym (append-nil l)) h)
      | inr ((k, id), found) ↦
          rw (pieces, segment, found)
            (Pieced-in_front cap w l (pos id) (segment v fuel (drop k (c ∷ s)))
              (pieces v fuel (drop k (c ∷ s)) (push e (pos id)))
              (pieces-Pieced v cap w fuel (drop k (c ∷ s)) (l ++ (pos id ∷ [])) (push e (pos id))
                (push-View cap w l e (pos id) h)))
    ]

View-marked :
    (cap : ℕ) (w : Bytes) (l : List ℤ) (e : Enc)
    → View cap w l e
    → View cap word_mark l (record e { word = word_mark })
View-marked cap w l e h = record {
  stale = h.stale;
  ids_are = h.ids_are;
  n_is = h.n_is;
  cap_is = h.cap_is;
  word_is = refl;
}

end_word-View :
    (cap : ℕ) (w : Bytes) (l : List ℤ) (o : Option (List ℤ)) (r : Enc × Bool)
    → Pieced cap w l o r
    → View cap word_mark (l ++ or_unk o) (end_word (length l) r)
unfolding end_word
end_word-View cap w l none (e, whole) (cut, extra, h) =
    let back = View-back cap w l extra e h in
    let same : (length l == length l) ≡ true = ground arith in
    rw (cut, same) (View-marked cap w _ _ (push-View cap w l _ (pos tok_unk) back))
end_word-View cap w l (some []) (e, whole) (all, h) =
    let h1 = subst (λ x. View cap w x e) (append-nil l) h in
    let same : (e.n == length l) ≡ true = (let n = h1.n_is in ground arith) in
    rw (all, same) (View-marked cap w _ _ (push-View cap w l e (pos tok_unk) h1))
end_word-View cap w l (some (id ∷ ids)) (e, whole) (all, h) =
    let longer = h.n_is ∙ length-append l (id ∷ ids) in
    let more : (e.n == length l) ≡ false = ground arith in rw (all, more) (View-marked cap w _ e h)

-- The mark is in front.
abbrev pub Marked : Bytes → Type 0
Marked w = (rest : Bytes) × (w ≡ word_mark ++ rest)

Marked-bare : (w : Bytes) → Marked w → length w ≡ 3 → w ≡ word_mark
Marked-bare w (rest, is) three = elim (List-cases rest) [
  | inl e ↦ rw (is, e) refl
  | inr (x, xs, e) ↦
      (let long : length w ≡ 4 + length xs = rw (is, e) omega arith in absurd (omega arith))
]

-- A word's end adds the tokens of the word.
pub flush_word-View :
    (v : Vocab) (cap : ℕ) (w : Bytes) (l : List ℤ) (e : Enc)
    → Marked w
    → View cap w l e
    → View cap word_mark (l ++ word_ids v w) (flush_word v e)
unfolding flush_word word_ids
flush_word-View v cap w l e marked h =
    let run : Bytes → ℕ → Enc =
      λ x n. if length x == 3 then e else end_word n (pieces v (length x) x e) in
    let goal : List ℤ → Enc → Type 0 = λ ids r. View cap word_mark (l ++ ids) r in
    subst (λ x. goal (word_ids v w) (run x e.n)) (sym h.word_is)
      (subst (λ n. goal (word_ids v w) (run w n)) (sym h.n_is)
        (elim (Bool-cases (length w == 3)) [
          | inl bare ↦ rw bare (
              subst (λ x. View cap x (l ++ []) e) (Marked-bare w marked (ground arith))
                (subst (λ x. View cap w x e) (sym (append-nil l)) h))
          | inr full ↦ rw full (
              end_word-View cap w l (segment v (length w) w) (pieces v (length w) w e)
                (pieces-Pieced v cap w (length w) w l e h))
        ]))
