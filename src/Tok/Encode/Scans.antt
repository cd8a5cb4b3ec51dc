-- ===== src/Tok/Encode/Scans.antt =====
-- `tok_encode` of esp32-embedder/tok/tok.c against the tokens of a text.
use claude_chats.Prelude.{
  ℕ, zero, suc, ◌+◌, ◌-◌, ◌≤◌, ◌≡◌, refl, sym, ap, ◌∙◌, inl, inr, Bool, true, false, Bool-cases,
  Option, none, some, Option-cases, List, [], ◌∷◌, ◌++◌, append-nil, append_assoc, min, length,
  length-append, length-take, take, drop, take_all, take-append_front, ltb, ◌==◌, if◌then◌else◌,
  arith, Bytes,
}
use mathlib.Core.Path.{subst}
use claude_chats.Prelude.Int.{ℤ, pos}
use claude_chats.Tok.Unicode.{Tables}
use claude_chats.Tok.Vocab.{Vocab, tok_lookup, word_mark}
use claude_chats.Tok.Encode.{
  Enc, push, fragment, special, special_at, id_or_minus_one, scan, Encoded, bad_point, encoded,
  tok_encode, tok_cls, tok_sep,
}
use claude_chats.Tok.Encode.Spec.{text_words, fragment_ids, joined_ids, text_ids}
use claude_chats.Tok.Encode.View.{View, push-View}
use claude_chats.Tok.Encode.Refines.{Streamed, fragment-Streamed, bare_mark}

-- More tokens in the code as in the text's ids.
abbrev Shown : ℕ → List ℤ → Option (List ℤ) → Enc × Bool → Type 0
Shown cap l none r = r.1 ≡ false
Shown cap l (some ids) r = (r.1 ≡ true) × View cap word_mark (l ++ ids) r.0

fragment-Shown :
    (t : Tables) (v : Vocab) (cap : ℕ) (s : Bytes) (l : List ℤ) (e : Enc)
    → View cap word_mark l e
    → Shown cap l (fragment_ids t v s) (fragment t v (length s) s e)
fragment-Shown t v cap s l e h =
    let streamed = fragment-Streamed t v cap (length s) s word_mark l e bare_mark h in
    elim (Option-cases (text_words t (length s) s word_mark)) [
      | inl thrown ↦
          rw thrown (subst (λ o. Streamed v cap l o (fragment t v (length s) s e)) thrown streamed)
      | inr (ws, words) ↦
          rw words (subst (λ o. Streamed v cap l o (fragment t v (length s) s e)) words streamed)
    ]

Shown-joined_ids :
    (cap : ℕ) (l ids : List ℤ) (id : ℤ) (o : Option (List ℤ)) (r : Enc × Bool)
    → Shown cap ((l ++ ids) ++ (id ∷ [])) o r
    → Shown cap l (joined_ids (some ids) id o) r
Shown-joined_ids cap l ids id none r h = h
Shown-joined_ids cap l ids id (some more) r (fine, h) = (
  fine,
  subst (λ x. View cap word_mark x r.0)
      (append_assoc (l ++ ids) (id ∷ []) more ∙ append_assoc l ids (id ∷ more)) h,
)

scan-Shown :
    (t : Tables) (v : Vocab) (cap fuel : ℕ) (since s : Bytes) (l : List ℤ) (e : Enc)
    → View cap word_mark l e
    → Shown cap l (text_ids t v fuel since s) (scan t v fuel since s e)
unfolding scan text_ids
scan-Shown t v cap fuel since [] l e h = fragment-Shown t v cap since l e h
scan-Shown t v cap zero since (c ∷ s) l e h = fragment-Shown t v cap since l e h
scan-Shown t v cap (suc fuel) since (c ∷ s) l e h =
    elim (Option-cases (if c == b'[' then special_at special (c ∷ s) else none)) [
      | inl plain ↦ rw (text_ids, scan, plain) (scan-Shown t v cap fuel (since ++ (c ∷ [])) s l e h)
      | inr (p, found) ↦
          let id = id_or_minus_one (tok_lookup v p) in
          let shown = fragment-Shown t v cap since l e h in
          let after = drop (length p) (c ∷ s) in
          let r = fragment t v (length since) since e in
          elim (Option-cases (fragment_ids t v since)) [
            | inl thrown ↦
                let failed : r.1 ≡ false = subst (λ o. Shown cap l o r) thrown shown in
                rw (text_ids, scan, found, thrown, failed) refl
            | inr (ids, said) ↦
                let (fine, h1) : Shown cap l (some ids) r =
                  subst (λ o. Shown cap l o r) said shown in
                rw (text_ids, scan, found, said, fine)
                  (Shown-joined_ids cap l ids id (text_ids t v fuel [] after)
                    (scan t v fuel [] after (push r.0 id))
                    (scan-Shown t v cap fuel [] after ((l ++ ids) ++ (id ∷ [])) (push r.0 id)
                      (push-View cap word_mark (l ++ ids) r.0 id h1)))
          ]
    ]

-- The cells that are read are those of the tokens that fit.
written :
    (n c cap : ℕ) (cells l stale : List ℤ)
    → n ≡ length l
    → c ≡ cap
    → cells ≡ take cap l ++ stale
    → take (min n c) cells ≡ take cap l
written n c cap cells l stale n_is c_is cells_are =
    let kept = take cap l in
    let size : min n c ≡ length kept = rw (n_is, c_is, length-take cap l) omega arith in
    rw (size, cells_are)
      (take-append_front (length kept) kept stale (omega arith)
        ∙ take_all (length kept) kept (omega arith))

-- The result for all the tokens of a text.
abbrev pub encoding_of : ℕ → Option (List ℤ) → Encoded
encoding_of max_ids none = bad_point
encoding_of max_ids (some ids) =
    encoded (pos tok_cls ∷ (take (max_ids - 2) ids ++ (pos tok_sep ∷ []))) (length ids + 2)

encoding_of_scan :
    (max_ids : ℕ) (o : Option (List ℤ)) (r : Enc × Bool)
    → Shown (max_ids - 2) [] o r
    → (if r.1
        then encoded
            (pos tok_cls ∷ (take (min r.0.n r.0.cap) r.0.ids ++ (pos tok_sep ∷ [])))
            (r.0.n + 2)
        else bad_point)
      ≡ encoding_of max_ids o
encoding_of_scan max_ids none r failed = rw failed refl
encoding_of_scan max_ids (some ids) (e, fine) (yes_fine, h) =
    let cells = written e.n e.cap (max_ids - 2) e.ids ids h.stale h.n_is h.cap_is h.ids_are in
    let total : e.n + 2 ≡ length ids + 2 = ap (λ n. n + 2) h.n_is in
    rw yes_fine (
      ap (λ x. encoded (pos tok_cls ∷ (x ++ (pos tok_sep ∷ []))) (e.n + 2)) cells
      ∙ ap (λ n. encoded (pos tok_cls ∷ (take (max_ids - 2) ids ++ (pos tok_sep ∷ []))) n) total)

-- Where there is memory and room for two ids, `tok_encode` gives CLS, as many tokens of the text as fit
-- and SEP, with the number of all of them; or it refuses the text, where it has a code point that
-- cannot be encoded.
pub tok_encode_lem :
    (t : Tables) (v : Vocab) (text : Bytes) (max_ids : ℕ)
    → 2 ≤ max_ids
    → tok_encode t v true text max_ids ≡ encoding_of max_ids (text_ids t v (length text) [] text)
unfolding tok_encode
tok_encode_lem t v text max_ids room =
    let enough : ltb max_ids 2 ≡ false = ground arith in
    let start : Enc = record { ids = []; cap = max_ids - 2; n = 0; word = word_mark } in
    let empty : View (max_ids - 2) word_mark [] start = record {
      stale = [];
      ids_are = sym (append-nil (take (max_ids - 2) []) ∙ take_all (max_ids - 2) [] (omega arith));
      n_is = refl;
      cap_is = refl;
      word_is = refl;
    } in
    rw enough (
      encoding_of_scan max_ids (text_ids t v (length text) [] text)
        (scan t v (length text) [] text start)
        (scan-Shown t v (max_ids - 2) (length text) [] text [] start empty))

length-encoding_of :
    (max_ids : ℕ) (o : Option (List ℤ)) (ids : List ℤ) (total : ℕ)
    → 2 ≤ max_ids
    → encoding_of max_ids o ≡ encoded ids total
    → length ids ≡ min total max_ids
length-encoding_of max_ids none ids total room h = absurd (ground arith)
length-encoding_of max_ids (some all) ids total room h =
    let kept = take (max_ids - 2) all in
    let ids_are : ids ≡ pos tok_cls ∷ (kept ++ (pos tok_sep ∷ [])) = ground arith in
    let total_is : total ≡ length all + 2 = ground arith in
    rw (ids_are, total_is, length-append kept (pos tok_sep ∷ []), length-take (max_ids - 2) all)
      omega arith

-- The ids written are as many as the text has, or `max_ids` where it has more.
pub length-tok_encode :
    (t : Tables) (v : Vocab) (got_word : Bool) (text : Bytes) (max_ids : ℕ) (ids : List ℤ)
    (total : ℕ)
    → tok_encode t v got_word text max_ids ≡ encoded ids total
    → length ids ≡ min total max_ids
unfolding tok_encode
length-tok_encode t v false text max_ids ids total h = absurd (ground arith)
length-tok_encode t v true text max_ids ids total h = elim (Bool-cases (ltb max_ids 2)) [
  | inl short ↦ absurd (ground arith)
  | inr room ↦
      length-encoding_of max_ids (text_ids t v (length text) [] text) ids total (ground arith)
        (sym (tok_encode_lem t v text max_ids (ground arith)) ∙ h)
]
