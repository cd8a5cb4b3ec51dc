-- ===== src/Tok/Encode/Longest.antt =====
-- The pieces of a word in esp32-embedder/tok/tok.c: each the longest string of the vocabulary there.
use claude_chats.Prelude.{
  ℕ, zero, suc, ◌+◌, ◌≤◌, ◌<◌, ◌≡◌, ◌↔◌, refl, sym, ap, ◌∙◌, inl, inr, Bool-cases, true, false, ◌⊎◌,
  none, some, Option-cases, List, [], ◌∷◌, min, length, length-drop, take, drop, ◌==◌, arith, Bytes,
}
use claude_chats.Prelude.Int.{ℤ, pos}
use claude_chats.Tok.Vocab.{Vocab, tok_lookup}
use claude_chats.Tok.Encode.{Enc, push, longest, pieces}
use claude_chats.Tok.Encode.Spec.{segment}

-- The longest a piece can be.
abbrev pub reach : Vocab → Bytes → ℕ
reach v s = min (v.max_len + 1) (length s)

-- The first `k` bytes are the longest string of the vocabulary, of those of at most `j` bytes.
abbrev IsLongest : Vocab → Bytes → ℕ → ℕ → ℕ → Type 0
IsLongest v s j k id =
    (0 < k)
    × (k ≤ j)
    × (tok_lookup v (take k s) ≡ some id)
    × ((i : ℕ) → k < i → i ≤ j → tok_lookup v (take i s) ≡ none)

-- The pieces that cover a text.
pub data Greedy (v : Vocab) : Bytes → List ℤ → Type 0 where
  done : Greedy v [] []
  piece :
      {s : Bytes} {ids : List ℤ} (k id : ℕ)
      → IsLongest v s (reach v s) k id
      → Greedy v (drop k s) ids
      → Greedy v s (pos id ∷ ids)

longest-IsLongest :
    (v : Vocab) (s : Bytes) (j k id : ℕ) → longest v s j ≡ some (k, id) → IsLongest v s j k id
unfolding longest
longest-IsLongest v s zero k id h = absurd (ground arith)
longest-IsLongest v s (suc j) k id h = elim (Option-cases (tok_lookup v (take (suc j) s))) [
  | inl missing ↦
      let (some_byte, fits, is, longer) = longest-IsLongest v s j k id (ground arith) in
      (
        some_byte,
        omega arith,
        is,
        λ i above below. elim (Bool-cases (i == suc j)) [
          | inl top ↦ (let e : i ≡ suc j = ground arith in rw e missing)
          | inr lower ↦ longer i above (ground arith)
        ],
      )
  | inr (id', found) ↦
      let k_is : k ≡ suc j = ground arith in
      let id_is : id' ≡ id = ground arith in
      (
        omega arith,
        omega arith,
        ap (λ i. tok_lookup v (take i s)) k_is ∙ found ∙ ap some id_is,
        λ i above below. absurd (omega arith),
      )
]

IsLongest-longest :
    (v : Vocab) (s : Bytes) (j k id : ℕ) → IsLongest v s j k id → longest v s j ≡ some (k, id)
unfolding longest
IsLongest-longest v s zero k id (some_byte, fits, is, longer) = absurd (omega arith)
IsLongest-longest v s (suc j) k id (some_byte, fits, is, longer) = elim (Bool-cases (k == suc j)) [
  | inl top ↦
      let k_is : k ≡ suc j = ground arith in
      rw (longest, ap (λ i. tok_lookup v (take i s)) (sym k_is) ∙ is)
        (ap (λ i. some (i, id)) (sym k_is))
  | inr lower ↦
      rw (longest, longer (suc j) (ground arith) (omega arith))
        (IsLongest-longest v s j k id
          (some_byte, ground arith, is, λ i above below. longer i above (omega arith)))
]

segment-Greedy :
    (v : Vocab) (fuel : ℕ) (s : Bytes) (ids : List ℤ) → segment v fuel s ≡ some ids → Greedy v s ids
unfolding segment
segment-Greedy v fuel [] ids h = (let e : ids ≡ [] = ground arith in rw e done)
segment-Greedy v zero (c ∷ s) ids h = absurd (ground arith)
segment-Greedy v (suc fuel) (c ∷ s) ids h =
    elim (Option-cases (longest v (c ∷ s) (reach v (c ∷ s)))) [
      | inl missing ↦ absurd (ground arith)
      | inr ((k, id), found) ↦ elim (Option-cases (segment v fuel (drop k (c ∷ s)))) [
        | inl missing ↦ absurd (ground arith)
        | inr (more, rest) ↦
            let e : ids ≡ pos id ∷ more = ground arith in
            rw e (
              piece k id (longest-IsLongest v (c ∷ s) (reach v (c ∷ s)) k id found)
                (segment-Greedy v fuel (drop k (c ∷ s)) more rest))
      ]
    ]

Greedy-segment :
    (v : Vocab) (s : Bytes) (ids : List ℤ) (fuel : ℕ)
    → Greedy v s ids
    → length s ≤ fuel
    → segment v fuel s ≡ some ids
unfolding segment
Greedy-segment v [] [] fuel done enough = refl
Greedy-segment v [] (_ ∷ ids) fuel (piece k id (some_byte, fits, is, longer) g) enough =
    absurd (omega arith)
Greedy-segment v (c ∷ s) [] fuel g enough = elim g [ ]
Greedy-segment v (c ∷ s) (_ ∷ ids) zero (piece k id l g) enough = absurd (omega arith)
Greedy-segment v (c ∷ s) (_ ∷ ids) (suc fuel) (piece k id l g) enough =
    let some_byte = l.0 in
    let shorter : length (drop k (c ∷ s)) ≤ fuel = rw (length-drop k (c ∷ s)) omega arith in
    rw
      (
        segment,
        IsLongest-longest v (c ∷ s) (reach v (c ∷ s)) k id l,
        Greedy-segment v (drop k (c ∷ s)) ids fuel g shorter,
      )
      refl

-- The ids pushed one after the other.
abbrev pub push_all : List ℤ → Enc → Enc
push_all [] e = e
push_all (id ∷ ids) e = push_all ids (push e id)

pieces-segment :
    (v : Vocab) (fuel : ℕ) (s : Bytes) (e : Enc) (ids : List ℤ)
    → segment v fuel s ≡ some ids
    → pieces v fuel s e ≡ (push_all ids e, true)
unfolding pieces segment
pieces-segment v fuel [] e ids h = (let is : ids ≡ [] = ground arith in rw is refl)
pieces-segment v zero (c ∷ s) e ids h = absurd (ground arith)
pieces-segment v (suc fuel) (c ∷ s) e ids h =
    elim (Option-cases (longest v (c ∷ s) (reach v (c ∷ s)))) [
      | inl missing ↦ absurd (ground arith)
      | inr ((k, id), found) ↦ elim (Option-cases (segment v fuel (drop k (c ∷ s)))) [
        | inl missing ↦ absurd (ground arith)
        | inr (more, rest) ↦
            let is : ids ≡ pos id ∷ more = ground arith in
            rw is (
              rw (pieces, found)
                (pieces-segment v fuel (drop k (c ∷ s)) (push e (pos id)) more rest))
      ]
    ]

whole-segment :
    (v : Vocab) (fuel : ℕ) (s : Bytes) (e : Enc)
    → (pieces v fuel s e).1 ≡ true
    → (ids : List ℤ) × (segment v fuel s ≡ some ids)
unfolding pieces segment
whole-segment v fuel [] e h = ([], refl)
whole-segment v zero (c ∷ s) e h = absurd (ground arith)
whole-segment v (suc fuel) (c ∷ s) e h = elim (Option-cases (longest v (c ∷ s) (reach v (c ∷ s)))) [
  | inl missing ↦ absurd (cc (rw (missing, pieces) at h))
  | inr ((k, id), found) ↦
      let (more, rest) =
        whole-segment v fuel (drop k (c ∷ s)) (push e (pos id)) (rw (found, pieces) at h) in
      (pos id ∷ more, rw (found, segment) (rw (rest, segment) refl))
]

covered :
    (v : Vocab) (s : Bytes) (e : Enc) (ids : List ℤ)
    → Greedy v s ids
    → pieces v (length s) s e ≡ (push_all ids e, true)
covered v s e ids g =
    pieces-segment v (length s) s e ids (Greedy-segment v s ids (length s) g (omega arith))

cut :
    (v : Vocab) (s : Bytes) (e : Enc)
    → (pieces v (length s) s e).1 ≡ true
    → (ids : List ℤ) × Greedy v s ids
cut v s e whole =
    let (ids, is) = whole-segment v (length s) s e whole in
    (ids, segment-Greedy v (length s) s ids is)

-- The code covers a word exactly when there are pieces that cover it from its front, each the longest that
-- tok_lookup finds where it stands, of those of at most max_len + 1 bytes; and where it covers the word, it
-- pushes the ids of those pieces, in order, and nothing else.
pub pieces_lem :
    (v : Vocab) (s : Bytes) (e : Enc)
    → (((pieces v (length s) s e).1 ≡ true) ↔ ((ids : List ℤ) × Greedy v s ids))
      × (((pieces v (length s) s e).1 ≡ false)
          ⊎ ((ids : List ℤ) × Greedy v s ids × (pieces v (length s) s e ≡ (push_all ids e, true))))
pieces_lem v s e = (
  (cut v s e, λ (ids, g). ap (λ x. x.1) (covered v s e ids g)),
  elim (Bool-cases (pieces v (length s) s e).1) [
    | inr part ↦ inl part
    | inl whole ↦ (let (ids, g) = cut v s e whole in inr (ids, g, covered v s e ids g))
  ],
)
