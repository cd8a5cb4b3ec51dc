-- ===== src/Prep/Truncate.antt =====
-- `prep_truncate` of esp32-embedder/worker/prep.c: the characters of a text and where it is cut.
use claude_chats.Prelude.{
  ℕ, zero, suc, ◌+◌, ◌≤◌, ◌≡◌, false, [], ◌∷◌, arith, length, take, ltb, ◌==◌, if◌then◌else◌, min,
  Bytes, Bool-cases, inl, inr,
}
use claude_chats.Prep.{is_continuation, truncate_from, prep_truncate}

-- The characters that begin in the bytes.
pub chars : Bytes → ℕ
chars [] = 0
chars (c ∷ cs) = (if is_continuation c then 0 else 1) + chars cs

-- The cut falls at the end, or in front of a byte that begins a character.
abbrev pub AtBoundary : Bytes → ℕ → Type 0
AtBoundary [] k = k ≡ 0
AtBoundary (c ∷ cs) zero = is_continuation c ≡ false
AtBoundary (c ∷ cs) (suc k) = AtBoundary cs k

truncate_from_lem :
    (m i k : ℕ) (s : Bytes)
    → k ≤ m
    → (r : ℕ) × ((truncate_from m i k s).0 ≡ i + r)
      × (r ≤ length s)
      × ((truncate_from m i k s).1 ≡ ltb m (k + chars s))
      × (k + chars (take r s) ≡ min m (k + chars s))
      × AtBoundary s r
unfolding truncate_from chars
truncate_from_lem m i k [] h =
    (0, ground arith, ground arith, ground arith, ground arith, ground arith)
truncate_from_lem m i k (c ∷ cs) h = elim (Bool-cases (is_continuation c)) [
  | inl inside ↦
      let (r, e, le, cut, count, edge) = truncate_from_lem m (i + 1) k cs h in
      (suc r, ground arith, ground arith, ground arith, ground arith, edge)
  | inr begins ↦ elim (Bool-cases (k == m)) [
    | inl full ↦ (0, ground arith, ground arith, ground arith, ground arith, begins)
    | inr room ↦
        let (r, e, le, cut, count, edge) = truncate_from_lem m (i + 1) (k + 1) cs (ground arith) in
        (suc r, ground arith, ground arith, ground arith, ground arith, edge)
  ]
]

-- The kept length is inside the text, and what is kept has as many characters as the text has, but
-- at most `max_chars`; the text is cut in front of a byte that begins a character, or not at all;
-- and `truncated` says exactly whether the text has more characters than that.
pub prep_truncate_lem :
    (s : Bytes) (m : ℕ)
    → let (kept, truncated) = prep_truncate s m in
      (kept ≤ length s)
      × (chars (take kept s) ≡ min m (chars s))
      × AtBoundary s kept
      × (truncated ≡ ltb m (chars s))
unfolding prep_truncate
prep_truncate_lem s m =
    let (r, e, le, cut, count, edge) = truncate_from_lem m 0 0 s (omega arith) in
    let e' : (truncate_from m 0 0 s).0 ≡ r = omega arith in
    rw e' (le, ground arith, edge, ground arith)
