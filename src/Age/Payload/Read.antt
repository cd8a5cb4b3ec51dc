-- ===== src/Age/Payload/Read.antt =====
-- What the loop of `payload` of esp32-embedder/worker/age.c opens is chunks as age seals them.
use claude_chats.Prelude.{
  ℕ, zero, suc, ◌+◌, ◌≤◌, ◌<◌, ◌≡◌, refl, sym, ap, ◌∙◌, inl, inr, true, false, Bool-cases, List, [],
  ◌∷◌, ◌++◌, length, length-drop, length-take, take, take-append-drop, drop, ltb, arith, Bytes,
}
use mathlib.Core.Path.{subst}
use claude_chats.Age.{Crypto, opened}
use claude_chats.Age.Payload.{tag_size, plaintext, chunk_nonce, is_refused, open_chunk, open_chunks}
use claude_chats.Age.Payload.Sealed.{
  IsSealing, joined, Chunked, sealed, open_chunk-opened, open_chunks-nil, round_last, not_refused,
  round_more, with_chunk-plaintext,
}

-- The bytes are chunks as age seals them, from number `i` on, and the plaintext is what they hold.
module _ (seal : Bytes → Bytes → Bytes → Bytes) (chunk : ℕ) (key : Bytes) where
  abbrev pub Read : ℕ → Bytes → Bytes → Type 0
  Read i s p = (ps : List Bytes) × Chunked chunk i ps × (s ≡ sealed seal key i ps) × (p ≡ joined ps)

-- What the loop takes, over any size of chunks.
module _ (y : Crypto) (seal : Bytes → Bytes → Bytes → Bytes) (laws : IsSealing y seal) (chunk : ℕ)
    (key : Bytes) (some_room : 0 < chunk) where
  -- A full chunk in front of chunks.
  add_chunk :
      (i : ℕ) (front back a b : Bytes)
      → 0 < length back
      → length a ≡ chunk
      → front ≡ seal key (chunk_nonce i false) a
      → Read seal chunk key (i + 1) back b
      → Read seal chunk key i (front ++ back) (a ++ b)
  add_chunk i front back a b some_left full is ([], cs, e, j) = absurd (omega (arith, ap length e))
  add_chunk i front back a b some_left full is (q ∷ qs, cs, e, j) =
      (a ∷ q ∷ qs, (full, cs), rw (is, e) refl, rw j refl)

  last-Read :
      (fuel i : ℕ) (s p : Bytes) (c : y.Ctx)
      → 0 < length s
      → length s ≤ chunk + tag_size
      → is_refused (length s) i ≡ false
      → (open_chunks y chunk (suc fuel) key i s c).0 ≡ plaintext p
      → Read seal chunk key i s p
  unfolding is_refused
  last-Read fuel i s p c some_left few fine h =
      let o = open_chunk y key i true s c in
      let (a, b, first, rest, all) =
        with_chunk-plaintext y o (plaintext [], o.1) p
          (ap (λ x. x.0)
              (sym (round_last y seal laws chunk key some_room fuel i s c some_left few fine))
            ∙ h) in
      let is =
        open_chunk-opened y seal laws chunk key some_room i true s a c (ground arith) first in
      let long : length s ≡ length a + tag_size =
        ap length is ∙ laws.length-seal key (chunk_nonce i true) a in
      let no_more : b ≡ [] = cc in
      (
        a ∷ [],
        (omega (arith, long), λ later. ground (arith, long)),
        is,
        all ∙ ap (λ x. a ++ x) no_more,
      )

  more-Read :
      (i : ℕ) (s p b : Bytes) (c : y.Ctx)
      → chunk + tag_size < length s
      → (a : Bytes) → (open_chunk y key i false (take (chunk + tag_size) s) c).0 ≡ opened a
      → Read seal chunk key (i + 1) (drop (chunk + tag_size) s) b
      → p ≡ a ++ b
      → Read seal chunk key i s p
  more-Read i s p b c many a first behind all =
      let n = chunk + tag_size in
      let long : length (take n s) ≡ n = omega (arith, length-take n s) in
      let is =
        open_chunk-opened y seal laws chunk key some_room i false (take n s) a c
          (omega (arith, long)) first in
      let full : length a ≡ chunk =
        omega (arith, long, ap length is, laws.length-seal key (chunk_nonce i false) a) in
      let both =
        add_chunk i (take n s) (drop n s) a b (omega (arith, length-drop n s)) full is behind in
      subst (λ x. Read seal chunk key i x p) (take-append-drop n s)
        (subst (λ x. Read seal chunk key i (take n s ++ drop n s) x) (sym all) both)

  pub open_chunks-Read :
      (fuel i : ℕ) (s p : Bytes) (c : y.Ctx)
      → length s ≤ fuel
      → (open_chunks y chunk fuel key i s c).0 ≡ plaintext p
      → Read seal chunk key i s p
  open_chunks-Read fuel i [] p c enough h =
      let nothing : plaintext [] ≡ plaintext p =
        ap (λ x. x.0) (sym (open_chunks-nil y seal laws chunk key some_room fuel i c)) ∙ h in
      ([], tt, refl, cc)
  open_chunks-Read zero i (b ∷ rest) p c enough h = absurd (omega arith)
  open_chunks-Read (suc fuel) i (b ∷ rest) p c enough h =
      let s : Bytes = b ∷ rest in
      let n = chunk + tag_size in
      elim (Bool-cases (ltb (chunk + tag_size) (length s))) [
        | inl many ↦
            let o = open_chunk y key i false (take n s) c in
            let over : n < length s = ground arith in
            let (a, p', first, more, all) =
              with_chunk-plaintext y o (open_chunks y chunk fuel key (i + 1) (drop n s) o.1) p (
                ap (λ x. x.0) (sym (round_more y seal laws chunk key some_room fuel i s c over))
                ∙ h) in
            more-Read i s p p' c over a first
              (open_chunks-Read fuel (i + 1) (drop n s) p' o.1 (omega (arith, length-drop n s))
                more)
              all
        | inr few ↦ elim (Bool-cases (is_refused (length s) i)) [
          | inl bad ↦ absurd (
              not_refused y seal laws chunk key some_room fuel i s p c (omega arith) (ground arith)
                bad h)
          | inr fine ↦ last-Read fuel i s p c (omega arith) (ground arith) fine h
        ]
      ]
