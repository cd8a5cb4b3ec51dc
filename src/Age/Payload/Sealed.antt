-- ===== src/Age/Payload/Sealed.antt =====
-- What `payload` of esp32-embedder/worker/age.c takes, against the encryption of age: a nonce, then the
-- plaintext in chunks, each sealed under its number and whether it is the last.
use claude_chats.Prelude.{
  ℕ, zero, suc, ◌+◌, ◌-◌, ◌≤◌, ◌<◌, ◌≡◌, refl, sym, ap, ◌∙◌, Bool, true, false, List, [], ◌∷◌, ◌++◌,
  length, length-drop, take, take-append-drop, take_all, drop_all, drop, ◌==◌, arith, Bytes,
}
use mathlib.Core.Path.{subst}
use claude_chats.Age.{Crypto, Unsealed, opened, auth_failed, unseal_failed, payload_err}
use claude_chats.Age.Payload.{
  tag_size, Plaintext, plaintext, no_plaintext, chunk_nonce, next_size, is_refused, open_chunk,
  with_chunk, open_chunks,
}

-- ChaCha20-Poly1305 as the documentation has it: `seal` of a key, a nonce and a plaintext is what
-- opens to that plaintext, and nothing else does.
pub record IsSealing (y : Crypto) (seal : Bytes → Bytes → Bytes → Bytes) : Type 0 where
  pub length-seal : (key nonce p : Bytes) → length (seal key nonce p) ≡ length p + tag_size
  pub only_sealed :
      (key nonce text tag p : Bytes) (c : y.Ctx)
      → length tag ≡ tag_size
      → (y.auth_decrypt key nonce text tag c).0 ≡ opened p
      → text ++ tag ≡ seal key nonce p
  pub sealed_opens :
      (key nonce p : Bytes) (c : y.Ctx)
      → (y.auth_decrypt key nonce
          (take (length p) (seal key nonce p))
          (drop (length p) (seal key nonce p))
          c).0
        ≡ opened p

-- The calls that may fail for want of memory do not.
pub record HasMemory (y : Crypto) : Type 0 where
  pub allocates : (n : ℕ) (c : y.Ctx) → (y.alloc n c).0 ≡ true
  pub sets_key : (key : Bytes) (c : y.Ctx) → (y.setkey key c).0 ≡ true

abbrev pub joined : List Bytes → Bytes
joined [] = []
joined (p ∷ ps) = p ++ joined ps

-- Chunks from number `i` on: all but the last are full, and only the very first may be empty.
abbrev pub Chunked : ℕ → ℕ → List Bytes → Type 0
Chunked chunk i [] = Unit
Chunked chunk i (p ∷ []) = (length p ≤ chunk) × (0 < i → 0 < length p)
Chunked chunk i (p ∷ q ∷ ps) = (length p ≡ chunk) × Chunked chunk (i + 1) (q ∷ ps)

module _ (seal : Bytes → Bytes → Bytes → Bytes) (key : Bytes) where
  abbrev pub sealed : ℕ → List Bytes → Bytes
  sealed i [] = []
  sealed i (p ∷ []) = seal key (chunk_nonce i true) p
  sealed i (p ∷ q ∷ ps) = seal key (chunk_nonce i false) p ++ sealed (i + 1) (q ∷ ps)

module _ (y : Crypto) (chunk : ℕ) (key : Bytes) where
  -- The rounds on a list that is not empty.
  round :
      (fuel i : ℕ) (s : Bytes) (c : y.Ctx) (n : ℕ)
      → 0 < length s
      → next_size chunk (length s) ≡ n
      → is_refused n i ≡ false
      → open_chunks y chunk (suc fuel) key i s c ≡ (
          let o = open_chunk y key i (n == length s) (take n s) c in
          with_chunk y o (open_chunks y chunk fuel key (i + 1) (drop n s) o.1))
  round fuel i [] c n some_left size fine = absurd (omega arith)
  round fuel i (b ∷ rest) c n some_left size fine = unfold open_chunks in rw (size, fine) refl

  refused :
      (fuel i : ℕ) (s : Bytes) (c : y.Ctx)
      → 0 < length s
      → is_refused (next_size chunk (length s)) i ≡ true
      → (open_chunks y chunk (suc fuel) key i s c).0 ≡ no_plaintext payload_err
  refused fuel i [] c some_left bad = absurd (omega arith)
  refused fuel i (b ∷ rest) c some_left bad = unfold open_chunks in rw bad refl

pub fine_size : (n k i : ℕ) → n ≡ k + tag_size → (0 < i → 0 < k) → is_refused n i ≡ false
unfolding is_refused
fine_size n k zero long only_first = ground arith
fine_size n k (suc i) long only_first = ground (arith, only_first (omega arith))

pub with_chunk-plaintext :
    (y : Crypto) (o : Unsealed × y.Ctx) (more : Plaintext × y.Ctx) (p : Bytes)
    → (with_chunk y o more).0 ≡ plaintext p
    → (a : Bytes) × (b : Bytes) × (o.0 ≡ opened a) × (more.0 ≡ plaintext b) × (p ≡ a ++ b)
unfolding with_chunk
with_chunk-plaintext y (opened a, c1) (plaintext b, c2) p h = (a, b, refl, refl, cc)
with_chunk-plaintext y (opened a, c1) (no_plaintext e, c2) p h = absurd (ground arith)
with_chunk-plaintext y (auth_failed, c1) more p h = absurd (ground arith)
with_chunk-plaintext y (unseal_failed, c1) more p h = absurd (ground arith)

-- What the loop takes, over any size of chunks.
module _ (y : Crypto) (seal : Bytes → Bytes → Bytes → Bytes) (laws : IsSealing y seal) (chunk : ℕ)
    (key : Bytes) (some_room : 0 < chunk) where
  pub open_chunk-opened :
      (i : ℕ) (last : Bool) (s p : Bytes) (c : y.Ctx)
      → tag_size ≤ length s
      → (open_chunk y key i last s c).0 ≡ opened p
      → s ≡ seal key (chunk_nonce i last) p
  unfolding open_chunk
  open_chunk-opened i last s p c tagged h =
      let n = length s - tag_size in
      let tag : length (drop n s) ≡ tag_size = omega (arith, length-drop n s) in
      sym (take-append-drop n s)
      ∙ laws.only_sealed key (chunk_nonce i last) (take n s) (drop n s) p c tag h

  pub open_chunk-seal :
      (i : ℕ) (last : Bool) (p : Bytes) (c : y.Ctx)
      → (open_chunk y key i last (seal key (chunk_nonce i last) p) c).0 ≡ opened p
  unfolding open_chunk
  open_chunk-seal i last p c =
      let n : length (seal key (chunk_nonce i last) p) - tag_size ≡ length p =
        omega (arith, laws.length-seal key (chunk_nonce i last) p) in
      subst
        (λ k.
          (y.auth_decrypt key (chunk_nonce i last) (take k (seal key (chunk_nonce i last) p))
            (drop k (seal key (chunk_nonce i last) p)) c).0
          ≡ opened p)
        (sym n) (laws.sealed_opens key (chunk_nonce i last) p c)

  pub open_chunks-nil :
      (fuel i : ℕ) (c : y.Ctx) → open_chunks y chunk fuel key i [] c ≡ (plaintext [], c)
  unfolding open_chunks
  open_chunks-nil zero i c = refl
  open_chunks-nil (suc fuel) i c = refl

  -- A round on the last chunk.
  pub round_last :
      (fuel i : ℕ) (s : Bytes) (c : y.Ctx)
      → 0 < length s
      → length s ≤ chunk + tag_size
      → is_refused (length s) i ≡ false
      → open_chunks y chunk (suc fuel) key i s c
        ≡ (let o = open_chunk y key i true s c in with_chunk y o (plaintext [], o.1))
  unfolding next_size
  round_last fuel i s c some_left few fine =
      let size : next_size chunk (length s) ≡ length s = ground arith in
      let whole : (length s == length s) ≡ true = ground arith in
      let none_left = drop_all (length s) s (omega arith) in
      let all = take_all (length s) s (omega arith) in
      round y chunk key fuel i s c (length s) some_left size fine
      ∙ rw (whole, all, none_left)
          (ap (with_chunk y (open_chunk y key i true s c))
            (open_chunks-nil fuel (i + 1) (open_chunk y key i true s c).1))

  pub not_refused :
      (fuel i : ℕ) (s p : Bytes) (c : y.Ctx)
      → 0 < length s
      → length s ≤ chunk + tag_size
      → is_refused (length s) i ≡ true
      → (open_chunks y chunk (suc fuel) key i s c).0 ≡ plaintext p
      → ⊥
  unfolding next_size
  not_refused fuel i s p c some_left few bad h =
      let size : next_size chunk (length s) ≡ length s = ground arith in
      let no = refused y chunk key fuel i s c some_left (rw size bad) in ground arith

  -- A round on a chunk with more behind it.
  pub round_more :
      (fuel i : ℕ) (s : Bytes) (c : y.Ctx)
      → chunk + tag_size < length s
      → open_chunks y chunk (suc fuel) key i s c ≡ (
          let n = chunk + tag_size in
          let o = open_chunk y key i false (take n s) c in
          with_chunk y o (open_chunks y chunk fuel key (i + 1) (drop n s) o.1))
  unfolding next_size is_refused
  round_more fuel i s c many =
      let n = chunk + tag_size in
      let size : next_size chunk (length s) ≡ n = ground arith in
      let part : (n == length s) ≡ false = ground arith in
      let fine : is_refused n i ≡ false = ground arith in
      round y chunk key fuel i s c n (omega arith) size fine ∙ rw part refl
