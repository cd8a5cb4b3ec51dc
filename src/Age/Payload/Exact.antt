-- ===== src/Age/Payload/Exact.antt =====
-- `payload` of esp32-embedder/worker/age.c on the payloads that age writes, and on every other.
use claude_chats.Prelude.{
  ℕ, zero, suc, ◌+◌, ◌≤◌, ◌<◌, ◌≡◌, refl, sym, ap, ◌∙◌, inl, inr, true, false, Bool-cases, some,
  Option-cases, List, [], ◌∷◌, ◌++◌, length, length-append, take, take-append-drop,
  take-length-append, drop-length-append, drop, ltb, arith, Bytes, codes,
}
use mathlib.Core.Path.{subst}
use claude_chats.Age.{Crypto, Unsealed, opened, auth_failed, unseal_failed}
use claude_chats.Age.Payload.{
  chunk_size, tag_size, Plaintext, plaintext, no_plaintext, chunk_nonce, open_chunk, with_chunk,
  open_chunks, payload,
}
use claude_chats.Age.Payload.Sealed.{
  IsSealing, HasMemory, joined, Chunked, sealed, open_chunk-seal, open_chunks-nil, round_last,
  round_more, fine_size,
}
use claude_chats.Age.Payload.Read.{Read, open_chunks-Read}

-- What the loop takes, over any size of chunks.
module _ (y : Crypto) (seal : Bytes → Bytes → Bytes → Bytes) (laws : IsSealing y seal) (chunk : ℕ)
    (key : Bytes) (some_room : 0 < chunk) where
  sealed-long :
      (i : ℕ) (p : Bytes) (ps : List Bytes) → tag_size ≤ length (sealed seal key i (p ∷ ps))
  sealed-long i p [] = omega (arith, laws.length-seal key (chunk_nonce i true) p)
  sealed-long i p (q ∷ ps) = omega (
    arith,
    laws.length-seal key (chunk_nonce i false) p,
    length-append (seal key (chunk_nonce i false) p) (sealed seal key (i + 1) (q ∷ ps)),
  )

  with_chunk-opened :
      (o : Unsealed × y.Ctx) (more : Plaintext × y.Ctx) (a b : Bytes)
      → o.0 ≡ opened a
      → more.0 ≡ plaintext b
      → (with_chunk y o more).0 ≡ plaintext (a ++ b)
  unfolding with_chunk
  with_chunk-opened (opened a', c1) (plaintext b', c2) a b first rest =
      let same : a' ≡ a = cc in let same' : b' ≡ b = cc in rw (same, same') refl
  with_chunk-opened (opened a', c1) (no_plaintext e, c2) a b first rest = absurd (ground arith)
  with_chunk-opened (auth_failed, c1) more a b first rest = absurd (ground arith)
  with_chunk-opened (unseal_failed, c1) more a b first rest = absurd (ground arith)

  pub open_chunks-sealed :
      (fuel i : ℕ) (ps : List Bytes) (c : y.Ctx)
      → Chunked chunk i ps
      → length (sealed seal key i ps) ≤ fuel
      → (open_chunks y chunk fuel key i (sealed seal key i ps) c).0 ≡ plaintext (joined ps)
  open_chunks-sealed fuel i [] c cs enough =
      ap (λ x. x.0) (open_chunks-nil y seal laws chunk key some_room fuel i c)
  open_chunks-sealed zero i (p ∷ ps) c cs enough = absurd (omega (arith, sealed-long i p ps))
  open_chunks-sealed (suc fuel) i (p ∷ []) c (few, only_first) enough =
      let s = seal key (chunk_nonce i true) p in
      let long = laws.length-seal key (chunk_nonce i true) p in
      let o = open_chunk y key i true s c in
      ap (λ x. x.0)
        (round_last y seal laws chunk key some_room fuel i s c (omega (arith, long))
          (omega (arith, long)) (fine_size (length s) (length p) i long only_first))
      ∙ with_chunk-opened o (plaintext [], o.1) p []
          (open_chunk-seal y seal laws chunk key some_room i true p c) refl
  open_chunks-sealed (suc fuel) i (p ∷ q ∷ ps) c (full, cs) enough =
      let front = seal key (chunk_nonce i false) p in
      let back = sealed seal key (i + 1) (q ∷ ps) in
      let n : length front ≡ chunk + tag_size =
        omega (arith, laws.length-seal key (chunk_nonce i false) p) in
      let both = length-append front back in
      let taken : take (chunk + tag_size) (front ++ back) ≡ front =
        subst (λ k. take k (front ++ back) ≡ front) n (take-length-append front back) in
      let left : drop (chunk + tag_size) (front ++ back) ≡ back =
        subst (λ k. drop k (front ++ back) ≡ back) n (drop-length-append front back) in
      let o = open_chunk y key i false front c in
      ap (λ x. x.0)
        (round_more y seal laws chunk key some_room fuel i (front ++ back) c
          (omega (arith, both, n, sealed-long (i + 1) q ps)))
      ∙ rw (taken, left)
          (with_chunk-opened o (open_chunks y chunk fuel key (i + 1) back o.1) p (joined (q ∷ ps))
            (open_chunk-seal y seal laws chunk key some_room i false p c)
            (open_chunks-sealed fuel (i + 1) (q ∷ ps) o.1 cs (omega (arith, both, n))))

module _ (y : Crypto) (seal : Bytes → Bytes → Bytes → Bytes) (laws : IsSealing y seal) where
  at_least_one :
      (key s p : Bytes) (head : Bytes)
      → tag_size ≤ length s
      → Read seal chunk_size key 0 s p
      → (q : Bytes) × (qs : List Bytes) × Chunked chunk_size 0 (q ∷ qs)
        × (head ++ s ≡ head ++ sealed seal key 0 (q ∷ qs))
        × (p ≡ joined (q ∷ qs))
  at_least_one key s p head tagged ([], cs, is, all) = absurd (omega (arith, ap length is))
  at_least_one key s p head tagged (q ∷ qs, cs, is, all) = (q, qs, cs, ap (λ x. head ++ x) is, all)

  -- What the calls in front of the loop gave.
  opened_with :
      (file_key input p key : Bytes) (c : y.Ctx)
      → ltb (length input) 16 ≡ false
      → (y.hkdf (take 16 input) file_key (codes "payload") c).0 ≡ some key
      → ltb (length (drop 16 input)) tag_size ≡ false
      → (payload y file_key input c).0 ≡ plaintext p
      → (let rest : Bytes = drop 16 input in
          let k = y.hkdf (take 16 input) file_key (codes "payload") c in
          let memory = y.alloc (length rest + 1) k.1 in
          let ready = y.setkey key memory.1 in
          (open_chunks y chunk_size (length rest) key 0 rest ready.1).0 ≡ plaintext p)
  unfolding payload
  opened_with file_key input p key c long is tagged h =
      let rest : Bytes = drop 16 input in
      let k = y.hkdf (take 16 input) file_key (codes "payload") c in
      let memory = y.alloc (length rest + 1) k.1 in
      let ready = y.setkey key memory.1 in
      elim (Bool-cases memory.0) [
        | inr none_got ↦ absurd (ground arith)
        | inl got ↦ elim (Bool-cases ready.0) [
          | inr not_set ↦ absurd (ground arith)
          | inl set ↦ ground arith
        ]
      ]

  -- A plaintext comes only from a nonce of 16 bytes and chunks sealed under the key of that nonce and
  -- the file key, numbered from 0, full but for the last, which alone is marked as the last and is
  -- empty only in an empty file; and it is what those chunks hold.
  pub payload-sealed :
      (file_key input p : Bytes) (c : y.Ctx)
      → (payload y file_key input c).0 ≡ plaintext p
      → (key : Bytes) × (q : Bytes) × (qs : List Bytes) × ((y.hkdf
            (take 16 input)
            file_key
            (codes "payload")
            c).0
          ≡ some key)
        × Chunked chunk_size 0 (q ∷ qs)
        × (input ≡ take 16 input ++ sealed seal key 0 (q ∷ qs))
        × (p ≡ joined (q ∷ qs))
  unfolding payload
  payload-sealed file_key input p c h =
      let k = y.hkdf (take 16 input) file_key (codes "payload") c in
      let rest : Bytes = drop 16 input in
      elim (Bool-cases (ltb (length input) 16)) [
        | inl short ↦ absurd (ground arith)
        | inr long ↦ elim (Option-cases k.0) [
          | inl gone ↦ absurd (ground arith)
          | inr (key, is) ↦ elim (Bool-cases (ltb (length rest) tag_size)) [
            | inl no_tag ↦ absurd (ground arith)
            | inr tagged ↦
                let memory = y.alloc (length rest + 1) k.1 in
                let ready = y.setkey key memory.1 in
                let done : (open_chunks y chunk_size (length rest) key 0 rest ready.1).0
                    ≡ plaintext p =
                  opened_with file_key input p key c (ground arith) is (ground arith) h in
                let (q, qs, cs, parts, all) =
                  at_least_one key rest p (take 16 input) (ground arith) (
                    open_chunks-Read y seal laws chunk_size key (omega arith) (length rest) 0 rest p
                      ready.1 (omega arith) done) in
                (key, q, qs, is, cs, sym (take-append-drop 16 input) ∙ parts, all)
          ]
        ]
      ]

  -- What age writes for any plaintext in chunks is read back, where there is memory.
  pub payload-round_trip :
      HasMemory y
      → (file_key nonce key q : Bytes) (qs : List Bytes) (c : y.Ctx) → length nonce ≡ 16
      → (y.hkdf nonce file_key (codes "payload") c).0 ≡ some key
      → Chunked chunk_size 0 (q ∷ qs)
      → (payload y file_key (nonce ++ sealed seal key 0 (q ∷ qs)) c).0 ≡ plaintext (joined (q ∷ qs))
  unfolding payload
  payload-round_trip memory file_key nonce key q qs c sixteen derived cs =
      let rest = sealed seal key 0 (q ∷ qs) in
      let input = nonce ++ rest in
      let e1 : take 16 input ≡ nonce =
        subst (λ k. take k input ≡ nonce) sixteen (take-length-append nonce rest) in
      let e2 : drop 16 input ≡ rest =
        subst (λ k. drop k input ≡ rest) sixteen (drop-length-append nonce rest) in
      let k = y.hkdf nonce file_key (codes "payload") c in
      let tagged = sealed-long y seal laws chunk_size key (omega arith) 0 q qs in
      let long : ltb (length input) 16 ≡ false = ground (arith, length-append nonce rest) in
      let whole : ltb (length rest) tag_size ≡ false = ground arith in
      let room = y.alloc (length rest + 1) k.1 in
      let ready = y.setkey key room.1 in
      rw
        (
          long,
          e1,
          derived,
          e1,
          e2,
          whole,
          memory.allocates (length rest + 1) k.1,
          memory.sets_key key room.1,
        )
        (open_chunks-sealed y seal laws chunk_size key (omega arith) (length rest) 0 (q ∷ qs)
          ready.1 cs (omega arith))
