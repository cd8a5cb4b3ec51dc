-- ===== src/Sqs/Outcome.antt =====
-- The entries of a batch that `batch_outcome` of esp32-embedder/worker/sqs.c counts as accepted.
use claude_chats.Prelude.{
  ℕ, zero, suc, ◌<◌, ◌≡◌, refl, sym, ap, Bool, true, false, Bool-cases, ◌⊎◌, inl, inr, Option, none,
  some, Option-cases, bytes_eq→eq, ◌∙◌, List, [], ◌∷◌, modify, get_or, In, arith, leb, Bytes,
}
use claude_chats.Prelude.Int.{ℤ, pos, negsuc}
use claude_chats.Sqs.{
  Reading, entry_id, entry_counts, note_at, note_success, note_all, batch_outcome, digest_ok,
}

get_or-modify :
    (ok : List Bool) (i k : ℕ)
    → get_or (modify ok i (λ b. true)) k false ≡ true
    → (get_or ok k false ≡ true) ⊎ (k ≡ i)
get_or-modify [] i k h = inl h
get_or-modify (b ∷ bs) zero zero h = inr refl
get_or-modify (b ∷ bs) zero (suc k) h = inl h
get_or-modify (b ∷ bs) (suc i) zero h = inl h
get_or-modify (b ∷ bs) (suc i) (suc k) h = ground (arith, get_or-modify bs i k h)

module _ (r : Reading) (bodies : Option (List Bytes)) (n : ℕ) where
  -- For a SendMessageBatch: the element has a digest, which is that of the body of this index.
  abbrev pub Digested : Option (List Bytes) → r.Node → ℕ → Type 0
  Digested none e k = Unit
  Digested (some bs) e k =
      r.string (r.item (some e) "MD5OfMessageBody") ≡ some (r.md5_hex (get_or bs k []))

  -- SQS listed this entry as successful: an element of the list has an id, which is read as this index, one
  -- of the batch, and the digest of what was sent.
  abbrev pub Vouched : List r.Node → ℕ → Type 0
  Vouched es k =
      (e : r.Node) × In e es
      × ((id : Bytes) × (r.string (r.item (some e) "Id") ≡ some id) × (r.atoi id ≡ pos k))
      × Digested bodies e k
      × (k < n)

  entry_id-pos :
      (e : r.Node) (k : ℕ)
      → entry_id r e ≡ pos k
      → (id : Bytes) × (r.string (r.item (some e) "Id") ≡ some id) × (r.atoi id ≡ pos k)
  unfolding entry_id
  entry_id-pos e k h = elim (Option-cases (r.string (r.item (some e) "Id"))) [
    | inl absent ↦ absurd (cc (rw (absent, entry_id) at h))
    | inr (id, found) ↦ (id, found, rw (found, entry_id) at h)
  ]

  digest_ok-md5 :
      (e : r.Node) (body : Bytes)
      → digest_ok r e body ≡ true
      → r.string (r.item (some e) "MD5OfMessageBody") ≡ some (r.md5_hex body)
  unfolding digest_ok
  digest_ok-md5 e body h = elim (Option-cases (r.string (r.item (some e) "MD5OfMessageBody"))) [
    | inl absent ↦ absurd (cc (rw (absent, digest_ok) at h))
    | inr (md5, found) ↦
        found ∙ ap some (bytes_eq→eq md5 (r.md5_hex body) (rw (found, digest_ok) at h))
  ]

  entry_counts-Digested :
      (bs : Option (List Bytes)) (e : r.Node) (k : ℕ)
      → entry_counts r bs e k ≡ true
      → Digested bs e k
  unfolding entry_counts
  entry_counts-Digested none e k h = tt
  entry_counts-Digested (some bs) e k h = digest_ok-md5 e (get_or bs k []) h

  -- The same, by what the code tests.
  abbrev Counted : List r.Node → ℕ → Type 0
  Counted es k =
      (e : r.Node) × In e es × (entry_id r e ≡ pos k) × (entry_counts r bodies e k ≡ true) × (k < n)

  note_at_lem :
      (e : r.Node) (z : ℤ) (ok : List Bool) (k : ℕ)
      → get_or (note_at r bodies n e z ok) k false ≡ true
      → (get_or ok k false ≡ true) ⊎ ((z ≡ pos k) × (entry_counts r bodies e k ≡ true) × (k < n))
  unfolding note_at
  note_at_lem e (negsuc j) ok k h = inl h
  note_at_lem e (pos i) ok k h = elim (Bool-cases (leb n i)) [
    | inl out ↦ inl (ground arith)
    | inr inside ↦ elim (Bool-cases (entry_counts r bodies e i)) [
      | inr off ↦ inl (ground arith)
      | inl counts ↦
          let set : get_or (modify ok i (λ b. true)) k false ≡ true = ground arith in
          elim (get_or-modify ok i k set) [
            | inl before ↦ inl before
            | inr same ↦ inr (ap pos (sym same), rw same counts, ground arith)
          ]
    ]
  ]

  note_all_lem :
      (es : List r.Node) (ok : List Bool) (k : ℕ)
      → get_or (note_all r bodies n es ok) k false ≡ true
      → (get_or ok k false ≡ true) ⊎ Counted es k
  unfolding note_all note_success
  note_all_lem [] ok k h = inl h
  note_all_lem (e ∷ es) ok k h =
      elim (note_all_lem es (note_at r bodies n e (entry_id r e) ok) k h) [
        | inr (x, here, id, counts, inside) ↦ inr (x, inr here, id, counts, inside)
        | inl before ↦ elim (note_at_lem e (entry_id r e) ok k before) [
          | inl older ↦ inl older
          | inr (id, counts, inside) ↦ inr (e, inl refl, id, counts, inside)
        ]
      ]

  -- An entry that was not accepted before the reply counts as accepted only where the reply's
  -- "Successful" has an element with its index, which for a SendMessageBatch gives the digest of the
  -- very body that was sent; an element without a digest is none.
  pub batch_outcome_lem :
      (j : Option r.Node) (ok : List Bool) (k : ℕ)
      → get_or ok k false ≡ false
      → get_or (batch_outcome r j bodies n ok) k false ≡ true
      → Vouched (r.elems (r.item j "Successful")) k
  unfolding batch_outcome
  batch_outcome_lem j ok k fresh h = elim (note_all_lem (r.elems (r.item j "Successful")) ok k h) [
    | inl before ↦ absurd (ground arith)
    | inr (e, here, id, counts, inside) ↦
        (e, here, entry_id-pos e k id, entry_counts-Digested bodies e k counts, inside)
  ]
