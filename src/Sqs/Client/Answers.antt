-- ===== src/Sqs/Client/Answers.antt =====
-- What the batch calls of esp32-embedder/worker/sqs.c answer.
use claude_chats.Prelude.{
  ℕ, suc, zero, ◌<◌, ◌≡◌, refl, ap, ◌∙◌, ◌⊎◌, inl, inr, Bool, true, false, Bool-cases, ◌||◌, Option,
  none, some, Option-cases, List, [], ◌∷◌, length, length-modify, replicate, ltb, arith, Bytes,
  codes, All,
}
use claude_chats.Prelude.Int.{ℤ, pos, negsuc}
use claude_chats.Worker.Types.{sqs_max_batch, sqs_max_batch_bytes}
use claude_chats.Sqs.{Reading, entry_id, note_at, note_success, note_all, batch_outcome}
use claude_chats.Sqs.Client.{SqsClient, Wire, call}
use claude_chats.Sqs.Client.Calls.{total_of, batch_body, batch_call, sqs_send_batch}

length-replicate : (n : ℕ) (b : Bool) → length (replicate n b) ≡ n
length-replicate zero b = refl
length-replicate (suc n) b = ap suc (length-replicate n b)

replicate-All : (n : ℕ) → All (λ b. b ≡ false) (replicate n false)
replicate-All zero = tt
replicate-All (suc n) = (refl, replicate-All n)

module _ (r : Reading) where
  length-note_at :
      (bodies : Option (List Bytes)) (n : ℕ) (e : r.Node) (i : ℤ) (ok : List Bool)
      → length (note_at r bodies n e i ok) ≡ length ok
  unfolding note_at
  length-note_at bodies n e (negsuc k) ok = refl
  length-note_at bodies n e (pos i) ok = ground (arith, length-modify ok i (λ b. true))

  length-note_all :
      (bodies : Option (List Bytes)) (n : ℕ) (es : List r.Node) (ok : List Bool)
      → length (note_all r bodies n es ok) ≡ length ok
  unfolding note_all note_success
  length-note_all bodies n [] ok = refl
  length-note_all bodies n (e ∷ es) ok =
      length-note_all bodies n es (note_success r bodies n e ok)
      ∙ length-note_at bodies n e (entry_id r e) ok

module _ (r : Reading) (w : Wire r) where
  -- The results of a batch call: one for each entry, and none accepted where it returns -1.
  abbrev Answered : ℕ → Bool × List Bool → Type 0
  Answered n x = (length x.1 ≡ n) × (x.0 ≡ false → All (λ b. b ≡ false) x.1)

  batch_call-Answered :
      (action : Bytes) (s : SqsClient) (bodies : Option (List Bytes)) (n : ℕ) (ctx : r.Ctx)
      → Answered n (batch_call r w action s bodies n ctx).0.0
  unfolding batch_call batch_outcome
  batch_call-Answered action s bodies n ctx = elim (Option-cases (call r w action s ctx).0.0) [
    | inl gone ↦ rw (batch_call, gone) (length-replicate n false, λ h. replicate-All n)
    | inr (root, came) ↦
        rw (batch_call, came)
          (
            length-note_all r bodies n _ (replicate n false) ∙ length-replicate n false,
            λ h. absurd (ground arith),
          )
  ]

  -- A SendMessageBatch answers for each body. Where it returns -1 it says of none that it was accepted;
  -- and a batch of no body, of more than ten, or of more than 262,144 bytes is refused without a call.
  pub sqs_send_batch_lem :
      (s : SqsClient) (queue_url : Bytes) (bodies : List Bytes) (ctx : r.Ctx)
      → let ((x, s1), ctx1) = sqs_send_batch r w s queue_url bodies ctx in
        (length x.1 ≡ length bodies)
        × (x.0 ≡ false → All (λ b. b ≡ false) x.1)
        × ((bodies ≡ []) ⊎ ((10 < length bodies) ⊎ (262144 < total_of bodies))
            → (x.0 ≡ false) × (ctx1 ≡ ctx))
  unfolding sqs_send_batch
  sqs_send_batch_lem s queue_url bodies ctx =
      let n = length bodies in
      elim (Bool-cases
        ((ltb n 1 || ltb sqs_max_batch n) || ltb sqs_max_batch_bytes (total_of bodies))) [
          | inl refused ↦
              rw refused (length-replicate n false, (λ h. replicate-All n), λ h. (refl, refl))
          | inr fits ↦
              let b =
                batch_call-Answered (codes "SendMessageBatch")
                  (record s {
                    req = batch_body r w s.req queue_url (codes "MessageBody") none bodies;
                  })
                  (some bodies) n ctx in
              rw fits (
                b.0,
                b.1,
                λ h. absurd (elim h [
                  | inl e ↦ (let z : length bodies ≡ 0 = ap length e in ground arith)
                  | inr h' ↦ elim h' [ inl many ↦ ground arith | inr large ↦ ground arith ]
                ]),
              )
        ]
