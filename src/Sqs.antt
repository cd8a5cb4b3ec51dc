-- ===== src/Sqs.antt =====
-- The replies of esp32-embedder/worker/sqs.c: `batch_outcome`, and the messages of `sqs_receive`. cJSON, MD5,
-- `atoi` and the allocator are parameters.
pub mod Outcome
pub mod Received
pub mod Client
use claude_chats.Prelude.{
  ℕ, ◌+◌, ◌==◌, Bool, true, false, not, ◌&&◌, Option, none, some, List, [], ◌∷◌, length, modify,
  get_or, ltb, leb, if◌then◌else◌, Bytes, bytes_eq, codes,
}
use Prim.Native.String.{String}
use claude_chats.Prelude.Int.{ℤ, pos, negsuc}

-- What sqs.c uses of cJSON, mbedtls, the C library and the allocator.
pub record Reading : Type 1 where
  pub Node : Type 0
  pub item : Option Node → String → Option Node
  pub string : Option Node → Option Bytes
  pub elems : Option Node → List Node
  pub md5_hex : Bytes → Bytes
  pub atoi : Bytes → ℤ
  pub Ctx : Type 0
  pub strndup : Bytes → Ctx → Bool × Ctx

-- `sqs_msg_t`.
pub record Message : Type 0 where
  pub message_id : Bytes
  pub receipt : Bytes
  pub body : Bytes
  pub receive_count : ℤ

-- `max < 1 ? 1 : max > 10 ? 10 : max`
unfoldable pub clamp_max : ℕ → ℕ
clamp_max n = if ltb n 1 then 1 else (if ltb 10 n then 10 else n)

module _ (r : Reading) where
  -- The entry's index: -1 without an id.
  unfoldable pub entry_id : r.Node → ℤ
  entry_id e = elim (r.string (r.item (some e) "Id")) [ none ↦ negsuc 0 | some id ↦ r.atoi id ]

  -- SQS's digest of the body against the one sent; none is no match.
  unfoldable pub digest_ok : r.Node → Bytes → Bool
  digest_ok e body = elim (r.string (r.item (some e) "MD5OfMessageBody")) [
    | none ↦ false
    | some md5 ↦ bytes_eq md5 (r.md5_hex body)
  ]

  -- The bodies are those of a SendMessageBatch; the other batches have none.
  unfoldable pub entry_counts : Option (List Bytes) → r.Node → ℕ → Bool
  entry_counts none e i = true
  entry_counts (some bodies) e i = digest_ok e (get_or bodies i [])

  -- One entry of "Successful", by its index.
  unfoldable pub note_at : Option (List Bytes) → ℕ → r.Node → ℤ → List Bool → List Bool
  note_at bodies n e (negsuc k) ok = ok
  note_at bodies n e (pos i) ok =
      if leb n i then ok else if entry_counts bodies e i then modify ok i (λ b. true) else ok

  unfoldable pub note_success : Option (List Bytes) → ℕ → r.Node → List Bool → List Bool
  note_success bodies n e ok = note_at bodies n e (entry_id e) ok

  unfoldable pub note_all : Option (List Bytes) → ℕ → List r.Node → List Bool → List Bool
  note_all bodies n [] ok = ok
  note_all bodies n (e ∷ es) ok = note_all bodies n es (note_success bodies n e ok)

  -- `ok[0 .. n)` after the reply: the list "Failed" goes to `last_error` only.
  unfoldable pub batch_outcome : Option r.Node → Option (List Bytes) → ℕ → List Bool → List Bool
  batch_outcome j bodies n ok = note_all bodies n (r.elems (r.item j "Successful")) ok

  -- The three copies of a message; all three are tried.
  unfoldable pub copy_message : Message → r.Ctx → Option Message × r.Ctx
  copy_message m c =
      let (id_ok, c1) = r.strndup m.message_id c in
      let (rh_ok, c2) = r.strndup m.receipt c1 in
      let (body_ok, c3) = r.strndup m.body c2 in
      (if id_ok && (rh_ok && body_ok) then some m else none, c3)

  -- `rc ? atoi(rc) : 1`
  unfoldable pub count_of : r.Node → ℤ
  count_of m = elim (r.string (r.item (r.item (some m) "Attributes") "ApproximateReceiveCount")) [
    | none ↦ pos 1
    | some rc ↦ r.atoi rc
  ]

  -- A body whose digest SQS gives, and gives differently, is dropped.
  unfoldable pub body_ok : r.Node → Bytes → Bool
  body_ok m body = elim (r.string (r.item (some m) "MD5OfBody")) [
    | none ↦ true
    | some md5 ↦ bytes_eq md5 (r.md5_hex body)
  ]

  -- One element of "Messages", or nothing where it is passed over.
  unfoldable pub read_message : r.Node → r.Ctx → Option Message × r.Ctx
  read_message m c = elim (r.string (r.item (some m) "MessageId")) [
    | none ↦ (none, c)
    | some id ↦ elim (r.string (r.item (some m) "ReceiptHandle")) [
      | none ↦ (none, c)
      | some rh ↦ elim (r.string (r.item (some m) "Body")) [
        | none ↦ (none, c)
        | some body ↦
            if body_ok m body
            then copy_message
                (record { message_id = id; receipt = rh; body = body; receive_count = count_of m })
                c
            else (none, c)
      ]
    ]
  ]

  -- The loop, with `k` messages taken: it ends with the one that makes them `max`.
  unfoldable pub read_messages : ℕ → ℕ → List r.Node → r.Ctx → List Message × r.Ctx
  read_messages max k [] c = ([], c)
  read_messages max k (m ∷ ms) c =
      let (o, c1) = read_message m c in
      elim o [
        | none ↦ read_messages max k ms c1
        | some x ↦
            let (xs, c2) = read_messages max (k + 1) ms c1 in
            if k + 1 == max then (x ∷ [], c1) else (x ∷ xs, c2)
      ]
