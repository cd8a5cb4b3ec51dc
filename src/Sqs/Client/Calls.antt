-- ===== src/Sqs/Client/Calls.antt =====
-- The calls of esp32-embedder/worker/sqs.c for the four operations on a queue: their requests, and what
-- they make of the answers.
use claude_chats.Prelude.{
  ℕ, ◌+◌, Bool, true, false, ◌||◌, Option, none, some, List, [], ◌∷◌, ◌++◌, length, replicate, ltb,
  ◌==◌, if◌then◌else◌, Bytes, codes, decimal,
}
use claude_chats.Kw.Jbuf.{Jbuf, jb_put}
use claude_chats.Kw.Escape.{jb_json_str}
use claude_chats.Worker.Types.{sqs_max_batch, sqs_max_batch_bytes}
use claude_chats.Sqs.{Reading, Message, clamp_max, read_messages, batch_outcome}
use claude_chats.Sqs.Client.{SqsClient, Wire, jb_reset, note_error, or_mark, call}

unfoldable pub total_of : List Bytes → ℕ
total_of [] = 0
total_of (b ∷ bs) = length b + total_of bs

module _ (r : Reading) (w : Wire r) where
  -- `begin`, into the buffer.
  unfoldable pub begin_body : Jbuf → Bytes → Jbuf
  begin_body b queue_url =
      jb_json_str w.grow (jb_put w.grow (jb_reset b) (codes "{\"QueueUrl\":")) queue_url

  unfoldable pub receive_body : Jbuf → Bytes → ℕ → ℕ → ℕ → Jbuf
  receive_body b queue_url max wait_s visibility_s = jb_put w.grow (begin_body b queue_url) (
      codes ",\"MaxNumberOfMessages\":"
      ++ (decimal max
          ++ (codes ",\"WaitTimeSeconds\":"
              ++ (decimal wait_s
                  ++ (codes ",\"VisibilityTimeout\":"
                      ++ (decimal visibility_s
                          ++ codes
                              ",\"MessageSystemAttributeNames\":[\"ApproximateReceiveCount\"]}"))))))

  -- `%s{"Id":"%d","<key>":`
  unfoldable pub entry_head : Bytes → ℕ → Bytes
  entry_head key i =
      (if i == 0 then [] else codes ",")
      ++ (codes "{\"Id\":\"" ++ (decimal i ++ (codes "\",\"" ++ (key ++ codes "\":"))))

  abbrev pub put_some : Jbuf → Option Bytes → Jbuf
  put_some b none = b
  put_some b (some text) = jb_put w.grow b text

  -- The entries from number `i` on, each with what the batch adds to it.
  unfoldable pub put_entries : Bytes → Option Bytes → ℕ → List Bytes → Jbuf → Jbuf
  put_entries key extra i [] b = b
  put_entries key extra i (x ∷ xs) b = put_entries key extra (i + 1) xs (
      jb_put w.grow (put_some (jb_json_str w.grow (jb_put w.grow b (entry_head key i)) x) extra)
        (codes "}"))

  unfoldable pub batch_body : Jbuf → Bytes → Bytes → Option Bytes → List Bytes → Jbuf
  batch_body b queue_url key extra items =
      jb_put w.grow
        (put_entries key extra 0 items
          (jb_put w.grow (begin_body b queue_url) (codes ",\"Entries\":[")))
        (codes "]}")

  -- The messages, or nothing for -1; where there is no message no array is asked for.
  unfoldable pub sqs_receive :
      SqsClient → Bytes → ℕ → ℕ → ℕ → r.Ctx → (Option (List Message) × SqsClient) × r.Ctx
  sqs_receive s queue_url max wait_s visibility_s ctx =
      let most = clamp_max max in
      let ((j, s1), ctx1) =
        call r w (codes "ReceiveMessage")
          (record s { req = receive_body s.req queue_url most wait_s visibility_s }) ctx in
      elim j [
        | none ↦ ((none, s1), ctx1)
        | some root ↦
            let arr = r.elems (r.item (some root) "Messages") in
            let (got, ctx2) : Bool × r.Ctx =
              if length arr == 0 then (true, ctx1) else w.alloc (length arr) ctx1 in
            if got
            then (let (ms, ctx3) = read_messages r most 0 arr ctx2 in ((some ms, s1), ctx3))
            else ((none, note_error (codes "ReceiveMessage: out of memory") s1), ctx2)
      ]

  -- The failures that the reply names go to `last_error`; the last one stays.
  unfoldable pub note_failed : List r.Node → SqsClient → SqsClient
  note_failed [] s = s
  note_failed (e ∷ es) s = note_failed es (
      note_error
        (codes "entry "
          ++ (or_mark (r.string (r.item (some e) "Id"))
              ++ (codes " failed: " ++ or_mark (r.string (r.item (some e) "Code")))))
        s)

  -- A *Batch call once its body stands in `req`: whether it returns 0, and `ok`.
  unfoldable pub batch_call :
      Bytes → SqsClient → Option (List Bytes) → ℕ → r.Ctx → ((Bool × List Bool) × SqsClient) × r.Ctx
  batch_call action s bodies n ctx =
      let ((j, s1), ctx1) = call r w action s ctx in
      elim j [
        | none ↦ (((false, replicate n false), s1), ctx1)
        | some root ↦ (
          (
            (true, batch_outcome r (some root) bodies n (replicate n false)),
            note_failed (r.elems (r.item (some root) "Failed")) s1,
          ),
          ctx1,
        )
      ]

  unfoldable pub sqs_send_batch :
      SqsClient → Bytes → List Bytes → r.Ctx → ((Bool × List Bool) × SqsClient) × r.Ctx
  sqs_send_batch s queue_url bodies ctx =
      let n = length bodies in
      if (ltb n 1 || ltb sqs_max_batch n) || ltb sqs_max_batch_bytes (total_of bodies)
      then (
        (
          (false, replicate n false),
          note_error
              (codes "SendMessageBatch: "
                ++ (decimal n
                    ++ (codes " entries, "
                        ++ (decimal (total_of bodies) ++ codes " bytes: too many"))))
              s,
        ),
        ctx,
      )
      else batch_call (codes "SendMessageBatch")
          (record s { req = batch_body s.req queue_url (codes "MessageBody") none bodies })
          (some bodies) n ctx

  unfoldable pub receipt_batch :
      Bytes
      → SqsClient
      → Bytes
      → List Bytes
      → Option ℕ
      → r.Ctx
      → ((Bool × List Bool) × SqsClient) × r.Ctx
  receipt_batch action s queue_url receipts visibility_s ctx =
      let n = length receipts in
      let extra : Option Bytes = elim visibility_s [
        | none ↦ none
        | some v ↦ some (codes ",\"VisibilityTimeout\":" ++ decimal v)
      ] in
      if ltb n 1 || ltb sqs_max_batch n
      then (((false, replicate n false), s), ctx)
      else batch_call action
          (record s { req = batch_body s.req queue_url (codes "ReceiptHandle") extra receipts })
          none n ctx

  -- No visibility timeout for -1.
  unfoldable pub sqs_delete_batch :
      SqsClient → Bytes → List Bytes → r.Ctx → ((Bool × List Bool) × SqsClient) × r.Ctx
  sqs_delete_batch s queue_url receipts ctx =
      receipt_batch (codes "DeleteMessageBatch") s queue_url receipts none ctx

  unfoldable pub sqs_visibility_batch :
      SqsClient → Bytes → List Bytes → ℕ → r.Ctx → ((Bool × List Bool) × SqsClient) × r.Ctx
  sqs_visibility_batch s queue_url receipts visibility_s ctx =
      receipt_batch (codes "ChangeMessageVisibilityBatch") s queue_url receipts (some visibility_s)
        ctx
