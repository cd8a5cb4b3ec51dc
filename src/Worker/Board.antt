-- ===== src/Worker/Board.antt =====
-- The worker's surroundings with the tokeniser of esp32-embedder/tok/tok.c, the client of
-- esp32-embedder/worker/sqs.c and the decryption of esp32-embedder/worker/age.c in the place of the callbacks, as `model_tokenise` and worker.c call them.
use claude_chats.Prelude.{
  ℕ, suc, ◌≤◌, ◌≡◌, refl, ap, Bool, true, false, Option, none, some, List, [], ◌∷◌, length, get_or,
  ◌==◌, if◌then◌else◌, arith, Bytes, codes,
}
use mathlib.Core.Path.{subst}
use claude_chats.Prelude.Int.{ℤ, pos, negsuc}
use claude_chats.Worker.Types.{Msg}
use claude_chats.Worker.Env.{Env, BatchReply, Decrypted, plain, refused, decrypt_no_memory}
use claude_chats.Worker.Sound.{Contract}
use claude_chats.Age.{nomem, AgeIdentity, Crypto}
use claude_chats.Age.Decrypt.{Decryption, decrypted, undecrypted, age_decrypt}
use claude_chats.Tok.Unicode.{Tables}
use claude_chats.Tok.Vocab.{Vocab}
use claude_chats.Tok.Encode.{Encoded, no_room, bad_point, encoded, tok_encode}
use claude_chats.Tok.Encode.Scans.{length-tok_encode}
use claude_chats.Sqs.{Reading, Message, clamp_max, read_messages}
use claude_chats.Sqs.Received.{sqs_receive-le}
use claude_chats.Sqs.Client.{SqsClient, Wire, note_error, call}
use claude_chats.Sqs.Client.Calls.{
  receive_body, sqs_receive, sqs_send_batch, sqs_delete_batch, sqs_visibility_batch,
}

-- A negative number reads as 0: the model has ids and receive counts in ℕ.
abbrev natural : ℤ → ℕ
natural (pos n) = n
natural (negsuc n) = 0

abbrev naturals : List ℤ → List ℕ
naturals [] = []
naturals (i ∷ is) = natural i ∷ naturals is

length-naturals : (is : List ℤ) → length (naturals is) ≡ length is
length-naturals [] = refl
length-naturals (i ∷ is) = ap suc (length-naturals is)

abbrev ids_of : Encoded → Option (List ℕ)
ids_of no_room = none
ids_of bad_point = none
ids_of (encoded ids total) = some (naturals ids)

abbrev as_msg : Message → Msg
as_msg m = record {
  message_id = m.message_id;
  receipt = m.receipt;
  body = m.body;
  receive_count = natural m.receive_count;
}

abbrev as_msgs : List Message → List Msg
as_msgs [] = []
as_msgs (m ∷ ms) = as_msg m ∷ as_msgs ms

length-as_msgs : (ms : List Message) → length (as_msgs ms) ≡ length ms
length-as_msgs [] = refl
length-as_msgs (m ∷ ms) = ap suc (length-as_msgs ms)

abbrev msgs_of : Option (List Message) → Option (List Msg)
msgs_of none = none
msgs_of (some ms) = some (as_msgs ms)

-- `model_tokenise` of esp32-embedder/firmware/full/main/full.c.
unfoldable pub model_tokenise : Tables → Vocab → Bool → Bytes → ℕ → Option (List ℕ)
model_tokenise t v got_word text most = ids_of (tok_encode t v got_word text most)

model_tokenise-le :
    (t : Tables) (v : Vocab) (got_word : Bool) (text : Bytes) (most : ℕ) (l : List ℕ)
    → model_tokenise t v got_word text most ≡ some l
    → length l ≤ most
unfolding model_tokenise
model_tokenise-le t v got_word text most l h =
    from_encoded (tok_encode t v got_word text most) refl h
  where
    from_encoded :
        (x : Encoded) → tok_encode t v got_word text most ≡ x → ids_of x ≡ some l → length l ≤ most
    from_encoded no_room is h = absurd (ground arith)
    from_encoded bad_point is h = absurd (ground arith)
    from_encoded (encoded ids total) is h =
        let l_is : naturals ids ≡ l = ground arith in
        let sized = length-tok_encode t v got_word text most ids total is in
        subst (λ x. length x ≤ most) l_is (rw (length-naturals ids, sized) omega arith)

-- Where the parts of the board keep their state: the client, and what the transport answers from.
pub record Place (e : Env) (r : Reading) (y : Crypto) : Type 0 where
  pub tables : Tables
  pub vocab : Vocab
  pub got_word : e.Ctx → Bool
  pub queue : Bytes
  pub results : Bytes
  pub client : e.Ctx → SqsClient
  pub wire : e.Ctx → r.Ctx
  pub keep : SqsClient → r.Ctx → e.Ctx → e.Ctx
  pub identity : AgeIdentity
  pub stanza_size : ℕ
  pub crypto : e.Ctx → y.Ctx
  pub keep_crypto : y.Ctx → e.Ctx → e.Ctx

abbrev decrypted_as : Decryption → Decrypted
decrypted_as (decrypted text file_key) = plain text
decrypted_as (undecrypted nomem) = decrypt_no_memory
decrypted_as (undecrypted _) = refused

module _ (e : Env) (r : Reading) (w : Wire r) (y : Crypto) (p : Place e r y) where
  abbrev reply : (Bool × List Bool) → BatchReply
  reply (went, ok) = record { went_through = went; ok = λ i. get_or ok i false }

  -- `age_decrypt` with the identity of the board.
  unfoldable pub board_decrypt : Bytes → e.Ctx → Decrypted × e.Ctx
  board_decrypt text c =
      let (d, ctx) = age_decrypt y p.identity p.stanza_size text (p.crypto c) in
      (decrypted_as d, p.keep_crypto ctx c)

  unfoldable pub board_receive : ℕ → ℕ → ℕ → e.Ctx → Option (List Msg) × e.Ctx
  board_receive most wait_s visibility_s c =
      let ((o, s), ctx) =
        sqs_receive r w (p.client c) p.queue most wait_s visibility_s (p.wire c) in
      (msgs_of o, p.keep s ctx c)

  abbrev pub board : Env
  board = record e {
    tokenise = λ text most c. (model_tokenise p.tables p.vocab (p.got_word c) text most, c);
    decrypt = board_decrypt;
    receive = board_receive;
    send_batch = λ bodies c.
        let ((x, s), ctx) = sqs_send_batch r w (p.client c) p.results bodies (p.wire c) in
        (reply x, p.keep s ctx c);
    delete_batch = λ receipts c.
        let ((x, s), ctx) = sqs_delete_batch r w (p.client c) p.queue receipts (p.wire c) in
        (reply x, p.keep s ctx c);
    visibility_batch = λ receipts seconds c.
        let ((x, s), ctx) =
          sqs_visibility_batch r w (p.client c) p.queue receipts seconds (p.wire c) in
        (reply x, p.keep s ctx c);
    sqs_error = λ c. (p.client c).last_error;
  }

  -- What `sqs_receive` does with the reply of its call.
  abbrev answered :
      SqsClient → ℕ → Option r.Node → r.Ctx → (Option (List Message) × SqsClient) × r.Ctx
  answered s1 most j ctx1 = elim j [
    | none ↦ ((none, s1), ctx1)
    | some root ↦
        let arr = r.elems (r.item (some root) "Messages") in
        let (got, ctx2) : Bool × r.Ctx =
          if length arr == 0 then (true, ctx1) else w.alloc (length arr) ctx1 in
        if got
        then (let (ms, ctx3) = read_messages r most 0 arr ctx2 in ((some ms, s1), ctx3))
        else ((none, note_error (codes "ReceiveMessage: out of memory") s1), ctx2)
  ]

  answered-le :
      (most : ℕ) (s1 : SqsClient) (j : Option r.Node) (ctx1 : r.Ctx) (ms : List Message)
      → 1 ≤ most
      → (answered s1 (clamp_max most) j ctx1).0.0 ≡ some ms
      → length ms ≤ most
  answered-le most s1 none ctx1 ms some_room h = absurd (ground arith)
  answered-le most s1 (some root) ctx1 ms some_room h =
      let arr = r.elems (r.item (some root) "Messages") in
      let memory : Bool × r.Ctx =
        if length arr == 0 then (true, ctx1) else w.alloc (length arr) ctx1 in
      by_memory arr memory h
    where
      by_memory :
          (arr : List r.Node) (memory : Bool × r.Ctx)
          → (if◌then◌else◌ {A = (Option (List Message) × SqsClient) × r.Ctx} memory.0
              (
                (some (read_messages r (clamp_max most) 0 arr memory.1).0, s1),
                (read_messages r (clamp_max most) 0 arr memory.1).1,
              )
              ((none, note_error (codes "ReceiveMessage: out of memory") s1), memory.1)).0.0
            ≡ some ms
          → length ms ≤ most
      by_memory arr (true, ctx2) got =
          let same : (read_messages r (clamp_max most) 0 arr ctx2).0 ≡ ms = cc in
          subst (λ x. length x ≤ most) same ((sqs_receive-le r most arr ctx2).1 some_room)
      by_memory arr (false, ctx2) got = absurd (ground arith)

  received-le :
      (s : SqsClient) (url : Bytes) (most wait_s visibility_s : ℕ) (ctx : r.Ctx) (ms : List Message)
      → 1 ≤ most
      → (sqs_receive r w s url most wait_s visibility_s ctx).0.0 ≡ some ms
      → length ms ≤ most
  unfolding sqs_receive
  received-le s url most wait_s visibility_s ctx ms some_room h =
      let s0 : SqsClient = record s {
        req = receive_body r w s.req url (clamp_max most) wait_s visibility_s;
      } in
      let called = call r w (codes "ReceiveMessage") s0 ctx in
      answered-le most called.0.1 called.0.0 called.1 ms some_room h

  msgs_of-le :
      (most : ℕ) (o : Option (List Message)) (ms : List Msg)
      → ((l : List Message) → o ≡ some l → length l ≤ most)
      → msgs_of o ≡ some ms
      → length ms ≤ most
  msgs_of-le most none ms le h = absurd (ground arith)
  msgs_of-le most (some l) ms le h =
      let is : as_msgs l ≡ ms = cc in
      let was : length l ≤ most = le l refl in
      let short : length (as_msgs l) ≤ most = rw (length-as_msgs l) omega (arith, was) in
      subst (λ x. length x ≤ most) is short

  -- Whatever the transport answers, the worker's surroundings with tok_encode as the tokeniser and this
  -- client for the queues keep to the contract: no more ids than there is room for, and no more messages
  -- than asked for, where it is at least one.
  pub board-Contract : Contract board
  unfolding board_receive
  board-Contract = record {
    tokenise_le = λ text most c c' l h.
        model_tokenise-le p.tables p.vocab (p.got_word c) text most l (ap (λ x. x.0) h);
    receive_le = λ most wait_s visibility_s c c' ms some_room h.
        msgs_of-le most
          (sqs_receive r w (p.client c) p.queue most wait_s visibility_s (p.wire c)).0.0 ms
          (λ l. received-le (p.client c) p.queue most wait_s visibility_s (p.wire c) l some_room)
          (ap (λ x. x.0) h);
  }
