-- ===== src/Tests/Demo.antt =====
-- Surroundings for the runs of the worker: an ingest queue with one message, whose envelope points at
-- S3 in place of a ciphertext; calls that go through; a JSON parser that knows that envelope.
use claude_chats.Prelude.{
  ℕ, ◌+◌, ◌*◌, ◌≤◌, ◌≡◌, Bool, true, false, Option, none, some, List, [], ◌∷◌, length, take,
  length-take, leb, if◌then◌else◌, arith, Bytes, codes, bytes_eq,
}
use mathlib.Core.Path.{subst}
use claude_chats.Prelude.Int.{ℤ, pos, negsuc}
use claude_chats.Worker.Types.{Msg, Config, worker_init}
use claude_chats.Worker.Env.{Env, Sys, BatchReply, tree, plain}
use claude_chats.Worker.Sound.{Contract}

pub data DemoNode : Type 0 where
  envelope s3_object a_text a_number : DemoNode

abbrev pub demo_msg : Msg
demo_msg = record {
  message_id = codes "m-1";
  receipt = codes "r-1";
  body = codes "{}";
  receive_count = 1;
}

abbrev has_key : List Bytes → Bytes → DemoNode → Option DemoNode
has_key [] k v = none
has_key (x ∷ xs) k v = if bytes_eq x k then some v else has_key xs k v

abbrev demo_item : DemoNode → Bytes → Option DemoNode
demo_item envelope k =
    if bytes_eq k (codes "v")
    then some a_number
    else if bytes_eq k (codes "message_uuid")
    then some a_text
    else if bytes_eq k (codes "s3")
    then some s3_object
    else none
demo_item s3_object k = some a_text
demo_item a_text k = none
demo_item a_number k = none

abbrev demo_keys : DemoNode → List (Option Bytes)
demo_keys envelope = some (codes "v") ∷ some (codes "message_uuid") ∷ some (codes "s3") ∷ []
demo_keys s3_object = some (codes "bucket") ∷ some (codes "key") ∷ []
demo_keys a_text = []
demo_keys a_number = []

abbrev demo_le : ℤ → ℤ → Bool
demo_le (pos a) (pos b) = leb a b
demo_le (pos a) (negsuc b) = false
demo_le (negsuc a) (pos b) = true
demo_le (negsuc a) (negsuc b) = leb b a

-- The messages still in the queue.
abbrev demo_receive : ℕ → List Msg → Option (List Msg) × List Msg
demo_receive most [] = (some [], [])
demo_receive most (m ∷ ms) = if leb 1 most then (some (m ∷ []), ms) else (some [], m ∷ ms)

abbrev fine : BatchReply
fine = record { went_through = true; ok = λ n. true }

abbrev pub demo : Env
demo = record {
  Ctx = List Msg;
  now = λ c. (1000, c);
  net_begin = λ c. (none, c);
  net_end = λ c. c;
  tokenise = λ text most c. (some (take most text), c);
  embed = λ ids lens c.
      (record { ok = false; vecs = []; ms = 1; card_wait_ms = 1; why = codes "no card" }, c);
  health = λ c. (true, c);
  alloc = λ n c. (true, c);
  grow = λ c. (λ n. true, c);
  receive = λ most wait seconds c. demo_receive most c;
  send_batch = λ bodies c. (fine, c);
  delete_batch = λ receipts c. (fine, c);
  visibility_batch = λ receipts seconds c. (fine, c);
  sqs_error = λ c. codes "down";
  Node = DemoNode;
  Number = ℤ;
  parse = λ text c. (tree envelope, c);
  is_object = λ n. elim n [ envelope ↦ true | s3_object ↦ true | _ ↦ false ];
  is_string = λ n. elim n [ a_text ↦ true | _ ↦ false ];
  is_null = λ n. false;
  is_number = λ n. elim n [ a_number ↦ true | _ ↦ false ];
  keys = demo_keys;
  item = demo_item;
  valuestring = λ n. codes "u-1";
  valuedouble = λ n. pos 1;
  le = demo_le;
  of_int = λ z. z;
  is_whole = λ z. true;
  decrypt = λ text c. (plain text, c);
  isfinite = λ v. true;
  Double = ℕ;
  zero_sum = 0;
  add_square = λ s v. s + v * v;
  at_least = λ s n. leb n s;
  at_most = λ s n. leb s n;
}

demo_receive-le :
    (most : ℕ) (c c' ms : List Msg) → demo_receive most c ≡ (some ms, c') → length ms ≤ most
demo_receive-le most [] c' ms h = ground arith
demo_receive-le most (m ∷ c) c' ms h = ground arith

pub demo-Contract : Contract demo
demo-Contract = record {
  tokenise_le = λ text most c c' l h.
      let same : take most text ≡ l = cc in
      subst (λ x. length x ≤ most) same (omega (arith, length-take most text));
  receive_le = λ most wait seconds c c' ms room h. demo_receive-le most c c' ms h;
}

abbrev pub demo_config : Config
demo_config = record {
  board = codes "b";
  fw = codes "f";
  embedder = codes "e";
  has_identity = true;
  target_tokens = 512;
  pool_budget = 100000;
  pool_max = 4;
}

-- A worker that has just started, with the message in the queue.
abbrev pub demo_start : Sys demo
demo_start = record { w = worker_init demo_config; ctx = demo_msg ∷ []; log = [] }
