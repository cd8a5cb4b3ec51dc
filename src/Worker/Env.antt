-- ===== src/Worker/Env.antt =====
-- What the worker runs in: the callbacks of `worker_io_t`, the four SQS calls, the allocator, and the
-- libraries that it calls (cJSON, age, the C library's floating point). Each answers from a state
-- `Ctx` of its own, so any behaviour over time, every failure included, is a value of `Env`.
use claude_chats.Prelude.{ℕ, ◌≡◌, refl, ◌⊎◌, inl, inr, Bool, Option, List, ◌++◌, Bytes}
use claude_chats.Prelude.Int.{ℤ}
use claude_chats.Worker.Types.{Worker, Counts, Msg}

-- `cJSON_ParseWithLengthOpts` with the terminator required, and whether it was memory that failed.
pub data Parsed (Node : Type 0) : Type 0 where
  tree : Node → Parsed Node
  malformed : Parsed Node
  parse_no_memory : Parsed Node

pub Parsed-cases :
    {Node : Type 0} (p : Parsed Node)
    → ((p ≡ malformed) ⊎ (p ≡ parse_no_memory)) ⊎ ((n : Node) × (p ≡ tree n))
Parsed-cases (tree n) = inr (n, refl)
Parsed-cases malformed = inl (inl refl)
Parsed-cases parse_no_memory = inl (inr refl)

-- `age_decrypt`: AGE_OK, AGE_ERR_NOMEM, or another error.
pub data Decrypted : Type 0 where
  plain : Bytes → Decrypted
  refused : Decrypted
  decrypt_no_memory : Decrypted

pub Decrypted-cases :
    (d : Decrypted) → ((d ≡ refused) ⊎ (d ≡ decrypt_no_memory)) ⊎ ((b : Bytes) × (d ≡ plain b))
Decrypted-cases (plain b) = inr (b, refl)
Decrypted-cases refused = inl (inl refl)
Decrypted-cases decrypt_no_memory = inl (inr refl)

-- What `io->embed` returns: 0 or not, the vectors (bit patterns) and `worker_pass_info_t`.
pub record Embedded : Type 0 where
  pub ok : Bool
  pub vecs : List (List ℕ)
  pub ms : ℕ
  pub card_wait_ms : ℕ
  pub why : Bytes

-- What a batch call returns: whether it went through, and `ok[0 .. n)`.
pub record BatchReply : Type 0 where
  pub went_through : Bool
  pub ok : ℕ → Bool

pub record Env : Type 1 where
  pub Ctx : Type 0
  -- worker_io_t
  pub now : Ctx → ℕ × Ctx
  pub net_begin : Ctx → Option Bytes × Ctx
  pub net_end : Ctx → Ctx
  pub tokenise : Bytes → ℕ → Ctx → Option (List ℕ) × Ctx
  pub embed : List ℕ → List ℕ → Ctx → Embedded × Ctx
  pub health : Ctx → Bool × Ctx
  -- kw_alloc, and kw_realloc for the life of one buffer
  pub alloc : ℕ → Ctx → Bool × Ctx
  pub grow : Ctx → (ℕ → Bool) × Ctx
  -- sqs.h
  pub receive : ℕ → ℕ → ℕ → Ctx → Option (List Msg) × Ctx
  pub send_batch : List Bytes → Ctx → BatchReply × Ctx
  pub delete_batch : List Bytes → Ctx → BatchReply × Ctx
  pub visibility_batch : List Bytes → ℕ → Ctx → BatchReply × Ctx
  pub sqs_error : Ctx → Bytes
  -- cJSON
  pub Node : Type 0
  pub Number : Type 0
  pub parse : Bytes → Ctx → Parsed Node × Ctx
  pub is_object : Node → Bool
  pub is_string : Node → Bool
  pub is_null : Node → Bool
  pub is_number : Node → Bool
  pub keys : Node → List (Option Bytes)
  pub item : Node → Bytes → Option Node
  pub valuestring : Node → Bytes
  pub valuedouble : Node → Number
  pub le : Number → Number → Bool
  pub of_int : ℤ → Number
  pub is_whole : Number → Bool
  -- age.h, with the configured identity
  pub decrypt : Bytes → Ctx → Decrypted × Ctx
  -- math.h: `isfinite`, and the double that sums squares
  pub isfinite : ℕ → Bool
  pub Double : Type 0
  pub zero_sum : Double
  pub add_square : Double → ℕ → Double
  pub at_least : Double → ℕ → Bool
  pub at_most : Double → ℕ → Bool

-- What the outside sees of the worker: the messages it took, and its calls on the queues and the
-- model, the latest first.
pub data Event : Type 0 where
  received : Msg → Event
  sent : Bytes → Bool → Event
  deleted : Bytes → Event
  made_visible : Bytes → ℕ → Event
  embed_started : List ℕ → Event

-- The worker with what surrounds it.
pub record Sys (e : Env) : Type 0 where
  pub w : Worker
  pub ctx : e.Ctx
  pub log : List Event

module _ {e : Env} where
  abbrev pub on_worker : (Worker → Worker) → Sys e → Sys e
  on_worker f s = record s { w = f s.w }

  abbrev pub on_log : List Event → Sys e → Sys e
  on_log evs s = record s { log = evs ++ s.log }

-- A call on the surroundings.
abbrev pub ask : (e : Env) {A : Type 0} → (e.Ctx → A × e.Ctx) → Sys e → A × Sys e
ask e f s = let (a, c) = f s.ctx in (a, record s { ctx = c })

-- `COUNT`: since boot and today.
abbrev pub count : (Counts → Counts) → Worker → Worker
count f w = record w { boot = f w.boot; today = f w.today }
