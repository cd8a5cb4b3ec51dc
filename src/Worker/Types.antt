-- ===== src/Worker/Types.antt =====
-- The records of esp32-embedder/worker/worker.h and the message of sqs.h. Strings are byte lists,
-- absent where the pointer is NULL; times are Unix seconds.
use claude_chats.Prelude.{
  ℕ, Bool, true, false, Option, none, some, List, [], length, replicate, ltb, if◌then◌else◌, Bytes,
  codes,
}
use claude_chats.Prelude.Int.{ℤ, pos}

abbrev pub visibility_s : ℕ
visibility_s = 900

abbrev pub extend_horizon_s : ℕ
extend_horizon_s = 600

abbrev pub long_poll_s : ℕ
long_poll_s = 20

abbrev pub idle_s : ℕ
idle_s = 40

abbrev pub retry_first_s : ℕ
retry_first_s = 30

abbrev pub retry_max_s : ℕ
retry_max_s = 300

abbrev pub bad_passes_limit : ℕ
bad_passes_limit = 3

abbrev pub health_every_s : ℕ
health_every_s = 1800

abbrev pub max_receive : ℕ
max_receive = 3

abbrev pub solo_receive : ℕ
solo_receive = 2

abbrev pub retries_receive : ℕ
retries_receive = 3

abbrev pub worst_body : ℕ
worst_body = 40960

abbrev pub card_history : ℕ
card_history = 15

abbrev pub json_depth : ℕ
json_depth = 32

abbrev pub sqs_max_batch : ℕ
sqs_max_batch = 10

abbrev pub sqs_max_batch_bytes : ℕ
sqs_max_batch_bytes = 262144

-- `sqs_msg_t`. The body is NULL once the result is built.
pub record Msg : Type 0 where
  pub message_id : Bytes
  pub receipt : Bytes
  pub body : Bytes
  pub receive_count : ℕ

pub data JobState : Type 0 where
  pending has_result to_delete : JobState

-- The strings of `REASONS`, in its order.
pub data Reason : Type 0 where
  claim_check decrypt_failed retries too_long kata_unhealthy : Reason

abbrev pub reason_text : Reason → Bytes
reason_text claim_check = codes "claim-check"
reason_text decrypt_failed = codes "decrypt-failed"
reason_text retries = codes "retries"
reason_text too_long = codes "too-long"
reason_text kata_unhealthy = codes "kata-unhealthy"

abbrev pub reason_index : Reason → ℕ
reason_index claim_check = 0
reason_index decrypt_failed = 1
reason_index retries = 2
reason_index too_long = 3
reason_index kata_unhealthy = 4

-- `job_t`. `body` is `m.body`, apart because it is freed while the rest of the message stays.
pub record Job : Type 0 where
  pub m : Msg
  pub body : Option Bytes
  pub uuid : Bytes
  pub received_at : ℕ
  pub visible_until : ℤ
  pub state : JobState
  pub solo : Bool
  pub ids : Option (List ℕ)
  pub n_ids : ℕ
  pub truncated : Bool
  pub result : Option Bytes
  pub reason : Option Reason
  pub delete_tries : ℤ

-- What `memset` and `j->m = msgs[i]` leave.
abbrev pub fresh_job : Msg → Job
fresh_job m = record {
  m = m;
  body = some m.body;
  uuid = [];
  received_at = 0;
  visible_until = pos 0;
  state = pending;
  solo = false;
  ids = none;
  n_ids = 0;
  truncated = false;
  result = none;
  reason = none;
  delete_tries = pos 0;
}

abbrev pub is_pending : Job → Bool
is_pending j = elim j.state [ pending ↦ true | _ ↦ false ]

abbrev pub is_result : Job → Bool
is_result j = elim j.state [ has_result ↦ true | _ ↦ false ]

abbrev pub is_delete : Job → Bool
is_delete j = elim j.state [ to_delete ↦ true | _ ↦ false ]

abbrev pub bytes_or_nil : Option Bytes → Bytes
bytes_or_nil none = []
bytes_or_nil (some b) = b

abbrev pub ids_or_nil : Option (List ℕ) → List ℕ
ids_or_nil none = []
ids_or_nil (some l) = l

-- `body_len`, `result_len`.
abbrev pub body_len : Job → ℕ
body_len j = length (bytes_or_nil j.body)

abbrev pub result_len : Job → ℕ
result_len j = length (bytes_or_nil j.result)

-- `worker_counts_t`.
pub record Counts : Type 0 where
  pub passes : ℕ
  pub messages : ℕ
  pub unembedded : List ℕ
  pub bad_passes : ℕ
  pub invalid : ℕ
  pub send_failures : ℕ
  pub delete_failures : ℕ
  pub phase_failures : ℕ
  pub visibility_failures : ℕ

abbrev pub no_counts : Counts
no_counts = record {
  passes = 0;
  messages = 0;
  unembedded = replicate 5 0;
  bad_passes = 0;
  invalid = 0;
  send_failures = 0;
  delete_failures = 0;
  phase_failures = 0;
  visibility_failures = 0;
}

-- The strings that `state` points to.
pub data Activity : Type 0 where
  idle receiving embedding handing_off sick_state parked_state checking : Activity

-- `worker_cfg_t`, without the two queue URLs: each call says which queue it is to.
pub record Config : Type 0 where
  pub board : Bytes
  pub fw : Bytes
  pub embedder : Bytes
  pub has_identity : Bool
  pub target_tokens : ℕ
  pub pool_budget : ℕ
  pub pool_max : ℕ

pub record LastPass : Type 0 where
  pub n_seg : ℕ
  pub tokens : ℕ
  pub ms : ℕ
  pub card_wait_ms : ℕ
  pub at : ℕ

-- `worker_t`; `pool[0 .. n)` is a list.
pub record Worker : Type 0 where
  pub cfg : Config
  pub pool : List Job
  pub pool_tokens : ℕ
  pub sick : Bool
  pub bad_in_row : ℕ
  pub sick_since : ℕ
  pub next_health : ℕ
  pub retry_s : ℕ
  pub park_requested : Bool
  pub parked : Bool
  pub state : Activity
  pub boot : Counts
  pub today : Counts
  pub today_ymd : Bytes
  pub last_pass : LastPass
  pub card_wait : List ℕ
  pub n_card : ℕ
  pub last_handoff_at : ℕ
  pub progress_at : ℕ
  pub last_error : Bytes

-- `worker_init`, where its one allocation succeeds.
unfoldable pub worker_init : Config → Worker
worker_init cfg = record {
  cfg = record cfg { pool_max = if ltb cfg.pool_max 1 then 1 else cfg.pool_max };
  pool = [];
  pool_tokens = 0;
  sick = false;
  bad_in_row = 0;
  sick_since = 0;
  next_health = 0;
  retry_s = 0;
  park_requested = false;
  parked = false;
  state = idle;
  boot = no_counts;
  today = no_counts;
  today_ymd = [];
  last_pass = record { n_seg = 0; tokens = 0; ms = 0; card_wait_ms = 0; at = 0 };
  card_wait = replicate card_history 0;
  n_card = 0;
  last_handoff_at = 0;
  progress_at = 0;
  last_error = [];
}
