-- ===== src/Tests/ClientRuns.antt =====
-- Credentials fetched, a queue's URL, and the requests of a client.
use claude_chats.Prelude.{
  ℕ, arith, ◌++◌, ◌<◌, ◌≡◌, ◌⊎◌, refl, true, false, none, some, List, [], ◌∷◌, length, ltb,
  if◌then◌else◌, Bytes, codes, bytes_eq, split_at, decimal, decimal_onto, All,
}
use claude_chats.Prelude.Int.{pos, difference}
use claude_chats.Kw.Jbuf.{jb_init, doubled, jb_reserve, jb_put}
use claude_chats.Kw.Escape.{is_plain, hex_digit, escape_byte, escape_run, jb_json_str}
use claude_chats.Kw.Time.{civil_from_days}
use claude_chats.Kw.Iso.{
  kw_days_from_civil, kw_parse_iso8601, day_of_era, digits_onto, digits, zone_ok, plus_seconds,
  in_range, shape_ok,
}
use claude_chats.Kw.Iso.Days.{kw_days_from_civil-civil_from_days}
use claude_chats.Creds.{
  AwsCreds, fetched, Provider, creds_fresh, creds_parse, take_creds, keep_creds, fields_ok,
  use_response, creds_refresh,
}
use claude_chats.Sigv4.{
  Library, unreserved, encode_byte, hexval, escaped_value, uri_encode, unescape, query_part,
}
use claude_chats.Sigv4.Encoding.{encoded_text, query_part_lem}
use claude_chats.Sqs.{Reading}
use claude_chats.Sqs.Client.{SqsClient, Wire, region_of, sqs_init, jb_reset}
use claude_chats.Sqs.Client.Calls.{
  begin_body, entry_head, put_entries, batch_body, sqs_send_batch, total_of,
}
use claude_chats.Sqs.Client.Requests.{batch_text, batch_body_lem}
use claude_chats.Sqs.Client.Answers.{sqs_send_batch_lem}
use claude_chats.Sqs.Client.Hosts.{Reaches, sqs_init_lem}

kw_days_from_civil-civil_from_days_example :
    kw_days_from_civil
      (civil_from_days 19782).year
      (civil_from_days 19782).month
      (civil_from_days 19782).day
    ≡ pos 19782
kw_days_from_civil-civil_from_days_example = kw_days_from_civil-civil_from_days 19782

october : kw_parse_iso8601 (codes "2026-10-13T18:00:00Z") ≡ pos 1791914400
unfolding kw_parse_iso8601 kw_days_from_civil day_of_era digits_onto digits zone_ok plus_seconds
    in_range shape_ok difference bytes_eq
october = refl

-- A tree in which every item is there, named by its key.
abbrev pub by_key : Reading
by_key = record {
  Node = Bytes;
  item = λ o k. some (codes k);
  string = λ o. elim o [
    | none ↦ none
    | some k ↦ some (if bytes_eq k (codes "expiration") then codes "2026-10-13T18:00:00Z" else k)
  ];
  elems = λ o. [];
  md5_hex = λ b. codes "d";
  atoi = λ b. pos 0;
  Ctx = Unit;
  strndup = λ b c. (true, c);
}

abbrev answering : Provider by_key
answering = record {
  parse = λ b c. (some b, c);
  get = λ host path hdrs c. ((pos 200, some (codes "{}")), c);
}

abbrev no_creds : AwsCreds
no_creds = record { access_key = []; secret_key = []; token = none; expires = pos 0 }

new_creds :
    (creds_refresh by_key answering no_creds 1791900000 (codes "e") (codes "a") (codes "t") tt).0.0
    ≡ fetched
unfolding creds_refresh creds_fresh use_response creds_parse take_creds keep_creds fields_ok
    bytes_eq kw_parse_iso8601 kw_days_from_civil day_of_era digits_onto digits zone_ok plus_seconds
    in_range shape_ok difference
new_creds = refl

abbrev queue : Bytes
queue = codes "https://sqs.eu-west-2.amazonaws.com/123/ingest"

abbrev pub client : SqsClient
client = record {
  creds = none;
  region = codes "eu-west-2";
  host = codes "sqs.eu-west-2.amazonaws.com";
  req = jb_init;
  resp = jb_init;
  last_status = pos 0;
  last_error = [];
}

client_made : sqs_init queue none ≡ some client
unfolding sqs_init region_of split_at bytes_eq
client_made = refl

sqs_init_lem_example : Reaches queue none client
sqs_init_lem_example = sqs_init_lem queue none client client_made

-- No digest at all, and lists that are in order.
abbrev plain : Library
plain = record { sha256 = λ b. b; hmac = λ k b. b; sort_names = λ l. l; sort_pairs = λ l. l }

abbrev pub silent : Wire by_key
silent = record {
  grow = λ n. ltb n 4097;
  alloc = λ n c. (true, c);
  now = λ c. (1791900000, c);
  post = λ req resp c. ((pos 503, resp), c);
  parse = λ b c. (none, c);
  library = plain;
}

abbrev two_bodies : List Bytes
two_bodies = codes "{\"a\":1}" ∷ codes "b" ∷ []

sqs_send_batch_lem_example :
    let ((x, s1), ctx1) = sqs_send_batch by_key silent client queue two_bodies tt in
    (length x.1 ≡ 2)
    × (x.0 ≡ false → All (λ b. b ≡ false) x.1)
    × ((◌≡◌ {A = List Bytes} two_bodies []) ⊎ ((10 < 2) ⊎ (262144 < total_of two_bodies))
        → (x.0 ≡ false) × (ctx1 ≡ tt))
sqs_send_batch_lem_example = sqs_send_batch_lem by_key silent client queue two_bodies tt

body_of_two :
    (batch_body by_key silent jb_init queue (codes "MessageBody") none two_bodies).bytes
    ≡ codes
        "{\"QueueUrl\":\"https://sqs.eu-west-2.amazonaws.com/123/ingest\",\"Entries\":[{\"Id\":\"0\",\"MessageBody\":\"{\\\"a\\\":1}\"},{\"Id\":\"1\",\"MessageBody\":\"b\"}]}"
unfolding batch_body put_entries entry_head begin_body jb_reset jb_json_str escape_run is_plain
    escape_byte hex_digit jb_put jb_reserve doubled decimal decimal_onto
body_of_two = refl

batch_body_lem_example :
    let b1 = batch_body by_key silent jb_init queue (codes "MessageBody") none two_bodies in
    ((b1.oom ≡ false) × (b1.bytes ≡ batch_text queue (codes "MessageBody") none two_bodies))
    ⊎ ((b1.oom ≡ true) × ((n : ℕ) × (silent.grow n ≡ false)))
batch_body_lem_example =
    batch_body_lem by_key silent jb_init queue (codes "MessageBody") none two_bodies

abbrev raw_key : Bytes
raw_key = codes "a b/c"

part_fits : (query_part (λ n. ltb n 4097) jb_init (encoded_text false raw_key)).oom ≡ false
unfolding query_part uri_encode unescape encoded_text encode_byte unreserved escaped_value hexval
    jb_put jb_reserve doubled
part_fits = refl

query_part_lem_example :
    (query_part (λ n. ltb n 4097) jb_init (encoded_text false raw_key)).bytes
    ≡ [] ++ encoded_text false raw_key
query_part_lem_example =
    query_part_lem (λ n. ltb n 4097) jb_init raw_key
      (omega arith, (omega arith, (omega arith, (omega arith, (omega arith, tt))))) part_fits
