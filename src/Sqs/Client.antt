-- ===== src/Sqs/Client.antt =====
-- The calls of esp32-embedder/worker/sqs.c: `sqs_init`, `call`, and the requests. The transport, the
-- clock, cJSON, mbedtls and the allocator are parameters.
pub mod Calls
pub mod Requests
pub mod Answers
pub mod Hosts
use claude_chats.Prelude.{
  ℕ, zero, suc, ◌+◌, Bool, true, false, not, ◌&&◌, ◌||◌, Option, none, some, is_none, List, [], ◌∷◌,
  ◌++◌, length, take, drop, replicate, ltb, leb, ◌==◌, if◌then◌else◌, Bytes, codes, bytes_eq,
  split_at, decimal,
}
use claude_chats.Prelude.Int.{ℤ, pos, negsuc, minus_one, is_negative}
use claude_chats.Kw.Jbuf.{Jbuf, jb_init, jb_put}
use claude_chats.Kw.Escape.{jb_json_str}
use claude_chats.Kw.Time.{kw_amz_date}
use claude_chats.Sigv4.{Library}
use claude_chats.Sigv4.Sign.{Sv4Req, Sv4Key, sv4_sign}
use claude_chats.Creds.{AwsCreds}
use claude_chats.Worker.Types.{sqs_max_batch, sqs_max_batch_bytes}
use claude_chats.Sqs.{Reading, Message, clamp_max, read_messages, batch_outcome}

abbrev pub Headers : Type 0
Headers = List (Bytes × Bytes)

-- `http_req_t`
pub record HttpReq : Type 0 where
  pub host : Bytes
  pub path : Bytes
  pub hdrs : Headers
  pub body : Bytes

-- `sqs_t`, its credentials those that the pointer leads to.
pub record SqsClient : Type 0 where
  pub creds : Option AwsCreds
  pub region : Bytes
  pub host : Bytes
  pub req : Jbuf
  pub resp : Jbuf
  pub last_status : ℤ
  pub last_error : Bytes

-- What a call uses: `kw_realloc`, `kw_alloc`, the clock, `http_post_fn`, `cJSON_ParseWithLength`, and
-- what signing uses of mbedtls.
pub record Wire (r : Reading) : Type 1 where
  pub grow : ℕ → Bool
  pub alloc : ℕ → r.Ctx → Bool × r.Ctx
  pub now : r.Ctx → ℕ × r.Ctx
  pub post : HttpReq → Jbuf → r.Ctx → (ℤ × Jbuf) × r.Ctx
  pub parse : Bytes → r.Ctx → Option r.Node × r.Ctx
  pub library : Library

-- `sqs.<region>.amazonaws.com`, its region in front of the first dot behind "sqs.".
unfoldable pub region_of : Bytes → Option Bytes
region_of host = elim (split_at b'.' (drop 4 host)) [
  | none ↦ none
  | some (region, rest) ↦
      if not (bytes_eq rest (codes "amazonaws.com")) || leb 24 (length region)
      then none
      else some region
]

unfoldable pub sqs_init : Bytes → Option AwsCreds → Option SqsClient
sqs_init queue_url creds =
    if bytes_eq (take 8 queue_url) (codes "https://")
    then elim (split_at b'/' (drop 8 queue_url)) [
      | none ↦ none
      | some (host, rest) ↦
          if not (bytes_eq (take 4 (drop 8 queue_url)) (codes "sqs.")) || leb 64 (length host)
          then none
          else elim (region_of host) [
            | none ↦ none
            | some region ↦ some (record {
              creds = creds;
              region = region;
              host = host;
              req = jb_init;
              resp = jb_init;
              last_status = pos 0;
              last_error = [];
            })
          ]
    ]
    else none

unfoldable pub jb_reset : Jbuf → Jbuf
jb_reset b = record b { bytes = []; oom = false }

-- `SQS_KEEP_BUF`
abbrev pub keep_buf : ℕ
keep_buf = 65536

abbrev pub shrunk : Jbuf → Jbuf
shrunk b = if ltb keep_buf b.cap then jb_init else b

unfoldable pub shrink : SqsClient → SqsClient
shrink s = record s { req = shrunk s.req; resp = shrunk s.resp }

-- `snprintf` into `last_error`.
abbrev pub note_error : Bytes → SqsClient → SqsClient
note_error text s = record s { last_error = take 159 text }

-- The credentials, where there are any with a token.
abbrev pub with_token : Option AwsCreds → Option (AwsCreds × Bytes)
with_token none = none
with_token (some c) = elim c.token [ none ↦ none | some token ↦ some (c, token) ]

-- `%d`
unfoldable pub int_text : ℤ → Bytes
int_text (pos n) = decimal n
int_text (negsuc n) = b'-' ∷ decimal (n + 1)

abbrev pub or_empty : Option Bytes → Bytes
or_empty none = []
or_empty (some s) = s

abbrev pub or_mark : Option Bytes → Bytes
or_mark none = codes "?"
or_mark (some s) = s

-- The type behind its '#'.
unfoldable pub short_type : Option Bytes → Bytes
short_type none = []
short_type (some t) = elim (split_at b'#' t) [ none ↦ t | some (a, b) ↦ b ]

unfoldable pub status_text : Bytes → ℤ → Option Bytes → Option Bytes → Bytes
status_text action status type msg =
    action
    ++ (codes ": HTTP "
        ++ (int_text status
            ++ (codes " "
                ++ (short_type type
                    ++ ((if is_none msg then [] else codes ": ") ++ or_empty msg)))))

module _ (r : Reading) (w : Wire r) where
  -- `resp.p ? cJSON_ParseWithLength(...) : NULL`
  unfoldable pub parse_response : Jbuf → r.Ctx → Option r.Node × r.Ctx
  parse_response b ctx = if b.cap == 0 then (none, ctx) else w.parse b.bytes ctx

  unfoldable pub error_of : Bytes → ℤ → Option r.Node → Bytes
  error_of action status j =
      status_text action status (r.string (r.item j "__type"))
        (elim (r.string (r.item j "message")) [
          | none ↦ r.string (r.item j "Message")
          | some m ↦ some m
        ])

  abbrev pub is_200 : ℤ → Bool
  is_200 (pos n) = n == 200
  is_200 _ = false

  -- From the response on.
  unfoldable pub take_response : Bytes → SqsClient → r.Ctx → (Option r.Node × SqsClient) × r.Ctx
  take_response action s ctx =
      if s.resp.oom
      then ((none, shrink (note_error (action ++ codes ": out of memory for the response") s)), ctx)
      else if is_negative s.last_status
      then ((none, note_error (action ++ codes ": no response") s), ctx)
      else (let (j, ctx1) = parse_response s.resp ctx in
          if not (is_200 s.last_status)
          then ((none, shrink (note_error (error_of action s.last_status j) s)), ctx1)
          else (
            (
              j,
              shrink (
                  if is_none j
                  then note_error
                      (action
                        ++ (codes ": unparseable response ("
                            ++ (decimal (length s.resp.bytes) ++ codes " bytes)")))
                      s
                  else s),
            ),
            ctx1,
          ))

  -- The headers in front of the signature.
  unfoldable pub call_headers : SqsClient → Bytes → Bytes → Bytes → Headers
  call_headers s action token date =
      (codes "Content-Type", codes "application/x-amz-json-1.0")
      ∷ (codes "Host", s.host)
      ∷ (codes "X-Amz-Date", date)
      ∷ (codes "X-Amz-Security-Token", token)
      ∷ (codes "X-Amz-Target", take 47 (codes "AmazonSQS." ++ action))
      ∷ []

  -- With credentials: sign, post, and take the response.
  unfoldable pub signed_call :
      Bytes → SqsClient → AwsCreds → Bytes → r.Ctx → (Option r.Node × SqsClient) × r.Ctx
  signed_call action s c token ctx =
      let (t, ctx1) = w.now ctx in
      let date = kw_amz_date t in
      let h = call_headers s action token date in
      let sr : Sv4Req = record {
        method = codes "POST";
        path = codes "/";
        query = [];
        hdrs = h;
        body = s.req.bytes;
      } in
      let key : Sv4Key = record {
        access_key = c.access_key;
        secret_key = c.secret_key;
        region = s.region;
        service = codes "sqs";
      } in
      elim (sv4_sign w.grow w.library sr key date 320) [
        | none ↦ ((none, note_error (action ++ codes ": signing failed") s), ctx1)
        | some signed ↦
            let ((status, resp), ctx2) =
              w.post
                (record {
                  host = s.host;
                  path = codes "/";
                  hdrs = h ++ ((codes "Authorization", signed.authz) ∷ []);
                  body = s.req.bytes;
                })
                (jb_reset s.resp) ctx1 in
            take_response action (record s { resp = resp; last_status = status }) ctx2
      ]

  unfoldable pub call : Bytes → SqsClient → r.Ctx → (Option r.Node × SqsClient) × r.Ctx
  call action s ctx =
      let s0 = record s { last_error = []; last_status = minus_one } in
      if s.req.oom
      then ((none, note_error (action ++ codes ": out of memory") s0), ctx)
      else elim (with_token s.creds) [
        | none ↦ ((none, note_error (action ++ codes ": no credentials") s0), ctx)
        | some (c, token) ↦ signed_call action s0 c token ctx
      ]
