-- ===== src/Creds.antt =====
-- AWS credentials, esp32-embedder/worker/creds.c. cJSON, the allocator and the HTTPS request are
-- parameters.
pub mod Good
use claude_chats.Prelude.{
  ℕ, ◌+◌, Bool, true, false, not, ◌&&◌, ◌||◌, Option, none, some, is_none, List, [], ◌∷◌, ◌++◌,
  length, take, ltb, ◌==◌, if◌then◌else◌, Bytes, codes,
}
use claude_chats.Prelude.Int.{ℤ, pos, minus_one, above, is_negative}
use claude_chats.Kw.Iso.{kw_parse_iso8601}
use claude_chats.Sqs.{Reading}
use claude_chats.Http.{is_empty}

-- `CREDS_REFRESH_S`
abbrev pub creds_refresh_s : ℕ
creds_refresh_s = 600

-- `aws_creds_t`; without a token there are none.
pub record AwsCreds : Type 0 where
  pub access_key : Bytes
  pub secret_key : Bytes
  pub token : Option Bytes
  pub expires : ℤ

-- `creds_clear`: what `memset` leaves.
abbrev pub creds_clear : AwsCreds → AwsCreds
creds_clear c = record { access_key = []; secret_key = []; token = none; expires = pos 0 }

abbrev pub is_some {ℓ} : {A : Type ℓ} → Option A → Bool
is_some o = not (is_none o)

unfoldable pub creds_fresh : AwsCreds → ℕ → ℕ → Bool
creds_fresh c now margin_s = is_some c.token && above c.expires (now + margin_s)

-- What goes wrong, which `why` says.
pub data Why : Type 0 where
  not_provisioned unexpected expired : Why
  bad_status : ℤ → Option Bytes → Why

-- 1, 0 and -1.
pub data Refreshed : Type 0 where
  fetched cached : Refreshed
  failed : Why → Refreshed

-- `cJSON_Parse` and `creds_get_fn`: the status, and the response if there is any.
pub record Provider (r : Reading) : Type 1 where
  pub parse : Bytes → r.Ctx → Option r.Node × r.Ctx
  pub get : Bytes → Bytes → List (Bytes × Bytes) → r.Ctx → (ℤ × Option Bytes) × r.Ctx

-- The room of `access_key` and `secret_key`, their NUL included.
abbrev pub access_room : ℕ
access_room = 32

abbrev pub secret_room : ℕ
secret_room = 64

unfoldable pub fields_ok : Bytes → Bytes → Bytes → ℤ → Bool
fields_ok ak sk tok expires =
    not (is_empty ak)
    && (not (is_empty sk)
        && (not (is_empty tok)
            && (above expires 0 && (ltb (length ak) access_room && ltb (length sk) secret_room))))

module _ (r : Reading) (p : Provider r) where
  -- The copy of the token, and the whole of the new credentials with it.
  unfoldable pub keep_creds :
      Bytes → Bytes → Bytes → ℤ → AwsCreds → r.Ctx → (Bool × AwsCreds) × r.Ctx
  keep_creds ak sk tok expires c ctx =
      let (got, ctx1) = r.strndup tok ctx in
      if got
      then (
        (
          true,
          record (creds_clear c) {
            access_key = ak;
            secret_key = sk;
            token = some tok;
            expires = expires;
          },
        ),
        ctx1,
      )
      else ((false, c), ctx1)

  unfoldable pub take_creds : Option r.Node → AwsCreds → r.Ctx → (Bool × AwsCreds) × r.Ctx
  take_creds cr c ctx =
      let expires : ℤ = elim (r.string (r.item cr "expiration")) [
        | none ↦ minus_one
        | some e ↦ kw_parse_iso8601 e
      ] in
      elim (r.string (r.item cr "accessKeyId")) [
        | none ↦ ((false, c), ctx)
        | some ak ↦ elim (r.string (r.item cr "secretAccessKey")) [
          | none ↦ ((false, c), ctx)
          | some sk ↦ elim (r.string (r.item cr "sessionToken")) [
            | none ↦ ((false, c), ctx)
            | some tok ↦
                if fields_ok ak sk tok expires
                then keep_creds ak sk tok expires c ctx
                else ((false, c), ctx)
          ]
        ]
      ]

  -- Whether it returns 0, and the credentials.
  unfoldable pub creds_parse : Bytes → AwsCreds → r.Ctx → (Bool × AwsCreds) × r.Ctx
  creds_parse json c ctx =
      let (root, ctx1) = p.parse json ctx in take_creds (r.item root "credentials") c ctx1

  -- The message of an error response.
  unfoldable pub error_message : ℤ → Option Bytes → r.Ctx → Option Bytes × r.Ctx
  error_message status none ctx = (none, ctx)
  error_message status (some text) ctx =
      if above status 0
      then (let (e, ctx1) = p.parse text ctx in (r.string (r.item e "message"), ctx1))
      else (none, ctx)

  -- A response with status 200.
  unfoldable pub use_response : ℕ → Option Bytes → AwsCreds → r.Ctx → (Refreshed × AwsCreds) × r.Ctx
  use_response now none c ctx = ((failed unexpected, c), ctx)
  use_response now (some text) c ctx =
      let ((ok, c1), ctx1) = creds_parse text c ctx in
      if not ok
      then ((failed unexpected, c1), ctx1)
      else if not (creds_fresh c1 now 60)
      then ((failed expired, c1), ctx1)
      else ((fetched, c1), ctx1)

  -- `char path[128]`
  unfoldable pub creds_path : Bytes → Bytes
  creds_path role_alias = take 127 (codes "/role-aliases/" ++ (role_alias ++ codes "/credentials"))

  abbrev pub is_ok : ℤ → Bool
  is_ok (pos n) = n == 200
  is_ok _ = false

  unfoldable pub creds_refresh :
      AwsCreds → ℕ → Bytes → Bytes → Bytes → r.Ctx → (Refreshed × AwsCreds) × r.Ctx
  creds_refresh c now endpoint role_alias thing ctx =
      if creds_fresh c now creds_refresh_s
      then ((cached, c), ctx)
      else if is_empty endpoint || (is_empty role_alias || is_empty thing)
      then ((failed not_provisioned, c), ctx)
      else (let ((status, resp), ctx1) =
            p.get endpoint (creds_path role_alias) ((codes "x-amzn-iot-thingname", thing) ∷ [])
              ctx in
          if is_ok status
          then use_response now resp c ctx1
          else (let (m, ctx2) = error_message status resp ctx1 in
              ((failed (bad_status status m), c), ctx2)))
