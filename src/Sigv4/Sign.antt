-- ===== src/Sigv4/Sign.antt =====
-- `sv4_sign` of esp32-embedder/worker/sigv4.c.
use claude_chats.Prelude.{
  ℕ, Bool, true, false, not, ◌&&◌, ◌||◌, Option, none, some, List, [], ◌∷◌, ◌++◌, length, take, ltb,
  leb, ◌==◌, if◌then◌else◌, Bytes, codes, bytes_eq,
}
use claude_chats.Kw.Jbuf.{Jbuf, jb_init, jb_put, jb_take}
use claude_chats.Sigv4.{
  Library, max_hdrs, hex, sv4_sha256_hex, uri_encode, put_each, lower_name, canonical_query,
  header_value,
}

-- `sv4_req_t`; no query and no body are empty ones.
pub record Sv4Req : Type 0 where
  pub method : Bytes
  pub path : Bytes
  pub query : Bytes
  pub hdrs : List (Bytes × Bytes)
  pub body : Bytes

-- `sv4_key_t`
pub record Sv4Key : Type 0 where
  pub access_key : Bytes
  pub secret_key : Bytes
  pub region : Bytes
  pub service : Bytes

-- The header's value, the canonical request and the string to sign.
pub record Signed : Type 0 where
  pub authz : Bytes
  pub canonical : Bytes
  pub to_sign : Bytes

unfoldable pub scope_of : Sv4Key → Bytes → Bytes
scope_of k amz_date =
    take 8 amz_date
    ++ (codes "/" ++ (k.region ++ (codes "/" ++ (k.service ++ codes "/aws4_request"))))

module _ (grow : ℕ → Bool) where
  -- The value joined with a comma to that of the header of this name, if there is one; without memory
  -- for it the value is empty, and the second part false.
  unfoldable pub join_value :
      Bytes → Bytes → List (Bytes × Bytes) → Option (List (Bytes × Bytes) × Bool)
  join_value name v [] = none
  join_value name v ((k, old) ∷ rest) =
      let later = join_value name v rest in
      if bytes_eq k name
      then elim (jb_take grow (jb_put grow (jb_put grow (jb_put grow jb_init old) (codes ",")) v)) [
        | none ↦ some ((k, []) ∷ rest, false)
        | some both ↦ some ((k, both) ∷ rest, true)
      ]
      else elim later [ none ↦ none | some (hs, fine) ↦ some ((k, old) ∷ hs, fine) ]

  -- A new header: nothing of it without memory for its name and its value.
  unfoldable pub new_header : Jbuf → Jbuf → List (Bytes × Bytes) → List (Bytes × Bytes) × Bool
  new_header name val hs = elim (jb_take grow name) [
    | none ↦ (hs, false)
    | some k ↦ elim (jb_take grow val) [ none ↦ (hs, false) | some v ↦ (hs ++ ((k, v) ∷ []), true) ]
  ]

  unfoldable pub add_header : Bytes × Bytes → List (Bytes × Bytes) → List (Bytes × Bytes) × Bool
  add_header (n, v) hs =
      let name = put_each grow jb_init (lower_name n) in
      let val = jb_put grow (header_value grow jb_init v) [] in
      elim (if name.cap == 0 then none else join_value name.bytes val.bytes hs) [
        | none ↦ new_header name val hs
        | some joined ↦ joined
      ]

  -- The headers, and whether there was memory for all of them.
  unfoldable pub add_headers :
      List (Bytes × Bytes) → List (Bytes × Bytes) → List (Bytes × Bytes) × Bool
  add_headers [] hs = (hs, true)
  add_headers (h ∷ rest) hs =
      let (hs1, fine1) = add_header h hs in
      let (hs2, fine2) = add_headers rest hs1 in (hs2, fine1 && fine2)

  -- The header lines, and the list of the names.
  unfoldable pub put_headers : Bool → List (Bytes × Bytes) → Jbuf × Jbuf → Jbuf × Jbuf
  put_headers first [] x = x
  put_headers first ((k, v) ∷ rest) (creq, names) =
      let creq1 =
        jb_put grow (jb_put grow (jb_put grow (jb_put grow creq k) (codes ":")) v) (codes "\n") in
      put_headers false rest
        (creq1, jb_put grow (if first then names else jb_put grow names (codes ";")) k)

  -- The canonical request and the names signed.
  unfoldable pub canonical_request : Library → Sv4Req → Jbuf × Jbuf
  canonical_request lib r =
      let (hs, fine) = add_headers r.hdrs [] in
      let start = if fine then jb_init else record jb_init { oom = true } in
      let line = jb_put grow (jb_put grow start r.method) (codes "\n") in
      let path = jb_put grow (uri_encode grow line r.path true) (codes "\n") in
      let query = jb_put grow (canonical_query grow lib path r.query) (codes "\n") in
      let (creq, names) = put_headers true (lib.sort_names hs) (query, jb_init) in
      let both = jb_put grow (jb_put grow creq (codes "\n")) names.bytes in
      (jb_put grow (jb_put grow both (codes "\n")) (sv4_sha256_hex lib r.body), names)

  -- The key of the day, the region and the service.
  unfoldable pub signing_key : Library → Sv4Key → Bytes → Bytes → Bytes
  signing_key lib k secret amz_date =
      lib.hmac (lib.hmac (lib.hmac (lib.hmac secret (take 8 amz_date)) k.region) k.service)
        (codes "aws4_request")

  unfoldable pub authorization : Sv4Key → Bytes → Bytes → Bytes → Bytes
  authorization k scope names signature =
      codes "AWS4-HMAC-SHA256 Credential="
      ++ (k.access_key
          ++ (codes "/"
              ++ (scope
                  ++ (codes ", SignedHeaders=" ++ (names ++ (codes ", Signature=" ++ signature))))))

  -- From the canonical request on.
  unfoldable pub sign_canonical : Library → Sv4Key → Bytes → ℕ → Jbuf → Jbuf → Option Signed
  sign_canonical lib k amz_date authz_len creq names =
      let scope = scope_of k amz_date in
      let sts = jb_put grow jb_init (
        codes "AWS4-HMAC-SHA256\n"
        ++ (amz_date
            ++ (codes "\n" ++ (scope ++ (codes "\n" ++ sv4_sha256_hex lib creq.bytes))))) in
      let secret = jb_put grow jb_init (codes "AWS4" ++ k.secret_key) in
      let authz =
        authorization k scope names.bytes
          (hex (lib.hmac (signing_key lib k secret.bytes amz_date) sts.bytes)) in
      if leb 96 (length scope)
      then none
      else if sts.oom || secret.oom
      then none
      else if leb authz_len (length authz)
      then none
      else some (record { authz = authz; canonical = creq.bytes; to_sign = sts.bytes })

  unfoldable pub sv4_sign : Library → Sv4Req → Sv4Key → Bytes → ℕ → Option Signed
  sv4_sign lib r k amz_date authz_len =
      let (creq, names) = canonical_request lib r in
      if ltb max_hdrs (length r.hdrs) || not (length amz_date == 16)
      then none
      else if creq.oom || names.oom
      then none
      else sign_canonical lib k amz_date authz_len creq names
