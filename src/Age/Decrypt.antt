-- ===== src/Age/Decrypt.antt =====
-- `try_x25519` and `age_decrypt` of esp32-embedder/worker/age.c.
pub mod Keys
pub mod Exact
pub mod Reads
use claude_chats.Prelude.{
  ℕ, suc, ◌+◌, ◌-◌, ◌*◌, Bool, true, false, not, ◌&&◌, ◌||◌, Option, none, some, List, [], ◌∷◌,
  ◌++◌, length, replicate, take, drop, ltb, ◌==◌, if◌then◌else◌, Bytes, codes, bytes_eq,
}
use claude_chats.Kw.Base64.{raw_strict, b64_decode}
use claude_chats.Age.{
  AgeErr, header_err, no_match, hmac_err, nomem, crypto_err, AgeIdentity, Crypto, opened,
  auth_failed, unseal_failed, x25519,
}
use claude_chats.Age.Header.{
  max_stanzas, Stanza, ParsedHeader, parsed_header, no_header, read_header,
}
use claude_chats.Age.Payload.{Plaintext, plaintext, no_plaintext, hkdf32, payload}

abbrev pub intro : Bytes
intro = codes "age-encryption.org/v1\n"

abbrev pub x25519_label : Bytes
x25519_label = codes "age-encryption.org/v1/X25519"

-- 1, 0, and an error.
pub data Tried : Type 0 where
  unwrapped : Bytes → Tried
  not_ours : Tried
  try_failed : AgeErr → Tried

-- `is`: the type of a stanza.
abbrev pub is_kind : Bytes → Stanza → Bool
is_kind lit st = bytes_eq st.kind lit

unfoldable pub has_kind : Bytes → List Stanza → Bool
has_kind lit [] = false
has_kind lit (st ∷ sts) = is_kind lit st || has_kind lit sts

-- The one argument, 43 characters for 32 bytes, of a stanza with a body of 32.
unfoldable pub share_in : List Bytes → Bytes → Option Bytes
share_in [] body = none
share_in (arg ∷ []) body =
    if length arg == 43 && length body == 32
    then elim (b64_decode raw_strict arg) [
      | none ↦ none
      | some share ↦ if length share == 32 then some share else none
    ]
    else none
share_in (arg ∷ more ∷ args) body = none

unfoldable pub share_of : Stanza → Option Bytes
unfolding share_in
share_of st = share_in st.args st.body

pub data Decryption : Type 0 where
  -- The plaintext and the file key.
  decrypted : Bytes → Bytes → Decryption
  undecrypted : AgeErr → Decryption

abbrev pub decryption : Bytes → Plaintext → Decryption
decryption file_key (plaintext p) = decrypted p file_key
decryption file_key (no_plaintext e) = undecrypted e

module _ (y : Crypto) (id : AgeIdentity) where
  -- The file key in the body of a stanza, under this key.
  unfoldable pub unwrap : Bytes → Bytes → y.Ctx → Tried × y.Ctx
  unwrap key body c =
      let (ready, c1) = y.setkey key c in
      if ready
      then (let (o, c2) = y.auth_decrypt key (replicate 12 0) (take 16 body) (drop 16 body) c1 in
          elim o [
            | opened file_key ↦ (unwrapped file_key, c2)
            | auth_failed ↦ (not_ours, c2)
            | unseal_failed ↦ (try_failed crypto_err, c2)
          ])
      else (try_failed crypto_err, c1)

  unfoldable pub try_x25519 : Stanza → y.Ctx → Tried × y.Ctx
  unfolding share_of unwrap
  try_x25519 st c = elim (share_of st) [
    | none ↦ (try_failed header_err, c)
    | some share ↦
        let (shared, c1) = x25519 y id.secret share c in
        elim shared [
          | none ↦ (try_failed header_err, c1)
          | some secret ↦
              let (k, c2) = y.hkdf (share ++ id.public) secret x25519_label c1 in
              elim k [ none ↦ (try_failed crypto_err, c2) | some key ↦ unwrap key st.body c2 ]
        ]
  ]

  -- The file key from the first stanza for X25519 that opens.
  unfoldable pub find_key : List Stanza → y.Ctx → Tried × y.Ctx
  find_key [] c = (not_ours, c)
  find_key (st ∷ sts) c =
      let (tried, c1) : Tried × y.Ctx =
        if is_kind (codes "X25519") st then try_x25519 st c else (not_ours, c) in
      elim tried [
        | unwrapped file_key ↦ (unwrapped file_key, c1)
        | not_ours ↦ find_key sts c1
        | try_failed e ↦ (try_failed e, c1)
      ]

  -- The test of the MAC over `covered`, then the payload.
  unfoldable pub open_file : Bytes → Bytes → Bytes → Bytes → y.Ctx → Decryption × y.Ctx
  open_file file_key covered mac behind c =
      let (hkey, c1) = hkdf32 y [] file_key (codes "header") c in
      elim hkey [
        | none ↦ (undecrypted crypto_err, c1)
        | some key ↦
            let (want, c2) = y.hmac key covered c1 in
            elim want [
              | none ↦ (undecrypted crypto_err, c2)
              | some w ↦
                  if bytes_eq w mac
                  then (let (p, c3) = payload y file_key behind c2 in (decryption file_key p, c3))
                  else (undecrypted hmac_err, c2)
            ]
      ]

  -- What is done with a header that was read.
  unfoldable pub use_header : Bytes → ParsedHeader → y.Ctx → Decryption × y.Ctx
  unfolding has_kind find_key open_file
  use_header input (no_header e) c = (undecrypted e, c)
  use_header input (parsed_header sts mac uncovered behind) c =
      if length sts == 0 || (has_kind (codes "scrypt") sts && ltb 1 (length sts))
      then (undecrypted header_err, c)
      else (let (tried, c1) = find_key sts c in
          elim tried [
            | unwrapped file_key ↦
                open_file file_key (take (length input - length uncovered) input) mac behind c1
            | not_ours ↦ (undecrypted no_match, c1)
            | try_failed e ↦ (undecrypted e, c1)
          ])

  -- `stanza_size` is the size of a `stanza_t`.
  unfoldable pub age_decrypt : ℕ → Bytes → y.Ctx → Decryption × y.Ctx
  unfolding use_header
  age_decrypt stanza_size input c =
      if not (bytes_eq (take (length intro) input) intro)
      then (undecrypted header_err, c)
      else (let (got, c1) = y.alloc (max_stanzas * stanza_size) c in
          let rest = drop (length intro) input in
          if got
          then (let (h, c2) = read_header y (suc (length rest)) 0 rest c1 in use_header input h c2)
          else (undecrypted nomem, c1))
