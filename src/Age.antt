-- ===== src/Age.antt =====
-- Decryption of age files, esp32-embedder/worker/age.c: what it uses of mbedTLS, and its keys.
pub mod Bech32
pub mod Header
pub mod Payload
pub mod Decrypt
use claude_chats.Prelude.{
  ℕ, zero, suc, ◌+◌, ◌-◌, ◌*◌, ◌/◌, ◌%◌, Bool, true, false, Option, none, some, List, [], ◌∷◌, ◌++◌,
  length, replicate, take, ◌==◌, if◌then◌else◌, Bytes, codes,
}

-- `age_err_t` without AGE_OK.
pub data AgeErr : Type 0 where
  header_err no_match hmac_err payload_err nomem crypto_err : AgeErr

unfoldable pub age_strerror : Option AgeErr → Bytes
age_strerror none = codes "ok"
age_strerror (some header_err) = codes "malformed header"
age_strerror (some no_match) = codes "not encrypted to this identity"
age_strerror (some hmac_err) = codes "header MAC mismatch"
age_strerror (some payload_err) = codes "payload doesn't decrypt"
age_strerror (some nomem) = codes "out of memory"
age_strerror (some crypto_err) = codes "crypto error"

pub record AgeIdentity : Type 0 where
  pub secret : Bytes
  pub public : Bytes

-- `mbedtls_chachapoly_auth_decrypt`: 0, MBEDTLS_ERR_CHACHAPOLY_AUTH_FAILED, or another error.
pub data Unsealed : Type 0 where
  opened : Bytes → Unsealed
  auth_failed : Unsealed
  unseal_failed : Unsealed

-- mbedTLS, the random numbers it is given, and the allocator, which answer from a state of their own.
-- `ecp_mul` is the product on Curve25519 of a clamped scalar with a point, from loading the group to
-- writing the point; `none` is a failure of any of these calls. `auth_decrypt` takes the key, the nonce, the
-- ciphertext and its tag.
pub record Crypto : Type 1 where
  pub Ctx : Type 0
  pub alloc : ℕ → Ctx → Bool × Ctx
  pub has_rng : Ctx → Bool
  pub ecp_mul : Bytes → Bytes → Ctx → Option Bytes × Ctx
  pub hkdf : Bytes → Bytes → Bytes → Ctx → Option Bytes × Ctx
  pub hmac : Bytes → Bytes → Ctx → Option Bytes × Ctx
  pub setkey : Bytes → Ctx → Bool × Ctx
  pub auth_decrypt : Bytes → Bytes → Bytes → Bytes → Ctx → Unsealed × Ctx

-- Bits 0, 1, 2 and 255 of the little-endian scalar cleared, bit 254 set; `last` is the byte that
-- holds the last two.
unfoldable pub clamp_last : Bytes → Bytes
clamp_last [] = []
clamp_last (b ∷ []) = (b % 64 + 64) ∷ []
clamp_last (b ∷ c ∷ s) = b ∷ clamp_last (c ∷ s)

unfoldable pub clamp : Bytes → Bytes
unfolding clamp_last
clamp [] = []
clamp (b ∷ s) = clamp_last ((b - b % 8) ∷ s)

-- `z |= out[i]` is zero.
unfoldable pub all_zero : Bytes → Bool
all_zero [] = true
all_zero (b ∷ s) = if b == 0 then all_zero s else false

module _ (y : Crypto) where
  unfoldable pub x25519 : Bytes → Bytes → y.Ctx → Option Bytes × y.Ctx
  unfolding clamp all_zero
  x25519 scalar u c =
      if y.has_rng c
      then (let (o, c1) = y.ecp_mul (clamp scalar) u c in
          elim o [ none ↦ (none, c1) | some out ↦ (if all_zero out then none else some out, c1) ])
      else (none, c)
