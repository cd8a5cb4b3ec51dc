-- ===== src/Age/Payload.antt =====
-- The payload of an age file, `hkdf32` and `payload` of esp32-embedder/worker/age.c: chunks sealed one by one,
-- each under a nonce of its counter and of whether it is the last.
pub mod Sealed
pub mod Read
pub mod Exact
pub mod Nonces
use claude_chats.Prelude.{
  ℕ, zero, suc, ◌+◌, ◌-◌, ◌*◌, ◌/◌, ◌%◌, ◌^◌, Bool, true, false, ◌&&◌, ◌||◌, Option, none, some,
  List, [], ◌∷◌, ◌++◌, length, take, drop, ltb, ◌==◌, if◌then◌else◌, Bytes, codes,
}
use claude_chats.Age.{
  AgeErr, header_err, payload_err, nomem, crypto_err, Crypto, Unsealed, opened, auth_failed,
  unseal_failed,
}

abbrev pub chunk_size : ℕ
chunk_size = 65536

abbrev pub tag_size : ℕ
tag_size = 16

-- A plaintext, or why there is none.
pub data Plaintext : Type 0 where
  plaintext : Bytes → Plaintext
  no_plaintext : AgeErr → Plaintext

-- The counter in bytes 3 to 10, the most significant first, and the flag of the last chunk.
unfoldable pub chunk_nonce : ℕ → Bool → Bytes
chunk_nonce counter last =
    0
    ∷ 0
    ∷ 0
    ∷ (counter / 2 ^ 56 % 256)
    ∷ (counter / 2 ^ 48 % 256)
    ∷ (counter / 2 ^ 40 % 256)
    ∷ (counter / 2 ^ 32 % 256)
    ∷ (counter / 2 ^ 24 % 256)
    ∷ (counter / 2 ^ 16 % 256)
    ∷ (counter / 2 ^ 8 % 256)
    ∷ (counter % 256)
    ∷ (if last then 1 else 0)
    ∷ []

abbrev pub prepended : Bytes → Plaintext → Plaintext
prepended p (plaintext more) = plaintext (p ++ more)
prepended p (no_plaintext e) = no_plaintext e

-- How much of what is left the next chunk takes, its tag included.
unfoldable pub next_size : ℕ → ℕ → ℕ
next_size chunk left = if ltb (chunk + tag_size) left then chunk + tag_size else left

-- A chunk without a whole tag, and an empty one that is not the first.
unfoldable pub is_refused : ℕ → ℕ → Bool
is_refused n counter = ltb n tag_size || (n == tag_size && ltb 0 counter)

module _ (y : Crypto) where
  -- The salt, the key material of 16 bytes, and the label.
  unfoldable pub hkdf32 : Bytes → Bytes → Bytes → y.Ctx → Option Bytes × y.Ctx
  hkdf32 salt ikm info c = y.hkdf salt ikm info c

  -- One chunk and its tag, opened.
  unfoldable pub open_chunk : Bytes → ℕ → Bool → Bytes → y.Ctx → Unsealed × y.Ctx
  open_chunk key counter last sealed c =
      let n = length sealed - tag_size in
      y.auth_decrypt key (chunk_nonce counter last) (take n sealed) (drop n sealed) c

  -- What an opened chunk and the chunks behind it come to.
  unfoldable pub with_chunk : Unsealed × y.Ctx → Plaintext × y.Ctx → Plaintext × y.Ctx
  with_chunk (opened p, c1) more = (prepended p more.0, more.1)
  with_chunk (auth_failed, c1) more = (no_plaintext payload_err, c1)
  with_chunk (unseal_failed, c1) more = (no_plaintext crypto_err, c1)

  -- The loop over the chunks of at most `chunk` bytes, for what is left of the payload; the fuel is its
  -- length, since each round takes a tag at least.
  unfoldable pub open_chunks : ℕ → ℕ → Bytes → ℕ → Bytes → y.Ctx → Plaintext × y.Ctx
  open_chunks chunk fuel key counter [] c = (plaintext [], c)
  open_chunks chunk zero key counter (b ∷ rest) c = (no_plaintext payload_err, c)
  open_chunks chunk (suc fuel) key counter (b ∷ rest) c =
      let n = next_size chunk (length (b ∷ rest)) in
      let o = open_chunk key counter (n == length (b ∷ rest)) (take n (b ∷ rest)) c in
      let more = open_chunks chunk fuel key (counter + 1) (drop n (b ∷ rest)) o.1 in
      if is_refused n counter then (no_plaintext payload_err, c) else with_chunk o more

  -- The nonce of 16 bytes, then the chunks.
  unfoldable pub payload : Bytes → Bytes → y.Ctx → Plaintext × y.Ctx
  unfolding hkdf32
  payload file_key input c =
      if ltb (length input) 16
      then (no_plaintext header_err, c)
      else (let (k, c1) = hkdf32 (take 16 input) file_key (codes "payload") c in
          let rest = drop 16 input in
          elim k [
            | none ↦ (no_plaintext crypto_err, c1)
            | some key ↦
                if ltb (length rest) tag_size
                then (no_plaintext payload_err, c1)
                else (let (got, c2) = y.alloc (length rest + 1) c1 in
                    if got
                    then (let (ready, c3) = y.setkey key c2 in
                        if ready
                        then open_chunks chunk_size (length rest) key 0 rest c3
                        else (no_plaintext crypto_err, c3))
                    else (no_plaintext nomem, c2))
          ])
