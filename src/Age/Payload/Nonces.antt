-- ===== src/Age/Payload/Nonces.antt =====
-- The nonces of the chunks in esp32-embedder/worker/age.c.
use claude_chats.Prelude.{
  ℕ, ◌+◌, ◌*◌, ◌/◌, ◌%◌, ◌^◌, ◌<◌, ◌≡◌, Bool, get_or, ap, arith, if◌then◌else◌,
}
use claude_chats.Age.Payload.{chunk_nonce}

bytes_of_counter :
    (i : ℕ)
    → i < 2 ^ 64
    → i
      ≡ ((((((i / 2 ^ 56 % 256 * 256 + i / 2 ^ 48 % 256) * 256 + i / 2 ^ 40 % 256) * 256
                        + i / 2 ^ 32 % 256)
                      * 256
                    + i / 2 ^ 24 % 256)
                  * 256
                + i / 2 ^ 16 % 256)
              * 256
            + i / 2 ^ 8 % 256)
          * 256
        + i % 256
bytes_of_counter i h = omega arith

flag : (a b : Bool) → (if a then (let x : ℕ = 1 in x) else 0) ≡ (if b then 1 else 0) → a ≡ b
flag a b h = ground arith

-- Two chunks have the same nonce only if they have the same number and are both the last or both not.
pub chunk_nonce-injective :
    (i j : ℕ) (a b : Bool)
    → i < 2 ^ 64
    → j < 2 ^ 64
    → chunk_nonce i a ≡ chunk_nonce j b
    → (i ≡ j) × (a ≡ b)
unfolding chunk_nonce
chunk_nonce-injective i j a b hi hj h =
    let at = λ (k : ℕ). ap (λ l. get_or l k 0) h in
    (
      omega (
        arith,
        bytes_of_counter i hi,
        bytes_of_counter j hj,
        at 3,
        at 4,
        at 5,
        at 6,
        at 7,
        at 8,
        at 9,
        at 10,
      ),
      flag a b (at 11),
    )
