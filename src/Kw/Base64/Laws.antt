-- ===== src/Kw/Base64/Laws.antt =====
-- The length of a base64 text, for `b64_encode` and `jb_b64` of esp32-embedder/worker/kw.c.
use claude_chats.Prelude.{ℕ, ◌≡◌, Bool, [], ◌∷◌, arith, length, Bytes}
use claude_chats.Kw.Base64.{b64_encoded_len, b64_encode, jb_b64}
use claude_chats.Kw.Jbuf.{Jbuf}
use claude_chats.Kw.Jbuf.Laws.{Extends, jb_reserve-Extends}

-- The reserved length is the length written.
pub length-b64_encode : (d : Bytes) → length (b64_encode d) ≡ b64_encoded_len (length d)
unfolding b64_encode b64_encoded_len
length-b64_encode [] = omega arith
length-b64_encode (a ∷ []) = omega arith
length-b64_encode (a ∷ b ∷ []) = omega arith
length-b64_encode (a ∷ b ∷ c ∷ more) = omega (arith, length-b64_encode more)

pub jb_b64-Extends :
    (grow : ℕ → Bool) (b : Jbuf) (d : Bytes) → Extends b (jb_b64 grow b d) (b64_encode d)
unfolding jb_b64
jb_b64-Extends grow b d = record {
  appended = ground (arith, jb_reserve-Extends grow b (b64_encoded_len (length d)));
  allocated = ground (arith, jb_reserve-Extends grow b (b64_encoded_len (length d)));
}
