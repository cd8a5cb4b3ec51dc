-- ===== src/Tests/AgeRuns.antt =====
-- A small age file, opened with an identity; the sealing only puts its tag behind the text.
use claude_chats.Prelude.{
  ℕ, ◌+◌, ◌≡◌, ◌≢◌, refl, sym, ap, ◌∙◌, inl, Bool, true, false, none, some, List, [], ◌∷◌, ◌++◌,
  length, length-append, length-take, replicate, take, take-length-append, drop-length-append,
  if◌then◌else◌, arith, Bytes, codes, bytes_eq, bytes_eq_refl, bytes_eq→eq, split_at,
}
use mathlib.Core.Path.{subst}
use claude_chats.Age.{AgeIdentity, Crypto, opened, auth_failed, x25519, clamp, clamp_last, all_zero}
use claude_chats.Age.Payload.{
  plaintext, chunk_nonce, chunk_size, next_size, is_refused, open_chunk, with_chunk, open_chunks,
  hkdf32, payload,
}
use claude_chats.Age.Payload.Sealed.{IsSealing, HasMemory, joined, Chunked, sealed}
use claude_chats.Age.Payload.Nonces.{chunk_nonce-injective}
use claude_chats.Age.Payload.Exact.{payload-sealed}
use claude_chats.Kw.Base64.{b64_decode, decode_from, padding, b64_val}
use claude_chats.Kw.Base64.Groups.{unpadded}
use claude_chats.Age.Bech32.{
  polymod_step, all_printable, some_lower, some_upper, split_last, index_in, match_hrp, low_bits,
  gather_bits, read_data, bech32_data, bech32_decode, age_recipient_parse,
}
use claude_chats.Age.Bech32.Keys.{KeyText, bech32_decode-KeyText}
use claude_chats.Age.Header.Text.{HeaderText}
use claude_chats.Age.Decrypt.Reads.{IsWorking, age_decrypt-round_trip}
use claude_chats.Age.Header.{
  Stanza, read_header, mac_line, parse_stanza, stanza_words, all_vchars, vchar, body_lines,
  stanza_of,
}
use claude_chats.Age.Decrypt.{
  intro, decrypted, share_in, share_of, unwrap, try_x25519, find_key, has_kind, open_file,
  use_header, age_decrypt,
}
use claude_chats.Age.Decrypt.Exact.{AgeFile, age_decrypt-AgeFile}

abbrev pub tag_of : Bytes → Bytes
tag_of nonce = take 16 (nonce ++ replicate 16 0)

abbrev pub toy_seal : Bytes → Bytes → Bytes → Bytes
toy_seal key nonce p = p ++ tag_of nonce

abbrev pub toy : Crypto
toy = record {
  Ctx = Unit;
  alloc = λ n c. (true, c);
  has_rng = λ c. true;
  ecp_mul = λ s u c. (some (replicate 32 7), c);
  hkdf = λ salt ikm info c. (some (replicate 32 1), c);
  hmac = λ key text c. (some (replicate 32 2), c);
  setkey = λ key c. (true, c);
  auth_decrypt =
      λ key nonce text tag c. (if bytes_eq tag (tag_of nonce) then opened text else auth_failed, c);
}

opens_text :
    (b : Bool) (text p : Bytes)
    → (if b then opened text else auth_failed) ≡ opened p
    → (b ≡ true) × (text ≡ p)
opens_text true text p h = (refl, cc)
opens_text false text p h = absurd (ground arith)

length-tag_of : (nonce : Bytes) → length (tag_of nonce) ≡ 16
length-tag_of nonce =
    omega (arith, length-take 16 (nonce ++ replicate 16 0), length-append nonce (replicate 16 0))

toy-IsSealing : IsSealing toy toy_seal
toy-IsSealing = record {
  length-seal =
      λ key nonce p. length-append p (tag_of nonce) ∙ ap (λ n. length p + n) (length-tag_of nonce);
  only_sealed = λ key nonce text tag p c size h.
      let (same, is) = opens_text (bytes_eq tag (tag_of nonce)) text p h in
      ap (λ x. x ++ tag) is ∙ ap (λ x. p ++ x) (bytes_eq→eq tag (tag_of nonce) same);
  sealed_opens = λ key nonce p c.
      let front = take-length-append p (tag_of nonce) in
      let back = drop-length-append p (tag_of nonce) in
      subst
        (λ x.
          (if bytes_eq x (tag_of nonce)
            then opened (take (length p) (p ++ tag_of nonce))
            else auth_failed)
          ≡ opened p)
        (sym back)
        (subst
          (λ b.
            (if b then opened (take (length p) (p ++ tag_of nonce)) else auth_failed) ≡ opened p)
          (sym (bytes_eq_refl (tag_of nonce))) (ap opened front));
}

toy-HasMemory : HasMemory toy
toy-HasMemory = record { allocates = λ n c. refl; sets_key = λ key c. refl }

abbrev pub me : AgeIdentity
me = record { secret = replicate 32 9; public = replicate 32 8 }

abbrev sixteen : Bytes
sixteen = codes "0123456789abcdef"

abbrev hi_payload : Bytes
hi_payload = sixteen ++ (codes "hi" ++ (replicate 11 0 ++ (1 ∷ replicate 4 0)))

abbrev file_key : Bytes
file_key = replicate 16 0

hi_opened : (payload toy file_key hi_payload tt).0 ≡ plaintext (codes "hi")
unfolding payload hkdf32 open_chunks next_size is_refused open_chunk with_chunk chunk_nonce bytes_eq
hi_opened = refl

payload-sealed_example :
    (key : Bytes) × (q : Bytes) × (qs : List Bytes) × ((toy.hkdf
        (take 16 hi_payload)
        file_key
        (codes "payload")
        tt).0
      ≡ some key)
    × Chunked chunk_size 0 (q ∷ qs)
    × (hi_payload ≡ take 16 hi_payload ++ sealed toy_seal key 0 (q ∷ qs))
    × (codes "hi" ≡ joined (q ∷ qs))
payload-sealed_example =
    payload-sealed toy toy_seal toy-IsSealing file_key hi_payload (codes "hi") tt hi_opened

-- A stanza of another kind, then the identity's.
abbrev hi_file : Bytes
hi_file =
    codes
      "age-encryption.org/v1\n-> grease a b\nQUJD\n-> X25519 AAAAAAAAAAAAAAAAAAAAAAAAAAAAAAAAAAAAAAAAAAA\nAAAAAAAAAAAAAAAAAAAAAAAAAAAAAAAAAAAAAAAAAAA\n--- AgICAgICAgICAgICAgICAgICAgICAgICAgICAgICAgI\n"
    ++ hi_payload

hi_decrypted : (age_decrypt toy me 36 hi_file tt).0 ≡ decrypted (codes "hi") file_key
unfolding age_decrypt use_header has_kind find_key open_file try_x25519 share_of share_in unwrap
    x25519 clamp clamp_last all_zero read_header mac_line parse_stanza stanza_words all_vchars vchar
    body_lines stanza_of b64_decode decode_from padding b64_val split_at payload hkdf32 open_chunks
    next_size is_refused open_chunk with_chunk chunk_nonce bytes_eq
hi_decrypted = refl

age_decrypt-AgeFile_example : AgeFile toy toy_seal me hi_file file_key (codes "hi")
age_decrypt-AgeFile_example =
    age_decrypt-AgeFile toy toy_seal toy-IsSealing me 36 hi_file (codes "hi") file_key tt
      hi_decrypted

chunk_nonce-injective_example : (◌≡◌ {A = ℕ} 300 300) × (true ≡ true)
chunk_nonce-injective_example =
    chunk_nonce-injective 300 300 true true (omega arith) (omega arith) refl

refused_text :
    (b : Bool) (text : Bytes) → b ≢ true → (if b then opened text else auth_failed) ≡ auth_failed
refused_text true text other = absurd (other refl)
refused_text false text other = refl

abbrev toy_mul : Bytes → Bytes → Bytes
toy_mul s u = replicate 32 7

abbrev toy_derive : Bytes → Bytes → Bytes → Bytes
toy_derive salt ikm info = replicate 32 1

abbrev toy_mac : Bytes → Bytes → Bytes
toy_mac key text = replicate 32 2

toy-IsWorking : IsWorking toy toy_seal toy_mul toy_derive toy_mac
toy-IsWorking = record {
  random = λ c. refl;
  multiplies = λ secret u c whole_secret size nonzero. refl;
  derives = λ salt ikm info c. refl;
  macs = λ key text c. refl;
  rejects = λ key nonce text tag c none_fits.
      refused_text (bytes_eq tag (tag_of nonce)) text
        (λ same. none_fits text (ap (λ x. text ++ x) (bytes_eq→eq tag (tag_of nonce) same)));
}

abbrev grease : Stanza
grease = record { kind = codes "grease"; args = codes "a" ∷ codes "b" ∷ []; body = codes "ABC" }

abbrev mine : Stanza
mine = record {
  kind = codes "X25519";
  args = codes "AAAAAAAAAAAAAAAAAAAAAAAAAAAAAAAAAAAAAAAAAAA" ∷ [];
  body = replicate 32 0;
}

abbrev two_stanzas : Bytes
two_stanzas =
    codes
      "-> grease a b\nQUJD\n-> X25519 AAAAAAAAAAAAAAAAAAAAAAAAAAAAAAAAAAAAAAAAAAA\nAAAAAAAAAAAAAAAAAAAAAAAAAAAAAAAAAAAAAAAAAAA\n"

two_stanzas-HeaderText : HeaderText (grease ∷ mine ∷ []) two_stanzas
unfolding unpadded all_vchars vchar
two_stanzas-HeaderText = (
  codes "grease a b\nQUJD\n",
  codes
      "-> X25519 AAAAAAAAAAAAAAAAAAAAAAAAAAAAAAAAAAAAAAAAAAA\nAAAAAAAAAAAAAAAAAAAAAAAAAAAAAAAAAAAAAAAAAAA\n",
  (
    codes "QUJD\n",
    ([], codes "QUJD", tt, omega arith, refl, refl),
    omega arith,
    (refl, (refl, (refl, tt))),
    refl,
  ),
  (
    codes
        "X25519 AAAAAAAAAAAAAAAAAAAAAAAAAAAAAAAAAAAAAAAAAAA\nAAAAAAAAAAAAAAAAAAAAAAAAAAAAAAAAAAAAAAAAAAA\n",
    [],
    (
      codes "AAAAAAAAAAAAAAAAAAAAAAAAAAAAAAAAAAAAAAAAAAA\n",
      ([], codes "AAAAAAAAAAAAAAAAAAAAAAAAAAAAAAAAAAAAAAAAAAA", tt, omega arith, refl, refl),
      omega arith,
      (refl, (refl, tt)),
      refl,
    ),
    refl,
    refl,
  ),
  refl,
)

age_decrypt-round_trip_example :
    (age_decrypt toy me 36
      (intro
        ++ (two_stanzas
            ++ (codes "--- "
                ++ (unpadded (replicate 32 2)
                    ++ (b'\n'
                        ∷ (sixteen ++ sealed toy_seal (replicate 32 1) 0 (codes "hi" ∷ [])))))))
      tt).0
    ≡ decrypted (joined (codes "hi" ∷ [])) file_key
unfolding bytes_eq has_kind unpadded chunk_nonce all_zero clamp clamp_last
age_decrypt-round_trip_example =
    age_decrypt-round_trip toy toy_seal toy_mul toy_derive toy_mac toy-IsSealing toy-HasMemory
      toy-IsWorking me refl 36 (grease ∷ []) mine [] two_stanzas file_key sixteen (codes "hi") [] tt
      two_stanzas-HeaderText (omega arith) refl (inl refl, tt)
      (replicate 32 0, (refl, refl, omega arith, refl, refl, refl), refl) (omega arith) refl refl
      (omega arith, λ h. omega arith)

-- A recipient of a file in the tests, in small and in capital letters.
abbrev recipient : Bytes
recipient = codes "age1ewwhhspcnvu4364200mx5culxj8assgsa5sq2h80f4e5uz6dky0qdkkdpq"

abbrev recipient_key : Bytes
recipient_key =
    203 ∷ 157 ∷ 123 ∷ 192 ∷ 56 ∷ 155 ∷ 57 ∷ 88 ∷ 234 ∷ 170 ∷ 123 ∷ 246 ∷ 106 ∷ 99 ∷ 159 ∷ 52 ∷ 143
    ∷ 216 ∷ 65 ∷ 16 ∷ 237 ∷ 32 ∷ 5 ∷ 92 ∷ 239 ∷ 77 ∷ 115 ∷ 78 ∷ 11 ∷ 77 ∷ 177 ∷ 30 ∷ []

recipient_read : bech32_decode recipient (codes "age") ≡ some recipient_key
unfolding bech32_decode all_printable some_lower some_upper split_last bech32_data match_hrp
    low_bits read_data gather_bits index_in polymod_step
recipient_read = refl

recipient_changed :
    age_recipient_parse (codes "age1ewwhhspcnvu43642q0mx5culxj8assgsa5sq2h80f4e5uz6dky0qdkkdpq")
    ≡ none
unfolding age_recipient_parse bech32_decode all_printable some_lower some_upper split_last
    bech32_data match_hrp low_bits read_data gather_bits index_in polymod_step
recipient_changed = refl

bech32_decode-KeyText_example : KeyText recipient (codes "age") recipient_key
bech32_decode-KeyText_example =
    bech32_decode-KeyText recipient (codes "age") recipient_key recipient_read
