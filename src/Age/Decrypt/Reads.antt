-- ===== src/Age/Decrypt/Reads.antt =====
-- The files that age writes for an identity are decrypted by `age_decrypt` of esp32-embedder/worker/age.c.
use claude_chats.Prelude.{
  ℕ, suc, ◌-◌, ◌*◌, ◌≤◌, ◌<◌, ◌≡◌, ◌≢◌, refl, sym, ap, ◌∙◌, ◌⊎◌, inl, inr, true, false, ◌&&◌, ◌||◌,
  some, List, [], ◌∷◌, ◌++◌, length, length-append, replicate, take, take-append-drop, drop, ltb,
  ◌==◌, arith, All, Bytes, codes, bytes_eq, bytes_eq_refl,
}
use mathlib.Core.Path.{subst}
use claude_chats.Kw.Base64.{raw_strict, b64_decode}
use claude_chats.Kw.Base64.Groups.{AreBytes, unpadded}
use claude_chats.Kw.Base64.Padded.{b64_decode_lem}
use claude_chats.Age.{AgeIdentity, Crypto, opened, auth_failed, x25519, clamp, all_zero}
use claude_chats.Age.Header.{max_stanzas, Stanza, parsed_header, read_header}
use claude_chats.Age.Header.Text.{HeaderText}
use claude_chats.Age.Header.Reads.{length-unpadded, length-HeaderText, read_header-HeaderText}
use claude_chats.Age.Payload.{chunk_size, plaintext, hkdf32, payload}
use claude_chats.Age.Payload.Sealed.{IsSealing, HasMemory, joined, Chunked, sealed}
use claude_chats.Age.Payload.Exact.{payload-round_trip}
use claude_chats.Age.Decrypt.{
  intro, x25519_label, unwrapped, not_ours, is_kind, has_kind, share_in, share_of, unwrap,
  try_x25519, find_key, decrypted, open_file, use_header, age_decrypt,
}
use claude_chats.Age.Decrypt.Exact.{covered-text}

-- mbedTLS as documented, where none of its calls fails: what it computes, and that what is not sealed
-- under a key is refused.
pub record IsWorking (y : Crypto) (seal : Bytes → Bytes → Bytes → Bytes)
    (mul : Bytes → Bytes → Bytes) (derive : Bytes → Bytes → Bytes → Bytes)
    (mac_of : Bytes → Bytes → Bytes) : Type 0 where
  pub random : (c : y.Ctx) → y.has_rng c ≡ true
  -- A u of low order, whose product is zero, may be refused.
  pub multiplies :
      (secret u : Bytes) (c : y.Ctx)
      → length secret ≡ 32
      → length u ≡ 32
      → all_zero (mul (clamp secret) u) ≡ false
      → (y.ecp_mul (clamp secret) u c).0 ≡ some (mul (clamp secret) u)
  pub derives :
      (salt ikm info : Bytes) (c : y.Ctx) → (y.hkdf salt ikm info c).0 ≡ some (derive salt ikm info)
  pub macs : (key text : Bytes) (c : y.Ctx) → (y.hmac key text c).0 ≡ some (mac_of key text)
  pub rejects :
      (key nonce text tag : Bytes) (c : y.Ctx)
      → ((p : Bytes) → text ++ tag ≢ seal key nonce p)
      → (y.auth_decrypt key nonce text tag c).0 ≡ auth_failed

share_in-unpadded :
    (share body : Bytes)
    → AreBytes share
    → length share ≡ 32
    → length body ≡ 32
    → share_in (unpadded share ∷ []) body ≡ some share
unfolding share_in
share_in-unpadded share body fine size whole =
    let decoded : b64_decode raw_strict (unpadded share) ≡ some share =
      (b64_decode_lem raw_strict (unpadded share) share).1 (refl, fine) in
    let long : length (unpadded share) ≡ 43 = omega (arith, length-unpadded share) in
    let shape : (length (unpadded share) == 43 && length body == 32) ≡ true = ground arith in
    let fits : (length share == 32) ≡ true = ground arith in
    rw shape (rw (decoded, share_in) (rw fits refl))

starts : (rest : Bytes) → bytes_eq (take (length intro) (intro ++ rest)) intro ≡ true
unfolding bytes_eq
starts rest = refl

module _ (y : Crypto) (seal : Bytes → Bytes → Bytes → Bytes) (mul : Bytes → Bytes → Bytes)
    (derive : Bytes → Bytes → Bytes → Bytes) (mac_of : Bytes → Bytes → Bytes)
    (laws : IsSealing y seal) (memory : HasMemory y) (works : IsWorking y seal mul derive mac_of)
    (id : AgeIdentity) (whole_secret : length id.secret ≡ 32) where
  abbrev pub product : Bytes → Bytes
  product share = mul (clamp id.secret) share

  abbrev pub wrap_key : Bytes → Bytes
  wrap_key share = derive (share ++ id.public) (product share) x25519_label

  -- A stanza for X25519 with a share, which is well formed.
  abbrev pub HasShare : Stanza → Bytes → Type 0
  HasShare st share =
      (is_kind (codes "X25519") st ≡ true)
      × (st.args ≡ unpadded share ∷ [])
      × AreBytes share
      × (length share ≡ 32)
      × (length st.body ≡ 32)
      × (all_zero (product share) ≡ false)

  -- The stanza of this identity, and one that is another's.
  abbrev pub Ours : Stanza → Bytes → Type 0
  Ours st file_key =
      (share : Bytes) × HasShare st share
      × (st.body ≡ seal (wrap_key share) (replicate 12 0) file_key)

  abbrev pub Foreign : Stanza → Type 0
  Foreign st =
      (is_kind (codes "X25519") st ≡ false)
      ⊎ ((share : Bytes) × HasShare st share
          × ((p : Bytes) → st.body ≢ seal (wrap_key share) (replicate 12 0) p))

  x25519-product :
      (share : Bytes) (c : y.Ctx)
      → length share ≡ 32
      → all_zero (product share) ≡ false
      → (x25519 y id.secret share c).0 ≡ some (product share)
  unfolding x25519
  x25519-product share c size nonzero =
      rw (works.random c) (
        rw (works.multiplies id.secret share c whole_secret size nonzero, x25519) (rw nonzero refl))

  try_x25519-HasShare :
      (st : Stanza) (share : Bytes) (c : y.Ctx)
      → HasShare st share
      → (c2 : y.Ctx) × (try_x25519 y id st c ≡ unwrap y id (wrap_key share) st.body c2)
  unfolding try_x25519
  try_x25519-HasShare st share c (kind, args, fine, size, whole, nonzero) =
      let found : share_of st ≡ some share =
        unfold share_of in rw args (share_in-unpadded share st.body fine size whole) in
      let x = x25519 y id.secret share c in
      let shared = x25519-product share c size nonzero in
      let k = y.hkdf (share ++ id.public) (product share) x25519_label x.1 in
      (
        k.1,
        rw (found, try_x25519)
            (rw (shared, try_x25519)
              (rw (works.derives (share ++ id.public) (product share) x25519_label x.1, try_x25519)
                refl)),
      )

  unwrap-seal :
      (key body file_key : Bytes) (c : y.Ctx)
      → length body ≡ 32
      → body ≡ seal key (replicate 12 0) file_key
      → (unwrap y id key body c).0 ≡ unwrapped file_key
  unfolding unwrap
  unwrap-seal key body file_key c whole is =
      let nonce : Bytes = replicate 12 0 in
      let sixteen : length file_key ≡ 16 =
        omega (arith, ap length is, laws.length-seal key nonce file_key) in
      let c1 = (y.setkey key c).1 in
      let opens : (y.auth_decrypt key nonce (take 16 body) (drop 16 body) c1).0 ≡ opened file_key =
        subst (λ b. (y.auth_decrypt key nonce (take 16 b) (drop 16 b) c1).0 ≡ opened file_key)
          (sym is)
          (subst
            (λ n.
              (y.auth_decrypt key nonce (take n (seal key nonce file_key))
                (drop n (seal key nonce file_key)) c1).0
              ≡ opened file_key)
            sixteen (laws.sealed_opens key nonce file_key c1)) in
      rw (memory.sets_key key c) (rw (opens, unwrap) refl)

  unwrap-rejects :
      (key body : Bytes) (c : y.Ctx)
      → ((p : Bytes) → body ≢ seal key (replicate 12 0) p)
      → (unwrap y id key body c).0 ≡ not_ours
  unfolding unwrap
  unwrap-rejects key body c none_fits =
      let nonce : Bytes = replicate 12 0 in
      let c1 = (y.setkey key c).1 in
      let refuses : (y.auth_decrypt key nonce (take 16 body) (drop 16 body) c1).0 ≡ auth_failed =
        works.rejects key nonce (take 16 body) (drop 16 body) c1
          (λ p same. none_fits p (sym (take-append-drop 16 body) ∙ same)) in
      rw (memory.sets_key key c) (rw (refuses, unwrap) refl)

  try_x25519-Ours :
      (st : Stanza) (file_key : Bytes) (c : y.Ctx)
      → Ours st file_key
      → (try_x25519 y id st c).0 ≡ unwrapped file_key
  try_x25519-Ours st file_key c (share, has, is) =
      let (c2, e) = try_x25519-HasShare st share c has in
      ap (λ x. x.0) e ∙ unwrap-seal (wrap_key share) st.body file_key c2 (has.4) is

  find_key-other :
      (st : Stanza) (sts : List Stanza) (c : y.Ctx)
      → is_kind (codes "X25519") st ≡ false
      → find_key y id (st ∷ sts) c ≡ find_key y id sts c
  unfolding find_key
  find_key-other st sts c other = rw (other, find_key) (rw other refl)

  find_key-passed :
      (st : Stanza) (sts : List Stanza) (c : y.Ctx)
      → is_kind (codes "X25519") st ≡ true
      → (try_x25519 y id st c).0 ≡ not_ours
      → find_key y id (st ∷ sts) c ≡ find_key y id sts (try_x25519 y id st c).1
  unfolding find_key
  find_key-passed st sts c kind passed = rw (kind, find_key) (rw (passed, find_key) (rw kind refl))

  find_key-unwrapped :
      (st : Stanza) (sts : List Stanza) (file_key : Bytes) (c : y.Ctx)
      → is_kind (codes "X25519") st ≡ true
      → (try_x25519 y id st c).0 ≡ unwrapped file_key
      → (find_key y id (st ∷ sts) c).0 ≡ unwrapped file_key
  unfolding find_key
  find_key-unwrapped st sts file_key c kind ours = rw (kind, find_key) (rw (ours, find_key) refl)

  find_key-Ours :
      (before : List Stanza) (st : Stanza) (after : List Stanza) (file_key : Bytes) (c : y.Ctx)
      → All Foreign before
      → Ours st file_key
      → (find_key y id (before ++ (st ∷ after)) c).0 ≡ unwrapped file_key
  find_key-Ours [] st after file_key c foreign (share, has, is) =
      find_key-unwrapped st after file_key c has.0 (try_x25519-Ours st file_key c (share, has, is))
  find_key-Ours (b ∷ before) st after file_key c (inl other, foreign) ours =
      ap (λ x. x.0) (find_key-other b (before ++ (st ∷ after)) c other)
      ∙ find_key-Ours before st after file_key c foreign ours
  find_key-Ours (b ∷ before) st after file_key c (inr (share, has, none_fits), foreign) ours =
      let (c2, e) = try_x25519-HasShare b share c has in
      let passed : (try_x25519 y id b c).0 ≡ not_ours =
        ap (λ x. x.0) e ∙ unwrap-rejects (wrap_key share) b.body c2 none_fits in
      ap (λ x. x.0) (find_key-passed b (before ++ (st ∷ after)) c has.0 passed)
      ∙ find_key-Ours before st after file_key (try_x25519 y id b c).1 foreign ours

  open_file-mac_of :
      (file_key covered behind p : Bytes) (c : y.Ctx)
      → ((c' : y.Ctx) → (payload y file_key behind c').0 ≡ plaintext p)
      → (open_file y id file_key covered
          (mac_of (derive [] file_key (codes "header")) covered)
          behind
          c).0
        ≡ decrypted p file_key
  unfolding open_file hkdf32
  open_file-mac_of file_key covered behind p c reads =
      let key = derive [] file_key (codes "header") in
      let c1 = (y.hkdf [] file_key (codes "header") c).1 in
      let c2 = (y.hmac key covered c1).1 in
      rw (works.derives [] file_key (codes "header") c, open_file)
        (rw (works.macs key covered c1, open_file)
          (rw (bytes_eq_refl (mac_of key covered)) (rw (reads c2) refl)))

  use_header-parsed :
      (input : Bytes) (sts : List Stanza) (mac uncovered behind p file_key : Bytes) (c : y.Ctx)
      → (length sts == 0 || (has_kind (codes "scrypt") sts && ltb 1 (length sts))) ≡ false
      → (find_key y id sts c).0 ≡ unwrapped file_key
      → ((c' : y.Ctx)
          → (open_file y id file_key (take (length input - length uncovered) input) mac behind c').0
            ≡ decrypted p file_key)
      → (use_header y id input (parsed_header sts mac uncovered behind) c).0 ≡ decrypted p file_key
  unfolding use_header
  use_header-parsed input sts mac uncovered behind p file_key c some_found found opens =
      rw some_found (rw (found, use_header) (opens (find_key y id sts c).1))

  -- Where mbedTLS works as documented, which lets it refuse a share whose product is zero, opens what it
  -- sealed and there is memory, a file as age writes it is decrypted to its plaintext and its file key: up to
  -- 64 stanzas, none for a passphrase, with only those of others before the one for this identity, the MAC
  -- of the header under the file key, and the plaintext in chunks.
  pub age_decrypt-round_trip :
      (stanza_size : ℕ) (before : List Stanza) (st : Stanza) (after : List Stanza)
      (t file_key nonce q : Bytes) (qs : List Bytes) (c : y.Ctx)
      → HeaderText (before ++ (st ∷ after)) t
      → length (before ++ (st ∷ after)) ≤ max_stanzas
      → has_kind (codes "scrypt") (before ++ (st ∷ after)) ≡ false
      → All Foreign before
      → Ours st file_key
      → AreBytes (mac_of (derive [] file_key (codes "header")) (intro ++ (t ++ codes "---")))
      → length (mac_of (derive [] file_key (codes "header")) (intro ++ (t ++ codes "---"))) ≡ 32
      → length nonce ≡ 16
      → Chunked chunk_size 0 (q ∷ qs)
      → (let mac = mac_of (derive [] file_key (codes "header")) (intro ++ (t ++ codes "---")) in
          let body : Bytes =
            nonce ++ sealed seal (derive nonce file_key (codes "payload")) 0 (q ∷ qs) in
          let file = intro ++ (t ++ (codes "--- " ++ (unpadded mac ++ (b'\n' ∷ body)))) in
          (age_decrypt y id stanza_size file c).0 ≡ decrypted (joined (q ∷ qs)) file_key)
  age_decrypt-round_trip stanza_size before st after t file_key nonce q qs c header few no_scrypt
        foreign ours fine size sixteen chunks =
      let sts = before ++ (st ∷ after) in
      let mac = mac_of (derive [] file_key (codes "header")) (intro ++ (t ++ codes "---")) in
      let body : Bytes =
        nonce ++ sealed seal (derive nonce file_key (codes "payload")) 0 (q ∷ qs) in
      let uncovered : Bytes = b' ' ∷ (unpadded mac ++ (b'\n' ∷ body)) in
      let rest : Bytes = t ++ (codes "---" ++ uncovered) in
      let c1 = (y.alloc (max_stanzas * stanza_size) c).1 in
      let enough : length sts < suc (length rest) =
        omega (arith, length-HeaderText sts t header, length-append t (codes "---" ++ uncovered)) in
      let read =
        read_header-HeaderText y (suc (length rest)) 0 sts t mac body c1 memory header enough
          (omega (arith, few)) fine size in
      let h = read_header y (suc (length rest)) 0 rest c1 in
      let some_found : (length sts == 0 || (has_kind (codes "scrypt") sts && ltb 1 (length sts)))
          ≡ false =
        ground (arith, length-append before (st ∷ after)) in
      let mac_fits = covered-text rest t uncovered refl in
      let opens : (c2 : y.Ctx)
          → (open_file y id file_key
              (take (length (intro ++ rest) - length uncovered) (intro ++ rest)) mac body c2).0
            ≡ decrypted (joined (q ∷ qs)) file_key =
        λ c2.
          subst
            (λ x. (open_file y id file_key x mac body c2).0 ≡ decrypted (joined (q ∷ qs)) file_key)
            (sym mac_fits)
            (open_file-mac_of file_key (intro ++ (t ++ codes "---")) body (joined (q ∷ qs)) c2
              (λ c3.
                payload-round_trip y seal laws memory file_key nonce
                  (derive nonce file_key (codes "payload")) q qs c3 sixteen
                  (works.derives nonce file_key (codes "payload") c3) chunks)) in
      let used =
        use_header-parsed (intro ++ rest) sts mac uncovered body (joined (q ∷ qs)) file_key h.1
          some_found (find_key-Ours before st after file_key h.1 foreign ours) opens in
      unfold age_decrypt in
      rw (starts rest) (
        rw (memory.allocates (max_stanzas * stanza_size) c) (
          subst
            (λ x. (use_header y id (intro ++ rest) x h.1).0 ≡ decrypted (joined (q ∷ qs)) file_key)
            (sym read) used))
