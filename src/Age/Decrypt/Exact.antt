-- ===== src/Age/Decrypt/Exact.antt =====
-- What `age_decrypt` of esp32-embedder/worker/age.c gives a plaintext for.
use claude_chats.Prelude.{
  ℕ, suc, ◌-◌, ◌*◌, ◌≤◌, ◌≡◌, refl, sym, ap, ◌∙◌, inl, inr, true, Bool-cases, ◌&&◌, ◌||◌, some,
  Option-cases, List, [], ◌∷◌, ◌++◌, append_assoc, length, length-append, take, take-length-append,
  drop, ltb, ◌==◌, arith, In, Bytes, codes, bytes_eq, bytes_eq→eq, take_is,
}
use mathlib.Core.Path.{subst}
use claude_chats.Kw.Base64.Groups.{unpadded}
use claude_chats.Age.{AgeIdentity, Crypto}
use claude_chats.Age.Header.{
  max_stanzas, Stanza, ParsedHeader, parsed_header, no_header, read_header,
}
use claude_chats.Age.Header.Text.{HeaderText}
use claude_chats.Age.Header.Exact.{HeaderRead, read_header-text}
use claude_chats.Age.Payload.{chunk_size, Plaintext, plaintext, no_plaintext, hkdf32, payload}
use claude_chats.Age.Payload.Sealed.{IsSealing, joined, Chunked, sealed}
use claude_chats.Age.Payload.Exact.{payload-sealed}
use claude_chats.Age.Decrypt.{
  intro, unwrapped, has_kind, find_key, decrypted, decryption, open_file, use_header, age_decrypt,
}
use claude_chats.Age.Decrypt.Keys.{Wraps, Tried-cases, find_key-Wraps}

-- The MAC of the header under the file key.
abbrev pub Authentic : (y : Crypto) → Bytes → Bytes → Bytes → Type 0
Authentic y file_key covered mac =
    (hkey : Bytes) × (c1 : y.Ctx) × (c2 : y.Ctx) × ((y.hkdf [] file_key (codes "header") c1).0
      ≡ some hkey)
    × ((y.hmac hkey covered c2).0 ≡ some mac)

-- The plaintext in chunks sealed under the key of the nonce and the file key.
abbrev pub SealedAs :
    (y : Crypto) → (Bytes → Bytes → Bytes → Bytes) → Bytes → Bytes → Bytes → Type 0
SealedAs y seal file_key behind p =
    (key : Bytes) × (q : Bytes) × (qs : List Bytes) × (c : y.Ctx) × ((y.hkdf (take 16 behind)
        file_key (codes "payload") c).0
      ≡ some key)
    × Chunked chunk_size 0 (q ∷ qs)
    × (behind ≡ take 16 behind ++ sealed seal key 0 (q ∷ qs))
    × (p ≡ joined (q ∷ qs))

-- A whole file for the identity, with these stanzas.
abbrev pub AgeFile :
    (y : Crypto) → (Bytes → Bytes → Bytes → Bytes) → AgeIdentity → Bytes → Bytes → Bytes → Type 0
AgeFile y seal id input file_key p =
    (sts : List Stanza) × (t : Bytes) × (mac : Bytes) × (behind : Bytes) × (input
      ≡ intro ++ (t ++ (codes "--- " ++ (unpadded mac ++ (b'\n' ∷ behind)))))
    × HeaderText sts t
    × (1 ≤ length sts)
    × (length sts ≤ max_stanzas)
    × (has_kind (codes "scrypt") sts ≡ true → length sts ≡ 1)
    × ((st : Stanza) × In st sts × (st.kind ≡ codes "X25519") × Wraps y seal id st file_key)
    × Authentic y file_key (intro ++ (t ++ codes "---")) mac
    × SealedAs y seal file_key behind p

pub covered-text :
    (rest t uncovered : Bytes)
    → rest ≡ t ++ (codes "---" ++ uncovered)
    → take (length (intro ++ rest) - length uncovered) (intro ++ rest) ≡ intro ++ (t ++ codes "---")
covered-text rest t uncovered is =
    let front : Bytes = intro ++ (t ++ codes "---") in
    let whole : intro ++ rest ≡ front ++ uncovered =
      ap (λ x. intro ++ x) (is ∙ sym (append_assoc t (codes "---") uncovered)) in
    let n : length (intro ++ rest) - length uncovered ≡ length front =
      omega (arith, ap length whole, length-append front uncovered) in
    ap (λ k. take k (intro ++ rest)) n
    ∙ ap (take (length front)) whole
    ∙ take-length-append front uncovered

module _ (y : Crypto) (seal : Bytes → Bytes → Bytes → Bytes) (laws : IsSealing y seal)
    (id : AgeIdentity) where
  open_file-decrypted :
      (file_key covered mac behind p k : Bytes) (c : y.Ctx)
      → (open_file y id file_key covered mac behind c).0 ≡ decrypted p k
      → (file_key ≡ k) × Authentic y k covered mac × SealedAs y seal k behind p
  unfolding open_file hkdf32
  open_file-decrypted file_key covered mac behind p k c h =
      let hk = y.hkdf [] file_key (codes "header") c in
      elim (Option-cases hk.0) [
        | inl no_key ↦ absurd (ground arith)
        | inr (hkey, derived) ↦
            let w = y.hmac hkey covered hk.1 in
            elim (Option-cases w.0) [
              | inl no_mac ↦ absurd (ground arith)
              | inr (want, is) ↦ elim (Bool-cases (bytes_eq want mac)) [
                | inr differs ↦ absurd (ground arith)
                | inl equal ↦
                    let opened = payload y file_key behind w.1 in
                    let (same, read) = decryption-decrypted file_key opened.0 p k (ground arith) in
                    let (key, q, qs, key_is, chunks, all, text) =
                      payload-sealed y seal laws file_key behind p w.1 read in
                    (
                      same,
                      subst (λ x. Authentic y x covered mac) same
                          (hkey, c, hk.1, derived, is ∙ ap some (bytes_eq→eq want mac equal)),
                      subst (λ x. SealedAs y seal x behind p) same
                          (key, q, qs, w.1, key_is, chunks, all, text),
                    )
              ]
            ]
      ]
    where
      decryption-decrypted :
          (file_key : Bytes) (x : Plaintext) (p k : Bytes)
          → decryption file_key x ≡ decrypted p k
          → (file_key ≡ k) × (x ≡ plaintext p)
      decryption-decrypted file_key (plaintext q) p k h = (cc, cc)
      decryption-decrypted file_key (no_plaintext e) p k h = absurd (ground arith)

  use_header-decrypted :
      (rest p k : Bytes) (h : ParsedHeader) (c : y.Ctx)
      → ((sts : List Stanza) (mac uncovered behind : Bytes)
          → h ≡ parsed_header sts mac uncovered behind
          → HeaderRead 0 sts mac uncovered behind rest)
      → (use_header y id (intro ++ rest) h c).0 ≡ decrypted p k
      → AgeFile y seal id (intro ++ rest) k p
  unfolding use_header
  use_header-decrypted rest p k (no_header e) c text h = absurd (ground arith)
  use_header-decrypted rest p k (parsed_header sts mac uncovered behind) c text h =
      let (t, header, is, line, fine, size, few) = text sts mac uncovered behind refl in
      let found = find_key y id sts c in
      elim (Bool-cases (length sts == 0 || (has_kind (codes "scrypt") sts && ltb 1 (length sts)))) [
        | inl bad ↦ absurd (ground arith)
        | inr good ↦ elim (Tried-cases found.0) [
          | inl (inl none_ours) ↦ absurd (ground arith)
          | inl (inr (e, failed)) ↦ absurd (ground arith)
          | inr (file_key, unwraps) ↦
              let covered = take (length (intro ++ rest) - length uncovered) (intro ++ rest) in
              let last : (open_file y id file_key covered mac behind found.1).0 ≡ decrypted p k =
                ground arith in
              let (same, authentic, whole) =
                open_file-decrypted file_key covered mac behind p k found.1 last in
              (
                sts,
                t,
                mac,
                behind,
                ap (λ x. intro ++ x) (is ∙ ap (λ x. t ++ (codes "---" ++ x)) line),
                header,
                ground arith,
                omega (arith, few),
                λ scrypt. ground arith,
                find_key-Wraps y seal laws id sts k c (unwraps ∙ ap unwrapped same),
                subst (λ x. Authentic y k x mac) (covered-text rest t uncovered is) authentic,
                whole,
              )
        ]
      ]

  -- A plaintext is given for nothing but a whole age file: its intro, one to 64 stanzas as age writes
  -- them, one for a passphrase only by itself, the MAC of all of that under the file key, and the plaintext
  -- in chunks sealed under the file key, which one of the X25519 stanzas holds for this identity.
  pub age_decrypt-AgeFile :
      (stanza_size : ℕ) (input p file_key : Bytes) (c : y.Ctx)
      → (age_decrypt y id stanza_size input c).0 ≡ decrypted p file_key
      → AgeFile y seal id input file_key p
  unfolding age_decrypt
  age_decrypt-AgeFile stanza_size input p file_key c h =
      elim (Bool-cases (bytes_eq (take (length intro) input) intro)) [
        | inr other ↦ absurd (ground arith)
        | inl starts ↦
            let room = y.alloc (max_stanzas * stanza_size) c in
            let rest = drop (length intro) input in
            let read = read_header y (suc (length rest)) 0 rest room.1 in
            elim (Bool-cases room.0) [
              | inr none_got ↦ absurd (ground arith)
              | inl got ↦
                  let is : input ≡ intro ++ rest = take_is (length intro) input intro starts in
                  let used : (use_header y id input read.0 read.1).0 ≡ decrypted p file_key =
                    ground arith in
                  subst (λ x. AgeFile y seal id x file_key p) (sym is)
                    (use_header-decrypted rest p file_key read.0 read.1
                      (λ sts mac uncovered behind same.
                        read_header-text y (suc (length rest)) 0 rest room.1 sts mac uncovered
                          behind (omega arith) same)
                      (subst (λ x. (use_header y id x read.0 read.1).0 ≡ decrypted p file_key) is
                        used))
            ]
      ]
