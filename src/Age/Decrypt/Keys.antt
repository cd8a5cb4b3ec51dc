-- ===== src/Age/Decrypt/Keys.antt =====
-- The file key that `try_x25519` of esp32-embedder/worker/age.c unwraps, and the stanza that it comes from.
use claude_chats.Prelude.{
  ◌≡◌, refl, sym, ap, ◌∙◌, ◌⊎◌, inl, inr, false, Bool-cases, ◌&&◌, some, Option-cases, List, [],
  ◌∷◌, ◌++◌, length, length-drop, replicate, take, take-append-drop, drop, ◌==◌, arith, In, Bytes,
  codes, bytes_eq→eq,
}
use claude_chats.Kw.Base64.{raw_strict, b64_decode}
use claude_chats.Kw.Base64.Groups.{unpadded}
use claude_chats.Kw.Base64.Padded.{b64_decode_lem}
use claude_chats.Age.{
  AgeErr, AgeIdentity, Crypto, Unsealed, opened, auth_failed, unseal_failed, x25519, clamp,
  all_zero,
}
use claude_chats.Age.Header.{Stanza}
use claude_chats.Age.Payload.Sealed.{IsSealing}
use claude_chats.Age.Decrypt.{
  x25519_label, Tried, unwrapped, not_ours, try_failed, is_kind, share_in, share_of, unwrap,
  try_x25519, find_key,
}

-- The stanza holds the file key for this identity: sealed under the key derived from the point that its
-- share and the secret scalar give, which is not zero.
abbrev pub Wraps :
    (y : Crypto) → (Bytes → Bytes → Bytes → Bytes) → AgeIdentity → Stanza → Bytes → Type 0
Wraps y seal id st file_key =
    (share : Bytes) × (shared : Bytes) × (key : Bytes) × (c1 : y.Ctx) × (c2 : y.Ctx) × (st.args
      ≡ unpadded share ∷ [])
    × (length share ≡ 32)
    × ((y.ecp_mul (clamp id.secret) share c1).0 ≡ some shared)
    × (all_zero shared ≡ false)
    × ((y.hkdf (share ++ id.public) shared x25519_label c2).0 ≡ some key)
    × (st.body ≡ seal key (replicate 12 0) file_key)

share_in-args :
    (args : List Bytes) (body share : Bytes)
    → share_in args body ≡ some share
    → (args ≡ unpadded share ∷ []) × (length share ≡ 32) × (length body ≡ 32)
unfolding share_in
share_in-args [] body share h = absurd (ground arith)
share_in-args (arg ∷ []) body share h = elim (Bool-cases (length arg == 43 && length body == 32)) [
  | inr shape ↦ absurd (ground arith)
  | inl shape ↦ elim (Option-cases (b64_decode raw_strict arg)) [
    | inl bad ↦ absurd (ground arith)
    | inr (d, decoded) ↦ elim (Bool-cases (length d == 32)) [
      | inr size ↦ absurd (ground arith)
      | inl size ↦
          let same : d ≡ share = ground arith in
          let (is, fine) = (b64_decode_lem raw_strict arg d).0 decoded in
          let long : length d ≡ 32 = ground arith in
          let whole : length body ≡ 32 = ground arith in
          (ap (λ x. x ∷ []) (is ∙ ap unpadded same), rw (← same) long, whole)
    ]
  ]
]
share_in-args (arg ∷ more ∷ args) body share h = absurd (ground arith)

Unsealed-cases :
    (x : Unsealed) → ((x ≡ auth_failed) ⊎ (x ≡ unseal_failed)) ⊎ ((p : Bytes) × (x ≡ opened p))
Unsealed-cases (opened p) = inr (p, refl)
Unsealed-cases auth_failed = inl (inl refl)
Unsealed-cases unseal_failed = inl (inr refl)

pub Tried-cases :
    (x : Tried)
    → ((x ≡ not_ours) ⊎ ((e : AgeErr) × (x ≡ try_failed e))) ⊎ ((k : Bytes) × (x ≡ unwrapped k))
Tried-cases (unwrapped k) = inr (k, refl)
Tried-cases not_ours = inl (inl refl)
Tried-cases (try_failed e) = inl (inr (e, refl))

module _ (y : Crypto) (seal : Bytes → Bytes → Bytes → Bytes) (laws : IsSealing y seal)
    (id : AgeIdentity) where
  unwrap-opened :
      (key body file_key : Bytes) (c : y.Ctx)
      → length body ≡ 32
      → (unwrap y id key body c).0 ≡ unwrapped file_key
      → body ≡ seal key (replicate 12 0) file_key
  unfolding unwrap
  unwrap-opened key body file_key c size h =
      let ready = y.setkey key c in
      let o = y.auth_decrypt key (replicate 12 0) (take 16 body) (drop 16 body) ready.1 in
      let came : o.0 ≡ opened file_key = elim (Bool-cases ready.0) [
        | inr not_set ↦ absurd (ground arith)
        | inl set ↦ elim (Unsealed-cases o.0) [
          | inl (inl failed) ↦ absurd (ground arith)
          | inl (inr failed) ↦ absurd (ground arith)
          | inr (k, is) ↦ ground arith
        ]
      ] in
      sym (take-append-drop 16 body)
      ∙ laws.only_sealed key (replicate 12 0) (take 16 body) (drop 16 body) file_key ready.1
          (omega (arith, length-drop 16 body)) came

  x25519-some :
      (scalar u shared : Bytes) (c : y.Ctx)
      → (x25519 y scalar u c).0 ≡ some shared
      → ((y.ecp_mul (clamp scalar) u c).0 ≡ some shared) × (all_zero shared ≡ false)
  unfolding x25519
  x25519-some scalar u shared c h = elim (Bool-cases (y.has_rng c)) [
    | inr no_rng ↦ absurd (ground arith)
    | inl rng ↦
        let o = y.ecp_mul (clamp scalar) u c in
        elim (Option-cases o.0) [
          | inl failed ↦ absurd (ground arith)
          | inr (out, is) ↦ elim (Bool-cases (all_zero out)) [
            | inl zero_out ↦ absurd (ground arith)
            | inr nonzero ↦
                let same : out ≡ shared = ground arith in (is ∙ ap some same, rw (← same) nonzero)
          ]
        ]
  ]

  try_x25519-Wraps :
      (st : Stanza) (file_key : Bytes) (c : y.Ctx)
      → (try_x25519 y id st c).0 ≡ unwrapped file_key
      → Wraps y seal id st file_key
  unfolding try_x25519
  try_x25519-Wraps st file_key c h = elim (Option-cases (share_of st)) [
    | inl gone ↦ absurd (ground arith)
    | inr (share, found) ↦
        let x = x25519 y id.secret share c in
        elim (Option-cases x.0) [
          | inl none_shared ↦ absurd (ground arith)
          | inr (shared, is) ↦
              let k = y.hkdf (share ++ id.public) shared x25519_label x.1 in
              elim (Option-cases k.0) [
                | inl no_key ↦ absurd (ground arith)
                | inr (key, derived) ↦
                    let (arg, size, whole) =
                      share_in-args st.args st.body share (unfold share_of in found) in
                    let (product, nonzero) = x25519-some id.secret share shared c is in
                    let last : (unwrap y id key st.body k.1).0 ≡ unwrapped file_key =
                      ground arith in
                    (
                      share,
                      shared,
                      key,
                      c,
                      x.1,
                      arg,
                      size,
                      product,
                      nonzero,
                      derived,
                      unwrap-opened key st.body file_key k.1 whole last,
                    )
              ]
        ]
  ]

  pub find_key-Wraps :
      (sts : List Stanza) (file_key : Bytes) (c : y.Ctx)
      → (find_key y id sts c).0 ≡ unwrapped file_key
      → (st : Stanza) × In st sts × (st.kind ≡ codes "X25519") × Wraps y seal id st file_key
  unfolding find_key
  find_key-Wraps [] file_key c h = absurd (ground arith)
  find_key-Wraps (st ∷ sts) file_key c h = elim (Bool-cases (is_kind (codes "X25519") st)) [
    | inl ours ↦
        let tried = try_x25519 y id st c in
        elim (Tried-cases tried.0) [
          | inl (inr (e, failed)) ↦ absurd (ground arith)
          | inl (inl not_this) ↦
              let rest : (find_key y id sts tried.1).0 ≡ unwrapped file_key = ground arith in
              later st sts file_key (find_key-Wraps sts file_key tried.1 rest)
          | inr (k, is) ↦
              let found : tried.0 ≡ unwrapped file_key = ground arith in
              (
                st,
                inl refl,
                bytes_eq→eq st.kind (codes "X25519") ours,
                try_x25519-Wraps st file_key c found,
              )
        ]
    | inr other ↦
        let rest : (find_key y id sts c).0 ≡ unwrapped file_key = ground arith in
        later st sts file_key (find_key-Wraps sts file_key c rest)
  ]
    where
      later :
          (st : Stanza) (sts : List Stanza) (file_key : Bytes)
          → (st' : Stanza) × In st' sts × (st'.kind ≡ codes "X25519") × Wraps y seal id st' file_key
          → (st' : Stanza) × In st' (st ∷ sts)
            × (st'.kind ≡ codes "X25519")
            × Wraps y seal id st' file_key
      later st sts file_key (st', there, kind, wraps) = (st', inr there, kind, wraps)
