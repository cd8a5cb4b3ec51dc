-- ===== src/Http/Peers.antt =====
-- `httpreq_peer_ok` of esp32-embedder/worker/httpreq.c, for the list that `httpreq_parse_allow` reads.
use claude_chats.Prelude.{
  ℕ, suc, length, ◌≡◌, ◌≢◌, sym, ap, ◌∙◌, ◌↔◌, inl, inr, true, false, Bool-cases, some,
  Option-cases, List-cases, List, [], ◌∷◌, ◌==◌, arith, Bytes, In,
}
use claude_chats.Http.{is_empty, allow_from, httpreq_parse_allow, listed, httpreq_peer_ok}

listed-In : (peer : ℕ) (allow : List ℕ) → listed peer allow ≡ true → In peer allow
unfolding listed
listed-In peer [] h = absurd (ground arith)
listed-In peer (a ∷ rest) h = elim (Bool-cases (a == peer)) [
  | inl same ↦ inl (ground arith)
  | inr other ↦ inr (listed-In peer rest (ground arith))
]

In-listed : (peer : ℕ) (allow : List ℕ) → In peer allow → listed peer allow ≡ true
unfolding listed
In-listed peer [] h = absurd h
In-listed peer (a ∷ rest) (inl same) = ground arith
In-listed peer (a ∷ rest) (inr later) = let ih = In-listed peer rest later in ground arith

-- A text that is not empty gives a list that is not empty, or none.
httpreq_parse_allow-filled :
    (c : ℕ) (s : Bytes) (max : ℕ) (allow : List ℕ)
    → httpreq_parse_allow (c ∷ s) max ≡ some allow
    → is_empty allow ≡ false
unfolding httpreq_parse_allow
httpreq_parse_allow-filled c s max allow h =
    elim (Option-cases (allow_from (suc (length (c ∷ s))) max [] (c ∷ s))) [
      | inl nothing ↦ absurd (ground arith)
      | inr (got, found) ↦ elim (Bool-cases (is_empty got)) [
        | inl empty ↦ absurd (ground arith)
        | inr filled ↦ ground arith
      ]
    ]

-- Once a list is configured, as any text that is not empty, and was read, a peer is let in exactly
-- when the device has an address and the peer's is on the list: such a text never falls back to the
-- device's own network.
pub httpreq_peer_ok-httpreq_parse_allow :
    (text : Bytes) (max : ℕ) (allow : List ℕ) (peer self mask : ℕ)
    → text ≢ []
    → httpreq_parse_allow text max ≡ some allow
    → (httpreq_peer_ok peer self mask allow ≡ true) ↔ ((self ≢ 0) × In peer allow)
unfolding httpreq_peer_ok
httpreq_peer_ok-httpreq_parse_allow text max allow peer self mask filled read =
    let has : is_empty allow ≡ false = elim (List-cases text) [
      | inl e ↦ absurd (filled e)
      | inr (c, s, e) ↦
          httpreq_parse_allow-filled c s max allow
            (ap (λ x. httpreq_parse_allow x max) (sym e) ∙ read)
    ] in
    (
      λ ok. ((λ z. ground arith), listed-In peer allow (ground arith)),
      λ (here, on_list). let l = In-listed peer allow on_list in ground arith,
    )
