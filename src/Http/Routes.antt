-- ===== src/Http/Routes.antt =====
-- `httpreq_route` of esp32-embedder/worker/httpreq.c: which requests are served.
use claude_chats.Prelude.{
  ℕ, zero, suc, ◌+◌, ◌≡◌, refl, sym, ap, ◌∙◌, ◌⊎◌, inl, inr, true, Bool-cases, Option-cases, [],
  ◌∷◌, ◌++◌, append_assoc, append-nil, length, drop, get_or, ◌<◌, arith, Bytes, split_at, codes,
  bytes_eq, bytes_eq→eq, split_at_lem, take_is,
}
use claude_chats.Http.{json, chomp, version_ok, is_json, route_target, route_line, httpreq_route}

chomp_lem : (s : Bytes) → (chomp s ≡ s) ⊎ (s ≡ chomp s ++ (13 ∷ []))
unfolding chomp
chomp_lem [] = inl refl
chomp_lem (c ∷ []) = ground arith
chomp_lem (c ∷ d ∷ rest) = ground (arith, chomp_lem (d ∷ rest))

-- `/json`, alone or with a query behind it.
abbrev pub IsQuery : Bytes → Type 0
IsQuery [] = Unit
IsQuery (c ∷ q) = c ≡ b'?'

IsQuery-drop :
    (n : ℕ) (t : Bytes)
    → (length t ≡ n) ⊎ ((n < length t) × (get_or t n 0 ≡ b'?'))
    → IsQuery (drop n t)
IsQuery-drop zero [] h = tt
IsQuery-drop zero (c ∷ t) h = ground arith
IsQuery-drop (suc n) [] h = tt
IsQuery-drop (suc n) (c ∷ t) h = IsQuery-drop n t (ground arith)

drop-last : (n : ℕ) (t : Bytes) → length t ≡ n + 1 → drop n t ≡ get_or t n 0 ∷ []
drop-last zero [] h = absurd (omega arith)
drop-last zero (c ∷ []) h = refl
drop-last zero (c ∷ d ∷ t) h = absurd (omega arith)
drop-last (suc n) [] h = absurd (omega arith)
drop-last (suc n) (c ∷ t) h = drop-last n t (omega arith)

is_json_lem : (t : Bytes) → is_json t ≡ true → (q : Bytes) × (t ≡ codes "/json" ++ q) × IsQuery q
unfolding is_json
is_json_lem t h =
    (drop 5 t, take_is 5 t (codes "/json") (ground arith), IsQuery-drop 5 t (ground arith))

version_ok_lem :
    (v : Bytes)
    → version_ok v ≡ true
    → (d : ℕ) × (v ≡ codes "HTTP/1." ++ (d ∷ [])) × ((d ≡ b'0') ⊎ (d ≡ b'1'))
unfolding version_ok
version_ok_lem v h = (
  get_or v 7 0,
  take_is 7 v (codes "HTTP/1.") (ground arith)
      ∙ ap (λ x. codes "HTTP/1." ++ x) (drop-last 7 v (ground arith)),
  ground arith,
)

-- A request line that is served.
abbrev request_line : Bytes → ℕ → Bytes
request_line query digit = codes "GET /json" ++ (query ++ (codes " HTTP/1." ++ (digit ∷ [])))

record Served (line : Bytes) : Type 0 where
  query : Bytes
  digit : ℕ
  line_is : line ≡ request_line query digit
  query_is : IsQuery query
  digit_is : (digit ≡ b'0') ⊎ (digit ≡ b'1')

parts_of_line :
    (line method rest target version query : Bytes) (digit : ℕ)
    → line ≡ method ++ (32 ∷ rest)
    → rest ≡ target ++ (32 ∷ version)
    → method ≡ codes "GET"
    → target ≡ codes "/json" ++ query
    → version ≡ codes "HTTP/1." ++ (digit ∷ [])
    → line ≡ request_line query digit
parts_of_line line method rest target version query digit l r m t v = rw (l, r, m, t, v) refl

route_target_lem :
    (method target : Bytes)
    → route_target method target ≡ json
    → (method ≡ codes "GET") × (is_json target ≡ true)
unfolding route_target
route_target_lem method target h = elim (Bool-cases (bytes_eq method (codes "GET"))) [
  | inr other ↦ absurd (ground arith)
  | inl get ↦ (bytes_eq→eq method (codes "GET") get, ground arith)
]

route_line-Served : (line : Bytes) → route_line line ≡ json → Served line
unfolding route_line
route_line-Served line h = elim (Option-cases (split_at 32 line)) [
  | inl whole ↦ absurd (ground arith)
  | inr ((method, rest), first) ↦ elim (Option-cases (split_at 32 rest)) [
    | inl short ↦ absurd (ground arith)
    | inr ((target, version), second) ↦
        let routed : route_target method target ≡ json = ground arith in
        let (get, is_target) = route_target_lem method target routed in
        let (q, target_is, query_is) = is_json_lem target is_target in
        let (d, version_is, digit_is) = version_ok_lem version (ground arith) in
        record {
          query = q;
          digit = d;
          line_is =
              parts_of_line line method rest target version q d
                (split_at_lem 32 line method rest first)
                (split_at_lem 32 rest target version second) get target_is version_is;
          query_is = query_is;
          digit_is = digit_is;
        }
  ]
]

ended_by :
    (buf line rest query cr : Bytes) (digit : ℕ)
    → buf ≡ line ++ (10 ∷ rest)
    → line ≡ request_line query digit ++ cr
    → buf ≡ codes "GET /json" ++ (query ++ (codes " HTTP/1." ++ (digit ∷ (cr ++ (10 ∷ rest)))))
ended_by buf line rest query cr digit b l = rw (b, l) (simp append_assoc)

-- A request that is served with the status is, byte for byte, `GET /json`, perhaps with a query that
-- starts with `?`, then ` HTTP/1.0` or ` HTTP/1.1` and a line end, before whatever follows.
pub httpreq_route_lem :
    (buf : Bytes)
    → httpreq_route buf ≡ json
    → (query : Bytes) × (digit : ℕ) × (line_end : Bytes) × (rest : Bytes) × (buf
        ≡ codes "GET /json" ++ (query ++ (codes " HTTP/1." ++ (digit ∷ (line_end ++ rest)))))
      × IsQuery query
      × ((digit ≡ b'0') ⊎ (digit ≡ b'1'))
      × ((line_end ≡ 10 ∷ []) ⊎ (line_end ≡ 13 ∷ 10 ∷ []))
unfolding httpreq_route
httpreq_route_lem buf h = elim (Option-cases (split_at 10 buf)) [
  | inl endless ↦ absurd (ground arith)
  | inr ((line, rest), found) ↦
      let s = route_line-Served (chomp line) (ground arith) in
      let whole = split_at_lem 10 buf line rest found in
      elim (chomp_lem line) [
        | inl bare ↦ (
          s.query,
          s.digit,
          10 ∷ [],
          rest,
          ended_by buf line rest s.query [] s.digit whole
              (sym bare ∙ s.line_is ∙ sym (append-nil (request_line s.query s.digit))),
          s.query_is,
          s.digit_is,
          inl refl,
        )
        | inr cut ↦ (
          s.query,
          s.digit,
          13 ∷ 10 ∷ [],
          rest,
          ended_by buf line rest s.query (13 ∷ []) s.digit whole
              (cut ∙ ap (λ x. x ++ (13 ∷ [])) s.line_is),
          s.query_is,
          s.digit_is,
          inr refl,
        )
      ]
]
