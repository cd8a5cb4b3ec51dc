-- ===== src/Http/Octets.antt =====
-- What an octet of `httpreq_parse_ip`, esp32-embedder/worker/httpreq.c, can have been read from.
use claude_chats.Prelude.{
  ℕ, suc, ◌+◌, ◌*◌, ◌/◌, ◌%◌, ◌^◌, ◌<◌, ◌≡◌, refl, ap, ◌∙◌, ◌↔◌, inl, inr, Bool, true, false,
  Bool-cases, ◌&&◌, some, Option-cases, List-cases, [], ◌∷◌, ◌++◌, leb, ◌==◌, arith, Bytes,
}
use claude_chats.Http.{take_digits, octet, after_dot, ip_parts, httpreq_parse_ip}
use claude_chats.Http.Address.{printed, dotted, httpreq_parse_ip-dotted}

abbrev is_digit : ℕ → Bool
is_digit c = leb 48 c && leb c 57

octet_inv :
    (s : Bytes) (v : ℕ) (r : Bytes) → octet s ≡ some (v, r) → (v < 256) × (s ≡ printed v ++ r)
unfolding octet take_digits
octet_inv [] v r h = absurd (ground arith)
octet_inv (c ∷ []) v r h = ground arith
octet_inv (c ∷ d ∷ []) v r h = ground arith
octet_inv (c ∷ d ∷ e ∷ s) v r h = elim (Bool-cases (is_digit c)) [
  | inr f ↦ absurd (ground arith)
  | inl t ↦ elim (Bool-cases (is_digit d)) [
    | inr f ↦ ground arith
    | inl u ↦ elim (Bool-cases (is_digit e)) [ inr f ↦ ground arith | inl w ↦ ground arith ]
  ]
]

-- One more part: its dot, its octet and the parts after it.
next_part :
    (left v : ℕ) (s : Bytes) (w : ℕ) (r : Bytes)
    → ip_parts (suc left) false v s ≡ some (w, r)
    → (o : ℕ) × (rest : Bytes) × (o < 256)
      × (s ≡ b'.' ∷ (printed o ++ rest))
      × (ip_parts left false (v * 256 + o) rest ≡ some (w, r))
unfolding ip_parts after_dot
next_part left v [] w r h = absurd (ground arith)
next_part left v (c ∷ s) w r h = elim (Bool-cases (c == b'.')) [
  | inr f ↦ absurd (ground arith)
  | inl t ↦ elim (Option-cases (octet s)) [
    | inl nothing ↦ absurd (ground arith)
    | inr ((o, rest), found) ↦
        let (small, is) = octet_inv s o rest found in
        (o, rest, small, (let dot : c ≡ b'.' = ground arith in rw (dot, is) refl), ground arith)
  ]
]

first_part :
    (left v : ℕ) (s : Bytes) (w : ℕ) (r : Bytes)
    → ip_parts (suc left) true v s ≡ some (w, r)
    → (o : ℕ) × (rest : Bytes) × (o < 256)
      × (s ≡ printed o ++ rest)
      × (ip_parts left false (v * 256 + o) rest ≡ some (w, r))
unfolding ip_parts after_dot
first_part left v s w r h = elim (Option-cases (octet s)) [
  | inl nothing ↦ absurd (ground arith)
  | inr ((o, rest), found) ↦
      (o, rest, (octet_inv s o rest found).0, (octet_inv s o rest found).1, ground arith)
]

dotted_of :
    (a b c d : ℕ)
    → a < 256
    → b < 256
    → c < 256
    → d < 256
    → (ip : ℕ) → ip ≡ ((a * 256 + b) * 256 + c) * 256 + d
    → (ip < 2 ^ 32)
      × (printed a ++ (b'.' ∷ (printed b ++ (b'.' ∷ (printed c ++ (b'.' ∷ (printed d ++ []))))))
          ≡ dotted ip)
dotted_of a b c d ha hb hc hd ip e =
    let a_is : ip / 2 ^ 24 ≡ a = omega arith in
    let b_is : ip / 2 ^ 16 % 256 ≡ b = omega arith in
    let c_is : ip / 2 ^ 8 % 256 ≡ c = omega arith in
    let d_is : ip % 256 ≡ d = omega arith in (omega arith, rw (a_is, b_is, c_is, d_is) refl)

httpreq_parse_ip_inv :
    (s : Bytes) (ip : ℕ) → httpreq_parse_ip s ≡ some ip → (ip < 2 ^ 32) × (s ≡ dotted ip)
unfolding httpreq_parse_ip
httpreq_parse_ip_inv s ip h = elim (Option-cases (ip_parts 4 true 0 s)) [
  | inl nothing ↦ absurd (ground arith)
  | inr ((w, r), found) ↦
      let (a, s1, ha, is1, p1) = first_part 3 0 s w r found in
      let (b, s2, hb, is2, p2) = next_part 2 (0 * 256 + a) s1 w r p1 in
      let (c, s3, hc, is3, p3) = next_part 1 ((0 * 256 + a) * 256 + b) s2 w r p2 in
      let (d, s4, hd, is4, p4) = next_part 0 (((0 * 256 + a) * 256 + b) * 256 + c) s3 w r p3 in
      let ended : r ≡ [] = elim (List-cases r) [
        | inl e ↦ e
        | inr (x, xs, e) ↦ absurd (ground arith)
      ] in
      let s4_is : s4 ≡ [] = (unfold ip_parts in ground arith) in
      let ip_is : ip ≡ ((a * 256 + b) * 256 + c) * 256 + d = (unfold ip_parts in ground arith) in
      let (small, is) = dotted_of a b c d ha hb hc hd ip ip_is in
      (small, rw (is1, is2, is3, is4, s4_is) is)
]

-- A text is read as an address exactly when it is that 32-bit address written with dots.
pub httpreq_parse_ip_lem :
    (s : Bytes) (ip : ℕ) → (httpreq_parse_ip s ≡ some ip) ↔ ((ip < 2 ^ 32) × (s ≡ dotted ip))
httpreq_parse_ip_lem s ip = (
  httpreq_parse_ip_inv s ip,
  λ (small, is). ap httpreq_parse_ip is ∙ httpreq_parse_ip-dotted ip small,
)
