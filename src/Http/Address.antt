-- ===== src/Http/Address.antt =====
-- `httpreq_parse_ip` of esp32-embedder/worker/httpreq.c: dotted addresses read back, and nothing else read.
use claude_chats.Prelude.{
  ℕ, zero, suc, ◌+◌, ◌-◌, ◌*◌, ◌/◌, ◌%◌, ◌^◌, ◌≤◌, ◌<◌, ◌≡◌, refl, ap, ◌∙◌, inl, inr, true, false,
  Bool-cases, ◌&&◌, some, [], ◌∷◌, ◌++◌, ltb, leb, if◌then◌else◌, arith, Bytes,
}
use claude_chats.Http.{take_digits, octet, after_dot, ip_parts, httpreq_parse_ip}

-- A number below 1000 as `%d` writes it.
abbrev pub printed : ℕ → Bytes
printed v =
    if ltb v 10
    then (48 + v) ∷ []
    else if ltb v 100
    then (48 + v / 10) ∷ (48 + v % 10) ∷ []
    else (48 + v / 100) ∷ (48 + v / 10 % 10) ∷ (48 + v % 10) ∷ []

-- Nothing that could lengthen a number.
abbrev pub IsEnd : Bytes → Type 0
IsEnd [] = Unit
IsEnd (c ∷ s) = (leb 48 c && leb c 57) ≡ false

take_digits-end : (k v : ℕ) (s : Bytes) → IsEnd s → take_digits k v s ≡ (v, 0, s)
unfolding take_digits
take_digits-end zero v s e = refl
take_digits-end (suc k) v [] e = refl
take_digits-end (suc k) v (c ∷ s) e = rw e refl

take_digits-digit :
    (k v a : ℕ) (s : Bytes)
    → a ≤ 9
    → take_digits (suc k) v ((48 + a) ∷ s)
      ≡ (let r = take_digits k (v * 10 + a) s in (r.0, r.1 + 1, r.2))
unfolding take_digits
take_digits-digit k v a s h =
    let back : 48 + a - 48 ≡ a = omega arith in
    let digit : (leb 48 (48 + a) && leb (48 + a) 57) ≡ true = ground arith in rw (digit, back) refl

one_digit : (a : ℕ) (s : Bytes) → a ≤ 9 → IsEnd s → take_digits 3 0 ((48 + a) ∷ s) ≡ (a, 1, s)
one_digit a s h e =
    rw (take_digits-digit 2 0 a s h, take_digits-end 2 (0 * 10 + a) s e) (ground arith)

two_digits :
    (a b : ℕ) (s : Bytes)
    → a ≤ 9
    → b ≤ 9
    → IsEnd s
    → take_digits 3 0 ((48 + a) ∷ (48 + b) ∷ s) ≡ (a * 10 + b, 2, s)
two_digits a b s ha hb e =
    rw
      (
        take_digits-digit 2 0 a ((48 + b) ∷ s) ha,
        take_digits-digit 1 (0 * 10 + a) b s hb,
        take_digits-end 1 ((0 * 10 + a) * 10 + b) s e,
      )
      (ground arith)

three_digits :
    (a b c : ℕ) (s : Bytes)
    → a ≤ 9
    → b ≤ 9
    → c ≤ 9
    → take_digits 3 0 ((48 + a) ∷ (48 + b) ∷ (48 + c) ∷ s) ≡ ((a * 10 + b) * 10 + c, 3, s)
three_digits a b c s ha hb hc =
    rw
      (
        take_digits-digit 2 0 a ((48 + b) ∷ (48 + c) ∷ s) ha,
        take_digits-digit 1 (0 * 10 + a) b ((48 + c) ∷ s) hb,
        take_digits-digit 0 ((0 * 10 + a) * 10 + b) c s hc,
      )
      (unfold take_digits in ground arith)

octet-printed :
    (v : ℕ) (rest : Bytes) → v < 256 → IsEnd rest → octet (printed v ++ rest) ≡ some (v, rest)
unfolding octet
octet-printed v rest h e = elim (Bool-cases (ltb v 10)) [
  | inl small ↦ rw (small, one_digit v rest (ground arith) e) (ground arith)
  | inr more ↦ elim (Bool-cases (ltb v 100)) [
    | inl middle ↦
        rw (more, middle, two_digits (v / 10) (v % 10) rest (ground arith) (omega arith) e)
          (ground arith)
    | inr large ↦
        rw
          (
            more,
            large,
            three_digits (v / 100) (v / 10 % 10) (v % 10) rest (ground arith) (omega arith)
                (omega arith),
          )
          (ground arith)
  ]
]

-- `a.b.c.d` for a 32-bit address.
abbrev pub dotted : ℕ → Bytes
dotted ip =
    printed (ip / 2 ^ 24)
    ++ (b'.'
        ∷ (printed (ip / 2 ^ 16 % 256)
            ++ (b'.' ∷ (printed (ip / 2 ^ 8 % 256) ++ (b'.' ∷ (printed (ip % 256) ++ []))))))

ip_parts-printed :
    (left v o : ℕ) (s : Bytes)
    → o < 256
    → IsEnd s
    → ip_parts (suc left) false v (b'.' ∷ (printed o ++ s)) ≡ ip_parts left false (v * 256 + o) s
unfolding ip_parts after_dot
ip_parts-printed left v o s h e = rw (ip_parts, octet-printed o s h e) refl

ip_parts-first :
    (left v o : ℕ) (s : Bytes)
    → o < 256
    → IsEnd s
    → ip_parts (suc left) true v (printed o ++ s) ≡ ip_parts left false (v * 256 + o) s
unfolding ip_parts after_dot
ip_parts-first left v o s h e = rw (ip_parts, octet-printed o s h e) refl

-- The four parts of a dotted address, one after the other.
ip_parts-dotted : (ip : ℕ) → ip < 2 ^ 32 → ip_parts 4 true 0 (dotted ip) ≡ some (ip, [])
ip_parts-dotted ip h =
    let a = ip / 2 ^ 24 in
    let b = ip / 2 ^ 16 % 256 in
    let c = ip / 2 ^ 8 % 256 in
    let d = ip % 256 in
    ip_parts-first 3 0 a (b'.' ∷ (printed b ++ (b'.' ∷ (printed c ++ (b'.' ∷ (printed d ++ []))))))
      (omega arith) refl
    ∙ ip_parts-printed 2 (0 * 256 + a) b (b'.' ∷ (printed c ++ (b'.' ∷ (printed d ++ []))))
        (omega arith) refl
    ∙ ip_parts-printed 1 ((0 * 256 + a) * 256 + b) c (b'.' ∷ (printed d ++ [])) (omega arith) refl
    ∙ ip_parts-printed 0 (((0 * 256 + a) * 256 + b) * 256 + c) d [] (omega arith) tt
    ∙ unfold ip_parts in ap (λ x. some (x, [])) (omega arith)

-- Every 32-bit address, written with dots, is read back as itself.
pub httpreq_parse_ip-dotted : (ip : ℕ) → ip < 2 ^ 32 → httpreq_parse_ip (dotted ip) ≡ some ip
unfolding httpreq_parse_ip
httpreq_parse_ip-dotted ip h = rw (httpreq_parse_ip, ip_parts-dotted ip h) refl
