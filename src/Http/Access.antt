-- ===== src/Http/Access.antt =====
-- `httpreq_parse_allow` and `httpreq_peer_ok` of esp32-embedder/worker/httpreq.c: a list of addresses
-- as text, and who it lets in.
use claude_chats.Prelude.{
  ℕ, zero, suc, ◌+◌, ◌/◌, ◌%◌, ◌^◌, ◌≤◌, ◌<◌, ◌≡◌, refl, sym, ap, ◌∙◌, inl, inr, true, false,
  Bool-cases, some, List-cases, List, [], ◌∷◌, ◌++◌, append-nil, append_assoc, length,
  length-append, ltb, ◌==◌, arith, Bytes, All, All-append,
}
use claude_chats.Http.{is_separator, skip_separators, word, allow_from, httpreq_parse_allow}
use mathlib.Core.Path.{subst}
use claude_chats.Http.Address.{printed, dotted, httpreq_parse_ip-dotted}

-- Every address with a comma in front of it.
abbrev following : List ℕ → Bytes
following [] = []
following (a ∷ rest) = b',' ∷ (dotted a ++ following rest)

-- Addresses with commas between them.
abbrev pub joined : List ℕ → Bytes
joined [] = []
joined (a ∷ rest) = dotted a ++ following rest

abbrev pub Is32 : ℕ → Type 0
Is32 a = a < 2 ^ 32

abbrev IsWordByte : ℕ → Type 0
IsWordByte c = is_separator c ≡ false

printed-All : (v : ℕ) → All IsWordByte (printed v)
printed-All v = elim (Bool-cases (ltb v 10)) [
  | inl small ↦ rw small (ground arith, tt)
  | inr more ↦ elim (Bool-cases (ltb v 100)) [
    | inl middle ↦ rw (more, middle) (ground arith, (ground arith, tt))
    | inr large ↦ rw (more, large) (ground arith, (ground arith, (ground arith, tt)))
  ]
]

dotted-All : (ip : ℕ) → All IsWordByte (dotted ip)
dotted-All ip =
    let part = printed-All in
    All-append IsWordByte _ _ (part (ip / 2 ^ 24)) (
      refl,
      All-append IsWordByte _ _ (part (ip / 2 ^ 16 % 256)) (
        refl,
        All-append IsWordByte _ _ (part (ip / 2 ^ 8 % 256))
            (refl, All-append IsWordByte _ _ (part (ip % 256)) tt),
      ),
    )

-- Nothing, or a separator first.
abbrev IsCut : Bytes → Type 0
IsCut [] = Unit
IsCut (c ∷ s) = is_separator c ≡ true

word-append : (w s : Bytes) → All IsWordByte w → IsCut s → word (w ++ s) ≡ (w, s)
unfolding word
word-append [] [] h e = refl
word-append [] (c ∷ s) h e = rw e refl
word-append (c ∷ w) s h e = rw (h.0, word-append w s h.1 e) refl

skip_separators-word : (c : ℕ) (s : Bytes) → IsWordByte c → skip_separators (c ∷ s) ≡ c ∷ s
unfolding skip_separators
skip_separators-word c s h = rw h refl

printed_first :
    (v : ℕ) (s : Bytes) → (c : ℕ) × (cs : Bytes) × (printed v ++ s ≡ c ∷ cs) × IsWordByte c
printed_first v s = elim (List-cases (printed v)) [
  | inl e ↦ absurd (ground arith)
  | inr (c, cs, e) ↦ (c, cs ++ s, rw e refl, (subst (All IsWordByte) e (printed-All v)).0)
]

dotted_first :
    (ip : ℕ) (s : Bytes) → (c : ℕ) × (cs : Bytes) × (dotted ip ++ s ≡ c ∷ cs) × IsWordByte c
dotted_first ip s =
    let (c, cs, e, is) = printed_first (ip / 2 ^ 24) _ in (c, cs ++ s, ap (λ x. x ++ s) e, is)

-- One address of the list, whatever stands before it that is skipped.
allow_round :
    (fuel max : ℕ) (got : List ℕ) (a : ℕ) (s t : Bytes)
    → skip_separators s ≡ dotted a ++ t
    → IsCut t
    → Is32 a
    → length got < max
    → allow_from (suc fuel) max got s ≡ allow_from fuel max (got ++ (a ∷ [])) t
unfolding allow_from
allow_round fuel max got a s t skipped cut small room =
    let (c, cs, first, is) = dotted_first a t in
    let split : word (c ∷ cs) ≡ (dotted a, t) =
      ap word (sym first) ∙ word-append (dotted a) t (dotted-All a) cut in
    let more : (length got == max) ≡ false = ground arith in
    rw (allow_from, skipped, first, more, split, httpreq_parse_ip-dotted a small, split) refl

following-IsCut : (ips : List ℕ) → IsCut (following ips)
following-IsCut [] = tt
following-IsCut (a ∷ rest) = refl

skip_separators-dotted : (a : ℕ) (t : Bytes) → skip_separators (dotted a ++ t) ≡ dotted a ++ t
skip_separators-dotted a t =
    let (c, cs, first, is) = dotted_first a t in
    ap skip_separators first ∙ skip_separators-word c cs is ∙ sym first

allow_from-following :
    (ips : List ℕ) (fuel max : ℕ) (got : List ℕ)
    → length ips < fuel
    → length got + length ips ≤ max
    → All Is32 ips
    → allow_from fuel max got (following ips) ≡ some (got ++ ips)
unfolding allow_from skip_separators
allow_from-following [] (suc fuel) max got enough room small = ap some (sym (append-nil got))
allow_from-following (a ∷ rest) (suc fuel) max got enough room small =
    allow_round fuel max got a (following (a ∷ rest)) (following rest)
      (skip_separators-dotted a (following rest)) (following-IsCut rest) small.0 (omega arith)
    ∙ allow_from-following rest fuel max (got ++ (a ∷ [])) (omega arith)
        (rw (length-append got (a ∷ [])) omega arith) small.1
    ∙ ap some (append_assoc got (a ∷ []) rest)
allow_from-following ips zero max got enough room small = absurd (omega arith)

length-following : (ips : List ℕ) → length ips ≤ length (following ips)
length-following [] = omega arith
length-following (a ∷ rest) =
    let ih = length-following rest in rw (length-append (dotted a) (following rest)) omega arith

length-dotted : (a : ℕ) (t : Bytes) → length t < length (dotted a ++ t)
length-dotted a t =
    let (c, cs, e, is) = dotted_first a [] in
    let first : length (dotted a) ≡ suc (length cs) = ap length (sym (append-nil (dotted a)) ∙ e) in
    rw (length-append (dotted a) t, first) omega arith

-- Addresses below 2 ^ 32, at most `max` of them, written with commas between them, are read back as
-- the same list.
pub httpreq_parse_allow-joined :
    (ips : List ℕ) (max : ℕ)
    → All Is32 ips
    → length ips ≤ max
    → httpreq_parse_allow (joined ips) max ≡ some ips
unfolding httpreq_parse_allow allow_from skip_separators
httpreq_parse_allow-joined [] max small room = refl
httpreq_parse_allow-joined (a ∷ rest) max small room =
    let n = length (joined (a ∷ rest)) in
    let fuel : length rest < n =
      (let shorter = length-following rest in
        let longer = length-dotted a (following rest) in omega arith) in
    let fits : 1 + length rest ≤ max = omega arith in
    let e =
      allow_round n max [] a (joined (a ∷ rest)) (following rest)
        (skip_separators-dotted a (following rest)) (following-IsCut rest) small.0 (omega arith) in
    let f = allow_from-following rest n max (a ∷ []) fuel fits small.1 in
    rw (httpreq_parse_allow, e, f) (ground arith)
