-- ===== src/Tok/Vocab/Loads.antt =====
-- How full the hash table of esp32-embedder/tok/tok.c gets.
use claude_chats.Prelude.{
  ℕ, zero, suc, ◌+◌, ◌-◌, ◌*◌, ◌%◌, ◌^◌, ◌<◌, ◌≤◌, ◌≡◌, refl, sym, ap, ◌∙◌, inl, inr, Bool-cases,
  some, Option-cases, not, ◌||◌, List, [], ◌∷◌, length, length-modify, get_or, modify, replicate,
  ltb, leb, ◌==◌, if◌then◌else◌, arith, Bytes, split_at,
}
use mathlib.Core.Path.{subst}
use native.Mathlib.Nat.{pow-suc, mul_comm, mul_assoc}
use claude_chats.Tok.Vocab.{Vocab, Blocks, hash_size, add_string, add_strings, tok_init}

-- The slots in use.
unfoldable pub used : List ℕ → ℕ
used [] = 0
used (e ∷ es) = (if e == 0 then 0 else 1) + used es

used-replicate : (n : ℕ) → used (replicate n 0) ≡ 0
unfolding used
used-replicate zero = refl
used-replicate (suc n) = omega (arith, used-replicate n)

used-modify : (es : List ℕ) (i : ℕ) (f : ℕ → ℕ) → used (modify es i f) ≤ used es + 1
unfolding used
used-modify [] i f = omega arith
used-modify (e ∷ es) zero f = ground arith
used-modify (e ∷ es) (suc i) f = ground (arith, used-modify es i f)

-- A table that is not full has an empty slot.
pub empty_slot :
    (es : List ℕ) → used es < length es → (z : ℕ) × (z < length es) × (get_or es z 0 ≡ 0)
unfolding used
empty_slot [] h = absurd (omega arith)
empty_slot (e ∷ es) h = elim (Bool-cases (e == 0)) [
  | inl here ↦ (0, omega arith, ground arith)
  | inr taken ↦ (let (z, z_in, is) = empty_slot es (ground arith) in (suc z, omega arith, is))
]

length-replicate : (n x : ℕ) → length (replicate n x) ≡ n
length-replicate zero x = refl
length-replicate (suc n) x = ap suc (length-replicate n x)

-- A size that is a power of two, kept by the doubling.
hash_size-power : (fuel n j : ℕ) → (k : ℕ) × (hash_size fuel n (2 ^ j) ≡ 2 ^ k)
unfolding hash_size
hash_size-power zero n j = (j, refl)
hash_size-power (suc fuel) n j = elim (Bool-cases (ltb (2 ^ j) (2 * n))) [
  | inl small ↦
      (let (k, e) = hash_size-power fuel n (suc j) in
        (
          k,
          (let twice : 2 ^ suc j ≡ 2 ^ j * 2 = omega arith in
              rw small (subst (λ x. hash_size fuel n x ≡ 2 ^ k) twice e)),
        ))
  | inr enough ↦ (j, rw enough refl)
]

size_twice : (size fuel : ℕ) → size * 2 ^ suc fuel ≡ size * 2 * 2 ^ fuel
size_twice size fuel =
    ap (λ x. size * x) (pow-suc 2 fuel ∙ mul_comm (2 ^ fuel) 2) ∙ sym (mul_assoc size 2 (2 ^ fuel))

hash_size-enough : (fuel n size : ℕ) → 2 * n ≤ size * 2 ^ fuel → 2 * n ≤ hash_size fuel n size
unfolding hash_size
hash_size-enough zero n size h = omega arith
hash_size-enough (suc fuel) n size h = elim (Bool-cases (ltb size (2 * n))) [
  | inl small ↦
      rw small
        (hash_size-enough fuel n (size * 2) (subst (λ x. 2 * n ≤ x) (size_twice size fuel) h))
  | inr enough ↦ rw enough (ground arith)
]

-- A table of `2 ^ k` slots with the mask for them.
pub record IsTable (k : ℕ) (v : Vocab) : Type 0 where
  pub size_is : length v.hash ≡ 2 ^ k
  pub mask_is : v.hmask ≡ 2 ^ k - 1

add_string-IsTable : (k i : ℕ) (p : Bytes) (v : Vocab) → IsTable k v → IsTable k (add_string i p v)
unfolding add_string
add_string-IsTable k i p v h = record {
  size_is = length-modify v.hash _ (λ x. (i + 1) % 2 ^ 16) ∙ h.size_is;
  mask_is = h.mask_is;
}

used-add_string : (i : ℕ) (p : Bytes) (v : Vocab) → used (add_string i p v).hash ≤ used v.hash + 1
unfolding add_string
used-add_string i p v = used-modify v.hash _ (λ x. (i + 1) % 2 ^ 16)

add_strings_lem :
    (left i : ℕ) (hf : Bytes) (v v1 : Vocab) (k : ℕ)
    → IsTable k v
    → add_strings left i hf v ≡ some v1
    → IsTable k v1 × (used v1.hash ≤ used v.hash + left)
unfolding add_strings
add_strings_lem zero i hf v v1 k h e =
    let same : v ≡ v1 = ground arith in
    (subst (IsTable k) same h, subst (λ x. used x.hash ≤ used v.hash + 0) same (omega arith))
add_strings_lem (suc left) i hf v v1 k h e = elim (Option-cases (split_at 0 hf)) [
  | inl short ↦ absurd (ground arith)
  | inr ((p, rest), found) ↦
      let (table, few) =
        add_strings_lem left (i + 1) rest (add_string i p v) v1 k (add_string-IsTable k i p v h)
          (ground arith) in
      let one = used-add_string i p v in (table, omega arith)
]

-- The table that `tok_init` builds for n strings has a power of two of slots, its mask, and an empty slot.
pub tok_init-IsTable :
    (blocks : Blocks) (hf : Bytes) (n : ℕ) (v : Vocab)
    → tok_init blocks hf n ≡ some v
    → (k : ℕ) × IsTable k v × (2 * used v.hash ≤ length v.hash) × (used v.hash < length v.hash)
unfolding tok_init
tok_init-IsTable blocks hf n v h = elim (Bool-cases (n == 0 || leb 0xFFFF n)) [
  | inl refused ↦ absurd (ground arith)
  | inr counted ↦
      elim (Bool-cases (not blocks.got_buf || (not blocks.got_off || not blocks.got_hash))) [
        | inl no_memory ↦ absurd (ground arith)
        | inr got ↦
            let size = hash_size 17 n 1 in
            let start : Vocab = record {
              buf = [];
              off = [];
              hash = replicate size 0;
              hmask = size - 1;
              n = 0;
              max_len = 0;
            } in
            elim (Option-cases (add_strings n 0 hf start)) [
              | inl short ↦ absurd (ground arith)
              | inr (v1, added) ↦
                  let (k, power) = hash_size-power 17 n 0 in
                  let table : IsTable k start = record {
                    size_is = length-replicate size 0 ∙ power;
                    mask_is = ap (λ x. x - 1) power;
                  } in
                  let (table1, few) = add_strings_lem n 0 hf start v1 k table added in
                  let wide = hash_size-enough 17 n 1 (ground arith) in
                  let none_yet : used start.hash ≡ 0 = used-replicate size in
                  let same : record v1 { n = n } ≡ v = ground arith in
                  let slots : length v1.hash ≡ size = table1.size_is ∙ sym power in
                  let some_string : 0 < n = ground arith in
                  subst
                    (λ x.
                      (k : ℕ) × IsTable k x
                      × (2 * used x.hash ≤ length x.hash)
                      × (used x.hash < length x.hash))
                    same
                    (
                      k,
                      record { size_is = table1.size_is; mask_is = table1.mask_is },
                      omega arith,
                      omega arith,
                    )
            ]
      ]
]
