-- ===== src/Tok/Vocab/Probing.antt =====
-- The probes of `tok_lookup`, esp32-embedder/tok/tok.c, end.
use claude_chats.Prelude.{
  ℕ, zero, suc, ◌+◌, ◌-◌, ◌%◌, ◌^◌, ◌<◌, ◌≡◌, refl, sym, ap, ◌∙◌, inl, inr, true, false, Bool-cases,
  none, some, length, get_or, leb, ◌==◌, arith, Bytes,
}
use Prim.Native.Nat.{bit_and}
use mathlib.Core.Path.{subst}
use native.Mathlib.Nat.{one-le-pow, mod-lt, mod-eq_of_lt, mod-add-mod, add-mod_right}
use claude_chats.Tok.Vocab.{Vocab, Blocks, is_string, probe, fnv1a, tok_lookup, tok_init}
use claude_chats.Tok.Vocab.Masks.{bit_and-mask}
use claude_chats.Tok.Vocab.Loads.{IsTable, empty_slot, tok_init-IsTable}

-- One probe: at an empty slot, at the string's, and at another's.
module _ (v : Vocab) (fuel h : ℕ) (s : Bytes) where
  probe_free : (get_or v.hash h 0 == 0) ≡ true → probe (suc fuel) v h s ≡ none
  unfolding probe
  probe_free free = rw (probe, free) refl

  probe_found :
      (get_or v.hash h 0 == 0) ≡ false
      → is_string v (get_or v.hash h 0 - 1) s ≡ true
      → probe (suc fuel) v h s ≡ some (get_or v.hash h 0 - 1)
  unfolding probe
  probe_found taken same = rw (probe, taken, same) refl

  probe_further :
      (get_or v.hash h 0 == 0) ≡ false
      → is_string v (get_or v.hash h 0 - 1) s ≡ false
      → probe (suc fuel) v h s ≡ probe fuel v (bit_and (h + 1) v.hmask) s
  unfolding probe
  probe_further taken other = rw (probe, taken, other) refl

module _ (v : Vocab) (k : ℕ) (table : IsTable k v) where
  masked : (a : ℕ) → bit_and a v.hmask ≡ a % 2 ^ k
  masked a = ap (bit_and a) table.mask_is ∙ bit_and-mask k a

  masked-lt : (a : ℕ) → bit_and a v.hmask < 2 ^ k
  masked-lt a = rw (masked a) (mod-lt a (one-le-pow k 2 (omega arith)))

  -- `d` slots on there is an empty one: more probes than that find nothing else.
  probe_stops :
      (z : ℕ)
      → get_or v.hash z 0 ≡ 0
      → (s : Bytes) (d h x : ℕ) → h < 2 ^ k
      → (h + d) % 2 ^ k ≡ z
      → probe (suc (d + x)) v h s ≡ probe (suc d) v h s
  probe_stops z empty s zero h x h_in at =
      let here : h ≡ z = sym (mod-eq_of_lt h_in) ∙ ap (λ a. a % 2 ^ k) (omega arith) ∙ at in
      let free : (get_or v.hash h 0 == 0) ≡ true = rw (here, empty) refl in
      probe_free v (0 + x) h s free ∙ sym (probe_free v 0 h s free)
  probe_stops z empty s (suc d) h x h_in at = elim (Bool-cases (get_or v.hash h 0 == 0)) [
    | inl free ↦ probe_free v (suc d + x) h s free ∙ sym (probe_free v (suc d) h s free)
    | inr taken ↦ elim (Bool-cases (is_string v (get_or v.hash h 0 - 1) s)) [
      | inl same ↦
          probe_found v (suc d + x) h s taken same ∙ sym (probe_found v (suc d) h s taken same)
      | inr other ↦
          let next = bit_and (h + 1) v.hmask in
          let fuel : suc d + x ≡ suc (d + x) = omega arith in
          let at_next : (next + d) % 2 ^ k ≡ z =
            ap (λ a. (a + d) % 2 ^ k) (masked (h + 1))
            ∙ mod-add-mod (h + 1) (2 ^ k) d
            ∙ ap (λ a. a % 2 ^ k) (omega arith)
            ∙ at in
          probe_further v (suc d + x) h s taken other
          ∙ ap (λ f. probe f v next s) fuel
          ∙ probe_stops z empty s d next x (masked-lt (h + 1)) at_next
          ∙ sym (probe_further v (suc d) h s taken other)
    ]
  ]

  -- How far on the empty slot is.
  distance : (z h : ℕ) → z < 2 ^ k → h < 2 ^ k → (d : ℕ) × (d < 2 ^ k) × ((h + d) % 2 ^ k ≡ z)
  distance z h z_in h_in = elim (Bool-cases (leb h z)) [
    | inl ahead ↦ (z - h, ground arith, ap (λ a. a % 2 ^ k) (ground arith) ∙ mod-eq_of_lt z_in)
    | inr behind ↦ (
      z + 2 ^ k - h,
      ground arith,
      ap (λ a. a % 2 ^ k) (ground arith) ∙ add-mod_right z (2 ^ k) ∙ mod-eq_of_lt z_in,
    )
  ]

  probe_ends :
      (z : ℕ)
      → z < 2 ^ k
      → get_or v.hash z 0 ≡ 0
      → (s : Bytes) (h x : ℕ) → h < 2 ^ k
      → probe (length v.hash + x) v h s ≡ probe (length v.hash) v h s
  probe_ends z z_in empty s h x h_in =
      let (d, d_in, at) = distance z h z_in h_in in
      let size = table.size_is in
      let y = 2 ^ k - suc d in
      let long : length v.hash + x ≡ suc (d + (y + x)) = omega arith in
      let short : length v.hash ≡ suc (d + y) = omega arith in
      ap (λ f. probe f v h s) long
      ∙ probe_stops z empty s d h (y + x) h_in at
      ∙ sym (probe_stops z empty s d h y h_in at)
      ∙ sym (ap (λ f. probe f v h s) short)

-- In a vocabulary that `tok_init` builds, every lookup ends within one round of the table: with more
-- probes than it has slots it finds the same.
pub tok_lookup_ends :
    (blocks : Blocks) (hf : Bytes) (n : ℕ) (v : Vocab) (s : Bytes) (more : ℕ)
    → tok_init blocks hf n ≡ some v
    → probe (length v.hash + more) v (bit_and (fnv1a s) v.hmask) s ≡ tok_lookup v s
unfolding tok_lookup
tok_lookup_ends blocks hf n v s more built =
    let (k, table, half, room) = tok_init-IsTable blocks hf n v built in
    let (z, z_in, empty) = empty_slot v.hash room in
    probe_ends v k table z (subst (λ a. z < a) table.size_is z_in) empty s
      (bit_and (fnv1a s) v.hmask) more (masked-lt v k table (fnv1a s))
