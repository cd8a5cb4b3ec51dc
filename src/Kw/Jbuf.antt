-- ===== src/Kw/Jbuf.antt =====
-- The growable byte buffer of esp32-embedder/worker/kw.c. `bytes` is `p[0 .. n)`, and the NUL behind
-- it is not written out. The allocator is a parameter: `grow c` says whether `kw_realloc` to `c`
-- bytes succeeds for this buffer.
pub mod Laws
pub mod Refusals
use claude_chats.Prelude.{
  ℕ, zero, suc, ◌+◌, ◌*◌, ◌-◌, ◌≤◌, ◌<◌, ◌≡◌, refl, sym, ◌∙◌, ap, Bool, true, false, List, [], ◌∷◌,
  ◌++◌, Option, none, some, append_assoc, arith, length, ltb, leb, ◌==◌, if◌then◌else◌, Bytes,
}

pub record Jbuf : Type 0 where
  pub bytes : Bytes
  pub cap : ℕ
  pub oom : Bool

abbrev pub jb_init : Jbuf
jb_init = record { bytes = []; cap = 0; oom = false }

-- `while (cap < need) cap *= 2;`
unfoldable pub doubled : ℕ → ℕ → ℕ → ℕ
doubled zero c need = c
doubled (suc f) c need = let more = doubled f (c * 2) need in if ltb c need then more else c

-- The fuel `need` is enough: the loop ends with room for what is needed.
pub doubled_enough : (f c need : ℕ) → 0 < c → need ≤ f + c → need ≤ doubled f c need
unfolding doubled
doubled_enough zero c need p h = omega arith
doubled_enough (suc f) c need p h = ground (arith, doubled_enough f (c * 2) need)

pub doubled_ge : (f c need : ℕ) → c ≤ doubled f c need
unfolding doubled
doubled_ge zero c need = omega arith
doubled_ge (suc f) c need = ground (arith, doubled_ge f (c * 2) need)

module _ (grow : ℕ → Bool) where
  unfoldable pub jb_reserve : Jbuf → ℕ → Bool × Jbuf
  jb_reserve b extra =
      let need = length b.bytes + extra + 1 in
      let c = doubled need (if b.cap == 0 then 256 else b.cap) need in
      if b.oom
      then (false, b)
      else if leb need b.cap
      then (true, b)
      else if grow c
      then (true, record b { cap = c })
      else (false, record b { oom = true })

  unfoldable pub jb_put : Jbuf → Bytes → Jbuf
  unfolding jb_reserve
  jb_put b d =
      let (ok, r) = jb_reserve b (length d) in if ok then record r { bytes = r.bytes ++ d } else r

  -- `jb_take`: the content, or NULL after a failure or when nothing was allocated.
  unfoldable pub jb_take : Jbuf → Option Bytes
  jb_take b = if b.oom then none else (if b.cap == 0 then none else some b.bytes)
