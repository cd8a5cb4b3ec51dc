-- ===== src/Kw/Jbuf/Laws.antt =====
-- The puts of a buffer of esp32-embedder/worker/kw.c, whatever the allocator answers.
use claude_chats.Prelude.{
  ℕ, ◌+◌, ◌≤◌, ◌<◌, ◌≡◌, ◌∙◌, ap, Bool, true, false, ◌⊎◌, [], ◌++◌, append_assoc, arith, length,
  length-append, Bytes,
}
use claude_chats.Kw.Jbuf.{Jbuf, doubled_enough, doubled_ge, jb_reserve, jb_put}

-- Once anything is allocated there is room behind the content for the NUL.
pub record IsRoomy (b : Jbuf) : Type 0 where
  pub room : ((b.cap ≡ 0) × (b.bytes ≡ [])) ⊎ (length b.bytes + 1 ≤ b.cap)

-- `b'` is `b` with `d` behind it, unless memory ran out.
pub record Extends (b b' : Jbuf) (d : Bytes) : Type 0 where
  pub appended : b'.oom ≡ false → (b.oom ≡ false) × (b'.bytes ≡ b.bytes ++ d)
  pub allocated : b'.oom ≡ false → 0 < b'.cap

pub Extends-trans :
    {b b' b'' : Jbuf} {d d' : Bytes} → Extends b b' d → Extends b' b'' d' → Extends b b'' (d ++ d')
Extends-trans {b} {d = d} {d' = d'} p q = record {
  appended = λ k.
      let (k', e') = q.appended k in
      let (k0, e) = p.appended k' in
      (k0, e' ∙ ap (λ (x : Bytes). x ++ d') e ∙ append_assoc b.bytes d d');
  allocated = q.allocated;
}

-- The same of the bytes alone.
abbrev pub Grows : Jbuf → Jbuf → Bytes → Type 0
Grows b b' d = b'.oom ≡ false → (b.oom ≡ false) × (b'.bytes ≡ b.bytes ++ d)

pub Grows-trans :
    (b b1 b2 : Jbuf) (d d1 : Bytes) → Grows b b1 d → Grows b1 b2 d1 → Grows b b2 (d ++ d1)
Grows-trans b b1 b2 d d1 p q k =
    let (k1, e1) = q k in
    let (k0, e0) = p k1 in (k0, e1 ∙ ap (λ x. x ++ d1) e0 ∙ append_assoc b.bytes d d1)

module _ (grow : ℕ → Bool) where
  pub jb_reserve_lem :
      (b : Jbuf) (extra : ℕ)
      → IsRoomy b
      → let (ok, r) = jb_reserve grow b extra in
        IsRoomy r
        × (r.bytes ≡ b.bytes)
        × (ok ≡ false → r.oom ≡ true)
        × (ok ≡ true → (r.oom ≡ false) × (length b.bytes + extra + 1 ≤ r.cap) × (b.oom ≡ false))
  unfolding jb_reserve
  jb_reserve_lem b extra v = ground (
    arith,
    doubled_enough (length b.bytes + extra + 1) b.cap (length b.bytes + extra + 1),
    doubled_enough (length b.bytes + extra + 1) 256 (length b.bytes + extra + 1),
  )

  -- A reservation that fails leaves `oom` behind; one that works leaves the content.
  pub jb_reserve-Extends :
      (b : Jbuf) (extra : ℕ)
      → let (ok, r) = jb_reserve grow b extra in
        (r.bytes ≡ b.bytes)
        × (ok ≡ false → r.oom ≡ true)
        × (r.oom ≡ false → (b.oom ≡ false) × (ok ≡ true) × (0 < r.cap))
  unfolding jb_reserve
  jb_reserve-Extends b extra =
      let need = length b.bytes + extra + 1 in
      ground (arith, doubled_ge need b.cap need, doubled_ge need 256 need)

  pub jb_put-Extends : (b : Jbuf) (d : Bytes) → Extends b (jb_put grow b d) d
  unfolding jb_put
  jb_put-Extends b d = record {
    appended = ground (arith, jb_reserve-Extends b (length d));
    allocated = ground (arith, jb_reserve-Extends b (length d));
  }

  -- A put appends all of its bytes, with room left for the NUL, or sets `oom` and leaves the
  -- content as it was.
  pub jb_put-IsRoomy :
      (b : Jbuf) (d : Bytes)
      → IsRoomy b
      → IsRoomy (jb_put grow b d)
        × ((((jb_put grow b d).oom ≡ true) × ((jb_put grow b d).bytes ≡ b.bytes))
            ⊎ (((jb_put grow b d).oom ≡ false) × ((jb_put grow b d).bytes ≡ b.bytes ++ d)))
  unfolding jb_put
  jb_put-IsRoomy b d v = ground (arith, jb_reserve_lem b (length d) v, length-append b.bytes d)
