-- ===== src/Kw/Jbuf/Refusals.antt =====
-- When the buffer of esp32-embedder/worker/kw.c runs out of memory: only where the allocator refuses.
use claude_chats.Prelude.{
  ℕ, ◌+◌, ◌≡◌, ◌⊎◌, inl, inr, Bool, true, false, Bool-cases, if-elim, ◌++◌, length, leb, ◌==◌,
  if◌then◌else◌, Bytes,
}
use claude_chats.Kw.Jbuf.{Jbuf, doubled, jb_reserve, jb_put}
use claude_chats.Kw.Jbuf.Laws.{Grows}

module _ (grow : ℕ → Bool) where
  -- It had run out before, or the allocator refuses some size.
  abbrev pub Refused : Jbuf → Type 0
  Refused b = (b.oom ≡ true) ⊎ ((n : ℕ) × (grow n ≡ false))

  abbrev pub Alright : Jbuf → Jbuf → Type 0
  Alright b b' = (b'.oom ≡ false) ⊎ Refused b

  pub Alright-trans : (b b' b'' : Jbuf) → Alright b b' → Alright b' b'' → Alright b b''
  Alright-trans b b' b'' p (inl fine) = inl fine
  Alright-trans b b' b'' p (inr (inr refused)) = inr (inr refused)
  Alright-trans b b' b'' (inr refused) (inr (inl out)) = inr refused
  Alright-trans b b' b'' (inl fine) (inr (inl out)) = absurd (cc (fine, out))

  pub jb_reserve-Alright : (b : Jbuf) (extra : ℕ) → Alright b (jb_reserve grow b extra).1
  unfolding jb_reserve
  jb_reserve-Alright b extra =
      let need = length b.bytes + extra + 1 in
      let c = doubled need (if b.cap == 0 then 256 else b.cap) need in
      let Goal : Bool × Jbuf → Type 0 = λ x. Alright b x.1 in
      if-elim Goal b.oom (λ out. inr (inl out))
        (λ fine.
          if-elim Goal (leb need b.cap) (λ room. inl fine)
            (λ short. if-elim Goal (grow c) (λ more. inl fine) (λ refused. inr (inr (c, refused)))))

  pub jb_put-Alright : (b : Jbuf) (d : Bytes) → Alright b (jb_put grow b d)
  unfolding jb_put
  jb_put-Alright b d =
      let r = jb_reserve grow b (length d) in
      elim (Bool-cases r.0) [
        | inl ok ↦ rw ok (jb_reserve-Alright b (length d))
        | inr out ↦ rw out (jb_reserve-Alright b (length d))
      ]

  -- All of the text was appended, or memory ran out, since the allocator refused.
  abbrev pub AllOrRefused : Jbuf → Jbuf → Bytes → Type 0
  AllOrRefused b b' d =
      ((b'.oom ≡ false) × (b'.bytes ≡ b.bytes ++ d)) ⊎ ((b'.oom ≡ true) × Refused b)

  pub Grows-AllOrRefused :
      (b b' : Jbuf) (d : Bytes) → Grows b b' d → Alright b b' → AllOrRefused b b' d
  Grows-AllOrRefused b b' d grows (inl fine) = inl (fine, (grows fine).1)
  Grows-AllOrRefused b b' d grows (inr refused) = elim (Bool-cases b'.oom) [
    | inl out ↦ inr (out, refused)
    | inr fine ↦ inl (fine, (grows fine).1)
  ]
