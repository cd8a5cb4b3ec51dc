-- ===== src/Worker/Rounds/Ends.antt =====
-- The rounds of the batch loops of `handoff` and `visibility`, worker.c, and the jobs left to try.
use claude_chats.Prelude.{
  ℕ, zero, suc, ◌+◌, ◌≤◌, ◌<◌, ◌≡◌, refl, sym, ap, ◌∙◌, Bool, true, false, Bool-cases, ◌&&◌, not,
  ◌⊎◌, inl, inr, some, List, [], ◌∷◌, List-cases, length, get_elem?, modify, arith, leb,
  if◌then◌else◌,
}
use claude_chats.Worker.Types.{Job, sqs_max_batch}
use claude_chats.Worker.Env.{Env, Sys}
use claude_chats.Worker.Types.{is_result, is_delete, result_len, sqs_max_batch_bytes}
use claude_chats.Worker.Handoff.{
  result_bytes, receipt_of, select_results, select_deletes, mark_sent, mark_deleted, send_round,
  delete_round,
}
use claude_chats.Worker.Visibility.{wanted, mark_visible, select_visible, visibility_round}
use claude_chats.Worker.Rounds.{gather, Slot, slots_of, select, settle_each, rounds}

-- The jobs not yet tried.
abbrev pub untried : List Slot → ℕ
untried [] = 0
untried (x ∷ xs) = (if x.tried then 0 else 1) + untried xs

untried-slots_of : (js : List Job) → untried (slots_of js) ≡ length js
untried-slots_of [] = omega arith
untried-slots_of (j ∷ js) = omega (arith, untried-slots_of js)

module _ {e : Env} {S : Type 0} (pick : S → List ℕ)
    (round : List ℕ → S → Sys e → (Bool × S) × Sys e) (left : S → ℕ) where
  rounds-nil :
      (fuel : ℕ) (a : S) (s : Sys e) → pick a ≡ [] → rounds pick round (suc fuel) a s ≡ (a, s)
  unfolding rounds
  rounds-nil fuel a s h = rw (h, rounds) refl

  rounds-cons :
      (fuel i : ℕ) (is : List ℕ) (a : S) (s : Sys e)
      → pick a ≡ i ∷ is
      → let r = round (i ∷ is) a s in
        rounds pick round (suc fuel) a s
        ≡ (if r.0.0 then (r.0.1, r.1) else rounds pick round fuel r.0.1 r.1)
  unfolding rounds
  rounds-cons fuel i is a s h = rw (h, rounds) refl

  rounds-more :
      ((i : ℕ) (is : List ℕ) (a : S) (s : Sys e)
        → pick a ≡ i ∷ is
        → left (round (i ∷ is) a s).0.1 < left a)
      → (fuel more : ℕ) (a : S) (s : Sys e) → left a < fuel
      → rounds pick round (fuel + more) a s ≡ rounds pick round fuel a s
  rounds-more d zero more a s h = absurd (omega arith)
  rounds-more d (suc f) more a s h =
      let step : suc f + more ≡ suc (f + more) = omega arith in
      ap (λ n. rounds pick round n a s) step ∙ elim (List-cases (pick a)) [
        | inl stops ↦ rounds-nil (f + more) a s stops ∙ sym (rounds-nil f a s stops)
        | inr (i, is, goes) ↦
            let r = round (i ∷ is) a s in
            rounds-cons (f + more) i is a s goes
            ∙ ap (λ rest. if r.0.0 then (r.0.1, r.1) else rest)
                (rounds-more d f more r.0.1 r.1 (omega (arith, d i is a s goes, h)))
            ∙ sym (rounds-cons f i is a s goes)
      ]

module _ (want : Job → Bool) (size : Job → ℕ) (limit : ℕ) where
  select-cases :
      (from k total : ℕ) (x : Slot) (xs : List Slot)
      → ((select want size limit from k total (x ∷ xs) ≡ [])
          ⊎ ((x.tried ≡ false)
              × (is : List ℕ) × (select want size limit from k total (x ∷ xs) ≡ from ∷ is)))
        ⊎ (select want size limit from k total (x ∷ xs)
            ≡ select want size limit (from + 1) k total xs)
  unfolding select
  select-cases from k total x xs = elim (Bool-cases (leb sqs_max_batch k)) [
    | inl full ↦ inl (inl (ground arith))
    | inr room ↦ elim (Bool-cases (want x.job && (not x.tried && leb (total + size x.job) limit))) [
      | inl fits ↦ inl (
          inr (
            ground arith,
            select want size limit (from + 1) (k + 1) (total + size x.job) xs,
            rw (room, fits) refl,
          ))
      | inr off ↦ inr (rw (room, off) refl)
    ]
  ]

  -- The first pick is of a job not yet tried.
  select-untried :
      (from k total i : ℕ) (is : List ℕ) (xs : List Slot)
      → select want size limit from k total xs ≡ i ∷ is
      → (n : ℕ) × (x : Slot) × (i ≡ from + n) × (get_elem? xs n ≡ some x) × (x.tried ≡ false)
  select-untried from k total i is [] h = unfold select in absurd (ground arith)
  select-untried from k total i is (x ∷ xs) h = elim (select-cases from k total x xs) [
    | inl (inl full) ↦ absurd (ground arith)
    | inl (inr (out, rest, first)) ↦ (0, x, ground arith, refl, out)
    | inr passed ↦
        let (n, y, at, found, out) = select-untried (from + 1) k total i is xs (sym passed ∙ h) in
        (suc n, y, omega (arith, at), found, out)
  ]

untried-modify-le :
    (g : Slot → Slot) (xs : List Slot) (i : ℕ)
    → ((x : Slot) → (g x).tried ≡ true)
    → untried (modify xs i g) ≤ untried xs
untried-modify-le g [] i h = omega arith
untried-modify-le g (x ∷ xs) zero h = ground (arith, h x)
untried-modify-le g (x ∷ xs) (suc i) h = omega (arith, untried-modify-le g xs i h)

untried-modify-lt :
    (g : Slot → Slot) (xs : List Slot) (i : ℕ) (x : Slot)
    → ((y : Slot) → (g y).tried ≡ true)
    → get_elem? xs i ≡ some x
    → x.tried ≡ false
    → untried (modify xs i g) < untried xs
untried-modify-lt g [] i x h at out = absurd (ground arith)
untried-modify-lt g (y ∷ ys) zero x h at out = ground (arith, h y)
untried-modify-lt g (y ∷ ys) (suc i) x h at out = omega (arith, untried-modify-lt g ys i x h at out)

settle_each-le :
    (f : Bool → Job → Job) (ok : ℕ → Bool) (b : ℕ) (is : List ℕ) (xs : List Slot)
    → untried (settle_each f ok b is xs) ≤ untried xs
unfolding settle_each
settle_each-le f ok b [] xs = omega arith
settle_each-le f ok b (i ∷ is) xs = omega (
  arith,
  settle_each-le f ok (b + 1) is (modify xs i (λ x. record { job = f (ok b) x.job; tried = true })),
  untried-modify-le (λ x. record { job = f (ok b) x.job; tried = true }) xs i (λ x. refl),
)

-- A round over picked jobs leaves fewer untried.
pub settle_each-lt :
    (f : Bool → Job → Job) (ok : ℕ → Bool) (want : Job → Bool) (size : Job → ℕ) (limit i : ℕ)
    (is : List ℕ) (xs : List Slot)
    → select want size limit 0 0 0 xs ≡ i ∷ is
    → untried (settle_each f ok 0 (i ∷ is) xs) < untried xs
unfolding settle_each
settle_each-lt f ok want size limit i is xs h =
    let (n, x, at, found, out) = select-untried want size limit 0 0 0 i is xs h in
    let g : Slot → Slot = λ x. record { job = f (ok 0) x.job; tried = true } in
    let here : get_elem? xs i ≡ some x = ap (λ k. get_elem? xs k) (omega (arith, at)) ∙ found in
    omega (
      arith,
      settle_each-le f ok 1 is (modify xs i g),
      untried-modify-lt g xs i x (λ y. refl) here out,
    )

module _ {e : Env} where
  send_round-lt :
      (i : ℕ) (is : List ℕ) (a : List Slot × ℕ) (s : Sys e)
      → select_results a.0 ≡ i ∷ is
      → untried (send_round (i ∷ is) a s).0.1.0 < untried a.0
  unfolding send_round
  send_round-lt i is a s h =
      let r = e.send_batch (gather result_bytes (i ∷ is) a.0) s.ctx in
      let fewer =
        settle_each-lt mark_sent r.0.ok is_result result_len sqs_max_batch_bytes i is a.0 h in
      elim (Bool-cases r.0.went_through) [
        | inl through ↦ rw through fewer
        | inr failed ↦ rw failed fewer
      ]

  delete_round-lt :
      (i : ℕ) (is : List ℕ) (a : List Slot) (s : Sys e)
      → select_deletes a ≡ i ∷ is
      → untried (delete_round (i ∷ is) a s).0.1 < untried a
  unfolding delete_round
  delete_round-lt i is a s h =
      let r = e.delete_batch (gather receipt_of (i ∷ is) a) s.ctx in
      settle_each-lt (mark_deleted r.0.went_through) r.0.ok is_delete (λ j. 0) 0 i is a h

  visibility_round-lt :
      (all : Bool) (seconds t i : ℕ) (is : List ℕ) (a : List Slot × Bool) (s : Sys e)
      → select_visible all t a.0 ≡ i ∷ is
      → untried (visibility_round all seconds t (i ∷ is) a s).0.1.0 < untried a.0
  unfolding visibility_round
  visibility_round-lt all seconds t i is a s h =
      let r = e.visibility_batch (gather receipt_of (i ∷ is) a.0) seconds s.ctx in
      let fewer =
        settle_each-lt (mark_visible all (t + seconds) r.0.went_through) r.0.ok (wanted all t)
          (λ j. 0) 0 i is a.0 h in
      elim (Bool-cases r.0.went_through) [
        | inl through ↦ rw through (rw through at fewer)
        | inr failed ↦ rw failed (rw failed at fewer)
      ]

-- The three batch loops, of the sends, the deletes and the visibility, each over a pool of `n` jobs
-- and whatever SQS answers: more rounds than the `n + 1` they are given change nothing.
pub batch_loops_end :
    {e : Env} (pool : List Job) (more : ℕ) (s : Sys e) (all : Bool) (seconds t : ℕ)
    → (rounds (λ a. select_results a.0) send_round (length pool + 1 + more) (slots_of pool, 0) s
        ≡ rounds (λ a. select_results a.0) send_round (length pool + 1) (slots_of pool, 0) s)
      × (rounds select_deletes delete_round (length pool + 1 + more) (slots_of pool) s
          ≡ rounds select_deletes delete_round (length pool + 1) (slots_of pool) s)
      × (rounds
            (λ a. select_visible all t a.0)
            (visibility_round all seconds t)
            (length pool + 1 + more)
            (slots_of pool, false)
            s
          ≡ rounds
              (λ a. select_visible all t a.0)
              (visibility_round all seconds t)
              (length pool + 1)
              (slots_of pool, false)
              s)
batch_loops_end pool more s all seconds t =
    let enough : untried (slots_of pool) < length pool + 1 = omega (arith, untried-slots_of pool) in
    (
      rounds-more (λ a. select_results a.0) send_round (λ a. untried a.0) send_round-lt
          (length pool + 1) more (slots_of pool, 0) s enough,
      rounds-more select_deletes delete_round untried delete_round-lt (length pool + 1) more
          (slots_of pool) s enough,
      rounds-more (λ a. select_visible all t a.0) (visibility_round all seconds t)
          (λ a. untried a.0) (visibility_round-lt all seconds t) (length pool + 1) more
          (slots_of pool, false) s enough,
    )
