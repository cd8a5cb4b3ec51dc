-- ===== src/Worker/Sound/Sending.antt =====
-- The invariant of the worker over the sends of `handoff`, worker.c.
use claude_chats.Prelude.{
  ℕ, ◌+◌, ◌≡◌, refl, ◌∙◌, Bool, true, false, Bool-cases, ◌⊎◌, inl, inr, some, List, [], ◌∷◌, ◌++◌,
  length, get_elem?, modify, All, In, arith, if◌then◌else◌, ◌==◌, Bytes,
}
use mathlib.Core.Path.{subst}
use claude_chats.Worker.Types.{
  Job, has_result, to_delete, is_result, result_len, sqs_max_batch_bytes,
}
use claude_chats.Worker.Env.{Env, Event, sent, Sys}
use claude_chats.Worker.Pool.{held}
use claude_chats.Worker.Rounds.{Slot, slots_of, jobs_of, gather, settle_each, rounds}
use claude_chats.Worker.Handoff.{
  sent_events, select_results, result_bytes, mark_sent, send_round, send_results,
}
use claude_chats.Worker.Sound.{Carries, JobOk, held_sum, Sound, InLedger}
use claude_chats.Worker.Sound.Ledger.{jobs-append, Safe, Safe-refl, Safe-Steady}
use claude_chats.Worker.Sound.Slots.{
  rounds_inv, Picked, select-Picked, get_elem?-modify, All-jobs_of-modify, held_sum-jobs_of-modify,
  length-jobs_of-modify, gather-cons, Keeping, Keeping-start, Keeping-Safe,
}

-- The job has its result, whether or not it is marked for deletion.
abbrev Sendable : Job → Type 0
Sendable j = (j.state ≡ has_result) ⊎ (j.state ≡ to_delete)

-- Each picked job has its result, and the log says whether SQS accepted it.
abbrev Covered : (ℕ → Bool) → ℕ → List ℕ → List Slot → List Event → Type 0
Covered ok b [] slots log = Unit
Covered ok b (i ∷ is) slots log =
    ((x : Slot)
      → get_elem? slots i ≡ some x
      → Sendable x.job × In (sent (result_bytes x.job) (ok b)) log)
    × Covered ok (b + 1) is slots log

mark_sent-JobOk :
    (log : List Event) (ok : Bool) (j : Job)
    → Sendable j
    → In (sent (result_bytes j) ok) log
    → JobOk log j
    → JobOk log (mark_sent ok j)
mark_sent-JobOk log false j s i h = h
mark_sent-JobOk log true j (inl e) i h = (h.0, (subst (λ st. Carries log st j) e h.1, i))
mark_sent-JobOk log true j (inr e) i h = (h.0, subst (λ st. Carries log st j) e h.1)

mark_sent-Sendable :
    (ok : Bool) (j : Job)
    → Sendable j
    → Sendable (mark_sent ok j)
      × (result_bytes (mark_sent ok j) ≡ result_bytes j)
      × (held (mark_sent ok j) ≡ held j)
mark_sent-Sendable ok j s = ground arith

Covered-modify :
    (ok : ℕ → Bool) (log : List Event) (slots : List Slot) (n : ℕ) (done : Bool) (b : ℕ)
    (idx : List ℕ)
    → ((x : Slot) → get_elem? slots n ≡ some x → Sendable x.job)
    → Covered ok b idx slots log
    → Covered ok b idx
        (modify slots n (λ x. record { job = mark_sent done x.job; tried = true }))
        log
Covered-modify ok log slots n done b [] at h = tt
Covered-modify ok log slots n done b (i ∷ is) at h = (
  λ y e.
      let (x, found, which) =
        get_elem?-modify slots n i (λ x. record { job = mark_sent done x.job; tried = true }) y e in
      let c = h.0 x found in
      elim which [
        | inl same ↦ rw same c
        | inr marked ↦ let m = mark_sent-Sendable done x.job c.0 in rw marked (m.0, rw m.1 c.1)
      ],
  Covered-modify ok log slots n done (b + 1) is at h.1,
)

settle_sent-Ok :
    (ok : ℕ → Bool) (log : List Event) (b : ℕ) (idx : List ℕ) (slots : List Slot)
    → Covered ok b idx slots log
    → All (JobOk log) (jobs_of slots)
    → let slots' = settle_each mark_sent ok b idx slots in
      All (JobOk log) (jobs_of slots')
      × (held_sum (jobs_of slots') ≡ held_sum (jobs_of slots))
      × (length (jobs_of slots') ≡ length (jobs_of slots))
unfolding settle_each
settle_sent-Ok ok log b [] slots c h = (h, refl, refl)
settle_sent-Ok ok log b (i ∷ is) slots c h =
    let f = mark_sent (ok b) in
    let next = modify slots i (λ x. record { job = f x.job; tried = true }) in
    let ok_next =
      All-jobs_of-modify (JobOk log) f slots i
        (λ x e p. mark_sent-JobOk log (ok b) x.job (c.0 x e).0 (c.0 x e).1 p) h in
    let rest =
      settle_sent-Ok ok log (b + 1) is next
        (Covered-modify ok log slots i (ok b) (b + 1) is (λ x e. (c.0 x e).0) c.1) ok_next in
    let same =
      held_sum-jobs_of-modify f slots i (λ x e. (mark_sent-Sendable (ok b) x.job (c.0 x e).0).2) in
    let long = length-jobs_of-modify (λ x. record { job = f x.job; tried = true }) slots i in
    (rest.0, rest.1 ∙ same, rest.2 ∙ long)

-- What was sent is what was picked, in order.
sent-Covered :
    (ok : ℕ → Bool) (b : ℕ) (idx : List ℕ) (slots : List Slot) (log : List Event)
    → Picked is_result slots idx
    → ((ev : Event) → In ev (sent_events ok b (gather result_bytes idx slots)) → In ev log)
    → Covered ok b idx slots log
unfolding sent_events
sent-Covered ok b [] slots log p sub = tt
sent-Covered ok b (i ∷ is) slots log p sub =
    let (x, found, want) = p.0 in
    let sub' =
      subst (λ bs. (ev : Event) → In ev (sent_events ok b bs) → In ev log)
        (gather-cons result_bytes i is slots x found) sub in
    (
      λ y e.
          let same : x ≡ y = cc in
          (
            ground arith,
            subst (λ (z : Slot). In (sent (result_bytes z.job) (ok b)) log) same
                (sub' _ (inl refl)),
          ),
      sent-Covered ok (b + 1) is slots log p.1 (λ ev i. sub' ev (inr i)),
    )

-- Sends are no deletes.
sent_events-ledger :
    (ok : ℕ → Bool) (b : ℕ) (bodies : List Bytes) (log : List Event)
    → InLedger log
    → InLedger (sent_events ok b bodies ++ log)
unfolding sent_events
sent_events-ledger ok b [] log h = h
sent_events-ledger ok b (x ∷ xs) log h = sent_events-ledger ok (b + 1) xs log h

In-append-left : {A : Type 0} (a : A) (xs ys : List A) → In a xs → In a (xs ++ ys)
In-append-left a [] ys h = absurd h
In-append-left a (x ∷ xs) ys (inl e) = inl e
In-append-left a (x ∷ xs) ys (inr i) = inr (In-append-left a xs ys i)

module _ {e : Env} (start : Sys e) where
  send_round-Keeping :
      (a : List Slot × ℕ) (s : Sys e)
      → Keeping start a.0 s
      → let ((stop, a'), s') = send_round (select_results a.0) a s in Keeping start a'.0 s'
  unfolding send_round
  send_round-Keeping a s p =
      let idx = select_results a.0 in
      let bodies = gather result_bytes idx a.0 in
      let r = e.send_batch bodies s.ctx in
      let evs = sent_events r.0.ok 0 bodies in
      let log' = evs ++ s.log in
      let picked = select-Picked is_result result_len sqs_max_batch_bytes 0 0 0 a.0 a.0 refl in
      let c = sent-Covered r.0.ok 0 idx a.0 log' picked (λ ev i. In-append-left ev evs s.log i) in
      let out =
        settle_sent-Ok r.0.ok log' 0 idx a.0 c (jobs-append evs s.log (jobs_of a.0) p.holds.jobs) in
      let ledger = sent_events-ledger r.0.ok 0 bodies s.log p.holds.ledger in
      let h = p.holds in
      let fr = p.frame in
      elim (Bool-cases r.0.went_through) [
        | inl fine ↦ rw fine (record {
          holds = record {
            jobs = out.0;
            tokens = omega (arith, out.1, h.tokens);
            room = omega (arith, out.2, h.room);
            ledger = ledger;
          };
          frame = ground arith;
        })
        | inr failed ↦ rw failed (record {
          holds = record {
            jobs = out.0;
            tokens = omega (arith, out.1, h.tokens);
            room = omega (arith, out.2, h.room);
            ledger = ledger;
          };
          frame = ground arith;
        })
      ]

module _ {e : Env} where
  -- The sends keep the worker sound, out of memory or not.
  pub send_results-Safe : (s : Sys e) → Sound s → Safe s (send_results s).1
  unfolding send_results
  send_results-Safe s h =
      let n = length s.w.pool in
      let a = e.alloc (if n == 0 then 1 else n) s.ctx in
      let s1 : Sys e = record s { ctx = a.1 } in
      let k =
        rounds_inv (λ a. select_results a.0) send_round (λ a x. Keeping s a.0 x)
          (send_round-Keeping s) (n + 1) (slots_of s.w.pool, 0) s1
          (Keeping-start s s1 refl refl h) in
      let r = rounds (λ a. select_results a.0) send_round (n + 1) (slots_of s.w.pool, 0) s1 in
      let done = Keeping-Safe k in
      elim (Bool-cases a.0) [
        | inr no_room ↦ rw no_room (Safe-Steady (Safe-refl h) (ground arith))
        | inl room ↦ elim (Bool-cases (r.0.1 == 0)) [
          | inl nothing ↦ rw (room, nothing) done
          | inr some_sent ↦ rw (room, some_sent) (Safe-Steady done (ground arith))
        ]
      ]
