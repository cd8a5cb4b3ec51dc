-- ===== src/Worker/Sound/Receiving.antt =====
-- The invariant of the worker over `top_up`, worker.c.
use claude_chats.Prelude.{
  ℕ, zero, suc, ◌+◌, ◌-◌, ◌≤◌, ◌≡◌, refl, ap, true, Bool-cases, inl, inr, Option-cases, List, [],
  ◌∷◌, ◌++◌, length, length-append, All-append, In, arith, if◌then◌else◌, ◌==◌, leb, ltb, ◌||◌,
}
use claude_chats.Worker.Types.{
  Msg, Job, JobState, pending, has_result, to_delete, Config, Worker, fresh_job, visibility_s,
  long_poll_s, max_receive,
}
use claude_chats.Worker.Env.{Env, Event, received, Sys, on_log}
use claude_chats.Worker.Pool.Laws.{Frame, Frame-refl, Frame-trans, Kept-Frame}
use claude_chats.Worker.Arrive.{Verdict, arrive}
use claude_chats.Worker.TopUp.{receive_max, place, admit, admit_all, top_up_from, top_up}
use claude_chats.Worker.Sound.{Contract, Carries, JobOk, held_sum, Holds, Sound}
use claude_chats.Worker.Sound.Ledger.{jobs-append, held_sum-append, Holds-same}
use claude_chats.Worker.Sound.Settled.{HasCargo, stays, Arrived, arrive_lem}

HasCargo-Carries : (log : List Event) (st : JobState) (j : Job) → HasCargo st j → Carries log st j
HasCargo-Carries log pending j h = (h.0, h.1.ids, h.1.some_ids, h.1.few_ids)
HasCargo-Carries log has_result j h = h
HasCargo-Carries log to_delete j h = absurd h

-- The pool stays sound, and grows by so many jobs at most.
pub record Grows {e : Env} (most : ℕ) (s s' : Sys e) : Type 0 where
  pub sound : Sound s'
  pub grown : length s'.w.pool ≤ length s.w.pool + most
  pub frame : Frame s s'

module _ {e : Env} where
  received-Sound : (m : Msg) (s : Sys e) → Sound s → Sound (on_log (received m ∷ []) s)
  received-Sound m s h = record {
    jobs = jobs-append (received m ∷ []) s.log s.w.pool h.jobs;
    tokens = h.tokens;
    room = h.room;
    ledger = h.ledger;
  }

  -- A job that stays joins the end of a sound pool.
  join-Holds :
      (m : Msg) (v : Verdict) (j : Job) (s s1 : Sys e)
      → Holds s.w.pool s
      → In (received m) s.log
      → length s.w.pool + 1 ≤ s.w.cfg.pool_max
      → Arrived m s v j s1
      → stays v j ≡ true
      → Holds (s.w.pool ++ (j ∷ [])) s1
  unfolding held_sum
  join-Holds m v j s s1 h seen free a kept = record {
    jobs = rw a.kept.log (
        All-append (JobOk s.log) s.w.pool (j ∷ []) h.jobs
          ((rw a.message seen, HasCargo-Carries s.log j.state j (ground (arith, a.cargo))), tt));
    tokens = ground (arith, a.counted, h.tokens, held_sum-append s.w.pool (j ∷ []));
    room = ground (arith, a.kept.cfg, length-append s.w.pool (j ∷ []));
    ledger = rw a.kept.log h.ledger;
  }

  place-Grows :
      (m : Msg) (v : Verdict) (j : Job) (s s1 : Sys e)
      → Holds s.w.pool s
      → In (received m) s.log
      → length s.w.pool + 1 ≤ s.w.cfg.pool_max
      → Arrived m s v j s1
      → Grows 1 s (place v j s1)
  unfolding place
  place-Grows m v j s s1 h seen free a = elim (Bool-cases (stays v j)) [
    | inl kept ↦ ground (
      arith,
      join-Holds m v j s s1 h seen free a kept,
      Kept-Frame a.kept,
      length-append s.w.pool (j ∷ []),
    )
    | inr removed ↦ ground (arith, a, Kept-Frame a.kept, h)
  ]

-- A receive asks for no more than the pool has room for.
receive_max-le : (w : Worker) → receive_max w ≤ w.cfg.pool_max - length w.pool
unfolding receive_max
receive_max-le w = ground arith

module _ {e : Env} (k : Contract e) where
  admit-Grows :
      (m : Msg) (s : Sys e)
      → Sound s
      → length s.w.pool + 1 ≤ s.w.cfg.pool_max
      → Grows 1 s (admit m s)
  unfolding admit
  admit-Grows m s h free =
      let s0 : Sys e = on_log (received m ∷ []) s in
      let r = arrive e (fresh_job m) s0 in
      let g =
        place-Grows m r.0.0 r.0.1 s0 r.1 (received-Sound m s h) (inl refl) free
          (arrive_lem k m s0) in
      record { sound = g.sound; grown = g.grown; frame = ground (arith, g.frame) }

  admit_all-Grows :
      (ms : List Msg) (s : Sys e)
      → Sound s
      → length s.w.pool + length ms ≤ s.w.cfg.pool_max
      → Grows (length ms) s (admit_all ms s)
  unfolding admit_all
  admit_all-Grows [] s h free = record { sound = h; grown = omega arith; frame = Frame-refl s }
  admit_all-Grows (m ∷ ms) s h free =
      let g = admit-Grows m s h (omega arith) in
      let more =
        admit_all-Grows ms (admit m s) g.sound
          (omega (arith, g.grown, ap (λ (c : Config). c.pool_max) g.frame.cfg)) in
      record {
        sound = more.sound;
        grown = omega (arith, g.grown, more.grown);
        frame = Frame-trans g.frame more.frame;
      }

  top_up_from-Sound :
      (left arrived : ℕ) (s : Sys e)
      → Sound s
      → Sound (top_up_from left arrived s).1 × Frame s (top_up_from left arrived s).1
  unfolding top_up_from
  top_up_from-Sound zero arrived s h = (h, Frame-refl s)
  top_up_from-Sound (suc left) arrived s h =
      let most = receive_max s.w in
      let wait : ℕ = if length s.w.pool == 0 then long_poll_s else 0 in
      let r = e.receive most wait visibility_s s.ctx in
      let s1 : Sys e = record s { ctx = r.1 } in
      let same : Sound s1 = Holds-same refl refl refl h in
      elim (Bool-cases (leb s.w.cfg.target_tokens s.w.pool_tokens || ltb most 1)) [
        | inl enough ↦ ground arith
        | inr wanted ↦ elim (Option-cases r.0) [
          | inl failed ↦ ground arith
          | inr ([], got) ↦ ground arith
          | inr (m ∷ ms, got) ↦
              let few =
                k.receive_le most wait visibility_s s.ctx r.1 (m ∷ ms) (ground arith)
                  (ap (λ o. (o, r.1)) got) in
              let g =
                admit_all-Grows (m ∷ ms) s1 same (omega (arith, few, receive_max-le s.w, h.room)) in
              ground (
                arith,
                top_up_from-Sound left (arrived + length (m ∷ ms)) (admit_all (m ∷ ms) s1) g.sound,
              )
        ]
      ]

  -- Receiving keeps the worker sound, its pool within `pool_max` included.
  pub top_up-Sound : (s : Sys e) → Sound s → Sound (top_up s).1 × Frame s (top_up s).1
  unfolding top_up
  top_up-Sound s h = top_up_from-Sound max_receive 0 s h
