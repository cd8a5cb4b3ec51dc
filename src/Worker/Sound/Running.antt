-- ===== src/Worker/Sound/Running.antt =====
-- The invariant of the worker over `pass`, worker.c, whatever the model answers.
use claude_chats.Prelude.{
  ℕ, ◌*◌, refl, not, ◌||◌, Bool-cases, inl, inr, List, [], ◌∷◌, List-cases, length, All,
}
use claude_chats.Prep.{prep_max_tokens}
use claude_chats.Result.{result_dims}
use claude_chats.Worker.Env.{Env, embed_started, Sys, on_log}
use claude_chats.Worker.Pass.{
  pending_from, jobs_at, pack_ids, seg_lens, sum, vectors_ok, note_pass, run_pass, pass,
}
use claude_chats.Worker.Sound.{Sound, Packed}
use claude_chats.Worker.Sound.Packing.{pass_packs, All-Bounded}
use claude_chats.Worker.Sound.Ledger.{jobs-append}
use claude_chats.Worker.Sound.Picking.{PendingAt, Rising, pass_places}
use claude_chats.Worker.Sound.Outcomes.{
  Fine, Fine-refl, Fine-trans, Fine-same, note_pass-Fine, good_pass-Fine, bad_pass-Fine,
}

module _ {e : Env} where
  embed_started-Fine :
      (s : Sys e) (lens : List ℕ)
      → Sound s
      → Packed lens
      → Fine s (on_log (embed_started lens ∷ []) s)
  embed_started-Fine s lens h fits = record {
    sound = record {
      jobs = jobs-append (embed_started lens ∷ []) s.log s.w.pool h.jobs;
      tokens = h.tokens;
      room = h.room;
      ledger = (fits, h.ledger);
    };
    cfg = refl;
    parked = refl;
  }

  -- The pass over places of pending jobs, in the pool's order.
  run_pass-Fine :
      (idx : List ℕ) (s : Sys e)
      → Sound s
      → Rising 0 idx
      → All (PendingAt s.w.pool) idx
      → Packed (seg_lens (jobs_at s.w.pool idx))
      → Fine s (run_pass idx s)
  unfolding run_pass
  run_pass-Fine idx s h r p fits =
      let jobs = jobs_at s.w.pool idx in
      let np = length idx in
      let tokens = sum (seg_lens jobs) in
      let a = e.alloc (prep_max_tokens * 4) s.ctx in
      let b = e.alloc (np * result_dims * 4) a.1 in
      let m = e.embed (pack_ids jobs) (seg_lens jobs) b.1 in
      let s2 : Sys e = record s { ctx = b.1 } in
      let s3 : Sys e = record s { ctx = m.1 } in
      let same : Fine s s3 = Fine-same (Fine-refl h) refl refl refl refl refl in
      let logged = Fine-trans same (embed_started-Fine s3 (seg_lens jobs) same.sound fits) in
      let noted = Fine-trans logged (
        note_pass-Fine np tokens m.0 (on_log (embed_started (seg_lens jobs) ∷ []) s3)
          logged.sound) in
      let s4 = note_pass np tokens m.0 (on_log (embed_started (seg_lens jobs) ∷ []) s3) in
      let there : All (PendingAt s4.w.pool) idx = unfold note_pass in p in
      elim (Bool-cases (not a.0 || not b.0)) [
        | inl short ↦ rw short (Fine-same (Fine-refl h) refl refl refl refl refl)
        | inr room ↦ elim (Bool-cases (not m.0.ok)) [
          | inl failed ↦
              rw (room, failed)
                (Fine-trans noted (bad_pass-Fine idx s4 noted.sound r there m.0.why))
          | inr fine ↦ elim (Bool-cases (not (vectors_ok e 0 np m.0.vecs))) [
            | inl off ↦
                rw (room, fine, off) (Fine-trans noted (bad_pass-Fine idx s4 noted.sound r there _))
            | inr fit ↦
                rw (room, fine, fit)
                  (Fine-trans noted (good_pass-Fine idx s4 noted.sound r there tokens m.0))
          ]
        ]
      ]

  -- A pass keeps the worker sound.
  pub pass-Fine : (s : Sys e) → Sound s → Fine s (pass s)
  unfolding pass
  pass-Fine s h =
      let places = pass_places s.w.pool s.w.cfg.target_tokens in
      let packed = pass_packs s.w.pool s.w.cfg.target_tokens (All-Bounded s.log s.w.pool h.jobs) in
      elim (List-cases (pending_from 0 0 s.w.pool)) [
        | inl none_pending ↦ rw (none_pending, pass) (Fine-refl h)
        | inr (i, is, found) ↦
            rw (found, pass)
              (let there = rw found at places in
                let fits = rw found at packed in run_pass-Fine _ s h there.1 there.0 fits)
      ]
