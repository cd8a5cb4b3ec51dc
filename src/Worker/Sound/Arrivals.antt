-- ===== src/Worker/Sound/Arrivals.antt =====
-- How `arrive` of worker.c sorts a message, and what that makes of its job.
use claude_chats.Prelude.{
  ◌*◌, ◌≤◌, ◌≡◌, ap, Bool, true, false, ◌⊎◌, inl, inr, some, Option-cases, length, take, arith,
  Bytes,
}
use claude_chats.Kw.Base64.{b64_decode, padded_mode}
use claude_chats.Kw.Jbuf.{jb_init}
use claude_chats.Prep.{prep_json_nuls, prep_truncate, prep_max_chars, prep_max_tokens}
use claude_chats.Worker.Types.{Job, ids_or_nil, bytes_or_nil}
use claude_chats.Worker.Env.{Env, Sys, Parsed-cases, Decrypted-cases}
use claude_chats.Worker.Strict.{parse_strict, field, string_value}
use claude_chats.Worker.Arrive.{
  decoded_room, Opened, opened, Sorted, ready, tokenise_content, open_tree, open_job,
  open_ciphertext, sort_job,
}
use claude_chats.Worker.Sound.{Contract}

-- Only the surroundings have moved on.
pub record Reads {e : Env} (s s' : Sys e) : Type 0 where
  pub worker : s'.w ≡ s.w
  pub log : s'.log ≡ s.log

pub Reads-trans : {e : Env} {s s' s'' : Sys e} → Reads s s' → Reads s' s'' → Reads s s''
Reads-trans p q = ground arith

-- The job's ids are there, as many as it says.
pub record Filled (j : Job) : Type 0 where
  pub ids : length (ids_or_nil j.ids) ≡ j.n_ids
  pub some_ids : 2 ≤ j.n_ids
  pub few_ids : j.n_ids ≤ prep_max_tokens

-- Tokenising and sorting leave the message in the job; the job gets ids exactly when it is ready.
pub record Prepares (is_ready : Bool) (j j' : Job) : Type 0 where
  pub m : j'.m ≡ j.m
  pub body : j'.body ≡ j.body
  pub state : j'.state ≡ j.state
  pub filled : (is_ready ≡ false) ⊎ Filled j'
  pub empty : (is_ready ≡ true) ⊎ ((j'.ids ≡ j.ids) × (j'.n_ids ≡ j.n_ids))

abbrev pub is_opened : Opened → Bool
is_opened opened = true
is_opened _ = false

abbrev pub is_ready : Sorted → Bool
is_ready ready = true
is_ready _ = false

module _ {e : Env} (k : Contract e) where
  tokenise_content_lem :
      (j : Job) (content : Bytes) (s : Sys e)
      → let ((rc, j'), s') = tokenise_content e j content s in
        Prepares (is_opened rc) j j' × Reads s s'
  unfolding tokenise_content
  tokenise_content_lem j content s =
      let text = take (prep_truncate content prep_max_chars).0 content in
      let c = (e.alloc (prep_max_tokens * 4) s.ctx).1 in
      let r = e.tokenise text prep_max_tokens c in
      elim (Option-cases r.0) [
        | inl failed ↦ ground arith
        | inr (l, made) ↦
            let few = k.tokenise_le text prep_max_tokens c r.1 l (ap (λ o. (o, r.1)) made) in
            ground arith
      ]

  open_tree_lem :
      (j : Job) (o : e.Node) (s : Sys e)
      → let ((rc, j'), s') = open_tree e j o s in Prepares (is_opened rc) j j' × Reads s s'
  unfolding open_tree
  open_tree_lem j o s =
      ground (
        arith,
        tokenise_content_lem j (bytes_or_nil (string_value e (field e (some o) "content"))) s,
      )

  pub parse_strict_lem : (text : Bytes) (s : Sys e) → Reads s (parse_strict e text s).1
  unfolding parse_strict
  parse_strict_lem text s = ground arith

  open_job_lem :
      (j : Job) (json : Bytes) (s : Sys e)
      → let ((rc, j'), s') = open_job e j json s in Prepares (is_opened rc) j j' × Reads s s'
  unfolding open_job
  open_job_lem j json s = elim (Option-cases (prep_json_nuls (e.grow s.ctx).0 json jb_init)) [
    | inl out ↦ ground arith
    | inr ((nuls, clean), done) ↦
        let s1 : Sys e = record s { ctx = (e.grow s.ctx).1 } in
        let p = parse_strict e clean.bytes s1 in
        elim (Parsed-cases p.0) [
          | inl other ↦ ground (arith, parse_strict_lem clean.bytes s1)
          | inr (o, found) ↦ ground (arith, parse_strict_lem clean.bytes s1, open_tree_lem j o p.1)
        ]
  ]

  open_ciphertext_lem :
      (j : Job) (ct : Bytes) (s : Sys e)
      → let ((sorted, j'), s') = open_ciphertext e j ct s in
        Prepares (is_ready sorted) j j' × Reads s s'
  unfolding open_ciphertext
  open_ciphertext_lem j ct s = elim (Option-cases (b64_decode padded_mode ct)) [
    | inl bad ↦ ground arith
    | inr (bin, good) ↦
        let a = e.alloc (decoded_room ct) s.ctx in
        let d = e.decrypt bin a.1 in
        elim (Decrypted-cases d.0) [
          | inl other ↦ ground arith
          | inr (pt, found) ↦ ground (arith, open_job_lem j pt (record s { ctx = d.1 }))
        ]
  ]

  -- Sorting leaves the message in the job and the worker as it was; a job that is ready has its ids.
  pub sort_job_lem :
      (j : Job) (env : e.Node) (s : Sys e)
      → let ((sorted, j'), s') = sort_job e j env s in Prepares (is_ready sorted) j j' × Reads s s'
  unfolding sort_job
  sort_job_lem j env s = ground (
    arith,
    open_ciphertext_lem j (bytes_or_nil (string_value e (field e (some env) "ciphertext"))) s,
  )
