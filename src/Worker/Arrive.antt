-- ===== src/Worker/Arrive.antt =====
-- Arrival, esp32-embedder/worker/worker.c: what to do with each message of the ingest queue.
use claude_chats.Prelude.{
  ℕ, ◌+◌, ◌*◌, ◌/◌, not, ◌&&◌, ◌||◌, none, some, length, take, ltb, leb, ◌==◌, if◌then◌else◌,
  is_none, Bytes, codes, bytes_eq,
}
use claude_chats.Prelude.Int.{pos}
use claude_chats.Kw.Base64.{b64_decode, padded_mode}
use claude_chats.Kw.Jbuf.{jb_init}
use claude_chats.Prep.{prep_json_nuls, prep_truncate, prep_max_chars, prep_max_tokens}
use claude_chats.Worker.Types.{
  Job, pending, Reason, claim_check, decrypt_failed, retries, too_long, kata_unhealthy,
  bytes_or_nil, body_len, visibility_s, retries_receive, solo_receive, worst_body,
}
use claude_chats.Worker.Env.{
  Env, Sys, on_worker, ask, count, tree, malformed, parse_no_memory, plain, refused,
  decrypt_no_memory,
}
use claude_chats.Worker.Strict.{
  field, holds, string_value, parse_strict, envelope_fields_ok, job_fields_ok,
}
use claude_chats.Worker.Pool.{unembedded}

-- `open_job`'s 0, -1 and -2.
pub data Opened : Type 0 where
  opened not_a_job no_memory : Opened

pub data Verdict : Type 0 where
  keep drop later : Verdict

-- A message is sorted into a reason to hand it on unembedded, or is ready for a pass, or has to
-- come back later.
pub data Sorted : Type 0 where
  unready : Reason → Sorted
  ready : Sorted
  comes_back : Sorted

-- `cl / 4 * 3 + 3`, the room for the decoded ciphertext.
unfoldable pub decoded_room : Bytes → ℕ
decoded_room ct = length ct / 4 * 3 + 3

module _ (e : Env) where
  -- The text prepared and tokenised into `ids`; fewer than two ids mean that the tokeniser failed.
  unfoldable pub tokenise_content : Job → Bytes → Sys e → (Opened × Job) × Sys e
  tokenise_content j content s =
      let (n, cut) = prep_truncate content prep_max_chars in
      let j1 = record j { truncated = cut } in
      let (room, s1) = ask e (e.alloc (prep_max_tokens * 4)) s in
      let (ids, s2) = ask e (e.tokenise (take n content) prep_max_tokens) s1 in
      if not room then ((no_memory, j1), s1) else elim ids [
        | none ↦ ((no_memory, j1), s2)
        | some l ↦
            if ltb (length l) 2
            then ((no_memory, j1), s2)
            else ((opened, record j1 { ids = some l; n_ids = length l }), s2)
      ]

  -- The checks on a parsed job, then its content.
  unfoldable pub open_tree : Job → e.Node → Sys e → (Opened × Job) × Sys e
  open_tree j o s =
      let uuid = bytes_or_nil (string_value e (field e (some o) "message_uuid")) in
      let role = bytes_or_nil (string_value e (field e (some o) "role")) in
      let content = bytes_or_nil (string_value e (field e (some o) "content")) in
      if not (job_fields_ok e o)
      then ((not_a_job, j), s)
      else if not (bytes_eq uuid j.uuid)
      then ((not_a_job, j), s)
      else if not (bytes_eq role (codes "user")) && not (bytes_eq role (codes "assistant"))
      then ((not_a_job, j), s)
      else tokenise_content j content s

  unfoldable pub open_job : Job → Bytes → Sys e → (Opened × Job) × Sys e
  open_job j json s =
      let (grow, s1) = ask e e.grow s in
      elim (prep_json_nuls grow json jb_init) [
        | none ↦ ((no_memory, j), s1)
        | some (nuls, clean) ↦
            let (parsed, s2) = parse_strict e clean.bytes s1 in
            elim parsed [
              | tree o ↦ open_tree j o s2
              | malformed ↦ ((not_a_job, j), s2)
              | parse_no_memory ↦ ((no_memory, j), s2)
            ]
      ]

  -- The ciphertext decoded, decrypted and opened.
  unfoldable pub open_ciphertext : Job → Bytes → Sys e → (Sorted × Job) × Sys e
  open_ciphertext j ct s =
      let (room, s1) = ask e (e.alloc (decoded_room ct)) s in
      if not room then ((comes_back, j), s1) else elim (b64_decode padded_mode ct) [
        | none ↦ ((unready decrypt_failed, j), s1)
        | some bin ↦
            let (opened_text, s2) = ask e (e.decrypt bin) s1 in
            elim opened_text [
              | decrypt_no_memory ↦ ((comes_back, j), s2)
              | refused ↦ ((unready decrypt_failed, j), s2)
              | plain pt ↦
                  let ((rc, j'), s3) = open_job j pt s2 in
                  elim rc [
                    | no_memory ↦ ((comes_back, j'), s3)
                    | not_a_job ↦ ((unready decrypt_failed, j'), s3)
                    | opened ↦ ((ready, j'), s3)
                  ]
            ]
      ]

  -- The ladder of reasons, for an envelope that Cal could read.
  unfoldable pub sort_job : Job → e.Node → Sys e → (Sorted × Job) × Sys e
  sort_job j env s =
      let ct = string_value e (field e (some env) "ciphertext") in
      let s3 = holds e e.is_object (field e (some env) "s3") in
      let no_ct = is_none ct in
      if no_ct && s3
      then ((unready claim_check, j), s)
      else if leb retries_receive j.m.receive_count
      then ((unready retries, j), s)
      else if ltb worst_body (body_len j)
      then ((unready too_long, j), s)
      else if s.w.sick
      then ((unready kata_unhealthy, j), s)
      else if no_ct || not s.w.cfg.has_identity
      then ((unready decrypt_failed, j), s)
      else open_ciphertext j (bytes_or_nil ct) s

  -- How a sorted job joins the pool.
  unfoldable pub settle : Sorted → Job → Sys e → (Verdict × Job) × Sys e
  settle (unready why) j s = let (j', s') = unembedded why j s in ((keep, j'), s')
  settle comes_back j s = ((later, j), s)
  settle ready j s = (
    (keep, record j { solo = j.m.receive_count == solo_receive; state = pending }),
    on_worker (λ w. record w { pool_tokens = w.pool_tokens + j.n_ids }) s,
  )

  unfoldable pub drop_invalid : Job → Sys e → (Verdict × Job) × Sys e
  drop_invalid j s = ((drop, j), on_worker (count (λ c. record c { invalid = c.invalid + 1 })) s)

  -- An envelope that Cal could read is sorted and settled; any other reaches the dead-letter queue.
  unfoldable pub take_in : Job → e.Node → Sys e → (Verdict × Job) × Sys e
  take_in j env s =
      let uuid = bytes_or_nil (string_value e (field e (some env) "message_uuid")) in
      let ((sorted, j'), s') = sort_job (record j { uuid = uuid }) env s in
      if not (envelope_fields_ok e env) || (length uuid == 0 || leb 64 (length uuid))
      then drop_invalid j s
      else settle sorted j' s'

  unfoldable pub arrive : Job → Sys e → (Verdict × Job) × Sys e
  arrive j0 s0 =
      let (t, s1) = ask e e.now s0 in
      let j = record j0 { received_at = t; visible_until = pos (t + visibility_s) } in
      let (parsed, s) = parse_strict e (bytes_or_nil j.body) s1 in
      elim parsed [
        | parse_no_memory ↦ ((later, j), s)
        | malformed ↦ drop_invalid j s
        | tree env ↦ take_in j env s
      ]
