-- ===== src/Tests/PassRun.antt =====
-- A step of the worker with a pass, computed: one message received, opened and given to the model.
use claude_chats.Prelude.{
  ℕ, ◌≤◌, refl, inl, In, [], ◌∷◌, length, if◌then◌else◌, bytes_eq, decimal_onto, decimal, padded,
  true, false, Bytes, codes, some,
}
use claude_chats.Prelude.Int.{pos}
use claude_chats.Prep.{prep_max_tokens}
use claude_chats.Worker.Env.{Env, Sys, embed_started, tree}
use claude_chats.Worker.Sound.{Contract}
use claude_chats.Worker.Sound.Reach.{begins, steps, passes_fit}
use claude_chats.Tests.Demo.{demo, demo_config, demo_msg, demo-Contract}
use claude_chats.Worker.Types.{worker_init}
use claude_chats.Worker.Strict.{
  repeats, unique_from, accept_tree, parse_strict, s3_ok, envelope_fields_ok, job_fields_ok,
}
use claude_chats.Worker.Pool.{
  roll_today, sweep, pool_bytes, any_job, finish, unembedded, unembed_pending,
}
use claude_chats.Worker.Arrive.{
  decoded_room, tokenise_content, open_tree, open_job, open_ciphertext, sort_job, settle,
  drop_invalid, take_in, arrive,
}
use claude_chats.Worker.Rounds.{select, gather, settle_each, accepted, rounds}
use claude_chats.Worker.Handoff.{
  sent_events, deleted_events, send_round, delete_round, send_results, delete_jobs, handoff,
}
use claude_chats.Worker.Visibility.{visible_events, visibility_round, visibility}
use claude_chats.Worker.TopUp.{receive_max, place, admit, admit_all, top_up_from, top_up}
use claude_chats.Worker.Pass.{
  pending_from, jobs_at, choose, pack_ids, sum, sum_squares, vector_ok, vectors_ok, go_sick,
  finish_each, unembed_each, note_pass, good_pass, bad_pass, run_pass, pass,
}
use claude_chats.Worker.Step.{
  backoff, check_health, park, hold, note_progress, receive_phase, after_phase, work, network,
  begun, worker_step, worker_set_sick, worker_request_park, worker_resume,
}
use claude_chats.Kw.Jbuf.{doubled, jb_reserve, jb_put, jb_take}
use claude_chats.Kw.Escape.{is_plain, hex_digit, escape_byte, escape_run, jb_json_str}
use claude_chats.Kw.Base64.{
  b64_encoded_len, b64_encode, jb_b64, b64_val, decode_from, padding, b64_decode,
}
use claude_chats.Kw.Depth.{depth_step, depth_from, kw_json_depth_ok}
use claude_chats.Kw.Time.{civil_from_days, kw_ymd, kw_amz_date}
use claude_chats.Prep.{
  is_continuation, truncate_from, prep_truncate, is_nul_escape, nuls_step, nuls_skip, nuls_byte,
  nuls_scan, prep_json_nuls,
}
use claude_chats.Result.{
  little_endian, str_or_null, put_head, put_vector, put_pass, put_tail, result_encode,
}
use claude_chats.Batch.{plan_rest, batch_plan}

-- Every key is there, its value named by it; each text but the role is two bytes in base64.
abbrev readable : Env
readable = record demo {
  Node = Bytes;
  parse = λ text c. (tree (codes "top"), c);
  is_object = λ n. true;
  is_string = λ n. true;
  is_null = λ n. false;
  is_number = λ n. true;
  keys = λ n. [];
  item = λ n k. some k;
  valuestring = λ n. if bytes_eq n (codes "role") then codes "user" else codes "YWI=";
  valuedouble = λ n. pos 1;
}

readable-Contract : Contract readable
readable-Contract = record {
  tokenise_le = demo-Contract.tokenise_le;
  receive_le = demo-Contract.receive_le;
}

abbrev readable_start : Sys readable
readable_start = record { w = worker_init demo_config; ctx = demo_msg ∷ []; log = [] }

abbrev embedded : Sys readable
embedded = (worker_step readable_start).1

-- One message of four ids went to the model.
embedded_four : In (embed_started (4 ∷ [])) embedded.log
unfolding worker_init repeats unique_from accept_tree parse_strict s3_ok envelope_fields_ok
    job_fields_ok roll_today sweep pool_bytes any_job finish unembedded unembed_pending decoded_room
    tokenise_content open_tree open_job open_ciphertext sort_job settle drop_invalid take_in arrive
    select gather settle_each accepted rounds sent_events deleted_events send_round delete_round
    send_results delete_jobs handoff visible_events visibility_round visibility receive_max place
    admit admit_all top_up_from top_up pending_from jobs_at choose pack_ids sum sum_squares
    vector_ok vectors_ok go_sick finish_each unembed_each note_pass good_pass bad_pass run_pass pass
    backoff check_health park hold note_progress receive_phase after_phase work network begun
    worker_step worker_set_sick worker_request_park worker_resume doubled jb_reserve jb_put jb_take
    is_plain hex_digit escape_byte escape_run jb_json_str b64_encoded_len b64_encode jb_b64 b64_val
    decode_from padding b64_decode depth_step depth_from kw_json_depth_ok civil_from_days kw_ymd
    kw_amz_date is_continuation truncate_from prep_truncate is_nul_escape nuls_step nuls_skip
    nuls_byte nuls_scan prep_json_nuls little_endian str_or_null put_head put_vector put_pass
    put_tail result_encode plan_rest batch_plan bytes_eq decimal_onto decimal padded
embedded_four = inl refl

passes_fit_example : (sum (4 ∷ []) ≤ prep_max_tokens) × (◌≤◌ (length {A = ℕ} (4 ∷ [])) 64)
passes_fit_example =
    passes_fit readable-Contract (4 ∷ []) (steps readable_start (begins (demo_msg ∷ [])))
      embedded_four
