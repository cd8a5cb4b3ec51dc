-- ===== src/Tests/StepRun.antt =====
-- A whole step of the worker, computed: one message received, its result sent, its job deleted.
use claude_chats.Prelude.{
  ℕ, ◌≡◌, refl, List, [], ◌∷◌, bytes_eq, decimal_onto, decimal, padded, true, false,
}
use claude_chats.Worker.Env.{Sys, on_worker}
use claude_chats.Worker.Sound.Reach.{Reach, steps, parks, parked_holds_nothing}
use claude_chats.Tests.Demo.{demo, demo_config, demo-Contract}
use claude_chats.Tests.WorkerRuns.{after, after_reached}
use claude_chats.Worker.Step.{worker_request_park}
use claude_chats.Worker.Types.{worker_init}
use claude_chats.Worker.Strict.{
  repeats, unique_from, accept_tree, parse_strict, s3_ok, envelope_fields_ok, job_fields_ok,
}
use claude_chats.Worker.Pool.{
  roll_today, sweep, pool_bytes, any_job, finish, unembedded, unembed_pending,
}
use claude_chats.Worker.Arrive.{
  decoded_room, tokenise_content, open_tree, open_job, open_ciphertext, sort_job, settle,
  drop_invalid, take_in, arrive,
}
use claude_chats.Worker.Rounds.{select, gather, settle_each, accepted, rounds}
use claude_chats.Worker.Handoff.{
  sent_events, deleted_events, send_round, delete_round, send_results, delete_jobs, handoff,
}
use claude_chats.Worker.Visibility.{visible_events, visibility_round, visibility}
use claude_chats.Worker.TopUp.{receive_max, place, admit, admit_all, top_up_from, top_up}
use claude_chats.Worker.Pass.{
  pending_from, jobs_at, choose, pack_ids, sum, sum_squares, vector_ok, vectors_ok, go_sick,
  finish_each, unembed_each, note_pass, good_pass, bad_pass, run_pass, pass,
}
use claude_chats.Worker.Step.{
  backoff, check_health, park, hold, note_progress, receive_phase, after_phase, work, network,
  begun, worker_step, worker_set_sick, worker_request_park, worker_resume,
}
use claude_chats.Kw.Jbuf.{doubled, jb_reserve, jb_put, jb_take}
use claude_chats.Kw.Escape.{is_plain, hex_digit, escape_byte, escape_run, jb_json_str}
use claude_chats.Kw.Base64.{
  b64_encoded_len, b64_encode, jb_b64, b64_val, decode_from, padding, b64_decode,
}
use claude_chats.Kw.Depth.{depth_step, depth_from, kw_json_depth_ok}
use claude_chats.Kw.Time.{civil_from_days, kw_ymd, kw_amz_date}
use claude_chats.Prep.{
  is_continuation, truncate_from, prep_truncate, is_nul_escape, nuls_step, nuls_skip, nuls_byte,
  nuls_scan, prep_json_nuls,
}
use claude_chats.Result.{
  little_endian, str_or_null, put_head, put_vector, put_pass, put_tail, result_encode,
}
use claude_chats.Batch.{plan_rest, batch_plan}
use claude_chats.Worker.Env.{Event, received, sent, deleted}
use claude_chats.Tests.Demo.{demo_start}

-- 1, 2 and 3 for a message received, a result accepted and a delete; the latest first.
unfoldable kinds : List Event → List ℕ
kinds [] = []
kinds (received m ∷ es) = 1 ∷ kinds es
kinds (sent b true ∷ es) = 2 ∷ kinds es
kinds (sent b false ∷ es) = 5 ∷ kinds es
kinds (deleted r ∷ es) = 3 ∷ kinds es
kinds (_ ∷ es) = 4 ∷ kinds es

first_step : kinds (worker_step demo_start).1.log ≡ 3 ∷ 2 ∷ 1 ∷ []
unfolding worker_init repeats unique_from accept_tree parse_strict s3_ok envelope_fields_ok
    job_fields_ok roll_today sweep pool_bytes any_job finish unembedded unembed_pending decoded_room
    tokenise_content open_tree open_job open_ciphertext sort_job settle drop_invalid take_in arrive
    select gather settle_each accepted rounds sent_events deleted_events send_round delete_round
    send_results delete_jobs handoff visible_events visibility_round visibility receive_max place
    admit admit_all top_up_from top_up pending_from jobs_at choose pack_ids sum sum_squares
    vector_ok vectors_ok go_sick finish_each unembed_each note_pass good_pass bad_pass run_pass pass
    backoff check_health park hold note_progress receive_phase after_phase work network begun
    worker_step worker_set_sick worker_request_park worker_resume doubled jb_reserve jb_put jb_take
    is_plain hex_digit escape_byte escape_run jb_json_str b64_encoded_len b64_encode jb_b64 b64_val
    decode_from padding b64_decode depth_step depth_from kw_json_depth_ok civil_from_days kw_ymd
    kw_amz_date is_continuation truncate_from prep_truncate is_nul_escape nuls_step nuls_skip
    nuls_byte nuls_scan prep_json_nuls little_endian str_or_null put_head put_vector put_pass
    put_tail result_encode plan_rest batch_plan kinds bytes_eq decimal_onto decimal padded
first_step = refl

-- Asked to park before its second step, with the message handed on in the first.
abbrev parked : Sys demo
parked = (worker_step (on_worker worker_request_park after)).1

parked_reached : Reach demo demo_config parked
parked_reached = steps (on_worker worker_request_park after) (parks after after_reached)

parked_now : parked.w.parked ≡ true
unfolding worker_init repeats unique_from accept_tree parse_strict s3_ok envelope_fields_ok
    job_fields_ok roll_today sweep pool_bytes any_job finish unembedded unembed_pending decoded_room
    tokenise_content open_tree open_job open_ciphertext sort_job settle drop_invalid take_in arrive
    select gather settle_each accepted rounds sent_events deleted_events send_round delete_round
    send_results delete_jobs handoff visible_events visibility_round visibility receive_max place
    admit admit_all top_up_from top_up pending_from jobs_at choose pack_ids sum sum_squares
    vector_ok vectors_ok go_sick finish_each unembed_each note_pass good_pass bad_pass run_pass pass
    backoff check_health park hold note_progress receive_phase after_phase work network begun
    worker_step worker_set_sick worker_request_park worker_resume doubled jb_reserve jb_put jb_take
    is_plain hex_digit escape_byte escape_run jb_json_str b64_encoded_len b64_encode jb_b64 b64_val
    decode_from padding b64_decode depth_step depth_from kw_json_depth_ok civil_from_days kw_ymd
    kw_amz_date is_continuation truncate_from prep_truncate is_nul_escape nuls_step nuls_skip
    nuls_byte nuls_scan prep_json_nuls little_endian str_or_null put_head put_vector put_pass
    put_tail result_encode plan_rest batch_plan kinds bytes_eq decimal_onto decimal padded
parked_now = refl

parked_holds_nothing_example : parked.w.pool ≡ []
parked_holds_nothing_example = parked_holds_nothing demo-Contract parked_reached parked_now
