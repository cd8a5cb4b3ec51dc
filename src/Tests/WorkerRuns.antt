-- ===== src/Tests/WorkerRuns.antt =====
-- The worker's first step, with one message in the queue.
use claude_chats.Prelude.{
  refl, some, codes, ◌+◌, true, List, false, ◌*◌, ◌^◌, min, ◌≤◌, ◌≡◌, [], ◌∷◌, length, All,
}
use claude_chats.Worker.Types.{retry_max_s}
use claude_chats.Worker.Env.{Env, Sys}
use claude_chats.Worker.Step.{worker_step}
use claude_chats.Worker.Sound.{JobOk, held_sum, DeletesJustified}
use claude_chats.Worker.Sound.Reach.{
  Reach, begins, steps, deletes_follow_results, pool_bounded, pool_tokens_exact, jobs_well_formed,
}
use claude_chats.Worker.Types.{Job, fresh_job, worker_init}
use claude_chats.Worker.Rounds.{slots_of, rounds}
use claude_chats.Worker.Rounds.Ends.{batch_loops_end}
use claude_chats.Worker.Handoff.{select_results, select_deletes, send_round, delete_round}
use claude_chats.Worker.Visibility.{select_visible, visibility_round}
use claude_chats.Worker.Waits.{worker_step-le}
use claude_chats.Worker.Outage.{after_steps, worker_step-down}
use claude_chats.Tests.Demo.{demo, demo_config, demo_msg, demo_start, demo-Contract}

abbrev pub after : Sys demo
after = (worker_step demo_start).1

pub after_reached : Reach demo demo_config after
after_reached = steps demo_start (begins (demo_msg ∷ []))

deletes_follow_results_example : DeletesJustified after.log
deletes_follow_results_example = deletes_follow_results demo-Contract after_reached

jobs_well_formed_example : All (JobOk after.log) after.w.pool
jobs_well_formed_example = jobs_well_formed demo-Contract after_reached

pool_bounded_example : length after.w.pool ≤ after.w.cfg.pool_max
pool_bounded_example = pool_bounded demo-Contract after_reached

pool_tokens_exact_example : after.w.pool_tokens ≡ held_sum after.w.pool
pool_tokens_exact_example = pool_tokens_exact demo-Contract after_reached

worker_step-le_example : (worker_step demo_start).0 ≤ retry_max_s
worker_step-le_example = worker_step-le demo_start

-- No network at all.
abbrev offline : Env
offline = record demo { net_begin = λ c. (some (codes "no Wi-Fi"), c) }

abbrev offline_start : Sys offline
offline_start = record { w = worker_init demo_config; ctx = []; log = [] }

worker_step-down_example : (worker_step (after_steps 3 offline_start)).0 ≡ min (30 * 2 ^ 3) 300
unfolding worker_init
worker_step-down_example =
    worker_step-down (λ c. (codes "no Wi-Fi", refl)) 3 offline_start refl refl

-- Two jobs to look at, and five rounds more than they need.
abbrev two_jobs : List Job
two_jobs = fresh_job demo_msg ∷ fresh_job demo_msg ∷ []

batch_loops_end_example :
    (rounds (λ a. select_results a.0) send_round (2 + 1 + 5) (slots_of two_jobs, 0) demo_start
      ≡ rounds (λ a. select_results a.0) send_round (2 + 1) (slots_of two_jobs, 0) demo_start)
    × (rounds select_deletes delete_round (2 + 1 + 5) (slots_of two_jobs) demo_start
        ≡ rounds select_deletes delete_round (2 + 1) (slots_of two_jobs) demo_start)
    × (rounds
          (λ a. select_visible true 1000 a.0)
          (visibility_round true 900 1000)
          (2 + 1 + 5)
          (slots_of two_jobs, false)
          demo_start
        ≡ rounds
            (λ a. select_visible true 1000 a.0)
            (visibility_round true 900 1000)
            (2 + 1)
            (slots_of two_jobs, false)
            demo_start)
batch_loops_end_example = batch_loops_end two_jobs 5 demo_start true 900 1000
