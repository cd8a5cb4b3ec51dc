-- ===== src/Tests/StatusRuns.antt =====
-- The card's waits of three passes.
use claude_chats.Prelude.{◌≡◌, refl, [], ◌∷◌}
use claude_chats.Worker.Types.{Worker, worker_init}
use claude_chats.Worker.Status.{place_in, sort_onto, sorted_waits, worker_card_wait}
use claude_chats.Tests.Demo.{demo_config}

abbrev three_passes : Worker
three_passes = record (worker_init demo_config) { card_wait = 5 ∷ 3 ∷ 9 ∷ []; n_card = 3 }

last_and_median : worker_card_wait three_passes ≡ (9, 5)
unfolding worker_card_wait sorted_waits sort_onto place_in
last_and_median = refl
