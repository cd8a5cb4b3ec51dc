-- ===== src/Worker/Status.antt =====
-- The status of the worker, esp32-embedder/worker/worker.c: `worker_card_wait` and `worker_stalled_s`.
pub mod Order
use claude_chats.Prelude.{
  ℕ, ◌+◌, ◌-◌, ◌/◌, ◌%◌, ◌==◌, Bool, true, false, ◌&&◌, not, List, [], ◌∷◌, take, get_or, ltb,
  if◌then◌else◌,
}
use claude_chats.Worker.Types.{Worker, card_history}

-- The inner loop: `x` moves in front of the larger values before it. The values already sorted are
-- here from the last to the first.
unfoldable pub place_in : ℕ → List ℕ → List ℕ
place_in x [] = x ∷ []
place_in x (y ∷ ys) = let further = y ∷ place_in x ys in if ltb x y then further else x ∷ y ∷ ys

-- The outer loop over the values that are left.
unfoldable pub sort_onto : List ℕ → List ℕ → List ℕ
sort_onto done [] = done
sort_onto done (x ∷ xs) = sort_onto (place_in x done) xs

abbrev pub n_waits : Worker → ℕ
n_waits w = if ltb w.n_card card_history then w.n_card else card_history

-- `v[]`, sorted, from its last value to its first.
unfoldable pub sorted_waits : Worker → List ℕ
sorted_waits w = sort_onto [] (take (n_waits w) w.card_wait)

-- `v[i]`.
abbrev value_at : Worker → ℕ → ℕ
value_at w i = get_or (sorted_waits w) (n_waits w - 1 - i) 0

-- The last wait, and the median of those remembered.
unfoldable pub worker_card_wait : Worker → ℕ × ℕ
worker_card_wait w =
    let n = n_waits w in
    (
      if n == 0 then 0 else get_or w.card_wait ((w.n_card - 1) % card_history) 0,
      if n == 0
          then 0
          else if n % 2 == 1
          then value_at w (n / 2)
          else (value_at w (n / 2 - 1) + value_at w (n / 2)) / 2,
    )

unfoldable pub worker_stalled_s : Worker → ℕ → ℕ
worker_stalled_s w t =
    if not (w.progress_at == 0) && ltb w.progress_at t then t - w.progress_at else 0
