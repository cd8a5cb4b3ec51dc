-- ===== src/Kw/Depth.antt =====
-- `kw_json_depth_ok` of esp32-embedder/worker/kw.c: the brackets of a JSON text, counted outside strings.
use claude_chats.Prelude.{
  ℕ, Bool, true, false, not, ◌&&◌, ◌||◌, [], ◌∷◌, ◌==◌, if◌then◌else◌, Bytes,
}
use claude_chats.Prelude.Int.{ℤ, pos, incr, decr, above}

-- The loop's variables; `skip` after a backslash in a string, where `i++` jumps over a byte.
pub record Depth : Type 0 where
  pub depth : ℤ
  pub in_str : Bool
  pub skip : Bool

abbrev pub is_open : ℕ → Bool
is_open c = c == b'[' || c == b'{'

unfoldable pub depth_step : Depth → ℕ → Depth
unfolding incr decr
depth_step d c =
    if d.skip
    then record d { skip = false }
    else if d.in_str
    then (if c == b'\\'
        then record d { skip = true }
        else if c == b'"'
        then record d { in_str = false }
        else d)
    else if c == b'"'
    then record d { in_str = true }
    else if is_open c
    then record d { depth = incr d.depth }
    else if c == b']' || c == b'}'
    then record d { depth = decr d.depth }
    else d

-- The loop; a bracket that opens the level past `max_depth` ends it with `false`.
unfoldable pub depth_from : ℕ → Depth → Bytes → Bool
unfolding depth_step
depth_from max_depth d [] = true
depth_from max_depth d (c ∷ cs) =
    let d' = depth_step d c in
    let rest = depth_from max_depth d' cs in
    let opened = not d.skip && (not d.in_str && is_open c) in
    if opened && above d'.depth max_depth then false else rest

unfoldable pub kw_json_depth_ok : Bytes → ℕ → Bool
unfolding depth_from
kw_json_depth_ok s max_depth =
    depth_from max_depth (record { depth = pos 0; in_str = false; skip = false }) s
