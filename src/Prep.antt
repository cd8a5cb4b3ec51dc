-- ===== src/Prep.antt =====
-- The canonical text, esp32-embedder/worker/prep.c: NUL escapes rewritten, and the first characters.
pub mod Truncate
use Prim.Native.Nat.{bit_and}
use claude_chats.Prelude.{
  ℕ, zero, suc, ◌+◌, Bool, true, false, ◌||◌, not, Option, none, some, List, [], ◌∷◌, ◌++◌, take,
  ◌==◌, if◌then◌else◌, Bytes, codes, bytes_eq,
}
use claude_chats.Kw.Jbuf.{Jbuf, jb_put}

abbrev pub prep_max_chars : ℕ
prep_max_chars = 800

abbrev pub prep_max_tokens : ℕ
prep_max_tokens = 512

-- `(c & 0xc0) == 0x80`: a UTF-8 continuation byte.
unfoldable pub is_continuation : ℕ → Bool
is_continuation c = bit_and c 0xc0 == 0x80

-- The loop at byte `i`, with `chars` characters begun before it.
unfoldable pub truncate_from : ℕ → ℕ → ℕ → Bytes → ℕ × Bool
truncate_from max_chars i chars [] = (i, false)
truncate_from max_chars i chars (c ∷ cs) =
    let inside = is_continuation c in
    let rest = truncate_from max_chars (i + 1) (if inside then chars else chars + 1) cs in
    if inside then rest else (if chars == max_chars then (i, true) else rest)

-- The byte length kept, and `*truncated`.
unfoldable pub prep_truncate : Bytes → ℕ → ℕ × Bool
unfolding truncate_from
prep_truncate s max_chars = truncate_from max_chars 0 0 s

-- The loop's variables. `run` holds the bytes `json[run .. i)` that are not put yet. `skip` is how
-- many bytes of the current escape `i` still jumps over, and `kept` whether they stay in the run.
pub record Scan : Type 0 where
  pub out : Jbuf
  pub run : Bytes
  pub nuls : ℕ
  pub in_str : Bool
  pub skip : ℕ
  pub kept : Bool

-- `i + 5 < n`, a `u`, and four zeros.
unfoldable pub is_nul_escape : Bytes → Bool
is_nul_escape rest = bytes_eq (take 5 rest) (codes "u0000")

abbrev pub is_last : Bytes → Bool
is_last [] = true
is_last (c ∷ cs) = false

module _ (grow : ℕ → Bool) where
  -- One round of the loop at a byte that no escape jumps over; `rest` is what follows the byte.
  unfoldable pub nuls_step : Scan → ℕ → Bytes → Scan
  nuls_step s c rest =
      let pass_on = record s { run = s.run ++ (c ∷ []) } in
      if not s.in_str
      then (if c == b'"' then record pass_on { in_str = true } else pass_on)
      else if c == b'"'
      then record pass_on { in_str = false }
      else if not (c == b'\\') || is_last rest
      then pass_on
      else if is_nul_escape rest
      then record s {
        out = jb_put grow (jb_put grow s.out s.run) (codes "\\\\0");
        run = [];
        nuls = s.nuls + 1;
        skip = 5;
        kept = false;
      }
      else record pass_on { skip = 1; kept = true }

  -- A byte that an escape jumps over.
  unfoldable pub nuls_skip : Scan → ℕ → ℕ → Scan
  nuls_skip s left c = record s { run = if s.kept then s.run ++ (c ∷ []) else s.run; skip = left }

  unfoldable pub nuls_byte : ℕ → Scan → ℕ → Bytes → Scan
  unfolding nuls_step nuls_skip
  nuls_byte zero s c rest = nuls_step s c rest
  nuls_byte (suc left) s c rest = nuls_skip s left c

  unfoldable pub nuls_scan : Scan → Bytes → Scan
  unfolding nuls_byte
  nuls_scan s [] = s
  nuls_scan s (c ∷ rest) = nuls_scan (nuls_byte s.skip s c rest) rest

  -- How many NULs were rewritten and the text, or nothing if memory ran out.
  unfoldable pub prep_json_nuls : Bytes → Jbuf → Option (ℕ × Jbuf)
  unfolding nuls_scan
  prep_json_nuls json out =
      let s =
        nuls_scan (record { out = out; run = []; nuls = 0; in_str = false; skip = 0; kept = false })
          json in
      let b = jb_put grow s.out s.run in if b.oom then none else some (s.nuls, b)
