-- ===== src/Worker/Strict.antt =====
-- The strict JSON of esp32-embedder/worker/worker.c: what Kata takes for an envelope and for a job,
-- at least as strict as Cal's serde.
use claude_chats.Prelude.{
  ℕ, ◌+◌, Bool, true, false, not, ◌&&◌, ◌||◌, Option, none, some, List, [], ◌∷◌, ltb, if◌then◌else◌,
  Bytes, codes, bytes_eq,
}
use Prim.Native.String.{String}
use claude_chats.Prelude.Int.{ℤ, pos, negsuc}
use claude_chats.Kw.Depth.{kw_json_depth_ok}
use claude_chats.Worker.Types.{json_depth}
use claude_chats.Worker.Env.{Env, Sys, ask, Parsed, tree, malformed, parse_no_memory}

-- A later key spelled like this one.
unfoldable pub repeats : Bytes → List (Option Bytes) → Bool
repeats k [] = false
repeats k (none ∷ ks) = repeats k ks
repeats k (some k' ∷ ks) = bytes_eq k k' || repeats k ks

-- The loop over the children, `n` of them seen.
unfoldable pub unique_from : ℕ → List (Option Bytes) → Bool
unique_from n [] = true
unique_from n (none ∷ ks) = false
unique_from n (some k ∷ ks) = not (ltb 64 n) && (not (repeats k ks) && unique_from (n + 1) ks)

module _ (e : Env) where
  abbrev pub field : Option e.Node → String → Option e.Node
  field none k = none
  field (some o) k = e.item o (codes k)

  -- `cJSON_IsNull` and the like are false at NULL.
  abbrev pub holds : (e.Node → Bool) → Option e.Node → Bool
  holds test none = false
  holds test (some v) = test v

  -- `cJSON_GetStringValue`.
  abbrev pub string_value : Option e.Node → Option Bytes
  string_value none = none
  string_value (some v) = if e.is_string v then some (e.valuestring v) else none

  abbrev pub opt_string : e.Node → String → Bool
  opt_string o k = elim (field (some o) k) [ none ↦ true | some v ↦ e.is_null v || e.is_string v ]

  abbrev pub req_string : e.Node → String → Bool
  req_string o k = holds e.is_string (field (some o) k)

  abbrev pub integer : Option e.Node → ℤ → ℤ → Bool
  integer none lo hi = false
  integer (some v) lo hi =
      e.is_number v
      && (e.le (e.of_int lo) (e.valuedouble v)
          && (e.le (e.valuedouble v) (e.of_int hi) && e.is_whole (e.valuedouble v)))

  -- `parse_strict`'s checks on what the parser returned.
  unfoldable pub accept_tree : Parsed e.Node → Parsed e.Node
  accept_tree (tree n) =
      if not (e.is_object n) || not (unique_from 0 (e.keys n)) then malformed else tree n
  accept_tree malformed = malformed
  accept_tree parse_no_memory = parse_no_memory

  unfoldable pub parse_strict : Bytes → Sys e → Parsed e.Node × Sys e
  parse_strict text s =
      let (r, s') = ask e (e.parse text) s in
      if not (kw_json_depth_ok text json_depth) then (malformed, s) else (accept_tree r, s')

  unfoldable pub s3_ok : e.Node → Bool
  s3_ok o = elim (field (some o) "s3") [
    | none ↦ true
    | some v ↦
        e.is_null v
        || (e.is_object v
            && (unique_from 0 (e.keys v) && (req_string v "bucket" && req_string v "key")))
  ]

  unfoldable pub envelope_fields_ok : e.Node → Bool
  envelope_fields_ok o =
      integer (field (some o) "v") (pos 0) (pos 4294967295)
      && (req_string o "message_uuid"
          && (opt_string o "ciphertext"
              && (opt_string o "sig_key" && (opt_string o "sig" && s3_ok o))))

  -- Absent is the default, but serde refuses a null.
  abbrev pub not_null : e.Node → String → Bool
  not_null o k = not (holds e.is_null (field (some o) k))

  unfoldable pub job_fields_ok : e.Node → Bool
  job_fields_ok o =
      opt_string o "project_path"
      && (opt_string o "git_branch"
          && (opt_string o "name"
              && (opt_string o "ai_title"
                  && (opt_string o "host"
                      && (opt_string o "author"
                          && (opt_string o "tool_name" && opt_string o "model"))))))
      && (not_null o "project_path"
          && (not_null o "git_branch" && (not_null o "host" && not_null o "author")))
      && (req_string o "session_id"
          && (req_string o "message_uuid"
              && (req_string o "role"
                  && (req_string o "content"
                      && (req_string o "created_at"
                          && integer (field (some o) "sequence_num") (negsuc 2147483647)
                              (pos 2147483647))))))
