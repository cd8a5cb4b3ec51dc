-- ===== src/Sqs/Client/Requests.antt =====
-- The text of the batch requests of esp32-embedder/worker/sqs.c.
use claude_chats.Prelude.{
  ℕ, ◌+◌, ◌<◌, ◌≡◌, refl, sym, ap, ◌∙◌, ◌⊎◌, inl, inr, Bool-cases, true, false, ◌==◌, if◌then◌else◌,
  decimal, append_assoc, arith, Option, none, some, List, [], ◌∷◌, ◌++◌, append-nil, Bytes, codes,
}
use mathlib.Core.Path.{subst}
use claude_chats.Kw.Jbuf.{Jbuf, jb_put}
use claude_chats.Kw.Jbuf.Laws.{Grows, Grows-trans, jb_put-Extends}
use claude_chats.Kw.Jbuf.Refusals.{Alright, Alright-trans, jb_put-Alright, Grows-AllOrRefused}
use claude_chats.Kw.Escape.{jb_json_str}
use claude_chats.Kw.Escape.Whole.{jb_json_str-Alright}
use claude_chats.Kw.Escape.Laws.{json_string, jb_json_str-Extends}
use claude_chats.Sqs.{Reading}
use claude_chats.Sqs.Client.{Wire, jb_reset}
use claude_chats.Sqs.Client.Calls.{begin_body, entry_head, put_some, put_entries, batch_body}

abbrev extra_text : Option Bytes → Bytes
extra_text none = []
extra_text (some text) = text

-- One entry of a batch as JSON.
abbrev pub entry_text : Bytes → Option Bytes → ℕ → Bytes → Bytes
entry_text key extra i x =
    codes "{\"Id\":\""
    ++ (decimal i
        ++ (codes "\",\""
            ++ (key ++ (codes "\":" ++ (json_string x ++ (extra_text extra ++ codes "}"))))))

-- The entries, numbered from `i`.
abbrev pub entries : Bytes → Option Bytes → ℕ → List Bytes → List Bytes
entries key extra i [] = []
entries key extra i (x ∷ xs) = entry_text key extra i x ∷ entries key extra (i + 1) xs

-- Texts with commas between them.
abbrev pub commas : List Bytes → Bytes
commas [] = []
commas (t ∷ []) = t
commas (t ∷ u ∷ us) = t ++ (b',' ∷ commas (u ∷ us))

-- The body of a batch request.
abbrev pub batch_text : Bytes → Bytes → Option Bytes → List Bytes → Bytes
batch_text queue_url key extra items =
    codes "{\"QueueUrl\":"
    ++ (json_string queue_url
        ++ (codes ",\"Entries\":[" ++ (commas (entries key extra 0 items) ++ codes "]}")))

-- Texts with a comma before each.
abbrev comma_each : List Bytes → Bytes
comma_each [] = []
comma_each (t ∷ ts) = b',' ∷ (t ++ comma_each ts)

commas-comma_each : (t : Bytes) (ts : List Bytes) → commas (t ∷ ts) ≡ t ++ comma_each ts
commas-comma_each t [] = sym (append-nil t)
commas-comma_each t (u ∷ us) = ap (λ x. t ++ (b',' ∷ x)) (commas-comma_each u us)

module _ (r : Reading) (w : Wire r) where
  -- The entries as they are put, from number `i` on.
  abbrev entries_text : Bytes → Option Bytes → ℕ → List Bytes → Bytes
  entries_text key extra i [] = []
  entries_text key extra i (x ∷ xs) =
      ((entry_head r w key i ++ json_string x) ++ extra_text extra)
      ++ (codes "}" ++ entries_text key extra (i + 1) xs)

  -- One entry as it is put, with what follows.
  put_text :
      (key : Bytes) (extra : Option Bytes) (i : ℕ) (x rest : Bytes)
      → ((entry_head r w key i ++ json_string x) ++ extra_text extra) ++ (codes "}" ++ rest)
        ≡ (if i == 0 then [] else b',' ∷ []) ++ (entry_text key extra i x ++ rest)
  unfolding entry_head
  put_text key extra i x rest = simp append_assoc

  entries_text-later :
      (key : Bytes) (extra : Option Bytes) (i : ℕ) (items : List Bytes)
      → 0 < i
      → entries_text key extra i items ≡ comma_each (entries key extra i items)
  entries_text-later key extra i [] h = refl
  entries_text-later key extra i (x ∷ xs) h =
      let later : (i == 0) ≡ false = ground arith in
      put_text key extra i x (entries_text key extra (i + 1) xs)
      ∙ rw later (
          ap (λ t. b',' ∷ (entry_text key extra i x ++ t))
            (entries_text-later key extra (i + 1) xs (omega (arith, h))))

  entries_text-commas :
      (key : Bytes) (extra : Option Bytes) (items : List Bytes)
      → entries_text key extra 0 items ≡ commas (entries key extra 0 items)
  entries_text-commas key extra [] = refl
  entries_text-commas key extra (x ∷ xs) =
      put_text key extra 0 x (entries_text key extra 1 xs)
      ∙ ap (λ t. entry_text key extra 0 x ++ t) (entries_text-later key extra 1 xs (omega arith))
      ∙ sym (commas-comma_each (entry_text key extra 0 x) (entries key extra 1 xs))

  put-Grows : (b : Jbuf) (d : Bytes) → Grows b (jb_put w.grow b d) d
  put-Grows b d = (jb_put-Extends w.grow b d).appended

  json-Grows : (b : Jbuf) (s : Bytes) → Grows b (jb_json_str w.grow b s) (json_string s)
  json-Grows b s = (jb_json_str-Extends w.grow b s).appended

  put_some-Grows : (b : Jbuf) (o : Option Bytes) → Grows b (put_some r w b o) (extra_text o)
  put_some-Grows b none k = (k, sym (append-nil b.bytes))
  put_some-Grows b (some text) k = (jb_put-Extends w.grow b text).appended k

  put_entries-Grows :
      (key : Bytes) (extra : Option Bytes) (i : ℕ) (items : List Bytes) (b : Jbuf)
      → Grows b (put_entries r w key extra i items b) (entries_text key extra i items)
  unfolding put_entries
  put_entries-Grows key extra i [] b = λ k. (k, sym (append-nil b.bytes))
  put_entries-Grows key extra i (x ∷ xs) b =
      let b1 = jb_put w.grow b (entry_head r w key i) in
      let b2 = jb_json_str w.grow b1 x in
      let b3 = put_some r w b2 extra in
      let b4 = jb_put w.grow b3 (codes "}") in
      let whole = put_entries r w key extra (i + 1) xs b4 in
      let front =
        Grows-trans b b1 b2 (entry_head r w key i) (json_string x)
          (put-Grows b (entry_head r w key i)) (json-Grows b1 x) in
      let entry =
        Grows-trans b b2 b3 (entry_head r w key i ++ json_string x) (extra_text extra) front
          (put_some-Grows b2 extra) in
      Grows-trans b b3 whole _ _ entry (
        Grows-trans b3 b4 whole (codes "}") _ (put-Grows b3 (codes "}"))
          (put_entries-Grows key extra (i + 1) xs b4))

  batch_body-Grows :
      (b : Jbuf) (queue_url key : Bytes) (extra : Option Bytes) (items : List Bytes)
      → Grows
          (jb_reset b)
          (batch_body r w b queue_url key extra items)
          (batch_text queue_url key extra items)
  unfolding batch_body begin_body
  batch_body-Grows b queue_url key extra items =
      let b0 = jb_reset b in
      let b1 = jb_put w.grow b0 (codes "{\"QueueUrl\":") in
      let b2 = jb_json_str w.grow b1 queue_url in
      let b3 = jb_put w.grow b2 (codes ",\"Entries\":[") in
      let b4 = put_entries r w key extra 0 items b3 in
      let b5 = jb_put w.grow b4 (codes "]}") in
      Grows-trans b0 b1 b5 _ _ (put-Grows b0 (codes "{\"QueueUrl\":")) (
        Grows-trans b1 b2 b5 _ _ (json-Grows b1 queue_url) (
          Grows-trans b2 b3 b5 _ _ (put-Grows b2 (codes ",\"Entries\":[")) (
            Grows-trans b3 b4 b5 _ _
              (subst (λ t. Grows b3 b4 t) (entries_text-commas key extra items)
                (put_entries-Grows key extra 0 items b3))
              (put-Grows b4 (codes "]}")))))

  put_some-Alright : (b : Jbuf) (o : Option Bytes) → Alright w.grow b (put_some r w b o)
  put_some-Alright b none = elim (Bool-cases b.oom) [
    | inl out ↦ inr (inl out)
    | inr fine ↦ inl fine
  ]
  put_some-Alright b (some text) = jb_put-Alright w.grow b text

  put_entries-Alright :
      (key : Bytes) (extra : Option Bytes) (i : ℕ) (items : List Bytes) (b : Jbuf)
      → Alright w.grow b (put_entries r w key extra i items b)
  unfolding put_entries
  put_entries-Alright key extra i [] b = put_some-Alright b none
  put_entries-Alright key extra i (x ∷ xs) b =
      let b1 = jb_put w.grow b (entry_head r w key i) in
      let b2 = jb_json_str w.grow b1 x in
      let b3 = put_some r w b2 extra in
      let b4 = jb_put w.grow b3 (codes "}") in
      let b5 = put_entries r w key extra (i + 1) xs b4 in
      Alright-trans w.grow b b1 b5 (jb_put-Alright w.grow b (entry_head r w key i)) (
        Alright-trans w.grow b1 b2 b5 (jb_json_str-Alright w.grow b1 x) (
          Alright-trans w.grow b2 b3 b5 (put_some-Alright b2 extra) (
            Alright-trans w.grow b3 b4 b5 (jb_put-Alright w.grow b3 (codes "}"))
              (put_entries-Alright key extra (i + 1) xs b4))))

  batch_body-Alright :
      (b : Jbuf) (queue_url key : Bytes) (extra : Option Bytes) (items : List Bytes)
      → Alright w.grow (jb_reset b) (batch_body r w b queue_url key extra items)
  unfolding batch_body begin_body
  batch_body-Alright b queue_url key extra items =
      let b0 = jb_reset b in
      let b1 = jb_put w.grow b0 (codes "{\"QueueUrl\":") in
      let b2 = jb_json_str w.grow b1 queue_url in
      let b3 = jb_put w.grow b2 (codes ",\"Entries\":[") in
      let b4 = put_entries r w key extra 0 items b3 in
      let b5 = jb_put w.grow b4 (codes "]}") in
      Alright-trans w.grow b0 b1 b5 (jb_put-Alright w.grow b0 (codes "{\"QueueUrl\":")) (
        Alright-trans w.grow b1 b2 b5 (jb_json_str-Alright w.grow b1 queue_url) (
          Alright-trans w.grow b2 b3 b5 (jb_put-Alright w.grow b2 (codes ",\"Entries\":[")) (
            Alright-trans w.grow b3 b4 b5 (put_entries-Alright key extra 0 items b3)
              (jb_put-Alright w.grow b4 (codes "]}")))))

  -- The body of a batch request is its JSON, whatever the reused buffer held: the queue's URL and an entry for
  -- each item in their order, numbered from 0, with commas between them and each string escaped. Otherwise
  -- memory ran out, and the allocator refuses some size.
  pub batch_body_lem :
      (b : Jbuf) (queue_url key : Bytes) (extra : Option Bytes) (items : List Bytes)
      → let b1 = batch_body r w b queue_url key extra items in
        ((b1.oom ≡ false) × (b1.bytes ≡ batch_text queue_url key extra items))
        ⊎ ((b1.oom ≡ true) × ((n : ℕ) × (w.grow n ≡ false)))
  unfolding jb_reset
  batch_body_lem b queue_url key extra items =
      elim (Grows-AllOrRefused w.grow (jb_reset b) (batch_body r w b queue_url key extra items)
        (batch_text queue_url key extra items) (batch_body-Grows b queue_url key extra items)
        (batch_body-Alright b queue_url key extra items)) [
          | inl whole ↦ inl whole
          | inr (out, inr refused) ↦ inr (out, refused)
          | inr (out, inl before) ↦ absurd (cc before)
        ]
