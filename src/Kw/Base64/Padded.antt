-- ===== src/Kw/Base64/Padded.antt =====
-- `b64_decode` of esp32-embedder/worker/kw.c in both modes: the texts that it takes.
use claude_chats.Prelude.{
  ℕ, ◌+◌, ◌-◌, ◌%◌, ◌≤◌, ◌≡◌, refl, sym, ap, ◌∙◌, ◌↔◌, inl, inr, true, Bool-cases, some, [], ◌∷◌,
  ◌++◌, append-nil, append_assoc, length, length-append, take, take_all, take-append_front, ◌==◌,
  ==_iff, if◌then◌else◌, arith, Bytes,
}
use mathlib.Core.Path.{subst}
use claude_chats.Kw.Base64.{
  b64_encode, padding, decode_body, Mode, padded_mode, raw_strict, b64_decode,
}
use claude_chats.Kw.Base64.Exact.{decode_from-some}
use claude_chats.Kw.Base64.Groups.{AreBytes, unpadded, decode_from-unpadded}
use claude_chats.Kw.Base64.Marks.{
  length-unpadded, pads, marks, b64_encode-unpadded, padding-last, last_two, length-pads,
  length-marks, length-b64_encode_groups, padding-b64_encode,
}

decode_body-unpadded : (d : Bytes) → AreBytes d → decode_body (unpadded d) ≡ some d
decode_body-unpadded d h = rw (length-unpadded d) (decode_from-unpadded d h)

decode_body-some : (s d : Bytes) → decode_body s ≡ some d → (s ≡ unpadded d) × AreBytes d
decode_body-some s d h = elim (Bool-cases (length s % 4 == 1)) [
  | inl bad ↦ absurd (ground arith)
  | inr fine ↦ decode_from-some s d (ground arith) fine
]

b64_decode-b64_encode : (d : Bytes) → AreBytes d → b64_decode padded_mode (b64_encode d) ≡ some d
unfolding b64_decode
b64_decode-b64_encode d h =
    let (long, groups) = length-b64_encode_groups d h in
    let whole : (length (b64_encode d) % 4 == 0) ≡ true = ground arith in
    let kept : length (b64_encode d) - padding (b64_encode d) ≡ length (unpadded d) =
      omega (arith, long, padding-b64_encode d h) in
    let body : take (length (unpadded d)) (b64_encode d) ≡ unpadded d =
      ap (take (length (unpadded d))) (b64_encode-unpadded d h)
      ∙ take-append_front (length (unpadded d)) (unpadded d) (marks (pads d)) (omega arith)
      ∙ take_all (length (unpadded d)) (unpadded d) (omega arith) in
    rw (whole, kept, body) (decode_body-unpadded d h)

-- A text whose body is the characters for `d`, and whose length is a multiple of four.
body_and_marks :
    (s d body : Bytes) (k : ℕ)
    → k ≤ 2
    → s ≡ body ++ marks k
    → length s % 4 ≡ 0
    → decode_body body ≡ some d
    → (s ≡ b64_encode d) × AreBytes d
body_and_marks s d body k few is groups h =
    let (text, bytes) = decode_body-some body d h in
    let long : length s ≡ length body + length (marks k) =
      ap length is ∙ length-append body (marks k) in
    let same : k ≡ pads d =
      omega (arith, long, length-marks k few, ap length text, length-pads d) in
    (
      is
          ∙ ap (λ l. l ++ marks k) text
          ∙ ap (λ n. unpadded d ++ marks n) same
          ∙ sym (b64_encode-unpadded d bytes),
      bytes,
    )

by_marks :
    (s d body : Bytes) (k : ℕ)
    → k ≤ 2
    → s ≡ body ++ marks k
    → padding s ≡ k
    → length s % 4 ≡ 0
    → decode_body (take (length s - padding s) s) ≡ some d
    → (s ≡ b64_encode d) × AreBytes d
by_marks s d body k few is found groups h =
    let long : length s ≡ length body + length (marks k) =
      ap length is ∙ length-append body (marks k) in
    let kept : length s - padding s ≡ length body = omega (arith, long, length-marks k few) in
    let cut : take (length body) s ≡ body =
      ap (take (length body)) is
      ∙ take-append_front (length body) body (marks k) (omega arith)
      ∙ take_all (length body) body (omega arith) in
    let read : take (length s - padding s) s ≡ body = ap (λ n. take n s) kept ∙ cut in
    body_and_marks s d body k few is groups (ap decode_body (sym read) ∙ h)

by_last :
    (t : Bytes) (x y : ℕ) (d : Bytes)
    → length (t ++ (x ∷ y ∷ [])) % 4 ≡ 0
    → decode_body
        (take (length (t ++ (x ∷ y ∷ [])) - padding (t ++ (x ∷ y ∷ []))) (t ++ (x ∷ y ∷ [])))
      ≡ some d
    → (t ++ (x ∷ y ∷ []) ≡ b64_encode d) × AreBytes d
by_last t x y d groups h =
    let s = t ++ (x ∷ y ∷ []) in
    let by_end : padding s ≡ (if y == b'=' then (if x == b'=' then 2 else 1) else 0) =
      padding-last t x y in
    elim (Bool-cases (y == b'=')) [
      | inr no_mark ↦ by_marks s d s 0 (omega arith) (sym (append-nil s)) (ground arith) groups h
      | inl mark ↦
          let last : y ≡ b'=' = (==_iff y b'=').0 mark in
          elim (Bool-cases (x == b'=')) [
            | inr one_mark ↦
                by_marks s d (t ++ (x ∷ [])) 1 (omega arith)
                  (ap (λ c. t ++ (x ∷ c ∷ [])) last ∙ sym (append_assoc t (x ∷ []) (b'=' ∷ [])))
                  (ground arith) groups h
            | inl two_marks ↦
                let before : x ≡ b'=' = (==_iff x b'=').0 two_marks in
                by_marks s d t 2 (omega arith)
                  (ap (λ c. t ++ (x ∷ c ∷ [])) last ∙ ap (λ c. t ++ (c ∷ b'=' ∷ [])) before)
                  (ground arith) groups h
          ]
    ]

-- What the padded decoder takes is the encoding of what it gives.
b64_decode-padded_some :
    (s d : Bytes) → b64_decode padded_mode s ≡ some d → (s ≡ b64_encode d) × AreBytes d
unfolding b64_decode
b64_decode-padded_some s d h = elim (Bool-cases (length s % 4 == 0)) [
  | inr odd ↦ absurd (ground arith)
  | inl whole ↦ by_ends s (ground arith) (ground arith)
]
  where
    by_ends :
        (s : Bytes)
        → length s % 4 ≡ 0
        → decode_body (take (length s - padding s) s) ≡ some d
        → (s ≡ b64_encode d) × AreBytes d
    by_ends [] groups h = body_and_marks [] d [] 0 (omega arith) refl groups h
    by_ends (a ∷ []) groups h = absurd (omega arith)
    by_ends (a ∷ b ∷ s) groups h =
        let (t, x, y, is) = last_two a b s in
        subst (λ l. (l ≡ b64_encode d) × AreBytes d) (sym is)
          (by_last t x y d (subst (λ l. length l % 4 ≡ 0) is groups)
            (subst (λ l. decode_body (take (length l - padding l) l) ≡ some d) is h))

-- The text of a mode.
abbrev pub b64_text : Mode → Bytes → Bytes
b64_text padded_mode d = b64_encode d
b64_text raw_strict d = unpadded d

-- In either mode a text is decoded exactly when it is the encoding of bytes, and to those bytes.
pub b64_decode_lem :
    (m : Mode) (s d : Bytes) → (b64_decode m s ≡ some d) ↔ ((s ≡ b64_text m d) × AreBytes d)
unfolding b64_decode
b64_decode_lem padded_mode s d =
    (b64_decode-padded_some s d, λ h. ap (b64_decode padded_mode) h.0 ∙ b64_decode-b64_encode d h.1)
b64_decode_lem raw_strict s d =
    (decode_body-some s d, λ h. ap decode_body h.0 ∙ decode_body-unpadded d h.1)
