-- ===== src/Fleet/Publishing.antt =====
-- What `publish_outbox` and the calls of other tasks do to the outbox of esp32-embedder/firmware/full/main/fleet.c.
use claude_chats.Prelude.{
  ℕ, ◌+◌, ◌≤◌, ◌≡◌, refl, sym, ap, ◌∙◌, inl, inr, Bool, true, false, Bool-cases, not, ◌&&◌, Option,
  none, some, List, [], ◌∷◌, ◌++◌, append-nil, append_assoc, length, length-append, ◌==◌,
  if◌then◌else◌, arith, Bytes,
}
use mathlib.Core.Path.{subst}
use claude_chats.Fleet.{
  fleet_outbox, Outbox, Event, happen_all, Poster, went, Published, post_all, post_status,
  post_taken, nothing_waits, publish_taken, publish_once, publish_outbox,
}
use claude_chats.Fleet.Queueing.{queued, nil_is, take_everything, put_back-out, happen_all-out}

pub not_again : (b : Bool) → (b && not b) ≡ false
not_again true = refl
not_again false = refl

-- The responses queued by the end of a publish that began with `first` and ended with `still_first`.
abbrev pub queued_meanwhile : List Event → List Event → Bool → Bool → List Bytes
queued_meanwhile events more first still_first =
    queued events ++ (if first && not still_first then queued more else [])

module _ (y : Poster) where
  post_all_lem :
      (st : Option ℕ) (ms : List Bytes) (c : y.Ctx)
      → ((post_all y st ms c).sent ++ (post_all y st ms c).left ≡ ms)
        × ((went (post_all y st ms c).st ≡ true) → (post_all y st ms c).left ≡ [])
  unfolding post_all
  post_all_lem st [] c = (refl, λ _. refl)
  post_all_lem st (m ∷ ms) c =
      let (whole, all) = post_all_lem (y.post false m c).0 ms (y.post false m c).1 in
      elim (Bool-cases (went (y.post false m c).0)) [
        | inl does ↦ rw (does, post_all) (ap (λ l. m ∷ l) whole, all)
        | inr fails ↦ rw (fails, post_all) (refl, λ h. absurd (ground arith))
      ]

  -- A publish that sent some of the messages, and left the rest: all of them were sent where it went.
  abbrev pub Parted : Published y.Ctx → List Bytes → Type 0
  Parted p ms = (p.sent ++ p.left ≡ ms) × (went p.st ≡ true → p.left ≡ [])

  post_status-Parted :
      (status : Option Bytes) (p : Published y.Ctx) (ms : List Bytes)
      → Parted p ms
      → Parted (post_status y status p) ms
  unfolding post_status
  post_status-Parted none p ms parted = parted
  post_status-Parted (some s) p ms (whole, all) = elim (Bool-cases (length p.left == 0)) [
    | inr some_left ↦ rw (some_left, post_status) (whole, all)
    | inl none_left ↦
        let gone : p.left ≡ [] = nil_is p.left (ground arith) in
        elim (Bool-cases (went (y.post true s p.ctx).0)) [
          | inl does ↦ rw (none_left, post_status) (rw (does, post_status) (whole, λ _. gone))
          | inr fails ↦ rw (none_left, post_status) (rw (fails, post_status) (whole, λ _. gone))
        ]
  ]

  post_taken-Parted :
      (status : Option Bytes) (ms : List Bytes) (c : y.Ctx) → Parted (post_taken y status ms c) ms
  unfolding post_taken
  post_taken-Parted status ms c =
      post_status-Parted status (post_all y (some 0) ms c) ms (post_all_lem (some 0) ms c)

  -- Nothing waited.
  pub nothing-nil :
      (status : Option Bytes) (ms : List Bytes) → nothing_waits y status ms ≡ true → ms ≡ []
  nothing-nil none [] h = refl
  nothing-nil none (m ∷ ms) h = absurd (ground arith)
  nothing-nil (some s) ms h = absurd (ground arith)

  -- Nothing is lost, sent twice or moved.
  abbrev pub Kept : (Bool × Published y.Ctx) × Outbox → List Bytes → Type 0
  Kept r ms = r.0.1.sent ++ r.1.out ≡ ms

  sent_all :
      (p : Published y.Ctx) (ms : List Bytes) {out new : List Bytes}
      → p.sent ++ p.left ≡ ms
      → p.left ≡ []
      → out ≡ new
      → p.sent ++ out ≡ ms ++ new
  sent_all p ms {out} whole gone heard =
      let sent : p.sent ≡ ms = sym (append-nil p.sent) ∙ ap (λ x. p.sent ++ x) (sym gone) ∙ whole in
      ap (λ x. x ++ out) sent ∙ ap (λ x. ms ++ x) heard

  publish_taken-Kept :
      (status : Option Bytes) (ms : List Bytes) (es : List Event) (c : y.Ctx)
      → length ms + length (queued es) ≤ fleet_outbox
      → Kept (publish_taken y status ms es (record { status = none; out = [] }) c) (ms ++ queued es)
  unfolding publish_taken
  publish_taken-Kept status ms es c room =
      let o1 : Outbox = record { status = none; out = [] } in
      let heard : (happen_all es o1).out ≡ queued es = happen_all-out es o1 (omega (arith, room)) in
      let p = post_taken y status ms c in
      let (whole, all) = post_taken-Parted status ms c in
      let o2 = happen_all es o1 in
      let few : length p.left + length o2.out ≤ fleet_outbox =
        omega (arith, room, ap length heard, ap length whole, length-append p.sent p.left) in
      let back = put_back-out p.status_left p.left o2 few in
      elim (Bool-cases (nothing_waits y status ms)) [
        | inl nothing ↦
            rw nothing (heard ∙ ap (λ x. x ++ queued es) (sym (nothing-nil status ms nothing)))
        | inr something ↦ elim (Bool-cases (went p.st)) [
          | inl does ↦
              rw (something, publish_taken)
                (rw (does, publish_taken) (sent_all p ms whole (all does) heard))
          | inr fails ↦
              rw (something, publish_taken)
                (rw (fails, publish_taken)
                  (ap (λ x. p.sent ++ x) back
                    ∙ sym (append_assoc p.sent p.left o2.out)
                    ∙ ap (λ x. x ++ o2.out) whole
                    ∙ ap (λ x. ms ++ x) heard))
        ]
      ]

  publish_once-Kept :
      (es : List Event) (o : Outbox) (c : y.Ctx)
      → length o.out + length (queued es) ≤ fleet_outbox
      → Kept (publish_once y es o c) (o.out ++ queued es)
  unfolding publish_once
  publish_once-Kept es o c room =
      subst (λ x. Kept (publish_taken y x.0.0 x.0.1 es x.1 c) (o.out ++ queued es))
        (sym (take_everything o (omega (arith, room))))
        (publish_taken-Kept o.status o.out es c room)

  -- Where the outbox does not run over, nothing is lost, sent twice or moved: the responses that went, and
  -- behind them those that wait now, are those that waited, and behind them those queued meanwhile.
  pub publish_outbox_lem :
      (events more : List Event) (first : Bool) (o : Outbox) (c : y.Ctx)
      → length o.out + (length (queued events) + length (queued more)) ≤ fleet_outbox
      → (let ((sent, still_first), (o', c')) = publish_outbox y events more first o c in
          sent ++ o'.out ≡ o.out ++ queued_meanwhile events more first still_first)
  unfolding publish_outbox
  publish_outbox_lem events more first o c room =
      let r = publish_once y events o c in
      let kept = publish_once-Kept events o c (omega (arith, room)) in
      let o1 = r.1 in
      let few : length o1.out + length (queued more) ≤ fleet_outbox = omega (
        arith,
        room,
        ap length kept,
        length-append r.0.1.sent o1.out,
        length-append o.out (queued events),
      ) in
      let r' = publish_once y more o1 r.0.1.ctx in
      let kept' = publish_once-Kept more o1 r.0.1.ctx few in
      let both : (r.0.1.sent ++ r'.0.1.sent) ++ r'.1.out ≡ o.out ++ (queued events ++ queued more) =
        append_assoc r.0.1.sent r'.0.1.sent r'.1.out
        ∙ ap (λ x. r.0.1.sent ++ x) kept'
        ∙ sym (append_assoc r.0.1.sent o1.out (queued more))
        ∙ ap (λ x. x ++ queued more) kept
        ∙ append_assoc o.out (queued events) (queued more) in
      elim (Bool-cases (r.0.0 && first)) [
        | inl again ↦
            let is_first : first ≡ true = ground arith in
            rw again (
              both
              ∙ ap (λ b. o.out ++ (queued events ++ (if b && true then queued more else [])))
                  (sym is_first))
        | inr once ↦ rw once (
            kept
            ∙ ap (λ x. o.out ++ x) (sym (append-nil (queued events)))
            ∙ ap (λ b. o.out ++ (queued events ++ (if b then queued more else [])))
                (sym (not_again first)))
      ]
