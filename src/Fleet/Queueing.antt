-- ===== src/Fleet/Queueing.antt =====
-- What the calls of other tasks do to the outbox of esp32-embedder/firmware/full/main/fleet.c, and its take and put back.
use claude_chats.Prelude.{
  ◌+◌, ◌-◌, ◌≤◌, ◌≡◌, refl, sym, ap, ◌∙◌, Bool, true, false, Option, none, List, [], ◌∷◌, ◌++◌,
  append-nil, append_assoc, length, length-append, length-drop, drop, take_all, drop_all, ltb,
  if◌then◌else◌, arith, Bytes,
}
use claude_chats.Fleet.{
  fleet_outbox, Outbox, fleet_respond, send_status, fleet_take, fleet_put_back, Event, responded,
  heartbeat, happen_all,
}

-- The responses that were queued.
abbrev pub queued : List Event → List Bytes
queued [] = []
queued (responded true json ∷ es) = json ∷ queued es
queued (responded false json ∷ es) = queued es
queued (heartbeat oom got text ∷ es) = queued es

send_status-out :
    (oom got : Bool) (text : Bytes) (o : Outbox) → (send_status oom got text o).out ≡ o.out
unfolding send_status
send_status-out oom got text o = ground arith

respond-out :
    (json : Bytes) (o : Outbox)
    → length o.out + 1 ≤ fleet_outbox
    → (fleet_respond true json o).1.out ≡ o.out ++ (json ∷ [])
unfolding fleet_respond
respond-out json o room = ground arith

respond_nothing : (json : Bytes) (o : Outbox) → (fleet_respond false json o).1 ≡ o
unfolding fleet_respond
respond_nothing json o = refl

pub nil_is : (ms : List Bytes) → length ms ≡ 0 → ms ≡ []
nil_is [] h = refl
nil_is (m ∷ ms) h = absurd (omega (arith, h))

pub take_everything :
    (o : Outbox)
    → length o.out ≤ fleet_outbox
    → fleet_take fleet_outbox o ≡ ((o.status, o.out), record { status = none; out = [] })
unfolding fleet_take
take_everything o few =
    let n = if ltb (length o.out) fleet_outbox then length o.out else fleet_outbox in
    let enough : n ≡ length o.out = ground arith in
    rw enough (
      rw (take_all (length o.out) o.out (omega arith))
        (rw (drop_all (length o.out) o.out (omega arith)) refl))

pub put_back-out :
    (status : Option Bytes) (back : List Bytes) (o : Outbox)
    → length back + length o.out ≤ fleet_outbox
    → (fleet_put_back status back o).out ≡ back ++ o.out
unfolding fleet_put_back
put_back-out status back o room =
    let space = fleet_outbox - length o.out in
    let keep = if ltb (length back) space then length back else space in
    let enough : keep ≡ length back = ground arith in
    rw enough (rw (take_all (length back) back (omega arith)) refl)

pub happen_all-out :
    (es : List Event) (o : Outbox)
    → length o.out + length (queued es) ≤ fleet_outbox
    → (happen_all es o).out ≡ o.out ++ queued es
unfolding happen_all
happen_all-out [] o room = sym (append-nil o.out)
happen_all-out (responded true json ∷ es) o room =
    let now = respond-out json o (omega (arith, room)) in
    let o1 = (fleet_respond true json o).1 in
    let size : length o1.out ≡ length o.out + 1 = ap length now ∙ length-append o.out (json ∷ []) in
    happen_all-out es o1 (omega (arith, room, size))
    ∙ ap (λ x. x ++ queued es) now
    ∙ append_assoc o.out (json ∷ []) (queued es)
happen_all-out (responded false json ∷ es) o room =
    ap (λ x. (happen_all es x).out) (respond_nothing json o) ∙ happen_all-out es o room
happen_all-out (heartbeat oom got text ∷ es) o room =
    let same = send_status-out oom got text o in
    let o1 = send_status oom got text o in
    happen_all-out es o1 (omega (arith, room, ap length same)) ∙ ap (λ x. x ++ queued es) same

respond-bounded :
    (got : Bool) (json : Bytes) (o : Outbox)
    → length o.out ≤ fleet_outbox
    → length (fleet_respond got json o).1.out ≤ fleet_outbox
unfolding fleet_respond
respond-bounded got json o few =
    let behind = length-append o.out (json ∷ []) in
    let shifted = length-append (drop 1 o.out) (json ∷ []) in
    let one_less = length-drop 1 o.out in ground (arith, behind, shifted, one_less)

-- The other tasks never let it run over.
pub happen_all-bounded :
    (es : List Event) (o : Outbox)
    → length o.out ≤ fleet_outbox
    → length (happen_all es o).out ≤ fleet_outbox
unfolding happen_all
happen_all-bounded [] o few = few
happen_all-bounded (responded got json ∷ es) o few =
    happen_all-bounded es (fleet_respond got json o).1 (respond-bounded got json o few)
happen_all-bounded (heartbeat oom got text ∷ es) o few =
    happen_all-bounded es (send_status oom got text o)
      (omega (arith, few, ap length (send_status-out oom got text o)))
