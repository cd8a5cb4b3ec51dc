-- ===== src/Fleet.antt =====
-- The outbox of esp32-embedder/firmware/full/main/fleet.c, and `publish_outbox` of kata_worker.c there.
-- A string is its bytes. Only the worker's task publishes; other tasks queue at any time.
pub mod Queueing
pub mod Publishing
pub mod Accepted
use claude_chats.Prelude.{
  ℕ, ◌+◌, ◌-◌, Bool, true, false, not, ◌&&◌, Option, none, some, List, [], ◌∷◌, ◌++◌, length, take,
  drop, ltb, ◌==◌, if◌then◌else◌, Bytes,
}

abbrev pub fleet_outbox : ℕ
fleet_outbox = 16

-- A heartbeat may have this many bytes.
abbrev pub status_max : ℕ
status_max = 2048

-- `out_status`, and `out` up to `out_n`.
pub record Outbox : Type 0 where
  pub status : Option Bytes
  pub out : List Bytes

unfoldable pub fleet_respond : Bool → Bytes → Outbox → Bool × Outbox
fleet_respond got json o =
    if not got
    then (false, o)
    else if length o.out == fleet_outbox
    then (true, record o { out = drop 1 o.out ++ (json ∷ []) })
    else (true, record o { out = o.out ++ (json ∷ []) })

-- The end of `send_status`: a text that was built whole replaces the one that waits. `got` says whether
-- there is memory for the copy, which is not tested.
unfoldable pub send_status : Bool → Bool → Bytes → Outbox → Outbox
send_status oom got text o =
    if oom
    then o
    else if ltb status_max (length text)
    then o
    else record o { status = if got then some text else none }

unfoldable pub fleet_take : ℕ → Outbox → (Option Bytes × List Bytes) × Outbox
fleet_take most o =
    let n = if ltb (length o.out) most then length o.out else most in
    ((o.status, take n o.out), record { status = none; out = drop n o.out })

unfoldable pub fleet_put_back : Option Bytes → List Bytes → Outbox → Outbox
fleet_put_back status back o =
    let room = fleet_outbox - length o.out in
    let keep = if ltb (length back) room then length back else room in
    record {
      status = elim o.status [ some s ↦ some s | none ↦ status ];
      out = take keep back ++ o.out;
    }

-- What the other tasks do.
pub data Event : Type 0 where
  -- A response, and whether there was memory for it.
  responded : Bool → Bytes → Event
  -- A heartbeat's buffer ran out of memory; there was memory for a copy; its text.
  heartbeat : Bool → Bool → Bytes → Event

abbrev pub happen : Event → Outbox → Outbox
happen (responded got json) o = (fleet_respond got json o).1
happen (heartbeat oom got text) o = send_status oom got text o

unfoldable pub happen_all : List Event → Outbox → Outbox
happen_all [] o = o
happen_all (e ∷ es) o = happen_all es (happen e o)

-- `iot_post`, to the topic of the status or of the responses: the HTTP status, or `none` for -1.
pub record Poster : Type 1 where
  pub Ctx : Type 0
  pub post : Bool → Bytes → Ctx → Option ℕ × Ctx

-- The HTTP status 200.
abbrev pub went : Option ℕ → Bool
went none = false
went (some st) = st == 200

-- What came of a publish: the last answer, the responses that went and those that are left, the status that
-- is left.
pub record Published (C : Type 0) : Type 0 where
  pub st : Option ℕ
  pub sent : List Bytes
  pub left : List Bytes
  pub status_left : Option Bytes
  pub ctx : C

module _ (y : Poster) where
  -- The loop over the responses, to the first that does not go.
  unfoldable pub post_all : Option ℕ → List Bytes → y.Ctx → Published y.Ctx
  post_all st [] c = record { st = st; sent = []; left = []; status_left = none; ctx = c }
  post_all st (m ∷ ms) c =
      let (st', c1) = y.post false m c in
      let rest = post_all st' ms c1 in
      if went st'
      then record rest { sent = m ∷ rest.sent }
      else record { st = st'; sent = []; left = m ∷ ms; status_left = none; ctx = c1 }

  -- The status, once all the responses went.
  unfoldable pub post_status : Option Bytes → Published y.Ctx → Published y.Ctx
  post_status none p = p
  post_status (some s) p =
      if not (length p.left == 0)
      then record p { status_left = some s }
      else (let (st', c1) = y.post true s p.ctx in
          if went st'
          then record p { st = st'; ctx = c1 }
          else record p { st = st'; status_left = some s; ctx = c1 })

  unfoldable pub post_taken : Option Bytes → List Bytes → y.Ctx → Published y.Ctx
  unfolding post_all post_status
  post_taken status msgs c = post_status status (post_all (some 0) msgs c)

  abbrev pub nothing_waits : Option Bytes → List Bytes → Bool
  nothing_waits none [] = true
  nothing_waits status msgs = false

  -- What `publish_outbox` does with what it took, and with what happens before its end. The Boolean says
  -- whether something was published and all of it went.
  unfoldable pub publish_taken :
      Option Bytes → List Bytes → List Event → Outbox → y.Ctx → (Bool × Published y.Ctx) × Outbox
  unfolding fleet_put_back happen_all post_taken
  publish_taken status msgs events o c =
      let p = post_taken status msgs c in
      let o2 = happen_all events o in
      if nothing_waits status msgs
      then ((false, record { st = none; sent = []; left = []; status_left = none; ctx = c }), o2)
      else if went p.st
      then ((true, p), o2)
      else ((false, p), fleet_put_back p.status_left p.left o2)

  -- One call of `publish_outbox`, without the second.
  unfoldable pub publish_once : List Event → Outbox → y.Ctx → (Bool × Published y.Ctx) × Outbox
  unfolding fleet_take publish_taken
  publish_once events o c =
      let ((status, msgs), o1) = fleet_take fleet_outbox o in publish_taken status msgs events o1 c

  -- `publish_outbox`: the first time that all of it goes, it publishes once more. Gives what was published,
  -- the flag `first`, the outbox and the state behind iot_post.
  unfoldable pub publish_outbox :
      List Event → List Event → Bool → Outbox → y.Ctx → (List Bytes × Bool) × (Outbox × y.Ctx)
  publish_outbox events more first o c =
      let ((all, p), o1) = publish_once events o c in
      let ((all', p'), o2) = publish_once more o1 p.ctx in
      if all && first
      then ((p.sent ++ p'.sent, false), (o2, p'.ctx))
      else ((p.sent, first), (o1, p.ctx))
