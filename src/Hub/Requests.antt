-- ===== src/Hub/Requests.antt =====
-- hub.go and updates.go: asking a machine something. `ask` blocks on its reply, so it is two steps,
-- what it does before its `select` and what it does from there on; other calls come in between.
use sparstrowgen.Prelude.{
  ◌+◌, ◌%◌, ◌^◌, String, List, Option, some, none, Bool, true, false, not, ◌==◌, string_eq,
  if◌then◌else◌,
}
use sparstrowgen.Prelude.Maps.{lookup, insert, delete}
use sparstrowgen.Protocol.{ServerMessage, DaemonMessage}
use sparstrowgen.Hub.State.{Waiter, Sys, World}
use sparstrowgen.Hub.Routing.{target}
use sparstrowgen.Hub.Machines.{send_to_daemon, send_to_machine}

unfoldable pub forget : String → Sys → Sys
unfolding delete
forget id s = record s { hub = record s.hub { pending = delete id s.hub.pending } }

-- Up to the `select`: the request's id, or none when the machine is offline and `ask` has returned.
unfoldable pub ask_begin :
    World → String → ServerMessage → (ServerMessage → Sys → Sys × Bool) → Sys → Sys × Option String
unfolding insert forget
ask_begin w user msg send s =
    let n = (s.hub.next_request + 1) % 2 ^ 64 in
    let id = w.format_uint n in
    let waiter : Waiter = record { user_id = user; reply = none } in
    let s₁ : Sys = record s {
      hub = record s.hub { next_request = n; pending = insert id waiter s.hub.pending };
    } in
    let (s₂, sent) = send (record msg { request_id = id }) s₁ in
    if sent then (s₂, some id) else (forget id s₂, none)

unfoldable pub ask : World → String → ServerMessage → Sys → Sys × Option String
unfolding ask_begin send_to_daemon
ask w user msg = ask_begin w user msg (send_to_daemon w user)

unfoldable pub ask_machine : World → String → String → ServerMessage → Sys → Sys × Option String
unfolding ask_begin send_to_machine
ask_machine w user id msg = ask_begin w user msg (send_to_machine w id)

unfoldable pub ask_in : World → String → List String → ServerMessage → Sys → Sys × Option String
unfolding target ask ask_machine
ask_in w user allowed msg s = elim (target s.hub user allowed) [
  | none ↦ (s, none)
  | some id ↦ if id == "" then ask w user msg s else ask_machine w user id msg s
]

abbrev pub reply_of : Option Waiter → Option DaemonMessage
reply_of none = none
reply_of (some x) = x.reply

-- The case of the `select` on the channel: ready only when a reply is there.
unfoldable pub ask_reply : String → Sys → Option (Sys × DaemonMessage)
unfolding lookup forget
ask_reply id s = elim (reply_of (lookup id s.hub.pending)) [
  | none ↦ none
  | some m ↦ some (forget id s, m)
]

-- The case on ctx.Done().
unfoldable pub ask_cancel : String → Sys → Sys
unfolding forget
ask_cancel id s = forget id s

-- A send on the channel that gives up when the channel is full.
unfoldable pub offer : Waiter → DaemonMessage → Waiter
offer x m = elim x.reply [ none ↦ record x { reply = some m } | some _ ↦ x ]

abbrev pub hand : String → DaemonMessage → Option Waiter → Sys → Sys × Bool
hand user m none s = (s, false)
hand user m (some x) s = if not (x.user_id == user) then (s, true) else (
  record s { hub = record s.hub { pending = insert m.request_id (offer x m) s.hub.pending } },
  true,
)

unfoldable pub deliver : String → DaemonMessage → Sys → Sys × Bool
unfolding lookup offer insert
deliver user m s =
    if m.request_id == "" then (s, false) else hand user m (lookup m.request_id s.hub.pending) s
