-- ===== src/Hub/Steps/Writes.antt =====
-- What sending to a machine, asking one and answering leave alone.
use sparstrowgen.Prelude.{
  ℕ, ◌+◌, ◌%◌, ◌^◌, String, refl, List, Option, some, none, Bool, not, ◌==◌, string_eq, nat_eq,
  Bool-cases, Option-cases, inl, inr,
}
use sparstrowgen.Prelude.Maps.{Map, lookup, insert, delete}
use sparstrowgen.Protocol.{ServerMessage, DaemonMessage}
use sparstrowgen.Hub.State.{Machine, Waiter, Hub, Sys, World}
use sparstrowgen.Hub.Routing.{target, current_machine}
use sparstrowgen.Hub.Machines.{
  send_to_daemon, send_to_machine, send_to_workspace_daemon, send_to_running_machine, write_to,
}
use sparstrowgen.Hub.Requests.{forget, hand, ask_begin, ask, ask_machine, ask_in, offer, deliver}
use sparstrowgen.Hub.Steps.Same.{Same, Same-refl, Same-trans, write-Same}

write_to-Same :
    (w : World) (o : Option Machine) (msg : ServerMessage) (s : Sys)
    → Same s.hub (write_to w o msg s).0.hub
write_to-Same w none msg s = Same-refl s.hub
write_to-Same w (some m) msg s = write-Same w m.conn msg s

pub send_to_daemon-Same :
    (w : World) (user : String) (msg : ServerMessage) (s : Sys)
    → Same s.hub (send_to_daemon w user msg s).0.hub
unfolding send_to_daemon
send_to_daemon-Same w user msg s = write_to-Same w (current_machine s.hub user) msg s

pub send_to_machine-Same :
    (w : World) (id : String) (msg : ServerMessage) (s : Sys)
    → Same s.hub (send_to_machine w id msg s).0.hub
unfolding send_to_machine
send_to_machine-Same w id msg s = write_to-Same w (lookup id s.hub.paired) msg s

pub send_to_running_machine-Same :
    (w : World) (user id : String) (msg : ServerMessage) (s : Sys)
    → Same s.hub (send_to_running_machine w user id msg s).0.hub
unfolding send_to_running_machine
send_to_running_machine-Same w user id msg s = elim (Bool-cases (id == "")) [
  | inl e ↦ rw (e, send_to_running_machine) (send_to_daemon-Same w user msg s)
  | inr e ↦ rw (e, send_to_running_machine) (send_to_machine-Same w id msg s)
]

pub send_to_workspace_daemon-Same :
    (w : World) (user : String) (allowed : List String) (msg : ServerMessage) (s : Sys)
    → Same s.hub (send_to_workspace_daemon w user allowed msg s).0.hub
unfolding send_to_workspace_daemon
send_to_workspace_daemon-Same w user allowed msg s =
    elim (Option-cases (target s.hub user allowed)) [
      | inl e ↦ rw (e, send_to_workspace_daemon) (Same-refl s.hub)
      | inr (id, e) ↦
          rw (e, send_to_workspace_daemon)
            (unfold send_to_running_machine in send_to_running_machine-Same w user id msg s)
    ]

-- A change of the requests alone.
pending_Same :
    (h : Hub) (m : Map String Waiter) (n : ℕ) → Same h (record h { pending = m; next_request = n })
pending_Same h m n = record { routes = (λ j. refl, refl, refl); clients = λ k. k }

ask_begin-Same :
    (w : World) (user : String) (msg : ServerMessage) (send : ServerMessage → Sys → Sys × Bool)
    (s : Sys)
    → ((m : ServerMessage) (t : Sys) → Same t.hub (send m t).0.hub)
    → Same s.hub (ask_begin w user msg send s).0.hub
unfolding ask_begin forget
ask_begin-Same w user msg send s keeps = elim (Bool-cases (send msg' t).1) [
  | inl e ↦ rw (e, ask_begin) before
  | inr e ↦
      rw (e, ask_begin)
        (Same-trans before (
          pending_Same (send msg' t).0.hub (delete _ (send msg' t).0.hub.pending)
            (send msg' t).0.hub.next_request))
]
  where
    n : ℕ
    n = (s.hub.next_request + 1) % 2 ^ 64

    msg' : ServerMessage
    msg' = record msg { request_id = w.format_uint n }

    t : Sys
    t = record s {
      hub = record s.hub {
        next_request = n;
        pending = insert (w.format_uint n) (record { user_id = user; reply = none }) s.hub.pending;
      };
    }

    before : Same s.hub (send msg' t).0.hub
    before = Same-trans (pending_Same s.hub t.hub.pending n) (keeps msg' t)

pub ask-Same :
    (w : World) (user : String) (msg : ServerMessage) (s : Sys)
    → Same s.hub (ask w user msg s).0.hub
unfolding ask
ask-Same w user msg s =
    ask_begin-Same w user msg (send_to_daemon w user) s (send_to_daemon-Same w user)

pub ask_machine-Same :
    (w : World) (user id : String) (msg : ServerMessage) (s : Sys)
    → Same s.hub (ask_machine w user id msg s).0.hub
unfolding ask_machine
ask_machine-Same w user id msg s =
    ask_begin-Same w user msg (send_to_machine w id) s (send_to_machine-Same w id)

pub ask_in-Same :
    (w : World) (user : String) (allowed : List String) (msg : ServerMessage) (s : Sys)
    → Same s.hub (ask_in w user allowed msg s).0.hub
unfolding ask_in
ask_in-Same w user allowed msg s = elim (Option-cases (target s.hub user allowed)) [
  | inl e ↦ rw (e, ask_in) (Same-refl s.hub)
  | inr (id, e) ↦ elim (Bool-cases (id == "")) [
    | inl q ↦ rw (e, ask_in) (rw (q, ask_in) (ask-Same w user msg s))
    | inr q ↦ rw (e, ask_in) (rw (q, ask_in) (ask_machine-Same w user id msg s))
  ]
]

pub forget-Same : (id : String) (s : Sys) → Same s.hub (forget id s).hub
unfolding forget
forget-Same id s = pending_Same s.hub (delete id s.hub.pending) s.hub.next_request

hand-Same :
    (user : String) (m : DaemonMessage) (o : Option Waiter) (s : Sys)
    → Same s.hub (hand user m o s).0.hub
hand-Same user m none s = Same-refl s.hub
hand-Same user m (some x) s = elim (Bool-cases (not (x.user_id == user))) [
  | inl e ↦ rw e (Same-refl s.hub)
  | inr e ↦
      rw e (pending_Same s.hub (insert m.request_id (offer x m) s.hub.pending) s.hub.next_request)
]

pub deliver-Same :
    (user : String) (m : DaemonMessage) (s : Sys) → Same s.hub (deliver user m s).0.hub
unfolding deliver
deliver-Same user m s = elim (Bool-cases (m.request_id == "")) [
  | inl e ↦ rw (e, deliver) (Same-refl s.hub)
  | inr e ↦ rw (e, deliver) (hand-Same user m (lookup m.request_id s.hub.pending) s)
]
