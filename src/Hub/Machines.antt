-- ===== src/Hub/Machines.antt =====
-- hub.go, updates.go, files.go: the machines. Each method that changes what is known of a machine,
-- and each that sends one something.
use sparstrowgen.Prelude.{
  ℕ, String, List, [], ◌∷◌, Option, some, none, Bool, true, false, not, ◌&&◌, ◌||◌, ◌==◌, string_eq,
  nat_eq, if◌then◌else◌, is_some,
}
use sparstrowgen.Prelude.Maps.{Map, lookup, insert, delete}
use sparstrowgen.Prelude.Int.{ℤ}
use sparstrowgen.Protocol.{
  Provider, Headroom, ClientEvent, ServerMessage, UpdateStatus, event_machines,
}
use sparstrowgen.Hub.State.{Machine, no_runtime, Hub, Sys, World, wrote, text_at, close}
use sparstrowgen.Hub.Routing.{current_machine, daemon_event, online_event, providers_event, target}
use sparstrowgen.Hub.Browsers.{broadcast_to}

-- &machine{conn: c, providers: []protocol.Provider{}}
unfoldable pub fresh_machine : ℕ → Machine
fresh_machine c = record { conn = c; providers = []; runtime = no_runtime }

-- `if old != nil { old.Close() }`
unfoldable pub close_old : Option Machine → Sys → Sys
unfolding close
close_old none s = s
close_old (some m) s = close m.conn s

unfoldable pub set_daemon : World → String → ℕ → Sys → Sys
unfolding lookup insert fresh_machine close_old broadcast_to online_event
set_daemon w user c s =
    let old = lookup user s.hub.machines in
    let s₁ : Sys = record s {
      hub = record s.hub { machines = insert user (fresh_machine c) s.hub.machines };
    } in
    broadcast_to w user (online_event true) (close_old old s₁)

-- `m != nil && m.conn == c`
unfoldable pub is_current : ℕ → Option Machine → Bool
is_current c none = false
is_current c (some m) = m.conn == c

unfoldable pub clear_daemon : World → String → ℕ → Sys → Sys × Bool
unfolding lookup delete is_current close broadcast_to online_event providers_event
clear_daemon w user c s =
    if is_current c (lookup user s.hub.machines)
    then (let s₁ : Sys = record s {
      hub = record s.hub { machines = delete user s.hub.machines };
    } in
        let s₂ = broadcast_to w user (online_event false) (close c s₁) in
        (broadcast_to w user (providers_event s₂.hub user) s₂, true))
    else (close c s, false)

unfoldable pub set_paired_daemon : World → String → String → ℕ → Sys → Sys
unfolding lookup insert fresh_machine close_old broadcast_to online_event
set_paired_daemon w user id c s =
    let old = lookup id s.hub.paired in
    let s₁ : Sys = record s {
      hub = record s.hub {
        paired = insert id (fresh_machine c) s.hub.paired;
        paired_users = insert id user s.hub.paired_users;
        primary = insert user id s.hub.primary;
      };
    } in
    broadcast_to w user (online_event true) (close_old old s₁)

-- The loop of ClearPairedDaemon over pairedUsers, up to its `break`.
unfoldable pub next_primary : String → Map String Machine → Map String String → Option String
unfolding lookup
next_primary user paired [] = none
next_primary user paired ((id, owner) ∷ rest) =
    if owner == user && is_some (lookup id paired) then some id else next_primary user paired rest

abbrev pub put_primary : String → Option String → Map String String → Map String String
put_primary user none primary = primary
put_primary user (some id) primary = insert user id primary

-- The two deletions of ClearPairedDaemon, and the primary chosen anew if it was this machine.
unfoldable pub drop_paired : String → String → Hub → Hub
unfolding delete insert next_primary text_at
drop_paired user id h =
    let paired = delete id h.paired in
    let users = delete id h.paired_users in
    let primary =
      if text_at user h.primary == id
      then put_primary user (next_primary user paired users) (delete user h.primary)
      else h.primary in
    record h { paired = paired; paired_users = users; primary = primary }

unfoldable pub clear_paired_daemon : World → String → String → ℕ → Sys → Sys × Bool
unfolding lookup is_current drop_paired close broadcast_to daemon_event providers_event
clear_paired_daemon w user id c s =
    if is_current c (lookup id s.hub.paired)
    then (let s₁ = close c (record s { hub = drop_paired user id s.hub }) in
        let s₂ = broadcast_to w user (daemon_event w s₁.hub user) s₁ in
        (broadcast_to w user (providers_event s₂.hub user) s₂, true))
    else (close c s, false)

-- A write through the *machine under a key of a map.
unfoldable pub update_at : (Machine → Machine) → String → Map String Machine → Map String Machine
unfolding lookup insert
update_at f k m = elim (lookup k m) [ none ↦ m | some x ↦ insert k (f x) m ]

unfoldable pub set_paired_providers : World → String → String → List Provider → Sys → Sys
unfolding lookup update_at broadcast_to providers_event
set_paired_providers w user id p s =
    let s₁ : Sys = record s {
      hub = record s.hub { paired = update_at (λ m. record m { providers = p }) id s.hub.paired };
    } in
    if is_some (lookup id s.hub.paired)
    then broadcast_to w user (providers_event s₁.hub user) s₁
    else s

unfoldable pub disconnect_machine : String → Sys → Sys
unfolding lookup close_old
disconnect_machine id s = close_old (lookup id s.hub.paired) s

-- The legacy machine if the account has one, and its primary otherwise.
unfoldable pub update_current : (Machine → Machine) → String → Hub → Hub
unfolding lookup update_at text_at
update_current f user h =
    if is_some (lookup user h.machines)
    then record h { machines = update_at f user h.machines }
    else if not (text_at user h.primary == "")
    then record h { paired = update_at f (text_at user h.primary) h.paired }
    else h

unfoldable pub set_providers : World → String → List Provider → Sys → Sys
unfolding update_current current_machine broadcast_to providers_event
set_providers w user p s =
    let s₁ : Sys = record s { hub = update_current (λ m. record m { providers = p }) user s.hub } in
    if is_some (current_machine s.hub user)
    then broadcast_to w user (providers_event s₁.hub user) s₁
    else s

-- The loop of SetHeadroom, up to its `break`.
unfoldable pub with_headroom : String → Option Headroom → List Provider → List Provider
with_headroom id head [] = []
with_headroom id head (p ∷ ps) =
    if p.id == id then record p { headroom = head } ∷ ps else p ∷ with_headroom id head ps

unfoldable pub has_provider : String → List Provider → Bool
has_provider id [] = false
has_provider id (p ∷ ps) = p.id == id || has_provider id ps

abbrev pub knows : String → Option Machine → Bool
knows id none = false
knows id (some m) = has_provider id m.providers

unfoldable pub set_headroom : World → String → String → Option Headroom → Sys → Sys
unfolding lookup update_at with_headroom has_provider broadcast_to providers_event
set_headroom w user id head s =
    let s₁ : Sys = record s {
      hub = record s.hub {
        machines =
            update_at (λ m. record m { providers = with_headroom id head m.providers }) user
              s.hub.machines;
      };
    } in
    if knows id (lookup user s.hub.machines)
    then broadcast_to w user (providers_event s₁.hub user) s₁
    else s

-- updates.go.
unfoldable pub set_machine_hello : World → String → String → String → ℤ → Bool → Sys → Sys
unfolding lookup update_at broadcast_to daemon_event
set_machine_hello w user id version proto self_updates s =
    let hello = λ (m : Machine). record m {
      runtime = record m.runtime {
        version = version;
        protocol = proto;
        self_updates = self_updates;
        reported = true;
      };
    } in
    let s₁ : Sys = record s { hub = record s.hub { paired = update_at hello id s.hub.paired } } in
    if is_some (lookup id s.hub.paired)
    then broadcast_to w user (daemon_event w s₁.hub user) s₁
    else s

unfoldable pub machines_event : ClientEvent
machines_event = record {
  type = event_machines;
  providers = [];
  online = false;
  too_old = false;
  rest = "";
}

unfoldable pub set_machine_update : World → String → String → UpdateStatus → Sys → Sys
unfolding lookup update_at broadcast_to machines_event
set_machine_update w user id status s =
    let s₁ : Sys = record s {
      hub = record s.hub {
        paired =
            update_at (λ m. record m { runtime = record m.runtime { update = status } }) id
              s.hub.paired;
      };
    } in
    if is_some (lookup id s.hub.paired) then broadcast_to w user machines_event s₁ else s

-- files.go.
unfoldable pub set_chats_dir : String → String → String → Sys → Sys
unfolding update_at text_at
set_chats_dir user id dir s =
    let f = λ (m : Machine). record m { runtime = record m.runtime { chats_dir = dir } } in
    if id == ""
    then record s { hub = record s.hub { machines = update_at f user s.hub.machines } }
    else if not (text_at id s.hub.paired_users == user)
    then s
    else record s { hub = record s.hub { paired = update_at f id s.hub.paired } }

-- The end of SendToDaemon, and updates.go's `write`.
unfoldable pub write : World → ℕ → ServerMessage → Sys → Sys × Bool
write w c msg s = elim (w.server_payload msg) [
  | none ↦ (s, false)
  | some payload ↦
      let done = w.write_succeeds s.log c payload in
      (record s { log = wrote c payload done ∷ s.log }, done)
]

abbrev pub write_to : World → Option Machine → ServerMessage → Sys → Sys × Bool
write_to w none msg s = (s, false)
write_to w (some m) msg s = write w m.conn msg s

unfoldable pub send_to_daemon : World → String → ServerMessage → Sys → Sys × Bool
unfolding current_machine write
send_to_daemon w user msg s = write_to w (current_machine s.hub user) msg s

unfoldable pub send_to_machine : World → String → ServerMessage → Sys → Sys × Bool
unfolding lookup write
send_to_machine w id msg s = write_to w (lookup id s.hub.paired) msg s

-- machines_in_workspace.go.
unfoldable pub send_to_running_machine : World → String → String → ServerMessage → Sys → Sys × Bool
unfolding send_to_daemon send_to_machine
send_to_running_machine w user id msg s =
    if id == "" then send_to_daemon w user msg s else send_to_machine w id msg s

unfoldable pub send_to_workspace_daemon :
    World → String → List String → ServerMessage → Sys → Sys × (String × Bool)
unfolding target send_to_daemon send_to_machine
send_to_workspace_daemon w user allowed msg s = elim (target s.hub user allowed) [
  | none ↦ (s, ("", false))
  | some id ↦
      let r = if id == "" then send_to_daemon w user msg s else send_to_machine w id msg s in
      (r.0, (id, r.1))
]
