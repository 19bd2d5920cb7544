-- ===== src/Hub/Routing.antt =====
-- hub.go, updates.go, machines_in_workspace.go, files.go: which machine an account's or a
-- workspace's work goes to, and what is known of it. Reads of the state only.
use sparstrowgen.Prelude.{
  String, List, [], ◌∷◌, Option, some, none, Bool, true, false, not, ◌&&◌, ◌||◌, ◌==◌, string_eq,
  nat_eq, if◌then◌else◌, is_some,
}
use sparstrowgen.Prelude.Maps.{Map, lookup}
use sparstrowgen.Prelude.Int.{ltz}
use sparstrowgen.Protocol.{
  Provider, ClientEvent, update_unchecked, files_protocol, event_daemon, event_providers,
}
use sparstrowgen.Hub.State.{Machine, Runtime, no_runtime, Hub, World, text_at}

-- The two lines that SetProviders, Providers, SendToDaemon and DaemonTooOld share.
unfoldable pub current_machine : Hub → String → Option Machine
unfolding lookup text_at
current_machine h user = elim (lookup user h.machines) [
  | some m ↦ some m
  | none ↦ let id = text_at user h.primary in if not (id == "") then lookup id h.paired else none
]

-- The loop of DaemonOnline over pairedUsers.
unfoldable pub any_paired : String → Map String Machine → Map String String → Bool
unfolding lookup
any_paired user paired [] = false
any_paired user paired ((id, owner) ∷ rest) =
    (owner == user && is_some (lookup id paired)) || any_paired user paired rest

unfoldable pub daemon_online : Hub → String → Bool
unfolding any_paired
daemon_online h user =
    if is_some (lookup user h.machines) then true else any_paired user h.paired h.paired_users

abbrev pub providers_of : Option Machine → List Provider
providers_of none = []
providers_of (some m) = m.providers

unfoldable pub providers : Hub → String → List Provider
unfolding current_machine
providers h user = providers_of (current_machine h user)

unfoldable pub machine_online : Hub → String → Bool
unfolding lookup
machine_online h id = is_some (lookup id h.paired)

unfoldable pub machine_providers : Hub → String → List Provider
unfolding lookup
machine_providers h id = providers_of (lookup id h.paired)

unfoldable pub too_old : World → Machine → Bool
too_old w m = m.runtime.reported && ltz m.runtime.protocol w.min_daemon_protocol

abbrev pub old : World → Option Machine → Bool
old w none = false
old w (some m) = too_old w m

unfoldable pub machine_too_old : World → Hub → String → Bool
unfolding lookup too_old
machine_too_old w h id = old w (lookup id h.paired)

unfoldable pub daemon_too_old : World → Hub → String → Bool
unfolding current_machine too_old
daemon_too_old w h user = old w (current_machine h user)

unfoldable pub daemon_event : World → Hub → String → ClientEvent
unfolding daemon_online daemon_too_old
daemon_event w h user = record {
  type = event_daemon;
  providers = [];
  online = daemon_online h user;
  too_old = daemon_too_old w h user;
  rest = "";
}

unfoldable pub online_event : Bool → ClientEvent
online_event on = record {
  type = event_daemon;
  providers = [];
  online = on;
  too_old = false;
  rest = "";
}

unfoldable pub providers_event : Hub → String → ClientEvent
unfolding providers
providers_event h user = record {
  type = event_providers;
  providers = providers h user;
  online = false;
  too_old = false;
  rest = "";
}

abbrev pub runtime_of : Option Machine → Runtime
runtime_of none = no_runtime
runtime_of (some m) = m.runtime

unfoldable pub machine_runtime : Hub → String → Runtime
unfolding lookup
machine_runtime h id =
    let r = runtime_of (lookup id h.paired) in
    if r.update.kind == ""
    then record r { update = record r.update { kind = update_unchecked } }
    else r

-- files.go.
unfoldable pub machine_for : Hub → String → String → Option Machine
unfolding lookup text_at
machine_for h user id =
    if id == ""
    then lookup user h.machines
    else if not (text_at id h.paired_users == user)
    then none
    else lookup id h.paired

unfoldable pub chats_dir : Hub → String → String → String
unfolding machine_for
chats_dir h user id = (runtime_of (machine_for h user id)).chats_dir

abbrev pub speaks_files : Option Machine → Bool
speaks_files none = false
speaks_files (some m) = m.runtime.reported && not (ltz m.runtime.protocol files_protocol)

unfoldable pub supports_files : Hub → String → String → Bool
unfolding lookup
supports_files h user id = if id == "" then true else speaks_files (lookup id h.paired)

-- machines_in_workspace.go. `none` is the false answer; the empty id is the account-wide daemon.
unfoldable pub is_usable : Hub → String → String → Bool
unfolding lookup text_at
is_usable h user id = is_some (lookup id h.paired) && text_at id h.paired_users == user

unfoldable pub first_primary : Hub → String → String → List String → Option String
unfolding is_usable
first_primary h user primary [] = none
first_primary h user primary (id ∷ ids) =
    if id == primary && is_usable h user id then some id else first_primary h user primary ids

unfoldable pub first_usable : Hub → String → List String → Option String
unfolding is_usable
first_usable h user [] = none
first_usable h user (id ∷ ids) = if is_usable h user id then some id else first_usable h user ids

unfoldable pub target : Hub → String → List String → Option String
unfolding lookup first_primary first_usable text_at
target h user allowed =
    if is_some (lookup user h.machines)
    then some ""
    else elim (first_primary h user (text_at user h.primary) allowed) [
      | some id ↦ some id
      | none ↦ first_usable h user allowed
    ]

unfoldable pub online_in : Hub → String → List String → Bool
unfolding target
online_in h user allowed = is_some (target h user allowed)

unfoldable pub providers_in : Hub → String → List String → List Provider
unfolding target providers machine_providers
providers_in h user allowed = elim (target h user allowed) [
  | none ↦ []
  | some id ↦ if id == "" then providers h user else machine_providers h id
]
