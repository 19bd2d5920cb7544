-- ===== src/Hub/Steps.antt =====
-- hub.go, updates.go, files.go, machines_in_workspace.go: any sequence of the hub's calls. Each is
-- one step, since the state it reads and writes is under the hub's lock.
pub mod Same
pub mod Writes
pub mod Keeps
use sparstrowgen.Prelude.{ℕ, String, ◌≡◌, ◌≢◌, List, [], ◌∷◌, Option, none, some, Bool}
use sparstrowgen.Prelude.Int.{ℤ}
use sparstrowgen.Protocol.{
  Provider, Headroom, UpdateStatus, ServerMessage, DaemonMessage, ClientEvent,
}
use sparstrowgen.Hub.State.{Sys, World, new}
use sparstrowgen.Hub.Browsers.{
  add_client, remove_client, disconnect_user, disconnect_session, broadcast_to,
}
use sparstrowgen.Hub.Machines.{
  set_daemon, clear_daemon, set_paired_daemon, clear_paired_daemon, set_paired_providers,
  disconnect_machine, set_providers, set_headroom, set_machine_hello, set_machine_update,
  set_chats_dir, send_to_daemon, send_to_machine, send_to_workspace_daemon, send_to_running_machine,
}
use sparstrowgen.Hub.Requests.{ask, ask_machine, ask_in, ask_reply, ask_cancel, deliver}

pub data Call : Type 0 where
  adds_client : ℕ → String → String → Call
  removes_client : ℕ → Call
  disconnects_user disconnects_session disconnects_machine : String → Call
  broadcasts : String → ClientEvent → Call
  sets_daemon clears_daemon : String → ℕ → Call
  sets_paired clears_paired : String → String → ℕ → Call
  sets_paired_providers : String → String → List Provider → Call
  sets_providers : String → List Provider → Call
  sets_headroom : String → String → Option Headroom → Call
  says_hello : String → String → String → ℤ → Bool → Call
  sets_update : String → String → UpdateStatus → Call
  sets_chats_dir : String → String → String → Call
  sends : String → ServerMessage → Call
  sends_machine : String → ServerMessage → Call
  sends_workspace : String → List String → ServerMessage → Call
  sends_running : String → String → ServerMessage → Call
  asks : String → ServerMessage → Call
  asks_machine : String → String → ServerMessage → Call
  asks_in : String → List String → ServerMessage → Call
  takes_reply cancels : String → Call
  delivers : String → DaemonMessage → Call

abbrev pub after_reply : Sys → Option (Sys × DaemonMessage) → Sys
after_reply s none = s
after_reply s (some r) = r.0

unfoldable pub step : World → Call → Sys → Sys
step w (adds_client c user session) s = add_client w c user session s
step w (removes_client c) s = remove_client c s
step w (disconnects_user user) s = (disconnect_user user s).0
step w (disconnects_session hash) s = (disconnect_session hash s).0
step w (disconnects_machine id) s = disconnect_machine id s
step w (broadcasts user ev) s = broadcast_to w user ev s
step w (sets_daemon user c) s = set_daemon w user c s
step w (clears_daemon user c) s = (clear_daemon w user c s).0
step w (sets_paired user id c) s = set_paired_daemon w user id c s
step w (clears_paired user id c) s = (clear_paired_daemon w user id c s).0
step w (sets_paired_providers user id p) s = set_paired_providers w user id p s
step w (sets_providers user p) s = set_providers w user p s
step w (sets_headroom user id head) s = set_headroom w user id head s
step w (says_hello user id v p u) s = set_machine_hello w user id v p u s
step w (sets_update user id status) s = set_machine_update w user id status s
step w (sets_chats_dir user id dir) s = set_chats_dir user id dir s
step w (sends user msg) s = (send_to_daemon w user msg s).0
step w (sends_machine id msg) s = (send_to_machine w id msg s).0
step w (sends_workspace user allowed msg) s = (send_to_workspace_daemon w user allowed msg s).0
step w (sends_running user id msg) s = (send_to_running_machine w user id msg s).0
step w (asks user msg) s = (ask w user msg s).0
step w (asks_machine user id msg) s = (ask_machine w user id msg s).0
step w (asks_in user allowed msg) s = (ask_in w user allowed msg s).0
step w (takes_reply id) s = after_reply s (ask_reply id s)
step w (cancels id) s = ask_cancel id s
step w (delivers user m) s = (deliver user m s).0

unfoldable pub run : World → List Call → Sys → Sys
unfolding step
run w [] s = s
run w (c ∷ cs) s = run w cs (step w c s)

abbrev pub initial : Sys
unfolding new
initial = record { hub = new; log = [] }

-- The server names a paired machine only together with the account that it is paired to, and no
-- paired machine has the empty id.
abbrev pub IsHonest : (String → String) → Call → Type 0
IsHonest owner (sets_paired user id c) = (user ≡ owner id) × (id ≢ "")
IsHonest owner (clears_paired user id c) = (user ≡ owner id) × (id ≢ "")
IsHonest owner (adds_client c user session) = Unit {0}
IsHonest owner _ = Unit {0}
