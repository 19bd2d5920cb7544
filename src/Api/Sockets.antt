-- ===== src/Api/Sockets.antt =====
-- sockets.go, daemonSocket: which machine is let in, and what its socket does from its opening to its
-- closing. The handshake itself is outside; a store's error is a none.
pub mod Closed
pub mod Admitted
mod Runs
use sparstrowgen.Prelude.{
  ℕ, String, List, [], ◌∷◌, Option, some, none, Bool, true, false, not, ◌&&◌, ◌==◌, string_eq,
  if◌then◌else◌,
}
use sparstrowgen.Prelude.Int.{ℤ}
use sparstrowgen.Text.{Text}
use sparstrowgen.Protocol.{Provider, UpdateStatus, DaemonMessage, ServerMessage}
use sparstrowgen.Hub.State.{Sys, World}
use sparstrowgen.Hub.Browsers.{broadcast_to}
use sparstrowgen.Hub.Machines.{
  set_daemon, clear_daemon, set_paired_daemon, clear_paired_daemon, set_paired_providers,
  set_chats_dir, set_machine_hello, set_machine_update, send_to_machine, machines_event,
}
use sparstrowgen.Hub.Requests.{deliver}
use sparstrowgen.Api.State.{Services, Server}
use sparstrowgen.Api.Turns.{Report, hello, handle_daemon_message}
use sparstrowgen.Api.Closing.{abandon_turns}

-- A paired computer, as the store has it under its credential.
pub record Paired : Type 0 where
  pub id : String
  pub user_id : String
  pub automatic_updates : Bool

-- What the store answers of the presented credential and of the owner's account.
pub record Credential : Type 0 where
  pub legacy : Bool
  pub paired : Option (Option Paired)
  pub is_refused : Option Bool
  pub owner : Option (Option String)

-- The statuses 503, 403, 401 and 409, or the account that the machine works for.
pub data Admission : Type 0 where
  unavailable disconnected unauthorised no_owner : Admission
  admitted : String → Option Paired → Admission

-- From UserByEmail on.
abbrev pub admit_as : Bool → Option (Option String) → Option Paired → Admission
admit_as legacy none paired = unavailable
admit_as true (some none) paired = no_owner
admit_as true (some (some user)) paired = admitted user paired
admit_as false (some owner) none = admitted "" none
admit_as false (some owner) (some m) = admitted m.user_id (some m)

unfoldable pub admit_owner : Credential → Option Paired → Admission
admit_owner c paired = admit_as c.legacy c.owner paired

unfoldable pub refuse : Credential → Admission
refuse c = elim c.is_refused [
  | none ↦ unavailable
  | some r ↦ if r then disconnected else unauthorised
]

unfoldable pub admit : Credential → Admission
unfolding admit_owner refuse
admit c = elim c.paired [
  | none ↦ unavailable
  | some paired ↦ elim paired [
    | none ↦ if c.legacy then admit_owner c none else refuse c
    | some m ↦ admit_owner c (some m)
  ]
]

unfoldable pub connect :
    {S : Type 0} → Services S → String → Option Paired → ℕ → Server S → Server S
unfolding set_daemon set_paired_daemon machines_event broadcast_to
connect v user none c s = record s { sys = set_daemon v.world user c s.sys }
connect v user (some m) c s = record s {
  sys = broadcast_to v.world user machines_event (set_paired_daemon v.world user m.id c s.sys);
}

-- The deferred function.
unfoldable pub disconnect :
    {S : Type 0} → Services S → String → Option Paired → ℕ → Text → Server S → Server S
unfolding clear_daemon clear_paired_daemon machines_event broadcast_to abandon_turns
disconnect v user none c reason s =
    let (sys, current) = clear_daemon v.world user c s.sys in
    let s' = record s { sys = sys } in
    let over = abandon_turns v user reason s' in if current then over else s'
disconnect v user (some m) c reason s =
    let (sys, current) = clear_paired_daemon v.world user m.id c s.sys in
    let s' = record s { sys = sys } in
    let over =
      abandon_turns v user reason
        (record s { sys = broadcast_to v.world user machines_event sys }) in
    if current then over else s'

-- What a message says, beside what Deliver reads of it.
pub record Hello : Type 0 where
  pub providers : List Provider
  pub chats_dir : String
  pub version : String
  pub protocol : ℤ
  pub self_updates : Bool

pub data Content : Type 0 where
  says_hello : Hello → Content
  updates : UpdateStatus → Content
  reports : Report → Content

unfoldable pub preference : Bool → ServerMessage
preference automatic = record {
  type = "update_preference";
  turn = none;
  turn_id = "";
  request_id = "";
  path = "";
  root = "";
  automatic = some automatic;
}

-- A paired computer's hello. `record_version` is the store's RecordMachineVersion.
unfoldable pub greet :
    {S : Type 0}
    → Services S
    → (String → String → S → S)
    → String
    → Paired
    → Hello
    → Server S
    → Server S
unfolding set_paired_providers set_chats_dir set_machine_hello send_to_machine preference
    machines_event broadcast_to
greet v record_version user m h s =
    let sys₁ = set_machine_hello v.world user m.id h.version h.protocol h.self_updates (
      set_chats_dir user m.id h.chats_dir
        (set_paired_providers v.world user m.id h.providers s.sys)) in
    let sys₂ = (send_to_machine v.world m.id (preference m.automatic_updates) sys₁).0 in
    record s {
      sys = broadcast_to v.world user machines_event sys₂;
      store = if h.version == "" then s.store else record_version m.id h.version s.store;
    }

-- A round of the read loop. An update's status of an unpaired machine names no turn, and is ignored.
unfoldable pub read_message :
    {S : Type 0}
    → Services S
    → (String → String → S → S)
    → String
    → Option Paired
    → DaemonMessage
    → Content
    → Server S
    → Server S
unfolding deliver greet set_machine_update handle_daemon_message
read_message v record_version user paired raw content s =
    let (sys, taken) = deliver user raw s.sys in
    let s' = record s { sys = sys } in
    if taken then s' else elim content [
      | says_hello h ↦ elim paired [
        | some m ↦ greet v record_version user m h s'
        | none ↦ handle_daemon_message v user (hello h.providers h.chats_dir) s'
      ]
      | updates status ↦ elim paired [
        | some m ↦ record s' { sys = set_machine_update v.world user m.id status sys }
        | none ↦ s'
      ]
      | reports r ↦ handle_daemon_message v user r s'
    ]
