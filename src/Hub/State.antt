-- ===== src/Hub/State.antt =====
-- hub.go and updates.go: the hub's state, and the sockets that it writes to.
-- A *websocket.Conn is a number. A map entry of pointer type is its target: each machine stands
-- under one key. The lock is held for the whole of each step modelled.
use sparstrowgen.Prelude.{ℕ, string_eq, String, List, [], ◌∷◌, Option, some, none, Bool, false}
use sparstrowgen.Prelude.Maps.{Map, lookup}
use sparstrowgen.Prelude.Int.{ℤ, pos}
use sparstrowgen.Protocol.{Provider, ClientEvent, ServerMessage, DaemonMessage, UpdateStatus}

pub record Client : Type 0 where
  pub user_id : String
  pub session_hash : String

pub record Runtime : Type 0 where
  pub version : String
  pub protocol : ℤ
  pub self_updates : Bool
  pub chats_dir : String
  pub update : UpdateStatus
  pub reported : Bool

-- The zero value of each struct.
abbrev pub no_status : UpdateStatus
no_status = record { kind = ""; version = ""; active_tasks = 0; message = "" }

abbrev pub no_runtime : Runtime
no_runtime = record {
  version = "";
  protocol = pos 0;
  self_updates = false;
  chats_dir = "";
  update = no_status;
  reported = false;
}

pub record Machine : Type 0 where
  pub conn : ℕ
  pub providers : List Provider
  pub runtime : Runtime

-- `reply` is the channel of capacity one.
pub record Waiter : Type 0 where
  pub user_id : String
  pub reply : Option DaemonMessage

pub record Hub : Type 0 where
  pub clients : Map ℕ Client
  pub machines : Map String Machine
  pub paired : Map String Machine
  pub paired_users : Map String String
  pub primary : Map String String
  pub pending : Map String Waiter
  pub next_request : ℕ

unfoldable pub new : Hub
new = record {
  clients = [];
  machines = [];
  paired = [];
  paired_users = [];
  primary = [];
  pending = [];
  next_request = 0;
}

-- What leaves the hub: a payload handed to a socket, with whether the write succeeded, or a close.
pub data Effect : Type 0 where
  wrote : ℕ → String → Bool → Effect
  closed : ℕ → Effect

-- The hub with all that it has done to its sockets, the latest first.
pub record Sys : Type 0 where
  pub hub : Hub
  pub log : List Effect

-- The code that the hub calls: json.Marshal for each message type, the socket's WriteMessage, whose
-- success may depend on all that happened before, strconv.FormatUint in base ten; and
-- protocol.MinDaemonProtocol, a variable.
pub record World : Type 0 where
  pub client_payload : ClientEvent → Option String
  pub server_payload : ServerMessage → Option String
  pub write_succeeds : List Effect → ℕ → String → Bool
  pub format_uint : ℕ → String
  pub min_daemon_protocol : ℤ

-- A read of a missing key of a map[string]string.
unfoldable pub text_at : String → Map String String → String
unfolding lookup
text_at k m = elim (lookup k m) [ none ↦ "" | some v ↦ v ]

-- conn.Close(); its error is dropped.
unfoldable pub close : ℕ → Sys → Sys
close c s = record s { log = closed c ∷ s.log }
