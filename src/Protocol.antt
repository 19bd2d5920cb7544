-- ===== src/Protocol.antt =====
-- server/internal/protocol: the messages between server, daemon and browser, as far as the hub and
-- the updater read them. What neither of them reads is kept whole as JSON text, in `rest`.
pub mod Turn
pub mod Report
pub mod Files
use sparstrowgen.Prelude.{ℕ, String, List, Option, Bool}
use sparstrowgen.Prelude.Int.{ℤ, pos}

pub record Model : Type 0 where
  pub id : String
  pub label : String
  pub description : String

pub record Headroom : Type 0 where
  pub status : String
  pub resets_at : ℤ
  pub window : String

pub record Provider : Type 0 where
  pub id : String
  pub label : String
  pub models : List Model
  pub model : Option Model
  pub availability : String
  pub unavailable_reason : String
  pub headroom : Option Headroom
  pub reports_usd : Bool
  pub reports_limits : Bool
  pub streams : Bool
  pub routes : Bool

pub record UpdateStatus : Type 0 where
  pub kind : String
  pub version : String
  pub active_tasks : ℕ
  pub message : String

abbrev pub update_unchecked : String
update_unchecked = "unchecked"

abbrev pub update_current : String
update_current = "current"

abbrev pub update_available : String
update_available = "available"

abbrev pub update_waiting : String
update_waiting = "waiting"

abbrev pub update_updating : String
update_updating = "updating"

abbrev pub update_failed : String
update_failed = "failed"

-- The daemon protocol that understands files.
abbrev pub files_protocol : ℤ
files_protocol = pos 2

-- What the server sends a daemon.
pub record ServerMessage : Type 0 where
  pub type : String
  pub turn : Option String
  pub turn_id : String
  pub request_id : String
  pub path : String
  pub root : String
  pub automatic : Option Bool

-- What a daemon sends the server.
pub record DaemonMessage : Type 0 where
  pub type : String
  pub request_id : String
  pub rest : String

-- What the server sends a browser.
pub record ClientEvent : Type 0 where
  pub type : String
  pub providers : List Provider
  pub online : Bool
  pub too_old : Bool
  pub rest : String

abbrev pub event_daemon : String
event_daemon = "daemon"

abbrev pub event_providers : String
event_providers = "providers"

abbrev pub event_machines : String
event_machines = "machines"
