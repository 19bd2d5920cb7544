-- ===== src/Protocol/Report.antt =====
-- server/internal/protocol/protocol.go: a turn's record as a browser is told of it, and what a CLI said
-- about itself during the turn. A pointer is an option.
use sparstrowgen.Prelude.{String, List, [], Option, none, Bool}
use sparstrowgen.Prelude.Int.{ℤ}
use sparstrowgen.Protocol.Turn.{ExchangeSent, ExchangeLine, ExchangeDropped}

pub record ExchangeUsage : Type 0 where
  pub input : ℤ
  pub from_cache : Option ℤ
  pub to_cache : Option ℤ
  pub output : ℤ
  pub reasoning : Option ℤ
  pub total : ℤ

pub record ExchangeReport : Type 0 where
  pub cli_version : String
  pub model : String
  pub permission_mode : String
  pub cwd : String
  pub session_id : String
  pub tools : List String
  pub skills : List String
  pub agents : List String
  pub mcp_servers : List String
  pub usage : Option ExchangeUsage

abbrev pub no_report : ExchangeReport
no_report = record {
  cli_version = "";
  model = "";
  permission_mode = "";
  cwd = "";
  session_id = "";
  tools = [];
  skills = [];
  agents = [];
  mcp_servers = [];
  usage = none;
}

-- Exchange, as a live event: what is new of the record.
pub record Exchange : Type 0 where
  pub entry_id : String
  pub recorded : Bool
  pub sent : Option ExchangeSent
  pub lines : List ExchangeLine
  pub dropped : Option ExchangeDropped
  pub report : Option ExchangeReport
