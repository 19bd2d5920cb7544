-- ===== src/Protocol/Turn.antt =====
-- server/internal/protocol/protocol.go: what a daemon says of one turn. A DaemonMessage that carries a
-- turn id is a constructor for its Type, with the fields that the type is sent with.
use sparstrowgen.Prelude.{ℕ, String, List, Option, Bool}
use sparstrowgen.Prelude.Int.{ℤ}
use sparstrowgen.Text.{Text}
use sparstrowgen.Protocol.{Headroom}

-- What the daemon handed the CLI.
pub record ExchangeSent : Type 0 where
  pub program : String
  pub args : List String
  pub cwd : String
  pub resume_session_id : String
  pub prompt : Text
  pub stdin : Text
  pub launched : Bool

-- `seq` is the 32 bits of an int32.
pub record ExchangeLine : Type 0 where
  pub seq : ℕ
  pub at_ms : ℕ
  pub stream : String
  pub text : Text

pub record ExchangeDropped : Type 0 where
  pub lines : ℕ
  pub bytes : ℕ

pub record ContextDocument : Type 0 where
  pub kind : String
  pub body : Text

pub record ContextRecord : Type 0 where
  pub from : String
  pub documents : List ContextDocument
  pub error : Text

pub data TurnMessage : Type 0 where
  exchange :
      Option ExchangeSent
      → List ExchangeLine
      → Option ExchangeDropped
      → Option ContextRecord
      → TurnMessage
  started : String → TurnMessage
  delta : Text → TurnMessage
  limit : String → Option Headroom → TurnMessage
  done stopped : Text → ℤ → ℤ → String → TurnMessage
  failed : Text → Text → TurnMessage
