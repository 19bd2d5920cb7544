-- ===== src/Api/State.antt =====
-- api.go: what the handlers of turns read and write. The store is an interface here: its state and its
-- operations are given, and each operation that the handlers read an error of answers whether it
-- worked. encoding/json is given by what each event carries beside its type.
use sparstrowgen.Prelude.{String, List, [], Option, Bool, false}
use sparstrowgen.Prelude.Int.{ℤ}
use sparstrowgen.Prelude.Maps.{Map}
use sparstrowgen.Text.{Text}
use sparstrowgen.Protocol.{Model, ClientEvent}
use sparstrowgen.Protocol.Turn.{ExchangeSent, ExchangeLine, ExchangeDropped, ContextRecord}
use sparstrowgen.Protocol.Report.{Exchange}
use sparstrowgen.Protocol.Files.{ConversationFile}
use sparstrowgen.Hub.State.{Sys, World}
use sparstrowgen.Agent.Report.{Decoder, Reporter}

-- protocol.Entry and protocol.Conversation, as far as they are read here.
pub record Entry : Type 0 where
  pub id : String
  pub role : String
  pub provider : String
  pub text : Text
  pub files : List ConversationFile
  pub rest : String

pub record Conversation : Type 0 where
  pub id : String
  pub workspace_id : String
  pub provider : String
  pub model : Model
  pub title : String
  pub folder : String
  pub rest : String

-- store.TurnResult.
pub record TurnResult : Type 0 where
  pub conversation_id : String
  pub entry_id : String
  pub provider : String
  pub text : Text
  pub tokens : ℤ
  pub spend_ticks : ℤ
  pub failure : Text
  pub stopped : Bool

pub record Store (S : Type 0) : Type 0 where
  pub last_seq : String → S → ℤ
  pub mark_seen : String → String → String → ℤ → S → S
  pub append_delta : String → Text → S → S
  pub record_exchange_sent : String → String → ExchangeSent → S → S × Bool
  pub append_exchange_lines : String → List ExchangeLine → Option ExchangeDropped → S → S × Bool
  pub record_exchange_context : String → String → ContextRecord → S → S
  pub finish_turn : TurnResult → S → S × Option Entry
  pub add_usage : String → ℤ → ℤ → S → S × Option Conversation

pub record Json : Type 0 where
  pub delta : String → String → Text → String
  pub entry : String → Entry → String
  pub conversation : Conversation → String
  pub exchange : String → String → Exchange → String

-- All that the handlers call.
pub record Services (S : Type 0) : Type 0 where
  pub store : Store S
  pub json : Json
  pub decoder : Decoder
  pub world : World

pub record Turn : Type 0 where
  pub user_id : String
  pub conversation_id : String
  pub entry_id : String
  pub provider : String
  pub model : Model
  pub machine_id : String
  pub streamed : Text
  pub report : Reporter
  pub files : List ConversationFile

-- The turns, the hub and the store.
pub record Server (S : Type 0) : Type 0 where
  pub turns : Map String Turn
  pub sys : Sys
  pub store : S

-- An event with nothing in it that the hub reads.
unfoldable pub event : String → String → ClientEvent
event type rest = record {
  type = type;
  providers = [];
  online = false;
  too_old = false;
  rest = rest;
}
