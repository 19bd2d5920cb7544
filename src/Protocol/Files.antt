-- ===== src/Protocol/Files.antt =====
-- server/internal/protocol/files.go and protocol.go: a conversation's files, in an entry, in a turn and
-- in a replay.
use sparstrowgen.Prelude.{String, List, Bool}
use sparstrowgen.Prelude.Int.{ℤ}
use sparstrowgen.Text.{Text}

pub record ConversationFile : Type 0 where
  pub id : String
  pub conversation_id : String
  pub entry_id : String
  pub origin : String
  pub name : String
  pub media_type : String
  pub size : ℤ
  pub created_at : String

pub record TurnFile : Type 0 where
  pub id : String
  pub origin : String
  pub name : String
  pub size : ℤ
  pub sha256 : String
  pub media_type : String
  pub attached : Bool

pub record ReplayFile : Type 0 where
  pub origin : String
  pub name : String

pub record ReplayEntry : Type 0 where
  pub role : String
  pub provider : String
  pub text : Text
  pub files : List ReplayFile
