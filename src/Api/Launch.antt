-- ===== src/Api/Launch.antt =====
-- api.go and files.go: what a posted message is made into, the body, the turn's files and its catch-up,
-- and what postMessage calls of the store.
use sparstrowgen.Prelude.{
  ℕ, ◌+◌, ◌/◌, String, List, [], ◌∷◌, map, Option, some, none, Bool, false, not, ◌&&◌, ◌||◌, ◌==◌,
  string_eq, if◌then◌else◌, length,
}
use sparstrowgen.Text.{Text, codes}
use sparstrowgen.Protocol.{Model, ServerMessage}
use sparstrowgen.Protocol.Files.{ConversationFile, TurnFile, ReplayFile, ReplayEntry}
use sparstrowgen.Api.State.{Entry, Conversation}

-- store.File.
pub record File : Type 0 where
  pub file : ConversationFile
  pub sha256 : String

pub record Body : Type 0 where
  pub text : Text
  pub provider : String
  pub model : Model
  pub file_ids : List String

-- protocol.RunTurn, as it is sent.
pub record Launch : Type 0 where
  pub turn_id : String
  pub conversation_id : String
  pub entry_id : String
  pub provider : String
  pub model : Model
  pub cwd : String
  pub prompt : Text
  pub resume_session_id : String
  pub replay : List ReplayEntry
  pub files : List TurnFile

pub record Posts (S : Type 0) : Type 0 where
  pub get : String → String → S → Option Conversation
  pub machines_in : String → String → S → Option (List String)
  pub unseen : String → String → S → Option (List Entry)
  pub append_replay : String → String → Model → ℕ → ℕ → S → S × Option Entry
  pub name_from : String → String → Text → S → S
  pub set_provider : String → String → String → Model → S → S × Option Conversation
  pub append_user : String → Text → S → S × Option Entry
  pub attach_files : String → String → List String → S → S × Option (List File)
  pub files : String → S → Option (List File)
  pub append_agent_placeholder : String → String → Model → S → S × Option Entry
  pub resume_id : String → String → S → String
  pub run_turn_json : Launch → String

-- The answers: the turn's id, or why there is none.
pub data Answer : Type 0 where
  sent_turn : String → Answer
  no_conversation no_workspace machine_offline too_old files_need_update store_failed : Answer

abbrev pub chars : List Entry → ℕ
chars [] = 0
chars (e ∷ es) = length e.text + chars es

unfoldable pub estimate_tokens : List Entry → ℕ
estimate_tokens entries = chars entries / 4

unfoldable pub public : List File → List ConversationFile
public fs = map (λ f. f.file) fs

abbrev pub is_sent : String → List File → Bool
is_sent id [] = false
is_sent id (f ∷ fs) = f.file.id == id || is_sent id fs

-- turnFiles: those that wait in a message box are left out. `sent` is a list here.
unfoldable pub turn_files : List File → List File → List TurnFile
turn_files [] attached = []
turn_files (f ∷ files) attached =
    let out = turn_files files attached in
    if f.file.entry_id == "" && not (is_sent f.file.id attached)
    then out
    else record {
      id = f.file.id;
      origin = f.file.origin;
      name = f.file.name;
      size = f.file.size;
      sha256 = f.sha256;
      media_type = f.file.media_type;
      attached = is_sent f.file.id attached;
    }
      ∷ out

unfoldable pub replay_files : Entry → List ReplayFile
replay_files e = map (λ f. record { origin = f.origin; name = f.name }) e.files

unfoldable pub replay_of : List Entry → List ReplayEntry
unfolding replay_files
replay_of es =
    map
      (λ e. record { role = e.role; provider = e.provider; text = e.text; files = replay_files e })
      es

abbrev pub machine_of : Option String → String
machine_of none = ""
machine_of (some id) = id

unfoldable pub launch_message : String → ServerMessage
launch_message json = record {
  type = "run_turn";
  turn = some json;
  turn_id = "";
  request_id = "";
  path = "";
  root = "";
  automatic = none;
}

abbrev pub offline_text : Text
offline_text = codes "your machine is unreachable, so nothing new can be sent"
