-- ===== src/Api/Runs.antt =====
-- Runs of the handlers of turns on a server with two accounts, whose store keeps the results it is given.
use sparstrowgen.Prelude.{
  ◌≡◌, ◌≢◌, ◌↔◌, refl, subst, String, List, [], ◌∷◌, some, none, true, ne_of_beq, string_eq,
}
use sparstrowgen.Prelude.Int.{pos}
use sparstrowgen.Prelude.Maps.{IsMap, lookup}
use sparstrowgen.Text.{Text, codes}
use sparstrowgen.Protocol.{Model}
use sparstrowgen.Api.State.{Conversation, Entry}
use sparstrowgen.Protocol.Turn.{ContextRecord, TurnMessage, exchange, delta, done, stopped}
use sparstrowgen.Hub.State.{new}
use sparstrowgen.Daemon.Turns.{new_running_turns}
use sparstrowgen.Daemon.RunTurn.{RunTurn, Result, Event, prints, ticks, Computer, run_turn}
use sparstrowgen.Api.State.{TurnResult, Store, Services, Turn, Server}
use sparstrowgen.Api.Turns.{Report, said, handle_daemon_message}
use mathlib.Core.Option.{some-injective}
use sparstrowgen.Hub.Machines.{set_daemon}
use sparstrowgen.Api.Launch.{Posts, Body, sent_turn}
use sparstrowgen.Api.Post.{post_message}
use sparstrowgen.Api.Post.Begun.{IsFresh, Begins, post_message-Begins}
use sparstrowgen.Api.Closing.{abandon_turns, handle_all, of_turn}
use sparstrowgen.Api.Closing.Whole.{handle_all_others}
use sparstrowgen.Api.Closing.Ended.{run_turn_closes}
use sparstrowgen.Api.Closing.Abandoned.{abandon_turns_exact}
use sparstrowgen.Api.Closing.Kept.{grown, handle_all-grown}

abbrev kept_results : Store (List TurnResult)
kept_results = record {
  last_seq = λ c st. pos 1;
  mark_seen = λ c p session seq st. st;
  append_delta = λ e text st. st;
  record_exchange_sent = λ c e x st. (st, true);
  append_exchange_lines = λ e ls d st. (st, true);
  record_exchange_context = λ c e x st. st;
  finish_turn = λ r st. (
    r ∷ st,
    some (record {
      id = r.entry_id;
      role = "agent";
      provider = r.provider;
      text = r.text;
      files = [];
      rest = "";
    }),
  );
  add_usage = λ c a b st. (st, none);
}

abbrev services : Services (List TurnResult)
services = record {
  store = kept_results;
  json = record {
    delta = λ c e text. c;
    entry = λ c e. c;
    conversation = λ c. c.id;
    exchange = λ c e x. c;
  };
  decoder = record {
    claude = λ text. none;
    codex = λ text. none;
    agy = λ text. none;
    named = λ text. none;
    plain = λ text. none;
  };
  world = record {
    client_payload = λ ev. some ev.type;
    server_payload = λ msg. some msg.type;
    write_succeeds = λ past c payload. true;
    format_uint = λ n. "r1";
    min_daemon_protocol = pos 2;
  };
}

abbrev ann : String
ann = "ann"

abbrev bob : String
bob = "bob"

abbrev t1 : String
t1 = "t1"

abbrev t2 : String
t2 = "t2"

bob-ann : bob ≢ ann
bob-ann = ne_of_beq bob ann refl

abbrev turn_of : String → String → Turn
turn_of user id = record {
  user_id = user;
  conversation_id = "c1";
  entry_id = id;
  provider = "claude";
  model = record { id = ""; label = ""; description = "" };
  machine_id = "m1";
  streamed = [];
  report = record {
    provider = "claude";
    r = record {
      cli_version = "";
      model = "";
      permission_mode = "";
      cwd = "";
      session_id = "";
      tools = [];
      skills = [];
      agents = [];
      mcp_servers = [];
      usage = none;
    };
  };
  files = [];
}

-- A turn of each account.
unfoldable server : Server (List TurnResult)
unfolding new
server = record {
  turns = (t1, turn_of ann t1) ∷ (t2, turn_of bob t2) ∷ [];
  sys = record { hub = new; log = [] };
  store = [];
}

abbrev reports : List Report
reports =
    said t1 (delta (codes "ok"))
    ∷ said t2 (stopped [] (pos 0) (pos 0) "")
    ∷ said t1 (done (codes "ok") (pos 7) (pos 0) "s1")
    ∷ []

handle_all_others_example :
    lookup t2 (handle_all services ann reports server).turns ≡ some (turn_of bob t2)
unfolding server lookup
handle_all_others_example =
    handle_all_others services ann reports server t2 (turn_of bob t2) refl bob-ann

turns-IsMap : IsMap server.turns
unfolding server lookup
turns-IsMap = (refl, (refl, tt))

abandon_turns_exact_example :
    (lookup t2 (abandon_turns services ann (codes "gone") server).turns ≡ some (turn_of bob t2))
    ↔ ((lookup t2 server.turns ≡ some (turn_of bob t2)) × (bob ≢ ann))
abandon_turns_exact_example =
    abandon_turns_exact services ann (codes "gone") server t2 (turn_of bob t2) turns-IsMap

abbrev spoken : List TurnMessage
spoken =
    delta (codes "o")
    ∷ exchange none (record { seq = 1; at_ms = 5; stream = "stdout"; text = codes "{}" } ∷ []) none
        none
    ∷ delta (codes "k")
    ∷ []

handle_all-grown_example :
    lookup t1 (handle_all services ann (of_turn t1 spoken) server).turns
    ≡ some (grown services.decoder spoken (turn_of ann t1))
unfolding server lookup
handle_all-grown_example =
    handle_all-grown services ann t1 spoken server (turn_of ann t1)
      (record { sent_ok = λ c e x st. refl; lines_ok = λ e ls d st. refl }) refl refl
      (refl, (refl, (refl, tt)))

abbrev computer : Computer
computer = record {
  bare_prompt = codes "hi";
  prompt = codes "hi";
  files_error = none;
  has_backend = true;
  no_adapter = [];
  folder_problem = [];
  execute = none;
  session_sent = record {
    program = "claude";
    args = [];
    cwd = "/work";
    resume_session_id = "";
    prompt = codes "hi";
    stdin = [];
    launched = true;
  };
  idle_budget = codes "5m0s";
}

abbrev turn : RunTurn
turn = record { turn_id = t1; provider = "claude"; cwd = "/work"; resume_session_id = "" }

abbrev events : List Event
events = prints (record { stream = "stdout"; at_ms = 5; text = codes "ok"; cut = 0 }) ∷ ticks ∷ []

abbrev result : Result
result = record {
  text = codes "ok";
  session_id = "s1";
  tokens = pos 7;
  spend_ticks = pos 0;
  err = none;
}

abbrev context : ContextRecord
context = record { from = ""; documents = []; error = [] }

run_turn_closes_example :
    let after =
      handle_all services ann
        (of_turn t1 (run_turn computer turn 3 [] events result context new_running_turns).0)
        server in
    (lookup t1 after.turns ≡ none)
    × ((j : String) → j ≢ t1 → lookup j after.turns ≡ lookup j server.turns)
    × ((other : String) (m : TurnMessage)
        → (handle_daemon_message services other (said t1 m) after).turns ≡ after.turns)
unfolding server lookup
run_turn_closes_example =
    run_turn_closes services ann server computer turn 3 [] events result context new_running_turns
      refl

abbrev no_model : Model
no_model = record { id = ""; label = ""; description = "" }

abbrev entry_of : String → Text → Entry
entry_of id text = record {
  id = id;
  role = "agent";
  provider = "claude";
  text = text;
  files = [];
  rest = "";
}

abbrev conversation : Conversation
conversation = record {
  id = "c1";
  workspace_id = "w1";
  provider = "claude";
  model = no_model;
  title = "";
  folder = "/work";
  rest = "";
}

-- A store whose next entry is t9, with one message that claude has not seen.
abbrev posts : Posts (List TurnResult)
posts = record {
  get = λ user id st. some conversation;
  machines_in = λ user w st. some [];
  unseen = λ id p st. some (entry_of "e1" (codes "before") ∷ []);
  append_replay = λ id p model n tokens st. (st, some (entry_of "e2" []));
  name_from = λ user id text st. st;
  set_provider = λ user id p model st. (st, some conversation);
  append_user = λ id text st. (st, some (entry_of "e3" text));
  attach_files = λ id e ids st. (st, some []);
  files = λ id st. some [];
  append_agent_placeholder = λ id p model st. (st, some (entry_of "t9" []));
  resume_id = λ id p st. "";
  run_turn_json = λ l. l.turn_id;
}

abbrev body : Body
body = record { text = codes "hello"; provider = ""; model = no_model; file_ids = [] }

-- Ann's daemon is connected.
unfoldable connected : Server (List TurnResult)
unfolding server set_daemon
connected = record server { sys = set_daemon services.world ann 7 server.sys }

placeholder-IsFresh : IsFresh posts connected.turns
unfolding connected lookup server
placeholder-IsFresh id provider model store e h =
    subst (λ z. lookup z.id connected.turns ≡ none) (some-injective _ _ h) refl

post_message_run : (post_message services posts ann "c1" body connected).1 ≡ sent_turn "t9"
unfolding connected post_message
post_message_run = refl

post_message-Begins_example :
    Begins ann connected.turns (post_message services posts ann "c1" body connected)
post_message-Begins_example =
    post_message-Begins services posts ann "c1" body connected placeholder-IsFresh
