-- ===== src/Daemon/RunTurn/Runs.antt =====
-- Runs of runTurn on a concrete turn.
use sparstrowgen.Prelude.{
  ◌≡◌, ◌≢◌, ◌≤◌, refl, String, List, [], ◌∷◌, some, none, true, false, ne_of_beq, string_eq, length,
  ◌+◌,
}
use sparstrowgen.Prelude.Int.{pos}
use sparstrowgen.Prelude.Maps.{lookup}
use sparstrowgen.Text.{codes}
use sparstrowgen.Protocol.Turn.{TurnMessage, ExchangeSent, ContextRecord}
use sparstrowgen.Daemon.Exchange.{Line, exchange_budget}
use sparstrowgen.Daemon.Exchange.Record.{
  lines_of, record_of, line_bytes, printed_bytes, Consecutive,
}
use sparstrowgen.Daemon.Turns.{Call, stops, begins, new_running_turns, begin, is_asked}
use sparstrowgen.Daemon.Turns.Stops.{has_stop}
use sparstrowgen.Daemon.RunTurn.{
  RunTurn, Result, Event, prints, streams, ticks, idles, starts, Computer, watch, run_turn,
}
use sparstrowgen.Daemon.RunTurn.Takes.{printed}
use sparstrowgen.Daemon.RunTurn.Ending.{last_message, went_idle}
use sparstrowgen.Daemon.RunTurn.Once.{ends_once, run_turn_ends, TellsEnd, run_turn_reports}
use sparstrowgen.Daemon.RunTurn.Whole.{told, watch_record}

abbrev turn : RunTurn
turn = record { turn_id = "t1"; provider = "claude"; cwd = "/work"; resume_session_id = "" }

abbrev session_sent : ExchangeSent
session_sent = record {
  program = "claude";
  args = "-p" ∷ [];
  cwd = "/work";
  resume_session_id = "";
  prompt = codes "hi";
  stdin = [];
  launched = true;
}

abbrev computer : Computer
computer = record {
  bare_prompt = codes "hi";
  prompt = codes "hi";
  files_error = none;
  has_backend = true;
  no_adapter = [];
  folder_problem = [];
  execute = none;
  session_sent = session_sent;
  idle_budget = codes "5m0s";
}

abbrev line : Line
line = record { stream = "stdout"; at_ms = 12; text = codes "ok"; cut = 3 }

abbrev events : List Event
events = starts "s1" ∷ prints line ∷ ticks ∷ streams (codes "ok") ∷ prints line ∷ idles ∷ []

abbrev result : Result
result = record {
  text = codes "ok";
  session_id = "s1";
  tokens = pos 7;
  spend_ticks = pos 0;
  err = none;
}

abbrev context : ContextRecord
context = record { from = ""; documents = []; error = [] }

-- Another turn begins and this one is stopped, while it runs.
abbrev calls : List Call
calls = begins "t2" 4 ∷ stops "t1" ∷ []

abbrev one : String
one = "t1"

abbrev two : String
two = "t2"

t2_t1 : two ≢ one
t2_t1 = ne_of_beq two one refl

watch_record_example :
    let ms = (watch computer turn events result context new_running_turns).0 in
    (lines_of ms ≡ record_of 0 0 (printed events))
    × Consecutive 0 (lines_of ms)
    × (line_bytes (lines_of ms) ≤ exchange_budget)
    × (length (lines_of ms) + (told ms).lines ≡ length (printed events))
    × (line_bytes (lines_of ms) + (told ms).bytes ≡ printed_bytes (printed events))
watch_record_example = watch_record computer turn events result context new_running_turns

run_turn_ends_example :
    ends_once (run_turn computer turn 3 calls events result context new_running_turns).0 ≡ true
run_turn_ends_example = run_turn_ends computer turn 3 calls events result context new_running_turns

begun : (begin "t1" 3 new_running_turns).1 ≡ true
unfolding begin new_running_turns
begun = refl

run_turn_reports_example :
    let (ms, after) = run_turn computer turn 3 calls events result context new_running_turns in
    ((m : TurnMessage) × (last_message ms ≡ some m) × TellsEnd computer turn true true result m)
    × (lookup "t1" after.cancel ≡ none)
    × (is_asked "t1" after ≡ false)
unfolding has_stop went_idle
run_turn_reports_example =
    run_turn_reports computer turn 3 calls events result context new_running_turns refl refl refl
      refl begun (t2_t1, (tt, tt))
