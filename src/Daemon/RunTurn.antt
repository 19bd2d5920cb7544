-- ===== src/Daemon/RunTurn.antt =====
-- main.go, runTurn: one turn on the person's computer, from the refusals to its ending. What the
-- computer answers is given: whether files could be prepared, whether there is an adapter and a usable
-- folder, how the CLI was started, what it printed and when, and its result. The calls that other
-- goroutines make on the running turns, while this turn is one of them, are given as a list. The texts
-- that the daemon words itself are code points. Uploads of what the agent made are left out: they are
-- requests of their own, not messages on the socket.
pub mod Takes
pub mod Progress
pub mod Whole
pub mod Ending
pub mod Once
mod Runs
use sparstrowgen.Prelude.{
  ℕ, String, List, [], ◌∷◌, ◌++◌, Option, some, none, Bool, true, false, not, if◌then◌else◌,
}
use sparstrowgen.Prelude.Int.{ℤ, pos}
use sparstrowgen.Text.{Text, codes}
use sparstrowgen.Protocol.{Headroom}
use sparstrowgen.Protocol.Turn.{
  ExchangeSent, ContextRecord, TurnMessage, started, delta, limit, done, stopped, failed,
}
use sparstrowgen.Daemon.Exchange
use sparstrowgen.Daemon.Exchange.{
  Line, ExchangeRecord, new_exchange_record, sent, add, flush, is_empty,
}
use sparstrowgen.Daemon.Turns
use sparstrowgen.Daemon.Turns.{Turns, Call, begin, end, closed_for_update}

-- protocol.RunTurn, as far as it is read here.
pub record RunTurn : Type 0 where
  pub turn_id : String
  pub provider : String
  pub cwd : String
  pub resume_session_id : String

-- agent.Result.
pub record Result : Type 0 where
  pub text : Text
  pub session_id : String
  pub tokens : ℤ
  pub spend_ticks : ℤ
  pub err : Option Text

-- agent.Message and the two timers, as the loop receives them.
pub data Event : Type 0 where
  prints : Line → Event
  starts : String → Event
  streams : Text → Event
  limits : Option Headroom → Event
  ticks idles : Event

-- The computer's answers. `bare_prompt` is what buildPrompt makes without files.
pub record Computer : Type 0 where
  pub bare_prompt : Text
  pub prompt : Text
  pub files_error : Option Text
  pub has_backend : Bool
  pub no_adapter : Text
  pub folder_problem : Text
  pub execute : Option Text
  pub session_sent : ExchangeSent
  pub idle_budget : Text

unfoldable pub not_launched : RunTurn → Text → ExchangeSent
not_launched t prompt = record {
  program = t.provider;
  args = [];
  cwd = t.cwd;
  resume_session_id = t.resume_session_id;
  prompt = prompt;
  stdin = [];
  launched = false;
}

-- The loop's state, with what has been sent so far.
pub record Running : Type 0 where
  pub exchange : ExchangeRecord
  pub went_quiet : Bool
  pub log : List TurnMessage

unfoldable pub flush_running : Running → Running
unfolding flush
flush_running s = let (r, ms) = flush s.exchange in record s { exchange = r; log = s.log ++ ms }

unfoldable pub take_event : String → Event → Running → Running
unfolding add flush_running
take_event provider (prints l) s =
    let (r, big) = add l s.exchange in
    let s' : Running = record s { exchange = r } in if big then flush_running s' else s'
take_event provider (starts session) s = record s { log = s.log ++ (started session ∷ []) }
take_event provider (streams text) s = record s { log = s.log ++ (delta text ∷ []) }
take_event provider (limits head) s = record s { log = s.log ++ (limit provider head ∷ []) }
take_event provider ticks s = flush_running s
take_event provider idles s = record s { went_quiet = true }

unfoldable pub drain : String → List Event → Running → Running
unfolding take_event
drain provider [] s = s
drain provider (e ∷ es) s = drain provider es (take_event provider e s)

-- The switch at the end.
unfoldable pub ending : Computer → RunTurn → Bool → Bool → Result → TurnMessage
ending c t true quiet r = stopped r.text r.tokens r.spend_ticks r.session_id
ending c t false true r = failed r.text (
    codes t.provider
    ++ codes " stopped responding — nothing arrived for "
    ++ c.idle_budget
    ++ codes ", so it was ended")
ending c t false false r = elim r.err [
  | some err ↦ failed r.text err
  | none ↦ done r.text r.tokens r.spend_ticks r.session_id
]

-- From the CLI's start on: `t'` is the running turns when it has ended.
unfoldable pub watch :
    Computer → RunTurn → List Event → Result → ContextRecord → Turns → List TurnMessage × Turns
unfolding sent drain flush_running Exchange.context end ending
watch c t es result ctx turns =
    let s = flush_running (
      drain t.provider es (record {
        exchange = new_exchange_record;
        went_quiet = false;
        log = sent c.session_sent;
      })) in
    let (turns', was_stopped) = end t.turn_id turns in
    (s.log ++ Exchange.context ctx ++ (ending c t was_stopped s.went_quiet result ∷ []), turns')

abbrev pub no_text : Text
no_text = []

-- Before the CLI has started: `Execute` answers an error.
unfoldable pub not_started : Computer → RunTurn → Text → Turns → List TurnMessage × Turns
unfolding sent end not_launched
not_started c t err turns =
    let (turns', was_stopped) = end t.turn_id turns in
    (
      sent (not_launched t c.prompt)
          ++ ((if was_stopped then stopped no_text (pos 0) (pos 0) "" else failed no_text err)
              ∷ []),
      turns',
    )

abbrev pub execute_turn :
    Computer
    → RunTurn
    → List Event
    → Result
    → ContextRecord
    → Option Text
    → Turns
    → List TurnMessage × Turns
execute_turn c t es result ctx (some err) turns = not_started c t err turns
execute_turn c t es result ctx none turns = watch c t es result ctx turns

abbrev pub refused : Computer → RunTurn → Text → TurnMessage → List TurnMessage
refused c t prompt last = sent (not_launched t prompt) ++ (last ∷ [])

abbrev pub updating : Text
updating =
    codes "this computer is installing a sparstrowgen update — send the message again in a moment"

-- From `d.turns.begin` on.
unfoldable pub begin_turn :
    Computer
    → RunTurn
    → ℕ
    → List Call
    → List Event
    → Result
    → ContextRecord
    → Turns
    → List TurnMessage × Turns
unfolding begin closed_for_update watch not_started Turns.run sent not_launched
begin_turn c t cancel calls es result ctx turns =
    let (turns', begun) = begin t.turn_id cancel turns in
    if begun
    then execute_turn c t es result ctx c.execute (Turns.run calls turns')
    else if closed_for_update turns'
    then (refused c t c.prompt (failed no_text updating), turns')
    else (refused c t c.prompt (stopped no_text (pos 0) (pos 0) ""), turns')

unfoldable pub run_turn :
    Computer
    → RunTurn
    → ℕ
    → List Call
    → List Event
    → Result
    → ContextRecord
    → Turns
    → List TurnMessage × Turns
unfolding begin_turn sent not_launched
run_turn c t cancel calls es result ctx turns = elim c.files_error [
  | some err ↦ (refused c t c.bare_prompt (failed no_text err), turns)
  | none ↦
      if not c.has_backend
      then (refused c t c.prompt (failed no_text c.no_adapter), turns)
      else if not (is_empty c.folder_problem)
      then (refused c t c.prompt (failed no_text c.folder_problem), turns)
      else begin_turn c t cancel calls es result ctx turns
]
