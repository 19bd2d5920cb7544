-- ===== src/Api/Closing.antt =====
-- api.go: a turn is stopped by its person, or abandoned because its computer went away.
pub mod Gone
pub mod Whole
pub mod Ended
pub mod Abandoned
pub mod Kept
use sparstrowgen.Prelude.{
  ℕ, String, List, [], ◌∷◌, Option, some, none, Bool, true, false, not, ◌==◌, string_eq,
  if◌then◌else◌,
}
use sparstrowgen.Prelude.Maps.{Map, lookup}
use sparstrowgen.Prelude.Int.{pos}
use sparstrowgen.Text.{Text}
use sparstrowgen.Protocol.{ServerMessage}
use sparstrowgen.Protocol.Turn.{TurnMessage}
use sparstrowgen.Hub.Machines.{send_to_running_machine}
use sparstrowgen.Api.State.{Services, Turn, Server}
use sparstrowgen.Api.Turns.{finish_turn, Report, said, handle_daemon_message}

-- The ids that abandonTurns collects, in the order that `range` meets them.
unfoldable pub ids_of : String → Map String Turn → List String
ids_of user [] = []
ids_of user ((id, t) ∷ rest) =
    let more = ids_of user rest in if t.user_id == user then id ∷ more else more

unfoldable pub abandon_each : {S : Type 0} → Services S → List String → Text → Server S → Server S
unfolding lookup finish_turn
abandon_each v [] reason s = s
abandon_each v (id ∷ ids) reason s = abandon_each v ids reason (elim (lookup id s.turns) [
  | none ↦ s
  | some t ↦ finish_turn v id t.streamed (pos 0) (pos 0) reason false s
])

unfoldable pub abandon_turns : {S : Type 0} → Services S → String → Text → Server S → Server S
unfolding ids_of abandon_each
abandon_turns v user reason s = abandon_each v (ids_of user s.turns) reason s

-- stopTurn's three answers: 202, 409 and 503.
pub data StopAnswer : Type 0 where
  accepted not_running offline : StopAnswer

unfoldable pub stop_message : String → ServerMessage
stop_message id = record {
  type = "stop_turn";
  turn = none;
  turn_id = id;
  request_id = "";
  path = "";
  root = "";
  automatic = none;
}

unfoldable pub send_stop :
    {S : Type 0} → Services S → String → Turn → Server S → Server S × StopAnswer
unfolding send_to_running_machine stop_message
send_stop v id t s =
    let (sys, reached) =
      send_to_running_machine v.world t.user_id t.machine_id (stop_message id) s.sys in
    (record s { sys = sys }, if reached then accepted else offline)

unfoldable pub stop_turn :
    {S : Type 0} → Services S → String → String → Server S → Server S × StopAnswer
unfolding lookup send_stop
stop_turn v user id s = elim (lookup id s.turns) [
  | none ↦ (s, not_running)
  | some t ↦ if t.user_id == user then send_stop v id t s else (s, not_running)
]

-- What the read loop of one account's machine hands on, in order.
unfoldable pub handle_all : {S : Type 0} → Services S → String → List Report → Server S → Server S
unfolding handle_daemon_message
handle_all v user [] s = s
handle_all v user (m ∷ ms) s = handle_all v user ms (handle_daemon_message v user m s)

abbrev pub of_turn : String → List TurnMessage → List Report
of_turn id [] = []
of_turn id (m ∷ ms) = said id m ∷ of_turn id ms
