-- ===== src/Daemon/Updater.antt =====
-- update.go: the daemon keeps itself updated. An installation waits until no agent work is running.
-- A step of `activate` is what it does between two points where turns may begin, end or be stopped in
-- a way that it can see; what follows a check, up to the start of `activate`, is one step.
pub mod Idle
pub mod Single
pub mod Choice
use sparstrowgen.Prelude.{
  ℕ, String, List, [], ◌∷◌, Option, some, none, Bool, true, false, not, ◌&&◌, ◌==◌, ltb, string_eq,
  nat_eq, if◌then◌else◌,
}
use sparstrowgen.Protocol.{
  UpdateStatus, update_unchecked, update_current, update_available, update_waiting, update_updating,
  update_failed,
}
use sparstrowgen.Daemon.Turns
use sparstrowgen.Daemon.Turns.{
  Turns, new_running_turns, count, close_if_idle, reopen, begin, stop, end, cancel_all,
}

pub record ReadyUpdate : Type 0 where
  pub version : String
  pub path : String

pub record Updater : Type 0 where
  pub current : String
  pub automatic : Bool
  pub status : UpdateStatus
  pub ready : Option ReadyUpdate
  pub skip : String
  pub activating : Bool

-- Where the goroutine `activate` stands. `top last` is the head of its loop, `counting` is before
-- `u.turns.count()`, `closing` before closeIfIdle, `starting` before `u.start`; `gone` is after
-- `u.exit()`. The number is the last count announced, none standing for -1.
pub data Phase : Type 0 where
  off gone : Phase
  top counting closing : ReadyUpdate → Bool → Option ℕ → Phase
  starting : ReadyUpdate → Bool → Phase

pub record Daemon : Type 0 where
  pub updater : Updater
  pub turns : Turns
  pub phase : Phase

abbrev pub status_of : String → String → ℕ → String → UpdateStatus
status_of kind version n message = record {
  kind = kind;
  version = version;
  active_tasks = n;
  message = message;
}

unfoldable pub failed_status : String → UpdateStatus
failed_status message = status_of update_failed "" 0 message

-- setStatus; its announcement is a message to the server and is left out.
unfoldable pub set_status : UpdateStatus → Updater → Updater
set_status s u = record u { status = s }

unfoldable pub set_automatic : Bool → Updater → Updater
set_automatic on u = record u { automatic = on }

-- What the updater process left behind: the result file, and the version in the handover file.
pub record UpdateResult : Type 0 where
  pub version : String
  pub message : String

unfoldable pub resume : Option UpdateResult → String → Updater → Updater
unfolding failed_status
resume (some r) handover u = record u { status = failed_status r.message; skip = r.version }
resume none handover u =
    if handover == u.current then record u { status = status_of update_current "" 0 "" } else u

unfoldable pub new_updater : String → Option UpdateResult → String → Updater
unfolding resume
new_updater version result handover = resume result handover (record {
  current = version;
  automatic = true;
  status = status_of update_unchecked "" 0 "";
  ready = none;
  skip = "";
  activating = false;
})

unfoldable pub begin_activation : ReadyUpdate → Bool → Daemon → Daemon
unfolding count set_status
begin_activation r deliberate d =
    if d.updater.activating
    then d
    else (let n = count d.turns in
        let s =
          if ltb 0 n
          then status_of update_waiting r.version n ""
          else status_of update_updating r.version 0 "" in
        record d {
          updater = set_status s (record d.updater { activating = true });
          phase = top r deliberate none;
        })

-- What a check found: the status to show, and the update that is ready, if one is.
abbrev pub Checked : Type 0
Checked = UpdateStatus × Option ReadyUpdate

-- CheckNow and ApplyNow begin by answering the status if an installation is on its way; automatic
-- checks are made only if they are on and none is.
unfoldable pub may_check : Daemon → Bool
may_check d = not d.updater.activating

unfoldable pub may_check_automatically : Daemon → Bool
may_check_automatically d = d.updater.automatic && not d.updater.activating

-- What follows the check. Other calls may have come in between.
unfoldable pub check_now : Checked → Daemon → Daemon
unfolding begin_activation set_status
check_now (s, none) d = record d { updater = set_status s (record d.updater { ready = none }) }
check_now (s, some r) d =
    let d' : Daemon = record d { updater = record d.updater { ready = some r } } in
    if d.updater.automatic
    then begin_activation r true d'
    else record d' { updater = set_status s d'.updater }

unfoldable pub apply_now : Checked → Daemon → Daemon
unfolding begin_activation set_status
apply_now (s, none) d = record d { updater = set_status s (record d.updater { ready = none }) }
apply_now (s, some r) d =
    begin_activation r true (record d { updater = record d.updater { ready = some r } })

unfoldable pub automatic_check : Checked → Daemon → Daemon
unfolding begin_activation set_status
automatic_check (s, none) d = record d {
  updater = set_status s (record d.updater { ready = none });
}
automatic_check (s, some r) d =
    let d' : Daemon = record d { updater = record d.updater { ready = some r } } in
    if r.version == d.updater.skip then d' else begin_activation r false d'

-- The head of the loop of `activate`.
unfoldable pub activate_top : ReadyUpdate → Bool → Option ℕ → Daemon → Daemon
unfolding set_status
activate_top r deliberate last d =
    if not deliberate && not d.updater.automatic
    then record d {
      updater =
          set_status (status_of update_available r.version 0 "")
            (record d.updater { activating = false });
      phase = off;
    }
    else record d { phase = counting r deliberate last }

abbrev is_last : ℕ → Option ℕ → Bool
is_last n none = false
is_last n (some m) = n == m

-- Turns are running: their number is announced if it changed, and the loop waits.
unfoldable pub activate_counting : ReadyUpdate → Bool → Option ℕ → Daemon → Daemon
unfolding count set_status
activate_counting r deliberate last d =
    let n = count d.turns in
    if ltb 0 n
    then (if is_last n last then record d { phase = top r deliberate last } else record d {
      updater = set_status (status_of update_waiting r.version n "") d.updater;
      phase = top r deliberate (some n);
    })
    else record d { phase = closing r deliberate last }

-- The last moment: closeIfIdle counts again, and closes.
unfoldable pub activate_closing : ReadyUpdate → Bool → Option ℕ → Daemon → Daemon
unfolding close_if_idle set_status
activate_closing r deliberate last d =
    let (turns, closed) = close_if_idle d.turns in
    if closed
    then record d {
      updater = set_status (status_of update_updating r.version 0 "") d.updater;
      turns = turns;
      phase = starting r deliberate;
    }
    else record d { turns = turns; phase = top r deliberate last }

-- `u.start`: none is success, and the process exits; otherwise the failure's message.
unfoldable pub activate_starting : Option String → Daemon → Daemon
unfolding reopen set_status failed_status
activate_starting none d = record d { phase = gone }
activate_starting (some message) d = record d {
  updater = set_status (failed_status message) (record d.updater { activating = false });
  turns = reopen d.turns;
  phase = off;
}

-- One step of the goroutine `activate`, given how `u.start` will answer.
unfoldable pub activate : Option String → Phase → Daemon → Daemon
unfolding activate_top activate_counting activate_closing activate_starting
activate answer (top r deliberate last) d = activate_top r deliberate last d
activate answer (counting r deliberate last) d = activate_counting r deliberate last d
activate answer (closing r deliberate last) d = activate_closing r deliberate last d
activate answer (starting r deliberate) d = activate_starting answer d
activate answer off d = d
activate answer gone d = d

-- All that happens in the daemon that touches updates or turns, in any order. A check carries
-- what it found; the three kinds are what follows the check, their guards being steps before it.
pub data Event : Type 0 where
  begins : String → ℕ → Event
  stops ends : String → Event
  cancels_all : Event
  sets_automatic : Bool → Event
  checks_now applies_now checks_automatically : Checked → Event
  activates : Option String → Event

unfoldable pub step : Event → Daemon → Daemon
unfolding begin stop end cancel_all set_automatic check_now apply_now automatic_check activate
step (begins id cancel) d = record d { turns = (begin id cancel d.turns).0 }
step (stops id) d = record d { turns = (stop id d.turns).0 }
step (ends id) d = record d { turns = (end id d.turns).0 }
step cancels_all d = record d { turns = (cancel_all d.turns).0 }
step (sets_automatic on) d = record d { updater = set_automatic on d.updater }
step (checks_now found) d = check_now found d
step (applies_now found) d = apply_now found d
step (checks_automatically found) d = automatic_check found d
step (activates answer) d = activate answer d.phase d

unfoldable pub run : List Event → Daemon → Daemon
unfolding step
run [] d = d
run (e ∷ es) d = run es (step e d)

unfoldable pub new_daemon : String → Option UpdateResult → String → Daemon
unfolding new_updater new_running_turns
new_daemon version result handover = record {
  updater = new_updater version result handover;
  turns = new_running_turns;
  phase = off;
}
