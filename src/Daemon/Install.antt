-- ===== src/Daemon/Install.antt =====
-- update.go, runUpdate: the updater process, which puts the new version in place of the one that runs.
-- Each call of the operating system succeeds or fails as `Calls` says; `Machine` has the two files, the
-- copies that run, and what is written down for the next one to report.
pub mod Left
mod Runs
use sparstrowgen.Prelude.{
  ℕ, zero, suc, ◌+◌, List, [], ◌∷◌, ◌++◌, Option, some, none, Bool, true, false, not, ◌&&◌,
  if◌then◌else◌,
}

-- What an executable file holds.
pub data Exe : Type 0 where
  old_version new_version broken : Exe

pub data Reason : Type 0 where
  not_stopped not_moved not_copied not_reconnected : Reason

-- How far copyFile gets: the target is not opened, or is written in part, or whole.
pub data Copied : Type 0 where
  unopened partly whole : Copied

-- A round of the loop before the deadline: whether the new copy exits before the connected file is read,
-- whether that names the new version, and whether the copy exits between the reading and the `select`.
pub record Round : Type 0 where
  pub exits_first : Bool
  pub connected : Bool
  pub exits_then : Bool

-- `removes n` and `renames n` are of the attempt numbered `n` to put the old version back, `dies` is
-- whether the new copy has ended when the wait for it after the kill is over.
pub record Calls : Type 0 where
  pub stops : Bool
  pub moves : Bool
  pub copied : Copied
  pub hands_over : Bool
  pub starts_new : Bool
  pub rounds : List Round
  pub dies : Bool
  pub removes : ℕ → Bool
  pub renames : ℕ → Bool
  pub records_result : Bool
  pub starts_again : Bool

pub record Machine : Type 0 where
  pub target : Option Exe
  pub backup : Option Exe
  pub running : List Exe
  pub handover : Bool
  pub result : Option Reason

-- ops.start of the target: there has to be a file.
unfoldable pub start : Bool → Machine → Machine × Bool
start works m = elim m.target [
  | none ↦ (m, false)
  | some exe ↦ if works then (record m { running = m.running ++ exe ∷ [] }, true) else (m, false)
]

unfoldable pub give_up : Calls → Reason → Machine → Machine × Bool
unfolding start
give_up c why m = (
  (start c.starts_again (if c.records_result then record m { result = some why } else m)).0,
  false,
)

unfoldable pub put_back : Calls → ℕ → Machine → Machine × Bool
put_back c n m =
    let m' = if c.removes n then record m { target = none } else m in
    elim m'.backup [
      | none ↦ (m', false)
      | some exe ↦
          if c.renames n
          then (record m' { target = some exe; backup = none }, true)
          else (m', false)
    ]

-- `fuel` attempts, from the one numbered `n` on.
unfoldable pub retry_put_back : Calls → ℕ → ℕ → Machine → Machine
unfolding put_back
retry_put_back c zero n m = m
retry_put_back c (suc fuel) n m =
    let (m', done) = put_back c n m in
    let more = retry_put_back c fuel (suc n) m' in if done then m' else more

-- The loop while the clock is before the deadline; a copy that has exited moves the deadline to now. The
-- second Boolean says whether the copy runs: first when the loop begins, then when it ends.
unfoldable pub reconnects : List Round → Bool → Bool × Bool
reconnects [] alive = (false, alive)
reconnects (r ∷ rs) alive =
    let alive' = alive && not r.exits_first in
    let later = alive' && not r.exits_then in
    let more = reconnects rs later in
    if r.connected then (true, alive') else if later then more else (false, later)

unfoldable pub copy_file : Copied → Machine → Machine × Bool
copy_file unopened m = (m, false)
copy_file partly m = (record m { target = some broken }, false)
copy_file whole m = (record m { target = some new_version }, true)

abbrev without_new : List Exe → List Exe
without_new [] = []
without_new (new_version ∷ es) = without_new es
without_new (old_version ∷ es) = old_version ∷ without_new es
without_new (broken ∷ es) = broken ∷ without_new es

-- The copies that run, once it is known whether the new one still does.
abbrev pub settle : Bool → Machine → Machine
settle true m = m
settle false m = record m { running = without_new m.running }

unfoldable pub kill : Bool → Machine → Machine
kill dies m = if dies then record m { running = without_new m.running } else m

-- From the retries on.
unfoldable pub put_old_back : Calls → Machine → Machine × Bool
put_old_back c m = give_up c not_reconnected (retry_put_back c 20 0 m)

-- From the start of the new version on.
unfoldable pub try_new : Calls → Machine → Machine × Bool
try_new c m =
    let (m', started) = start c.starts_new m in
    if not started
    then put_old_back c m'
    else (let (reached, alive) = reconnects c.rounds true in
        let m'' = settle alive m' in
        if reached then (record m'' { backup = none }, true) else put_old_back c (kill c.dies m''))

abbrev end_handover : Machine × Bool → Machine × Bool
end_handover (m, b) = (record m { handover = false }, b)

-- From copyFile on.
unfoldable pub copy_new : Calls → Machine → Machine × Bool
copy_new c m =
    let (m', copied) = copy_file c.copied m in
    if copied
    then end_handover (try_new c (record m' { handover = c.hands_over }))
    else give_up c not_copied (put_back c 0 m').0

unfoldable pub run_update : Calls → Machine → Machine × Bool
run_update c m =
    if not c.stops
    then give_up c not_stopped m
    else (let stopped = record m { running = [] } in
        if not c.moves
        then give_up c not_moved stopped
        else copy_new c (record stopped { target = none; backup = stopped.target }))
