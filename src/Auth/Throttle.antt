-- ===== src/Auth/Throttle.antt =====
-- throttle.go: slowing down guessing. Times and durations are in nanoseconds. Each method takes the
-- time that `t.now()` answers; the clock is monotonic, as Go's is, so `now.Sub(last)` is `now - last`.
pub mod Delays
pub mod Sweep
pub mod Admission
use sparstrowgen.Prelude.{
  ℕ, ◌+◌, ◌-◌, ◌*◌, ◌^◌, String, List, [], ◌∷◌, Option, some, none, Bool, true, false, ◌||◌, ltb,
  string_eq, length, if◌then◌else◌,
}
use sparstrowgen.Prelude.Maps.{Map, lookup, insert, delete}

abbrev pub second : ℕ
second = 1_000_000_000

abbrev pub free_attempts : ℕ
free_attempts = 5

abbrev pub failure_window : ℕ
failure_window = 900_000_000_000

abbrev pub base_delay : ℕ
base_delay = 2_000_000_000

abbrev pub max_delay : ℕ
max_delay = 300_000_000_000

abbrev pub max_shift : ℕ
max_shift = 8

pub record Attempts : Type 0 where
  pub failures : ℕ
  pub last : ℕ

-- The map `by`.
abbrev pub Throttle : Type 0
Throttle = Map String Attempts

unfoldable pub new_throttle : Throttle
new_throttle = []

unfoldable pub is_stale : ℕ → Attempts → Bool
is_stale now a = ltb failure_window (now - a.last)

-- The delay after a number of failures: from `excess := ...` on, before the time waited.
unfoldable pub delay_after : ℕ → ℕ
delay_after failures =
    let excess = failures - free_attempts in
    let capped = if ltb max_shift excess then max_shift else excess in
    let delay = base_delay * 2 ^ capped in if ltb max_delay delay then max_delay else delay

-- The wait of an entry that is not stale.
unfoldable pub wait_of : ℕ → Attempts → ℕ
unfolding delay_after
wait_of now a =
    if ltb a.failures free_attempts
    then 0
    else (let delay = delay_after a.failures in
        if ltb (now - a.last) delay then delay - (now - a.last) else 0)

unfoldable pub wait_locked : ℕ → String → Throttle → Throttle × ℕ
unfolding lookup delete is_stale wait_of
wait_locked now client t = elim (lookup client t) [
  | none ↦ (t, 0)
  | some a ↦ if is_stale now a then (delete client t, 0) else (t, wait_of now a)
]

-- `for client, a := range t.by { if stale { delete } }`
unfoldable pub drop_stale : ℕ → Throttle → Throttle
unfolding is_stale
drop_stale now [] = []
drop_stale now ((client, a) ∷ t) =
    let rest = drop_stale now t in if is_stale now a then rest else (client, a) ∷ rest

unfoldable pub sweep : ℕ → Throttle → Throttle
unfolding drop_stale
sweep now t = if ltb (length t) 1024 then t else drop_stale now t

-- The entry that recordLocked counts on: a new one if there is none or it is stale.
unfoldable pub entry_for : ℕ → Option Attempts → Attempts
unfolding is_stale
entry_for now none = record { failures = 0; last = 0 }
entry_for now (some a) = if is_stale now a then record { failures = 0; last = 0 } else a

unfoldable pub record_locked : ℕ → String → Throttle → Throttle
unfolding lookup insert entry_for sweep
record_locked now client t =
    let a = entry_for now (lookup client t) in
    sweep now (insert client (record { failures = a.failures + 1; last = now }) t)

-- Whether the attempt may proceed, and how long to wait.
unfoldable pub begin : ℕ → String → Throttle → Throttle × (ℕ × Bool)
unfolding wait_locked record_locked
begin now client t =
    let (t', wait) = wait_locked now client t in
    if ltb 0 wait then (t', (wait, false)) else (record_locked now client t', (0, true))

unfoldable pub wait : ℕ → String → Throttle → Throttle × ℕ
unfolding wait_locked
wait now client t = wait_locked now client t

unfoldable pub failed : ℕ → String → Throttle → Throttle
unfolding lookup insert
failed now client t = elim (lookup client t) [
  | none ↦ t
  | some a ↦ insert client (record a { last = now }) t
]

unfoldable pub succeeded : String → Throttle → Throttle
unfolding delete
succeeded client t = delete client t
