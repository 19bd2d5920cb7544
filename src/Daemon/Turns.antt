-- ===== src/Daemon/Turns.antt =====
-- turns.go: which turns this daemon is running. A context.CancelFunc is a number, and a method that
-- calls some answers which; a true answer of `asked` is the map's value, a missing key is false.
pub mod Stops
pub mod Closing
use sparstrowgen.Prelude.{
  ℕ, String, List, [], ◌∷◌, Option, some, none, Bool, true, false, ltb, string_eq, length, is_some,
  if◌then◌else◌,
}
use sparstrowgen.Prelude.Maps.{Map, lookup, insert, delete}

pub record Turns : Type 0 where
  pub cancel : Map String ℕ
  pub asked : Map String Bool
  pub closed : Bool

unfoldable pub new_running_turns : Turns
new_running_turns = record { cancel = []; asked = []; closed = false }

unfoldable pub count : Turns → ℕ
count t = length t.cancel

unfoldable pub close_if_idle : Turns → Turns × Bool
close_if_idle t = if ltb 0 (length t.cancel) then (t, false) else (record t { closed = true }, true)

unfoldable pub reopen : Turns → Turns
reopen t = record t { closed = false }

unfoldable pub closed_for_update : Turns → Bool
closed_for_update t = t.closed

-- `r.asked[id]`
unfoldable pub is_asked : String → Turns → Bool
unfolding lookup
is_asked id t = elim (lookup id t.asked) [ none ↦ false | some b ↦ b ]

unfoldable pub begin : String → ℕ → Turns → Turns × Bool
unfolding insert delete is_asked
begin id cancel t =
    if t.closed
    then (record t { asked = delete id t.asked }, false)
    else if is_asked id t
    then (record t { asked = delete id t.asked }, false)
    else (record t { cancel = insert id cancel t.cancel }, true)

-- With the function called, if the turn was running.
unfoldable pub stop : String → Turns → Turns × Option ℕ
unfolding lookup insert
stop id t = (record t { asked = insert id true t.asked }, lookup id t.cancel)

unfoldable pub end : String → Turns → Turns × Bool
unfolding delete is_asked
end id t = (record t { cancel = delete id t.cancel; asked = delete id t.asked }, is_asked id t)

abbrev values {ℓ κ} : {A : Type ℓ} {B : Type κ} → List (A × B) → List B
values [] = []
values ((a, b) ∷ m) = b ∷ values m

-- With the functions called.
unfoldable pub cancel_all : Turns → Turns × List ℕ
cancel_all t = (t, values t.cancel)

-- Calls by the read loop, by the turns' goroutines and by the updater, in any order.
pub data Call : Type 0 where
  begins : String → ℕ → Call
  stops ends : String → Call
  closes reopens cancels_all : Call

unfoldable pub step : Call → Turns → Turns
unfolding begin stop end close_if_idle reopen cancel_all
step (begins id cancel) t = (begin id cancel t).0
step (stops id) t = (stop id t).0
step (ends id) t = (end id t).0
step closes t = (close_if_idle t).0
step reopens t = reopen t
step cancels_all t = (cancel_all t).0

unfoldable pub run : List Call → Turns → Turns
unfolding step
run [] t = t
run (c ∷ cs) t = run cs (step c t)
