-- ===== src/Auth/Runs.antt =====
-- Runs of the throttle on concrete attempts.
use sparstrowgen.Prelude.{
  ℕ, ◌+◌, ◌*◌, ◌<◌, ◌≡◌, ◌≢◌, ne_of_beq, ◌⊎◌, refl, String, [], ◌∷◌, some, none, true, false,
  string_eq,
}
use sparstrowgen.Prelude.Maps.{IsMap, lookup}
use sparstrowgen.Auth.Throttle.{Attempts, Throttle, second, new_throttle, begin}
use sparstrowgen.Auth.Throttle.Sweep.{wait_value}
use sparstrowgen.Auth.Throttle.Admission.{counted, begin_exact}

-- Seven attempts a second ago, and one an hour ago.
abbrev seven : Attempts
seven = record { failures = 7; last = 4000 * second }

abbrev guessed : Throttle
guessed = ("mallory", seven) ∷ ("alice", record { failures = 1; last = 400 * second }) ∷ []

abbrev now : ℕ
now = 4001 * second

guessed-IsMap : IsMap guessed
unfolding lookup
guessed-IsMap = (refl, (refl, tt))

begin_exact_example :
    let w = wait_value now (lookup "mallory" guessed) in
    let r = begin now "mallory" guessed in
    ((w ≡ 0)
      × (r.1 ≡ (0, true))
      × (lookup "mallory" r.0
          ≡ some (record { failures = counted now (lookup "mallory" guessed) + 1; last = now })))
    ⊎ ((0 < w) × (r ≡ (guessed, (w, false))))
begin_exact_example = begin_exact now "mallory" guessed guessed-IsMap

refused : (begin now "mallory" guessed).1.1 ≡ false
unfolding begin
refused = refl

known : lookup "mallory" guessed ≡ some seven
unfolding lookup
known = refl

newcomer : lookup "bob" guessed ≡ none
unfolding lookup
newcomer = refl

abbrev alice : String
alice = "alice"

abbrev mallory : String
mallory = "mallory"

alice_other : alice ≢ mallory
alice_other = ne_of_beq alice mallory refl

-- A new throttle admits anybody.
first_attempt : (begin now mallory new_throttle).1 ≡ (0, true)
unfolding begin new_throttle
first_attempt = refl
