-- ===== src/Api/Access/Gate.antt =====
-- accounts.go, sendGate: when each kind of email last went to each address. Times are in nanoseconds,
-- and none is before one that the gate has.
pub mod Spacing
use sparstrowgen.Prelude.{
  ℕ, ◌+◌, ◌-◌, ◌≤◌, ◌<◌, ◌≡◌, refl, List, [], ◌∷◌, Option, some, none, Bool, true, false, ltb, leb,
  if◌then◌else◌, length, arith, ◌==◌, Option-cases, Bool-cases, inl, inr,
}
use sparstrowgen.Prelude.Maps.{Map, lookup, insert, lookup-insert}
use sparstrowgen.Text.{Text, text_eq}
use sparstrowgen.Text.Equality.{text_eq_instance, text_eq_iff}

abbrev pub Gate : Type 0
Gate = Map Text ℕ

abbrev pub hour : ℕ
hour = 3_600_000_000_000

unfoldable pub wait : Text → ℕ → ℕ → Gate → ℕ
unfolding lookup text_eq
wait key gap now g = elim (lookup key g) [
  | none ↦ 0
  | some last ↦ if ltb (now - last) gap then gap - (now - last) else 0
]

unfoldable pub drop_old : ℕ → Gate → Gate
drop_old now [] = []
drop_old now ((k, t) ∷ g) =
    let rest = drop_old now g in if ltb hour (now - t) then rest else (k, t) ∷ rest

unfoldable pub mark : Text → ℕ → Gate → Gate
unfolding insert text_eq drop_old
mark key now g =
    let marked = insert key now g in
    if ltb 4096 (length marked) then drop_old now marked else marked
