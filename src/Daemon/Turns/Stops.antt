-- ===== src/Daemon/Turns/Stops.antt =====
-- turns.go: a stop is remembered until the turn begins or ends, and is what its end reports.
use sparstrowgen.Prelude.{
  ℕ, String, ◌≡◌, ◌≢◌, refl, ◌∙◌, List, [], ◌∷◌, some, none, inl, inr, Bool, true, false, ◌||◌,
  ◌==◌, arith, string_eq, All, eq_iff, Bool-cases,
}
use sparstrowgen.Prelude.Maps.{
  lookup, delete, lookup-insert, lookup-delete, lookup-insert_self, lookup-delete_self,
}
use sparstrowgen.Daemon.Turns.{
  Turns, Call, begins, stops, ends, closes, reopens, cancels_all, is_asked, begin, stop, end, step,
  run,
}

-- The call neither begins nor ends this turn.
abbrev pub Spares : String → Call → Type 0
Spares id (begins j cancel) = j ≢ id
Spares id (ends j) = j ≢ id
Spares id (stops j) = Unit {0}
Spares id _ = Unit {0}

abbrev stops_turn : String → Call → Bool
stops_turn id (stops j) = j == id
stops_turn id (begins j cancel) = false
stops_turn id _ = false

-- One of the calls stops this turn.
unfoldable pub has_stop : String → List Call → Bool
has_stop id [] = false
has_stop id (c ∷ cs) = stops_turn id c || has_stop id cs

asked_step :
    (id : String) (c : Call) (t : Turns)
    → Spares id c
    → is_asked id (step c t) ≡ stops_turn id c || is_asked id t
unfolding step is_asked
asked_step id (begins j cancel) t h = ground (arith, lookup-delete j id t.asked, eq_iff j id, h)
asked_step id (stops j) t h = ground (arith, lookup-insert j id true t.asked, eq_iff j id)
asked_step id (ends j) t h = ground (arith, lookup-delete j id t.asked, eq_iff j id, h)
asked_step id closes t h = ground arith
asked_step id reopens t h = refl
asked_step id cancels_all t h = refl

running_step :
    (id : String) (c : Call) (t : Turns)
    → Spares id c
    → lookup id (step c t).cancel ≡ lookup id t.cancel
unfolding step
running_step id (begins j cancel) t h =
    ground (arith, lookup-insert j id cancel t.cancel, eq_iff j id, h)
running_step id (stops j) t h = refl
running_step id (ends j) t h = ground (arith, lookup-delete j id t.cancel, eq_iff j id, h)
running_step id closes t h = ground arith
running_step id reopens t h = refl
running_step id cancels_all t h = refl

asked_run :
    (id : String) (cs : List Call) (t : Turns)
    → All (Spares id) cs
    → is_asked id (run cs t) ≡ has_stop id cs || is_asked id t
unfolding run has_stop
asked_run id [] t h = refl
asked_run id (c ∷ cs) t h = ground (arith, asked_run id cs (step c t) h.1, asked_step id c t h.0)

running_run :
    (id : String) (cs : List Call) (t : Turns)
    → All (Spares id) cs
    → lookup id (run cs t).cancel ≡ lookup id t.cancel
unfolding run
running_run id [] t h = refl
running_run id (c ∷ cs) t h = running_run id cs (step c t) h.1 ∙ running_step id c t h.0

stopped : (id : String) (t : Turns) → is_asked id (stop id t).0 ≡ true
unfolding stop is_asked
stopped id t = ground (arith, lookup-insert_self id true t.asked)

not_asked : (id : String) (t : Turns) → lookup id t.asked ≡ none → is_asked id t ≡ false
unfolding is_asked
not_asked id t e = rw (e, is_asked)

begin-true :
    (id : String) (cancel : ℕ) (t : Turns)
    → (begin id cancel t).1 ≡ true
    → (lookup id (begin id cancel t).0.cancel ≡ some cancel)
      × (is_asked id (begin id cancel t).0 ≡ false)
unfolding begin
begin-true id cancel t h =
    let e = lookup-insert_self id cancel t.cancel in
    elim (Bool-cases t.closed) [
      | inl p ↦ absurd (ground (arith, p))
      | inr p ↦ elim (Bool-cases (is_asked id t)) [
        | inl q ↦ absurd (ground (arith, p, q))
        | inr q ↦ rw p (rw q (e, unfold is_asked in q))
      ]
    ]

-- A turn that began keeps running, under its own cancel function, until it ends; its end reports a
-- stop exactly when a stop for it arrived in between. Stops of other turns, a lost connection that
-- cancels every turn, closings and reopenings do not count as one.
pub end_reports_stop :
    (id : String) (cancel : ℕ) (cs : List Call) (t : Turns)
    → (begin id cancel t).1 ≡ true
    → All (Spares id) cs
    → let u = run cs (begin id cancel t).0 in
      ((stop id u).1 ≡ some cancel)
      × ((end id u).1 ≡ has_stop id cs)
      × (lookup id (end id u).0.cancel ≡ none)
      × (is_asked id (end id u).0 ≡ false)
unfolding stop end
end_reports_stop id cancel cs t b h =
    let (running, quiet) = begin-true id cancel t b in
    let u = run cs (begin id cancel t).0 in
    (
      running_run id cs (begin id cancel t).0 h ∙ running,
      ground (arith, asked_run id cs (begin id cancel t).0 h, quiet),
      lookup-delete_self id u.cancel,
      not_asked id (end id u).0 (lookup-delete_self id u.asked),
    )

-- A stop that overtakes its turn's start is remembered: whatever happens to other turns in between,
-- the turn does not begin, no cancel function is registered for it, and the stop is then forgotten.
pub stop_before_begin :
    (id : String) (cancel : ℕ) (cs : List Call) (t : Turns)
    → All (Spares id) cs
    → let u = run cs (stop id t).0 in
      (is_asked id u ≡ true)
      × ((begin id cancel u).1 ≡ false)
      × (lookup id (begin id cancel u).0.cancel ≡ lookup id t.cancel)
      × (is_asked id (begin id cancel u).0 ≡ false)
unfolding stop
stop_before_begin id cancel cs t h =
    let s = (stop id t).0 in
    let u = run cs s in
    let asked : is_asked id s ≡ true = stopped id t in
    let still : is_asked id u ≡ true = ground (arith, asked_run id cs s h, asked) in
    (
      still,
      unfold begin in ground (arith, still),
      unfold begin in ground (arith, still, running_run id cs s h),
      forgotten_begin u still,
    )
  where
    forgotten : (u : Turns) → is_asked id (record u { asked = delete id u.asked }) ≡ false
    forgotten u =
        not_asked id (record u { asked = delete id u.asked }) (lookup-delete_self id u.asked)

    forgotten_begin : (u : Turns) → is_asked id u ≡ true → is_asked id (begin id cancel u).0 ≡ false
    forgotten_begin u e = unfold begin in ground (arith, e, forgotten u)
