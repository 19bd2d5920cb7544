-- ===== src/Daemon/Turns/Closing.antt =====
-- turns.go: closing for an update, under the same lock that counts the turns.
use sparstrowgen.Prelude.{
  ℕ, String, ◌≡◌, refl, ap, List, [], ◌∷◌, inl, inr, true, false, arith, string_eq, All, length,
  ltb, Bool-cases,
}
use sparstrowgen.Prelude.Maps.{delete}
use sparstrowgen.Daemon.Turns.{
  Turns, Call, begins, stops, ends, closes, reopens, cancels_all, new_running_turns, count,
  close_if_idle, begin, step, run,
}

-- While it is closed no turn is running.
pub record IsIdle (t : Turns) : Type 0 where
  pub idle : t.closed ≡ true → t.cancel ≡ []

no_entries {ℓ} : {A : Type ℓ} (l : List A) → ltb 0 (length l) ≡ false → l ≡ []
no_entries [] e = refl
no_entries (x ∷ l) e = ground arith

close-IsIdle : (t : Turns) → IsIdle t → IsIdle (close_if_idle t).0
unfolding close_if_idle
close-IsIdle t h = elim (Bool-cases (ltb 0 (length t.cancel))) [
  | inl e ↦ rw (e, close_if_idle) h
  | inr e ↦ rw (e, close_if_idle) (record { idle = λ _. no_entries t.cancel e })
]

step-IsIdle : (c : Call) (t : Turns) → IsIdle t → IsIdle (step c t)
unfolding step
step-IsIdle (begins id cancel) t h = record { idle = λ e. ground (arith, h.idle) }
step-IsIdle (stops id) t h = record { idle = λ e. h.idle e }
step-IsIdle (ends id) t h = record { idle = λ e. rw (h.idle e) (unfold delete in refl) }
step-IsIdle closes t h = close-IsIdle t h
step-IsIdle reopens t h = record { idle = λ e. cc }
step-IsIdle cancels_all t h = h

run_keeps-IsIdle : (cs : List Call) (t : Turns) → IsIdle t → IsIdle (run cs t)
unfolding run
run_keeps-IsIdle [] t h = h
run_keeps-IsIdle (c ∷ cs) t h = run_keeps-IsIdle cs (step c t) (step-IsIdle c t h)

-- Whatever calls are made from the start, in any order, while the daemon is closed for an update no
-- turn is running.
pub run-IsIdle : (cs : List Call) → IsIdle (run cs new_running_turns)
unfolding new_running_turns
run-IsIdle cs = run_keeps-IsIdle cs new_running_turns (record { idle = λ e. refl })

-- Every call but a reopening.
abbrev pub KeepsClosed : Call → Type 0
KeepsClosed reopens = ⊥
KeepsClosed closes = Unit {0}
KeepsClosed _ = Unit {0}

closed_step : (c : Call) (t : Turns) → KeepsClosed c → t.closed ≡ true → (step c t).closed ≡ true
unfolding step
closed_step (begins id cancel) t k h = ground arith
closed_step (stops id) t k h = h
closed_step (ends id) t k h = h
closed_step closes t k h = ground arith
closed_step reopens t k h = absurd k
closed_step cancels_all t k h = h

closed_run :
    (cs : List Call) (t : Turns)
    → All KeepsClosed cs
    → IsIdle t
    → t.closed ≡ true
    → ((run cs t).closed ≡ true) × IsIdle (run cs t)
unfolding run
closed_run [] t k i h = (h, i)
closed_run (c ∷ cs) t k i h =
    closed_run cs (step c t) k.1 (step-IsIdle c t i) (closed_step c t k.0 h)

-- The daemon closes only when no turn is running, and once it has, no turn runs and none can begin
-- until it is reopened, whatever stops, ends, cancellations and attempts to begin come in between.
pub close_if_idle_holds :
    (t : Turns) (cs : List Call) (id : String) (cancel : ℕ)
    → (close_if_idle t).1 ≡ true
    → All KeepsClosed cs
    → let u = run cs (close_if_idle t).0 in
      (count t ≡ 0)
      × (u.closed ≡ true)
      × (count u ≡ 0)
      × ((begin id cancel u).1 ≡ false)
      × (count (begin id cancel u).0 ≡ 0)
unfolding close_if_idle count
close_if_idle_holds t cs id cancel e k = elim (Bool-cases (ltb 0 (length t.cancel))) [
  | inl p ↦ absurd (ground (arith, p))
  | inr p ↦
      let empty = no_entries t.cancel p in
      rw (p, close_if_idle)
        (let after =
            closed_run cs (record t { closed = true }) k (record { idle = λ _. empty }) refl in
          (
            ground (arith, empty),
            after.0,
            ap length (after.1.idle after.0),
            unfold begin in rw after.0 refl,
            unfold begin in rw after.0 (ap length (after.1.idle after.0)),
          ))
]
