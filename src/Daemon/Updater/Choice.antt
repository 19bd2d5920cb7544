-- ===== src/Daemon/Updater/Choice.antt =====
-- update.go: what the person decides. A version that failed to install is not retried by itself, and
-- turning automatic updates off calls off an automatic installation that still waits.
use sparstrowgen.Prelude.{
  ℕ, String, ◌≡◌, ◌⊎◌, refl, ap, [], ◌∷◌, Option, some, none, inl, inr, Bool, true, false, ◌==◌,
  string_eq, nat_eq, Bool-cases, if◌then◌else◌,
}
use sparstrowgen.Protocol.{UpdateStatus, update_available}
use sparstrowgen.Daemon.Updater.{
  ReadyUpdate, UpdateResult, Phase, off, top, counting, Daemon, begin_activation, set_status,
  automatic_check, apply_now, activate, activate_top, status_of, sets_automatic, activates,
  checks_automatically, applies_now, step, run, new_daemon, set_automatic,
}

-- A daemon that starts after a failed installation shows the failure. Its automatic checks do not
-- install that version again, though they record that it is ready; any other version they begin to
-- install, and at the person's request so is the failed one.
pub failed_version_skipped :
    (version handover : String) (failure : UpdateResult) (s : UpdateStatus) (r : ReadyUpdate)
    → let d = new_daemon version (some failure) handover in
      (d.updater.status.message ≡ failure.message)
      × ((step (checks_automatically (s, some r)) d).updater.ready ≡ some r)
      × ((step (checks_automatically (s, some r)) d).phase
          ≡ (if r.version == failure.version then off else top r false none))
      × ((step (applies_now (s, some r)) d).phase ≡ top r true none)
unfolding new_daemon step automatic_check apply_now begin_activation set_status
failed_version_skipped version handover failure s r =
    elim (Bool-cases (r.version == failure.version)) [
      | inl e ↦ (refl, simp e refl, simp e refl, refl)
      | inr e ↦ (refl, simp e refl, simp e refl, refl)
    ]

abbrev switched_off : Daemon → Daemon
switched_off d = record d { updater = record d.updater { automatic = false } }

head_reached :
    (r : ReadyUpdate) (last : Option ℕ) (deliberate : Bool) (answer : Option String) (d : Daemon)
    → d.phase ≡ top r deliberate last
    → run (sets_automatic false ∷ activates answer ∷ []) d
      ≡ activate_top r deliberate last (switched_off d)
unfolding run step activate set_automatic
head_reached r last deliberate answer d p = ap (λ (q : Phase). activate answer q (switched_off d)) p

-- When the goroutine comes to the head of its loop after automatic updates were turned off, an
-- automatic installation is called off: the version is shown as available, no installation is on its
-- way, and the turns are untouched. One that the person asked for goes on.
pub turned_off_while_waiting :
    (r : ReadyUpdate) (last : Option ℕ) (deliberate : Bool) (answer : Option String) (d : Daemon)
    → d.phase ≡ top r deliberate last
    → let e = run (sets_automatic false ∷ activates answer ∷ []) d in
      ((deliberate ≡ false)
        × (e.phase ≡ off)
        × (e.updater.activating ≡ false)
        × (e.updater.status ≡ status_of update_available r.version 0 "")
        × (e.turns ≡ d.turns))
      ⊎ ((deliberate ≡ true)
          × (e.phase ≡ counting r deliberate last)
          × (e.updater.activating ≡ d.updater.activating)
          × (e.turns ≡ d.turns))
turned_off_while_waiting r last false answer d p =
    rw (head_reached r last false answer d p)
      (unfold activate_top set_status in inl (refl, refl, refl, refl, refl))
turned_off_while_waiting r last true answer d p =
    rw (head_reached r last true answer d p) (unfold activate_top in inr (refl, refl, refl, refl))
