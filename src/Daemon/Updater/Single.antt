-- ===== src/Daemon/Updater/Single.antt =====
-- update.go: at most one installation at a time, and how one ends.
use sparstrowgen.Prelude.{
  ℕ, String, ◌≡◌, refl, ap, ◌∙◌, List, [], ◌∷◌, Option, some, none, inl, inr, Bool, true, false,
  not, ◌&&◌, ◌||◌, ◌==◌, ltb, arith, string_eq, nat_eq, length, Bool-cases,
}
use sparstrowgen.Protocol.{update_updating}
use sparstrowgen.Daemon.Turns.{count, close_if_idle, reopen}
use sparstrowgen.Daemon.Updater.{
  ReadyUpdate, UpdateResult, Phase, off, gone, top, counting, closing, starting, Daemon,
  begin_activation, set_status, check_now, apply_now, automatic_check, activate_top,
  activate_counting, activate_closing, activate_starting, activate, Event, begins, stops, ends,
  cancels_all, sets_automatic, checks_now, applies_now, checks_automatically, activates, step, run,
  new_daemon, failed_status, status_of,
}
use sparstrowgen.Daemon.Updater.Idle.{is_active, step-Inv, run-Inv, new_daemon-Inv}

-- A step of the goroutine `activate` itself.
abbrev pub is_activate : Event → Bool
is_activate (activates answer) = true
is_activate (begins id c) = false
is_activate _ = false

begin_activation_kept :
    (r : ReadyUpdate) (b : Bool) (d : Daemon)
    → d.updater.activating ≡ true
    → (begin_activation r b d).phase ≡ d.phase
unfolding begin_activation
begin_activation_kept r b d h = ground (arith, h)

step_kept :
    (e : Event) (d : Daemon)
    → d.updater.activating ≡ true
    → is_activate e ≡ false
    → (step e d).phase ≡ d.phase
unfolding step
step_kept (begins id c) d a h = refl
step_kept (stops id) d a h = refl
step_kept (ends id) d a h = refl
step_kept cancels_all d a h = refl
step_kept (sets_automatic on) d a h = refl
step_kept (checks_now (s, none)) d a h = unfold check_now in refl
step_kept (checks_now (s, some r)) d a h = elim (Bool-cases d.updater.automatic) [
  | inl e ↦ unfold check_now in simp e (begin_activation_kept r true _ a)
  | inr e ↦ unfold check_now in simp e refl
]
step_kept (applies_now (s, none)) d a h = unfold apply_now in refl
step_kept (applies_now (s, some r)) d a h = unfold apply_now in begin_activation_kept r true _ a
step_kept (checks_automatically (s, none)) d a h = unfold automatic_check in refl
step_kept (checks_automatically (s, some r)) d a h =
    elim (Bool-cases (r.version == d.updater.skip)) [
      | inl e ↦ unfold automatic_check in simp e refl
      | inr e ↦ unfold automatic_check in simp e (begin_activation_kept r false _ a)
    ]
step_kept (activates answer) d a h = cc

-- At most one installation is on its way: in every state that the daemon reaches, while one is, no
-- check, request, automatic check, setting or turn starts another or moves it on.
pub one_activation :
    (version handover : String) (result : Option UpdateResult) (es : List Event) (e : Event)
    → is_active (run es (new_daemon version result handover)).phase ≡ true
    → is_activate e ≡ false
    → let d = run es (new_daemon version result handover) in
      ((step e d).phase ≡ d.phase) × ((step e d).updater.activating ≡ true)
one_activation version handover result es e active other =
    let d = run es (new_daemon version result handover) in
    let i = run-Inv es _ (new_daemon-Inv version handover result) in
    let kept = step_kept e d (i.single ∙ active) other in
    (kept, (step-Inv e d i).single ∙ ap is_active kept ∙ active)

top_goes :
    (r : ReadyUpdate) (b : Bool) (last : Option ℕ) (d : Daemon)
    → d.phase ≡ top r b last
    → b || d.updater.automatic ≡ true
    → step (activates none) d ≡ record d { phase = counting r b last }
unfolding step activate activate_top
top_goes r b last d p h =
    let e : not b && not d.updater.automatic ≡ false = ground arith in
    ap (λ (q : Phase). activate none q d) p ∙ simp e refl

counting_goes :
    (r : ReadyUpdate) (b : Bool) (last : Option ℕ) (d : Daemon)
    → count d.turns ≡ 0
    → step (activates none) (record d { phase = counting r b last })
      ≡ record d { phase = closing r b last }
unfolding step activate activate_counting count
counting_goes r b last d n =
    let e : ltb 0 (length d.turns.cancel) ≡ false = ground arith in simp e refl

-- The state about to start the updater process.
abbrev closed_up : ReadyUpdate → Bool → Daemon → Daemon
closed_up r b d = record d {
  updater = set_status (status_of update_updating r.version 0 "") d.updater;
  turns = record d.turns { closed = true };
  phase = starting r b;
}

closing_goes :
    (r : ReadyUpdate) (b : Bool) (last : Option ℕ) (d : Daemon)
    → count d.turns ≡ 0
    → step (activates none) (record d { phase = closing r b last }) ≡ closed_up r b d
unfolding step activate activate_closing count close_if_idle
closing_goes r b last d n =
    let e : ltb 0 (length d.turns.cancel) ≡ false = ground arith in simp e refl

starting_goes :
    (r : ReadyUpdate) (b : Bool) (d : Daemon)
    → step (activates none) (closed_up r b d) ≡ record (closed_up r b d) { phase = gone }
unfolding step activate activate_starting
starting_goes r b d = refl

starting_fails :
    (r : ReadyUpdate) (b : Bool) (message : String) (d : Daemon)
    → step (activates (some message)) (closed_up r b d) ≡ record d {
      updater = set_status (failed_status message) (record d.updater { activating = false });
      turns = record d.turns { closed = false };
      phase = off;
    }
unfolding step activate activate_starting reopen set_status
starting_fails r b message d = refl

-- Three steps of the goroutine, then the start of the updater process.
abbrev pub four : Option String → Daemon → Daemon
four answer d = run (activates none ∷ activates none ∷ activates none ∷ activates answer ∷ []) d

-- With no turn running, an installation that was asked for, or one made automatically while automatic
-- updates are on, goes through to handing over: once the updater process has started the daemon
-- exits, closed to turns. If it cannot be started, the daemon takes turns again, no installation is on
-- its way any more, and the failure is the status.
pub activate_completes :
    (r : ReadyUpdate) (deliberate : Bool) (last : Option ℕ) (d : Daemon) (message : String)
    → d.phase ≡ top r deliberate last
    → count d.turns ≡ 0
    → deliberate || d.updater.automatic ≡ true
    → ((four none d).phase ≡ gone)
      × ((four none d).turns.closed ≡ true)
      × ((four (some message) d).phase ≡ off)
      × ((four (some message) d).turns.closed ≡ false)
      × ((four (some message) d).updater.activating ≡ false)
      × ((four (some message) d).updater.status ≡ failed_status message)
unfolding run set_status
activate_completes r deliberate last d message p n h =
    let gone_state = ap (step (activates none)) ready in
    let failed_state = ap (step (activates (some message))) ready in
    (
      ap (λ (x : Daemon). x.phase) (gone_state ∙ starting_goes r deliberate d),
      ap (λ (x : Daemon). x.turns.closed) (gone_state ∙ starting_goes r deliberate d),
      ap (λ (x : Daemon). x.phase) (failed_state ∙ starting_fails r deliberate message d),
      ap (λ (x : Daemon). x.turns.closed) (failed_state ∙ starting_fails r deliberate message d),
      ap (λ (x : Daemon). x.updater.activating)
          (failed_state ∙ starting_fails r deliberate message d),
      ap (λ (x : Daemon). x.updater.status) (failed_state ∙ starting_fails r deliberate message d),
    )
  where
    ready :
        step (activates none) (step (activates none) (step (activates none) d))
        ≡ closed_up r deliberate d
    ready =
        ap (λ x. step (activates none) (step (activates none) x)) (top_goes r deliberate last d p h)
        ∙ ap (step (activates none)) (counting_goes r deliberate last d n)
        ∙ closing_goes r deliberate last d n
