-- ===== src/Daemon/Updater/Idle.antt =====
-- update.go: an installation never interrupts agent work.
use sparstrowgen.Prelude.{
  ℕ, String, ◌≡◌, refl, sym, ap, ◌∙◌, List, [], ◌∷◌, Option, some, none, inl, inr, Bool, true,
  false, not, ◌&&◌, ◌==◌, ltb, arith, string_eq, nat_eq, length, Bool-cases,
}
use sparstrowgen.Prelude.Maps.{delete}
use sparstrowgen.Daemon.Turns.{
  Turns, count, close_if_idle, reopen, begin, stop, end, cancel_all, new_running_turns,
}
use sparstrowgen.Daemon.Updater.{
  ReadyUpdate, Updater, UpdateResult, Phase, off, gone, top, counting, closing, starting, Daemon,
  begin_activation, set_status, set_automatic, new_updater, resume, check_now, apply_now,
  automatic_check, activate_top, activate_counting, activate_closing, activate_starting, activate,
  Event, begins, stops, ends, cancels_all, sets_automatic, checks_now, applies_now,
  checks_automatically, activates, step, run, new_daemon,
}

-- The updater process has been started, or is about to be.
abbrev pub is_handing_over : Phase → Bool
is_handing_over (starting r deliberate) = true
is_handing_over gone = true
is_handing_over _ = false

-- An installation is on its way.
abbrev pub is_active : Phase → Bool
is_active off = false
is_active gone = true
is_active _ = true

-- What holds between any two steps.
pub record Inv (d : Daemon) : Type 0 where
  pub closed : d.turns.closed ≡ is_handing_over d.phase
  pub idle : d.turns.closed ≡ true → d.turns.cancel ≡ []
  pub single : d.updater.activating ≡ is_active d.phase

begin_idle :
    (id : String) (c : ℕ) (t : Turns)
    → (t.closed ≡ true → t.cancel ≡ [])
    → ((begin id c t).0.closed ≡ t.closed) × (t.closed ≡ true → (begin id c t).0.cancel ≡ [])
unfolding begin
begin_idle id c t h = (ground arith, λ e. ground (arith, h e))

end_idle :
    (id : String) (t : Turns)
    → (t.closed ≡ true → t.cancel ≡ [])
    → t.closed ≡ true
    → (end id t).0.cancel ≡ []
unfolding end
end_idle id t h e = rw (h e) (unfold delete in refl)

off_open : (p : Phase) → is_active p ≡ false → is_handing_over p ≡ false
off_open off h = refl
off_open gone h = cc
off_open _ h = cc

begin_activation-Inv :
    (r : ReadyUpdate) (b : Bool) (d : Daemon) → Inv d → Inv (begin_activation r b d)
unfolding begin_activation
begin_activation-Inv r b d i = elim (Bool-cases d.updater.activating) [
  | inl e ↦ simp e i
  | inr e ↦ simp e (record {
    closed = i.closed ∙ off_open d.phase (sym i.single ∙ e);
    idle = i.idle;
    single = refl;
  })
]

updater_changed :
    (u : Updater) (d : Daemon)
    → u.activating ≡ d.updater.activating
    → Inv d
    → Inv (record d { updater = u })
updater_changed u d e i = record { closed = i.closed; idle = i.idle; single = e ∙ i.single }

no_entries {ℓ} : {A : Type ℓ} (l : List A) → ltb 0 (length l) ≡ false → l ≡ []
no_entries [] e = refl
no_entries (x ∷ l) e = ground arith

top-Inv :
    (r : ReadyUpdate) (b : Bool) (last : Option ℕ) (d : Daemon)
    → d.phase ≡ top r b last
    → Inv d
    → Inv (activate_top r b last d)
unfolding activate_top
top-Inv r b last d p i = elim (Bool-cases (not b && not d.updater.automatic)) [
  | inl e ↦ rw e (record { closed = i.closed ∙ ap is_handing_over p; idle = i.idle; single = refl })
  | inr e ↦ rw e (record {
    closed = i.closed ∙ ap is_handing_over p;
    idle = i.idle;
    single = i.single ∙ ap is_active p;
  })
]

counting-Inv :
    (r : ReadyUpdate) (b : Bool) (last : Option ℕ) (d : Daemon)
    → d.phase ≡ counting r b last
    → Inv d
    → Inv (activate_counting r b last d)
unfolding activate_counting
counting-Inv r b last d p i = record {
  closed = ground (arith, i.closed, ap is_handing_over p);
  idle = ground (arith, i.idle);
  single = ground (arith, i.single, ap is_active p);
}

closing-Inv :
    (r : ReadyUpdate) (b : Bool) (last : Option ℕ) (d : Daemon)
    → d.phase ≡ closing r b last
    → Inv d
    → Inv (activate_closing r b last d)
unfolding activate_closing close_if_idle
closing-Inv r b last d p i = elim (Bool-cases (ltb 0 (length d.turns.cancel))) [
  | inl e ↦ rw e (record {
    closed = i.closed ∙ ap is_handing_over p;
    idle = i.idle;
    single = i.single ∙ ap is_active p;
  })
  | inr e ↦ rw e (record {
    closed = refl;
    idle = λ _. no_entries d.turns.cancel e;
    single = i.single ∙ ap is_active p;
  })
]

starting-Inv :
    (answer : Option String) (r : ReadyUpdate) (b : Bool) (d : Daemon)
    → d.phase ≡ starting r b
    → Inv d
    → Inv (activate_starting answer d)
unfolding activate_starting
starting-Inv none r b d p i = record {
  closed = i.closed ∙ ap is_handing_over p;
  idle = i.idle;
  single = i.single ∙ ap is_active p;
}
starting-Inv (some m) r b d p i = record {
  closed = unfold reopen in refl;
  idle = λ e. unfold reopen in cc;
  single = refl;
}

activate-Inv :
    (answer : Option String) (p : Phase) (d : Daemon)
    → d.phase ≡ p
    → Inv d
    → Inv (activate answer p d)
unfolding activate
activate-Inv answer (top r b last) d e i = top-Inv r b last d e i
activate-Inv answer (counting r b last) d e i = counting-Inv r b last d e i
activate-Inv answer (closing r b last) d e i = closing-Inv r b last d e i
activate-Inv answer (starting r b) d e i = starting-Inv answer r b d e i
activate-Inv answer off d e i = i
activate-Inv answer gone d e i = i

pub step-Inv : (e : Event) (d : Daemon) → Inv d → Inv (step e d)
unfolding step
step-Inv (begins id c) d i =
    let b = begin_idle id c d.turns i.idle in
    record { closed = b.0 ∙ i.closed; idle = λ h. b.1 (sym b.0 ∙ h); single = i.single }
step-Inv (stops id) d i = record {
  closed = unfold stop in i.closed;
  idle = unfold stop in i.idle;
  single = i.single;
}
step-Inv (ends id) d i = record {
  closed = unfold end in i.closed;
  idle = λ h. end_idle id d.turns i.idle (unfold end in h);
  single = i.single;
}
step-Inv cancels_all d i = record {
  closed = unfold cancel_all in i.closed;
  idle = unfold cancel_all in i.idle;
  single = i.single;
}
step-Inv (sets_automatic on) d i = updater_changed _ d (unfold set_automatic in refl) i
step-Inv (checks_now (s, none)) d i = unfold check_now set_status in updater_changed _ d refl i
step-Inv (checks_now (s, some r)) d i = elim (Bool-cases d.updater.automatic) [
  | inl e ↦ unfold check_now in simp e (begin_activation-Inv r true _ (updater_changed _ d refl i))
  | inr e ↦ unfold check_now set_status in simp e (updater_changed _ d refl i)
]
step-Inv (applies_now (s, none)) d i = unfold apply_now set_status in updater_changed _ d refl i
step-Inv (applies_now (s, some r)) d i =
    unfold apply_now in begin_activation-Inv r true _ (updater_changed _ d refl i)
step-Inv (checks_automatically (s, none)) d i =
    unfold automatic_check set_status in updater_changed _ d refl i
step-Inv (checks_automatically (s, some r)) d i = elim (Bool-cases (r.version == d.updater.skip)) [
  | inl e ↦ unfold automatic_check in simp e (updater_changed _ d refl i)
  | inr e ↦
      unfold automatic_check in simp e (begin_activation-Inv r false _ (updater_changed _ d refl i))
]
step-Inv (activates answer) d i = activate-Inv answer d.phase d refl i

pub run-Inv : (es : List Event) (d : Daemon) → Inv d → Inv (run es d)
unfolding run
run-Inv [] d i = i
run-Inv (e ∷ es) d i = run-Inv es (step e d) (step-Inv e d i)

pub new_daemon-Inv :
    (version handover : String) (result : Option UpdateResult)
    → Inv (new_daemon version result handover)
unfolding new_daemon new_updater resume new_running_turns
new_daemon-Inv version handover none = record {
  closed = refl;
  idle = λ e. cc;
  single = ground arith;
}
new_daemon-Inv version handover (some r) = record { closed = refl; idle = λ e. cc; single = refl }

-- From the daemon's start on, whatever turns begin, end and are stopped and whatever checks are made,
-- in any order: when the updater process is about to be started, and after it has been, the daemon is
-- closed for the update, no turn is running and no turn can begin.
pub handing_over_idle :
    (version handover : String) (result : Option UpdateResult) (es : List Event) (id : String)
    (c : ℕ)
    → is_handing_over (run es (new_daemon version result handover)).phase ≡ true
    → let t = (run es (new_daemon version result handover)).turns in
      (t.closed ≡ true) × (count t ≡ 0) × ((begin id c t).1 ≡ false)
unfolding count
handing_over_idle version handover result es id c h =
    let i = run-Inv es _ (new_daemon-Inv version handover result) in
    (i.closed ∙ h, ap length (i.idle (i.closed ∙ h)), unfold begin in rw (i.closed ∙ h) refl)
