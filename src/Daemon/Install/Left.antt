-- ===== src/Daemon/Install/Left.antt =====
-- update.go, runUpdate: what is left running.
use sparstrowgen.Prelude.{
  ℕ, zero, suc, ◌+◌, ◌≤◌, ◌<◌, ◌≡◌, ◌≢◌, refl, sym, ap, ◌∙◌, inl, inr, [], ◌∷◌, ◌++◌, some, none,
  List, Bool, true, false, not, ◌&&◌, All, Elem, arith, Bool-cases, Option-cases,
}
use sparstrowgen.Daemon.Install.{
  Exe, old_version, new_version, broken, Round, Calls, Copied, Reason, not_reconnected, not_copied,
  not_moved, unopened, partly, whole, Machine, start, give_up, put_back, retry_put_back, copy_file,
  kill, put_old_back, try_new, end_handover, copy_new, run_update, reconnects, without_new, settle,
}

-- A machine on which the old version runs.
abbrev pub Runs : Machine → Type 0
Runs m = (m.target ≡ some old_version) × (m.running ≡ old_version ∷ [])

-- An attempt to put the old version back that succeeds, of those that the code makes.
abbrev pub attempts : Copied → ℕ
attempts unopened = 1
attempts partly = 1
attempts whole = 20

abbrev pub PutsBack : Calls → Type 0
PutsBack c = (n : ℕ) × (n < attempts c.copied) × (c.renames n ≡ true)

put_back-restores :
    (c : Calls) (n : ℕ) (m : Machine)
    → m.backup ≡ some old_version
    → c.renames n ≡ true
    → ((put_back c n m).1 ≡ true)
      × ((put_back c n m).0.target ≡ some old_version)
      × ((put_back c n m).0.running ≡ m.running)
unfolding put_back
put_back-restores c n m b e = elim (Bool-cases (c.removes n)) [
  | inl g ↦ ground (arith, b, e, g)
  | inr g ↦ ground (arith, b, e, g)
]

put_back-fails :
    (c : Calls) (n : ℕ) (m : Machine)
    → m.backup ≡ some old_version
    → c.renames n ≡ false
    → ((put_back c n m).1 ≡ false)
      × ((put_back c n m).0.backup ≡ some old_version)
      × ((put_back c n m).0.running ≡ m.running)
unfolding put_back
put_back-fails c n m b e = elim (Bool-cases (c.removes n)) [
  | inl g ↦ ground (arith, b, e, g)
  | inr g ↦ ground (arith, b, e, g)
]

retry_put_back-restores :
    (c : Calls) (fuel n k : ℕ) (m : Machine)
    → m.backup ≡ some old_version
    → n ≤ k
    → k < n + fuel
    → c.renames k ≡ true
    → ((retry_put_back c fuel n m).target ≡ some old_version)
      × ((retry_put_back c fuel n m).running ≡ m.running)
unfolding retry_put_back
retry_put_back-restores c zero n k m b lo hi e = absurd (omega arith)
retry_put_back-restores c (suc fuel) n k m b lo hi e = elim (Bool-cases (c.renames n)) [
  | inl f ↦
      let (done, target, running) = put_back-restores c n m b f in
      rw (done, retry_put_back) (target, running)
  | inr f ↦
      let (missed, kept, running) = put_back-fails c n m b f in
      let other : n ≢ k = λ p. cc (sym f ∙ ap c.renames p ∙ e) in
      let (target, same) =
        retry_put_back-restores c fuel (suc n) k (put_back c n m).0 kept (omega arith) (omega arith)
          e in
      rw (missed, retry_put_back) (target, same ∙ running)
]

-- Once the old version is in its place and no copy runs, it is started.
give_up-Runs :
    (c : Calls) (why : Reason) (m : Machine)
    → c.starts_again ≡ true
    → m.target ≡ some old_version
    → m.running ≡ []
    → Runs (give_up c why m).0
unfolding give_up start
give_up-Runs c why m s t r = elim (Bool-cases c.records_result) [
  | inl e ↦ ground (arith, s, t, r, e)
  | inr e ↦ ground (arith, s, t, r, e)
]

give_up-false : (c : Calls) (why : Reason) (m : Machine) → (give_up c why m).1 ≡ false
unfolding give_up
give_up-false c why m = refl

put_old_back-Runs :
    (c : Calls) (k : ℕ) (m : Machine)
    → k < 20
    → c.renames k ≡ true
    → c.starts_again ≡ true
    → m.backup ≡ some old_version
    → m.running ≡ []
    → Runs (put_old_back c m).0
unfolding put_old_back
put_old_back-Runs c k m lt e s b r =
    let (target, running) = retry_put_back-restores c 20 0 k m b (omega arith) (omega arith) e in
    give_up-Runs c not_reconnected (retry_put_back c 20 0 m) s target (running ∙ r)

-- What the updater is to leave: the new version, running and connected; or the old one.
abbrev pub Leaves : Calls → Machine × Bool → Type 0
Leaves c (m, true) =
    (m.target ≡ some new_version)
    × (m.running ≡ new_version ∷ [])
    × ((r : Round) × Elem r c.rounds × (r.connected ≡ true))
Leaves c (m, false) = Runs m

-- The new copy, once it has reached the server, runs on until the updater has read that it has.
abbrev pub StaysUp : List Round → Type 0
StaysUp = All (λ r. r.connected && r.exits_first ≡ false)

reconnects-reached :
    (rs : List Round) (alive : Bool)
    → StaysUp rs
    → alive ≡ true
    → (reconnects rs alive).0 ≡ true
    → ((reconnects rs alive).1 ≡ true) × ((r : Round) × Elem r rs × (r.connected ≡ true))
unfolding reconnects
reconnects-reached [] alive up a e = cc
reconnects-reached (r ∷ rs) alive up a e = elim (Bool-cases r.connected) [
  | inl c ↦ (rw (c, reconnects) (ground (arith, a, c, up.0)), (r, inl refl, c))
  | inr c ↦ elim (Bool-cases ((alive && not r.exits_first) && not r.exits_then)) [
    | inr l ↦ cc (rw (c, l, reconnects) at e)
    | inl l ↦
        let (runs, (r', here, known)) =
          reconnects-reached rs true up.1 refl (rw (c, l, reconnects) at e) in
        (rw (c, l, reconnects) runs, (r', inr here, known))
  ]
]

gone :
    (alive : Bool) (m : Machine)
    → m.running ≡ []
    → let m' = kill true (settle alive (record m { running = m.running ++ new_version ∷ [] })) in
      (m'.running ≡ []) × (m'.backup ≡ m.backup)
unfolding kill
gone true m r = (ap (λ l. without_new (l ++ new_version ∷ [])) r, refl)
gone false m r = (ap (λ l. without_new (without_new (l ++ new_version ∷ []))) r, refl)

failed-Leaves : (c : Calls) (r : Machine × Bool) → r.1 ≡ false → Runs r.0 → Leaves c r
failed-Leaves c (m, true) e h = cc
failed-Leaves c (m, false) e h = h

put_old_back-false : (c : Calls) (m : Machine) → (put_old_back c m).1 ≡ false
unfolding put_old_back
put_old_back-false c m = give_up-false c not_reconnected (retry_put_back c 20 0 m)

start-works :
    (m : Machine) (exe : Exe)
    → m.target ≡ some exe
    → start true m ≡ (record m { running = m.running ++ exe ∷ [] }, true)
unfolding start
start-works m exe e = simp (e, start)

start-fails : (m : Machine) → start false m ≡ (m, false)
unfolding start
start-fails m = elim (Option-cases m.target) [
  | inl e ↦ simp (e, start)
  | inr (exe, e) ↦ simp (e, start)
]

module _ (c : Calls) (k : ℕ) (e : c.renames k ≡ true) (dies : c.dies ≡ true)
    (again : c.starts_again ≡ true) (up : StaysUp c.rounds) where
  put_old_back-Leaves :
      (m : Machine)
      → k < 20
      → m.backup ≡ some old_version
      → m.running ≡ []
      → Leaves c (put_old_back c m)
  put_old_back-Leaves m lt b r =
      failed-Leaves c (put_old_back c m) (put_old_back-false c m)
        (put_old_back-Runs c k m lt e again b r)

  try_new-Leaves :
      (m : Machine)
      → k < 20
      → m.target ≡ some new_version
      → m.backup ≡ some old_version
      → m.running ≡ []
      → Leaves c (try_new c m)
  unfolding try_new kill
  try_new-Leaves m lt t b r = elim (Bool-cases c.starts_new) [
    | inr f ↦ simp (f, try_new) (rw (start-fails m) (put_old_back-Leaves m lt b r))
    | inl f ↦
        simp (f, try_new)
          (rw (start-works m new_version t) (elim (Bool-cases (reconnects c.rounds true).0) [
            | inl g ↦
                let (runs, known) = reconnects-reached c.rounds true up refl g in
                simp (g, runs, try_new) (t, ap (λ l. l ++ new_version ∷ []) r, known)
            | inr g ↦
                let (ended, same) = gone (reconnects c.rounds true).1 m r in
                simp (g, dies, try_new) (put_old_back-Leaves _ lt (same ∙ b) ended)
          ]))
  ]

  handed_over-Leaves : (r : Machine × Bool) → Leaves c r → Leaves c (end_handover r)
  handed_over-Leaves (m, true) h = h
  handed_over-Leaves (m, false) h = h

  not_copied-Leaves :
      (m : Machine)
      → c.renames 0 ≡ true
      → m.backup ≡ some old_version
      → m.running ≡ []
      → Leaves c (give_up c not_copied (put_back c 0 m).0)
  not_copied-Leaves m f b r =
      let (done, target, running) = put_back-restores c 0 m b f in
      failed-Leaves c (give_up c not_copied (put_back c 0 m).0)
        (give_up-false c not_copied (put_back c 0 m).0)
        (give_up-Runs c not_copied (put_back c 0 m).0 again target (running ∙ r))

  copy_new-Leaves :
      (x : Copied) (m : Machine)
      → c.copied ≡ x
      → k < attempts x
      → m.backup ≡ some old_version
      → m.running ≡ []
      → Leaves c (copy_new c m)
  unfolding copy_new copy_file
  copy_new-Leaves unopened m q lt b r =
      let zeroth : k ≡ 0 = omega arith in
      simp (q, copy_new, copy_file) (not_copied-Leaves m (ap c.renames (sym zeroth) ∙ e) b r)
  copy_new-Leaves partly m q lt b r =
      let zeroth : k ≡ 0 = omega arith in
      simp (q, copy_new, copy_file)
        (not_copied-Leaves (record m { target = some broken }) (ap c.renames (sym zeroth) ∙ e) b r)
  copy_new-Leaves whole m q lt b r =
      simp (q, copy_new, copy_file)
        (handed_over-Leaves
          (try_new c (record m { target = some new_version; handover = c.hands_over }))
          (try_new-Leaves (record m { target = some new_version; handover = c.hands_over }) lt refl
            b r))

-- What the code promises: on every path the updater ends, and either the new version is in place, is the
-- one copy that runs and has told that it reached the server, and then the updater answers success, or
-- the old one is in its place again and is the one copy that runs, even if the new copy exits by itself.
-- The system has to let it: the running copy stops and a killed one ends, a copy that has reached the
-- server runs until the updater has read so, one of the attempts to put the old version back succeeds,
-- and the old version starts.
pub run_update-Leaves :
    (c : Calls) (m : Machine)
    → Runs m
    → c.stops ≡ true
    → c.dies ≡ true
    → c.starts_again ≡ true
    → StaysUp c.rounds
    → PutsBack c
    → Leaves c (run_update c m)
unfolding run_update
run_update-Leaves c m runs stops dies again up (k, lt, e) =
    let stopped : Machine = record m { running = [] } in
    elim (Bool-cases c.moves) [
      | inr f ↦
          simp (stops, run_update)
            (simp (f, run_update)
              (failed-Leaves c (give_up c not_moved stopped) (give_up-false c not_moved stopped)
                (give_up-Runs c not_moved stopped again runs.0 refl)))
      | inl f ↦
          simp (stops, run_update)
            (simp (f, run_update)
              (copy_new-Leaves c k e dies again up c.copied
                (record stopped { target = none; backup = m.target }) refl lt runs.0 refl))
    ]

stranded :
    (c : Calls) (m : Machine)
    → c.renames 0 ≡ false
    → m.target ≡ none
    → m.running ≡ []
    → (give_up c not_copied (put_back c 0 m).0).0.running ≡ []
unfolding put_back give_up start
stranded c m fails t r = elim (Option-cases m.backup) [
  | inl b ↦ ground (arith, fails, t, r, b)
  | inr (exe, b) ↦ ground (arith, fails, t, r, b)
]

-- Where the copy fails and the one attempt to put the old version back fails too, no copy is left
-- running, whatever else works, although the code says that a working copy is left on every failure.
pub run_update-none_left :
    (c : Calls) (m : Machine)
    → c.stops ≡ true
    → c.moves ≡ true
    → c.copied ≡ unopened
    → c.renames 0 ≡ false
    → (run_update c m).0.running ≡ []
unfolding run_update copy_new copy_file
run_update-none_left c m stops moves copied fails =
    let m' : Machine = record m { running = []; target = none; backup = m.target } in
    simp (stops, run_update)
      (simp (moves, run_update)
        (simp (copied, copy_new, copy_file) (stranded c m' fails refl refl)))
