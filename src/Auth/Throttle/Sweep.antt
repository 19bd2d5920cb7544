-- ===== src/Auth/Throttle/Sweep.antt =====
-- throttle.go: what one client's calls, and the sweeps that they cause, mean for the waits of others.
use sparstrowgen.Prelude.{
  ℕ, ◌≤◌, String, ◌≡◌, ◌≢◌, ◌⊎◌, refl, sym, ap, ◌∙◌, [], ◌∷◌, Option, some, none, inl, inr, arith,
  ltb, string_eq, Bool-cases, Option-cases, eq_iff, length, if◌then◌else◌,
}
use sparstrowgen.Prelude.Maps.{
  IsMap, lookup, delete, insert-IsMap, delete-IsMap, lookup-insert_ne, lookup-delete_ne,
}
use sparstrowgen.Auth.Throttle.{
  Attempts, Throttle, is_stale, wait_of, wait_locked, drop_stale, sweep, record_locked, begin,
}

-- The wait that an entry calls for.
abbrev pub wait_value : ℕ → Option Attempts → ℕ
wait_value now none = 0
wait_value now (some a) = if is_stale now a then 0 else wait_of now a

-- An entry as a sweep leaves it.
abbrev pub unless_stale : ℕ → Option Attempts → Option Attempts
unless_stale now none = none
unless_stale now (some a) = if is_stale now a then none else some a

pub lookup-drop_stale :
    (now : ℕ) (k : String) (t : Throttle)
    → IsMap t
    → lookup k (drop_stale now t) ≡ unless_stale now (lookup k t)
unfolding drop_stale lookup
lookup-drop_stale now k [] h = refl
lookup-drop_stale now k ((j, a) ∷ t) h = elim (Bool-cases (is_stale now a)) [
  | inl e ↦ rw (e, drop_stale) (ground (arith, lookup-drop_stale now k t h.1, eq_iff j k, h.0, e))
  | inr e ↦ rw (e, drop_stale) (ground (arith, lookup-drop_stale now k t h.1, eq_iff j k, h.0, e))
]

pub lookup-sweep :
    (now : ℕ) (k : String) (t : Throttle)
    → IsMap t
    → (lookup k (sweep now t) ≡ lookup k t)
      ⊎ (lookup k (sweep now t) ≡ unless_stale now (lookup k t))
unfolding sweep
lookup-sweep now k t h = elim (Bool-cases (ltb (length t) 1024)) [
  | inl e ↦ rw (e, sweep) (inl refl)
  | inr e ↦ rw (e, sweep) (inr (lookup-drop_stale now k t h))
]

-- What is stale stays stale, so a sweep changes no wait from then on.
wait_value-unless_stale :
    (now later : ℕ) (o : Option Attempts)
    → now ≤ later
    → wait_value later (unless_stale now o) ≡ wait_value later o
unfolding is_stale
wait_value-unless_stale now later none h = refl
wait_value-unless_stale now later (some a) h = ground arith

wait_value-sweep :
    (now later : ℕ) (k : String) (t : Throttle)
    → IsMap t
    → now ≤ later
    → wait_value later (lookup k (sweep now t)) ≡ wait_value later (lookup k t)
wait_value-sweep now later k t h le = elim (lookup-sweep now k t h) [
  | inl e ↦ ap (wait_value later) e
  | inr e ↦ ap (wait_value later) e ∙ wait_value-unless_stale now later (lookup k t) le
]

wait_locked_cases :
    (now : ℕ) (client : String) (t : Throttle)
    → ((wait_locked now client t).0 ≡ t) ⊎ ((wait_locked now client t).0 ≡ delete client t)
unfolding wait_locked
wait_locked_cases now client t = elim (Option-cases (lookup client t)) [
  | inl e ↦ rw (e, wait_locked) (inl refl)
  | inr (a, e) ↦ elim (Bool-cases (is_stale now a)) [
    | inl q ↦ rw (e, wait_locked) (rw (q, wait_locked) (inr refl))
    | inr q ↦ rw (e, wait_locked) (rw (q, wait_locked) (inl refl))
  ]
]

pub wait_locked-IsMap :
    (now : ℕ) (client : String) (t : Throttle) → IsMap t → IsMap (wait_locked now client t).0
wait_locked-IsMap now client t h = elim (wait_locked_cases now client t) [
  | inl e ↦ rw e h
  | inr e ↦ rw e (delete-IsMap client t h)
]

lookup-wait_locked_ne :
    (now : ℕ) {client other : String} (t : Throttle)
    → client ≢ other
    → lookup other (wait_locked now client t).0 ≡ lookup other t
lookup-wait_locked_ne now {client} t h = elim (wait_locked_cases now client t) [
  | inl e ↦ rw e refl
  | inr e ↦ rw e (lookup-delete_ne t h)
]

pub wait_locked-wait_value :
    (now : ℕ) (client : String) (t : Throttle)
    → (wait_locked now client t).1 ≡ wait_value now (lookup client t)
unfolding wait_locked
wait_locked-wait_value now client t = elim (Option-cases (lookup client t)) [
  | inl e ↦ rw (e, wait_locked) refl
  | inr (a, e) ↦ elim (Bool-cases (is_stale now a)) [
    | inl q ↦ rw (e, wait_locked) (rw q refl)
    | inr q ↦ rw (e, wait_locked) (rw q refl)
  ]
]

record_locked_other :
    (now later : ℕ) (client other : String) (t : Throttle)
    → IsMap t
    → client ≢ other
    → now ≤ later
    → wait_value later (lookup other (record_locked now client t))
      ≡ wait_value later (lookup other t)
unfolding record_locked
record_locked_other now later client other t h ne le =
    wait_value-sweep now later other _ (insert-IsMap client _ t h) le
    ∙ ap (wait_value later) (lookup-insert_ne _ t ne)

-- One client's attempt changes no other client's wait, now or at any later time, though it may
-- sweep the other's entry away.
pub begin_other :
    (now later : ℕ) (client other : String) (t : Throttle)
    → IsMap t
    → client ≢ other
    → now ≤ later
    → (wait_locked later other (begin now client t).0).1 ≡ (wait_locked later other t).1
unfolding begin
begin_other now later client other t h ne le =
    let same = ap (wait_value later) (lookup-wait_locked_ne now t ne) in
    elim (Bool-cases (ltb 0 (wait_locked now client t).1)) [
      | inl e ↦
          rw (e, begin)
            (wait_locked-wait_value later other _
              ∙ same
              ∙ sym (wait_locked-wait_value later other t))
      | inr e ↦
          rw (e, begin)
            (wait_locked-wait_value later other _
              ∙ record_locked_other now later client other _ (wait_locked-IsMap now client t h) ne
                  le
              ∙ same
              ∙ sym (wait_locked-wait_value later other t))
    ]

drop_stale-IsMap : (now : ℕ) (t : Throttle) → IsMap t → IsMap (drop_stale now t)
unfolding drop_stale
drop_stale-IsMap now [] h = tt
drop_stale-IsMap now ((k, a) ∷ t) h = elim (Bool-cases (is_stale now a)) [
  | inl e ↦ rw (e, drop_stale) (drop_stale-IsMap now t h.1)
  | inr e ↦
      rw (e, drop_stale) (lookup-drop_stale now k t h.1 ∙ rw h.0 refl, drop_stale-IsMap now t h.1)
]

pub sweep-IsMap : (now : ℕ) (t : Throttle) → IsMap t → IsMap (sweep now t)
unfolding sweep
sweep-IsMap now t h = elim (Bool-cases (ltb (length t) 1024)) [
  | inl e ↦ rw (e, sweep) h
  | inr e ↦ rw (e, sweep) (drop_stale-IsMap now t h)
]

pub begin-IsMap :
    (now : ℕ) (client : String) (t : Throttle) → IsMap t → IsMap (begin now client t).0
unfolding begin record_locked
begin-IsMap now client t h =
    let h' = wait_locked-IsMap now client t h in
    elim (Bool-cases (ltb 0 (wait_locked now client t).1)) [
      | inl e ↦ rw (e, begin) h'
      | inr e ↦ rw (e, begin) (sweep-IsMap now _ (insert-IsMap client _ _ h'))
    ]
