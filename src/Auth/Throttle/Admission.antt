-- ===== src/Auth/Throttle/Admission.antt =====
-- throttle.go, Begin: when an attempt is admitted, what that records, and how many get through.
use Prim.Native.Nat.{min}
use sparstrowgen.Prelude.{
  ℕ, zero, suc, ◌+◌, ◌-◌, ◌≤◌, ◌<◌, String, ◌≡◌, ◌⊎◌, refl, ap, ◌∙◌, Option, some, none, inl, inr,
  true, false, arith, ltb, leb, string_eq, Bool-cases, Option-cases, if◌then◌else◌,
}
use sparstrowgen.Prelude.Maps.{
  IsMap, lookup, insert, lookup-insert_self, lookup-delete_self, insert-IsMap,
}
use sparstrowgen.Auth.Throttle.{
  max_delay, Attempts, Throttle, is_stale, wait_of, delay_after, wait_locked, entry_for,
  record_locked, begin,
}
use sparstrowgen.Auth.Throttle.Delays.{delay_after_bounds}
use sparstrowgen.Auth.Throttle.Sweep.{
  wait_value, lookup-sweep, wait_locked-wait_value, wait_locked-IsMap, begin-IsMap,
}

-- The attempts that count against a client at a time.
abbrev pub counted : ℕ → Option Attempts → ℕ
counted now o = (entry_for now o).failures

recorded : ℕ → ℕ → Attempts
recorded now n = record { failures = n; last = now }

lookup-record_locked :
    (now : ℕ) (client : String) (t : Throttle)
    → IsMap t
    → lookup client (record_locked now client t)
      ≡ some (recorded now (counted now (lookup client t) + 1))
unfolding record_locked recorded is_stale
lookup-record_locked now client t h =
    let a = recorded now (counted now (lookup client t) + 1) in
    let e = lookup-insert_self client a t in
    elim (lookup-sweep now client (insert client a t) (insert-IsMap client a t h)) [
      | inl q ↦ q ∙ e
      | inr q ↦ q ∙ rw e (ground arith)
    ]

-- The waiting entry is kept, and a stale one forgotten: what counts is the same.
counted-wait_locked :
    (now : ℕ) (client : String) (t : Throttle)
    → counted now (lookup client (wait_locked now client t).0) ≡ counted now (lookup client t)
unfolding wait_locked entry_for
counted-wait_locked now client t = elim (Option-cases (lookup client t)) [
  | inl e ↦ rw (e, wait_locked) (rw e refl)
  | inr (a, e) ↦ elim (Bool-cases (is_stale now a)) [
    | inl q ↦
        rw (e, wait_locked)
          (rw (q, wait_locked)
            (ap (counted now) (lookup-delete_self client t) ∙ ground (arith, e, q)))
    | inr q ↦ rw (e, wait_locked) (rw (q, wait_locked) (rw e refl))
  ]
]

waiting_kept :
    (now : ℕ) (client : String) (t : Throttle)
    → 0 < (wait_locked now client t).1
    → (wait_locked now client t).0 ≡ t
unfolding wait_locked
waiting_kept now client t h = ground arith

-- An attempt is admitted exactly when the client has nothing to wait, and is then counted at once,
-- on top of what was counted within the window; otherwise it is refused with the time to wait, and
-- nothing changes.
pub begin_exact :
    (now : ℕ) (client : String) (t : Throttle)
    → IsMap t
    → let w = wait_value now (lookup client t) in
      let r = begin now client t in
      ((w ≡ 0)
        × (r.1 ≡ (0, true))
        × (lookup client r.0
            ≡ some (record { failures = counted now (lookup client t) + 1; last = now })))
      ⊎ ((0 < w) × (r ≡ (t, (w, false))))
unfolding begin recorded
begin_exact now client t h =
    let e = wait_locked-wait_value now client t in
    elim (Bool-cases (ltb 0 (wait_locked now client t).1)) [
      | inl p ↦
          inr (ground (arith, e), rw (p, begin) (ground (arith, e, waiting_kept now client t)))
      | inr p ↦ inl (
        ground (arith, e),
        rw (p, begin) refl,
        rw (p, begin)
            (lookup-record_locked now client _ (wait_locked-IsMap now client t h)
              ∙ ground (arith, counted-wait_locked now client t)),
      )
    ]

begin-wait_value :
    (now : ℕ) (client : String) (t : Throttle)
    → let w = wait_value now (lookup client t) in
      (begin now client t).1 ≡ (if ltb 0 w then (w, false) else (0, true))
unfolding begin
begin-wait_value now client t =
    let e = wait_locked-wait_value now client t in
    elim (Bool-cases (ltb 0 (wait_locked now client t).1)) [
      | inl p ↦ rw (p, begin) (ground (arith, e))
      | inr p ↦ rw (p, begin) (ground (arith, e))
    ]

refused_kept :
    (now : ℕ) (client : String) (t : Throttle)
    → (begin now client t).1.1 ≡ false
    → (begin now client t).0 ≡ t
unfolding begin
refused_kept now client t r = elim (Bool-cases (ltb 0 (wait_locked now client t).1)) [
  | inl p ↦ rw (p, begin) (waiting_kept now client t (ground arith))
  | inr p ↦ absurd (ground (arith, p))
]

-- While an entry makes its client wait, it does so until the delay has passed since its last
-- failure, which is long before the entry turns stale.
wait_value-later :
    (now later : ℕ) (a : Attempts)
    → a.last ≤ now
    → now ≤ later
    → 0 < wait_value now (some a)
    → wait_value later (some a) ≡ a.last + delay_after a.failures - later
unfolding is_stale wait_of
wait_value-later now later a past le w = ground (arith, delay_after_bounds a.failures)

-- A refused client that comes back is told exactly what is left of the wait, and is admitted from
-- the moment it has passed: the answer is always a time, and keeping it is always enough.
pub begin_again :
    (now later : ℕ) (client : String) (t : Throttle) (a : Attempts)
    → lookup client t ≡ some a
    → a.last ≤ now
    → now ≤ later
    → (begin now client t).1.1 ≡ false
    → let d = (begin now client t).1.0 in
      (0 < d)
      × (d ≤ max_delay)
      × ((begin later client (begin now client t).0).1
          ≡ (if leb (now + d) later then (0, true) else (now + d - later, false)))
begin_again now later client t a e past le refused =
    let o = ap (wait_value now) e in
    let first = begin-wait_value now client t in
    let pos : 0 < wait_value now (some a) = ground (arith, first, o, refused) in
    let now' = wait_value-later now now a past (omega arith) pos in
    let later' = wait_value-later now later a past le pos in
    (
      ground (arith, first, o, pos),
      ground (arith, first, o, pos, now', delay_after_bounds a.failures),
      rw (refused_kept now client t refused) (
          begin-wait_value later client t
          ∙ ground (arith, first, o, pos, now', later', ap (wait_value later) e)),
    )

-- `k` attempts of one client in the same instant: how many are admitted.
unfoldable pub burst : ℕ → ℕ → String → Throttle → ℕ
burst zero now client t = 0
burst (suc k) now client t =
    let r = begin now client t in (if r.1.1 then 1 else 0) + burst k now client r.0

wait_value_now :
    (now n : ℕ) → wait_value now (some (recorded now n)) ≡ (if ltb n 5 then 0 else delay_after n)
unfolding recorded is_stale wait_of
wait_value_now now n = ground (arith, delay_after_bounds n)

counted_now : (now n : ℕ) → counted now (some (recorded now n)) ≡ n
unfolding recorded is_stale entry_for
counted_now now n = ground arith

burst_from :
    (k now n : ℕ) (client : String) (t : Throttle)
    → IsMap t
    → lookup client t ≡ some (recorded now n)
    → burst k now client t ≡ min k (5 - n)
unfolding burst
burst_from zero now n client t m e = omega arith
burst_from (suc k) now n client t m e =
    let w = ap (wait_value now) e ∙ wait_value_now now n in
    elim (begin_exact now client t m) [
      | inl (none_left, r, l) ↦
          let l' = l ∙ rw (ap (counted now) e ∙ counted_now now n) (unfold recorded in refl) in
          rw r (
            ground (
              arith,
              w,
              none_left,
              burst_from k now (n + 1) client (begin now client t).0 (begin-IsMap now client t m)
                  l',
              delay_after_bounds n,
            ))
      | inr (some_left, r) ↦
          rw r (ground (arith, w, some_left, burst_from k now n client t m e, delay_after_bounds n))
    ]

-- However many attempts of one client arrive in the same instant, five are admitted when nothing
-- counted against it before, and every further one is refused.
pub burst_five :
    (k now : ℕ) (client : String) (t : Throttle)
    → IsMap t
    → lookup client t ≡ none
    → burst k now client t ≡ min k 5
unfolding burst
burst_five zero now client t m e = omega arith
burst_five (suc k) now client t m e = elim (begin_exact now client t m) [
  | inl (none_left, r, l) ↦ rw r (
      omega (
        arith,
        burst_from k now 1 client (begin now client t).0 (begin-IsMap now client t m)
            (l ∙ rw e (unfold recorded entry_for in refl)),
      ))
  | inr (some_left, r) ↦ absurd (ground (arith, some_left, e))
]
