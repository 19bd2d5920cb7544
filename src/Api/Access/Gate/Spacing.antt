-- ===== src/Api/Access/Gate/Spacing.antt =====
-- accounts.go, sendGate: how long an address waits after an email, whatever goes to others.
use sparstrowgen.Prelude.{
  ℕ, ◌-◌, ◌≤◌, ◌<◌, ◌≡◌, ◌≢◌, refl, subst, ◌∙◌, ◌⊎◌, List, [], ◌∷◌, some, none, ltb, if◌then◌else◌,
  length, arith, ◌==◌, Bool-cases, inl, inr,
}
use sparstrowgen.Prelude.Maps.{
  lookup, insert, lookup-insert_self, lookup-insert_ne, IsMap, insert-IsMap,
}
use sparstrowgen.Text.{Text}
use sparstrowgen.Text.Equality.{text_eq_instance, text_eq_iff}
use sparstrowgen.Api.Access.Gate.{Gate, hour, wait, drop_old, mark}

-- Emails that went to others, by the time `now`.
abbrev pub OthersBy : ℕ → Text → List (Text × ℕ) → Type 0
OthersBy now key [] = Unit {0}
OthersBy now key ((k, t) ∷ ms) = (k ≢ key) × (t ≤ now) × OthersBy now key ms

unfoldable pub mark_all : List (Text × ℕ) → Gate → Gate
unfolding mark
mark_all [] g = g
mark_all ((k, t) ∷ ms) g = mark_all ms (mark k t g)

-- What the gate still knows of an email at `sent`: its time, unless more than an hour had passed.
abbrev Knows : Text → ℕ → ℕ → Gate → Type 0
Knows key sent now g = (lookup key g ≡ some sent) ⊎ ((lookup key g ≡ none) × (hour < now - sent))

drop_old-absent :
    (now : ℕ) (key : Text) (g : Gate) → lookup key g ≡ none → lookup key (drop_old now g) ≡ none
unfolding drop_old lookup
drop_old-absent now key [] h = refl
drop_old-absent now key ((k, t) ∷ g) h =
    ground (arith, drop_old-absent now key g, text_eq_iff k key, h)

lookup-drop_old :
    (now : ℕ) (key : Text) (g : Gate)
    → IsMap g
    → lookup key (drop_old now g)
      ≡ elim (lookup key g) [ none ↦ none | some t ↦ if ltb hour (now - t) then none else some t ]
unfolding drop_old lookup
lookup-drop_old now key [] h = refl
lookup-drop_old now key ((k, t) ∷ g) h = elim (Bool-cases (k == key)) [
  | inl e ↦
      let q = (text_eq_iff k key).0 e in
      let gone : lookup key g ≡ none = subst (λ z. lookup z g ≡ none) q h.0 in
      ground (arith, e, drop_old-absent now key g gone)
  | inr e ↦ ground (arith, e, lookup-drop_old now key g h.1)
]

drop_old-IsMap : (now : ℕ) (g : Gate) → IsMap g → IsMap (drop_old now g)
unfolding drop_old
drop_old-IsMap now [] h = tt
drop_old-IsMap now ((k, t) ∷ g) h = elim (Bool-cases (ltb hour (now - t))) [
  | inl e ↦ rw (e, drop_old) (drop_old-IsMap now g h.1)
  | inr e ↦ rw (e, drop_old) (drop_old-absent now k g h.0, drop_old-IsMap now g h.1)
]

mark-IsMap : (key : Text) (t : ℕ) (g : Gate) → IsMap g → IsMap (mark key t g)
unfolding mark
mark-IsMap key t g h = elim (Bool-cases (ltb 4096 (length (insert key t g)))) [
  | inl e ↦ rw (e, mark) (drop_old-IsMap t _ (insert-IsMap key t g h))
  | inr e ↦ rw (e, mark) (insert-IsMap key t g h)
]

drop_old-Knows :
    (key : Text) (sent t now : ℕ) (g : Gate)
    → IsMap g
    → t ≤ now
    → Knows key sent now g
    → Knows key sent now (drop_old t g)
drop_old-Knows key sent t now g h b (inr (e, old)) = inr (drop_old-absent t key g e, old)
drop_old-Knows key sent t now g h b (inl e) = elim (Bool-cases (ltb hour (t - sent))) [
  | inl old ↦ inr (ground (arith, lookup-drop_old t key g h, e, old), ground (arith, old, b))
  | inr new ↦ inl (ground (arith, lookup-drop_old t key g h, e, new))
]

mark-Knows :
    (key k : Text) (sent t now : ℕ) (g : Gate)
    → IsMap g
    → k ≢ key
    → t ≤ now
    → Knows key sent now g
    → Knows key sent now (mark k t g)
unfolding mark
mark-Knows key k sent t now g h other b knows =
    let marked : Knows key sent now (insert k t g) = elim knows [
      | inl e ↦ inl (lookup-insert_ne t g other ∙ e)
      | inr (e, old) ↦ inr (lookup-insert_ne t g other ∙ e, old)
    ] in
    elim (Bool-cases (ltb 4096 (length (insert k t g)))) [
      | inl e ↦ rw (e, mark) (drop_old-Knows key sent t now _ (insert-IsMap k t g h) b marked)
      | inr e ↦ rw (e, mark) marked
    ]

mark_all-Knows :
    (key : Text) (sent now : ℕ) (ms : List (Text × ℕ)) (g : Gate)
    → IsMap g
    → OthersBy now key ms
    → Knows key sent now g
    → Knows key sent now (mark_all ms g)
unfolding mark_all
mark_all-Knows key sent now [] g h o knows = knows
mark_all-Knows key sent now ((k, t) ∷ ms) g h o knows =
    mark_all-Knows key sent now ms (mark k t g) (mark-IsMap k t g h) o.2
      (mark-Knows key k sent t now g h o.0 o.1 knows)

self_mark-Knows :
    (key : Text) (sent now : ℕ) (g : Gate) → IsMap g → Knows key sent now (mark key sent g)
unfolding mark
self_mark-Knows key sent now g h =
    let e = lookup-insert_self key sent g in
    elim (Bool-cases (ltb 4096 (length (insert key sent g)))) [
      | inl f ↦
          rw (f, mark)
            (inl (
              ground (
                arith,
                lookup-drop_old sent key (insert key sent g) (insert-IsMap key sent g h),
                e,
              )))
      | inr f ↦ rw (f, mark) (inl e)
    ]

-- After an email of a kind to an address, that address waits for what is left of the gap, to the
-- instant, whatever emails go to others in between and although the gate forgets old ones. The gap is
-- at most an hour.
pub wait-mark :
    (key : Text) (gap sent now : ℕ) (others : List (Text × ℕ)) (g : Gate)
    → IsMap g
    → gap ≤ hour
    → OthersBy now key others
    → wait key gap now (mark_all others (mark key sent g)) ≡ gap - (now - sent)
unfolding wait
wait-mark key gap sent now others g h b o =
    let m = mark key sent g in
    elim (mark_all-Knows key sent now others m (mark-IsMap key sent g h) o
      (self_mark-Knows key sent now g h)) [
        | inl e ↦ rw (e, wait) (ground arith)
        | inr (e, old) ↦ rw (e, wait) (omega arith)
      ]
