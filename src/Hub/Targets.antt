-- ===== src/Hub/Targets.antt =====
-- hub.go and machines_in_workspace.go: a machine is online for an account exactly when its work can
-- be routed, and a workspace's work goes to one of its own machines.
use sparstrowgen.Prelude.{
  String, ◌≡◌, ◌≢◌, subst, refl, sym, List, [], ◌∷◌, Option, some, none, true, false, ◌&&◌, ◌==◌,
  string_eq, nat_eq, arith, Bool-cases, Option-cases, inl, inr, eq_iff, is_some, Elem,
}
use sparstrowgen.Prelude.Maps.{Map, IsMap, lookup}
use sparstrowgen.Hub.State.{Machine, Hub, text_at}
use sparstrowgen.Hub.Routing.{
  current_machine, any_paired, daemon_online, is_usable, first_primary, first_usable, target,
}
use sparstrowgen.Hub.Routes.{Routes}

text_at-some : (k v : String) (m : Map String String) → lookup k m ≡ some v → text_at k m ≡ v
unfolding text_at
text_at-some k v m e = rw (e, text_at)

text_at-none : (k : String) (m : Map String String) → lookup k m ≡ none → text_at k m ≡ ""
unfolding text_at
text_at-none k m e = rw (e, text_at)

any_paired-true :
    (user : String) (paired : Map String Machine) (users : Map String String)
    → IsMap users
    → any_paired user paired users ≡ true
    → (id : String) × (lookup id users ≡ some user) × (is_some (lookup id paired) ≡ true)
unfolding any_paired
any_paired-true user paired [] h e = cc
any_paired-true user paired ((j, owner) ∷ rest) h e =
    elim (Bool-cases (owner == user && is_some (lookup j paired))) [
      | inl t ↦ (
        j,
        unfold lookup in ground (arith, eq_iff owner user, eq_iff j j),
        ground (arith, eq_iff owner user),
      )
      | inr t ↦
          let (id, l, p) = any_paired-true user paired rest h.1 (ground arith) in
          (id, unfold lookup in ground (arith, eq_iff j id, h.0), p)
    ]

any_paired_of :
    (user id : String) (paired : Map String Machine) (users : Map String String)
    → lookup id users ≡ some user
    → is_some (lookup id paired) ≡ true
    → any_paired user paired users ≡ true
unfolding any_paired lookup
any_paired_of user id paired [] e p = cc
any_paired_of user id paired ((j, owner) ∷ rest) e p =
    ground (arith, eq_iff owner user, eq_iff j id, any_paired_of user id paired rest)

module _ (owner : String → String) (h : Hub) (r : Routes owner h) (user : String) where
  paired_online :
      any_paired user h.paired h.paired_users ≡ true
      → (k : String) × (lookup user h.primary ≡ some k)
        × (k ≢ "")
        × (is_some (lookup k h.paired) ≡ true)
  paired_online e =
      let (id, l, p) = any_paired-true user h.paired h.paired_users r.users_map e in
      let o : owner id ≡ user = (r.connected id user l).0 in
      let some_primary : is_some (lookup user h.primary) ≡ true =
        subst (λ u. is_some (lookup u h.primary) ≡ true) o (r.chosen id p) in
      elim (Option-cases (lookup user h.primary)) [
        | inl q ↦ ground arith
        | inr (k, q) ↦ let f = r.first user k q in (k, q, (r.connected k _ (r.known k f.1)).1, f.1)
      ]

  online_paired :
      (k : String) → lookup user h.primary ≡ some k → any_paired user h.paired h.paired_users ≡ true
  online_paired k q =
      let f = r.first user k q in
      any_paired_of user k h.paired h.paired_users (ground (arith, r.known k f.1, f.0)) f.1

  -- Where the routing tables agree, an account's daemon counts as online exactly when there is a
  -- machine to which its work is sent.
  pub daemon_online-current_machine : daemon_online h user ≡ is_some (current_machine h user)
  unfolding daemon_online current_machine
  daemon_online-current_machine = elim (Option-cases (lookup user h.machines)) [
    | inr (m, e) ↦ rw (e, current_machine, daemon_online) refl
    | inl e ↦ elim (Bool-cases (any_paired user h.paired h.paired_users)) [
      | inl t ↦
          let (k, q, n, p) = paired_online t in
          ground (arith, text_at-some user k h.primary q, eq_iff k "")
      | inr t ↦ elim (Option-cases (lookup user h.primary)) [
        | inl q ↦ ground (arith, text_at-none user h.primary q, eq_iff (text_at user h.primary) "")
        | inr (k, q) ↦ absurd (ground (arith, online_paired k q))
      ]
    ]
  ]

-- Which machine a workspace's work goes to: the account-wide daemon if there is one; then the
-- account's primary, if the workspace may use it and it is connected; then any other that is.
pub data Chooses (h : Hub) (user : String) (allowed : List String) : Option String → Type 0 where
  legacy : is_some (lookup user h.machines) ≡ true → Chooses h user allowed (some "")
  primary :
      is_some (lookup user h.machines) ≡ false
      → Elem (text_at user h.primary) allowed
      → is_usable h user (text_at user h.primary) ≡ true
      → Chooses h user allowed (some (text_at user h.primary))
  other :
      {id : String}
      → is_some (lookup user h.machines) ≡ false
      → ¬ (
          Elem (text_at user h.primary) allowed
          × (is_usable h user (text_at user h.primary) ≡ true))
      → Elem id allowed
      → is_usable h user id ≡ true
      → Chooses h user allowed (some id)
  nothing :
      is_some (lookup user h.machines) ≡ false
      → ((id : String) → Elem id allowed → is_usable h user id ≡ false)
      → Chooses h user allowed none

first_primary-some :
    (h : Hub) (user p : String) (allowed : List String) {id : String}
    → first_primary h user p allowed ≡ some id
    → (id ≡ p) × Elem id allowed × (is_usable h user id ≡ true)
unfolding first_primary
first_primary-some h user p [] e = cc
first_primary-some h user p (j ∷ js) {id} e =
    ground (arith, eq_iff j p, first_primary-some h user p js {id = id})

first_primary-none :
    (h : Hub) (user p : String) (allowed : List String)
    → first_primary h user p allowed ≡ none
    → ¬ (Elem p allowed × (is_usable h user p ≡ true))
unfolding first_primary
first_primary-none h user p [] e (a, b) = elim a [ ]
first_primary-none h user p (j ∷ js) e (a, b) =
    ground
      (arith, eq_iff j p, λ (q : Elem p js). first_primary-none h user p js (ground arith) (q, b))

first_usable-some :
    (h : Hub) (user : String) (allowed : List String) {id : String}
    → first_usable h user allowed ≡ some id
    → Elem id allowed × (is_usable h user id ≡ true)
unfolding first_usable
first_usable-some h user [] e = cc
first_usable-some h user (j ∷ js) {id} e = ground (arith, first_usable-some h user js {id = id})

first_usable-none :
    (h : Hub) (user : String) (allowed : List String)
    → first_usable h user allowed ≡ none
    → (id : String) → Elem id allowed
    → is_usable h user id ≡ false
unfolding first_usable
first_usable-none h user [] e id a = elim a [ ]
first_usable-none h user (j ∷ js) e id a =
    ground (arith, first_usable-none h user js (ground arith) id)

-- A workspace's work goes to the account-wide daemon if there is one; otherwise to the account's
-- primary, if the workspace may use it and it is connected for the account; otherwise to another of
-- the workspace's machines that is connected for the account; and nowhere if none is.
pub target-Chooses :
    (h : Hub) (user : String) (allowed : List String)
    → Chooses h user allowed (target h user allowed)
unfolding target
target-Chooses h user allowed = elim (Bool-cases (is_some (lookup user h.machines))) [
  | inl e ↦ rw (e, target) (legacy e)
  | inr e ↦ elim (Option-cases (first_primary h user (text_at user h.primary) allowed)) [
    | inr (id, q) ↦
        let (same, a, b) = first_primary-some h user (text_at user h.primary) allowed q in
        rw (e, target)
          (rw (q, target)
            (subst (λ j. Chooses h user allowed (some j)) (sym same)
              (primary e (subst (λ j. Elem j allowed) same a)
                (subst (λ j. is_usable h user j ≡ true) same b))))
    | inl q ↦
        let notp = first_primary-none h user (text_at user h.primary) allowed q in
        elim (Option-cases (first_usable h user allowed)) [
          | inl n ↦
              rw (e, target)
                (rw (q, target) (rw (n, target) (nothing e (first_usable-none h user allowed n))))
          | inr (id, n) ↦
              let (a, b) = first_usable-some h user allowed n in
              rw (e, target) (rw (q, target) (rw (n, target) (other e notp a b)))
        ]
  ]
]
