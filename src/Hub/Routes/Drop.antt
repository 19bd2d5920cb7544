-- ===== src/Hub/Routes/Drop.antt =====
-- hub.go, ClearPairedDaemon: the routing tables after a machine has gone.
use sparstrowgen.Prelude.{
  String, ◌≡◌, ◌≢◌, ◌↔◌, sym, ap, [], ◌∷◌, some, none, true, false, ◌==◌, string_eq, nat_eq, arith,
  Bool-cases, Option-cases, inl, inr, eq_iff, is_some,
}
use sparstrowgen.Prelude.Maps.{
  Map, IsMap, lookup, insert, delete, lookup-insert, lookup-delete, delete-IsMap,
}
use sparstrowgen.Hub.State.{Machine, Hub, text_at}
use sparstrowgen.Hub.Machines.{next_primary, drop_paired}
use sparstrowgen.Hub.Routes.{Routes}

-- What the loop of ClearPairedDaemon finds, and what it means that it finds nothing.
next_primary-some :
    (user id : String) (paired : Map String Machine) (users : Map String String)
    → IsMap users
    → next_primary user paired users ≡ some id
    → (lookup id users ≡ some user) × (is_some (lookup id paired) ≡ true)
unfolding next_primary lookup
next_primary-some user id paired [] h e = cc
next_primary-some user id paired ((j, owner) ∷ rest) h e =
    ground (arith, eq_iff owner user, eq_iff j id, h.0, next_primary-some user id paired rest h.1)

next_primary-none :
    (user id : String) (paired : Map String Machine) (users : Map String String)
    → next_primary user paired users ≡ none
    → lookup id users ≡ some user
    → is_some (lookup id paired) ≡ false
unfolding next_primary lookup
next_primary-none user id paired [] e l = cc
next_primary-none user id paired ((j, owner) ∷ rest) e l =
    ground (arith, eq_iff owner user, eq_iff j id, next_primary-none user id paired rest)

text_at-eq_iff :
    (u id : String) (m : Map String String) → id ≢ "" → (text_at u m ≡ id) ↔ (lookup u m ≡ some id)
unfolding text_at
text_at-eq_iff u id m h = elim (Option-cases (lookup u m)) [
  | inl e ↦ rw (e, text_at) ((λ q. absurd (h (sym q))), λ q. cc)
  | inr (v, e) ↦ rw (e, text_at) ((λ q. ap some q), λ q. ground arith)
]

module _ (owner : String → String) (h : Hub) (id : String) (nonempty : id ≢ "")
    (r : Routes owner h) where
  users' : Map String String
  users' = delete id h.paired_users

  paired' : Map String Machine
  paired' = delete id h.paired

  -- The tables without the machine, with a primary chosen anew or kept.
  drop_with :
      (primary : Map String String)
      → ((u j : String)
          → lookup u primary ≡ some j
          → (owner j ≡ u) × (is_some (lookup j paired') ≡ true))
      → ((j : String)
          → is_some (lookup j paired') ≡ true
          → is_some (lookup (owner j) primary) ≡ true)
      → Routes owner (record h { paired = paired'; paired_users = users'; primary = primary })
  unfolding users' paired'
  drop_with primary first chosen = record {
    connected = λ j u e. ground (
      arith,
      lookup-delete id j h.paired_users,
      lookup-delete id j h.paired,
      eq_iff id j,
      r.connected j u,
    );
    known = λ j e. ground (
      arith,
      lookup-delete id j h.paired_users,
      lookup-delete id j h.paired,
      eq_iff id j,
      r.known j,
    );
    first = first;
    chosen = chosen;
    users_map = delete-IsMap id h.paired_users r.users_map;
  }

  users'_iff :
      (j : String)
      → is_some (lookup j paired') ≡ true
      → (lookup j users' ≡ some (owner j)) × (id ≢ j) × (is_some (lookup j h.paired) ≡ true)
  unfolding users' paired'
  users'_iff j e = ground (
    arith,
    lookup-delete id j h.paired_users,
    lookup-delete id j h.paired,
    eq_iff id j,
    r.known j,
  )

  drop_kept :
      lookup (owner id) h.primary ≢ some id
      → Routes owner (record h { paired = paired'; paired_users = users' })
  unfolding paired'
  drop_kept other =
      drop_with h.primary
        (λ u j e. ground (arith, r.first u j, lookup-delete id j h.paired, eq_iff id j))
        (λ j e. r.chosen j (users'_iff j e).2)

  drop_none :
      next_primary (owner id) paired' users' ≡ none
      → lookup (owner id) h.primary ≡ some id
      → Routes owner (record h {
        paired = paired';
        paired_users = users';
        primary = delete (owner id) h.primary;
      })
  unfolding paired'
  drop_none gone mine =
      drop_with (delete (owner id) h.primary)
        (λ u j e. ground (
          arith,
          r.first u j,
          lookup-delete id j h.paired,
          eq_iff id j,
          eq_iff (owner id) u,
          lookup-delete (owner id) u h.primary,
        ))
        (λ j e. ground (
          arith,
          users'_iff j e,
          r.chosen j,
          eq_iff (owner id) (owner j),
          lookup-delete (owner id) (owner j) h.primary,
          next_primary-none (owner id) j paired' users' gone,
        ))

  drop_next :
      (k : String)
      → next_primary (owner id) paired' users' ≡ some k
      → lookup (owner id) h.primary ≡ some id
      → Routes owner (record h {
        paired = paired';
        paired_users = users';
        primary = insert (owner id) k (delete (owner id) h.primary);
      })
  unfolding paired' users'
  drop_next k found mine =
      drop_with _
        (λ u j e. ground (
          arith,
          r.first u j,
          lookup-delete id j h.paired,
          eq_iff id j,
          eq_iff (owner id) u,
          lookup-delete (owner id) u h.primary,
          lookup-insert (owner id) u k (delete (owner id) h.primary),
          found',
          owner_k,
        ))
        (λ j e. ground (
          arith,
          users'_iff j e,
          r.chosen j,
          eq_iff (owner id) (owner j),
          lookup-delete (owner id) (owner j) h.primary,
          lookup-insert (owner id) (owner j) k (delete (owner id) h.primary),
        ))
    where
      found' : (lookup k users' ≡ some (owner id)) × (is_some (lookup k paired') ≡ true)
      found' =
          next_primary-some (owner id) k paired' users' (delete-IsMap id h.paired_users r.users_map)
            found

      owner_k : owner k ≡ owner id
      owner_k = ground (arith, users'_iff k found'.1, found'.0)

  pub drop_paired-Routes : Routes owner (drop_paired (owner id) id h)
  unfolding drop_paired users' paired'
  drop_paired-Routes = elim (Bool-cases (text_at (owner id) h.primary == id)) [
    | inl e ↦
        let mine = (text_at-eq_iff (owner id) id h.primary nonempty).0 ((eq_iff _ _).0 e) in
        elim (Option-cases (next_primary (owner id) paired' users')) [
          | inl gone ↦ rw (e, drop_paired) (rw (gone, drop_paired) (drop_none gone mine))
          | inr (k, found) ↦ rw (e, drop_paired) (rw (found, drop_paired) (drop_next k found mine))
        ]
    | inr e ↦
        rw (e, drop_paired)
          (drop_kept (λ mine. ground (
            arith,
            eq_iff (text_at (owner id) h.primary) id,
            (text_at-eq_iff (owner id) id h.primary nonempty).1 mine,
          )))
  ]
