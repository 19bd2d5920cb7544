-- ===== src/Hub/Routes.antt =====
-- hub.go, the machines: the routing tables agree, whatever the order of connections and teardowns.
pub mod Drop
use sparstrowgen.Prelude.{
  ℕ, String, ◌≡◌, ◌≢◌, ◌⊎◌, ◌↔◌, subst, refl, sym, ap, ◌∙◌, List, [], ◌∷◌, Option, some, none, Bool,
  true, false, not, ◌&&◌, ◌||◌, ◌==◌, string_eq, nat_eq, arith, Bool-cases, Option-cases, inl, inr,
  eq_iff, is_some, if◌then◌else◌,
}
use sparstrowgen.Prelude.Maps.{
  Map, IsMap, lookup, insert, delete, lookup-insert, lookup-delete, insert-IsMap, delete-IsMap,
}
use sparstrowgen.Hub.State.{Machine, Hub, Sys, World, text_at, close}
use sparstrowgen.Hub.Routing.{current_machine, any_paired, daemon_online}
use sparstrowgen.Hub.Machines.{
  fresh_machine, close_old, set_daemon, is_current, clear_daemon, set_paired_daemon, next_primary,
  drop_paired, clear_paired_daemon, update_at, update_current, set_providers,
}

-- The same machines are paired, to the same accounts, with the same primaries.
abbrev pub SameRoutes : Hub → Hub → Type 0
SameRoutes h g =
    ((id : String) → is_some (lookup id g.paired) ≡ is_some (lookup id h.paired))
    × (g.paired_users ≡ h.paired_users)
    × (g.primary ≡ h.primary)

module _ (owner : String → String) where
  -- The tables of paired machines agree with each other and with `owner`, the account to which the
  -- server has paired each machine. An account with a machine has a primary.
  pub record Routes (h : Hub) : Type 0 where
    pub connected :
        (id u : String)
        → lookup id h.paired_users ≡ some u
        → (owner id ≡ u) × (id ≢ "") × (is_some (lookup id h.paired) ≡ true)
    pub known :
        (id : String)
        → is_some (lookup id h.paired) ≡ true
        → lookup id h.paired_users ≡ some (owner id)
    pub first :
        (u id : String)
        → lookup u h.primary ≡ some id
        → (owner id ≡ u) × (is_some (lookup id h.paired) ≡ true)
    pub chosen :
        (id : String)
        → is_some (lookup id h.paired) ≡ true
        → is_some (lookup (owner id) h.primary) ≡ true
    pub users_map : IsMap h.paired_users

  pub set_paired-Routes :
      (h : Hub) (id : String) (m : Machine)
      → id ≢ ""
      → Routes h
      → Routes (record h {
        paired = insert id m h.paired;
        paired_users = insert id (owner id) h.paired_users;
        primary = insert (owner id) id h.primary;
      })
  set_paired-Routes h id m nonempty r = record {
    connected = λ j u e. ground (
      arith,
      lookup-insert id j (owner id) h.paired_users,
      lookup-insert id j m h.paired,
      eq_iff id j,
      r.connected j u,
    );
    known = λ j e. ground (
      arith,
      lookup-insert id j (owner id) h.paired_users,
      lookup-insert id j m h.paired,
      eq_iff id j,
      r.known j,
    );
    first = λ u j e. ground (
      arith,
      lookup-insert (owner id) u id h.primary,
      lookup-insert id j m h.paired,
      eq_iff id j,
      eq_iff (owner id) u,
      r.first u j,
    );
    chosen = λ j e. ground (
      arith,
      lookup-insert (owner id) (owner j) id h.primary,
      lookup-insert id j m h.paired,
      eq_iff id j,
      eq_iff (owner id) (owner j),
      r.chosen j,
    );
    users_map = insert-IsMap id (owner id) h.paired_users r.users_map;
  }

  pub SameRoutes-Routes : {h g : Hub} → SameRoutes h g → Routes h → Routes g
  SameRoutes-Routes {h} {g} (p, q, f) r = record {
    connected = λ id u e. ground (arith, p id, q, r.connected id u);
    known = λ id e. ground (arith, p id, q, r.known id);
    first = λ u id e. ground (arith, p id, f, r.first u id);
    chosen = λ id e. ground (arith, p id, f, r.chosen id);
    users_map = rw q r.users_map;
  }

pub is_some-update_at :
    (f : Machine → Machine) (k id : String) (m : Map String Machine)
    → is_some (lookup id (update_at f k m)) ≡ is_some (lookup id m)
unfolding update_at
is_some-update_at f k id m = elim (Option-cases (lookup k m)) [
  | inl e ↦ rw (e, update_at)
  | inr (x, e) ↦ rw (e, update_at) (ground (arith, lookup-insert k id (f x) m, eq_iff k id))
]
