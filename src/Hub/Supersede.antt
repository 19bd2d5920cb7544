-- ===== src/Hub/Supersede.antt =====
-- hub.go, SetDaemon and ClearDaemon, SetPairedDaemon and ClearPairedDaemon: a teardown that comes
-- after its connection was replaced.
use sparstrowgen.Prelude.{
  ℕ, String, ◌≡◌, ◌≢◌, ◌⊎◌, refl, ap, ◌∙◌, Option, some, none, true, false, string_eq, nat_eq,
  arith, Bool-cases, inl, inr,
}
use sparstrowgen.Prelude.Maps.{lookup, lookup-insert_self, lookup-delete_self}
use sparstrowgen.Protocol.{ClientEvent}
use sparstrowgen.Hub.State.{Machine, Hub, Sys, World, close}
use sparstrowgen.Hub.Browsers.{broadcast_to}
use sparstrowgen.Hub.Routing.{online_event, providers_event, daemon_event}
use sparstrowgen.Hub.Machines.{
  fresh_machine, close_old, is_current, set_daemon, clear_daemon, set_paired_daemon, drop_paired,
  clear_paired_daemon,
}
use sparstrowgen.Hub.Isolation.{broadcast_to-OnlyClients}

broadcast-machines :
    (w : World) (user : String) (ev : ClientEvent) (s : Sys)
    → ((broadcast_to w user ev s).hub.machines ≡ s.hub.machines)
      × ((broadcast_to w user ev s).hub.paired ≡ s.hub.paired)
broadcast-machines w user ev s =
    let e = broadcast_to-OnlyClients w user ev s in
    (ap (λ (h : Hub). h.machines) e, ap (λ (h : Hub). h.paired) e)

close_old-hub : (o : Option Machine) (s : Sys) → (close_old o s).hub ≡ s.hub
unfolding close_old
close_old-hub none s = refl
close_old-hub (some m) s = refl

lookup-set_daemon :
    (w : World) (user : String) (c : ℕ) (s : Sys)
    → lookup user (set_daemon w user c s).hub.machines ≡ some (fresh_machine c)
unfolding set_daemon
lookup-set_daemon w user c s =
    ap (lookup user) (
      (broadcast-machines w user (online_event true) _).0
      ∙ ap (λ (h : Hub). h.machines) (close_old-hub (lookup user s.hub.machines) _))
    ∙ lookup-insert_self user (fresh_machine c) s.hub.machines

lookup-set_paired_daemon :
    (w : World) (user id : String) (c : ℕ) (s : Sys)
    → lookup id (set_paired_daemon w user id c s).hub.paired ≡ some (fresh_machine c)
unfolding set_paired_daemon
lookup-set_paired_daemon w user id c s =
    ap (lookup id) (
      (broadcast-machines w user (online_event true) _).1
      ∙ ap (λ (h : Hub). h.paired) (close_old-hub (lookup id s.hub.paired) _))
    ∙ lookup-insert_self id (fresh_machine c) s.hub.paired

not_current :
    (c d : ℕ) (o : Option Machine) → o ≡ some (fresh_machine d) → c ≢ d → is_current c o ≡ false
unfolding is_current fresh_machine
not_current c d o e h = ground (arith, e, nat_eq.beq_iff d c)

-- A daemon connects on `d`; a late teardown of any other connection of the account reports that it
-- was not the current one, closes its own socket and changes nothing else: nothing is announced, and
-- the machine stays on `d`.
pub clear_daemon_superseded :
    (w : World) (user : String) (c d : ℕ) (s : Sys)
    → c ≢ d
    → let t = set_daemon w user d s in
      (clear_daemon w user c t ≡ (close c t, false))
      × (lookup user t.hub.machines ≡ some (fresh_machine d))
unfolding clear_daemon
clear_daemon_superseded w user c d s h =
    let e = lookup-set_daemon w user d s in (rw (not_current c d _ e h, clear_daemon), e)

-- A paired computer connects on `d`; a late teardown of any other connection of it reports that it
-- was not the current one, closes its own socket and changes nothing else: nothing is announced, and
-- the computer stays on `d`.
pub clear_paired_daemon_superseded :
    (w : World) (user id : String) (c d : ℕ) (s : Sys)
    → c ≢ d
    → let t = set_paired_daemon w user id d s in
      (clear_paired_daemon w user id c t ≡ (close c t, false))
      × (lookup id t.hub.paired ≡ some (fresh_machine d))
unfolding clear_paired_daemon
clear_paired_daemon_superseded w user id c d s h =
    let e = lookup-set_paired_daemon w user id d s in
    (rw (not_current c d _ e h, clear_paired_daemon), e)

is_current-some :
    (c : ℕ) (o : Option Machine)
    → is_current c o ≡ true
    → (m : Machine) × (o ≡ some m) × (m.conn ≡ c)
unfolding is_current
is_current-some c none e = cc
is_current-some c (some m) e = (m, refl, ground (arith, nat_eq.beq_iff m.conn c))

-- ClearPairedDaemon answers true only for the connection that the machine is on, and then the
-- machine is connected no longer; when it answers false, only the socket is closed.
pub clear_paired_daemon_answer :
    (w : World) (user id : String) (c : ℕ) (s : Sys)
    → let r = clear_paired_daemon w user id c s in
      ((r.1 ≡ true)
        × ((m : Machine) × (lookup id s.hub.paired ≡ some m) × (m.conn ≡ c))
        × (lookup id r.0.hub.paired ≡ none))
      ⊎ (r ≡ (close c s, false))
unfolding clear_paired_daemon
clear_paired_daemon_answer w user id c s =
    elim (Bool-cases (is_current c (lookup id s.hub.paired))) [
      | inr e ↦ inr (rw (e, clear_paired_daemon))
      | inl e ↦ inl (
        rw (e, clear_paired_daemon),
        is_current-some c _ e,
        rw (e, clear_paired_daemon)
            (ap (lookup id) (
                (broadcast-machines w user (providers_event s₂.hub user) s₂).1
                ∙ (broadcast-machines w user (daemon_event w s₁.hub user) s₁).1)
              ∙ unfold close drop_paired in lookup-delete_self id s.hub.paired),
      )
    ]
  where
    s₁ : Sys
    s₁ = close c (record s { hub = drop_paired user id s.hub })

    s₂ : Sys
    s₂ = broadcast_to w user (daemon_event w s₁.hub user) s₁
