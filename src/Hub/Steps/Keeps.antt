-- ===== src/Hub/Steps/Keeps.antt =====
-- Every call of the hub keeps its routing tables in agreement, and its clients a map.
use sparstrowgen.Prelude.{
  ℕ, String, ◌≢◌, subst, sym, List, [], ◌∷◌, Bool, true, false, not, ◌==◌, string_eq, nat_eq,
  Bool-cases, Option-cases, inl, inr, is_some, All, if◌then◌else◌,
}
use sparstrowgen.Prelude.Maps.{lookup, insert, insert-IsMap, delete-IsMap}
use sparstrowgen.Protocol.{ClientEvent}
use sparstrowgen.Hub.State.{Client, Machine, Hub, Sys, World, text_at, close, new}
use sparstrowgen.Hub.Browsers.{
  send_to, broadcast_to, add_client, remove_client, disconnect_user, disconnect_session,
}
use sparstrowgen.Hub.Machines.{
  is_current, set_daemon, clear_daemon, set_paired_daemon, drop_paired, clear_paired_daemon,
  update_current, set_paired_providers, disconnect_machine, set_providers, set_headroom,
  set_machine_hello, set_machine_update, set_chats_dir, fresh_machine,
}
use sparstrowgen.Hub.Requests.{reply_of, ask_reply, ask_cancel}
use sparstrowgen.Hub.Routes.{set_paired-Routes}
use sparstrowgen.Hub.Routes.Drop.{drop_paired-Routes}
use sparstrowgen.Hub.Steps.{
  Call, step, run, initial, IsHonest, after_reply, adds_client, removes_client, disconnects_user,
  disconnects_session, disconnects_machine, broadcasts, sets_daemon, clears_daemon, sets_paired,
  clears_paired, sets_paired_providers, sets_providers, sets_headroom, says_hello, sets_update,
  sets_chats_dir, sends, sends_machine, sends_workspace, sends_running, asks, asks_machine, asks_in,
  takes_reply, cancels, delivers,
}
use sparstrowgen.Hub.Steps.Writes.{
  send_to_daemon-Same, send_to_machine-Same, send_to_running_machine-Same,
  send_to_workspace_daemon-Same, ask-Same, ask_machine-Same, ask_in-Same, forget-Same, deliver-Same,
}
use sparstrowgen.Hub.Steps.Same.{
  Good, Same, Same-Good, Same-refl, Same-trans, Same-of_eq, send_to-Same, broadcast-Same,
  close_old-hub, update_paired-Same, machines_Same, clients_Same, disconnect-Same,
}

disconnect_session-Same : (hash : String) (s : Sys) → Same s.hub (disconnect_session hash s).0.hub
unfolding disconnect_session
disconnect_session-Same hash s = elim (Bool-cases (hash == "")) [
  | inl e ↦ rw (e, disconnect_session) (Same-refl s.hub)
  | inr e ↦ rw (e, disconnect_session) (disconnect-Same (λ c. c.session_hash == hash) s)
]

after_reply-Same : (id : String) (s : Sys) → Same s.hub (after_reply s (ask_reply id s)).hub
unfolding ask_reply
after_reply-Same id s = elim (Option-cases (reply_of (lookup id s.hub.pending))) [
  | inl e ↦ rw (e, ask_reply) (Same-refl s.hub)
  | inr (m, e) ↦ rw (e, ask_reply) (forget-Same id s)
]

module _ (owner : String → String) (w : World) where
  announced :
      (user : String) (ev : ClientEvent) (s : Sys)
      → Good owner s.hub
      → Good owner (broadcast_to w user ev s).hub
  announced user ev s g = Same-Good owner (broadcast-Same w user ev s) g

  -- `if m != nil { BroadcastTo }` after a change that is no change here.
  changed :
      (b : Bool) (user : String) (ev : ClientEvent) (s : Sys) (h : Hub)
      → Same s.hub h
      → Good owner s.hub
      → Good owner (if b then broadcast_to w user ev (record s { hub = h }) else s).hub
  changed true user ev s h e g = announced user ev (record s { hub = h }) (Same-Good owner e g)
  changed false user ev s h e g = g

  add_client-Good :
      (c : ℕ) (user session : String) (s : Sys)
      → Good owner s.hub
      → Good owner (add_client w c user session s).hub
  unfolding add_client
  add_client-Good c user session s = Same-Good owner (
      Same-trans (clients_Same s.hub _ (insert-IsMap c client s.hub.clients))
        (Same-trans (send_to-Same w c _ s₁) (send_to-Same w c _ (send_to w c _ s₁))))
    where
      client : Client
      client = record { user_id = user; session_hash = session }

      s₁ : Sys
      s₁ = record s { hub = record s.hub { clients = insert c client s.hub.clients } }

  set_daemon-Good :
      (user : String) (c : ℕ) (s : Sys) → Good owner s.hub → Good owner (set_daemon w user c s).hub
  unfolding set_daemon
  set_daemon-Good user c s g = announced user _ _ (
      Same-Good owner
        (Same-trans (machines_Same s.hub _)
          (Same-of_eq (close_old-hub (lookup user s.hub.machines) _)))
        g)

  clear_daemon-Good :
      (user : String) (c : ℕ) (s : Sys)
      → Good owner s.hub
      → Good owner (clear_daemon w user c s).0.hub
  unfolding clear_daemon
  clear_daemon-Good user c s g = elim (Bool-cases (is_current c (lookup user s.hub.machines))) [
    | inl e ↦
        rw (e, clear_daemon)
          (announced user _ _ (announced user _ _ (Same-Good owner (machines_Same s.hub _) g)))
    | inr e ↦ rw (e, clear_daemon) g
  ]

  set_paired-Good :
      (id : String) (c : ℕ) (s : Sys)
      → id ≢ ""
      → Good owner s.hub
      → Good owner (set_paired_daemon w (owner id) id c s).hub
  unfolding set_paired_daemon
  set_paired-Good id c s nonempty g = announced (owner id) _ _ (
      Same-Good owner (Same-of_eq (close_old-hub (lookup id s.hub.paired) _)) (record {
        routes = set_paired-Routes owner s.hub id (fresh_machine c) nonempty g.routes;
        clients_map = g.clients_map;
      }))

  clear_paired-Good :
      (id : String) (c : ℕ) (s : Sys)
      → id ≢ ""
      → Good owner s.hub
      → Good owner (clear_paired_daemon w (owner id) id c s).0.hub
  unfolding clear_paired_daemon
  clear_paired-Good id c s nonempty g = elim (Bool-cases (is_current c (lookup id s.hub.paired))) [
    | inl e ↦ rw (e, clear_paired_daemon) (announced (owner id) _ _ (announced (owner id) _ _ gone))
    | inr e ↦ rw (e, clear_paired_daemon) g
  ]
    where
      gone : Good owner (drop_paired (owner id) id s.hub)
      gone = record {
        routes = drop_paired-Routes owner s.hub id nonempty g.routes;
        clients_map = unfold drop_paired in g.clients_map;
      }

  update_current-Same :
      (f : Machine → Machine) (user : String) (h : Hub) → Same h (update_current f user h)
  unfolding update_current
  update_current-Same f user h = elim (Bool-cases (is_some (lookup user h.machines))) [
    | inl e ↦ rw (e, update_current) (machines_Same h _)
    | inr e ↦ elim (Bool-cases (not (text_at user h.primary == ""))) [
      | inl q ↦
          rw (e, update_current)
            (rw (q, update_current) (update_paired-Same f (text_at user h.primary) h))
      | inr q ↦ rw (e, update_current) (rw (q, update_current) (Same-refl h))
    ]
  ]

  set_chats_dir-Same :
      (user id dir : String) (s : Sys) → Same s.hub (set_chats_dir user id dir s).hub
  unfolding set_chats_dir
  set_chats_dir-Same user id dir s = elim (Bool-cases (id == "")) [
    | inl e ↦ rw (e, set_chats_dir) (machines_Same s.hub _)
    | inr e ↦ elim (Bool-cases (not (text_at id s.hub.paired_users == user))) [
      | inl q ↦ rw (e, set_chats_dir) (rw (q, set_chats_dir) (Same-refl s.hub))
      | inr q ↦ rw (e, set_chats_dir) (rw (q, set_chats_dir) (update_paired-Same _ id s.hub))
    ]
  ]

  -- Every call of the hub, made honestly, keeps the routing tables in agreement.
  pub step-Good :
      (c : Call) (s : Sys) → IsHonest owner c → Good owner s.hub → Good owner (step w c s).hub
  unfolding step
  step-Good (adds_client c user session) s h g = add_client-Good c user session s g
  step-Good (sets_daemon user c) s h g = set_daemon-Good user c s g
  step-Good (clears_daemon user c) s h g = clear_daemon-Good user c s g
  step-Good (sets_paired user id c) s h g =
      subst (λ u. Good owner (set_paired_daemon w u id c s).hub) (sym h.0)
        (set_paired-Good id c s h.1 g)
  step-Good (clears_paired user id c) s h g =
      subst (λ u. Good owner (clear_paired_daemon w u id c s).0.hub) (sym h.0)
        (clear_paired-Good id c s h.1 g)
  step-Good (removes_client c) s h g =
      unfold remove_client close in
      Same-Good owner (clients_Same s.hub _ (delete-IsMap c s.hub.clients)) g
  step-Good (disconnects_user user) s h g =
      unfold disconnect_user in Same-Good owner (disconnect-Same _ s) g
  step-Good (disconnects_session hash) s h g = Same-Good owner (disconnect_session-Same hash s) g
  step-Good (disconnects_machine id) s h g =
      unfold disconnect_machine in
      Same-Good owner (Same-of_eq (close_old-hub (lookup id s.hub.paired) s)) g
  step-Good (broadcasts user ev) s h g = announced user ev s g
  step-Good (sets_paired_providers user id p) s h g =
      unfold set_paired_providers in changed _ user _ s _ (update_paired-Same _ id s.hub) g
  step-Good (sets_providers user p) s h g =
      unfold set_providers in changed _ user _ s _ (update_current-Same _ user s.hub) g
  step-Good (sets_headroom user id head) s h g =
      unfold set_headroom in changed _ user _ s _ (machines_Same s.hub _) g
  step-Good (says_hello user id v p u) s h g =
      unfold set_machine_hello in changed _ user _ s _ (update_paired-Same _ id s.hub) g
  step-Good (sets_update user id status) s h g =
      unfold set_machine_update in changed _ user _ s _ (update_paired-Same _ id s.hub) g
  step-Good (sets_chats_dir user id dir) s h g =
      Same-Good owner (set_chats_dir-Same user id dir s) g
  step-Good (sends user msg) s h g = Same-Good owner (send_to_daemon-Same w user msg s) g
  step-Good (sends_machine id msg) s h g = Same-Good owner (send_to_machine-Same w id msg s) g
  step-Good (sends_workspace user allowed msg) s h g =
      Same-Good owner (send_to_workspace_daemon-Same w user allowed msg s) g
  step-Good (sends_running user id msg) s h g =
      Same-Good owner (send_to_running_machine-Same w user id msg s) g
  step-Good (asks user msg) s h g = Same-Good owner (ask-Same w user msg s) g
  step-Good (asks_machine user id msg) s h g = Same-Good owner (ask_machine-Same w user id msg s) g
  step-Good (asks_in user allowed msg) s h g = Same-Good owner (ask_in-Same w user allowed msg s) g
  step-Good (takes_reply id) s h g = Same-Good owner (after_reply-Same id s) g
  step-Good (cancels id) s h g = unfold ask_cancel in Same-Good owner (forget-Same id s) g
  step-Good (delivers user m) s h g = Same-Good owner (deliver-Same user m s) g

  initial-Good : Good owner initial.hub
  unfolding new
  initial-Good = record {
    routes = record {
      connected = λ id u e. unfold lookup in cc;
      known = λ id e. unfold lookup in cc;
      first = λ u id e. unfold lookup in cc;
      chosen = λ id e. unfold lookup in cc;
      users_map = tt;
    };
    clients_map = tt;
  }

  pub run-Good :
      (cs : List Call) (s : Sys)
      → All (IsHonest owner) cs
      → Good owner s.hub
      → Good owner (run w cs s).hub
  unfolding run
  run-Good [] s h g = g
  run-Good (c ∷ cs) s h g = run-Good cs (step w c s) h.1 (step-Good c s h.0 g)

  -- After any sequence of calls on a new hub in which each paired machine is named with the account
  -- that owns it: every machine listed under an account is connected and owned by it, every connected
  -- machine is listed, the primary of an account is connected and owned by it, an account with a
  -- connected machine has a primary, and no browser is registered twice.
  pub run-initial-Good :
      (cs : List Call) → All (IsHonest owner) cs → Good owner (run w cs initial).hub
  run-initial-Good cs h = run-Good cs initial h initial-Good
