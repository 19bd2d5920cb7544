-- ===== src/Hub/Steps/Same.antt =====
-- What the calls of the hub leave alone: events and writes change no routing table.
use sparstrowgen.Prelude.{
  ℕ, String, ◌≡◌, refl, ap, ◌∙◌, List, [], ◌∷◌, ◌++◌, Option, some, none, Bool, true, false,
  string_eq, nat_eq, Bool-cases, Option-cases, inl, inr, is_some,
}
use sparstrowgen.Prelude.Maps.{Map, IsMap, lookup, delete, delete-IsMap}
use sparstrowgen.Protocol.{ClientEvent, ServerMessage}
use sparstrowgen.Hub.State.{Client, Machine, Hub, Sys, World, close}
use sparstrowgen.Hub.Browsers.{
  after_write, send_to, send_all, conns_of, broadcast_to, disconnect_scan, close_all, disconnect,
}
use sparstrowgen.Hub.Machines.{close_old, update_at, write}
use sparstrowgen.Hub.Isolation.{OnlyClients, send_to-OnlyClients}
use sparstrowgen.Hub.Routes.{Routes, SameRoutes, SameRoutes-Routes, is_some-update_at}

pub record Good (owner : String → String) (h : Hub) : Type 0 where
  pub routes : Routes owner h
  pub clients_map : IsMap h.clients

-- What no event and no write changes.
pub record Same (h g : Hub) : Type 0 where
  pub routes : SameRoutes h g
  pub clients : IsMap h.clients → IsMap g.clients

pub Same-Good : (owner : String → String) {h g : Hub} → Same h g → Good owner h → Good owner g
Same-Good owner e g = record {
  routes = SameRoutes-Routes owner e.routes g.routes;
  clients_map = e.clients g.clients_map;
}

pub Same-refl : (h : Hub) → Same h h
Same-refl h = record { routes = (λ id. refl, refl, refl); clients = λ m. m }

pub Same-trans : {h g k : Hub} → Same h g → Same g k → Same h k
Same-trans {h} {g} {k} a b = record {
  routes = (λ id. b.routes.0 id ∙ a.routes.0 id, b.routes.1 ∙ a.routes.1, b.routes.2 ∙ a.routes.2);
  clients = λ m. b.clients (a.clients m);
}

pub Same-of_eq : {h g : Hub} → g ≡ h → Same h g
Same-of_eq {h} {g} e = rw e (Same-refl h)

pub OnlyClients-Same :
    {h g : Hub} → OnlyClients h g → (IsMap h.clients → IsMap g.clients) → Same h g
OnlyClients-Same {h} {g} e f = record {
  routes = (
    λ id. ap (λ (k : Hub). is_some (lookup id k.paired)) e,
    ap (λ (k : Hub). k.paired_users) e,
    ap (λ (k : Hub). k.primary) e,
  );
  clients = f;
}

after_write-IsMap :
    (c : ℕ) (p : String) (b : Bool) (s : Sys)
    → IsMap s.hub.clients
    → IsMap (after_write c p b s).hub.clients
unfolding after_write
after_write-IsMap c p true s h = h
after_write-IsMap c p false s h = delete-IsMap c s.hub.clients h

pub send_to-Same :
    (w : World) (c : ℕ) (ev : ClientEvent) (s : Sys) → Same s.hub (send_to w c ev s).hub
send_to-Same w c ev s = OnlyClients-Same (send_to-OnlyClients w c ev s) keeps
  where
    keeps : IsMap s.hub.clients → IsMap (send_to w c ev s).hub.clients
    keeps h = elim (Option-cases (w.client_payload ev)) [
      | inl e ↦ unfold send_to in rw (e, send_to) h
      | inr (p, e) ↦ unfold send_to in rw (e, send_to) (after_write-IsMap c p _ s h)
    ]

pub send_all-Same :
    (w : World) (cs : List ℕ) (ev : ClientEvent) (s : Sys) → Same s.hub (send_all w cs ev s).hub
unfolding send_all
send_all-Same w [] ev s = Same-refl s.hub
send_all-Same w (c ∷ cs) ev s =
    Same-trans (send_to-Same w c ev s) (send_all-Same w cs ev (send_to w c ev s))

pub broadcast-Same :
    (w : World) (user : String) (ev : ClientEvent) (s : Sys)
    → Same s.hub (broadcast_to w user ev s).hub
unfolding broadcast_to
broadcast-Same w user ev s = send_all-Same w (conns_of user s.hub.clients) ev s

pub write-Same :
    (w : World) (c : ℕ) (msg : ServerMessage) (s : Sys) → Same s.hub (write w c msg s).0.hub
unfolding write
write-Same w c msg s = elim (Option-cases (w.server_payload msg)) [
  | inl e ↦ rw (e, write) (Same-refl s.hub)
  | inr (p, e) ↦ rw (e, write) (Same-refl s.hub)
]

pub close_old-hub : (o : Option Machine) (s : Sys) → (close_old o s).hub ≡ s.hub
unfolding close_old
close_old-hub none s = refl
close_old-hub (some m) s = refl

-- Writing through the pointer of a paired machine.
pub update_paired-Same :
    (f : Machine → Machine) (id : String) (h : Hub)
    → Same h (record h { paired = update_at f id h.paired })
update_paired-Same f id h = record {
  routes = (λ j. is_some-update_at f id j h.paired, refl, refl);
  clients = λ m. m;
}

-- A change of the legacy machines, of the requests and of the log is no change here.
pub machines_Same : (h : Hub) (m : Map String Machine) → Same h (record h { machines = m })
machines_Same h m = record { routes = (λ j. refl, refl, refl); clients = λ m. m }

pub clients_Same :
    (h : Hub) (m : Map ℕ Client) → (IsMap h.clients → IsMap m) → Same h (record h { clients = m })
clients_Same h m f = record { routes = (λ j. refl, refl, refl); clients = f }

disconnect_scan-IsMap :
    (match : Client → Bool) (m clients : Map ℕ Client) (cs : List ℕ)
    → IsMap clients
    → IsMap (disconnect_scan match m clients cs).0
unfolding disconnect_scan
disconnect_scan-IsMap match [] clients cs h = h
disconnect_scan-IsMap match ((c, x) ∷ m) clients cs h = elim (Bool-cases (match x)) [
  | inl e ↦
      rw (e, disconnect_scan)
        (disconnect_scan-IsMap match m (delete c clients) (cs ++ (c ∷ []))
          (delete-IsMap c clients h))
  | inr e ↦ rw (e, disconnect_scan) (disconnect_scan-IsMap match m clients cs h)
]

pub close_all-hub : (cs : List ℕ) (s : Sys) → (close_all cs s).hub ≡ s.hub
unfolding close_all
close_all-hub [] s = refl
close_all-hub (c ∷ cs) s = unfold close in close_all-hub cs (close c s)

pub disconnect-Same : (match : Client → Bool) (s : Sys) → Same s.hub (disconnect match s).0.hub
unfolding disconnect
disconnect-Same match s =
    let r = disconnect_scan match s.hub.clients s.hub.clients [] in
    rw (close_all-hub r.1 (record s { hub = record s.hub { clients = r.0 } }))
      (clients_Same s.hub r.0 (disconnect_scan-IsMap match s.hub.clients s.hub.clients []))
