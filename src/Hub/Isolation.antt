-- ===== src/Hub/Isolation.antt =====
-- hub.go, BroadcastTo: an event of one account reaches that account's browsers and no others.
use mathlib.Core.List.{append_assoc, append-nil}
use sparstrowgen.Prelude.{
  ℕ, String, ◌≡◌, ◌⊎◌, ◌↔◌, subst, refl, ◌∙◌, List, [], ◌∷◌, ◌++◌, some, none, Bool, true, false,
  ◌==◌, string_eq, nat_eq, arith, Bool-cases, Option-cases, inl, inr, eq_iff, All, Elem, Distinct,
}
use sparstrowgen.Prelude.Maps.{Map, IsMap, lookup, lookup-delete_self}
use sparstrowgen.Protocol.{ClientEvent}
use sparstrowgen.Hub.State.{Client, Hub, Sys, World, Effect, wrote, closed, close}
use sparstrowgen.Hub.Browsers.{after_write, send_to, conns_of, send_all, broadcast_to}

-- What was written, to which socket, the earliest first.
pub sent_to : List Effect → List (ℕ × String)
sent_to [] = []
sent_to (wrote c payload done ∷ l) = sent_to l ++ ((c, payload) ∷ [])
sent_to (closed c ∷ l) = sent_to l

-- One payload for each of some sockets.
pub to_each : String → List ℕ → List (ℕ × String)
to_each p [] = []
to_each p (c ∷ cs) = (c, p) ∷ to_each p cs

-- Only the browsers' registrations differ.
abbrev pub OnlyClients : Hub → Hub → Type 0
OnlyClients h g = g ≡ record h { clients = g.clients }

after_write-OnlyClients :
    (c : ℕ) (p : String) (b : Bool) (s : Sys) → OnlyClients s.hub (after_write c p b s).hub
unfolding after_write
after_write-OnlyClients c p true s = refl
after_write-OnlyClients c p false s = refl

pub send_to-OnlyClients :
    (w : World) (c : ℕ) (ev : ClientEvent) (s : Sys) → OnlyClients s.hub (send_to w c ev s).hub
unfolding send_to
send_to-OnlyClients w c ev s = elim (Option-cases (w.client_payload ev)) [
  | inl e ↦ rw (e, send_to) refl
  | inr (p, e) ↦ rw (e, send_to) (after_write-OnlyClients c p _ s)
]

pub send_all-OnlyClients :
    (w : World) (cs : List ℕ) (ev : ClientEvent) (s : Sys)
    → OnlyClients s.hub (send_all w cs ev s).hub
unfolding send_all
send_all-OnlyClients w [] ev s = refl
send_all-OnlyClients w (c ∷ cs) ev s =
    let a = send_to-OnlyClients w c ev s in
    let b = send_all-OnlyClients w cs ev (send_to w c ev s) in ground (arith, a, b)

pub broadcast_to-OnlyClients :
    (w : World) (user : String) (ev : ClientEvent) (s : Sys)
    → OnlyClients s.hub (broadcast_to w user ev s).hub
unfolding broadcast_to
broadcast_to-OnlyClients w user ev s = send_all-OnlyClients w (conns_of user s.hub.clients) ev s

sent_to-after_write :
    (c : ℕ) (p : String) (b : Bool) (s : Sys)
    → sent_to (after_write c p b s).log ≡ sent_to s.log ++ ((c, p) ∷ [])
unfolding sent_to after_write
sent_to-after_write c p true s = refl
sent_to-after_write c p false s = refl

sent_to-send_to :
    (w : World) (c : ℕ) (ev : ClientEvent) (s : Sys) {p : String}
    → w.client_payload ev ≡ some p
    → sent_to (send_to w c ev s).log ≡ sent_to s.log ++ ((c, p) ∷ [])
unfolding send_to
sent_to-send_to w c ev s {p} e = rw (e, send_to) (sent_to-after_write c p _ s)

sent_to-send_all :
    (w : World) (cs : List ℕ) (ev : ClientEvent) (s : Sys) {p : String}
    → w.client_payload ev ≡ some p
    → sent_to (send_all w cs ev s).log ≡ sent_to s.log ++ to_each p cs
unfolding send_all to_each
sent_to-send_all w [] ev s e = simp append-nil
sent_to-send_all w (c ∷ cs) ev s {p} e =
    sent_to-send_all w cs ev (send_to w c ev s) e
    ∙ rw (sent_to-send_to w c ev s e) (append_assoc (sent_to s.log) ((c, p) ∷ []) (to_each p cs))

-- A connection that `conns_of` lists is registered, and to that account.
abbrev pub IsOf : String → Map ℕ Client → ℕ → Type 0
IsOf user m c = (x : Client) × (lookup c m ≡ some x) × (x.user_id ≡ user)

IsOf-cons :
    (user : String) (j : ℕ) (x : Client) (m : Map ℕ Client) (c : ℕ)
    → lookup j m ≡ none
    → IsOf user m c
    → IsOf user ((j, x) ∷ m) c
unfolding lookup
IsOf-cons user j x m c fresh (y, e, u) = (y, ground (arith, nat_eq.beq_iff j c), u)

All-IsOf-cons :
    (user : String) (j : ℕ) (x : Client) (m : Map ℕ Client) (cs : List ℕ)
    → lookup j m ≡ none
    → All (IsOf user m) cs
    → All (IsOf user ((j, x) ∷ m)) cs
All-IsOf-cons user j x m [] fresh h = tt
All-IsOf-cons user j x m (c ∷ cs) fresh h =
    (IsOf-cons user j x m c fresh h.0, All-IsOf-cons user j x m cs fresh h.1)

pub conns_of-IsOf :
    (user : String) (m : Map ℕ Client) → IsMap m → All (IsOf user m) (conns_of user m)
unfolding conns_of
conns_of-IsOf user [] h = tt
conns_of-IsOf user ((c, x) ∷ m) h =
    let rest = All-IsOf-cons user c x m (conns_of user m) h.0 (conns_of-IsOf user m h.1) in
    elim (Bool-cases (x.user_id == user)) [
      | inl e ↦
          rw (e, conns_of)
            ((x, unfold lookup in ground (arith, nat_eq.beq_iff c c), (eq_iff _ _).0 e), rest)
      | inr e ↦ rw (e, conns_of) rest
    ]

conns_of-Elem :
    (user : String) (m : Map ℕ Client) (c : ℕ) (x : Client)
    → lookup c m ≡ some x
    → x.user_id ≡ user
    → Elem c (conns_of user m)
unfolding conns_of lookup
conns_of-Elem user [] c x e u = cc
conns_of-Elem user ((j, y) ∷ m) c x e u =
    ground (arith, eq_iff y.user_id user, nat_eq.beq_iff j c, conns_of-Elem user m c x)

Elem-conns_of :
    (user : String) (m : Map ℕ Client) (c : ℕ) → lookup c m ≡ none → ¬ Elem c (conns_of user m)
unfolding conns_of lookup
Elem-conns_of user [] c e h = elim h [ ]
Elem-conns_of user ((j, y) ∷ m) c e h = ground (arith, nat_eq.beq_iff j c, Elem-conns_of user m c)

conns_of-Distinct : (user : String) (m : Map ℕ Client) → IsMap m → Distinct (conns_of user m)
unfolding conns_of
conns_of-Distinct user [] h = tt
conns_of-Distinct user ((j, y) ∷ m) h = elim (Bool-cases (y.user_id == user)) [
  | inl e ↦ rw (e, conns_of) (Elem-conns_of user m j h.0, conns_of-Distinct user m h.1)
  | inr e ↦ rw (e, conns_of) (conns_of-Distinct user m h.1)
]

-- An event broadcast to an account is written, as its JSON payload and once each, to exactly the
-- connections that are registered to that account when the broadcast begins; nothing else is written,
-- and nothing but the registrations of browsers changes in the hub.
pub broadcast_to_exact :
    (w : World) (user : String) (ev : ClientEvent) (s : Sys) {p : String}
    → IsMap s.hub.clients
    → w.client_payload ev ≡ some p
    → (cs : List ℕ) × (sent_to (broadcast_to w user ev s).log ≡ sent_to s.log ++ to_each p cs)
      × Distinct cs
      × ((c : ℕ) → Elem c cs ↔ IsOf user s.hub.clients c)
      × OnlyClients s.hub (broadcast_to w user ev s).hub
unfolding broadcast_to
broadcast_to_exact w user ev s h e = (
  cs,
  sent_to-send_all w cs ev s e,
  conns_of-Distinct user s.hub.clients h,
  λ c. (
    All-Elem cs c (conns_of-IsOf user s.hub.clients h),
    λ (x, here, of). conns_of-Elem user s.hub.clients c x here of,
  ),
  send_all-OnlyClients w cs ev s,
)
  where
    cs : List ℕ
    cs = conns_of user s.hub.clients

    All-Elem :
        (ds : List ℕ) (c : ℕ)
        → All (IsOf user s.hub.clients) ds
        → Elem c ds
        → IsOf user s.hub.clients c
    All-Elem [] c a b = elim b [ ]
    All-Elem (d ∷ ds) c a (inl q) = subst (IsOf user s.hub.clients) q a.0
    All-Elem (d ∷ ds) c a (inr q) = All-Elem ds c a.1 q

-- A write that fails takes the connection out of the clients and closes it; a write that succeeds
-- leaves the clients alone.
pub send_to_clients :
    (w : World) (c : ℕ) (ev : ClientEvent) (s : Sys) {p : String}
    → w.client_payload ev ≡ some p
    → ((w.write_succeeds s.log c p ≡ true)
        × ((send_to w c ev s).hub ≡ s.hub)
        × ((send_to w c ev s).log ≡ wrote c p true ∷ s.log))
      ⊎ ((w.write_succeeds s.log c p ≡ false)
          × (lookup c (send_to w c ev s).hub.clients ≡ none)
          × ((send_to w c ev s).log ≡ closed c ∷ wrote c p false ∷ s.log))
unfolding send_to after_write close
send_to_clients w c ev s {p} e = elim (Bool-cases (w.write_succeeds s.log c p)) [
  | inl t ↦ inl (t, rw (e, send_to) (rw (t, after_write)), rw (e, send_to) (rw (t, after_write)))
  | inr t ↦ inr (
    t,
    rw (e, send_to) (rw (t, after_write) (lookup-delete_self c s.hub.clients)),
    rw (e, send_to) (rw (t, after_write)),
  )
]
