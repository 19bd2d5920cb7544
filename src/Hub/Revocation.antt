-- ===== src/Hub/Revocation.antt =====
-- hub.go, DisconnectUser and DisconnectSession: which browsers are cut off, and which stay.
use mathlib.Core.List.{append_assoc, append-nil}
use sparstrowgen.Prelude.{
  ℕ, String, ◌≡◌, ◌≢◌, ◌⊎◌, ◌↔◌, refl, sym, ap, ◌∙◌, List, [], ◌∷◌, ◌++◌, Option, some, none, Bool,
  true, false, ◌==◌, string_eq, nat_eq, arith, Bool-cases, inl, inr, eq_iff, Elem, length,
  if◌then◌else◌,
}
use sparstrowgen.Prelude.Maps.{Map, IsMap, lookup, delete, lookup-delete}
use sparstrowgen.Hub.State.{Client, Sys, Effect, closed, close}
use sparstrowgen.Hub.Browsers.{
  disconnect_scan, close_all, disconnect, disconnect_user, disconnect_session,
}
use sparstrowgen.Hub.Isolation.{OnlyClients}

-- The connections whose client passes the test.
selected : (Client → Bool) → Map ℕ Client → List ℕ
selected match [] = []
selected match ((c, x) ∷ m) = let more = selected match m in if match x then c ∷ more else more

disconnect_scan-selected :
    (match : Client → Bool) (m clients : Map ℕ Client) (cs : List ℕ)
    → (disconnect_scan match m clients cs).1 ≡ cs ++ selected match m
unfolding disconnect_scan selected
disconnect_scan-selected match [] clients cs = sym (append-nil cs)
disconnect_scan-selected match ((c, x) ∷ m) clients cs = elim (Bool-cases (match x)) [
  | inl e ↦
      rw (e, disconnect_scan, selected)
        (disconnect_scan-selected match m (delete c clients) (cs ++ (c ∷ []))
          ∙ append_assoc cs (c ∷ []) (selected match m))
  | inr e ↦ rw (e, disconnect_scan, selected) (disconnect_scan-selected match m clients cs)
]

-- The connection is registered, with a client that passes the test.
abbrev pub IsHit : (Client → Bool) → Map ℕ Client → ℕ → Type 0
IsHit match m c = (x : Client) × (lookup c m ≡ some x) × (match x ≡ true)

hit : (Client → Bool) → Option Client → Bool
hit match none = false
hit match (some x) = match x

lookup-disconnect_scan :
    (match : Client → Bool) (m clients : Map ℕ Client) (cs : List ℕ) (c : ℕ)
    → IsMap m
    → lookup c (disconnect_scan match m clients cs).0
      ≡ (if hit match (lookup c m) then none else lookup c clients)
unfolding disconnect_scan lookup hit
lookup-disconnect_scan match [] clients cs c h = refl
lookup-disconnect_scan match ((j, x) ∷ m) clients cs c h = elim (Bool-cases (match x)) [
  | inl e ↦
      rw (e, disconnect_scan)
        (ground (
          arith,
          lookup-disconnect_scan match m (delete j clients) (cs ++ (j ∷ [])) c h.1,
          lookup-delete j c clients,
          nat_eq.beq_iff j c,
          h.0,
        ))
  | inr e ↦
      rw (e, disconnect_scan)
        (ground (arith, lookup-disconnect_scan match m clients cs c h.1, nat_eq.beq_iff j c, h.0))
]

IsHit-cons :
    (match : Client → Bool) (j : ℕ) (y : Client) (m : Map ℕ Client) (c : ℕ)
    → lookup j m ≡ none
    → IsHit match m c
    → IsHit match ((j, y) ∷ m) c
unfolding lookup
IsHit-cons match j y m c fresh (x, e, t) = (x, ground (arith, nat_eq.beq_iff j c), t)

IsHit-head :
    (match : Client → Bool) (j : ℕ) (y : Client) (m : Map ℕ Client) (c : ℕ)
    → j ≡ c
    → match y ≡ true
    → IsHit match ((j, y) ∷ m) c
unfolding lookup
IsHit-head match j y m c q t = (y, ground (arith, nat_eq.beq_iff j c), t)

selected-IsHit :
    (match : Client → Bool) (m : Map ℕ Client) (c : ℕ)
    → IsMap m
    → Elem c (selected match m)
    → IsHit match m c
unfolding selected
selected-IsHit match [] c h e = elim e [ ]
selected-IsHit match ((j, x) ∷ m) c h e = elim (Bool-cases (match x)) [
  | inl t ↦ elim (rw (t, selected) at e) [
    | inl q ↦ IsHit-head match j x m c q t
    | inr r ↦ IsHit-cons match j x m c h.0 (selected-IsHit match m c h.1 r)
  ]
  | inr t ↦ IsHit-cons match j x m c h.0 (selected-IsHit match m c h.1 (rw (t, selected) at e))
]

IsHit-selected :
    (match : Client → Bool) (m : Map ℕ Client) (c : ℕ) → IsHit match m c → Elem c (selected match m)
unfolding selected lookup
IsHit-selected match [] c (x, e, t) = cc
IsHit-selected match ((j, y) ∷ m) c (x, e, t) =
    ground
      (arith, nat_eq.beq_iff j c, λ (q : lookup c m ≡ some x). IsHit-selected match m c (x, q, t))

-- The log after closing each of the connections in turn.
abbrev pub closes : List ℕ → List Effect → List Effect
closes [] l = l
closes (c ∷ cs) l = closes cs (closed c ∷ l)

close_all-closes :
    (cs : List ℕ) (s : Sys)
    → ((close_all cs s).log ≡ closes cs s.log) × ((close_all cs s).hub ≡ s.hub)
unfolding close_all
close_all-closes [] s = (refl, refl)
close_all-closes (c ∷ cs) s = unfold close in close_all-closes cs (close c s)

-- What it is to cut off exactly the clients that pass the test: the connections closed are theirs,
-- the number returned counts them, they are no longer registered and all others still are, and
-- nothing else in the hub changes.
pub record Revokes (match : Client → Bool) (s : Sys) (r : Sys × ℕ) : Type 0 where
  pub closing : List ℕ
  pub logged : r.0.log ≡ closes closing s.log
  pub counted : r.1 ≡ length closing
  pub exactly : (c : ℕ) → Elem c closing ↔ IsHit match s.hub.clients c
  pub left :
      (c : ℕ) (x : Client)
      → (lookup c r.0.hub.clients ≡ some x)
        ↔ ((lookup c s.hub.clients ≡ some x) × (match x ≡ false))
  pub others : OnlyClients s.hub r.0.hub

left_iff :
    (match : Client → Bool) (o : Option Client) (x : Client)
    → ((if hit match o then none else o) ≡ some x) ↔ ((o ≡ some x) × (match x ≡ false))
unfolding hit
left_iff match none x = ground arith
left_iff match (some y) x = elim (Bool-cases (match y)) [
  | inl e ↦ rw e (ground arith)
  | inr e ↦ rw e ((λ q. (q, ground arith)), λ q. q.0)
]

disconnect-Revokes :
    (match : Client → Bool) (s : Sys) → IsMap s.hub.clients → Revokes match s (disconnect match s)
unfolding disconnect
disconnect-Revokes match s h = record {
  closing = closing;
  logged = rw same (close_all-closes closing t).0;
  counted = ap length same;
  exactly = λ c. (selected-IsHit match m c h, IsHit-selected match m c);
  left = λ c x. rw (kept c) (left_iff match (lookup c m) x);
  others = rw (close_all-closes _ t).1 refl;
}
  where
    m : Map ℕ Client
    m = s.hub.clients

    closing : List ℕ
    closing = selected match m

    same : (disconnect_scan match m m []).1 ≡ closing
    same = disconnect_scan-selected match m m []

    t : Sys
    t = record s { hub = record s.hub { clients = (disconnect_scan match m m []).0 } }

    kept :
        (c : ℕ)
        → lookup c (disconnect match s).0.hub.clients
          ≡ (if hit match (lookup c m) then none else lookup c m)
    kept c = rw (close_all-closes _ t).1 (lookup-disconnect_scan match m m [] c h)

-- Disconnecting an account cuts off exactly the browsers registered to it.
pub disconnect_user-Revokes :
    (user : String) (s : Sys)
    → IsMap s.hub.clients
    → Revokes (λ c. c.user_id == user) s (disconnect_user user s)
unfolding disconnect_user
disconnect_user-Revokes user s h = disconnect-Revokes _ s h

-- Disconnecting a session cuts off exactly the browsers opened under it, so the account's other
-- sessions stay; an empty hash names no session, and changes nothing.
pub disconnect_session-Revokes :
    (hash : String) (s : Sys)
    → IsMap s.hub.clients
    → ((hash ≡ "") × (disconnect_session hash s ≡ (s, 0)))
      ⊎ ((hash ≢ "") × Revokes (λ c. c.session_hash == hash) s (disconnect_session hash s))
unfolding disconnect_session
disconnect_session-Revokes hash s h = elim (Bool-cases (hash == "")) [
  | inl e ↦ inl ((eq_iff _ _).0 e, rw e)
  | inr e ↦ inr (
    (λ q. ground (arith, eq_iff hash "")),
    rw e (disconnect-Revokes (λ c. c.session_hash == hash) s h),
  )
]
