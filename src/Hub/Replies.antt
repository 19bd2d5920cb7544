-- ===== src/Hub/Replies.antt =====
-- hub.go and updates.go: which reply a request gets, and that no request outlives its call.
use sparstrowgen.Prelude.{
  ℕ, ◌+◌, ◌%◌, ◌^◌, String, ◌≡◌, ◌≢◌, ◌⊎◌, refl, ap, ◌∙◌, List, [], ◌∷◌, Option, some, none, Bool,
  ◌&&◌, ◌==◌, string_eq, arith, Bool-cases, Option-cases, inl, inr, eq_iff, if◌then◌else◌,
}
use sparstrowgen.Prelude.Maps.{lookup, insert, lookup-insert, lookup-delete}
use sparstrowgen.Protocol.{ServerMessage, DaemonMessage}
use sparstrowgen.Hub.State.{Machine, Waiter, Hub, Sys, World}
use sparstrowgen.Hub.Routing.{current_machine}
use sparstrowgen.Hub.Machines.{write, write_to, send_to_daemon}
use sparstrowgen.Hub.Requests.{forget, ask_begin, ask, ask_reply, offer, deliver}

-- The message is the account's answer to the request.
abbrev pub answers : String → String → String → DaemonMessage → Bool
answers user id from m = from == user && m.request_id == id

-- What the request's waiter holds after a delivery.
abbrev pub filled : Bool → DaemonMessage → Waiter → Waiter
filled b m x = if b then offer x m else x

deliver_waiting :
    (from : String) (m : DaemonMessage) (id : String) (x : Waiter) (s : Sys)
    → id ≢ ""
    → lookup id s.hub.pending ≡ some x
    → lookup id (deliver from m s).0.hub.pending ≡ some (filled (answers x.user_id id from m) m x)
unfolding deliver
deliver_waiting from m id x s nonempty e = elim (Bool-cases (m.request_id == "")) [
  | inl q ↦
      rw (q, deliver)
        (ground (arith, e, eq_iff m.request_id "", eq_iff m.request_id id, eq_iff from x.user_id))
  | inr q ↦ elim (Option-cases (lookup m.request_id s.hub.pending)) [
    | inl n ↦ rw (q, deliver) (rw (n, deliver) (ground (arith, e, n, eq_iff m.request_id id)))
    | inr (y, n) ↦ elim (Bool-cases (y.user_id == from)) [
      | inl t ↦
          rw (q, deliver)
            (rw (n, deliver)
              (rw t (
                ground (
                  arith,
                  e,
                  n,
                  t,
                  eq_iff m.request_id id,
                  eq_iff y.user_id from,
                  eq_iff from x.user_id,
                  lookup-insert m.request_id id (offer y m) s.hub.pending,
                ))))
      | inr t ↦
          rw (q, deliver)
            (rw (n, deliver)
              (rw t (
                ground (
                  arith,
                  e,
                  n,
                  t,
                  eq_iff m.request_id id,
                  eq_iff y.user_id from,
                  eq_iff from x.user_id,
                ))))
    ]
  ]
]

-- Messages that machines send, each with the account whose machine sent it.
unfoldable pub deliver_all : List (String × DaemonMessage) → Sys → Sys
deliver_all [] s = s
deliver_all ((from, m) ∷ ms) s = deliver_all ms (deliver from m s).0

-- The first of them that answers the request.
unfoldable pub first_answer : String → String → List (String × DaemonMessage) → Option DaemonMessage
first_answer user id [] = none
first_answer user id ((from, m) ∷ ms) =
    if answers user id from m then some m else first_answer user id ms

abbrev kept : Option DaemonMessage → Option DaemonMessage → Option DaemonMessage
kept (some m) o = some m
kept none o = o

waiting_after :
    (ms : List (String × DaemonMessage)) (id : String) (x : Waiter) (s : Sys)
    → id ≢ ""
    → lookup id s.hub.pending ≡ some x
    → lookup id (deliver_all ms s).hub.pending
      ≡ some (record x { reply = kept x.reply (first_answer x.user_id id ms) })
unfolding deliver_all first_answer
waiting_after [] id x s n e = ground arith
waiting_after ((from, m) ∷ ms) id x s n e =
    let d = deliver_waiting from m id x s n e in
    elim (Bool-cases (answers x.user_id id from m)) [
      | inr t ↦
          waiting_after ms id x (deliver from m s).0 n (d ∙ rw t refl) ∙ rw (t, first_answer) refl
      | inl t ↦
          waiting_after ms id (offer x m) (deliver from m s).0 n (d ∙ rw t refl)
          ∙ unfold offer in ground (arith, t)
    ]

-- While a request waits, whatever machines send in the meantime, a reply is ready for it exactly
-- when one of the messages is an answer by a machine of the account that asked; it is the first
-- such message, and taking it forgets the request. Messages of other accounts' machines, replies to
-- other requests and second replies make no difference.
pub ask_reply_first :
    (ms : List (String × DaemonMessage)) (id user : String) (s : Sys)
    → id ≢ ""
    → lookup id s.hub.pending ≡ some (record { user_id = user; reply = none })
    → ask_reply id (deliver_all ms s)
      ≡ (elim (first_answer user id ms) as (λ _. Option (Sys × DaemonMessage)) [
        | none ↦ none
        | some m ↦ some (forget id (deliver_all ms s), m)
      ])
unfolding ask_reply
ask_reply_first ms id user s n e =
    rw (waiting_after ms id (record { user_id = user; reply = none }) s n e, ask_reply)
      (ground arith)

lookup-forget :
    (id k : String) (s : Sys)
    → lookup k (forget id s).hub.pending ≡ (if id == k then none else lookup k s.hub.pending)
unfolding forget
lookup-forget id k s = lookup-delete id k s.hub.pending

-- For every way of sending that leaves the waiting requests alone.
ask_begin_pending :
    (w : World) (user : String) (msg : ServerMessage) (send : ServerMessage → Sys → Sys × Bool)
    (s : Sys) (k : String)
    → ((m : ServerMessage) (t : Sys) → (send m t).0.hub.pending ≡ t.hub.pending)
    → let id = w.format_uint ((s.hub.next_request + 1) % 2 ^ 64) in
      let r = ask_begin w user msg send s in
      ((r.1 ≡ none)
        × (lookup k r.0.hub.pending ≡ (if id == k then none else lookup k s.hub.pending)))
      ⊎ ((r.1 ≡ some id)
          × (lookup k r.0.hub.pending ≡ (
              if id == k
              then some (record { user_id = user; reply = none })
              else lookup k s.hub.pending)))
unfolding ask_begin
ask_begin_pending w user msg send s k keeps = elim (Bool-cases (send msg' t).1) [
  | inl e ↦
      rw (e, ask_begin)
        (inr (refl, ap (lookup k) (keeps msg' t) ∙ lookup-insert id k waiter s.hub.pending))
  | inr e ↦
      rw (e, ask_begin)
        (inl (
          refl,
          lookup-forget id k (send msg' t).0
              ∙ ground
                  (arith, ap (lookup k) (keeps msg' t), lookup-insert id k waiter s.hub.pending),
        ))
]
  where
    id : String
    id = w.format_uint ((s.hub.next_request + 1) % 2 ^ 64)

    waiter : Waiter
    waiter = record { user_id = user; reply = none }

    msg' : ServerMessage
    msg' = record msg { request_id = id }

    t : Sys
    t = record s {
      hub = record s.hub {
        next_request = (s.hub.next_request + 1) % 2 ^ 64;
        pending = insert id waiter s.hub.pending;
      };
    }

write-hub : (w : World) (c : ℕ) (msg : ServerMessage) (s : Sys) → (write w c msg s).0.hub ≡ s.hub
unfolding write
write-hub w c msg s = elim (Option-cases (w.server_payload msg)) [
  | inl e ↦ rw (e, write)
  | inr (p, e) ↦ rw (e, write)
]

write_to-hub :
    (w : World) (o : Option Machine) (msg : ServerMessage) (s : Sys)
    → (write_to w o msg s).0.hub ≡ s.hub
write_to-hub w none msg s = refl
write_to-hub w (some m) msg s = write-hub w m.conn msg s

-- A request that could not be sent leaves no waiter behind, and every other request waits as
-- before. One that was sent waits under its own number for the account that asked, with no reply
-- yet, and every other request waits as before.
pub ask_pending :
    (w : World) (user : String) (msg : ServerMessage) (s : Sys) (k : String)
    → let id = w.format_uint ((s.hub.next_request + 1) % 2 ^ 64) in
      let r = ask w user msg s in
      ((r.1 ≡ none)
        × (lookup k r.0.hub.pending ≡ (if id == k then none else lookup k s.hub.pending)))
      ⊎ ((r.1 ≡ some id)
          × (lookup k r.0.hub.pending ≡ (
              if id == k
              then some (record { user_id = user; reply = none })
              else lookup k s.hub.pending)))
unfolding ask send_to_daemon
ask_pending w user msg s k =
    ask_begin_pending w user msg (send_to_daemon w user) s k
      (λ m t. ap (λ (h : Hub). h.pending) (write_to-hub w (current_machine t.hub user) m t))
