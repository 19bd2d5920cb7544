-- ===== src/Hub/Browsers.antt =====
-- hub.go, the browsers: who is connected, and who is sent an event.
use sparstrowgen.Prelude.{
  ℕ, String, List, [], ◌∷◌, ◌++◌, some, none, Bool, true, false, ◌==◌, string_eq, nat_eq,
  if◌then◌else◌, length,
}
use sparstrowgen.Prelude.Maps.{Map, insert, delete}
use sparstrowgen.Protocol.{ClientEvent}
use sparstrowgen.Hub.State.{Client, Sys, World, wrote, close}
use sparstrowgen.Hub.Routing.{daemon_event, providers_event}

-- A failed write drops the browser.
unfoldable pub after_write : ℕ → String → Bool → Sys → Sys
unfolding delete close
after_write c payload true s = record s { log = wrote c payload true ∷ s.log }
after_write c payload false s = close c (record s {
  hub = record s.hub { clients = delete c s.hub.clients };
  log = wrote c payload false ∷ s.log;
})

unfoldable pub send_to : World → ℕ → ClientEvent → Sys → Sys
unfolding after_write
send_to w c ev s = elim (w.client_payload ev) [
  | none ↦ s
  | some payload ↦ after_write c payload (w.write_succeeds s.log c payload) s
]

-- The connections that BroadcastTo collects under the read lock.
unfoldable pub conns_of : String → Map ℕ Client → List ℕ
conns_of user [] = []
conns_of user ((c, client) ∷ rest) =
    let more = conns_of user rest in if client.user_id == user then c ∷ more else more

unfoldable pub send_all : World → List ℕ → ClientEvent → Sys → Sys
unfolding send_to
send_all w [] ev s = s
send_all w (c ∷ cs) ev s = send_all w cs ev (send_to w c ev s)

unfoldable pub broadcast_to : World → String → ClientEvent → Sys → Sys
unfolding conns_of send_all
broadcast_to w user ev s = send_all w (conns_of user s.hub.clients) ev s

unfoldable pub add_client : World → ℕ → String → String → Sys → Sys
unfolding insert send_to daemon_event providers_event
add_client w c user session s =
    let client : Client = record { user_id = user; session_hash = session } in
    let s₁ : Sys = record s { hub = record s.hub { clients = insert c client s.hub.clients } } in
    let s₂ = send_to w c (daemon_event w s₁.hub user) s₁ in
    send_to w c (providers_event s₂.hub user) s₂

unfoldable pub remove_client : ℕ → Sys → Sys
unfolding delete close
remove_client c s = close c (record s { hub = record s.hub { clients = delete c s.hub.clients } })

-- The loop of `disconnect` over the clients: those that match are collected and deleted.
unfoldable pub disconnect_scan :
    (Client → Bool) → Map ℕ Client → Map ℕ Client → List ℕ → Map ℕ Client × List ℕ
unfolding delete
disconnect_scan match [] clients closing = (clients, closing)
disconnect_scan match ((c, client) ∷ rest) clients closing =
    let hit = match client in
    disconnect_scan match rest (if hit then delete c clients else clients)
      (if hit then closing ++ (c ∷ []) else closing)

unfoldable pub close_all : List ℕ → Sys → Sys
unfolding close
close_all [] s = s
close_all (c ∷ cs) s = close_all cs (close c s)

unfoldable pub disconnect : (Client → Bool) → Sys → Sys × ℕ
unfolding disconnect_scan close_all
disconnect match s =
    let (clients, closing) = disconnect_scan match s.hub.clients s.hub.clients [] in
    (close_all closing (record s { hub = record s.hub { clients = clients } }), length closing)

unfoldable pub disconnect_user : String → Sys → Sys × ℕ
unfolding disconnect
disconnect_user user s = disconnect (λ c. c.user_id == user) s

unfoldable pub disconnect_session : String → Sys → Sys × ℕ
unfolding disconnect
disconnect_session hash s =
    if hash == "" then (s, 0) else disconnect (λ c. c.session_hash == hash) s
