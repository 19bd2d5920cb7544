-- ===== src/Api/Sockets/Closed.antt =====
-- sockets.go: a socket that has been replaced closes without a trace.
use sparstrowgen.Prelude.{
  ℕ, String, ◌≡◌, ◌≢◌, refl, ap, ◌∙◌, Option, some, none, false, string_eq, nat_eq, arith,
}
use sparstrowgen.Prelude.Maps.{lookup}
use sparstrowgen.Text.{Text}
use sparstrowgen.Hub.State.{Hub, World, Sys, close}
use sparstrowgen.Hub.Browsers.{broadcast_to}
use sparstrowgen.Hub.Isolation.{broadcast_to-OnlyClients}
use sparstrowgen.Hub.Machines.{
  fresh_machine, is_current, set_paired_daemon, clear_paired_daemon, machines_event,
}
use sparstrowgen.Hub.Supersede.{clear_daemon_superseded, clear_paired_daemon_superseded}
use sparstrowgen.Api.State.{Services, Server}
use sparstrowgen.Api.Sockets.{Paired, connect, disconnect}

still_paired :
    (w : World) (user id : String) (c d : ℕ) (s : Sys)
    → c ≢ d
    → let t = broadcast_to w user machines_event (set_paired_daemon w user id d s) in
      clear_paired_daemon w user id c t ≡ (close c t, false)
unfolding clear_paired_daemon
still_paired w user id c d s n =
    let t = set_paired_daemon w user id d s in
    let same : lookup id (broadcast_to w user machines_event t).hub.paired
        ≡ some (fresh_machine d) =
      ap (λ (h : Hub). lookup id h.paired) (broadcast_to-OnlyClients w user machines_event t)
      ∙ (clear_paired_daemon_superseded w user id c d s n).1 in
    let other : is_current c (lookup id (broadcast_to w user machines_event t).hub.paired) ≡ false =
      unfold is_current fresh_machine in ground (arith, same, nat_eq.beq_iff d c, n) in
    rw (other, clear_paired_daemon) refl

-- A machine connects on `d`. When an earlier connection of it then closes, its socket is closed and
-- that is all: no turn is abandoned, nothing is stored and no browser is told.
pub disconnect_superseded :
    {S : Type 0} (v : Services S) (user : String) (paired : Option Paired) (c d : ℕ) (reason : Text)
    (s : Server S)
    → c ≢ d
    → let t = connect v user paired d s in
      disconnect v user paired c reason t ≡ record t { sys = close c t.sys }
unfolding disconnect connect
disconnect_superseded v user none c d reason s n =
    let e = (clear_daemon_superseded v.world user c d s.sys n).0 in rw (e, disconnect) refl
disconnect_superseded v user (some m) c d reason s n =
    let e = still_paired v.world user m.id c d s.sys n in rw (e, disconnect) refl
