-- ===== src/Daemon/Serve/Runs.antt =====
-- A run of the daemon's loop on concrete credentials.
use sparstrowgen.Prelude.{◌≡◌, String, some, none, true, false, ne_of_beq, refl}
use sparstrowgen.Daemon.Serve.{Files, pending_credential, Outcome, serve_round, waits}
use sparstrowgen.Daemon.Serve.Pairing.{serve_round_keeps}

abbrev old : String
old = "old"

abbrev newer : String
newer = "newer"

abbrev kept : String
kept = "kept"

-- Another copy has paired the computer anew while `old` was dialled with.
abbrev files : Files
files = record { pending = newer; credential = kept }

abbrev declined : Outcome
declined = record { connected = false; disconnected = true }

serve_round_keeps_example :
    let g = (serve_round old pending_credential declined 0 false none files).0 in
    (g.pending ≡ newer) × (g.credential ≡ kept)
serve_round_keeps_example =
    serve_round_keeps old pending_credential declined 0 false none files (ne_of_beq newer old refl)
      (ne_of_beq kept old refl)

-- The pending credential is approved, and then another copy pairs the computer anew.
abbrev waiting : Files
waiting = record { pending = old; credential = kept }

approved_run :
    (serve_round old pending_credential
      (record { connected = true; disconnected = false })
      3
      false
      (some newer)
      waiting)
    ≡ (record { pending = newer; credential = old }, waits 1)
unfolding serve_round
approved_run = refl
