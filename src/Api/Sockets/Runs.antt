-- ===== src/Api/Sockets/Runs.antt =====
-- Runs of a machine's socket on concrete machines.
use sparstrowgen.Prelude.{
  ℕ, ◌≡◌, ◌⊎◌, ◌≢◌, refl, String, List, [], ◌∷◌, some, none, true, false, nat_eq, arith,
}
use sparstrowgen.Prelude.Int.{pos}
use sparstrowgen.Text.{codes}
use sparstrowgen.Hub.State.{new, close}
use sparstrowgen.Api.State.{Services, Server}
use sparstrowgen.Api.Sockets.{Paired, Credential, admit, connect, disconnect}
use sparstrowgen.Api.Sockets.Closed.{disconnect_superseded}
use sparstrowgen.Api.Sockets.Admitted.{admit_trusted}

-- A store of the ids of the entries that were finished.
abbrev services : Services (List String)
services = record {
  store = record {
    last_seq = λ c st. pos 1;
    mark_seen = λ c p session seq st. st;
    append_delta = λ e text st. st;
    record_exchange_sent = λ c e x st. (st, true);
    append_exchange_lines = λ e ls d st. (st, true);
    record_exchange_context = λ c e x st. st;
    finish_turn = λ r st. (r.entry_id ∷ st, none);
    add_usage = λ c a b st. (st, none);
  };
  json = record {
    delta = λ c e text. c;
    entry = λ c e. c;
    conversation = λ c. c.id;
    exchange = λ c e x. c;
  };
  decoder = record {
    claude = λ text. none;
    codex = λ text. none;
    agy = λ text. none;
    named = λ text. none;
    plain = λ text. none;
  };
  world = record {
    client_payload = λ ev. some ev.type;
    server_payload = λ msg. some msg.type;
    write_succeeds = λ past c payload. true;
    format_uint = λ n. "r1";
    min_daemon_protocol = pos 2;
  };
}

abbrev laptop : Paired
laptop = record { id = "m1"; user_id = "ann"; automatic_updates = true }

abbrev server : Server (List String)
server = record { turns = []; sys = record { hub = new; log = [] }; store = [] }

abbrev three : ℕ
three = 3

abbrev four : ℕ
four = 4

three-four : three ≢ four
three-four = λ e. absurd (omega (arith, e))

disconnect_superseded_example :
    let t = connect services "ann" (some laptop) 4 server in
    disconnect services "ann" (some laptop) 3 (codes "gone") t ≡ record t { sys = close 3 t.sys }
disconnect_superseded_example =
    disconnect_superseded services "ann" (some laptop) 3 4 (codes "gone") server three-four

abbrev credential : Credential
credential = record {
  legacy = false;
  paired = some (some laptop);
  is_refused = some false;
  owner = some none;
}

admit_trusted_example :
    ((credential.legacy ≡ true) × (credential.owner ≡ some (some "ann")))
    ⊎ ((credential.legacy ≡ false)
        × ((p : Paired) × (credential.paired ≡ some (some p)) × (p.user_id ≡ "ann")))
unfolding admit
admit_trusted_example = admit_trusted credential "ann" (some laptop) refl
