-- ===== src/Hub/Runs.antt =====
-- Runs of the hub on concrete connections and messages.
use sparstrowgen.Prelude.{
  ℕ, String, ◌≡◌, ◌≢◌, ◌↔◌, refl, List, [], ◌∷◌, ◌++◌, Option, some, none, false, not, ◌==◌,
  string_eq, nat_eq, is_some, ne_of_beq, All, if◌then◌else◌, Elem, Distinct,
}
use sparstrowgen.Prelude.Maps.{Map, IsMap, lookup}
use sparstrowgen.Prelude.Int.{pos}
use sparstrowgen.Protocol.{ClientEvent, ServerMessage, DaemonMessage}
use sparstrowgen.Hub.State.{Client, Sys, World}
use sparstrowgen.Hub.Browsers.{broadcast_to, disconnect_user}
use sparstrowgen.Hub.Routing.{current_machine, daemon_online, target}
use sparstrowgen.Hub.Machines.{fresh_machine}
use sparstrowgen.Hub.Requests.{ask_reply, forget}
use sparstrowgen.Hub.Isolation.{OnlyClients, IsOf, sent_to, to_each, broadcast_to_exact}
use sparstrowgen.Hub.Revocation.{Revokes, disconnect_user-Revokes}
use sparstrowgen.Hub.Replies.{deliver_all, first_answer, ask_reply_first}
use sparstrowgen.Hub.Steps.{
  Call, IsHonest, run, initial, adds_client, sets_paired, clears_paired, delivers, asks,
}
use sparstrowgen.Hub.Steps.Same.{Good}
use sparstrowgen.Hub.Steps.Keeps.{run-initial-Good}
use sparstrowgen.Hub.Targets.{Chooses, daemon_online-current_machine, target-Chooses}

-- Every message is its type, and connection 3 is broken.
abbrev world : World
world = record {
  client_payload = λ ev. some ev.type;
  server_payload = λ msg. some msg.type;
  write_succeeds = λ past c payload. not (c == 3);
  format_uint = λ n. "r1";
  min_daemon_protocol = pos 2;
}

abbrev ann : String
ann = "ann"

abbrev bob : String
bob = "bob"

abbrev three_clients : Map ℕ Client
three_clients =
    (1, record { user_id = ann; session_hash = "s1" })
    ∷ (2, record { user_id = bob; session_hash = "s2" })
    ∷ (3, record { user_id = ann; session_hash = "s3" })
    ∷ []

three_clients-IsMap : IsMap three_clients
unfolding lookup
three_clients-IsMap = (refl, (refl, (refl, tt)))

-- Ann has a paired machine, and a request of hers waits.
abbrev busy : Sys
busy = record {
  hub = record {
    clients = three_clients;
    machines = [];
    paired = ("pc", fresh_machine 9) ∷ [];
    paired_users = ("pc", ann) ∷ [];
    primary = (ann, "pc") ∷ [];
    pending = ("r7", record { user_id = ann; reply = none }) ∷ [];
    next_request = 7;
  };
  log = [];
}

abbrev event : ClientEvent
event = record { type = "title"; providers = []; online = false; too_old = false; rest = "" }

abbrev message : ServerMessage
message = record {
  type = "dir";
  turn = none;
  turn_id = "";
  request_id = "";
  path = "/home";
  root = "";
  automatic = none;
}

broadcast_to_exact_example :
    (cs : List ℕ) × (sent_to (broadcast_to world ann event busy).log
      ≡ sent_to busy.log
        ++ to_each (elim (world.client_payload event) [ none ↦ "" | some p ↦ p ]) cs)
    × Distinct cs
    × ((c : ℕ) → Elem c cs ↔ IsOf ann busy.hub.clients c)
    × OnlyClients busy.hub (broadcast_to world ann event busy).hub
broadcast_to_exact_example = broadcast_to_exact world ann event busy three_clients-IsMap refl

disconnect_user-Revokes_example : Revokes (λ c. c.user_id == ann) busy (disconnect_user ann busy)
disconnect_user-Revokes_example = disconnect_user-Revokes ann busy three_clients-IsMap

abbrev no_id : String
no_id = ""

abbrev s1 : String
s1 = "s1"

abbrev reply : String → DaemonMessage
reply id = record { type = "reply"; request_id = id; rest = "{}" }

abbrev sent_by_machines : List (String × DaemonMessage)
sent_by_machines =
    (bob, reply "r7") ∷ (ann, reply "r8") ∷ (ann, reply "r7") ∷ (ann, reply "r7") ∷ []

abbrev r7 : String
r7 = "r7"

r7_named : r7 ≢ no_id
r7_named = ne_of_beq r7 no_id refl

r7_waits : lookup r7 busy.hub.pending ≡ some (record { user_id = ann; reply = none })
unfolding lookup
r7_waits = refl

ask_reply_first_example :
    ask_reply r7 (deliver_all sent_by_machines busy)
    ≡ (elim (first_answer ann r7 sent_by_machines) as (λ _. Option (Sys × DaemonMessage)) [
      | none ↦ none
      | some m ↦ some (forget r7 (deliver_all sent_by_machines busy), m)
    ])
ask_reply_first_example = ask_reply_first sent_by_machines r7 ann busy r7_named r7_waits

abbrev owner : String → String
owner id = if id == "pc" then ann else bob

abbrev pc : String
pc = "pc"

pc_named : pc ≢ no_id
pc_named = ne_of_beq pc no_id refl

abbrev two_machines : List Call
two_machines =
    adds_client 1 ann "s1"
    ∷ sets_paired ann pc 9
    ∷ sets_paired ann pc 10
    ∷ clears_paired ann pc 9
    ∷ asks ann message
    ∷ delivers ann (reply "r1")
    ∷ []

two_machines-IsHonest : All (IsHonest owner) two_machines
two_machines-IsHonest =
    (tt, ((refl, pc_named), ((refl, pc_named), ((refl, pc_named), (tt, (tt, tt))))))

run-initial-Good_example : Good owner (run world two_machines initial).hub
run-initial-Good_example = run-initial-Good owner world two_machines two_machines-IsHonest

daemon_online-current_machine_example :
    daemon_online (run world two_machines initial).hub ann
    ≡ is_some (current_machine (run world two_machines initial).hub ann)
daemon_online-current_machine_example =
    daemon_online-current_machine owner (run world two_machines initial).hub
      (run-initial-Good owner world two_machines two_machines-IsHonest).routes ann

target-Chooses_example :
    Chooses busy.hub ann ("mac" ∷ pc ∷ []) (target busy.hub ann ("mac" ∷ pc ∷ []))
target-Chooses_example = target-Chooses busy.hub ann ("mac" ∷ pc ∷ [])
