-- ===== src/Api/Access/Runs.antt =====
-- Accounts on a concrete store: one that has ann's account, or has none.
use sparstrowgen.Prelude.{
  ℕ, ◌≡◌, ◌≢◌, ap, ◌-◌, refl, [], ◌∷◌, some, none, Bool, true, false, nat_eq, arith, if◌then◌else◌,
}
use sparstrowgen.Prelude.Int.{pos}
use sparstrowgen.Prelude.Maps.{IsMap, lookup}
use sparstrowgen.Text.{Text, codes, text_eq}
use sparstrowgen.Text.Equality.{text_eq_instance}
use sparstrowgen.Hub.State.{Sys, new}
use sparstrowgen.Api.Access.{
  User, Accounts, Outside, Desk, signed_in, signed_out, done_for, check_email, started,
}
use sparstrowgen.Api.Access.Gate.{wait, mark}
use sparstrowgen.Api.Access.Gate.Spacing.{mark_all, wait-mark}
use sparstrowgen.Api.Access.Register.{register, forgot_password, reset_password}
use sparstrowgen.Api.Access.Register.Alike.{Works, register-same, forgot_password-blind, front}
use sparstrowgen.Api.Access.Sessions.{logout}
use sparstrowgen.Api.Access.Sessions.Cutoff.{CutOff, reset_password-CutOff, logout-CutOff}

abbrev ann : User
ann = record { id = "ann"; email = codes "ann@example.org"; appearance = "" }

abbrev accounts : Accounts Bool
accounts = record {
  user_by_email = λ e has. some (if has then some ann else none);
  issue_link = λ k e has. (has, some (codes "t0ken"));
  record_access_request = λ e has. (has, some true);
  inspect_link = λ k t has. none;
  complete_registration = λ t p a c has. (true, started ann "s1" 100);
  reset_password = λ t p a c has. (has, started ann "s1" 100);
  sign_in = λ e p a c has. (has, started ann "s1" 100);
  start_session = λ u a c has. (has, some ("s2", 100));
  session_user = λ c has. some (some ann);
  end_all_sessions = λ u has. (has, some 2);
  end_session = λ c has. (has, true);
  change_password = λ u p q has. (has, some true);
}

abbrev outside : Outside Bool
outside = record {
  accounts = accounts;
  world = record {
    client_payload = λ ev. some ev.type;
    server_payload = λ msg. some msg.type;
    write_succeeds = λ past c payload. true;
    format_uint = λ n. "r1";
    min_daemon_protocol = pos 2;
  };
  delivers = λ m. true;
  lower = λ t. t;
  query_escape = λ t. t;
  hash_token = λ c. c;
  invited = codes "ann@example.org" ∷ [];
  owner_email = codes "owner@example.org";
  origin = codes "https://example.org/";
  send_gap = 30_000_000_000;
}

abbrev browsers : Sys
browsers = record {
  hub = record new {
    clients =
        (3, record { user_id = "ann"; session_hash = "h1" })
        ∷ (4, record { user_id = "bob"; session_hash = "h2" })
        ∷ [];
  };
  log = [];
}

abbrev desk : Desk Bool
desk = record {
  throttle = [];
  requests = [];
  gate = [];
  hashing = 1;
  sys = browsers;
  store = true;
  mailed = [];
  jobs = [];
}

abbrev address : Text
address = codes "ann@example.org"

works : (has : Bool) (email : Text) → Works outside email has
works has email = record { found = λ e. cc e; issued = λ e. cc e; recorded = λ e. cc e }

register-same_example :
    (front (register outside 5 6 "1.2.3.4" (some address) desk).0
      ≡ front (register outside 5 6 "1.2.3.4" (some address) (record desk { store = false })).0)
    × ((register outside 5 6 "1.2.3.4" (some address) desk).1
        ≡ (register outside 5 6 "1.2.3.4" (some address) (record desk { store = false })).1)
register-same_example =
    register-same outside 5 6 "1.2.3.4" (some address) desk false (λ m. refl) (works true)
      (works false)

registered : (register outside 5 6 "1.2.3.4" (some address) desk).1 ≡ check_email address
unfolding register text_eq
registered = refl

forgot_password-blind_example :
    forgot_password outside 5 (some address) (record desk { store = false; mailed = [] }) ≡ (
      record (forgot_password outside 5 (some address) desk).0 { store = false; mailed = [] },
      (forgot_password outside 5 (some address) desk).1,
    )
forgot_password-blind_example = forgot_password-blind outside 5 (some address) desk false []

forgotten : (forgot_password outside 5 (some address) desk).1 ≡ done_for address
unfolding forgot_password text_eq
forgotten = refl

first : Text → ℕ
first [] = 0
first (c ∷ s) = c

bob_key : codes "b" ≢ codes "a"
unfolding first
bob_key e = absurd (omega (arith, ap first e))

wait-mark_example :
    wait (codes "a") 30 125 (mark_all ((codes "b", 110) ∷ []) (mark (codes "a") 100 []))
    ≡ 30 - (125 - 100)
wait-mark_example =
    wait-mark (codes "a") 30 100 125 ((codes "b", 110) ∷ []) [] tt (omega arith)
      (bob_key, omega arith, tt)

browsers-IsMap : IsMap browsers.hub.clients
unfolding lookup
browsers-IsMap = (refl, (refl, tt))

reset_ok :
    (reset_password outside "go" "1.2.3.4" (some (codes "t0ken", codes "correct horse")) desk).1
    ≡ signed_in address "s1" 100
unfolding reset_password
reset_ok = refl

reset_password-CutOff_example :
    let d' =
      (reset_password outside "go" "1.2.3.4"
        (some (codes "t0ken", codes "correct horse"))
        desk).0 in
    (user : User) × (started ann "s1" 100 ≡ started user "s1" 100)
    × CutOff user.id browsers d'.sys
    × (d'.hashing ≡ 1)
reset_password-CutOff_example =
    reset_password-CutOff outside "go" "1.2.3.4" (codes "t0ken") (codes "correct horse") desk
      address "s1" 100 browsers-IsMap reset_ok

logout_ok : (logout outside true (some "c") desk).1 ≡ signed_out
unfolding logout
logout_ok = refl

logout-CutOff_example :
    ((n : ℕ) × ((outside.accounts.end_all_sessions "ann" true).1 ≡ some n))
    × CutOff "ann" browsers (logout outside true (some "c") desk).0.sys
logout-CutOff_example = logout-CutOff outside "c" ann desk browsers-IsMap refl logout_ok
