-- ===== src/Daemon/Runs.antt =====
-- Runs of the daemon's turns and of its updater on concrete calls.
use sparstrowgen.Prelude.{
  if◌then◌else◌, ◌++◌, String, ◌≡◌, ◌≢◌, ne_of_beq, refl, List, [], ◌∷◌, some, none, true, false,
  ◌⊎◌, string_eq, nat_eq,
}
use sparstrowgen.Prelude.Maps.{lookup}
use sparstrowgen.Protocol.{UpdateStatus, update_available, update_updating}
use sparstrowgen.Text.{Text, codes, text_eq}
use sparstrowgen.Release.{Manifest, Codecs}
use sparstrowgen.Daemon.Web.{response}
use sparstrowgen.Daemon.Download.{Disk, Outside}
use sparstrowgen.Daemon.Check.{Installer, check}
use sparstrowgen.Daemon.Check.Ready.{IsReady, check-IsReady}
use sparstrowgen.Daemon.Turns
use sparstrowgen.Daemon.Turns.{
  Turns, Call, new_running_turns, count, close_if_idle, reopen, begin, stop, end, is_asked,
  cancel_all,
}
use sparstrowgen.Daemon.Turns.Closing.{close_if_idle_holds}
use sparstrowgen.Daemon.Turns.Stops.{stop_before_begin}
use sparstrowgen.Daemon.Updater
use sparstrowgen.Daemon.Updater.{
  ReadyUpdate, Daemon, Event, Phase, UpdateResult, new_daemon, step, run, status_of, failed_status,
  top, off, gone, counting, activate,
}
use sparstrowgen.Daemon.Updater.Idle.{is_handing_over, is_active, handing_over_idle}
use sparstrowgen.Daemon.Updater.Single.{one_activation}

abbrev ready : ReadyUpdate
ready = record { version = "1.3.0"; path = "/tmp/installer" }

abbrev installs : List Updater.Event
installs =
    Updater.begins "t1" 7
    ∷ Updater.applies_now (status_of update_available "1.3.0" 0 "", some ready)
    ∷ Updater.activates none
    ∷ Updater.activates none
    ∷ Updater.ends "t1"
    ∷ Updater.activates none
    ∷ Updater.activates none
    ∷ Updater.activates none
    ∷ []

installs_handing_over :
    is_handing_over (Updater.run installs (new_daemon "1.2.0" none "")).phase ≡ true
unfolding Updater.run new_daemon
installs_handing_over = refl

handing_over_idle_example :
    let t = (Updater.run installs (new_daemon "1.2.0" none "")).turns in
    (t.closed ≡ true) × (count t ≡ 0) × ((begin "t2" 8 t).1 ≡ false)
handing_over_idle_example = handing_over_idle "1.2.0" "" none installs "t2" 8 installs_handing_over

abbrev one_ended : Turns
one_ended = record { cancel = []; asked = ("t0", true) ∷ []; closed = false }

abbrev while_closed : List Call
while_closed = Turns.stops "t1" ∷ Turns.begins "t1" 4 ∷ Turns.cancels_all ∷ Turns.ends "t0" ∷ []

one_ended_closes : (close_if_idle one_ended).1 ≡ true
unfolding close_if_idle
one_ended_closes = refl

close_if_idle_holds_example :
    let u = Turns.run while_closed (close_if_idle one_ended).0 in
    (count one_ended ≡ 0)
    × (u.closed ≡ true)
    × (count u ≡ 0)
    × ((begin "t5" 5 u).1 ≡ false)
    × (count (begin "t5" 5 u).0 ≡ 0)
close_if_idle_holds_example =
    close_if_idle_holds one_ended while_closed "t5" 5 one_ended_closes (tt, (tt, (tt, (tt, tt))))

abbrev two_turns : List Call
two_turns =
    Turns.begins "t1" 4
    ∷ Turns.begins "t2" 5
    ∷ Turns.closes
    ∷ Turns.ends "t1"
    ∷ Turns.ends "t2"
    ∷ Turns.closes
    ∷ []

abbrev stopped_while_running : List Call
stopped_while_running =
    Turns.begins "t2" 6 ∷ Turns.stops "t1" ∷ Turns.cancels_all ∷ Turns.ends "t2" ∷ []

t1_begins : (begin "t1" 4 new_running_turns).1 ≡ true
unfolding begin new_running_turns
t1_begins = refl

abbrev t1 : String
t1 = "t1"

abbrev t2 : String
t2 = "t2"

t2_other : t2 ≢ t1
t2_other = ne_of_beq t2 t1 refl

stop_before_begin_example :
    let u = Turns.run stopped_while_running (stop "t1" new_running_turns).0 in
    (is_asked "t1" u ≡ true)
    × ((begin "t1" 4 u).1 ≡ false)
    × (lookup "t1" (begin "t1" 4 u).0.cancel ≡ lookup "t1" new_running_turns.cancel)
    × (is_asked "t1" (begin "t1" 4 u).0 ≡ false)
stop_before_begin_example =
    stop_before_begin "t1" 4 stopped_while_running new_running_turns
      (t2_other, (tt, (tt, (t2_other, tt))))

installs_active : is_active (Updater.run installs (new_daemon "1.2.0" none "")).phase ≡ true
unfolding Updater.run new_daemon
installs_active = refl

abbrev another_request : Updater.Event
another_request = Updater.applies_now (status_of update_available "1.4.0" 0 "", some ready)

one_activation_example :
    let d = Updater.run installs (new_daemon "1.2.0" none "") in
    ((Updater.step another_request d).phase ≡ d.phase)
    × ((Updater.step another_request d).updater.activating ≡ true)
one_activation_example =
    one_activation "1.2.0" "" none installs another_request installs_active refl

abbrev asked_for : Daemon
asked_for = record {
  updater = record {
    current = "1.2.0";
    automatic = false;
    status = status_of update_updating "1.3.0" 0 "";
    ready = some ready;
    skip = "";
    activating = true;
  };
  turns = record { cancel = []; asked = []; closed = false };
  phase = top ready true none;
}

asked_for_idle : count asked_for.turns ≡ 0
unfolding count
asked_for_idle = refl

abbrev failure : UpdateResult
failure = record { version = "1.3.0"; message = "the installer failed" }

abbrev found : UpdateStatus
found = status_of update_available "1.3.0" 0 ""

-- The update server answers one body, which reads as the manifest of version 1.3.0.
abbrev offered : Manifest
offered = record {
  version = codes "1.3.0";
  url = codes "https://example.org/sparstrowgen.exe";
  sha256 = codes "00112233445566778899aabbccddeeff00112233445566778899aabbccddeeff";
}

abbrev offered_codecs : Codecs
offered_codecs = record {
  unmarshal = λ t. some offered;
  marshal_indent = λ n. some [];
  parse_url = λ t. some (record { scheme = codes "https"; host = codes "example.org" });
  equal_fold = λ a b. text_eq a b;
}

-- The digest is a parameter: it names one installer and no other text.
abbrev update_server : Outside
update_server = record {
  get = λ url. response 200 (codes "200 OK") (codes "MZ") none;
  make_folder = none;
  path_of = λ name. codes "/tmp/" ++ name;
  base = λ path. path;
  can_read = λ path. true;
  sha256_hex = λ t. if text_eq t (codes "MZ") then offered.sha256 else [];
  open_partial = none;
  write_error = none;
  part = λ t. [];
  removes = λ path. true;
  rename_error = none;
  downloads =
      λ disk. codes "/tmp/sparstrowgen-1.1.0.exe" ∷ codes "/tmp/sparstrowgen-1.3.0.exe" ∷ [];
  newer_error = λ a b. codes "not a version";
}

abbrev manifest_url : Text
manifest_url = codes "https://example.org/manifest.json"

abbrev old_installers : Disk
old_installers = (codes "/tmp/sparstrowgen-1.1.0.exe", codes "MX") ∷ []

offered_ready : check offered_codecs update_server (codes "1.2.0") manifest_url old_installers ≡ (
  (
    record { kind = update_available; version = codes "1.3.0"; message = [] },
    some (record { version = codes "1.3.0"; path = codes "/tmp/sparstrowgen-1.3.0.exe" }),
  ),
  (codes "/tmp/sparstrowgen-1.3.0.exe", codes "MZ") ∷ [],
)
unfolding check text_eq
offered_ready = refl

check-IsReady_example :
    let (r, disk) =
      check offered_codecs update_server (codes "1.2.0") manifest_url old_installers in
    ((r.1 ≡ none) × (r.0.kind ≢ update_available))
    ⊎ ((i : Installer) × (r.1 ≡ some i)
        × IsReady offered_codecs update_server (codes "1.2.0") manifest_url i disk
        × (r.0 ≡ record { kind = update_available; version = i.version; message = [] }))
check-IsReady_example =
    check-IsReady offered_codecs update_server (codes "1.2.0") manifest_url old_installers
