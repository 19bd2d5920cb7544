-- ===== src/Daemon/Install/Runs.antt =====
-- An update whose new version does not reconnect.
use sparstrowgen.Prelude.{◌≡◌, refl, [], ◌∷◌, some, none, true, false, arith, ltb}
use sparstrowgen.Daemon.Install.{
  Calls, whole, Machine, old_version, not_reconnected, run_update, try_new, copy_new, put_old_back,
  retry_put_back, put_back, give_up, start, copy_file, kill, reconnects,
}
use sparstrowgen.Daemon.Install.Left.{run_update-Leaves, PutsBack, Leaves}

abbrev installed : Machine
installed = record {
  target = some old_version;
  backup = none;
  running = old_version ∷ [];
  handover = false;
  result = none;
}

-- The third attempt succeeds.
abbrev calls : Calls
calls = record {
  stops = true;
  moves = true;
  copied = whole;
  hands_over = true;
  starts_new = true;
  rounds =
      record { exits_first = false; connected = false; exits_then = false }
      ∷ record { exits_first = false; connected = false; exits_then = true }
      ∷ [];
  dies = true;
  removes = λ n. false;
  renames = λ n. ltb 1 n;
  records_result = true;
  starts_again = true;
}

abbrev left : Machine
left = record {
  target = some old_version;
  backup = none;
  running = old_version ∷ [];
  handover = false;
  result = some not_reconnected;
}

put_back_run : run_update calls installed ≡ (left, false)
unfolding run_update try_new copy_new put_old_back retry_put_back put_back give_up start copy_file
    kill reconnects
put_back_run = refl

puts_back : PutsBack calls
puts_back = (2, omega arith, refl)

run_update-Leaves_example : Leaves calls (run_update calls installed)
run_update-Leaves_example =
    run_update-Leaves calls installed (refl, refl) refl refl refl (refl, (refl, tt)) puts_back
