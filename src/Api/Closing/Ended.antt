-- ===== src/Api/Closing/Ended.antt =====
-- api.go with main.go's runTurn: a turn that a daemon has run is over on the server.
use sparstrowgen.Prelude.{
  ℕ, ◌≤◌, String, ◌≡◌, ◌≢◌, refl, sym, ap, ◌∙◌, List, [], ◌∷◌, some, none, true, false, ◌&&◌, ◌==◌,
  string_eq, nat_eq, arith,
}
use mathlib.Core.Option.{some-injective}
use sparstrowgen.Prelude.Maps.{lookup, lookup-delete_self, lookup-delete_ne}
use sparstrowgen.Protocol.Turn.{ContextRecord, TurnMessage}
use sparstrowgen.Daemon.Turns.{Turns, Call}
use sparstrowgen.Daemon.RunTurn.{RunTurn, Result, Event, Computer, run_turn}
use sparstrowgen.Daemon.RunTurn.Ending.{is_ending, endings, last_message}
use sparstrowgen.Daemon.RunTurn.Once.{ends_once, run_turn_ends}
use sparstrowgen.Api.State.{Services, Server}
use sparstrowgen.Api.Turns.{said, handle_daemon_message}
use sparstrowgen.Api.Closing.{handle_all, of_turn}
use sparstrowgen.Api.Closing.Gone.{owner_of, owner, Stays}
use sparstrowgen.Api.Closing.Whole.{said_ending, said-Stays, said_by_other, said_turns}

last_message-some :
    (m : TurnMessage) (ms : List TurnMessage) → (x : TurnMessage) × (last_message (m ∷ ms) ≡ some x)
unfolding last_message
last_message-some m [] = (m, refl)
last_message-some m (n ∷ ms) = let (x, e) = last_message-some n ms in (x, rw e refl)

last_message-cons :
    (m n : TurnMessage) (ms : List TurnMessage) → last_message (m ∷ n ∷ ms) ≡ last_message (n ∷ ms)
last_message-cons m n ms =
    let (x, e) = last_message-some n ms in unfold last_message in ground arith

last_counts :
    (ms : List TurnMessage) (x : TurnMessage)
    → last_message ms ≡ some x
    → is_ending x ≡ true
    → 1 ≤ endings ms
unfolding endings
last_counts [] x e h = unfold last_message in cc e
last_counts (m ∷ []) x e h =
    let same : m ≡ x = some-injective _ _ (unfold last_message in e) in ground (arith, same, h)
last_counts (m ∷ n ∷ ms) x e h =
    let more = last_counts (n ∷ ms) x (sym (last_message-cons m n ms) ∙ e) h in ground (arith, more)

ends_once_parts :
    (ms : List TurnMessage) (x : TurnMessage)
    → last_message ms ≡ some x
    → ends_once ms ≡ true
    → (endings ms ≡ 1) × (is_ending x ≡ true)
unfolding ends_once
ends_once_parts ms x e h =
    let g : (endings ms == 1 && is_ending x) ≡ true = rw (e, ends_once) at h in
    (ground (arith, g), ground (arith, g))

-- Every message but the last leaves the turn running.
ends_once-cons :
    (m n : TurnMessage) (ms : List TurnMessage)
    → ends_once (m ∷ n ∷ ms) ≡ true
    → (is_ending m ≡ false) × (ends_once (n ∷ ms) ≡ true)
ends_once-cons m n ms h =
    let (x, e) = last_message-some n ms in
    let (one, last) = ends_once_parts (m ∷ n ∷ ms) x (last_message-cons m n ms ∙ e) h in
    let more = last_counts (n ∷ ms) x e last in
    let a : is_ending m ≡ false = unfold endings in ground (arith, one, more) in
    let b : endings (n ∷ ms) ≡ 1 = unfold endings in ground (arith, one, more, a) in
    (a, unfold ends_once in rw (e, ends_once) (ground (arith, b, last)))

ends_once-one : (m : TurnMessage) → ends_once (m ∷ []) ≡ true → is_ending m ≡ true
unfolding ends_once
ends_once-one m h = ground (arith, h)

-- The turn is over, and no other turn has been touched.
abbrev Over : {S : Type 0} → String → Server S → Server S → Type 0
Over id s s' =
    (lookup id s'.turns ≡ none) × ((j : String) → j ≢ id → lookup j s'.turns ≡ lookup j s.turns)

all_said :
    {S : Type 0} (v : Services S) (user id : String) (ms : List TurnMessage) (s : Server S)
    → owner id s ≡ some user
    → ends_once ms ≡ true
    → Over id s (handle_all v user (of_turn id ms) s)
unfolding handle_all
all_said v user id [] s o h = unfold ends_once in cc h
all_said v user id (m ∷ []) s o h =
    let e = said_ending v user id m s o (ends_once-one m h) in
    (
      ap (lookup id) e ∙ lookup-delete_self id s.turns,
      λ j n. ap (lookup j) e ∙ lookup-delete_ne s.turns (λ q. n (sym q)),
    )
all_said v user id (m ∷ n ∷ ms) s o h =
    let (quiet, rest) = ends_once-cons m n ms h in
    let s' : Server _ = handle_daemon_message v user (said id m) s in
    let stays : Stays id s s' = said-Stays v user id m s o quiet in
    let (gone, others) = all_said v user id (n ∷ ms) s' (stays.same_owner ∙ o) rest in
    (gone, λ j k. others j k ∙ stays.others j k)

-- A turn of the account that its daemon has run, whatever happened on the computer: once the server
-- has handled all that the daemon said of it, the turn is no longer in flight, every other turn is as
-- it was, and of anything more that is said of the turn, by any account's machine, no turn hears.
pub run_turn_closes :
    {S : Type 0} (v : Services S) (user : String) (s : Server S) (c : Computer) (t : RunTurn)
    (cancel : ℕ) (calls : List Call) (es : List Event) (result : Result) (ctx : ContextRecord)
    (turns : Turns)
    → owner t.turn_id s ≡ some user
    → let after =
        handle_all v user (of_turn t.turn_id (run_turn c t cancel calls es result ctx turns).0) s in
      (lookup t.turn_id after.turns ≡ none)
      × ((j : String) → j ≢ t.turn_id → lookup j after.turns ≡ lookup j s.turns)
      × ((other : String) (m : TurnMessage)
          → (handle_daemon_message v other (said t.turn_id m) after).turns ≡ after.turns)
run_turn_closes v user s c t cancel calls es result ctx turns o =
    let ms : List TurnMessage = (run_turn c t cancel calls es result ctx turns).0 in
    let after : Server _ = handle_all v user (of_turn t.turn_id ms) s in
    let (gone, others) =
      all_said v user t.turn_id ms s o (run_turn_ends c t cancel calls es result ctx turns) in
    (
      gone,
      others,
      λ other m.
          said_turns v other t.turn_id m after
          ∙ ap (λ z. z.turns)
              (said_by_other v other t.turn_id m after (λ e. cc (e, ap owner_of gone))),
    )
