-- ===== src/Daemon/RunTurn/Once.antt =====
-- main.go, runTurn: every way through it, from the refusals on.
use sparstrowgen.Prelude.{
  ℕ, ◌≡◌, ◌⊎◌, refl, ap, ◌∙◌, List, [], ◌∷◌, ◌++◌, Option, some, none, inl, inr, Bool, true, false,
  ◌&&◌, ◌==◌, nat_eq, string_eq, arith, All, Bool-cases, Option-cases, if◌then◌else◌,
}
use sparstrowgen.Prelude.Int.{pos}
use sparstrowgen.Prelude.Maps.{lookup}
use sparstrowgen.Text.{Text, codes}
use sparstrowgen.Protocol.Turn.{ContextRecord, TurnMessage, stopped, failed, done}
use sparstrowgen.Daemon.Exchange.{sent, is_empty}
use sparstrowgen.Daemon.Turns
use sparstrowgen.Daemon.Turns.{Turns, Call, begin, end, is_asked, closed_for_update}
use sparstrowgen.Daemon.Turns.Stops.{Spares, has_stop, end_reports_stop}
use sparstrowgen.Daemon.RunTurn.{
  RunTurn, Result, Computer, Event, ending, watch, not_launched, no_text, not_started, execute_turn,
  refused, updating, begin_turn, run_turn,
}
use sparstrowgen.Daemon.RunTurn.Ending.{
  is_ending, endings, last_message, EndsWith, append-EndsWith, sent-endings, went_idle,
  last_of_watch, watch-EndsWith,
}

-- One message ends the turn, and it is the last.
unfoldable pub ends_once : List TurnMessage → Bool
unfolding endings last_message
ends_once ms = endings ms == 1 && elim (last_message ms) [ none ↦ false | some m ↦ is_ending m ]

EndsWith-ends_once : (m : TurnMessage) (ms : List TurnMessage) → EndsWith m ms → ends_once ms ≡ true
unfolding ends_once
EndsWith-ends_once m ms (one, last, ends) = rw (last, ends_once) (ground (arith, one, ends))

refused-EndsWith :
    (c : Computer) (t : RunTurn) (prompt : Text) (m : TurnMessage)
    → is_ending m ≡ true
    → EndsWith m (refused c t prompt m)
refused-EndsWith c t prompt m e =
    append-EndsWith (sent (not_launched t prompt)) m (sent-endings (not_launched t prompt)) e

not_started-EndsOnce :
    (c : Computer) (t : RunTurn) (err : Text) (turns : Turns)
    → ends_once (not_started c t err turns).0 ≡ true
unfolding not_started
not_started-EndsOnce c t err turns =
    let m : TurnMessage =
      if (end t.turn_id turns).1 then stopped no_text (pos 0) (pos 0) "" else failed no_text err in
    EndsWith-ends_once m (sent (not_launched t c.prompt) ++ (m ∷ []))
      (refused-EndsWith c t c.prompt m (either (end t.turn_id turns).1))
  where
    either :
        (b : Bool)
        → is_ending (if b then stopped no_text (pos 0) (pos 0) "" else failed no_text err) ≡ true
    either true = refl
    either false = refl

execute_turn-EndsOnce :
    (c : Computer) (t : RunTurn) (es : List Event) (result : Result) (ctx : ContextRecord)
    (answer : Option Text) (turns : Turns)
    → ends_once (execute_turn c t es result ctx answer turns).0 ≡ true
execute_turn-EndsOnce c t es result ctx (some err) turns = not_started-EndsOnce c t err turns
execute_turn-EndsOnce c t es result ctx none turns =
    EndsWith-ends_once (last_of_watch c t es result turns) (watch c t es result ctx turns).0
      (watch-EndsWith c t es result ctx turns)

refused-EndsOnce :
    (c : Computer) (t : RunTurn) (prompt : Text) (m : TurnMessage)
    → is_ending m ≡ true
    → ends_once (refused c t prompt m) ≡ true
refused-EndsOnce c t prompt m e =
    EndsWith-ends_once m (refused c t prompt m) (refused-EndsWith c t prompt m e)

begin_turn-EndsOnce :
    (c : Computer) (t : RunTurn) (cancel : ℕ) (calls : List Call) (es : List Event)
    (result : Result) (ctx : ContextRecord) (turns : Turns)
    → ends_once (begin_turn c t cancel calls es result ctx turns).0 ≡ true
unfolding begin_turn
begin_turn-EndsOnce c t cancel calls es result ctx turns =
    let begun : Turns = (begin t.turn_id cancel turns).0 in
    elim (Bool-cases (begin t.turn_id cancel turns).1) [
      | inl e ↦
          rw (e, begin_turn)
            (execute_turn-EndsOnce c t es result ctx c.execute (Turns.run calls begun))
      | inr e ↦ elim (Bool-cases (closed_for_update begun)) [
        | inl f ↦
            rw (e, begin_turn) (rw f (refused-EndsOnce c t c.prompt (failed no_text updating) refl))
        | inr f ↦
            rw (e, begin_turn)
              (rw f (refused-EndsOnce c t c.prompt (stopped no_text (pos 0) (pos 0) "") refl))
      ]
    ]

-- Whatever the computer answers, whatever the CLI prints and whatever other goroutines do meanwhile,
-- the server is sent exactly one message that ends the turn, and it is the last one sent.
pub run_turn_ends :
    (c : Computer) (t : RunTurn) (cancel : ℕ) (calls : List Call) (es : List Event)
    (result : Result) (ctx : ContextRecord) (turns : Turns)
    → ends_once (run_turn c t cancel calls es result ctx turns).0 ≡ true
unfolding run_turn
run_turn_ends c t cancel calls es result ctx turns = elim (Option-cases c.files_error) [
  | inr (err, e) ↦ rw (e, run_turn) (refused-EndsOnce c t c.bare_prompt (failed no_text err) refl)
  | inl e ↦ elim (Bool-cases c.has_backend) [
    | inr h ↦ rw (e, h, run_turn) (refused-EndsOnce c t c.prompt (failed no_text c.no_adapter) refl)
    | inl h ↦ elim (Bool-cases (is_empty c.folder_problem)) [
      | inr p ↦
          rw (e, h, p, run_turn)
            (refused-EndsOnce c t c.prompt (failed no_text c.folder_problem) refl)
      | inl p ↦ rw (e, h, p, run_turn) (begin_turn-EndsOnce c t cancel calls es result ctx turns)
    ]
  ]
]

-- What a message says of a turn's end, given whether a stop was asked for, whether the idle timer fired,
-- and the CLI's result: a stop; a failure that says how long nothing arrived; the CLI's error; or success.
abbrev pub TellsEnd : Computer → RunTurn → Bool → Bool → Result → TurnMessage → Type 0
TellsEnd c t stop quiet r m =
    ((stop ≡ true) × (m ≡ stopped r.text r.tokens r.spend_ticks r.session_id))
    ⊎ ((stop ≡ false)
        × (quiet ≡ true)
        × (m
            ≡ failed r.text (
                codes t.provider
                ++ codes " stopped responding — nothing arrived for "
                ++ c.idle_budget
                ++ codes ", so it was ended")))
    ⊎ ((stop ≡ false)
        × (quiet ≡ false)
        × ((err : Text) × (r.err ≡ some err) × (m ≡ failed r.text err)))
    ⊎ ((stop ≡ false)
        × (quiet ≡ false)
        × (r.err ≡ none)
        × (m ≡ done r.text r.tokens r.spend_ticks r.session_id))

ending-TellsEnd :
    (c : Computer) (t : RunTurn) (stop quiet : Bool) (r : Result)
    → TellsEnd c t stop quiet r (ending c t stop quiet r)
unfolding ending
ending-TellsEnd c t true quiet r = inl (refl, refl)
ending-TellsEnd c t false true r = inr (inl (refl, refl, refl))
ending-TellsEnd c t false false r = elim (Option-cases r.err) [
  | inr (err, e) ↦ inr (inr (inl (refl, refl, (err, e, rw (e, ending) refl))))
  | inl e ↦ inr (inr (inr (refl, refl, e, rw (e, ending) refl)))
]

-- A turn that nothing refuses, that begins and whose CLI starts: while other goroutines neither begin
-- nor end it, what the server is told at the end is a stop exactly when one of them asked for it; else,
-- that it went quiet, exactly when the idle timer fired; else the CLI's error, where its result has one, and
-- else that it is done with the result's text, tokens, cost and session. The turn is
-- then no longer among the running turns, and a stop of it is no longer remembered.
pub run_turn_reports :
    (c : Computer) (t : RunTurn) (cancel : ℕ) (calls : List Call) (es : List Event)
    (result : Result) (ctx : ContextRecord) (turns : Turns)
    → c.files_error ≡ none
    → c.has_backend ≡ true
    → is_empty c.folder_problem ≡ true
    → c.execute ≡ none
    → (begin t.turn_id cancel turns).1 ≡ true
    → All (Spares t.turn_id) calls
    → let (ms, after) = run_turn c t cancel calls es result ctx turns in
      ((m : TurnMessage) × (last_message ms ≡ some m)
        × TellsEnd c t (has_stop t.turn_id calls) (went_idle es) result m)
      × (lookup t.turn_id after.cancel ≡ none)
      × (is_asked t.turn_id after ≡ false)
unfolding run_turn begin_turn
run_turn_reports c t cancel calls es result ctx turns f h p x b spares =
    let u : Turns = Turns.run calls (begin t.turn_id cancel turns).0 in
    let (running, stops, gone, forgotten) =
      end_reports_stop t.turn_id cancel calls turns b spares in
    rw (f, h, p, run_turn)
      (rw (b, x, begin_turn)
        (
          (
            ending c t (has_stop t.turn_id calls) (went_idle es) result,
            (watch-EndsWith c t es result ctx u).1
                ∙ unfold last_of_watch in ap (λ z. some (ending c t z (went_idle es) result)) stops,
            ending-TellsEnd c t (has_stop t.turn_id calls) (went_idle es) result,
          ),
          unfold watch in gone,
          unfold watch in forgotten,
        ))
