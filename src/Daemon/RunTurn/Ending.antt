-- ===== src/Daemon/RunTurn/Ending.antt =====
-- main.go, runTurn: how a turn ends, as the server is told.
use sparstrowgen.Prelude.{
  ℕ, ◌+◌, ◌≡◌, refl, ap, subst, ◌∙◌, String, List, [], ◌∷◌, ◌++◌, Option, some, none, inl, inr,
  Bool, true, false, ◌||◌, nat_eq, arith, Option-cases, if◌then◌else◌,
}
use sparstrowgen.Protocol.Turn.{
  ExchangeSent, ContextRecord, TurnMessage, exchange, started, delta, limit, done, stopped, failed,
}
use sparstrowgen.Daemon.Exchange
use sparstrowgen.Daemon.Exchange.{
  Line, ExchangeRecord, new_exchange_record, sent, add, is_empty, flush,
}
use sparstrowgen.Daemon.Turns.{Turns, end}
use sparstrowgen.Daemon.RunTurn.{
  RunTurn, Result, Computer, Event, prints, starts, streams, limits, ticks, idles, Running,
  flush_running, take_event, drain, ending, watch,
}

-- The message ends its turn.
abbrev pub is_ending : TurnMessage → Bool
is_ending (exchange s ls d c) = false
is_ending (started s) = false
is_ending (delta t) = false
is_ending (limit p h) = false
is_ending (done f t s i) = true
is_ending (stopped f t s i) = true
is_ending (failed f e) = true

unfoldable pub endings : List TurnMessage → ℕ
endings [] = 0
endings (m ∷ ms) = if is_ending m then endings ms + 1 else endings ms

unfoldable pub last_message : List TurnMessage → Option TurnMessage
last_message [] = none
last_message (m ∷ ms) = let rest = last_message ms in elim rest [ none ↦ some m | some x ↦ some x ]

last_message-append :
    (ms : List TurnMessage) (m : TurnMessage) → last_message (ms ++ (m ∷ [])) ≡ some m
unfolding last_message
last_message-append [] m = refl
last_message-append (x ∷ ms) m = ground (arith, last_message-append ms m)

endings-append : (ms ns : List TurnMessage) → endings (ms ++ ns) ≡ endings ms + endings ns
unfolding endings
endings-append [] ns = omega arith
endings-append (m ∷ ms) ns = ground (arith, endings-append ms ns)

-- No message but the last ends the turn.
abbrev pub EndsWith : TurnMessage → List TurnMessage → Type 0
EndsWith m ms = (endings ms ≡ 1) × (last_message ms ≡ some m) × (is_ending m ≡ true)

endings-one : (m : TurnMessage) → is_ending m ≡ true → endings (m ∷ []) ≡ 1
unfolding endings
endings-one m e = ground (arith, e)

pub append-EndsWith :
    (ms : List TurnMessage) (m : TurnMessage)
    → endings ms ≡ 0
    → is_ending m ≡ true
    → EndsWith m (ms ++ (m ∷ []))
append-EndsWith ms m e h =
    let a = endings-append ms (m ∷ []) in
    let b = endings-one m h in (omega (arith, a, b, e), last_message-append ms m, h)

pub sent-endings : (x : ExchangeSent) → endings (sent x) ≡ 0
unfolding sent endings
sent-endings x = refl

flush-endings : (r : ExchangeRecord) → endings (flush r).1 ≡ 0
unfolding flush endings
flush-endings r = ground arith

says-endings :
    (s : Running) (m : TurnMessage)
    → is_ending m ≡ false
    → endings (s.log ++ (m ∷ [])) ≡ endings s.log
unfolding endings
says-endings s m e = let a = endings-append s.log (m ∷ []) in ground (arith, a, e)

flush_running-endings : (s : Running) → endings (flush_running s).log ≡ endings s.log
unfolding flush_running
flush_running-endings s =
    let a = endings-append s.log (flush s.exchange).1 in
    let b = flush-endings s.exchange in omega (arith, a, b)

prints_endings :
    (b : Bool) (s : Running) → endings (if b then flush_running s else s).log ≡ endings s.log
prints_endings true s = flush_running-endings s
prints_endings false s = refl

take_event-endings :
    (p : String) (e : Event) (s : Running) → endings (take_event p e s).log ≡ endings s.log
unfolding take_event
take_event-endings p (prints l) s =
    prints_endings (add l s.exchange).1 (record s { exchange = (add l s.exchange).0 })
take_event-endings p (starts i) s = says-endings s (started i) refl
take_event-endings p (streams t) s = says-endings s (delta t) refl
take_event-endings p (limits h) s = says-endings s (limit p h) refl
take_event-endings p ticks s = flush_running-endings s
take_event-endings p idles s = refl

drain-endings :
    (p : String) (es : List Event) (s : Running) → endings (drain p es s).log ≡ endings s.log
unfolding drain
drain-endings p [] s = refl
drain-endings p (e ∷ es) s = drain-endings p es (take_event p e s) ∙ take_event-endings p e s

context-endings : (x : ContextRecord) → endings (Exchange.context x) ≡ 0
unfolding Exchange.context endings
context-endings x = refl

or_false : (b : Bool) → b || false ≡ b
or_false b = ground arith

-- The idle timer has fired.
unfoldable pub went_idle : List Event → Bool
went_idle [] = false
went_idle (idles ∷ es) = true
went_idle (e ∷ es) = went_idle es

flush_running_quiet : (s : Running) → (flush_running s).went_quiet ≡ s.went_quiet
unfolding flush_running
flush_running_quiet s = refl

prints_quiet :
    (b : Bool) (s : Running) → (if b then flush_running s else s).went_quiet ≡ s.went_quiet
prints_quiet true s = flush_running_quiet s
prints_quiet false s = refl

drain_quiet :
    (p : String) (es : List Event) (s : Running)
    → (drain p es s).went_quiet ≡ went_idle es || s.went_quiet
unfolding drain take_event went_idle
drain_quiet p [] s = refl
drain_quiet p (prints l ∷ es) s =
    let r : ExchangeRecord = (add l s.exchange).0 in
    let a = prints_quiet (add l s.exchange).1 (record s { exchange = r }) in
    drain_quiet p es (take_event p (prints l) s) ∙ ap (λ z. went_idle es || z) a
drain_quiet p (starts i ∷ es) s = drain_quiet p es (take_event p (starts i) s)
drain_quiet p (streams t ∷ es) s = drain_quiet p es (take_event p (streams t) s)
drain_quiet p (limits h ∷ es) s = drain_quiet p es (take_event p (limits h) s)
drain_quiet p (ticks ∷ es) s =
    drain_quiet p es (take_event p ticks s) ∙ ap (λ z. went_idle es || z) (flush_running_quiet s)
drain_quiet p (idles ∷ es) s = let a = drain_quiet p es (take_event p idles s) in ground (arith, a)

ending-IsEnding :
    (c : Computer) (t : RunTurn) (was quiet : Bool) (r : Result)
    → is_ending (ending c t was quiet r) ≡ true
unfolding ending
ending-IsEnding c t true quiet r = refl
ending-IsEnding c t false true r = refl
ending-IsEnding c t false false r = elim (Option-cases r.err) [
  | inl e ↦ rw (e, ending) refl
  | inr (err, e) ↦ rw (e, ending) refl
]

-- The message that `watch` ends with.
unfoldable pub last_of_watch : Computer → RunTurn → List Event → Result → Turns → TurnMessage
last_of_watch c t es result turns = ending c t (end t.turn_id turns).1 (went_idle es) result

pub watch-EndsWith :
    (c : Computer) (t : RunTurn) (es : List Event) (result : Result) (ctx : ContextRecord)
    (turns : Turns)
    → EndsWith (last_of_watch c t es result turns) (watch c t es result ctx turns).0
unfolding watch last_of_watch
watch-EndsWith c t es result ctx turns =
    let s0 : Running = record {
      exchange = new_exchange_record;
      went_quiet = false;
      log = sent c.session_sent;
    } in
    let u : Running = flush_running (drain t.provider es s0) in
    let m : TurnMessage = ending c t (end t.turn_id turns).1 u.went_quiet result in
    let quiet : u.went_quiet ≡ went_idle es =
      flush_running_quiet (drain t.provider es s0)
      ∙ drain_quiet t.provider es s0
      ∙ or_false (went_idle es) in
    let a = flush_running-endings (drain t.provider es s0) in
    let b = drain-endings t.provider es s0 in
    let d = sent-endings c.session_sent in
    let e = endings-append u.log (Exchange.context ctx) in
    let f = context-endings ctx in
    let none_before : endings (u.log ++ Exchange.context ctx) ≡ 0 = omega (arith, a, b, d, e, f) in
    subst
      (λ z.
        EndsWith (ending c t (end t.turn_id turns).1 z result)
          (u.log ++ Exchange.context ctx ++ (m ∷ [])))
      quiet
      (append-EndsWith (u.log ++ Exchange.context ctx) m none_before
        (ending-IsEnding c t (end t.turn_id turns).1 u.went_quiet result))
