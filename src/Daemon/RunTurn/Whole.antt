-- ===== src/Daemon/RunTurn/Whole.antt =====
-- main.go, runTurn, and exchange.go: the record that a turn leaves on the server.
use sparstrowgen.Prelude.{
  ◌+◌, ◌≤◌, ◌≡◌, refl, sym, ap, subst, ◌∙◌, String, List, [], ◌∷◌, ◌++◌, some, none, inl, inr, Bool,
  true, false, nat_eq, arith, length, Option-cases, if◌then◌else◌,
}
use mathlib.Core.List.{append_assoc, append-nil}
use sparstrowgen.Protocol.Turn.{ExchangeSent, ContextRecord, ExchangeDropped, TurnMessage}
use sparstrowgen.Daemon.Exchange
use sparstrowgen.Daemon.Exchange.{
  Line, ExchangeRecord, exchange_budget, new_exchange_record, sent, count_cut, drop_line, keep_line,
  is_full, add, is_empty, flush,
}
use sparstrowgen.Daemon.Exchange.Record.{
  message_lines, message_dropped, lines_of, last_dropped, or_last, lines_of-append,
  last_dropped-append, record_of, line_bytes, printed_bytes, line_bytes-record_of, Consecutive,
  record_of-Consecutive,
}
use sparstrowgen.Daemon.Turns.{Turns, end}
use sparstrowgen.Daemon.RunTurn.{
  RunTurn, Result, Computer, Event, Running, flush_running, drain, ending, watch,
}
use sparstrowgen.Daemon.RunTurn.Takes.{
  printed, total, known, reported, flush_running-Sends, flush_running_flushed, Takes, Sends-Takes,
  Takes-trans,
}
use sparstrowgen.Daemon.RunTurn.Progress.{drain-Takes}

-- What the server has last been told was dropped; nothing until it is told.
unfoldable pub told : List TurnMessage → ExchangeDropped
told ms = elim (last_dropped ms) [ none ↦ record { lines = 0; bytes = 0 } | some d ↦ d ]

told-reported :
    (ms : List TurnMessage) (d : ExchangeDropped)
    → last_dropped ms ≡ reported d
    → ((told ms).lines ≡ d.lines) × ((told ms).bytes ≡ d.bytes)
unfolding told
told-reported ms d e = ground (arith, e)

-- The loop's end: what has been sent is the whole of the record.
drained :
    (provider : String) (es : List Event) (s : Running)
    → let u = flush_running (drain provider es s) in Takes (printed es) s u
drained provider es s =
    let s' : Running = drain provider es s in
    subst (λ z. Takes z s (flush_running s')) (append-nil (printed es))
      (Takes-trans (printed es) [] s s' (flush_running s') (drain-Takes provider es s)
        (Sends-Takes s' (flush_running s') (flush_running-Sends s')))

ending_carries_nothing :
    (c : Computer) (t : RunTurn) (was quiet : Bool) (r : Result)
    → (message_lines (ending c t was quiet r) ≡ [])
      × (message_dropped (ending c t was quiet r) ≡ none)
unfolding ending
ending_carries_nothing c t true quiet r = (refl, refl)
ending_carries_nothing c t false true r = (refl, refl)
ending_carries_nothing c t false false r = elim (Option-cases r.err) [
  | inl e ↦ rw (e, ending) (refl, refl)
  | inr (err, e) ↦ rw (e, ending) (refl, refl)
]

-- What follows the loop carries no more of the record.
ends_without_lines :
    (ms : List TurnMessage) (x : ContextRecord) (m : TurnMessage)
    → (message_lines m ≡ []) × (message_dropped m ≡ none)
    → let all = ms ++ Exchange.context x ++ (m ∷ []) in
      (lines_of all ≡ lines_of ms) × (last_dropped all ≡ last_dropped ms)
unfolding Exchange.context
ends_without_lines ms x m (e, d) =
    let end = Exchange.context x ++ (m ∷ []) in
    (
      ap lines_of (append_assoc ms (Exchange.context x) (m ∷ []))
          ∙ lines_of-append ms end
          ∙ ap (λ z. lines_of ms ++ (z ++ [])) e
          ∙ append-nil (lines_of ms),
      ap last_dropped (append_assoc ms (Exchange.context x) (m ∷ []))
          ∙ last_dropped-append ms end
          ∙ ap (λ z. or_last (last_dropped ms) (or_last none (or_last z none))) d,
    )

abbrev at_first : ExchangeSent → Running
at_first x = record { exchange = new_exchange_record; went_quiet = false; log = sent x }

-- From a record that has only its first message, to one that waits for nothing.
sent_all :
    (x : ExchangeSent) (ls : List Line) (u : Running) (ms : List TurnMessage)
    → Takes ls (at_first x) u
    → (u.exchange.pending ≡ []) × (u.exchange.dropped_new ≡ false)
    → (lines_of ms ≡ lines_of u.log) × (last_dropped ms ≡ last_dropped u.log)
    → (lines_of ms ≡ record_of 0 0 ls)
      × (length (lines_of ms) + (told ms).lines ≡ length ls)
      × (line_bytes (lines_of ms) + (told ms).bytes ≡ printed_bytes ls)
unfolding sent new_exchange_record record_of
sent_all x ls u ms h (empty, old) (lines, dropped) =
    let all : total u ≡ lines_of ms =
      ap (λ z. lines_of u.log ++ z) empty ∙ append-nil (lines_of u.log) ∙ sym lines in
    let tells : known u ≡ reported u.exchange.dropped = h.tells refl in
    let last : last_dropped ms ≡ reported u.exchange.dropped =
      dropped
      ∙ sym (ap (λ b. if b then some u.exchange.dropped else last_dropped u.log) old)
      ∙ tells in
    let (n, b) = told-reported ms u.exchange.dropped last in
    let a1 = ap length all in
    let a2 = ap line_bytes all in
    let c = h.counts in
    let w = h.weighs in
    (
      sym (append-nil (lines_of ms))
          ∙ sym (ap (λ z. z ++ []) all)
          ∙ h.follows []
          ∙ ap (record_of 0 0) (append-nil ls),
      omega (arith, n, a1, c),
      omega (arith, b, a2, w),
    )

kept_bytes : (es : List Event) → line_bytes (record_of 0 0 (printed es)) ≤ exchange_budget
kept_bytes es =
    let bound : 0 + line_bytes (record_of 0 0 (printed es)) ≤ exchange_budget =
      line_bytes-record_of 0 0 (printed es) (omega arith) in
    omega (arith, bound)

-- Whatever the CLI prints and whenever the timers fire, and however the turn ends, the lines sent over
-- the turn, taken together in the order sent, are what the budget alone keeps of the lines printed:
-- they are numbered from one on without a gap (modulo 2^32), they hold at most the budget's bytes, and with the
-- count that the server was last told, every line and every byte printed is accounted for.
pub watch_record :
    (c : Computer) (t : RunTurn) (es : List Event) (result : Result) (ctx : ContextRecord)
    (turns : Turns)
    → let ms = (watch c t es result ctx turns).0 in
      (lines_of ms ≡ record_of 0 0 (printed es))
      × Consecutive 0 (lines_of ms)
      × (line_bytes (lines_of ms) ≤ exchange_budget)
      × (length (lines_of ms) + (told ms).lines ≡ length (printed es))
      × (line_bytes (lines_of ms) + (told ms).bytes ≡ printed_bytes (printed es))
unfolding watch
watch_record c t es result ctx turns =
    let s : Running = drain t.provider es (at_first c.session_sent) in
    let u : Running = flush_running s in
    let last : TurnMessage = ending c t (end t.turn_id turns).1 u.went_quiet result in
    let ms : List TurnMessage = u.log ++ Exchange.context ctx ++ (last ∷ []) in
    let (kept, n, b) =
      sent_all c.session_sent (printed es) u ms (drained t.provider es (at_first c.session_sent))
        (flush_running_flushed s)
        (ends_without_lines u.log ctx last
          (ending_carries_nothing c t (end t.turn_id turns).1 u.went_quiet result)) in
    (
      kept,
      subst (Consecutive 0) (sym kept) (record_of-Consecutive 0 0 (printed es)),
      subst (λ z. line_bytes z ≤ exchange_budget) (sym kept) (kept_bytes es),
      n,
      b,
    )
