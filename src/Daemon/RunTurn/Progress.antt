-- ===== src/Daemon/RunTurn/Progress.antt =====
-- main.go, runTurn, the loop: whatever the CLI prints and whenever the timers fire, the record that
-- has been sent and what waits to be sent are together what the budget keeps of the lines printed.
use sparstrowgen.Prelude.{
  ℕ, ◌+◌, ◌%◌, ◌^◌, ◌≡◌, refl, sym, ap, subst, ◌∙◌, String, List, [], ◌∷◌, ◌++◌, some, none, inl,
  inr, Bool, true, false, ltb, nat_eq, arith, length, length-append, Bool-cases, if◌then◌else◌,
}
use mathlib.Core.List.{append_assoc, append-nil}
use sparstrowgen.Protocol.Turn.{ExchangeLine, ExchangeDropped, TurnMessage, started, delta, limit}
use sparstrowgen.Daemon.Exchange.{
  Line, ExchangeRecord, exchange_budget, count_cut, drop_line, keep_line, add,
}
use sparstrowgen.Daemon.Exchange.Record.{
  message_lines, message_dropped, lines_of, last_dropped, or_last, lines_of-append,
  last_dropped-append, record_of, line_bytes, line_bytes-append,
}
use sparstrowgen.Daemon.RunTurn.{
  Event, prints, starts, streams, limits, ticks, idles, Running, flush_running, take_event, drain,
}
use sparstrowgen.Daemon.RunTurn.Takes.{
  printed, total, known, reported, Sends, flush_running-Sends, Takes, Sends-Takes, Takes-trans,
}

count_cut_same :
    (l : Line) (r : ExchangeRecord)
    → ((count_cut l r).seq ≡ r.seq)
      × ((count_cut l r).kept ≡ r.kept)
      × ((count_cut l r).pending ≡ r.pending)
      × ((count_cut l r).dropped.lines ≡ r.dropped.lines)
      × ((count_cut l r).dropped.bytes ≡ r.dropped.bytes + l.cut)
unfolding count_cut
count_cut_same l r = elim (Bool-cases (ltb 0 l.cut)) [
  | inl e ↦ rw (e, count_cut) (refl, refl, refl, refl, refl)
  | inr e ↦ rw (e, count_cut) (refl, refl, refl, refl, ground (arith, e))
]

-- Adding a line, by whether it fits.
data Adds (l : Line) (r : ExchangeRecord) : ExchangeRecord × Bool → Type 0 where
  too_much :
      ltb exchange_budget (r.kept + length l.text) ≡ true
      → Adds l r (drop_line l (count_cut l r), false)
  fits :
      (b : Bool)
      → ltb exchange_budget (r.kept + length l.text) ≡ false
      → Adds l r (keep_line l (count_cut l r), b)

add-Adds : (l : Line) (r : ExchangeRecord) → Adds l r (add l r)
unfolding add
add-Adds l r =
    let same : (count_cut l r).kept ≡ r.kept = (count_cut_same l r).1 in
    elim (Bool-cases (ltb exchange_budget ((count_cut l r).kept + length l.text))) [
      | inl e ↦
          rw (e, add)
            (too_much (subst (λ k. ltb exchange_budget (k + length l.text) ≡ true) same e))
      | inr e ↦
          rw (e, add) (fits _ (subst (λ k. ltb exchange_budget (k + length l.text) ≡ false) same e))
    ]

record_of-skip :
    (seq kept : ℕ) (l : Line) (rest : List Line)
    → ltb exchange_budget (kept + length l.text) ≡ true
    → record_of seq kept rest ≡ record_of seq kept (l ∷ rest)
unfolding record_of
record_of-skip seq kept l rest e = sym (rw (e, record_of) refl)

record_of-take :
    (seq kept : ℕ) (l : Line) (rest : List Line)
    → ltb exchange_budget (kept + length l.text) ≡ false
    → record { seq = (seq + 1) % 2 ^ 32; at_ms = l.at_ms; stream = l.stream; text = l.text }
        ∷ record_of ((seq + 1) % 2 ^ 32) (kept + length l.text) rest
      ≡ record_of seq kept (l ∷ rest)
unfolding record_of
record_of-take seq kept l rest e = sym (rw (e, record_of) refl)

-- What counting the bytes that were cut does to the two counts.
count_cut-Takes :
    (l : Line) (s : Running)
    → known s ≡ reported s.exchange.dropped
    → (if (count_cut l s.exchange).dropped_new
        then some (count_cut l s.exchange).dropped
        else last_dropped s.log)
      ≡ reported (count_cut l s.exchange).dropped
unfolding count_cut
count_cut-Takes l s k = elim (Bool-cases (ltb 0 l.cut)) [
  | inl e ↦ rw (e, count_cut) (ground (arith, e))
  | inr e ↦ rw (e, count_cut) k
]

reported-more :
    (d : ExchangeDropped) (n : ℕ)
    → some (record d { lines = d.lines + 1; bytes = d.bytes + n })
      ≡ reported (record d { lines = d.lines + 1; bytes = d.bytes + n })
reported-more d n = ground arith

add-Takes :
    (l : Line) (s : Running) (r : ExchangeRecord × Bool)
    → Adds l s.exchange r
    → Takes (l ∷ []) s (record s { exchange = r.0 })
add-Takes l s r (too_much e) =
    let (q, k, p, n, b) = count_cut_same l s.exchange in
    unfold drop_line in
    record {
      follows = λ rest. cc (q, k, p, record_of-skip s.exchange.seq s.exchange.kept l rest e);
      counts = let z = ap (λ t. length (lines_of s.log ++ t)) p in omega (arith, n, z);
      weighs = let z = ap (λ t. line_bytes (lines_of s.log ++ t)) p in omega (arith, b, z);
      tells = λ _. reported-more (count_cut l s.exchange).dropped (length l.text);
    }
add-Takes l s r (fits b e) =
    let (q, k, p, n, c) = count_cut_same l s.exchange in
    let kept_line : ExchangeLine = record {
      seq = ((count_cut l s.exchange).seq + 1) % 2 ^ 32;
      at_ms = l.at_ms;
      stream = l.stream;
      text = l.text;
    } in
    let same : lines_of s.log ++ ((count_cut l s.exchange).pending ++ (kept_line ∷ []))
        ≡ total s ++ (kept_line ∷ []) =
      ap (λ z. lines_of s.log ++ (z ++ (kept_line ∷ []))) p
      ∙ sym (append_assoc (lines_of s.log) s.exchange.pending (kept_line ∷ [])) in
    unfold keep_line in
    record {
      follows = λ rest.
          let next = (s.exchange.seq + 1) % 2 ^ 32 in
          let more = s.exchange.kept + length l.text in
          cc (
            q,
            k,
            same,
            append_assoc (total s) (kept_line ∷ []) (record_of next more rest),
            record_of-take s.exchange.seq s.exchange.kept l rest e,
          );
      counts =
          let z = ap length same in
          let y = length-append (total s) (kept_line ∷ []) in omega (arith, n, z, y);
      weighs =
          let z = ap line_bytes same in
          let y = line_bytes-append (total s) (kept_line ∷ []) in omega (arith, c, z, y);
      tells = count_cut-Takes l s;
    }

-- A message that carries no record changes nothing of it.
says-Sends :
    (m : TurnMessage) (s : Running)
    → message_lines m ≡ []
    → message_dropped m ≡ none
    → Sends s (record s { log = s.log ++ (m ∷ []) })
says-Sends m s e d =
    let lines : lines_of (s.log ++ (m ∷ [])) ≡ lines_of s.log =
      lines_of-append s.log (m ∷ [])
      ∙ ap (λ z. lines_of s.log ++ (z ++ [])) e
      ∙ append-nil (lines_of s.log) in
    let count : last_dropped (s.log ++ (m ∷ [])) ≡ last_dropped s.log =
      last_dropped-append s.log (m ∷ []) ∙ ap (or_last (last_dropped s.log)) d in
    record {
      same_total = ap (λ z. z ++ s.exchange.pending) lines;
      same_known = ap (λ z. if s.exchange.dropped_new then some s.exchange.dropped else z) count;
      same_seq = refl;
      same_kept = refl;
      same_dropped = refl;
    }

then_flushes :
    (b : Bool) (ls : List Line) (s s' : Running)
    → Takes ls s s'
    → Takes ls s (if b then flush_running s' else s')
then_flushes true ls s s' h =
    subst (λ z. Takes z s (flush_running s')) (append-nil ls)
      (Takes-trans ls [] s s' (flush_running s') h
        (Sends-Takes s' (flush_running s') (flush_running-Sends s')))
then_flushes false ls s s' h = h

take_event-Takes :
    (provider : String) (e : Event) (s : Running)
    → Takes (printed (e ∷ [])) s (take_event provider e s)
unfolding take_event
take_event-Takes provider (prints l) s =
    then_flushes (add l s.exchange).1 (l ∷ []) s (record s { exchange = (add l s.exchange).0 })
      (add-Takes l s (add l s.exchange) (add-Adds l s.exchange))
take_event-Takes provider (starts i) s =
    Sends-Takes s (record s { log = s.log ++ (started i ∷ []) })
      (says-Sends (started i) s refl refl)
take_event-Takes provider (streams t) s =
    Sends-Takes s (record s { log = s.log ++ (delta t ∷ []) }) (says-Sends (delta t) s refl refl)
take_event-Takes provider (limits h) s =
    Sends-Takes s (record s { log = s.log ++ (limit provider h ∷ []) })
      (says-Sends (limit provider h) s refl refl)
take_event-Takes provider ticks s = Sends-Takes s (flush_running s) (flush_running-Sends s)
take_event-Takes provider idles s =
    Sends-Takes s (record s { went_quiet = true })
      (record {
        same_total = refl;
        same_known = refl;
        same_seq = refl;
        same_kept = refl;
        same_dropped = refl;
      })

printed_step : (e : Event) (es : List Event) → printed (e ∷ []) ++ printed es ≡ printed (e ∷ es)
printed_step (prints l) es = refl
printed_step (starts i) es = refl
printed_step (streams t) es = refl
printed_step (limits h) es = refl
printed_step ticks es = refl
printed_step idles es = refl

unchanged : (s : Running) → Sends s s
unchanged s = record {
  same_total = refl;
  same_known = refl;
  same_seq = refl;
  same_kept = refl;
  same_dropped = refl;
}

pub drain-Takes :
    (provider : String) (es : List Event) (s : Running) → Takes (printed es) s (drain provider es s)
unfolding drain
drain-Takes provider [] s = Sends-Takes s s (unchanged s)
drain-Takes provider (e ∷ es) s =
    let s' : Running = take_event provider e s in
    subst (λ z. Takes z s (drain provider es s')) (printed_step e es)
      (Takes-trans (printed (e ∷ [])) (printed es) s s' (drain provider es s')
        (take_event-Takes provider e s) (drain-Takes provider es s'))
