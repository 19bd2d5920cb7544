-- ===== src/Daemon/RunTurn/Takes.antt =====
-- main.go, runTurn, the loop: what a change of its state does to the record that has been sent and to
-- what waits to be sent.
use sparstrowgen.Prelude.{
  ◌+◌, ◌≡◌, refl, sym, ap, ◌∙◌, List, [], ◌∷◌, ◌++◌, Option, some, none, inl, inr, Bool, true,
  false, not, ◌&&◌, ◌==◌, nat_eq, arith, length, length-append, Bool-cases, if◌then◌else◌,
}
use mathlib.Core.List.{append_assoc, append-nil}
use sparstrowgen.Protocol.Turn.{ExchangeLine, ExchangeDropped}
use sparstrowgen.Daemon.Exchange.{Line, is_empty, flush}
use sparstrowgen.Daemon.Exchange.Record.{
  lines_of, last_dropped, or_last, lines_of-append, last_dropped-append, record_of, line_bytes,
  printed_bytes,
}
use sparstrowgen.Daemon.RunTurn.{
  Event, prints, starts, streams, limits, ticks, idles, Running, flush_running,
}

-- The lines printed.
abbrev pub printed : List Event → List Line
printed [] = []
printed (prints l ∷ es) = l ∷ printed es
printed (starts s ∷ es) = printed es
printed (streams t ∷ es) = printed es
printed (limits h ∷ es) = printed es
printed (ticks ∷ es) = printed es
printed (idles ∷ es) = printed es

-- What has been sent of the record, and what waits.
abbrev pub total : Running → List ExchangeLine
total s = lines_of s.log ++ s.exchange.pending

-- What the server has been told of the count, or will be with the next message.
abbrev pub known : Running → Option ExchangeDropped
known s = if s.exchange.dropped_new then some s.exchange.dropped else last_dropped s.log

abbrev pub reported : ExchangeDropped → Option ExchangeDropped
reported d = if d.lines == 0 && d.bytes == 0 then none else some d

-- What a change of the loop's state leaves alone.
pub record Sends (s s' : Running) : Type 0 where
  pub same_total : total s' ≡ total s
  pub same_known : known s' ≡ known s
  pub same_seq : s'.exchange.seq ≡ s.exchange.seq
  pub same_kept : s'.exchange.kept ≡ s.exchange.kept
  pub same_dropped : s'.exchange.dropped ≡ s.exchange.dropped

flushed_known :
    (new : Bool) (d : ExchangeDropped) (o : Option ExchangeDropped)
    → or_last o (or_last (if new then some d else none) none) ≡ (if new then some d else o)
flushed_known true d o = refl
flushed_known false d o = refl

pub flush_running-Sends : (s : Running) → Sends s (flush_running s)
unfolding flush_running flush
flush_running-Sends s =
    elim (Bool-cases (is_empty s.exchange.pending && not s.exchange.dropped_new)) [
      | inl e ↦
          rw (e, flush_running)
            (record {
              same_total = ap (λ ms. lines_of ms ++ s.exchange.pending) (append-nil s.log);
              same_known =
                  ap
                    (λ ms.
                      if s.exchange.dropped_new then some s.exchange.dropped else last_dropped ms)
                    (append-nil s.log);
              same_seq = refl;
              same_kept = refl;
              same_dropped = refl;
            })
      | inr e ↦
          rw (e, flush_running)
            (record {
              same_total =
                  append-nil _
                  ∙ lines_of-append s.log _
                  ∙ ap (λ t. lines_of s.log ++ t) (append-nil s.exchange.pending);
              same_known =
                  last_dropped-append s.log _
                  ∙ flushed_known s.exchange.dropped_new s.exchange.dropped (last_dropped s.log);
              same_seq = refl;
              same_kept = refl;
              same_dropped = refl;
            })
    ]

nothing_waits :
    (ls : List ExchangeLine) (new : Bool)
    → is_empty ls && not new ≡ true
    → (ls ≡ []) × (new ≡ false)
nothing_waits [] true e = cc
nothing_waits [] false e = (refl, refl)
nothing_waits (l ∷ ls) new e = cc

-- After a flush nothing waits.
pub flush_running_flushed :
    (s : Running)
    → ((flush_running s).exchange.pending ≡ []) × ((flush_running s).exchange.dropped_new ≡ false)
unfolding flush_running flush
flush_running_flushed s =
    elim (Bool-cases (is_empty s.exchange.pending && not s.exchange.dropped_new)) [
      | inl e ↦
          rw (e, flush_running)
            (let (a, b) = nothing_waits s.exchange.pending s.exchange.dropped_new e in (a, b))
      | inr e ↦ rw (e, flush_running) (refl, refl)
    ]

printed_bytes-append :
    (ls ks : List Line) → printed_bytes (ls ++ ks) ≡ printed_bytes ls + printed_bytes ks
printed_bytes-append [] ks = omega arith
printed_bytes-append (l ∷ ls) ks = omega (arith, printed_bytes-append ls ks)

-- What it is to have taken in some lines: the record goes on as the budget says, each line and each
-- byte is kept or counted, and the count that the server is told is the whole of it.
pub record Takes (ls : List Line) (s s' : Running) : Type 0 where
  pub follows :
      (rest : List Line)
      → total s' ++ record_of s'.exchange.seq s'.exchange.kept rest
        ≡ total s ++ record_of s.exchange.seq s.exchange.kept (ls ++ rest)
  pub counts :
      length (total s') + s'.exchange.dropped.lines
      ≡ length (total s) + s.exchange.dropped.lines + length ls
  pub weighs :
      line_bytes (total s') + s'.exchange.dropped.bytes
      ≡ line_bytes (total s) + s.exchange.dropped.bytes + printed_bytes ls
  pub tells : known s ≡ reported s.exchange.dropped → known s' ≡ reported s'.exchange.dropped

pub Sends-Takes : (s s' : Running) → Sends s s' → Takes [] s s'
Sends-Takes s s' h = record {
  follows = λ rest. cc (h.same_total, h.same_seq, h.same_kept);
  counts =
      let a = ap length h.same_total in
      let b = ap (λ d. d.lines) h.same_dropped in omega (arith, a, b);
  weighs =
      let a = ap line_bytes h.same_total in
      let b = ap (λ d. d.bytes) h.same_dropped in omega (arith, a, b);
  tells = λ k. h.same_known ∙ k ∙ ap reported (sym h.same_dropped);
}

pub Takes-trans :
    (ls ks : List Line) (s t u : Running) → Takes ls s t → Takes ks t u → Takes (ls ++ ks) s u
Takes-trans ls ks s t u h k = record {
  follows = λ rest.
      k.follows rest
      ∙ h.follows (ks ++ rest)
      ∙ ap (λ z. total s ++ record_of s.exchange.seq s.exchange.kept z)
          (sym (append_assoc ls ks rest));
  counts =
      let a = length-append ls ks in let b = h.counts in let c = k.counts in omega (arith, a, b, c);
  weighs =
      let a = printed_bytes-append ls ks in
      let b = h.weighs in let c = k.weighs in omega (arith, a, b, c);
  tells = λ e. k.tells (h.tells e);
}
