-- ===== src/Daemon/Exchange/Record.antt =====
-- exchange.go: what the record keeps, whichever way it is cut into batches.
use sparstrowgen.Prelude.{
  ℕ, ◌+◌, ◌%◌, ◌^◌, ◌≤◌, ◌≡◌, refl, sym, ap, ◌∙◌, List, [], ◌∷◌, ◌++◌, Option, some, none, inl, inr,
  ltb, nat_eq, arith, length, Bool-cases, if◌then◌else◌,
}
use mathlib.Core.List.{append_assoc}
use sparstrowgen.Protocol.Turn.{
  ExchangeLine, ExchangeDropped, TurnMessage, exchange, started, delta, limit, done, stopped,
  failed,
}
use sparstrowgen.Daemon.Exchange.{Line, exchange_budget}

-- The lines that a message carries, and the count of what was dropped.
abbrev pub message_lines : TurnMessage → List ExchangeLine
message_lines (exchange s ls d c) = ls
message_lines (started s) = []
message_lines (delta t) = []
message_lines (limit p h) = []
message_lines (done f t s i) = []
message_lines (stopped f t s i) = []
message_lines (failed f e) = []

abbrev pub message_dropped : TurnMessage → Option ExchangeDropped
message_dropped (exchange s ls d c) = d
message_dropped (started s) = none
message_dropped (delta t) = none
message_dropped (limit p h) = none
message_dropped (done f t s i) = none
message_dropped (stopped f t s i) = none
message_dropped (failed f e) = none

abbrev pub lines_of : List TurnMessage → List ExchangeLine
lines_of [] = []
lines_of (m ∷ ms) = message_lines m ++ lines_of ms

abbrev pub or_last : Option ExchangeDropped → Option ExchangeDropped → Option ExchangeDropped
or_last earlier none = earlier
or_last earlier (some d) = some d

-- The count that the last message to carry one says.
abbrev pub last_dropped : List TurnMessage → Option ExchangeDropped
last_dropped [] = none
last_dropped (m ∷ ms) = or_last (message_dropped m) (last_dropped ms)

pub lines_of-append : (ms ns : List TurnMessage) → lines_of (ms ++ ns) ≡ lines_of ms ++ lines_of ns
lines_of-append [] ns = refl
lines_of-append (m ∷ ms) ns =
    ap (λ t. message_lines m ++ t) (lines_of-append ms ns)
    ∙ sym (append_assoc (message_lines m) (lines_of ms) (lines_of ns))

or_last_assoc : (a b c : Option ExchangeDropped) → or_last a (or_last b c) ≡ or_last (or_last a b) c
or_last_assoc a b none = refl
or_last_assoc a b (some d) = refl

or_last-none : (a : Option ExchangeDropped) → or_last none a ≡ a
or_last-none none = refl
or_last-none (some d) = refl

pub last_dropped-append :
    (ms ns : List TurnMessage)
    → last_dropped (ms ++ ns) ≡ or_last (last_dropped ms) (last_dropped ns)
last_dropped-append [] ns = sym (or_last-none (last_dropped ns))
last_dropped-append (m ∷ ms) ns =
    ap (or_last (message_dropped m)) (last_dropped-append ms ns)
    ∙ or_last_assoc (message_dropped m) (last_dropped ms) (last_dropped ns)

-- The record as the budget alone decides it: each line that still fits, numbered from one on.
unfoldable pub record_of : ℕ → ℕ → List Line → List ExchangeLine
record_of seq kept [] = []
record_of seq kept (l ∷ ls) =
    let skipped = record_of seq kept ls in
    let next = (seq + 1) % 2 ^ 32 in
    let more = record_of next (kept + length l.text) ls in
    if ltb exchange_budget (kept + length l.text)
    then skipped
    else record { seq = next; at_ms = l.at_ms; stream = l.stream; text = l.text } ∷ more

abbrev pub line_bytes : List ExchangeLine → ℕ
line_bytes [] = 0
line_bytes (l ∷ ls) = length l.text + line_bytes ls

abbrev pub printed_bytes : List Line → ℕ
printed_bytes [] = 0
printed_bytes (l ∷ ls) = length l.text + l.cut + printed_bytes ls

pub line_bytes-append :
    (ls ks : List ExchangeLine) → line_bytes (ls ++ ks) ≡ line_bytes ls + line_bytes ks
line_bytes-append [] ks = omega arith
line_bytes-append (l ∷ ls) ks = omega (arith, line_bytes-append ls ks)

-- The record never holds more than the budget.
pub line_bytes-record_of :
    (seq kept : ℕ) (ls : List Line)
    → kept ≤ exchange_budget
    → kept + line_bytes (record_of seq kept ls) ≤ exchange_budget
unfolding record_of
line_bytes-record_of seq kept [] h = omega (arith, h)
line_bytes-record_of seq kept (l ∷ ls) h =
    elim (Bool-cases (ltb exchange_budget (kept + length l.text))) [
      | inl e ↦ rw (e, record_of) (line_bytes-record_of seq kept ls h)
      | inr e ↦
          rw (e, record_of)
            (let fits : kept + length l.text ≤ exchange_budget = ground (arith, e) in
              let more = line_bytes-record_of ((seq + 1) % 2 ^ 32) (kept + length l.text) ls fits in
              omega (arith, more))
    ]

-- The numbers of the record's lines: each is one more than the one before.
abbrev pub Consecutive : ℕ → List ExchangeLine → Type 0
Consecutive n [] = Unit {0}
Consecutive n (l ∷ ls) = (l.seq ≡ (n + 1) % 2 ^ 32) × Consecutive l.seq ls

pub record_of-Consecutive :
    (seq kept : ℕ) (ls : List Line) → Consecutive seq (record_of seq kept ls)
unfolding record_of
record_of-Consecutive seq kept [] = tt
record_of-Consecutive seq kept (l ∷ ls) =
    elim (Bool-cases (ltb exchange_budget (kept + length l.text))) [
      | inl e ↦ rw (e, record_of) (record_of-Consecutive seq kept ls)
      | inr e ↦
          rw (e, record_of)
            (refl, record_of-Consecutive ((seq + 1) % 2 ^ 32) (kept + length l.text) ls)
    ]
