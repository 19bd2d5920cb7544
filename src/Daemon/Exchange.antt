-- ===== src/Daemon/Exchange.antt =====
-- exchange.go: a turn's record, on its way to the server. A text is the list of its bytes. What a
-- method hands to `send` is answered with the new record; whether it arrives makes no difference.
pub mod Record
use sparstrowgen.Prelude.{
  ℕ, ◌+◌, ◌*◌, ◌%◌, ◌^◌, String, List, [], ◌∷◌, ◌++◌, Option, some, none, Bool, true, false, not,
  ◌&&◌, ◌||◌, ltb, leb, length, if◌then◌else◌,
}
use sparstrowgen.Text.{Text}
use sparstrowgen.Protocol.Turn.{
  ExchangeSent, ExchangeLine, ExchangeDropped, ContextRecord, TurnMessage, exchange,
}

abbrev pub exchange_budget : ℕ
exchange_budget = 16 * 2 ^ 20

abbrev pub flush_lines : ℕ
flush_lines = 200

abbrev pub flush_bytes : ℕ
flush_bytes = 256 * 2 ^ 10

-- agent.Line.
pub record Line : Type 0 where
  pub stream : String
  pub at_ms : ℕ
  pub text : Text
  pub cut : ℕ

pub record ExchangeRecord : Type 0 where
  pub seq : ℕ
  pub kept : ℕ
  pub pending : List ExchangeLine
  pub pending_bytes : ℕ
  pub dropped : ExchangeDropped
  pub dropped_new : Bool

unfoldable pub new_exchange_record : ExchangeRecord
new_exchange_record = record {
  seq = 0;
  kept = 0;
  pending = [];
  pending_bytes = 0;
  dropped = record { lines = 0; bytes = 0 };
  dropped_new = false;
}

-- A nil Args is an empty one here.
unfoldable pub sent : ExchangeSent → List TurnMessage
sent s = exchange (some s) [] none none ∷ []

-- `if l.Cut > 0`.
unfoldable pub count_cut : Line → ExchangeRecord → ExchangeRecord
count_cut l r =
    if ltb 0 l.cut
    then record r {
      dropped = record r.dropped { bytes = r.dropped.bytes + l.cut };
      dropped_new = true;
    }
    else r

unfoldable pub drop_line : Line → ExchangeRecord → ExchangeRecord
drop_line l r = record r {
  dropped = record { lines = r.dropped.lines + 1; bytes = r.dropped.bytes + length l.text };
  dropped_new = true;
}

unfoldable pub keep_line : Line → ExchangeRecord → ExchangeRecord
keep_line l r =
    let seq = (r.seq + 1) % 2 ^ 32 in
    record r {
      seq = seq;
      kept = r.kept + length l.text;
      pending =
          r.pending
          ++ (record { seq = seq; at_ms = l.at_ms; stream = l.stream; text = l.text } ∷ []);
      pending_bytes = r.pending_bytes + length l.text;
    }

unfoldable pub is_full : ExchangeRecord → Bool
is_full r = leb flush_lines (length r.pending) || leb flush_bytes r.pending_bytes

unfoldable pub add : Line → ExchangeRecord → ExchangeRecord × Bool
unfolding count_cut drop_line keep_line is_full
add l r =
    let counted = count_cut l r in
    if ltb exchange_budget (counted.kept + length l.text)
    then (drop_line l counted, false)
    else (keep_line l counted, is_full (keep_line l counted))

abbrev pub is_empty {ℓ} : {A : Type ℓ} → List A → Bool
is_empty [] = true
is_empty (x ∷ xs) = false

unfoldable pub flush : ExchangeRecord → ExchangeRecord × List TurnMessage
flush r = if is_empty r.pending && not r.dropped_new then (r, []) else (
  record r { pending = []; pending_bytes = 0; dropped_new = false },
  exchange none r.pending (if r.dropped_new then some r.dropped else none) none ∷ [],
)

unfoldable pub context : ContextRecord → List TurnMessage
context c = exchange none [] none (some c) ∷ []
