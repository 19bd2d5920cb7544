-- ===== src/Api/Closing/Kept.antt =====
-- api.go with exchange.go and report.go: what the server has of a turn that is still running.
use sparstrowgen.Prelude.{
  String, ◌≡◌, refl, sym, ap, ◌∙◌, List, [], ◌∷◌, ◌++◌, Option, some, none, true, false, not, ◌||◌,
  ◌==◌, string_eq, nat_eq, arith, inl, inr, Bool-cases, All, is_some,
}
use mathlib.Core.Option.{some-injective}
use mathlib.Core.List.{append_assoc, append-nil}
use sparstrowgen.Prelude.Maps.{lookup, lookup-insert_self}
use sparstrowgen.Text.{Text}
use sparstrowgen.Protocol.Turn.{
  ExchangeSent, ExchangeLine, ExchangeDropped, ContextRecord, TurnMessage, exchange, started, delta,
  limit, done, stopped, failed,
}
use sparstrowgen.Daemon.RunTurn.Ending.{is_ending}
use sparstrowgen.Daemon.Exchange.Record.{message_lines, lines_of}
use sparstrowgen.Agent.Report.{Decoder, Reporter, add_lines}
use sparstrowgen.Agent.Report.Reading.{add_lines-append}
use sparstrowgen.Api.State.{Store, Services, Turn, Server}
use sparstrowgen.Api.Turns.{
  is_empty, tell, put_sent, put_lines, tell_exchange, is_context_only, record_exchange,
  mark_started, add_delta, handle_turn, said, handle_daemon_message,
}
use sparstrowgen.Api.Closing.{handle_all, of_turn}
use sparstrowgen.Api.Closing.Gone.{owner_of}
use sparstrowgen.Api.Closing.Whole.{said_by_owner, said_turns}

-- The text that streams in with some messages.
abbrev pub message_text : TurnMessage → Text
message_text (exchange x ls d c) = []
message_text (started i) = []
message_text (delta text) = text
message_text (limit p h) = []
message_text (done f a b i) = []
message_text (stopped f a b i) = []
message_text (failed f e) = []

abbrev pub text_of : List TurnMessage → Text
text_of [] = []
text_of (m ∷ ms) = message_text m ++ text_of ms

-- The turn with the messages' text, and its report with their lines read.
unfoldable pub grown : Decoder → List TurnMessage → Turn → Turn
grown d ms t = record t {
  streamed = t.streamed ++ text_of ms;
  report = (add_lines d (lines_of ms) t.report).0;
}

-- The store's part of recording an exchange does not fail.
pub record Records {S : Type 0} (store : Store S) : Type 0 where
  pub sent_ok :
      (c e : String) (x : ExchangeSent) (st : S) → (store.record_exchange_sent c e x st).1 ≡ true
  pub lines_ok :
      (e : String) (ls : List ExchangeLine) (d : Option ExchangeDropped) (st : S)
      → (store.append_exchange_lines e ls d st).1 ≡ true

put_sent_ok :
    {S : Type 0} (v : Services S) (t : Turn) (x : Option ExchangeSent) (st : S)
    → Records v.store
    → (put_sent v t x st).1 ≡ true
put_sent_ok v t none st h = refl
put_sent_ok v t (some x) st h = h.sent_ok t.conversation_id t.entry_id x st

put_lines_ok :
    {S : Type 0} (v : Services S) (t : Turn) (ls : List ExchangeLine) (d : Option ExchangeDropped)
    (st : S)
    → Records v.store
    → (put_lines v t ls d st).1 ≡ true
unfolding put_lines
put_lines_ok v t ls d st h = elim (Bool-cases (not (is_empty ls) || is_some d)) [
  | inl e ↦ rw (e, put_lines) (h.lines_ok t.entry_id ls d st)
  | inr e ↦ rw (e, put_lines) refl
]

-- A message with a context alone has no lines.
no_lines :
    (x : Option ExchangeSent) (ls : List ExchangeLine) (d : Option ExchangeDropped)
    (c : Option ContextRecord)
    → is_context_only x ls d c ≡ true
    → ls ≡ []
unfolding is_context_only
no_lines x [] d c e = refl
no_lines x (l ∷ ls) d c e = ground (arith, e)

read_lines : Decoder → List ExchangeLine → Turn → Turn
read_lines d ls t = record t { report = (add_lines d ls t.report).0 }

record_exchange_kept :
    {S : Type 0} (v : Services S) (id : String) (t : Turn) (x : Option ExchangeSent)
    (ls : List ExchangeLine) (d : Option ExchangeDropped) (c : Option ContextRecord) (s : Server S)
    → Records v.store
    → lookup id s.turns ≡ some t
    → lookup id (record_exchange v id t x ls d c s).turns ≡ some (read_lines v.decoder ls t)
unfolding record_exchange read_lines
record_exchange_kept v id t x ls d c s h here =
    let (st₁, ok₁) = put_sent v t x s.store in
    let e : ok₁ ≡ true = put_sent_ok v t x s.store h in
    let f : (put_lines v t ls d st₁).1 ≡ true = put_lines_ok v t ls d st₁ h in
    elim (Bool-cases (is_context_only x ls d c)) [
      | inl g ↦
          rw (e, f, g, record_exchange)
            (here
              ∙ ap (λ z. some (record t { report = (add_lines v.decoder z t.report).0 }))
                  (sym (no_lines x ls d c g)))
      | inr g ↦
          rw (e, f, g, record_exchange)
            (unfold tell_exchange tell in lookup-insert_self id _ s.turns)
    ]

grow : Decoder → TurnMessage → Turn → Turn
grow d m t = record t {
  streamed = t.streamed ++ message_text m;
  report = (add_lines d (message_lines m) t.report).0;
}

grow-grown :
    (d : Decoder) (m : TurnMessage) (ms : List TurnMessage) (t : Turn)
    → grown d ms (grow d m t) ≡ grown d (m ∷ ms) t
unfolding grow grown
grow-grown d m ms t =
    ap
      (λ z. record t {
        streamed = z;
        report = (add_lines d (lines_of ms) (add_lines d (message_lines m) t.report).0).0;
      })
      (append_assoc t.streamed (message_text m) (text_of ms))
    ∙ ap (λ z. record t { streamed = t.streamed ++ (message_text m ++ text_of ms); report = z })
        (sym (add_lines-append d (message_lines m) (lines_of ms) t.report))

-- A message without text, whose lines have been read.
read_grow :
    (d : Decoder) (t : Turn) (r : Reporter)
    → some (record t { report = r }) ≡ some (record t { streamed = t.streamed ++ []; report = r })
read_grow d t r =
    ap (λ z. some (record t { streamed = z; report = r })) (sym (append-nil t.streamed))

mark_started-turns :
    {S : Type 0} (v : Services S) (t : Turn) (i : String) (s : Server S)
    → (mark_started v t i s).turns ≡ s.turns
unfolding mark_started
mark_started-turns v t i s = elim (Bool-cases (i == "")) [
  | inl e ↦ rw (e, mark_started) refl
  | inr e ↦ rw (e, mark_started) refl
]

handle_turn-grow :
    {S : Type 0} (v : Services S) (id : String) (t : Turn) (m : TurnMessage) (s : Server S)
    → Records v.store
    → lookup id s.turns ≡ some t
    → is_ending m ≡ false
    → lookup id (handle_turn v id t m s).turns ≡ some (grow v.decoder m t)
unfolding handle_turn grow add_lines
handle_turn-grow v id t (exchange x ls d c) s h here e =
    record_exchange_kept v id t x ls d c s h here
    ∙ unfold read_lines in read_grow v.decoder t (add_lines v.decoder ls t.report).0
handle_turn-grow v id t (started i) s h here e =
    ap (lookup id) (mark_started-turns v t i s) ∙ here ∙ read_grow v.decoder t t.report
handle_turn-grow v id t (delta text) s h here e =
    unfold add_delta tell in lookup-insert_self id _ s.turns
handle_turn-grow v id t (limit p x) s h here e = here ∙ read_grow v.decoder t t.report
handle_turn-grow v id t (done f a b i) s h here e = cc e
handle_turn-grow v id t (stopped f a b i) s h here e = cc e
handle_turn-grow v id t (failed f err) s h here e = cc e

-- While a turn of the account runs and the store records what it is given, the server has of the turn
-- what it had of it, with every piece of text that its daemon streamed, in order, and with the report
-- that reading the record's lines gives, all of them in order, however they were cut into messages.
pub handle_all-grown :
    {S : Type 0} (v : Services S) (user id : String) (ms : List TurnMessage) (s : Server S)
    (t : Turn)
    → Records v.store
    → lookup id s.turns ≡ some t
    → t.user_id ≡ user
    → All (λ m. is_ending m ≡ false) ms
    → lookup id (handle_all v user (of_turn id ms) s).turns ≡ some (grown v.decoder ms t)
unfolding handle_all
handle_all-grown v user id [] s t h here u e =
    here ∙ unfold grown add_lines in read_grow v.decoder t t.report
handle_all-grown v user id (m ∷ ms) s t h here u (e, es) =
    let s' : Server _ = handle_daemon_message v user (said id m) s in
    let (t', here', q) = said_by_owner v user id m s (ap owner_of here ∙ ap some u) in
    let same : t' ≡ t = some-injective _ _ (sym here' ∙ here) in
    let now : lookup id s'.turns ≡ some (grow v.decoder m t) =
      ap (lookup id) (said_turns v user id m s ∙ ap (λ z. z.turns) q)
      ∙ handle_turn-grow v id t' m s h here' e
      ∙ ap (λ z. some (grow v.decoder m z)) same in
    handle_all-grown v user id ms s' (grow v.decoder m t) h now (unfold grow in u) es
    ∙ ap some (grow-grown v.decoder m ms t)
