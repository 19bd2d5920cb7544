-- ===== src/Api/Closing/Gone.antt =====
-- api.go: which turns are in flight after a report, an abandoning, and a whole turn's reports.
use sparstrowgen.Prelude.{
  String, ◌≡◌, ◌≢◌, refl, sym, ap, ◌∙◌, List, ◌++◌, Option, some, none, Bool, true, false, ◌||◌,
  ◌==◌, string_eq, nat_eq, inl, inr, Bool-cases, Option-cases,
}
use sparstrowgen.Prelude.Maps.{lookup, insert, delete, lookup-insert_self, lookup-insert_ne}
use sparstrowgen.Prelude.Int.{ℤ, pos, ltz}
use sparstrowgen.Text.{Text}
use sparstrowgen.Protocol.Turn.{
  ExchangeSent, ExchangeLine, ExchangeDropped, ContextRecord, TurnMessage, exchange, started, delta,
  limit, done, stopped, failed,
}
use sparstrowgen.Daemon.RunTurn.Ending.{is_ending}
use sparstrowgen.Agent.Report.{add_lines}
use sparstrowgen.Api.State.{Entry, Conversation, Services, Turn, Server}
use sparstrowgen.Api.Turns.{
  tell, add_usage, tell_usage, tell_done, finish_entry, finish_turn, put_sent, put_lines,
  put_context, tell_exchange, is_context_only, record_exchange, or_streamed, no_text, mark_started,
  add_delta, handle_turn,
}

-- Neither the usage nor the entry's event touches the turns.
tell_usage-turns :
    {S : Type 0} (v : Services S) (t : Turn) (c : Option Conversation) (s : Server S)
    → (tell_usage v t c s).turns ≡ s.turns
unfolding tell
tell_usage-turns v t none s = refl
tell_usage-turns v t (some c) s = refl

add_usage-turns :
    {S : Type 0} (v : Services S) (t : Turn) (a b : ℤ) (s : Server S)
    → (add_usage v t a b s).turns ≡ s.turns
unfolding add_usage
add_usage-turns v t a b s = elim (Bool-cases (ltz (pos 0) a || ltz (pos 0) b)) [
  | inr e ↦ rw (e, add_usage) refl
  | inl e ↦
      rw (e, add_usage)
        (tell_usage-turns v t (v.store.add_usage t.conversation_id a b s.store).1
          (record s { store = (v.store.add_usage t.conversation_id a b s.store).0 }))
]

tell_done-turns :
    {S : Type 0} (v : Services S) (t : Turn) (a b : ℤ) (o : Option Entry) (s : Server S)
    → (tell_done v t a b o s).turns ≡ s.turns
unfolding tell
tell_done-turns v t a b none s = refl
tell_done-turns v t a b (some x) s = add_usage-turns v t a b _

finish_entry-turns :
    {S : Type 0} (v : Services S) (t : Turn) (text : Text) (a b : ℤ) (failure : Text) (stop : Bool)
    (s : Server S)
    → (finish_entry v t text a b failure stop s).turns ≡ s.turns
unfolding finish_entry
finish_entry-turns v t text a b failure stop s = tell_done-turns v t a b _ _

pub finish_turn-turns :
    {S : Type 0} (v : Services S) (id : String) (text : Text) (a b : ℤ) (failure : Text)
    (stop : Bool) (s : Server S)
    → (finish_turn v id text a b failure stop s).turns ≡ delete id s.turns
unfolding finish_turn
finish_turn-turns v id text a b failure stop s = elim (Option-cases (lookup id s.turns)) [
  | inl e ↦ rw (e, finish_turn) refl
  | inr (t, e) ↦
      rw (e, finish_turn)
        (finish_entry-turns v t text a b failure stop (record s { turns = delete id s.turns }))
]

-- Whose turn it is.
abbrev pub owner_of : Option Turn → Option String
owner_of none = none
owner_of (some t) = some t.user_id

abbrev pub owner : {S : Type 0} → String → Server S → Option String
owner id s = owner_of (lookup id s.turns)

-- The turn stays in flight, its person's, and no other turn is touched.
pub record Stays {S : Type 0} (id : String) (s s' : Server S) : Type 0 where
  pub same_owner : owner id s' ≡ owner id s
  pub others : (j : String) → j ≢ id → lookup j s'.turns ≡ lookup j s.turns

pub turns-Stays : {S : Type 0} (id : String) (s s' : Server S) → s'.turns ≡ s.turns → Stays id s s'
turns-Stays id s s' e = record {
  same_owner = ap (λ m. owner_of (lookup id m)) e;
  others = λ j _. ap (lookup j) e;
}

insert-Stays :
    {S : Type 0} (id : String) (t t' : Turn) (s s' : Server S)
    → lookup id s.turns ≡ some t
    → t'.user_id ≡ t.user_id
    → s'.turns ≡ insert id t' s.turns
    → Stays id s s'
insert-Stays id t t' s s' here u e = record {
  same_owner =
      ap (λ m. owner_of (lookup id m)) e
      ∙ ap owner_of (lookup-insert_self id t' s.turns)
      ∙ ap some u
      ∙ sym (ap owner_of here);
  others = λ j n. ap (lookup j) e ∙ lookup-insert_ne t' s.turns (λ q. n (sym q));
}

tell_exchange-Stays :
    {S : Type 0} (v : Services S) (id : String) (t : Turn) (x : Option ExchangeSent)
    (ls : List ExchangeLine) (d : Option ExchangeDropped) (s : Server S) (store : S)
    → lookup id s.turns ≡ some t
    → Stays id s (tell_exchange v id t x ls d (record s { store = store }))
unfolding tell_exchange tell
tell_exchange-Stays v id t x ls d s store here =
    insert-Stays id t (record t { report = (add_lines v.decoder ls t.report).0 }) s _ here refl refl

record_exchange-Stays :
    {S : Type 0} (v : Services S) (id : String) (t : Turn) (x : Option ExchangeSent)
    (ls : List ExchangeLine) (d : Option ExchangeDropped) (c : Option ContextRecord) (s : Server S)
    → lookup id s.turns ≡ some t
    → Stays id s (record_exchange v id t x ls d c s)
unfolding record_exchange
record_exchange-Stays v id t x ls d c s here =
    let (st₁, ok₁) = put_sent v t x s.store in
    let (st₂, ok₂) = put_lines v t ls d st₁ in
    elim (Bool-cases ok₁) [
      | inr e ↦ rw (e, record_exchange) (turns-Stays id s (record s { store = st₁ }) refl)
      | inl e ↦ elim (Bool-cases ok₂) [
        | inr f ↦ rw (e, f, record_exchange) (turns-Stays id s (record s { store = st₂ }) refl)
        | inl f ↦ elim (Bool-cases (is_context_only x ls d c)) [
          | inl g ↦
              rw (e, f, g, record_exchange)
                (turns-Stays id s (record s { store = put_context v t c st₂ }) refl)
          | inr g ↦
              rw (e, f, g, record_exchange)
                (tell_exchange-Stays v id t x ls d s (put_context v t c st₂) here)
        ]
      ]
    ]

mark_started-Stays :
    {S : Type 0} (v : Services S) (id : String) (t : Turn) (session : String) (s : Server S)
    → Stays id s (mark_started v t session s)
unfolding mark_started
mark_started-Stays v id t session s = elim (Bool-cases (session == "")) [
  | inl e ↦ rw (e, mark_started) (turns-Stays id s s refl)
  | inr e ↦ rw (e, mark_started) (turns-Stays id s (record s { store = _ }) refl)
]

-- A message that does not end the turn.
pub handle_turn-Stays :
    {S : Type 0} (v : Services S) (id : String) (t : Turn) (m : TurnMessage) (s : Server S)
    → lookup id s.turns ≡ some t
    → is_ending m ≡ false
    → Stays id s (handle_turn v id t m s)
unfolding handle_turn add_delta tell
handle_turn-Stays v id t (exchange x ls d c) s here e = record_exchange-Stays v id t x ls d c s here
handle_turn-Stays v id t (started i) s here e = mark_started-Stays v id t i s
handle_turn-Stays v id t (delta text) s here e =
    insert-Stays id t (record t { streamed = t.streamed ++ text }) s _ here refl refl
handle_turn-Stays v id t (limit p h) s here e = turns-Stays id s s refl
handle_turn-Stays v id t (done f a b i) s here e = cc e
handle_turn-Stays v id t (stopped f a b i) s here e = cc e
handle_turn-Stays v id t (failed f err) s here e = cc e

-- A message that ends it.
pub handle_turn-turns :
    {S : Type 0} (v : Services S) (id : String) (t : Turn) (m : TurnMessage) (s : Server S)
    → is_ending m ≡ true
    → (handle_turn v id t m s).turns ≡ delete id s.turns
unfolding handle_turn
handle_turn-turns v id t (exchange x ls d c) s e = cc e
handle_turn-turns v id t (started i) s e = cc e
handle_turn-turns v id t (delta text) s e = cc e
handle_turn-turns v id t (limit p h) s e = cc e
handle_turn-turns v id t (done f a b i) s e = finish_turn-turns v id f a b no_text false s
handle_turn-turns v id t (stopped f a b i) s e =
    finish_turn-turns v id (or_streamed f t) a b no_text true s
handle_turn-turns v id t (failed f err) s e =
    finish_turn-turns v id (or_streamed f t) (pos 0) (pos 0) err false s
