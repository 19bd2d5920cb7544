-- ===== src/Api/Turns.antt =====
-- api.go: the turns in flight, from what their computers report to their ending. A *turn is the map's
-- entry for its id, and is written through the map. The lock is held for the whole of each function.
use sparstrowgen.Prelude.{
  String, List, [], ◌∷◌, ◌++◌, Option, some, none, Bool, true, false, not, ◌&&◌, ◌||◌, ◌==◌,
  string_eq, if◌then◌else◌, is_some,
}
use sparstrowgen.Prelude.Maps.{lookup, insert, delete}
use sparstrowgen.Prelude.Int.{ℤ, pos, ltz}
use sparstrowgen.Text.{Text}
use sparstrowgen.Protocol.{Provider}
use sparstrowgen.Protocol.Turn.{
  ExchangeSent, ExchangeLine, ExchangeDropped, ContextRecord, TurnMessage, exchange, started, delta,
  limit, done, stopped, failed,
}
use sparstrowgen.Protocol.Report.{Exchange, ExchangeReport}
use sparstrowgen.Hub.Browsers.{broadcast_to}
use sparstrowgen.Hub.Machines.{set_providers, set_chats_dir, set_headroom}
use sparstrowgen.Agent.Report.{add_lines}
use sparstrowgen.Api.State.{Entry, Conversation, TurnResult, Services, Turn, Server, event}

abbrev pub is_empty {ℓ} : {A : Type ℓ} → List A → Bool
is_empty [] = true
is_empty (x ∷ xs) = false

-- BroadcastTo, on the server.
unfoldable pub tell : {S : Type 0} → Services S → String → String → String → Server S → Server S
unfolding broadcast_to event
tell v user type rest s = record s { sys = broadcast_to v.world user (event type rest) s.sys }

abbrev pub tell_usage : {S : Type 0} → Services S → Turn → Option Conversation → Server S → Server S
tell_usage v t none s = s
tell_usage v t (some c) s = tell v t.user_id "conversation" (v.json.conversation c) s

-- What follows a turn's end when it used something.
unfoldable pub add_usage : {S : Type 0} → Services S → Turn → ℤ → ℤ → Server S → Server S
unfolding tell
add_usage v t tokens spend s =
    if ltz (pos 0) tokens || ltz (pos 0) spend
    then (let (store, conv) = v.store.add_usage t.conversation_id tokens spend s.store in
        tell_usage v t conv (record s { store = store }))
    else s

-- The browsers' copy of the entry carries what the agent made.
abbrev pub tell_done : {S : Type 0} → Services S → Turn → ℤ → ℤ → Option Entry → Server S → Server S
tell_done v t tokens spend none s = s
tell_done v t tokens spend (some entry) s = add_usage v t tokens spend (
    tell v t.user_id "entry_done"
      (v.json.entry t.conversation_id (record entry { files = t.files })) s)

unfoldable pub turn_result : Turn → Text → ℤ → ℤ → Text → Bool → TurnResult
turn_result t text tokens spend failure was_stopped = record {
  conversation_id = t.conversation_id;
  entry_id = t.entry_id;
  provider = t.provider;
  text = text;
  tokens = tokens;
  spend_ticks = spend;
  failure = failure;
  stopped = was_stopped;
}

-- From the turn's removal on.
unfoldable pub finish_entry :
    {S : Type 0} → Services S → Turn → Text → ℤ → ℤ → Text → Bool → Server S → Server S
unfolding tell add_usage turn_result
finish_entry v t text tokens spend failure was_stopped s =
    let (store, answer) =
      v.store.finish_turn (turn_result t text tokens spend failure was_stopped) s.store in
    tell_done v t tokens spend answer (record s { store = store })

unfoldable pub finish_turn :
    {S : Type 0} → Services S → String → Text → ℤ → ℤ → Text → Bool → Server S → Server S
unfolding lookup delete finish_entry
finish_turn v id text tokens spend failure was_stopped s =
    let s' = record s { turns = delete id s.turns } in
    elim (lookup id s.turns) [
      | none ↦ s'
      | some t ↦ finish_entry v t text tokens spend failure was_stopped s'
    ]

abbrev pub put_sent : {S : Type 0} → Services S → Turn → Option ExchangeSent → S → S × Bool
put_sent v t none store = (store, true)
put_sent v t (some x) store = v.store.record_exchange_sent t.conversation_id t.entry_id x store

unfoldable pub put_lines :
    {S : Type 0} → Services S → Turn → List ExchangeLine → Option ExchangeDropped → S → S × Bool
put_lines v t lines dropped store =
    if not (is_empty lines) || is_some dropped
    then v.store.append_exchange_lines t.entry_id lines dropped store
    else (store, true)

abbrev pub put_context : {S : Type 0} → Services S → Turn → Option ContextRecord → S → S
put_context v t none store = store
put_context v t (some c) store =
    v.store.record_exchange_context t.conversation_id t.entry_id c store

-- The live event: what is new, with the report if these lines changed it.
unfoldable pub live_exchange :
    Turn
    → Option ExchangeSent
    → List ExchangeLine
    → Option ExchangeDropped
    → Option ExchangeReport
    → Exchange
live_exchange t x lines dropped report = record {
  entry_id = t.entry_id;
  recorded = true;
  sent = x;
  lines = lines;
  dropped = dropped;
  report = report;
}

unfoldable pub tell_exchange :
    {S : Type 0}
    → Services S
    → String
    → Turn
    → Option ExchangeSent
    → List ExchangeLine
    → Option ExchangeDropped
    → Server S
    → Server S
unfolding insert add_lines live_exchange tell
tell_exchange v id t x lines dropped s =
    let (report, changed) = add_lines v.decoder lines t.report in
    let new = if changed then some report.r else none in
    tell v t.user_id "exchange"
      (v.json.exchange t.conversation_id t.entry_id (live_exchange t x lines dropped new))
      (record s { turns = insert id (record t { report = report }) s.turns })

-- Only a context came.
unfoldable pub is_context_only :
    Option ExchangeSent → List ExchangeLine → Option ExchangeDropped → Option ContextRecord → Bool
is_context_only x lines dropped context =
    is_some context && not (is_some x) && is_empty lines && not (is_some dropped)

unfoldable pub record_exchange :
    {S : Type 0}
    → Services S
    → String
    → Turn
    → Option ExchangeSent
    → List ExchangeLine
    → Option ExchangeDropped
    → Option ContextRecord
    → Server S
    → Server S
unfolding put_lines is_context_only tell_exchange
record_exchange v id t x lines dropped context s =
    let (st₁, ok₁) = put_sent v t x s.store in
    let (st₂, ok₂) = put_lines v t lines dropped st₁ in
    let st₃ = put_context v t context st₂ in
    if not ok₁
    then record s { store = st₁ }
    else if not ok₂
    then record s { store = st₂ }
    else if is_context_only x lines dropped context
    then record s { store = st₃ }
    else tell_exchange v id t x lines dropped (record s { store = st₃ })

abbrev pub or_streamed : Text → Turn → Text
or_streamed [] t = t.streamed
or_streamed (c ∷ text) t = c ∷ text

abbrev pub no_text : Text
no_text = []

unfoldable pub mark_started : {S : Type 0} → Services S → Turn → String → Server S → Server S
mark_started v t session s = if session == "" then s else record s {
  store =
      v.store.mark_seen t.conversation_id t.provider session
        (v.store.last_seq t.conversation_id s.store) s.store;
}

unfoldable pub add_delta : {S : Type 0} → Services S → String → Turn → Text → Server S → Server S
unfolding insert tell
add_delta v id t text s =
    tell v t.user_id "entry_delta" (v.json.delta t.conversation_id t.entry_id text) (record s {
      turns = insert id (record t { streamed = t.streamed ++ text }) s.turns;
      store = v.store.append_delta t.entry_id text s.store;
    })

-- handleDaemonMessage's second switch.
unfoldable pub handle_turn :
    {S : Type 0} → Services S → String → Turn → TurnMessage → Server S → Server S
unfolding record_exchange mark_started add_delta finish_turn
handle_turn v id t (exchange x lines dropped context) s =
    record_exchange v id t x lines dropped context s
handle_turn v id t (started session) s = mark_started v t session s
handle_turn v id t (delta text) s = add_delta v id t text s
handle_turn v id t (limit provider head) s = s
handle_turn v id t (done full tokens spend session) s =
    finish_turn v id full tokens spend no_text false s
handle_turn v id t (failed full error) s =
    finish_turn v id (or_streamed full t) (pos 0) (pos 0) error false s
handle_turn v id t (stopped full tokens spend session) s =
    finish_turn v id (or_streamed full t) tokens spend no_text true s

-- A DaemonMessage that handleDaemonMessage reads.
pub data Report : Type 0 where
  hello : List Provider → String → Report
  said : String → TurnMessage → Report

unfoldable pub handle_said :
    {S : Type 0} → Services S → String → String → TurnMessage → Server S → Server S
unfolding lookup handle_turn
handle_said v user id m s = elim (lookup id s.turns) [
  | none ↦ s
  | some t ↦ if t.user_id == user then handle_turn v id t m s else s
]

unfoldable pub handle_daemon_message :
    {S : Type 0} → Services S → String → Report → Server S → Server S
unfolding handle_said set_providers set_chats_dir set_headroom
handle_daemon_message v user (hello providers dir) s = record s {
  sys = set_chats_dir user "" dir (set_providers v.world user providers s.sys);
}
handle_daemon_message v user (said id (limit provider head)) s = record s {
  sys = set_headroom v.world user provider head s.sys;
}
handle_daemon_message v user (said id (exchange x lines dropped context)) s =
    handle_said v user id (exchange x lines dropped context) s
handle_daemon_message v user (said id (started session)) s =
    handle_said v user id (started session) s
handle_daemon_message v user (said id (delta text)) s = handle_said v user id (delta text) s
handle_daemon_message v user (said id (done full tokens spend session)) s =
    handle_said v user id (done full tokens spend session) s
handle_daemon_message v user (said id (stopped full tokens spend session)) s =
    handle_said v user id (stopped full tokens spend session) s
handle_daemon_message v user (said id (failed full error)) s =
    handle_said v user id (failed full error) s
