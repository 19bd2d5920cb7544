-- ===== src/Api/Post.antt =====
-- api.go, postMessage: where a turn begins. The handler's
-- parts follow one another as its statements do, and each return is an answer. What it calls of the
-- store is a second interface; the request's body has been decoded.
pub mod Begun
use sparstrowgen.Prelude.{
  ℕ, ◌+◌, ◌/◌, ◌%◌, ◌^◌, String, List, [], ◌∷◌, ◌++◌, map, Option, some, none, Bool, true, false,
  not, ◌&&◌, ◌||◌, ◌==◌, string_eq, if◌then◌else◌, length,
}
use sparstrowgen.Prelude.Maps.{Map, lookup, insert}
use sparstrowgen.Prelude.Int.{pos}
use sparstrowgen.Text.{Text, codes}
use sparstrowgen.Protocol.{Model, ServerMessage}
use sparstrowgen.Protocol.Files.{ConversationFile, TurnFile, ReplayFile, ReplayEntry}
use sparstrowgen.Hub.State.{Hub}
use sparstrowgen.Hub.Routing.{target, online_in, daemon_too_old, supports_files}
use sparstrowgen.Hub.Machines.{send_to_running_machine}
use sparstrowgen.Agent.Report.{new_reporter}
use sparstrowgen.Api.State.{Entry, Conversation, Services, Turn, Server}
use sparstrowgen.Api.Launch.{
  File, Body, Launch, Posts, Answer, estimate_tokens, public, is_sent, turn_files, replay_files,
  replay_of, machine_of, launch_message, offline_text, sent_turn, no_conversation, no_workspace,
  machine_offline, too_old, files_need_update, store_failed,
}
use sparstrowgen.Api.Turns.{is_empty, tell, finish_turn}

-- The turn is in flight before its computer is told, and over if it cannot be told.
unfoldable pub hand_over : {S : Type 0} → Services S → Turn → String → Server S → Server S × Answer
unfolding insert send_to_running_machine finish_turn launch_message
hand_over v t json s =
    let (sys, reached) =
      send_to_running_machine v.world t.user_id t.machine_id (launch_message json) s.sys in
    let s' = record s { turns = insert t.entry_id t s.turns; sys = sys } in
    if reached
    then (s', sent_turn t.entry_id)
    else (finish_turn v t.entry_id [] (pos 0) (pos 0) offline_text false s', machine_offline)

unfoldable pub new_turn : String → String → Body → String → Entry → Turn
unfolding new_reporter
new_turn user id body machine entry = record {
  user_id = user;
  conversation_id = id;
  entry_id = entry.id;
  provider = body.provider;
  model = body.model;
  machine_id = machine;
  streamed = [];
  report = new_reporter body.provider;
  files = [];
}

-- From Target on.
unfoldable pub start_turn :
    {S : Type 0}
    → Services S
    → Posts S
    → String
    → String
    → List String
    → Conversation
    → Body
    → List ReplayEntry
    → List TurnFile
    → Entry
    → Server S
    → Server S × Answer
unfolding target new_turn hand_over
start_turn v p user id allowed conv body replay files entry s =
    hand_over v (new_turn user id body (machine_of (target s.sys.hub user allowed)) entry)
      (p.run_turn_json (record {
        turn_id = entry.id;
        conversation_id = id;
        entry_id = entry.id;
        provider = body.provider;
        model = body.model;
        cwd = conv.folder;
        prompt = body.text;
        resume_session_id = p.resume_id id body.provider s.store;
        replay = replay;
        files = files;
      }))
      s

-- The two entries, the message's and the answer's.
unfoldable pub post_answer :
    {S : Type 0}
    → Services S
    → Posts S
    → String
    → String
    → List String
    → Conversation
    → Body
    → List ReplayEntry
    → List TurnFile
    → Server S
    → Server S × Answer
unfolding tell start_turn
post_answer v p user id allowed conv body replay files s =
    let (store, answer) = p.append_agent_placeholder id body.provider body.model s.store in
    let s' = record s { store = store } in
    elim answer [
      | none ↦ (s', store_failed)
      | some entry ↦
          start_turn v p user id allowed conv body replay files entry
            (tell v user "entry_added" (v.json.entry id entry) s')
    ]

unfoldable pub post_files :
    {S : Type 0}
    → Services S
    → Posts S
    → String
    → String
    → List String
    → Conversation
    → Body
    → List ReplayEntry
    → Entry
    → Server S
    → Server S × Answer
unfolding public turn_files tell post_answer
post_files v p user id allowed conv body replay entry s =
    let (store, attached) = p.attach_files id entry.id body.file_ids s.store in
    let s' = record s { store = store } in
    elim attached [
      | none ↦ (s', store_failed)
      | some fs ↦
          let shown = record entry { files = public fs } in
          elim (p.files id store) [
            | none ↦ (s', store_failed)
            | some all ↦
                post_answer v p user id allowed conv body replay (turn_files all fs)
                  (tell v user "entry_added" (v.json.entry id shown) s')
          ]
    ]

unfoldable pub post_user :
    {S : Type 0}
    → Services S
    → Posts S
    → String
    → String
    → List String
    → Conversation
    → Body
    → List ReplayEntry
    → Server S
    → Server S × Answer
unfolding post_files
post_user v p user id allowed conv body replay s =
    let (store, answer) = p.append_user id body.text s.store in
    let s' = record s { store = store } in
    elim answer [
      | none ↦ (s', store_failed)
      | some entry ↦ post_files v p user id allowed conv body replay entry s'
    ]

-- The name and the provider.
unfoldable pub post_provider :
    {S : Type 0}
    → Services S
    → Posts S
    → String
    → String
    → List String
    → Conversation
    → Body
    → List ReplayEntry
    → Server S
    → Server S × Answer
unfolding tell post_user
post_provider v p user id allowed conv body replay s =
    let named = if conv.title == "" then p.name_from user id body.text s.store else s.store in
    let (store, switched) = p.set_provider user id body.provider body.model named in
    let s' = record s { store = store } in
    elim switched [
      | none ↦ (s', no_conversation)
      | some c ↦
          post_user v p user id allowed conv body replay
            (tell v user "conversation" (v.json.conversation c) s')
    ]

unfoldable pub post_replay :
    {S : Type 0}
    → Services S
    → Posts S
    → String
    → String
    → List String
    → Conversation
    → Body
    → List Entry
    → Server S
    → Server S × Answer
unfolding estimate_tokens replay_of tell post_provider
post_replay v p user id allowed conv body [] s = post_provider v p user id allowed conv body [] s
post_replay v p user id allowed conv body (e ∷ es) s =
    let (store, answer) =
      p.append_replay id body.provider body.model (length (e ∷ es) % 2 ^ 32)
        (estimate_tokens (e ∷ es)) s.store in
    let s' = record s { store = store } in
    elim answer [
      | none ↦ (s', store_failed)
      | some marker ↦
          post_provider v p user id allowed conv body (replay_of (e ∷ es))
            (tell v user "entry_added" (v.json.entry id marker) s')
    ]

unfoldable pub needs_update : Hub → String → List String → Body → Bool
unfolding target supports_files
needs_update h user allowed body =
    not (is_empty body.file_ids) && not (supports_files h user (machine_of (target h user allowed)))

-- What refuses the message before anything is written.
unfoldable pub post_allowed :
    {S : Type 0}
    → Services S
    → Posts S
    → String
    → String
    → List String
    → Conversation
    → Body
    → Server S
    → Server S × Answer
unfolding online_in daemon_too_old needs_update post_replay
post_allowed v p user id allowed conv body s =
    if not (online_in s.sys.hub user allowed)
    then (s, machine_offline)
    else if daemon_too_old v.world s.sys.hub user
    then (s, too_old)
    else if needs_update s.sys.hub user allowed body
    then (s, files_need_update)
    else elim (p.unseen id body.provider s.store) [
      | none ↦ (s, store_failed)
      | some es ↦ post_replay v p user id allowed conv body es s
    ]

abbrev pub with_provider : Body → Conversation → Body
with_provider body conv =
    if body.provider == ""
    then record body { provider = conv.provider; model = conv.model }
    else body

unfoldable pub post_message :
    {S : Type 0} → Services S → Posts S → String → String → Body → Server S → Server S × Answer
unfolding post_allowed
post_message v p user id body s = elim (p.get user id s.store) [
  | none ↦ (s, no_conversation)
  | some conv ↦ elim (p.machines_in user conv.workspace_id s.store) [
    | none ↦ (s, no_workspace)
    | some allowed ↦ post_allowed v p user id allowed conv (with_provider body conv) s
  ]
]
