-- ===== src/Api/Post/Begun.antt =====
-- api.go, postMessage: a message begins one turn, or none.
use sparstrowgen.Prelude.{
  subst, ◌%◌, ◌^◌, length, eq_iff, ne_of_beq, String, ◌≡◌, ◌≢◌, refl, sym, ap, ◌∙◌, List, [], ◌∷◌,
  some, none, false, ◌==◌, string_eq, if◌then◌else◌, inl, inr, Bool-cases, Option-cases,
}
use sparstrowgen.Prelude.Maps.{
  Map, lookup, insert, delete, lookup-insert_self, lookup-insert_ne, lookup-delete_self,
  lookup-delete_ne,
}
use sparstrowgen.Prelude.Int.{pos}
use sparstrowgen.Protocol.{Model}
use sparstrowgen.Protocol.Files.{TurnFile, ReplayEntry}
use sparstrowgen.Hub.Routing.{target, online_in, daemon_too_old}
use sparstrowgen.Hub.Machines.{send_to_running_machine}
use sparstrowgen.Api.State.{Entry, Conversation, Services, Turn, Server}
use sparstrowgen.Api.Turns.{tell}
use sparstrowgen.Api.Closing.Gone.{finish_turn-turns}
use sparstrowgen.Api.Launch.{
  Body, Posts, Answer, sent_turn, no_conversation, no_workspace, machine_offline, too_old,
  files_need_update, store_failed, public, turn_files, machine_of, offline_text, launch_message,
  estimate_tokens, replay_of,
}
use sparstrowgen.Api.Post.{
  hand_over, new_turn, start_turn, post_answer, post_files, post_user, post_provider, post_replay,
  needs_update, post_allowed, with_provider, post_message,
}

-- The turn that an answer says was begun is the account's; there is no other change to the turns in flight.
abbrev pub Begins : {S : Type 0} → String → Map String Turn → Server S × Answer → Type 0
Begins user turns (s', sent_turn id) =
    ((t : Turn) × (lookup id s'.turns ≡ some t) × (t.user_id ≡ user))
    × ((j : String) → j ≢ id → lookup j s'.turns ≡ lookup j turns)
Begins user turns (s', no_conversation) = (j : String) → lookup j s'.turns ≡ lookup j turns
Begins user turns (s', no_workspace) = (j : String) → lookup j s'.turns ≡ lookup j turns
Begins user turns (s', machine_offline) = (j : String) → lookup j s'.turns ≡ lookup j turns
Begins user turns (s', too_old) = (j : String) → lookup j s'.turns ≡ lookup j turns
Begins user turns (s', files_need_update) = (j : String) → lookup j s'.turns ≡ lookup j turns
Begins user turns (s', store_failed) = (j : String) → lookup j s'.turns ≡ lookup j turns

-- A placeholder is a new entry: no turn in flight has its id.
abbrev pub IsFresh : {S : Type 0} → Posts S → Map String Turn → Type 0
IsFresh {S} p turns =
    (id provider : String) (model : Model) (store : S) (e : Entry)
    → (p.append_agent_placeholder id provider model store).1 ≡ some e
    → lookup e.id turns ≡ none

deleted :
    (id : String) (t : Turn) (turns : Map String Turn) (j : String)
    → lookup id turns ≡ none
    → lookup j (delete id (insert id t turns)) ≡ lookup j turns
deleted id t turns j new = elim (Bool-cases (id == j)) [
  | inl e ↦
      subst (λ z. lookup z (delete id (insert id t turns)) ≡ lookup z turns) ((eq_iff id j).0 e)
        (lookup-delete_self id (insert id t turns) ∙ sym new)
  | inr e ↦
      let n : id ≢ j = ne_of_beq id j e in
      lookup-delete_ne (insert id t turns) n ∙ lookup-insert_ne t turns n
]

hand_over-Begins :
    {S : Type 0} (v : Services S) (t : Turn) (json : String) (s : Server S)
    → lookup t.entry_id s.turns ≡ none
    → Begins t.user_id s.turns (hand_over v t json s)
unfolding hand_over
hand_over-Begins v t json s new =
    let (sys, reached) =
      send_to_running_machine v.world t.user_id t.machine_id (launch_message json) s.sys in
    let s' : Server _ = record s { turns = insert t.entry_id t s.turns; sys = sys } in
    elim (Bool-cases reached) [
      | inl e ↦
          rw (e, hand_over)
            (
              (t, lookup-insert_self t.entry_id t s.turns, refl),
              λ j n. lookup-insert_ne t s.turns (λ q. n (sym q)),
            )
      | inr e ↦
          rw (e, hand_over)
            (λ j.
              ap (lookup j)
                (finish_turn-turns v t.entry_id [] (pos 0) (pos 0) offline_text false s')
              ∙ deleted t.entry_id t s.turns j new)
    ]

module _ {S : Type 0} (v : Services S) (p : Posts S) (user id : String) where
  start_turn-Begins :
      (allowed : List String) (conv : Conversation) (body : Body) (replay : List ReplayEntry)
      (files : List TurnFile) (entry : Entry) (s : Server S)
      → lookup entry.id s.turns ≡ none
      → Begins user s.turns (start_turn v p user id allowed conv body replay files entry s)
  unfolding start_turn new_turn
  start_turn-Begins allowed conv body replay files entry s new =
      hand_over-Begins v (new_turn user id body (machine_of (target s.sys.hub user allowed)) entry)
        _ s new

  post_answer-Begins :
      (allowed : List String) (conv : Conversation) (body : Body) (replay : List ReplayEntry)
      (files : List TurnFile) (s : Server S)
      → IsFresh p s.turns
      → Begins user s.turns (post_answer v p user id allowed conv body replay files s)
  unfolding post_answer tell
  post_answer-Begins allowed conv body replay files s new =
      elim (Option-cases (p.append_agent_placeholder id body.provider body.model s.store).1) [
        | inl e ↦ rw (e, post_answer) (λ j. refl)
        | inr (entry, e) ↦
            rw (e, post_answer)
              (start_turn-Begins allowed conv body replay files entry
                (tell v user "entry_added" (v.json.entry id entry) (record s {
                  store = (p.append_agent_placeholder id body.provider body.model s.store).0;
                }))
                (new _ _ _ _ entry e))
      ]

  post_files-Begins :
      (allowed : List String) (conv : Conversation) (body : Body) (replay : List ReplayEntry)
      (entry : Entry) (s : Server S)
      → IsFresh p s.turns
      → Begins user s.turns (post_files v p user id allowed conv body replay entry s)
  unfolding post_files tell
  post_files-Begins allowed conv body replay entry s new =
      let (store, attached) = p.attach_files id entry.id body.file_ids s.store in
      elim (Option-cases attached) [
        | inl e ↦ rw (e, post_files) (λ j. refl)
        | inr (fs, e) ↦ elim (Option-cases (p.files id store)) [
          | inl f ↦ rw (e, f, post_files) (λ j. refl)
          | inr (all, f) ↦
              rw (e, f, post_files)
                (post_answer-Begins allowed conv body replay (turn_files all fs)
                  (tell v user "entry_added" (v.json.entry id (record entry { files = public fs }))
                    (record s { store = store }))
                  new)
        ]
      ]

  post_user-Begins :
      (allowed : List String) (conv : Conversation) (body : Body) (replay : List ReplayEntry)
      (s : Server S)
      → IsFresh p s.turns
      → Begins user s.turns (post_user v p user id allowed conv body replay s)
  unfolding post_user
  post_user-Begins allowed conv body replay s new =
      elim (Option-cases (p.append_user id body.text s.store).1) [
        | inl e ↦ rw (e, post_user) (λ j. refl)
        | inr (entry, e) ↦
            rw (e, post_user)
              (post_files-Begins allowed conv body replay entry (record s { store = _ }) new)
      ]

  post_provider-Begins :
      (allowed : List String) (conv : Conversation) (body : Body) (replay : List ReplayEntry)
      (s : Server S)
      → IsFresh p s.turns
      → Begins user s.turns (post_provider v p user id allowed conv body replay s)
  unfolding post_provider tell
  post_provider-Begins allowed conv body replay s new =
      let named = if conv.title == "" then p.name_from user id body.text s.store else s.store in
      elim (Option-cases (p.set_provider user id body.provider body.model named).1) [
        | inl e ↦ rw (e, post_provider) (λ j. refl)
        | inr (c, e) ↦
            rw (e, post_provider)
              (post_user-Begins allowed conv body replay
                (tell v user "conversation" (v.json.conversation c)
                  (record s { store = (p.set_provider user id body.provider body.model named).0 }))
                new)
      ]

  post_replay-Begins :
      (allowed : List String) (conv : Conversation) (body : Body) (es : List Entry) (s : Server S)
      → IsFresh p s.turns
      → Begins user s.turns (post_replay v p user id allowed conv body es s)
  unfolding post_replay tell
  post_replay-Begins allowed conv body [] s new = post_provider-Begins allowed conv body [] s new
  post_replay-Begins allowed conv body (e ∷ es) s new =
      elim (Option-cases
        (p.append_replay id body.provider body.model (length (e ∷ es) % 2 ^ 32)
          (estimate_tokens (e ∷ es)) s.store).1) [
            | inl f ↦ rw (f, post_replay) (λ j. refl)
            | inr (marker, f) ↦
                rw (f, post_replay)
                  (post_provider-Begins allowed conv body (replay_of (e ∷ es))
                    (tell v user "entry_added" (v.json.entry id marker) (record s {
                      store =
                          (p.append_replay id body.provider body.model (length (e ∷ es) % 2 ^ 32)
                            (estimate_tokens (e ∷ es)) s.store).0;
                    }))
                    new)
          ]

  post_allowed-Begins :
      (allowed : List String) (conv : Conversation) (body : Body) (s : Server S)
      → IsFresh p s.turns
      → Begins user s.turns (post_allowed v p user id allowed conv body s)
  unfolding post_allowed
  post_allowed-Begins allowed conv body s new =
      elim (Bool-cases (online_in s.sys.hub user allowed)) [
        | inr a ↦ rw (a, post_allowed) (λ j. refl)
        | inl a ↦ elim (Bool-cases (daemon_too_old v.world s.sys.hub user)) [
          | inl b ↦ rw (a, b, post_allowed) (λ j. refl)
          | inr b ↦ elim (Bool-cases (needs_update s.sys.hub user allowed body)) [
            | inl c ↦ rw (a, b, c, post_allowed) (λ j. refl)
            | inr c ↦ elim (Option-cases (p.unseen id body.provider s.store)) [
              | inl e ↦ rw (a, b, c, e, post_allowed) (λ j. refl)
              | inr (es, e) ↦
                  rw (a, b, c, e, post_allowed) (post_replay-Begins allowed conv body es s new)
            ]
          ]
        ]
      ]

  -- A message that is posted begins a turn exactly if it is answered with one: the turn is then in
  -- flight, it is the account's, and no other turn is touched. Whatever else it is answered, on any of
  -- the ways on which it can be refused or fail, the turns in flight are those from before; given that
  -- the store's new entries have new ids.
  pub post_message-Begins :
      (body : Body) (s : Server S)
      → IsFresh p s.turns
      → Begins user s.turns (post_message v p user id body s)
  unfolding post_message
  post_message-Begins body s new = elim (Option-cases (p.get user id s.store)) [
    | inl e ↦ rw (e, post_message) (λ j. refl)
    | inr (conv, e) ↦ elim (Option-cases (p.machines_in user conv.workspace_id s.store)) [
      | inl f ↦ rw (e, f, post_message) (λ j. refl)
      | inr (allowed, f) ↦
          rw (e, f, post_message) (post_allowed-Begins allowed conv (with_provider body conv) s new)
    ]
  ]
