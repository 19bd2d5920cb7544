-- ===== src/Agent/Claude/Session.antt =====
-- claude.go: the session that the daemon is told of.
use sparstrowgen.Prelude.{
  ◌≡◌, refl, sym, ap, ◌∙◌, String, List, [], ◌∷◌, ◌++◌, Option, some, none, not, ◌&&◌, ◌==◌,
  string_eq, if◌then◌else◌, inl, inr, Bool-cases,
}
use mathlib.Core.List.{append-nil, append_assoc}
use sparstrowgen.Daemon.RunTurn.{Event, prints, starts, streams, limits, ticks, idles}
use sparstrowgen.Agent.Parsed.{no_parsed, is_blank}
use sparstrowgen.Agent.Claude.{
  ClaudeLine, Claude, message_text, on_system, on_rate_limit, on_stream, on_assistant, on_result,
  on_line, read_all, new_claude, parse_claude,
}

abbrev started_by : Event → List String
started_by (prints l) = []
started_by (starts id) = id ∷ []
started_by (streams t) = []
started_by (limits h) = []
started_by ticks = []
started_by idles = []

-- The sessions that are told.
abbrev pub started_in : List Event → List String
started_in [] = []
started_in (e ∷ es) = started_by e ++ started_in es

started_in-append : (es fs : List Event) → started_in (es ++ fs) ≡ started_in es ++ started_in fs
started_in-append [] fs = refl
started_in-append (e ∷ es) fs =
    ap (λ z. started_by e ++ z) (started_in-append es fs)
    ∙ sym (append_assoc (started_by e) (started_in es) (started_in fs))

abbrev pub unless_empty : String → List String
unless_empty id = if id == "" then [] else id ∷ []

abbrev Pinned : Claude → Type 0
Pinned s = started_in s.out ≡ unless_empty s.parsed.session_id

says_nothing :
    (s : Claude) (e : Event)
    → started_by e ≡ []
    → Pinned s
    → Pinned (record s { out = s.out ++ (e ∷ []) })
says_nothing s e h k =
    started_in-append s.out (e ∷ [])
    ∙ ap (λ z. started_in s.out ++ (z ++ [])) h
    ∙ append-nil (started_in s.out)
    ∙ k

system-Pinned : (ev : ClaudeLine) (s : Claude) → Pinned s → Pinned (on_system ev s)
unfolding on_system
system-Pinned ev s k = elim (Bool-cases (ev.subtype == "init")) [
  | inr a ↦ elim (Bool-cases (ev.subtype == "api_retry")) [
    | inl b ↦ rw (a, b, on_system) k
    | inr b ↦ rw (a, b, on_system) k
  ]
  | inl a ↦ elim (Bool-cases (ev.session_id == "")) [
    | inl b ↦ rw (a, b, on_system) k
    | inr b ↦ elim (Bool-cases (s.parsed.session_id == "")) [
      | inr c ↦ rw (a, b, c, on_system) k
      | inl c ↦
          let none_yet : started_in s.out ≡ [] =
            k ∙ ap (λ z. if z then [] else s.parsed.session_id ∷ []) c in
          let now : unless_empty ev.session_id ≡ ev.session_id ∷ [] =
            ap (λ z. if z then [] else ev.session_id ∷ []) b in
          rw (a, b, c, on_system)
            (started_in-append s.out (starts ev.session_id ∷ [])
              ∙ ap (λ z. z ++ (ev.session_id ∷ [])) none_yet
              ∙ sym now)
    ]
  ]
]

limit-Pinned : (ev : ClaudeLine) (s : Claude) → Pinned s → Pinned (on_rate_limit ev s)
unfolding on_rate_limit
limit-Pinned ev s k = elim (Bool-cases (ev.limit_type == "")) [
  | inl a ↦ rw (a, on_rate_limit) k
  | inr a ↦ rw (a, on_rate_limit) (says_nothing s (limits _) refl k)
]

stream-Pinned : (ev : ClaudeLine) (s : Claude) → Pinned s → Pinned (on_stream ev s)
unfolding on_stream
stream-Pinned ev s k =
    elim (Bool-cases (ev.event_type == "content_block_delta" && not (is_blank ev.delta_text))) [
      | inr a ↦ rw (a, on_stream) k
      | inl a ↦ rw (a, on_stream) (says_nothing s (streams ev.delta_text) refl k)
    ]

assistant-Pinned : (ev : ClaudeLine) (s : Claude) → Pinned s → Pinned (on_assistant ev s)
unfolding on_assistant
assistant-Pinned ev s k = elim (Bool-cases (is_blank (message_text ev.content))) [
  | inl a ↦ rw (a, on_assistant) k
  | inr a ↦ rw (a, on_assistant) k
]

line-Pinned : (ev : ClaudeLine) (s : Claude) → Pinned s → Pinned (on_line ev s)
unfolding on_line
line-Pinned ev s k = elim (Bool-cases (ev.type == "system")) [
  | inl a ↦ rw (a, on_line) (system-Pinned ev s k)
  | inr a ↦ elim (Bool-cases (ev.type == "rate_limit_event")) [
    | inl b ↦ rw (a, b, on_line) (limit-Pinned ev s k)
    | inr b ↦ elim (Bool-cases (ev.type == "stream_event")) [
      | inl c ↦ rw (a, b, c, on_line) (stream-Pinned ev s k)
      | inr c ↦ elim (Bool-cases (ev.type == "assistant")) [
        | inl d ↦ rw (a, b, c, d, on_line) (assistant-Pinned ev s k)
        | inr d ↦ elim (Bool-cases (ev.type == "result")) [
          | inl e ↦ rw (a, b, c, d, e, on_line) (unfold on_result in k)
          | inr e ↦ rw (a, b, c, d, e, on_line) k
        ]
      ]
    ]
  ]
]

read_all-Pinned : (ls : List (Option ClaudeLine)) (s : Claude) → Pinned s → Pinned (read_all ls s)
unfolding read_all
read_all-Pinned [] s k = k
read_all-Pinned (none ∷ ls) s k = read_all-Pinned ls s k
read_all-Pinned (some ev ∷ ls) s k = read_all-Pinned ls (on_line ev s) (line-Pinned ev s k)

-- Whatever claude prints, the daemon is told of one session at most, once, and it is the session that
-- the turn's result names; it is told of none exactly if the result names none.
pub parse_claude-started_in :
    (ls : List (Option ClaudeLine))
    → let (parsed, out) = parse_claude ls in started_in out ≡ unless_empty parsed.session_id
unfolding parse_claude
parse_claude-started_in ls = read_all-Pinned ls new_claude (unfold new_claude no_parsed in refl)
