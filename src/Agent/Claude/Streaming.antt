-- ===== src/Agent/Claude/Streaming.antt =====
-- claude.go: a message supersedes the pieces of it that streamed in.
use sparstrowgen.Prelude.{
  ◌≡◌, refl, sym, ap, ◌∙◌, List, [], ◌∷◌, Option, some, none, Bool, true, false, ◌==◌, string_eq,
  if◌then◌else◌, ◌&&◌, not, arith, eq_iff, inl, inr, Bool-cases,
}
use sparstrowgen.Text.{Text, trim_newlines, trim_left_by, trim_right_by, join}
use sparstrowgen.Agent.Parsed.{Parsed, is_blank, blank_line}
use sparstrowgen.Agent.Claude.{
  ClaudeLine, Claude, on_system, on_rate_limit, on_stream, on_assistant, on_result, on_line,
  message_text, read_all, new_claude, with_tail, parse_claude,
}

-- The state without what streamed in and what was sent.
core : Claude → Claude
core s = record s { streaming = []; out = [] }

system-core : (ev : ClaudeLine) (s : Claude) → core (on_system ev s) ≡ core (on_system ev (core s))
unfolding on_system core
system-core ev s = ground arith

limit-core : (ev : ClaudeLine) (s : Claude) → core (on_rate_limit ev s) ≡ core s
unfolding on_rate_limit core
limit-core ev s = ground arith

stream-core : (ev : ClaudeLine) (s : Claude) → core (on_stream ev s) ≡ core s
unfolding on_stream core
stream-core ev s = ground arith

assistant-core :
    (ev : ClaudeLine) (s : Claude) → core (on_assistant ev s) ≡ core (on_assistant ev (core s))
unfolding on_assistant core
assistant-core ev s = ground arith

result-core : (ev : ClaudeLine) (s : Claude) → core (on_result ev s) ≡ core (on_result ev (core s))
unfolding on_result core
result-core ev s = refl

core-core : (s : Claude) → core (core s) ≡ core s
unfolding core
core-core s = refl

line-core : (ev : ClaudeLine) (s : Claude) → core (on_line ev s) ≡ core (on_line ev (core s))
unfolding on_line
line-core ev s = elim (Bool-cases (ev.type == "system")) [
  | inl a ↦ rw (a, on_line) (system-core ev s)
  | inr a ↦ elim (Bool-cases (ev.type == "rate_limit_event")) [
    | inl b ↦
        rw (a, b, on_line) (limit-core ev s ∙ sym (core-core s) ∙ sym (limit-core ev (core s)))
    | inr b ↦ elim (Bool-cases (ev.type == "stream_event")) [
      | inl c ↦
          rw (a, b, c, on_line)
            (stream-core ev s ∙ sym (core-core s) ∙ sym (stream-core ev (core s)))
      | inr c ↦ elim (Bool-cases (ev.type == "assistant")) [
        | inl d ↦ rw (a, b, c, d, on_line) (assistant-core ev s)
        | inr d ↦ elim (Bool-cases (ev.type == "result")) [
          | inl e ↦ rw (a, b, c, d, e, on_line) (result-core ev s)
          | inr e ↦ rw (a, b, c, d, e, on_line) (sym (core-core s))
        ]
      ]
    ]
  ]
]

-- A line that carries a piece of a message.
abbrev pub is_stream : ClaudeLine → Bool
is_stream ev = ev.type == "stream_event"

-- The output as it would be if nothing streamed in.
unfoldable pub without_deltas : List (Option ClaudeLine) → List (Option ClaudeLine)
without_deltas [] = []
without_deltas (none ∷ ls) = without_deltas ls
without_deltas (some ev ∷ ls) =
    let rest = without_deltas ls in if is_stream ev then rest else some ev ∷ rest

stream_line-core :
    (ev : ClaudeLine) (s : Claude) → is_stream ev ≡ true → core (on_line ev s) ≡ core s
unfolding on_line
stream_line-core ev s c =
    let e : ev.type ≡ "stream_event" = (eq_iff _ _).0 c in rw (e, on_line) (stream-core ev s)

read_all-core :
    (ls : List (Option ClaudeLine)) (s s' : Claude)
    → core s ≡ core s'
    → core (read_all ls s) ≡ core (read_all (without_deltas ls) s')
unfolding read_all without_deltas core
read_all-core [] s s' h = h
read_all-core (none ∷ ls) s s' h = read_all-core ls s s' h
read_all-core (some ev ∷ ls) s s' h = elim (Bool-cases (is_stream ev)) [
  | inl c ↦
      rw (c, without_deltas) (read_all-core ls (on_line ev s) s' (stream_line-core ev s c ∙ h))
  | inr c ↦
      rw (c, without_deltas)
        (read_all-core ls (on_line ev s) (on_line ev s')
          (line-core ev s ∙ ap (λ z. core (on_line ev z)) h ∙ sym (line-core ev s')))
]

line_quiet :
    (ev : ClaudeLine) (s : Claude)
    → is_stream ev ≡ false
    → s.streaming ≡ []
    → (on_line ev s).streaming ≡ []
unfolding on_line on_system on_rate_limit on_assistant on_result
line_quiet ev s c h = ground (arith, c, h)

read_all_quiet :
    (ls : List (Option ClaudeLine)) (s : Claude)
    → s.streaming ≡ []
    → (read_all (without_deltas ls) s).streaming ≡ []
unfolding read_all without_deltas
read_all_quiet [] s h = h
read_all_quiet (none ∷ ls) s h = read_all_quiet ls s h
read_all_quiet (some ev ∷ ls) s h = elim (Bool-cases (is_stream ev)) [
  | inl c ↦ rw (c, without_deltas) (read_all_quiet ls s h)
  | inr c ↦ rw (c, without_deltas) (read_all_quiet ls (on_line ev s) (line_quiet ev s c h))
]

-- A line that streams in a piece of text, and one that brings a message with text whole.
abbrev pub is_piece : ClaudeLine → Bool
is_piece ev =
    is_stream ev && (ev.event_type == "content_block_delta" && not (is_blank ev.delta_text))

abbrev pub is_whole : ClaudeLine → Bool
is_whole ev = ev.type == "assistant" && not (is_blank (message_text ev.content))

-- Whether the output, after what may already have streamed in, has a piece that no whole message follows.
unfoldable pub left_over : Bool → List (Option ClaudeLine) → Bool
left_over b [] = b
left_over b (none ∷ ls) = left_over b ls
left_over b (some ev ∷ ls) =
    left_over (if is_piece ev then true else if is_whole ev then false else b) ls

stream_left :
    (ev : ClaudeLine) (s : Claude)
    → is_stream ev ≡ true
    → is_piece ev ≡ false
    → (on_line ev s).streaming ≡ s.streaming
unfolding on_line on_stream
stream_left ev s c e =
    let t : ev.type ≡ "stream_event" = (eq_iff _ _).0 c in rw (t, on_line) (ground (arith, c, e))

whole_left : (ev : ClaudeLine) (s : Claude) → is_whole ev ≡ true → (on_line ev s).streaming ≡ []
unfolding on_line on_assistant
whole_left ev s e =
    let t : ev.type ≡ "assistant" = (eq_iff _ _).0 (ground (arith, e)) in
    rw (t, on_line) (ground (arith, e))

other_left :
    (ev : ClaudeLine) (s : Claude)
    → is_stream ev ≡ false
    → is_whole ev ≡ false
    → (on_line ev s).streaming ≡ s.streaming
unfolding on_line on_system on_rate_limit on_assistant on_result
other_left ev s c e = ground (arith, c, e)

line_left :
    (ev : ClaudeLine) (b : Bool) (s : Claude)
    → (b ≡ false → s.streaming ≡ [])
    → (if is_piece ev then true else if is_whole ev then false else b) ≡ false
    → (on_line ev s).streaming ≡ []
line_left ev b s h e = elim (Bool-cases (is_whole ev)) [
  | inl w ↦ whole_left ev s w
  | inr w ↦ elim (Bool-cases (is_piece ev)) [
    | inl p ↦ cc (rw p at e)
    | inr p ↦
        let quiet : b ≡ false = rw (w) at (rw p at e) in
        elim (Bool-cases (is_stream ev)) [
          | inl c ↦ stream_left ev s c p ∙ h quiet
          | inr c ↦ other_left ev s c w ∙ h quiet
        ]
  ]
]

read_all_left :
    (ls : List (Option ClaudeLine)) (b : Bool) (s : Claude)
    → (b ≡ false → s.streaming ≡ [])
    → left_over b ls ≡ false
    → (read_all ls s).streaming ≡ []
unfolding read_all left_over
read_all_left [] b s h e = h e
read_all_left (none ∷ ls) b s h e = read_all_left ls b s h e
read_all_left (some ev ∷ ls) b s h e = read_all_left ls _ (on_line ev s) (line_left ev b s h) e

no_tail : (s : Claude) → s.streaming ≡ [] → with_tail s ≡ s.done
unfolding with_tail trim_newlines trim_left_by trim_right_by
no_tail s h = rw (h, with_tail) refl

-- An output in which every piece of text that streams in is followed by a message that comes whole: what is made
-- of it, the answer, the session, the counts and the error, is what would be made of it if nothing had
-- streamed in. No piece is counted twice and no message is lost to one.
pub parse_claude-without_deltas :
    (ls : List (Option ClaudeLine))
    → left_over false ls ≡ false
    → (parse_claude ls).0 ≡ (parse_claude (without_deltas ls)).0
unfolding parse_claude
parse_claude-without_deltas ls e =
    let h : (read_all ls new_claude).streaming ≡ [] =
      read_all_left ls false new_claude (λ _. unfold new_claude in refl) e in
    let s : Claude = read_all ls new_claude in
    let s' : Claude = read_all (without_deltas ls) new_claude in
    let same : core s ≡ core s' = read_all-core ls new_claude new_claude refl in
    let quiet : s'.streaming ≡ [] = read_all_quiet ls new_claude (unfold new_claude in refl) in
    let tails : with_tail s ≡ with_tail s' =
      no_tail s h ∙ unfold core in ap (λ z. z.done) same ∙ sym (no_tail s' quiet) in
    let parsed : s.parsed ≡ s'.parsed = unfold core in ap (λ z. z.parsed) same in
    let put : Parsed → List Text → Parsed = λ p ts. record p { text = join blank_line ts } in
    ap (λ p. put p (with_tail s)) parsed ∙ ap (put s'.parsed) tails
