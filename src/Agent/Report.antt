-- ===== src/Agent/Report.antt =====
-- report.go: what a CLI said about itself in one turn, read from the lines it printed. A line's text is
-- the list of its bytes. json.Unmarshal is a parameter, which answers none where it answers an error.
pub mod Reading
use sparstrowgen.Prelude.{
  ℕ, String, List, [], ◌∷◌, ◌++◌, Option, some, none, Bool, true, false, not, ◌&&◌, ◌||◌, ◌==◌,
  string_eq, nat_eq, if◌then◌else◌, is_some,
}
use sparstrowgen.Prelude.Int.{ℤ, pos, ltz, add64}
use sparstrowgen.Text.{Text}
use sparstrowgen.Protocol.Turn.{ExchangeLine}
use sparstrowgen.Protocol.Report.{ExchangeUsage, ExchangeReport, no_report}

-- claude.go, codex.go and agy.go: what each CLI counts.
pub record ClaudeUsage : Type 0 where
  pub input_tokens : ℤ
  pub output_tokens : ℤ
  pub cache_creation_input_tokens : ℤ
  pub cache_read_input_tokens : ℤ

pub record CodexUsage : Type 0 where
  pub input_tokens : ℤ
  pub cached_input_tokens : ℤ
  pub cache_write_input_tokens : ℤ
  pub output_tokens : ℤ
  pub reasoning_output_tokens : ℤ

pub record AgyUsage : Type 0 where
  pub input_tokens : ℤ
  pub output_tokens : ℤ
  pub thinking_tokens : ℤ
  pub cache_read_tokens : ℤ
  pub total_tokens : ℤ

unfoldable pub claude_total : ClaudeUsage → ℤ
unfolding add64
claude_total u =
    add64 (add64 (add64 u.input_tokens u.output_tokens) u.cache_creation_input_tokens)
      u.cache_read_input_tokens

unfoldable pub codex_total : CodexUsage → ℤ
unfolding add64
codex_total u = add64 u.input_tokens u.output_tokens

unfoldable pub agy_total : AgyUsage → ℤ
unfolding add64
agy_total u =
    if ltz (pos 0) u.total_tokens
    then u.total_tokens
    else add64 (add64 (add64 u.input_tokens u.output_tokens) u.thinking_tokens) u.cache_read_tokens

-- The anonymous structs that a line is decoded into.
pub record ClaudeEvent : Type 0 where
  pub type : String
  pub subtype : String
  pub cwd : String
  pub session_id : String
  pub model : String
  pub permission_mode : String
  pub version : String
  pub tools : List String
  pub skills : List String
  pub agents : List String
  pub mcp_servers : List Text
  pub usage : Option ClaudeUsage

pub record CodexEvent : Type 0 where
  pub type : String
  pub thread_id : String
  pub usage : Option CodexUsage

pub record AgyEvent : Type 0 where
  pub event : String
  pub conversation_id : String
  pub init_cwd : String
  pub usage : Option AgyUsage

-- json.Unmarshal into each of them, and into names' struct, for its Name, and string.
pub record Decoder : Type 0 where
  pub claude : Text → Option ClaudeEvent
  pub codex : Text → Option CodexEvent
  pub agy : Text → Option AgyEvent
  pub named : Text → Option String
  pub plain : Text → Option String

unfoldable pub server_name : Option String → Option String → Option String
server_name named plain = elim named [
  | none ↦ elim plain [ none ↦ none | some p ↦ if p == "" then none else some p ]
  | some n ↦
      if not (n == "")
      then some n
      else elim plain [ none ↦ none | some p ↦ if p == "" then none else some p ]
]

unfoldable pub names : Decoder → List Text → List String
unfolding server_name
names d [] = []
names d (r ∷ raw) =
    let rest = names d raw in
    elim (server_name (d.named r) (d.plain r)) [ none ↦ rest | some n ↦ n ∷ rest ]

pub record Reporter : Type 0 where
  pub provider : String
  pub r : ExchangeReport

unfoldable pub new_reporter : String → Reporter
new_reporter provider = record { provider = provider; r = no_report }

-- The results of the cases; a line that no case reads changes nothing.
abbrev pub Read : Type 0
Read = ExchangeReport × Bool

unfoldable pub claude_usage : ClaudeUsage → ExchangeUsage
unfolding add64
claude_usage u =
    let input =
      add64 (add64 u.input_tokens u.cache_creation_input_tokens) u.cache_read_input_tokens in
    record {
      input = input;
      from_cache = some u.cache_read_input_tokens;
      to_cache = some u.cache_creation_input_tokens;
      output = u.output_tokens;
      reasoning = none;
      total = add64 input u.output_tokens;
    }

unfoldable pub claude_event : Decoder → ClaudeEvent → ExchangeReport → Read
unfolding names claude_usage
claude_event d ev r =
    if ev.type == "system" && ev.subtype == "init"
    then (
      record r {
        cli_version = ev.version;
        model = ev.model;
        permission_mode = ev.permission_mode;
        cwd = ev.cwd;
        session_id = ev.session_id;
        tools = ev.tools;
        skills = ev.skills;
        agents = ev.agents;
        mcp_servers = names d ev.mcp_servers;
      },
      true,
    )
    else elim ev.usage [
      | none ↦ (r, false)
      | some u ↦
          if ev.type == "result"
          then (record r { usage = some (claude_usage u) }, true)
          else (r, false)
    ]

unfoldable pub codex_usage : CodexUsage → ExchangeUsage
unfolding codex_total
codex_usage u = record {
  input = u.input_tokens;
  from_cache = some u.cached_input_tokens;
  to_cache = some u.cache_write_input_tokens;
  output = u.output_tokens;
  reasoning = some u.reasoning_output_tokens;
  total = codex_total u;
}

unfoldable pub codex_event : CodexEvent → ExchangeReport → Read
unfolding codex_usage
codex_event ev r =
    if ev.type == "thread.started" && not (ev.thread_id == "")
    then (record r { session_id = ev.thread_id }, true)
    else elim ev.usage [
      | none ↦ (r, false)
      | some u ↦
          if ev.type == "turn.completed"
          then (record r { usage = some (codex_usage u) }, true)
          else (r, false)
    ]

unfoldable pub agy_usage : AgyUsage → ExchangeUsage
unfolding add64 agy_total
agy_usage u = record {
  input = u.input_tokens;
  from_cache = some u.cache_read_tokens;
  to_cache = none;
  output = add64 u.output_tokens u.thinking_tokens;
  reasoning = some u.thinking_tokens;
  total = agy_total u;
}

unfoldable pub agy_event : AgyEvent → ExchangeReport → Read
unfolding agy_usage
agy_event ev r =
    if ev.event == "init"
    then (record r { session_id = ev.conversation_id; cwd = ev.init_cwd }, true)
    else elim ev.usage [
      | none ↦ (r, false)
      | some u ↦
          if ev.event == "result"
          then (record r { usage = some (agy_usage u) }, true)
          else (r, false)
    ]

-- The methods claude, codex and agy: their decoding, and their cases.
unfoldable pub claude : Decoder → Text → ExchangeReport → Read
unfolding claude_event
claude d text r = elim (d.claude text) [ none ↦ (r, false) | some ev ↦ claude_event d ev r ]

unfoldable pub codex : Decoder → Text → ExchangeReport → Read
unfolding codex_event
codex d text r = elim (d.codex text) [ none ↦ (r, false) | some ev ↦ codex_event ev r ]

unfoldable pub agy : Decoder → Text → ExchangeReport → Read
unfolding agy_event
agy d text r = elim (d.agy text) [ none ↦ (r, false) | some ev ↦ agy_event ev r ]

-- `text == "" || text[0] != '{'`
abbrev pub is_object : Text → Bool
is_object [] = false
is_object (b ∷ text) = b == 123

unfoldable pub read_line : Decoder → String → Text → ExchangeReport → Read
unfolding claude codex agy
read_line d provider text r =
    if provider == "claude"
    then claude d text r
    else if provider == "codex"
    then codex d text r
    else if provider == "agy"
    then agy d text r
    else (r, false)

unfoldable pub add : Decoder → String → Text → Reporter → Reporter × Bool
unfolding read_line
add d stream text x =
    if stream == "stdout" && is_object text
    then (let (r, changed) = read_line d x.provider text x.r in (record x { r = r }, changed))
    else (x, false)

-- The loop of Report, and of the server's over live lines.
unfoldable pub add_lines : Decoder → List ExchangeLine → Reporter → Reporter × Bool
unfolding add
add_lines d [] x = (x, false)
add_lines d (l ∷ ls) x =
    let (x', changed) = add d l.stream l.text x in
    let (x'', later) = add_lines d ls x' in (x'', changed || later)

unfoldable pub report : Decoder → String → List ExchangeLine → ExchangeReport
unfolding add_lines new_reporter
report d provider lines = (add_lines d lines (new_reporter provider)).0.r
