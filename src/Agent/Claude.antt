-- ===== src/Agent/Claude.antt =====
-- claude.go: the parser of claude's output. Scanner and json.Unmarshal are outside: an input is what
-- each line is decoded to, or none. Its cost in ticks is given where total_cost_usd is above zero.
pub mod Streaming
pub mod Session
use sparstrowgen.Prelude.{
  ℕ, ◌+◌, String, List, [], ◌∷◌, ◌++◌, Option, some, none, Bool, true, false, not, ◌&&◌, ◌||◌, ◌==◌,
  string_eq, if◌then◌else◌,
}
use sparstrowgen.Prelude.Int.{ℤ, pos}
use sparstrowgen.Text.{Text, codes, trim_newlines, join, contains}
use sparstrowgen.Text.Decimal.{print}
use sparstrowgen.Protocol.{Headroom}
use sparstrowgen.Daemon.RunTurn.{Event, starts, streams, limits}
use sparstrowgen.Agent.Report.{ClaudeUsage, claude_total}
use sparstrowgen.Agent.Parsed.{Parsed, no_parsed, is_blank, blank_line}

-- claudeEvent.
pub record ClaudeLine : Type 0 where
  pub type : String
  pub subtype : String
  pub session_id : String
  pub is_error : Bool
  pub result : Text
  pub event_type : String
  pub delta_text : Text
  pub content : List (String × Text)
  pub usage : ClaudeUsage
  pub cost : Option ℤ
  pub limit_status : String
  pub limit_resets_at : ℤ
  pub limit_type : String

-- The variables of parseClaude, with what has been sent.
pub record Claude : Type 0 where
  pub parsed : Parsed
  pub done : List Text
  pub streaming : Text
  pub retries : ℕ
  pub out : List Event

unfoldable pub text_parts : List (String × Text) → List Text
unfolding trim_newlines
text_parts [] = []
text_parts ((type, text) ∷ content) =
    let rest = text_parts content in
    if type == "text" && not (is_blank text) then trim_newlines text ∷ rest else rest

unfoldable pub message_text : List (String × Text) → Text
unfolding join text_parts
message_text content = join blank_line (text_parts content)

unfoldable pub claude_error : Text → ℕ → Text
unfolding contains print
claude_error result retries =
    if contains (codes "OAuth") result || contains (codes "authenticate") result
    then codes "claude is not authenticated ("
      ++ print retries
      ++ codes
          " retries). Its stored token has expired and only the desktop app refreshes it. Run `claude setup-token` and save the token with `setx CLAUDE_CODE_OAUTH_TOKEN`; the next turn uses it, no restart needed — see docs/runbooks/claude-headless-auth.md"
    else if not (is_blank result)
    then codes "claude: " ++ result
    else codes "claude reported an error after " ++ print retries ++ codes " retries"

-- The cases of the loop's switch.
unfoldable pub on_system : ClaudeLine → Claude → Claude
on_system ev s =
    if ev.subtype == "init"
    then (if not (ev.session_id == "") && s.parsed.session_id == ""
        then record s {
          parsed = record s.parsed { session_id = ev.session_id };
          out = s.out ++ (starts ev.session_id ∷ []);
        }
        else s)
    else if ev.subtype == "api_retry"
    then record s { retries = s.retries + 1 }
    else s

unfoldable pub on_rate_limit : ClaudeLine → Claude → Claude
on_rate_limit ev s = if ev.limit_type == "" then s else record s {
  out =
      s.out
      ++ (limits (
            some (record {
              status = ev.limit_status;
              resets_at = ev.limit_resets_at;
              window = ev.limit_type;
            }))
          ∷ []);
}

unfoldable pub on_stream : ClaudeLine → Claude → Claude
on_stream ev s =
    if ev.event_type == "content_block_delta" && not (is_blank ev.delta_text)
    then record s {
      streaming = s.streaming ++ ev.delta_text;
      out = s.out ++ (streams ev.delta_text ∷ []);
    }
    else s

unfoldable pub on_assistant : ClaudeLine → Claude → Claude
unfolding message_text trim_newlines
on_assistant ev s =
    let text = message_text ev.content in
    if is_blank text
    then s
    else record s { done = s.done ++ (trim_newlines text ∷ []); streaming = [] }

abbrev pub spend_of : Option ℤ → ℤ → ℤ
spend_of none old = old
spend_of (some ticks) old = ticks

unfoldable pub on_result : ClaudeLine → Claude → Claude
unfolding claude_total claude_error
on_result ev s = record s {
  parsed = record s.parsed {
    tokens = claude_total ev.usage;
    spend_ticks = spend_of ev.cost s.parsed.spend_ticks;
    err = if ev.is_error then some (claude_error ev.result s.retries) else s.parsed.err;
  };
}

unfoldable pub on_line : ClaudeLine → Claude → Claude
unfolding on_system on_rate_limit on_stream on_assistant on_result
on_line ev s =
    if ev.type == "system"
    then on_system ev s
    else if ev.type == "rate_limit_event"
    then on_rate_limit ev s
    else if ev.type == "stream_event"
    then on_stream ev s
    else if ev.type == "assistant"
    then on_assistant ev s
    else if ev.type == "result"
    then on_result ev s
    else s

unfoldable pub read_all : List (Option ClaudeLine) → Claude → Claude
unfolding on_line
read_all [] s = s
read_all (none ∷ ls) s = read_all ls s
read_all (some ev ∷ ls) s = read_all ls (on_line ev s)

unfoldable pub new_claude : Claude
unfolding no_parsed
new_claude = record { parsed = no_parsed; done = []; streaming = []; retries = 0; out = [] }

unfoldable pub with_tail : Claude → List Text
unfolding trim_newlines
with_tail s =
    let tail = trim_newlines s.streaming in if is_blank tail then s.done else s.done ++ (tail ∷ [])

unfoldable pub parse_claude : List (Option ClaudeLine) → Parsed × List Event
unfolding read_all new_claude with_tail join
parse_claude ls =
    let s = read_all ls new_claude in
    (record s.parsed { text = join blank_line (with_tail s) }, s.out)
