-- ===== src/Agent/Codex.antt =====
-- codex.go: the parser of codex's output, on what each line is decoded to.
pub mod Paragraphs
use sparstrowgen.Prelude.{
  ◌+◌, String, List, [], ◌∷◌, ◌++◌, Option, some, none, Bool, true, false, not, ◌&&◌, ◌==◌,
  string_eq, if◌then◌else◌,
}
use sparstrowgen.Text.{Text, codes, trim_newlines}
use sparstrowgen.Daemon.RunTurn.{Event, starts}
use sparstrowgen.Agent.Report.{CodexUsage, codex_total}
use sparstrowgen.Agent.Parsed.{Parsed, no_parsed, is_blank, blank_line}

-- codexEvent.
pub record CodexLine : Type 0 where
  pub type : String
  pub thread_id : String
  pub message : Text
  pub item_type : String
  pub item_text : Text
  pub usage : CodexUsage

-- The variables of parseCodex, with what has been sent.
pub record Codex : Type 0 where
  pub parsed : Parsed
  pub full : Text
  pub out : List Event

unfoldable pub add_message : Text → Text → Text
unfolding trim_newlines
add_message full text =
    if is_blank full then trim_newlines text else full ++ blank_line ++ trim_newlines text

unfoldable pub is_message : CodexLine → Bool
is_message ev = ev.item_type == "agent_message" && not (is_blank ev.item_text)

unfoldable pub on_line : CodexLine → Codex → Codex
unfolding add_message is_message codex_total
on_line ev s =
    if ev.type == "thread.started"
    then (if ev.thread_id == "" then s else record s {
      parsed = record s.parsed { session_id = ev.thread_id };
      out = s.out ++ (starts ev.thread_id ∷ []);
    })
    else if ev.type == "item.completed"
    then (if is_message ev then record s { full = add_message s.full ev.item_text } else s)
    else if ev.type == "turn.completed"
    then record s { parsed = record s.parsed { tokens = codex_total ev.usage } }
    else if ev.type == "error"
    then record s { parsed = record s.parsed { err = some (codes "codex: " ++ ev.message) } }
    else s

unfoldable pub read_all : List (Option CodexLine) → Codex → Codex
unfolding on_line
read_all [] s = s
read_all (none ∷ ls) s = read_all ls s
read_all (some ev ∷ ls) s = read_all ls (on_line ev s)

unfoldable pub parse_codex : List (Option CodexLine) → Parsed × List Event
unfolding read_all no_parsed
parse_codex ls =
    let s = read_all ls (record { parsed = no_parsed; full = []; out = [] }) in
    (record s.parsed { text = s.full }, s.out)
