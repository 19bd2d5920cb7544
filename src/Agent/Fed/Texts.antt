-- ===== src/Agent/Fed/Texts.antt =====
-- fed.go: how pieces are named. The regular expressions, the JSON documents, base64 and the conversion
-- of bytes to text are given: `Decoder` has one function for each, which answers what the code takes
-- from a match or from a decoded value.
use sparstrowgen.Prelude.{
  List, [], ◌∷◌, ◌++◌, map, String, Option, some, none, Bool, ◌||◌, ltb, ◌==◌, nat_eq, string_eq,
  if◌then◌else◌, length, take,
}
use sparstrowgen.Prelude.Maps.{Map}
use sparstrowgen.Text.{concat, Text, codes, trim_space, trim_left_by}
use sparstrowgen.Agent.Parsed.{is_blank}
use sparstrowgen.Agent.Protobuf.{Bytes}

pub record ClaudeFile : Type 0 where
  pub path : Text
  pub type : Text
  pub content : Text

-- A json.RawMessage is the text that it holds.
pub record Attachment : Type 0 where
  pub type : String
  pub system_prompt : List Text
  pub tools : List Text
  pub cli_prefix : Text
  pub files : List ClaudeFile
  pub path : Text
  pub content : Text
  pub is_initial : Bool
  pub added_names : List Text
  pub added_blocks : List Text
  pub added_lines : List Text
  pub added_types : List Text
  pub removed_names : List Text
  pub removed_types : List Text

pub record Decoder : Type 0 where
  pub open_tag : Text → Option Text
  pub claude_skill : Text → Option Text
  pub whole_tag : Text → Option (Text × Text × Text)
  pub skill_root : Text → Option (Text × Text)
  pub codex_skill : Text → Option (Text × Text)
  pub lower : Text → Text
  pub indent : Text → Option Text
  pub string : Text → Option Text
  pub parts : Text → Option (List Text)
  pub part : Text → Option Text
  pub tool_name : Text → Text
  pub listing : Text → Text
  pub claude_document : Text → Option (Text × List Text)
  pub attachment : Text → Option Attachment
  pub claude_file : Text → Option ClaudeFile
  pub session_meta : Text → Option (Text × Text)
  pub message : Text → Option (List Text)
  pub world_state : Text → Option (List (Text × Text))
  pub turn_context : Text → Option (Map Text Text)
  pub marshal : Map Text Text → Text
  pub base64 : Text → Option Bytes
  pub to_text : Bytes → Text

-- What stands before the first line feed, if there is one.
unfoldable pub first_line : Text → Option Text
first_line [] = none
first_line (c ∷ s) =
    let rest = first_line s in
    if c == 10 then some [] else elim rest [ none ↦ none | some t ↦ some (c ∷ t) ]

abbrev cut_title : Text → Text
cut_title line =
    if ltb 60 (length line)
    then take 60 line ++ 0x2026 ∷ []
    else if is_blank line
    then codes "untitled"
    else line

unfoldable pub title : Decoder → Text → Text
unfolding trim_space trim_left_by first_line
title d text =
    let whole = trim_space text in
    let line : Text = elim (first_line whole) [ none ↦ whole | some l ↦ trim_space l ] in
    let bare = trim_left_by (λ c. c == b'#' || c == 32) line in
    elim (d.open_tag bare) [ some name ↦ name | none ↦ cut_title bare ]

unfoldable pub pretty : Decoder → Text → Text
pretty d raw = elim (d.indent raw) [ none ↦ raw | some out ↦ out ]

-- What follows the last slash of either kind; all of it if there is none.
unfoldable pub file_name : Text → Text
file_name [] = []
file_name (c ∷ s) =
    let rest = file_name s in
    if (c == b'/' || c == 92) || ltb (length rest) (length s) then rest else c ∷ s

unfoldable pub text_of : Decoder → Text → Text
text_of d raw = elim (d.string raw) [
  | some s ↦ s
  | none ↦ elim (d.parts raw) [
    | some ps ↦ concat ps
    | none ↦ elim (d.part raw) [ some p ↦ p | none ↦ [] ]
  ]
]

unfoldable pub rendered_texts : Decoder → List Text → List Text
unfolding text_of
rendered_texts d [] = []
rendered_texts d (r ∷ rs) =
    let more = rendered_texts d rs in if is_blank (text_of d r) then more else text_of d r ∷ more

unfoldable pub or_text : Decoder → Text → Text → Text
unfolding pretty
or_text d shown raw = if is_blank shown then pretty d raw else shown

unfoldable pub or_name : Text → Text → Text
or_name name fallback = if is_blank name then fallback else name

-- strings.ReplaceAll(_, "_", " ").
unfoldable pub spaced : Text → Text
spaced s = map (λ c. if c == b'_' then 32 else c) s
