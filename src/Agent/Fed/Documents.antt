-- ===== src/Agent/Fed/Documents.antt =====
-- fed.go: the reader of claude's documents. It reaches the pieces through `Ops`
-- alone; `fed_ops` is the code's own.
pub mod Reading
use sparstrowgen.Prelude.{
  ℕ, suc, ◌+◌, List, [], ◌∷◌, ◌++◌, map, String, Option, some, none, Bool, true, false, not, ◌&&◌,
  ◌||◌, ltb, ◌==◌, string_eq, if◌then◌else◌,
}
use sparstrowgen.Prelude.Maps.{Map, lookup, insert}
use sparstrowgen.Prelude.Int.{ℤ, of_bits64}
use sparstrowgen.Text.{Text, codes, text_eq, trim_space, split, join}
use sparstrowgen.Text.Equality.{text_eq_instance}
use sparstrowgen.Text.Decimal.{print}
use sparstrowgen.Protocol.Turn.{ContextDocument}
use sparstrowgen.Agent.Parsed.{is_blank, blank_line}
use sparstrowgen.Agent.Protobuf.{
  Bytes, Result, returned, not_protobuf, panicked, pb_all, pb_first, pb_string, pb_varint,
}
use sparstrowgen.Agent.Fed.{
  Kind, instructions, file, skill, tool, deferred, server, agent, environment, other, Piece, Fed,
  empty, put, remove, clear, count, has_name, sorted,
}
use sparstrowgen.Agent.Fed.Texts.{
  Decoder, Attachment, ClaudeFile, title, pretty, file_name, text_of, or_text, or_name, spaced,
  rendered_texts,
}

pub record Ops (F : Type 0) : Type 0 where
  pub none_yet : F
  pub put : Kind → Text → Text → Text → Option ℤ → F → F
  pub remove : Kind → Text → F → F
  pub clear : Kind → F → F
  pub count : Kind → F → ℕ
  pub has_name : Kind → Text → F → Bool
  pub sorted : F → List Piece

abbrev pub fed_ops : Ops Fed
fed_ops = record {
  none_yet = empty;
  put = put;
  remove = remove;
  clear = clear;
  count = count;
  has_name = has_name;
  sorted = sorted;
}

-- A loop over a list.
abbrev pub each {ℓ} : {A : Type ℓ} {F : Type 0} → (A → F → F) → List A → F → F
each step [] f = f
each step (x ∷ xs) f = each step xs (step x f)

abbrev pub same : {F : Type 0} → F → F
same f = f

-- claude: one attachment.
module _ {F : Type 0} (o : Ops F) (d : Decoder) where
  unfoldable pub put_file : ClaudeFile → F → F
  unfolding file_name
  put_file c =
      let name = file_name c.path in
      o.put file (if is_blank c.type then name else name ++ 32 ∷ 0xb7 ∷ 32 ∷ d.lower c.type) c.path
        c.content none

  -- The sections of a snapshot, from the one with index `i` on.
  unfoldable pub put_sections : ℕ → List Text → F → F
  unfolding text_of title
  put_sections i [] f = f
  put_sections i (raw ∷ raws) f =
      let text = text_of d raw in
      let name = title d text in
      let shown =
        if o.has_name instructions name f
        then name ++ codes " (" ++ print (i + 1) ++ codes ")"
        else name in
      put_sections (suc i) raws (o.put instructions shown [] text none f)

  unfoldable pub put_tool : Text → F → F
  unfolding or_name pretty
  put_tool raw =
      o.put tool (or_name (d.tool_name raw) (codes "unnamed tool")) [] (pretty d raw) none

  unfoldable pub put_tools : List Text → F → F
  unfolding put_tool
  put_tools [] = same
  put_tools (t ∷ ts) = λ f. each put_tool (t ∷ ts) (o.clear tool f)

  unfoldable pub snapshot : Attachment → F → F
  unfolding put_sections put_tools
  snapshot a f =
      let cleared = o.clear instructions f in
      let opened =
        if is_blank a.cli_prefix
        then cleared
        else o.put instructions (codes "opening line") [] a.cli_prefix none cleared in
      put_tools a.tools (put_sections 0 a.system_prompt opened)

  unfoldable pub nested_memory : Attachment → Text → F → F
  unfolding put_file file_name
  nested_memory a shown = elim (d.claude_file a.content) [
    | none ↦ o.put file (file_name a.path) a.path shown none
    | some c ↦
        if is_blank c.content then o.put file (file_name a.path) a.path shown none else put_file c
  ]

  unfoldable pub put_skill : Text → F → F
  put_skill line = elim (d.claude_skill line) [
    | none ↦ same
    | some name ↦ o.put skill name [] (trim_space line) none
  ]

  unfoldable pub skill_listing : Attachment → F → F
  unfolding put_skill
  skill_listing a f =
      each put_skill (split 10 (d.listing a.content)) (if a.is_initial then o.clear skill f else f)

  -- A name beyond the blocks is skipped.
  unfoldable pub put_servers : List Text → List Text → F → F
  put_servers [] blocks f = f
  put_servers (n ∷ ns) [] f = f
  put_servers (n ∷ ns) (b ∷ bs) f = put_servers ns bs (o.put server n [] b none f)

  unfoldable pub put_deferred : List Text → List Text → F → F
  put_deferred [] lines f = f
  put_deferred (n ∷ ns) [] f = put_deferred ns [] (o.put deferred n [] n none f)
  put_deferred (n ∷ ns) (l ∷ ls) f =
      put_deferred ns ls (o.put deferred n [] (if is_blank l then n else l) none f)

  unfoldable pub put_agents : List Text → List Text → F → F
  put_agents [] lines f = f
  put_agents (n ∷ ns) [] f = put_agents ns [] (o.put agent n [] n none f)
  put_agents (n ∷ ns) (l ∷ ls) f = put_agents ns ls (o.put agent n [] l none f)

  unfoldable pub attach : Attachment → Text → Text → F → F
  unfolding snapshot put_file nested_memory skill_listing put_servers put_deferred put_agents
      or_text spaced
  attach a shown raw =
      if a.type == "prompt_snapshot"
      then snapshot a
      else if a.type == "instructions"
      then each put_file a.files
      else if a.type == "nested_memory"
      then nested_memory a shown
      else if a.type == "skill_listing"
      then skill_listing a
      else if a.type == "invoked_skills"
      then o.put skill (codes "skills loaded in full") [] shown none
      else if a.type == "mcp_instructions_delta"
      then (λ f.
          each (o.remove server) a.removed_names (put_servers a.added_names a.added_blocks f))
      else if a.type == "deferred_tools_delta"
      then (λ f.
          each (o.remove deferred) a.removed_names (put_deferred a.added_names a.added_lines f))
      else if a.type == "agent_listing_delta"
      then (λ f. each (o.remove agent) a.removed_types (put_agents a.added_types a.added_lines f))
      else if a.type == "environment"
          || a.type == "session_context"
          || a.type == "model"
          || a.type == "date"
          || a.type == "command_permissions"
          || a.type == "auto_mode"
      then o.put environment (spaced (codes a.type)) [] (or_text d shown raw) none
      else if a.type == "hook_additional_context"
      then o.put other (codes "added by a hook") [] (or_text d shown raw) none
      else o.put other (codes a.type) [] (or_text d shown raw) none

  unfoldable pub claude : Text → F → F
  unfolding attach rendered_texts
  claude body = elim (d.claude_document body) [
    | none ↦ same
    | some (raw, rendered) ↦ elim (d.attachment raw) [
      | none ↦ same
      | some a ↦ attach a (join blank_line (rendered_texts d rendered)) raw
    ]
  ]
