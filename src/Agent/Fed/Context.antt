-- ===== src/Agent/Fed/Context.antt =====
-- fed.go: FedContext, over the readers of the three agents' documents.
pub mod Listed
use sparstrowgen.Prelude.{
  ℕ, List, [], ◌∷◌, ◌++◌, String, Option, some, none, Bool, true, false, not, ◌&&◌, ◌||◌, ltb, ◌==◌,
  string_eq, nat_eq, if◌then◌else◌,
}
use sparstrowgen.Prelude.Maps.{Map, lookup, insert}
use sparstrowgen.Prelude.Int.{ℤ, of_bits64}
use sparstrowgen.Text.{Text, codes, text_eq, trim_space, split, join}
use sparstrowgen.Text.Equality.{text_eq_instance}
use sparstrowgen.Protocol.Turn.{ContextDocument}
use sparstrowgen.Agent.Parsed.{is_blank, blank_line}
use sparstrowgen.Agent.Protobuf.{
  Bytes, Result, returned, not_protobuf, panicked, pb_all, pb_first, pb_string, pb_varint,
}
use sparstrowgen.Agent.Fed.{
  Kind, instructions, file, skill, tool, server, agent, environment, other, Piece,
}
use sparstrowgen.Agent.Fed.Texts.{Decoder, title, pretty, file_name, text_of, or_name, spaced}
use sparstrowgen.Agent.Fed.Documents.{Ops, each, same, claude}
use sparstrowgen.Agent.Fed.Codex.{codex}
use sparstrowgen.Agent.Fed.Agy.{AgyPart, agy_parts, ◌>>=◌}

module _ {F : Type 0} (o : Ops F) (d : Decoder) where
  abbrev pub put_part : AgyPart → F → F
  put_part p = o.put p.kind p.name [] p.text p.tokens

  unfoldable pub agy : Text → F → Result F
  unfolding agy_parts
  agy body f = do parts ← agy_parts d body; returned (each put_part parts f)

  unfoldable pub read_document : ContextDocument → F → Result F
  unfolding agy codex claude
  read_document doc f =
      if doc.kind == "claude.attachment"
      then returned (claude o d doc.body f)
      else if doc.kind == "codex.session_meta"
          || doc.kind == "codex.message"
          || doc.kind == "codex.world_state"
          || doc.kind == "codex.turn_context"
      then returned (codex o d doc.kind doc.body f)
      else if doc.kind == "agy.gen_metadata"
      then agy doc.body f
      else returned (o.put other (codes doc.kind) [] doc.body none f)

  unfoldable pub read_documents : List ContextDocument → F → Result F
  unfolding read_document
  read_documents [] f = returned f
  read_documents (doc ∷ docs) f = do f' ← read_document doc f; read_documents docs f'

  unfoldable pub missing : String → F → List Text
  missing provider f =
      if provider == "claude"
      then (if ltb 0 (o.count skill f)
          then codes "claude does not record which file each skill comes from." ∷ []
          else [])
      else if provider == "codex"
      then codes "codex does not record its tool definitions, so none are shown." ∷ []
      else if provider == "agy"
      then (if o.has_name file (codes "user rules") f
          then codes "agy does not record which files its user rules came from." ∷ []
          else [])
      else []

  unfoldable pub fed_context : String → List ContextDocument → Result (List Piece × List Text)
  unfolding read_documents missing
  fed_context provider docs = do
    f ← read_documents docs o.none_yet
    returned (o.sorted f, missing provider f)
