-- ===== src/Agent/Fed/Runs.antt =====
-- FedContext on records of codex.
use sparstrowgen.Prelude.{◌≡◌, refl, ◌∷◌, [], List, some, none}
use sparstrowgen.Text.{Text, codes, text_eq}
use sparstrowgen.Protocol.Turn.{ContextDocument}
use sparstrowgen.Agent.Protobuf.{returned}
use sparstrowgen.Agent.Fed.{instructions, other, put, remove, clear, sorted, empty}
use sparstrowgen.Agent.Fed.Texts.{Decoder}
use sparstrowgen.Agent.Fed.Documents.{fed_ops}
use sparstrowgen.Agent.Fed.Context.{fed_context}
use sparstrowgen.Agent.Fed.Context.Listed.{list_ops, fed_context-plain}

-- Every document is one message without a tag.
abbrev untagged : Decoder
untagged = record {
  open_tag = λ t. none;
  claude_skill = λ t. none;
  whole_tag = λ t. none;
  skill_root = λ t. none;
  codex_skill = λ t. none;
  lower = λ t. t;
  indent = λ t. none;
  string = some;
  parts = λ t. none;
  part = λ t. none;
  tool_name = λ t. t;
  listing = λ t. t;
  claude_document = λ t. none;
  attachment = λ t. none;
  claude_file = λ t. none;
  session_meta = λ t. none;
  message = λ t. some (t ∷ []);
  world_state = λ t. none;
  turn_context = λ t. none;
  marshal = λ m. [];
  base64 = λ t. none;
  to_text = λ b. b;
}

abbrev message : Text → ContextDocument
message t = record { kind = "codex.message"; body = t }

-- The third message takes the first one's place.
abbrev rules : List ContextDocument
rules =
    message (codes "# Rules")
    ∷ record { kind = "codex.new"; body = codes "x" }
    ∷ message (codes "## Rules ")
    ∷ []

fed_context-plain_example :
    fed_context fed_ops untagged "codex" rules ≡ fed_context list_ops untagged "codex" rules
fed_context-plain_example = fed_context-plain untagged "codex" rules

rules_read :
    fed_context fed_ops untagged "codex" rules
    ≡ returned (
      record {
        kind = instructions;
        name = codes "Rules";
        source = [];
        text = codes "## Rules ";
        chars = 9;
        tokens = none;
      }
          ∷ record {
            kind = other;
            name = codes "codex.new";
            source = [];
            text = codes "x";
            chars = 1;
            tokens = none;
          }
          ∷ [],
      codes "codex does not record its tool definitions, so none are shown." ∷ [],
    )
unfolding fed_context put remove clear sorted empty text_eq
rules_read = refl
