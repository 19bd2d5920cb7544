-- ===== src/Agent/Runs.antt =====
-- Runs of the protobuf reader on concrete bytes.
use sparstrowgen.Prelude.{◌≡◌, refl, List, [], ◌∷◌, some, none}
use sparstrowgen.Prelude.Int.{pos}
use sparstrowgen.Prelude.{ℕ, Option, false, map}
use sparstrowgen.Text.{Text, codes}
use sparstrowgen.Agent.Agy.{AgyLine, parse_agy}
use sparstrowgen.Agent.Command.{agy_result}
use sparstrowgen.Agent.Record
use sparstrowgen.Agent.Record.{new_splitter, write_all}
use sparstrowgen.Agent.Record.Split.{shapes, kept_of, lines_from, all_bytes, end-write_all}
use sparstrowgen.Agent.Claude.{message_text, ClaudeLine, parse_claude}
use sparstrowgen.Agent.Claude.Streaming.{without_deltas, left_over, parse_claude-without_deltas}
use sparstrowgen.Agent.Codex.{CodexLine}
use sparstrowgen.Protocol.Turn.{ExchangeLine}
use sparstrowgen.Agent.Report.{Decoder}
use sparstrowgen.Agent.Protobuf.{Bytes, returned, panicked, Field, pb_fields, pb_string, pb_varint}
use sparstrowgen.Agent.Protobuf.Bounds.{pb_fields_panics}

-- Field 1 is the text "hi", field 3 the number 300.
abbrev section_bytes : Bytes
section_bytes = 10 ∷ 2 ∷ 104 ∷ 105 ∷ 24 ∷ 172 ∷ 2 ∷ []

abbrev section_fields : List Field
section_fields =
    record { num = 1; wire = 2; varint = 0; bytes = 104 ∷ 105 ∷ [] }
    ∷ record { num = 3; wire = 0; varint = 300; bytes = [] }
    ∷ []

section_read : pb_fields section_bytes ≡ returned section_fields
unfolding pb_fields
section_read = refl

section_name : pb_string section_bytes 1 ≡ returned (some (104 ∷ 105 ∷ []))
unfolding pb_string
section_name = refl

section_tokens : pb_varint section_bytes 3 ≡ returned (some 300)
unfolding pb_varint
section_tokens = refl

abbrev text_field : Field
text_field = record { num = 1; wire = 2; varint = 0; bytes = [] }

abbrev behind_length : Bytes
behind_length = 104 ∷ 105 ∷ 24 ∷ []

pb_fields_panics_example :
    pb_fields (10 ∷ 255 ∷ 255 ∷ 255 ∷ 255 ∷ 255 ∷ 255 ∷ 255 ∷ 255 ∷ 127 ∷ behind_length) ≡ panicked
pb_fields_panics_example = pb_fields_panics behind_length

-- A line of claude's that ends its turn: 5 fresh tokens read, 10 from the cache, and 3 written.
abbrev decoder : Decoder
decoder = record {
  claude = λ text. some (record {
    type = "result";
    subtype = "success";
    cwd = "";
    session_id = "s1";
    model = "";
    permission_mode = "";
    version = "";
    tools = [];
    skills = [];
    agents = [];
    mcp_servers = [];
    usage = some (record {
      input_tokens = pos 5;
      output_tokens = pos 3;
      cache_creation_input_tokens = pos 0;
      cache_read_input_tokens = pos 10;
    });
  });
  codex = λ text. none;
  agy = λ text. none;
  named = λ text. none;
  plain = λ text. none;
}

abbrev last_line : List ExchangeLine
last_line = record { seq = 1; at_ms = 5; stream = "stdout"; text = codes "{}" } ∷ []

-- A line in three pieces, its newline within the second, and a rest without one.
abbrev pieces : List (ℕ × Text)
pieces = (1, codes "he") ∷ (2, 108 ∷ 111 ∷ 13 ∷ 10 ∷ 119 ∷ []) ∷ (9, codes "orld") ∷ []

end-write_all_example :
    shapes (Record.end 12 (write_all pieces (new_splitter "stdout"))).emitted
    ≡ map kept_of (lines_from (all_bytes pieces) [])
end-write_all_example = end-write_all "stdout" pieces 12

abbrev claude_line : ClaudeLine
claude_line = record {
  type = "system";
  subtype = "init";
  session_id = "s1";
  is_error = false;
  result = [];
  event_type = "";
  delta_text = [];
  content = [];
  usage = record {
    input_tokens = pos 5;
    output_tokens = pos 3;
    cache_creation_input_tokens = pos 0;
    cache_read_input_tokens = pos 10;
  };
  cost = none;
  limit_status = "";
  limit_resets_at = pos 0;
  limit_type = "";
}

-- A session, a message that streams in and then comes whole, and the turn's result.
abbrev claude_output : List (Option ClaudeLine)
claude_output =
    some claude_line
    ∷ none
    ∷ some (record claude_line {
      type = "stream_event";
      event_type = "content_block_delta";
      delta_text = codes "hel";
    })
    ∷ some (record claude_line { type = "assistant"; content = ("text", codes "hello") ∷ [] })
    ∷ some (record claude_line { type = "result" })
    ∷ []

came_whole : left_over false claude_output ≡ false
unfolding left_over message_text
came_whole = refl

parse_claude-without_deltas_example :
    (parse_claude claude_output).0 ≡ (parse_claude (without_deltas claude_output)).0
parse_claude-without_deltas_example = parse_claude-without_deltas claude_output came_whole

abbrev codex_line : Text → CodexLine
codex_line text = record {
  type = "item.completed";
  thread_id = "";
  message = [];
  item_type = "agent_message";
  item_text = text;
  usage = record {
    input_tokens = pos 1;
    cached_input_tokens = pos 0;
    cache_write_input_tokens = pos 0;
    output_tokens = pos 1;
    reasoning_output_tokens = pos 0;
  };
}

abbrev codex_output : List (Option CodexLine)
codex_output =
    some (codex_line (10 ∷ []))
    ∷ some (codex_line (codes "one"))
    ∷ none
    ∷ some (codex_line (codes "two"))
    ∷ []

-- An answer that streams in, and a result that does not repeat it.
abbrev agy_line : AgyLine
agy_line = record {
  event = "step_update";
  conversation_id = "";
  text_delta = codes "hello";
  result_conversation_id = "";
  status = [];
  response = [];
  error = [];
  usage = record {
    input_tokens = pos 1;
    output_tokens = pos 1;
    thinking_tokens = pos 0;
    cache_read_tokens = pos 0;
    total_tokens = pos 2;
  };
  denied_actions = [];
}

abbrev agy_output : List (Option AgyLine)
agy_output =
    some agy_line
    ∷ none
    ∷ some (record agy_line { event = "result"; text_delta = []; status = codes "SUCCESS" })
    ∷ []

agy_succeeds : (agy_result (parse_agy agy_output).0 none false false none).err ≡ none
unfolding agy_result parse_agy
agy_succeeds = refl
