-- ===== src/Agent/Agy.antt =====
-- agy.go: the parser of agy's output, on what each line is decoded to, and the check of a model.
use sparstrowgen.Prelude.{
  String, List, [], ◌∷◌, ◌++◌, Option, some, none, Bool, true, false, not, ◌&&◌, ◌==◌, string_eq,
  if◌then◌else◌,
}
use sparstrowgen.Text.{Text, codes, trim_right_by, text_eq, join}
use sparstrowgen.Daemon.RunTurn.{Event, starts, streams}
use sparstrowgen.Protocol.{Model}
use sparstrowgen.Prelude.{nat_eq}
use sparstrowgen.Agent.Report.{AgyUsage, agy_total}
use sparstrowgen.Agent.Parsed.{Parsed, no_parsed, is_blank}

pub record DeniedAction : Type 0 where
  pub action : Text
  pub display_name : Text

-- agyEvent.
pub record AgyLine : Type 0 where
  pub event : String
  pub conversation_id : String
  pub text_delta : Text
  pub result_conversation_id : String
  pub status : Text
  pub response : Text
  pub error : Text
  pub usage : AgyUsage
  pub denied_actions : List DeniedAction

-- The variables of parseAgy, with what has been sent.
pub record Agy : Type 0 where
  pub parsed : Parsed
  pub streamed : Text
  pub final : Text
  pub status : Text
  pub failure : Text
  pub denied : List Text
  pub out : List Event

unfoldable pub denied_names : List DeniedAction → List Text
denied_names [] = []
denied_names (d ∷ ds) =
    let rest = denied_names ds in
    if not (is_blank d.display_name)
    then d.display_name ∷ rest
    else if not (is_blank d.action)
    then d.action ∷ rest
    else rest

unfoldable pub on_agy_result : AgyLine → Agy → Agy
unfolding agy_total denied_names
on_agy_result ev s = record s {
  status = ev.status;
  failure = ev.error;
  final = ev.response;
  parsed = record s.parsed {
    tokens = agy_total ev.usage;
    session_id =
        if ev.result_conversation_id == "" then s.parsed.session_id else ev.result_conversation_id;
  };
  denied = s.denied ++ denied_names ev.denied_actions;
}

unfoldable pub on_agy_line : AgyLine → Agy → Agy
unfolding on_agy_result
on_agy_line ev s =
    if ev.event == "init"
    then (if ev.conversation_id == "" then s else record s {
      parsed = record s.parsed { session_id = ev.conversation_id };
      out = s.out ++ (starts ev.conversation_id ∷ []);
    })
    else if ev.event == "step_update"
    then (if is_blank ev.text_delta then s else record s {
      streamed = s.streamed ++ ev.text_delta;
      out = s.out ++ (streams ev.text_delta ∷ []);
    })
    else if ev.event == "result"
    then on_agy_result ev s
    else s

unfoldable pub read_agy : List (Option AgyLine) → Agy → Agy
unfolding on_agy_line
read_agy [] s = s
read_agy (none ∷ ls) s = read_agy ls s
read_agy (some ev ∷ ls) s = read_agy ls (on_agy_line ev s)

-- strings.TrimRight(final, "\n"), or what was streamed.
unfoldable pub agy_text : Agy → Text
unfolding trim_right_by
agy_text s =
    let text = trim_right_by (λ c. c == 10) s.final in if is_blank text then s.streamed else text

abbrev pub comma : Text
comma = codes ", "

unfoldable pub agy_error : Agy → Text → Option Text
unfolding text_eq join
agy_error s text =
    if not (is_blank s.status) && not (text_eq s.status (codes "SUCCESS"))
    then (if not (is_blank s.failure)
        then some (codes "agy failed: " ++ s.failure)
        else some (codes "agy finished with status " ++ s.status))
    else if is_blank text
    then elim s.denied [
      | [] ↦ s.parsed.err
      | d ∷ ds ↦ some (
          codes "agy stopped without answering: it needed permission to use "
          ++ join comma (d ∷ ds)
          ++ codes ", which sparstrowgen does not give agy yet")
    ]
    else s.parsed.err

unfoldable pub parse_agy : List (Option AgyLine) → Parsed × List Event
unfolding read_agy no_parsed agy_text agy_error
parse_agy ls =
    let s = read_agy ls (record {
      parsed = no_parsed;
      streamed = [];
      final = [];
      status = [];
      failure = [];
      denied = [];
      out = [];
    }) in
    let text = agy_text s in (record s.parsed { text = text; err = agy_error s text }, s.out)

-- The model's names, and whether the catalogue has it.
abbrev ids : List Model → List Text
ids [] = []
ids (m ∷ ms) = codes m.id ∷ ids ms

abbrev has_model : String → List Model → Bool
has_model model [] = false
has_model model (m ∷ ms) = let more = has_model model ms in if m.id == model then true else more

-- `quote` is strconv.Quote, which `%q` calls.
unfoldable pub agy_model_error : (Text → Text) → String → List Model → Option Text
unfolding join
agy_model_error quote model [] = none
agy_model_error quote model (m ∷ ms) =
    if model == ""
    then none
    else if has_model model (m ∷ ms)
    then none
    else some (
        codes "agy on this computer does not offer the model "
        ++ quote (codes model)
        ++ codes ". Choose another agy model: "
        ++ join comma (ids (m ∷ ms)))
