-- ===== src/Agent/Fed/Agy.antt =====
-- fed.go: what agy's record of a call holds, read before its pieces are put; the code reads as it
-- puts, and a panic of the reader ends both.
use sparstrowgen.Prelude.{
  ℕ, List, [], ◌∷◌, ◌++◌, Option, some, none, ◌==◌, string_eq, nat_eq, if◌then◌else◌,
}
use sparstrowgen.Prelude.Maps.{Map, lookup, insert}
use sparstrowgen.Prelude.Int.{ℤ, of_bits64}
use sparstrowgen.Text.{Text, codes, text_eq}
use sparstrowgen.Text.Equality.{text_eq_instance}
use sparstrowgen.Agent.Parsed.{is_blank, blank_line}
use sparstrowgen.Agent.Protobuf.{
  Bytes, Result, returned, not_protobuf, panicked, pb_all, pb_first, pb_string, pb_varint,
}
use sparstrowgen.Agent.Fed.{
  Kind, instructions, file, skill, tool, server, agent, environment, other,
}
use sparstrowgen.Agent.Fed.Texts.{Decoder, pretty, or_name, spaced}

infixl 5 ◌>>=◌
abbrev pub ◌>>=◌ {ℓ κ} : {A : Type ℓ} {B : Type κ} → Result A → (A → Result B) → Result B
returned a >>= f = f a
not_protobuf >>= f = not_protobuf
panicked >>= f = panicked

pub record AgyPart : Type 0 where
  pub kind : Kind
  pub name : Text
  pub text : Text
  pub tokens : Option ℤ

module _ (d : Decoder) where
  -- What pbString answers: the empty text if the field is not there.
  abbrev pub text_in : Option Bytes → Text
  text_in none = []
  text_in (some b) = d.to_text b

  abbrev pub counted : Text → Option ℕ → Map Text ℤ → Map Text ℤ
  counted name none out = out
  counted name (some n) out = if is_blank name then out else insert name (of_bits64 n) out

  unfoldable pub count_subs : List Bytes → Map Text ℤ → Result (Map Text ℤ)
  unfolding pb_string pb_varint insert of_bits64
  count_subs [] out = returned out
  count_subs (s ∷ subs) out = do
    name ← pb_string s 1
    n ← pb_varint s 3
    count_subs subs (counted (text_in name) n out)

  unfoldable pub count_parts : List Bytes → Map Text ℤ → Result (Map Text ℤ)
  unfolding pb_first pb_all count_subs
  count_parts [] out = returned out
  count_parts (part ∷ parts) out = do
    p ← pb_first part 1
    out' ← elim p [ none ↦ returned out | some b ↦ do subs ← pb_all b 5; count_subs subs out ]
    count_parts parts out'

  unfoldable pub agy_tokens : Bytes → Result (Map Text ℤ)
  unfolding pb_first pb_all count_parts
  agy_tokens req = do
    breakdown ← pb_first req 9
    elim breakdown [
      | none ↦ returned []
      | some b ↦ do
        inner ← pb_first b 10
        elim inner [ none ↦ returned [] | some c ↦ do parts ← pb_all c 3; count_parts parts [] ]
    ]

  unfoldable pub section_part : Text → Text → Option ℤ → AgyPart
  unfolding text_eq spaced or_name
  section_part name text tokens =
      let label = spaced name in
      if name == codes "user_rules"
      then record { kind = file; name = label; text = text; tokens = tokens }
      else if name == codes "skills"
      then record { kind = skill; name = label; text = text; tokens = tokens }
      else if name == codes "mcp_servers"
      then record { kind = server; name = label; text = text; tokens = tokens }
      else if name == codes "subagents"
      then record { kind = agent; name = label; text = text; tokens = tokens }
      else if name == codes "user_information"
      then record { kind = environment; name = label; text = text; tokens = tokens }
      else record {
        kind = instructions;
        name = or_name label (codes "untitled section");
        text = text;
        tokens = tokens;
      }

  unfoldable pub section_parts : Map Text ℤ → List Bytes → Result (List AgyPart)
  unfolding pb_string lookup section_part
  section_parts tokens [] = returned []
  section_parts tokens (s ∷ ss) = do
    name ← pb_string s 1
    text ← pb_string s 2
    more ← section_parts tokens ss
    returned (section_part (text_in name) (text_in text) (lookup (text_in name) tokens) ∷ more)

  unfoldable pub prompt_part : Option Bytes → List AgyPart
  prompt_part none = []
  prompt_part (some text) =
      record {
        kind = instructions;
        name = codes "system prompt";
        text = d.to_text text;
        tokens = none;
      }
      ∷ []

  unfoldable pub tool_parts : List Bytes → Result (List AgyPart)
  unfolding pb_string or_name pretty
  tool_parts [] = returned []
  tool_parts (t ∷ ts) = do
    name ← pb_string t 1
    desc ← pb_string t 2
    schema ← pb_string t 3
    more ← tool_parts ts
    returned (
        record {
          kind = tool;
          name = or_name (text_in name) (codes "unnamed tool");
          text =
              if is_blank (text_in schema)
              then text_in desc
              else text_in desc ++ blank_line ++ pretty d (text_in schema);
          tokens = none;
        }
        ∷ more)

  unfoldable pub request_parts : Bytes → Result (List AgyPart)
  unfolding pb_all pb_string agy_tokens section_parts prompt_part tool_parts
  request_parts req = do
    tokens ← agy_tokens req
    sections ← pb_all req 16
    shown ← section_parts tokens sections
    prompt ← elim sections [
      | [] ↦ do text ← pb_string req 1; returned (prompt_part text)
      | s ∷ ss ↦ returned []
    ]
    tools ← pb_all req 8
    listed ← tool_parts tools
    returned (shown ++ prompt ++ listed)

  unfoldable pub agy_parts : Text → Result (List AgyPart)
  unfolding pb_first request_parts
  agy_parts body = elim (d.base64 body) [
    | none ↦ returned []
    | some raw ↦ do
      req ← pb_first raw 1
      elim req [
        | none ↦ returned (
            record {
              kind = other;
              name = codes "agy's record";
              text = codes "(not in the shape agy 1.2.3 wrote)";
              tokens = none;
            }
            ∷ [])
        | some r ↦ request_parts r
      ]
  ]
