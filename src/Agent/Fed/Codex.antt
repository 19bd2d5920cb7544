-- ===== src/Agent/Fed/Codex.antt =====
-- fed.go: the reader of codex's documents.
use sparstrowgen.Prelude.{
  List, [], ◌∷◌, ◌++◌, String, Option, some, none, ◌||◌, ◌==◌, string_eq, nat_eq, if◌then◌else◌,
}
use sparstrowgen.Prelude.Maps.{Map, lookup, insert}
use sparstrowgen.Text.{Text, codes, text_eq, trim_space, split, join}
use sparstrowgen.Text.Equality.{text_eq_instance}
use sparstrowgen.Agent.Parsed.{is_blank}
use sparstrowgen.Agent.Fed.{instructions, file, skill, environment, other}
use sparstrowgen.Agent.Fed.Texts.{Decoder, title, pretty, file_name, text_of, spaced}
use sparstrowgen.Agent.Fed.Documents.{Ops, each, same}

-- strings.Cut at a slash.
unfoldable pub cut_slash : Text → Option (Text × Text)
cut_slash [] = none
cut_slash (c ∷ s) =
    let rest = cut_slash s in
    if c == b'/' then some ([], s) else elim rest [ none ↦ none | some (a, b) ↦ some (c ∷ a, b) ]

abbrev pub setting_names : List Text
setting_names =
    codes "model"
    ∷ codes "approval_policy"
    ∷ codes "sandbox_policy"
    ∷ codes "active_permission_profile"
    ∷ codes "personality"
    ∷ codes "collaboration_mode"
    ∷ codes "cwd"
    ∷ codes "current_date"
    ∷ codes "timezone"
    ∷ []

unfoldable pub kept : List Text → Map Text Text → Map Text Text → Map Text Text
unfolding lookup insert text_eq
kept [] t keep = keep
kept (k ∷ ks) t keep = elim (lookup k t) [
  | none ↦ kept ks t keep
  | some v ↦ kept ks t (insert k v keep)
]

-- The root that a skill's file is given under is written out, where it is known.
unfoldable pub rooted : Map Text Text → Text → Text
unfolding lookup text_eq cut_slash
rooted roots source = elim (cut_slash source) [
  | none ↦ source
  | some (root, tail) ↦ elim (lookup root roots) [
    | none ↦ source
    | some at ↦ if is_blank at then source else at ++ b'/' ∷ tail
  ]
]

module _ {F : Type 0} (o : Ops F) (d : Decoder) where
  unfoldable pub put_skills : List Text → Map Text Text → List Text → F → F
  unfolding rooted insert text_eq trim_space join
  put_skills [] roots rest f =
      o.put instructions (codes "how codex uses skills") [] (trim_space (join (10 ∷ []) rest)) none
        f
  put_skills (line ∷ lines) roots rest f = elim (d.skill_root line) [
    | some (r, at) ↦ put_skills lines (insert r at roots) (rest ++ line ∷ []) f
    | none ↦ elim (d.codex_skill line) [
      | some (name, source) ↦
          put_skills lines roots rest
            (o.put skill name (rooted roots source) (trim_space line) none f)
      | none ↦ put_skills lines roots (rest ++ line ∷ []) f
    ]
  ]

  unfoldable pub tagged : Text → Text → Text → F → F
  unfolding put_skills split spaced text_eq
  tagged tag inner text =
      if tag == codes "skills_instructions"
      then put_skills (split 10 inner) [] []
      else if text_eq tag (codes "user_instructions") || text_eq tag (codes "agents_md")
      then o.put file (codes "AGENTS.md") [] text none
      else if tag == codes "environment_context"
      then o.put environment (codes "environment") [] text none
      else if tag == codes "recommended_plugins"
      then o.put other (codes "plugins codex recommends installing") [] text none
      else o.put instructions (spaced tag) [] text none

  unfoldable pub codex_message : Text → F → F
  unfolding tagged title text_eq
  codex_message text = elim (d.whole_tag text) [
    | none ↦ o.put instructions (title d text) [] text none
    | some (open_tag, inner, close_tag) ↦
        if open_tag == close_tag
        then tagged open_tag inner text
        else o.put instructions (title d text) [] text none
  ]

  abbrev pub put_block : Text → F → F
  put_block text = if is_blank (trim_space text) then same else codex_message text

  abbrev pub put_agents_md : Text × Text → F → F
  put_agents_md (path, raw) =
      let text = text_of d raw in
      o.put file (file_name path) path (if is_blank text then pretty d raw else text) none

  unfoldable pub session_meta : Text → F → F
  session_meta body = elim (d.session_meta body) [
    | none ↦ same
    | some (text, model) ↦
        if is_blank text
        then same
        else o.put instructions
            (if is_blank model
              then codes "base instructions"
              else codes "base instructions" ++ codes " for " ++ model)
            [] text none
  ]

  unfoldable pub codex : String → Text → F → F
  unfolding session_meta codex_message kept text_of pretty file_name trim_space
  codex kind body =
      if kind == "codex.session_meta"
      then session_meta body
      else if kind == "codex.message"
      then elim (d.message body) [ none ↦ same | some texts ↦ each put_block texts ]
      else if kind == "codex.world_state"
      then elim (d.world_state body) [ none ↦ same | some files ↦ each put_agents_md files ]
      else if kind == "codex.turn_context"
      then elim (d.turn_context body) [
        | none ↦ same
        | some t ↦
            o.put environment (codes "settings for this turn") []
              (pretty d (d.marshal (kept setting_names t []))) none
      ]
      else same
