-- ===== src/Agent/Parsed.antt =====
-- agent.go: what one turn's stream yielded. The messages that a parser sends are events of the daemon's
-- loop over them.
use sparstrowgen.Prelude.{String, [], ◌∷◌, Option, none, Bool, true, false}
use sparstrowgen.Prelude.Int.{ℤ, pos}
use sparstrowgen.Text.{Text}

pub record Parsed : Type 0 where
  pub text : Text
  pub session_id : String
  pub tokens : ℤ
  pub spend_ticks : ℤ
  pub err : Option Text

unfoldable pub no_parsed : Parsed
no_parsed = record { text = []; session_id = ""; tokens = pos 0; spend_ticks = pos 0; err = none }

abbrev pub is_blank : Text → Bool
is_blank [] = true
is_blank (c ∷ s) = false

-- The blank line between messages.
abbrev pub blank_line : Text
blank_line = 10 ∷ 10 ∷ []
