-- ===== src/Store/Runs.antt =====
-- Runs of the title rule on concrete messages.
use sparstrowgen.Prelude.{ℕ, ◌≤◌, ◌≡◌, ◌⊎◌, refl, [], Bool, true, ◌&&◌, leb, All, length}
use sparstrowgen.Text.{Text, codes}
use sparstrowgen.Store.Title.{strip_once, has_word, first_meaningful_line, title_from}
use sparstrowgen.Store.Title.Stripping.{first_meaningful_line_stripped}
use sparstrowgen.Store.Title.Shape.{IsTitleChar, title_from_one_line}

abbrev is_letter : ℕ → Bool
is_letter c = leb b'a' c && leb c b'z'

abbrev message : Text
message = codes "```\n> - **fix   the thing**\nplease"

message_title : title_from is_letter message ≡ codes "fix the thing"
unfolding title_from
message_title = refl

first_meaningful_line_stripped_example :
    let line = first_meaningful_line is_letter message in
    (line ≡ []) ⊎ ((has_word is_letter line ≡ true) × (strip_once line ≡ line))
first_meaningful_line_stripped_example = first_meaningful_line_stripped is_letter message

title_from_one_line_example :
    (length (title_from is_letter message) ≤ 61) × All IsTitleChar (title_from is_letter message)
title_from_one_line_example = title_from_one_line is_letter message
