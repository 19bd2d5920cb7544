-- ===== src/Store/Title.antt =====
-- title.go: naming a conversation from the first thing said in it. A text is the list of its code
-- points; where the code compares an offset in bytes, the bytes of the UTF-8 form are counted.
pub mod Stripping
pub mod Shape
use sparstrowgen.Prelude.{
  ℕ, zero, suc, ◌+◌, ◌/◌, List, [], ◌∷◌, ◌++◌, Option, some, none, Bool, true, false, not, ◌&&◌,
  ◌||◌, ltb, leb, ◌==◌, nat_eq, length, take, if◌then◌else◌,
}
use sparstrowgen.Text.{
  Text, codes, text_eq, is_space, is_digit, trim_left_by, trim_right_by, trim_space, has_prefix,
  split, onto_first,
}

abbrev pub title_limit : ℕ
title_limit = 60

-- The characters of a cutset.
unfoldable pub among : Text → ℕ → Bool
among [] c = false
among (d ∷ ds) c = c == d || among ds c

abbrev pub lead_ins : Text
lead_ins = codes "#>*-+_` \t"

abbrev pub lead_outs : Text
lead_outs = codes "*_` \t"

-- What is behind a run of digits, and whether there is one.
unfoldable pub skip_digits : Text → Text
unfolding is_digit
skip_digits [] = []
skip_digits (c ∷ s) = let rest = skip_digits s in if is_digit c then rest else c ∷ s

unfoldable pub starts_with_digit : Text → Bool
unfolding is_digit
starts_with_digit [] = false
starts_with_digit (c ∷ s) = is_digit c

unfoldable pub after_dot : Text → Option Text
unfolding trim_left_by among
after_dot [] = none
after_dot (c ∷ s) =
    if c == b'.' || c == b')' then some (trim_left_by (among (codes " \t")) s) else none

unfoldable pub after_ordered_marker : Text → Option Text
unfolding skip_digits starts_with_digit after_dot
after_ordered_marker line = if starts_with_digit line then after_dot (skip_digits line) else none

-- One round of the loop of stripMarkers.
unfoldable pub strip_once : Text → Text
unfolding trim_left_by trim_right_by among after_ordered_marker
strip_once line =
    let headless = trim_left_by (among lead_ins) line in
    let bare : Text = elim (after_ordered_marker headless) [ none ↦ headless | some rest ↦ rest ] in
    trim_right_by (among lead_outs) bare

-- Every round but the last shortens the line, so there are no more of them than characters.
unfoldable pub strip_rounds : ℕ → Text → Text
unfolding strip_once text_eq
strip_rounds zero line = line
strip_rounds (suc fuel) line =
    let next = strip_once line in
    let last = strip_rounds fuel next in if text_eq next line then next else last

unfoldable pub strip_markers : Text → Text
unfolding strip_rounds
strip_markers line = strip_rounds (length line) line

-- unicode.IsLetter or unicode.IsDigit is the argument `is_word`.
unfoldable pub has_word : (ℕ → Bool) → Text → Bool
has_word is_word [] = false
has_word is_word (c ∷ s) = is_word c || has_word is_word s

unfoldable pub is_fence : Text → Bool
unfolding has_prefix text_eq
is_fence line = text_eq line [] || has_prefix (codes "```") line || has_prefix (codes "~~~") line

unfoldable pub first_word_line : (ℕ → Bool) → List Text → Text
unfolding trim_space is_fence strip_markers has_word
first_word_line is_word [] = []
first_word_line is_word (raw ∷ lines) =
    let more = first_word_line is_word lines in
    let line = trim_space raw in
    if is_fence line
    then more
    else if has_word is_word (strip_markers line)
    then strip_markers line
    else more

unfoldable pub first_meaningful_line : (ℕ → Bool) → Text → Text
unfolding split first_word_line
first_meaningful_line is_word text = first_word_line is_word (split 10 text)

-- strings.Fields: the parts between runs of white space. The second clause's test is whether the next
-- character, too, is in the part.
unfoldable pub fields : Text → List Text
unfolding is_space
fields [] = []
fields (c ∷ s) =
    let more = fields s in
    if is_space c then more else elim s [
      | [] ↦ (c ∷ []) ∷ more
      | d ∷ _ ↦ if is_space d then (c ∷ []) ∷ more else onto_first c more
    ]

-- strings.Join with a space.
unfoldable pub join : List Text → Text
join [] = []
join (part ∷ parts) =
    let rest = join parts in elim parts [ [] ↦ part | _ ∷ _ ↦ part ++ (32 ∷ rest) ]

-- The length of a code point in UTF-8.
unfoldable pub utf8_size : ℕ → ℕ
utf8_size c = if ltb c 0x80 then 1 else if ltb c 0x800 then 2 else if ltb c 0x10000 then 3 else 4

-- strings.LastIndexAny for a blank: its offset in bytes, and the text before it.
abbrev pub one_further : ℕ → Option (ℕ × Text) → Option (ℕ × Text)
one_further c none = none
one_further c (some (at, before)) = some (utf8_size c + at, c ∷ before)

unfoldable pub last_blank : Text → Option (ℕ × Text)
unfolding utf8_size among
last_blank [] = none
last_blank (c ∷ s) = elim (last_blank s) [
  | some r ↦ one_further c (some r)
  | none ↦ if among (codes " \t") c then some (0, []) else none
]

abbrev pub cut_at : ℕ → Text → Option (ℕ × Text) → Text
cut_at limit cut none = cut
cut_at limit cut (some (at, before)) = if ltb (limit / 2) at then before else cut

unfoldable pub truncate : Text → ℕ → Text
unfolding last_blank trim_right_by among
truncate s limit =
    if leb (length s) limit
    then s
    else (let cut = take limit s in
        trim_right_by (among (codes " \t.,;:")) (cut_at limit cut (last_blank cut))
        ++ (0x2026 ∷ []))

unfoldable pub title_from : (ℕ → Bool) → Text → Text
unfolding first_meaningful_line fields join truncate text_eq
title_from is_word text =
    let line = first_meaningful_line is_word text in
    if text_eq line [] then [] else truncate (join (fields line)) title_limit
