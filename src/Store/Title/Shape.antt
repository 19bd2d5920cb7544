-- ===== src/Store/Title/Shape.antt =====
-- title.go, titleFrom: a title is short and is one line.
use sparstrowgen.Prelude.{
  ℕ, zero, suc, ◌+◌, ◌/◌, ◌≤◌, ◌≡◌, ◌⊎◌, inl, inr, refl, subst, List, [], ◌∷◌, Option, some, none,
  Bool, false, nat_eq, arith, All, length, take, length-append, take-drop_sizes, Bool-cases,
  Option-cases, if◌then◌else◌, ltb, leb,
}
use mathlib.Core.List.{reverse}
use sparstrowgen.Text.{Text, codes, text_eq, is_space, trim_left_by, trim_right_by, onto_first}
use sparstrowgen.Text.Decimal.{All-append, reverse-All}
use sparstrowgen.Store.Title.Stripping.{Shortens-length, trim_right_by-Shortens}
use sparstrowgen.Store.Title.{
  among, first_meaningful_line, fields, join, last_blank, cut_at, truncate, title_from,
}

-- A title's characters: a blank, or what is no white space.
abbrev pub IsTitleChar : ℕ → Type 0
IsTitleChar c = (c ≡ 32) ⊎ (is_space c ≡ false)

All-trim_left_by :
    (p : ℕ → Bool) (s : Text) → All IsTitleChar s → All IsTitleChar (trim_left_by p s)
unfolding trim_left_by
All-trim_left_by p [] h = h
All-trim_left_by p (c ∷ s) h = elim (Bool-cases (p c)) [
  | inl e ↦ rw (e, trim_left_by) (All-trim_left_by p s h.1)
  | inr e ↦ rw (e, trim_left_by) h
]

All-trim_right_by :
    (p : ℕ → Bool) (s : Text) → All IsTitleChar s → All IsTitleChar (trim_right_by p s)
unfolding trim_right_by
All-trim_right_by p s h =
    reverse-All _ (trim_left_by p (reverse s)) (All-trim_left_by p (reverse s) (reverse-All _ s h))

All-take : (n : ℕ) (s : Text) → All IsTitleChar s → All IsTitleChar (take n s)
All-take zero s h = tt
All-take (suc n) [] h = tt
All-take (suc n) (c ∷ s) h = (h.0, All-take n s h.1)

-- What is before the last blank, if there is one: no longer than the text, and a part of it.
abbrev IsBefore : Text → Option (ℕ × Text) → Type 0
IsBefore s none = Unit {0}
IsBefore s (some (at, before)) =
    (length before ≤ length s) × (All IsTitleChar s → All IsTitleChar before)

last_blank-IsBefore : (s : Text) → IsBefore s (last_blank s)
unfolding last_blank
last_blank-IsBefore [] = tt
last_blank-IsBefore (c ∷ s) = elim (Option-cases (last_blank s)) [
  | inl n ↦ elim (Bool-cases (among (codes " \t") c)) [
    | inl e ↦ rw (n, last_blank) (rw e (omega arith, λ h. tt))
    | inr e ↦ rw (n, last_blank) (rw e tt)
  ]
  | inr ((at, before), e) ↦
      let (shorter, part) = subst (IsBefore s) e (last_blank-IsBefore s) in
      rw (e, last_blank) (omega (arith, shorter), λ h. (h.0, part h.1))
]

cut_at_part :
    (limit : ℕ) (cut : Text) (o : Option (ℕ × Text))
    → IsBefore cut o
    → All IsTitleChar cut
    → (length (cut_at limit cut o) ≤ length cut) × All IsTitleChar (cut_at limit cut o)
cut_at_part limit cut none b h = (omega arith, h)
cut_at_part limit cut (some (at, before)) b h = elim (Bool-cases (ltb (limit / 2) at)) [
  | inl e ↦ rw e (b.0, b.1 h)
  | inr e ↦ rw e (omega arith, h)
]

ellipsis-IsTitleChar : All IsTitleChar (0x2026 ∷ [])
unfolding is_space
ellipsis-IsTitleChar = (inr refl, tt)

truncate_part :
    (s : Text) (limit : ℕ)
    → All IsTitleChar s
    → (length (truncate s limit) ≤ limit + 1) × All IsTitleChar (truncate s limit)
unfolding truncate
truncate_part s limit h = elim (Bool-cases (leb (length s) limit)) [
  | inl e ↦ rw (e, truncate) (ground (arith, e), h)
  | inr e ↦
      let cut = take limit s in
      let (short, part) =
        cut_at_part limit cut (last_blank cut) (last_blank-IsBefore cut) (All-take limit s h) in
      let trimmed = trim_right_by (among (codes " \t.,;:")) (cut_at limit cut (last_blank cut)) in
      let l =
        Shortens-length (cut_at limit cut (last_blank cut)) trimmed
          (trim_right_by-Shortens (among (codes " \t.,;:")) (cut_at limit cut (last_blank cut))) in
      let a = length-append trimmed (0x2026 ∷ []) in
      let t = (take-drop_sizes limit s).1 in
      rw (e, truncate)
        (
          omega (arith, short, l, a, t),
          All-append IsTitleChar trimmed _ (All-trim_right_by _ _ part) ellipsis-IsTitleChar,
        )
]

onto_first-All :
    (c : ℕ) (parts : List Text)
    → IsTitleChar c
    → All (All IsTitleChar) parts
    → All (All IsTitleChar) (onto_first c parts)
onto_first-All c [] h k = ((h, tt), tt)
onto_first-All c (part ∷ parts) h k = ((h, k.0), k.1)

-- The character and what follows it, which begins its part or goes onto the next.
fields-All_next :
    (c : ℕ) (s : Text)
    → IsTitleChar c
    → All (All IsTitleChar) (fields s)
    → All (All IsTitleChar) (elim s as (λ _. List Text) [
      | [] ↦ (c ∷ []) ∷ fields s
      | d ∷ _ ↦ if is_space d then (c ∷ []) ∷ fields s else onto_first c (fields s)
    ])
fields-All_next c [] h k = ((h, tt), k)
fields-All_next c (d ∷ s) h k = elim (Bool-cases (is_space d)) [
  | inl e ↦ rw e ((h, tt), k)
  | inr e ↦ rw e (onto_first-All c (fields (d ∷ s)) h k)
]

fields-All : (s : Text) → All (All IsTitleChar) (fields s)
unfolding fields
fields-All [] = tt
fields-All (c ∷ s) = elim (Bool-cases (is_space c)) [
  | inl e ↦ rw (e, fields) (fields-All s)
  | inr e ↦ rw (e, fields) (fields-All_next c s (inr e) (fields-All s))
]

join-All : (parts : List Text) → All (All IsTitleChar) parts → All IsTitleChar (join parts)
unfolding join
join-All [] h = tt
join-All (part ∷ []) h = h.0
join-All (part ∷ next ∷ parts) h =
    All-append IsTitleChar part _ h.0 (inl refl, join-All (next ∷ parts) h.1)

-- Whatever is said first, the title is at most sixty characters and an ellipsis, and is one line: its
-- only white space is blanks.
pub title_from_one_line :
    (is_word : ℕ → Bool) (text : Text)
    → (length (title_from is_word text) ≤ 61) × All IsTitleChar (title_from is_word text)
unfolding title_from
title_from_one_line is_word text =
    let line = first_meaningful_line is_word text in
    elim (Bool-cases (text_eq line [])) [
      | inl e ↦ rw (e, title_from) (omega arith, tt)
      | inr e ↦
          rw (e, title_from) (truncate_part (join (fields line)) 60 (join-All _ (fields-All line)))
    ]
