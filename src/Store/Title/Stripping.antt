-- ===== src/Store/Title/Stripping.antt =====
-- title.go, firstMeaningfulLine: the loop of stripMarkers comes to its end.
use sparstrowgen.Prelude.{
  ℕ, zero, suc, ◌≤◌, ◌<◌, ◌≡◌, ◌⊎◌, inl, inr, refl, sym, ap, subst, ◌∙◌, List, [], ◌∷◌, Option,
  some, none, Bool, true, false, nat_eq, arith, length, length-append, Bool-cases, Option-cases,
  if◌then◌else◌,
}
use mathlib.Core.List.{reverse, reverse-cons, reverse-reverse}
use sparstrowgen.Text.Equality.{text_eq_sound, text_eq_refl}
use sparstrowgen.Text.{
  Text, codes, text_eq, is_digit, trim_left_by, trim_right_by, trim_space, split,
}
use sparstrowgen.Store.Title.{
  among, lead_ins, lead_outs, skip_digits, after_dot, after_ordered_marker, strip_once,
  strip_rounds, strip_markers, has_word, is_fence, first_word_line, first_meaningful_line,
}

-- The same text, or a shorter one.
abbrev pub Shortens : Text → Text → Type 0
Shortens s t = (t ≡ s) ⊎ (length t < length s)

Shortens-trans : (s t u : Text) → Shortens s t → Shortens t u → Shortens s u
Shortens-trans s t u (inl e) (inl q) = inl (q ∙ e)
Shortens-trans s t u (inl e) (inr q) = let z = ap length e in inr (omega (arith, z, q))
Shortens-trans s t u (inr e) (inl q) = let z = ap length q in inr (omega (arith, z, e))
Shortens-trans s t u (inr e) (inr q) = inr (omega (arith, e, q))

pub Shortens-length : (s t : Text) → Shortens s t → length t ≤ length s
Shortens-length s t (inl e) = let z = ap length e in omega (arith, z)
Shortens-length s t (inr l) = omega (arith, l)

trim_left_by-Shortens : (p : ℕ → Bool) (s : Text) → Shortens s (trim_left_by p s)
unfolding trim_left_by
trim_left_by-Shortens p [] = inl refl
trim_left_by-Shortens p (c ∷ s) = elim (Bool-cases (p c)) [
  | inl e ↦
      rw (e, trim_left_by)
        (let h = Shortens-length s (trim_left_by p s) (trim_left_by-Shortens p s) in
          inr (omega (arith, h)))
  | inr e ↦ rw (e, trim_left_by) (inl refl)
]

length-reverse : (s : Text) → length (reverse s) ≡ length s
length-reverse [] = refl
length-reverse (c ∷ s) =
    ap length (reverse-cons c s)
    ∙ length-append (reverse s) (c ∷ [])
    ∙ (let h = length-reverse s in omega (arith, h))

pub trim_right_by-Shortens : (p : ℕ → Bool) (s : Text) → Shortens s (trim_right_by p s)
unfolding trim_right_by
trim_right_by-Shortens p s = elim (trim_left_by-Shortens p (reverse s)) [
  | inl e ↦ inl (ap reverse e ∙ reverse-reverse s)
  | inr l ↦
      let a = length-reverse (trim_left_by p (reverse s)) in
      let b = length-reverse s in inr (omega (arith, a, b, l))
]

skip_digits-length : (s : Text) → length (skip_digits s) ≤ length s
unfolding skip_digits
skip_digits-length [] = omega arith
skip_digits-length (c ∷ s) = elim (Bool-cases (is_digit c)) [
  | inl e ↦ rw (e, skip_digits) (let h = skip_digits-length s in omega (arith, h))
  | inr e ↦ rw (e, skip_digits) (omega arith)
]

-- One more than the length, if there is a text.
abbrev size : Option Text → ℕ
size none = 0
size (some s) = suc (length s)

after_dot-size : (s : Text) → size (after_dot s) ≤ length s
unfolding after_dot
after_dot-size [] = omega arith
after_dot-size (c ∷ s) =
    let h = Shortens-length s _ (trim_left_by-Shortens (among (codes " \t")) s) in ground (arith, h)

after_ordered_marker-size : (s : Text) → size (after_ordered_marker s) ≤ length s
unfolding after_ordered_marker
after_ordered_marker-size s =
    let h = after_dot-size (skip_digits s) in let k = skip_digits-length s in ground (arith, h, k)

strip_once-Shortens : (line : Text) → Shortens line (strip_once line)
unfolding strip_once
strip_once-Shortens line =
    let headless = trim_left_by (among lead_ins) line in
    let first : Shortens line headless = trim_left_by-Shortens (among lead_ins) line in
    elim (Option-cases (after_ordered_marker headless)) [
      | inl n ↦
          rw (n, strip_once)
            (Shortens-trans line headless _ first
              (trim_right_by-Shortens (among lead_outs) headless))
      | inr (rest, e) ↦
          let h : suc (length rest) ≤ length headless =
            subst (λ o. size o ≤ length headless) e (after_ordered_marker-size headless) in
          rw (e, strip_once)
            (Shortens-trans line rest _ (Shortens-trans line headless rest first (inr h))
              (trim_right_by-Shortens (among lead_outs) rest))
    ]

strip_rounds_last :
    (fuel : ℕ) (line : Text)
    → text_eq (strip_once line) line ≡ true
    → strip_rounds (suc fuel) line ≡ strip_once line
unfolding strip_rounds
strip_rounds_last fuel line e = rw (e, strip_rounds) refl

strip_rounds_more :
    (fuel : ℕ) (line : Text)
    → text_eq (strip_once line) line ≡ false
    → strip_rounds (suc fuel) line ≡ strip_rounds fuel (strip_once line)
unfolding strip_rounds
strip_rounds_more fuel line e = rw (e, strip_rounds) refl

strip_rounds_none : (line : Text) → strip_rounds zero line ≡ line
unfolding strip_rounds
strip_rounds_none line = refl

strip_once_nil : (line : Text) → length line ≤ 0 → strip_once line ≡ line
strip_once_nil line h = elim (strip_once-Shortens line) [
  | inl e ↦ e
  | inr l ↦ absurd (omega (arith, l, h))
]

strip_rounds_fixed :
    (fuel : ℕ) (line : Text)
    → length line ≤ fuel
    → strip_once (strip_rounds fuel line) ≡ strip_rounds fuel line
strip_rounds_fixed zero line h =
    subst (λ t. strip_once t ≡ t) (sym (strip_rounds_none line)) (strip_once_nil line h)
strip_rounds_fixed (suc fuel) line h = elim (Bool-cases (text_eq (strip_once line) line)) [
  | inl e ↦
      subst (λ t. strip_once t ≡ t) (sym (strip_rounds_last fuel line e))
        (ap strip_once (text_eq_sound _ _ e))
  | inr e ↦ elim (strip_once-Shortens line) [
    | inl same ↦ cc (sym e ∙ ap (λ t. text_eq t line) same ∙ text_eq_refl line)
    | inr l ↦
        subst (λ t. strip_once t ≡ t) (sym (strip_rounds_more fuel line e))
          (strip_rounds_fixed fuel (strip_once line) (omega (arith, l, h)))
  ]
]

strip_markers_fixed : (line : Text) → strip_once (strip_markers line) ≡ strip_markers line
unfolding strip_markers
strip_markers_fixed line = strip_rounds_fixed (length line) line (omega arith)

-- Nothing, or a line that carries a word and that another round would not change.
abbrev IsMeaningful : (ℕ → Bool) → Text → Type 0
IsMeaningful is_word line =
    (line ≡ []) ⊎ ((has_word is_word line ≡ true) × (strip_once line ≡ line))

if-IsMeaningful :
    (is_word : ℕ → Bool) (fence word : Bool) (line more : Text)
    → (word ≡ true → IsMeaningful is_word line)
    → IsMeaningful is_word more
    → IsMeaningful is_word (if fence then more else if word then line else more)
if-IsMeaningful is_word true word line more h k = k
if-IsMeaningful is_word false true line more h k = h refl
if-IsMeaningful is_word false false line more h k = k

first_word_line_step :
    (is_word : ℕ → Bool) (raw : Text) (lines : List Text)
    → (if is_fence (trim_space raw)
        then first_word_line is_word lines
        else if has_word is_word (strip_markers (trim_space raw))
        then strip_markers (trim_space raw)
        else first_word_line is_word lines)
      ≡ first_word_line is_word (raw ∷ lines)
unfolding first_word_line
first_word_line_step is_word raw lines = refl

first_word_line_none : (is_word : ℕ → Bool) → first_word_line is_word [] ≡ []
unfolding first_word_line
first_word_line_none is_word = refl

first_word_line-IsMeaningful :
    (is_word : ℕ → Bool) (lines : List Text) → IsMeaningful is_word (first_word_line is_word lines)
first_word_line-IsMeaningful is_word [] = inl (first_word_line_none is_word)
first_word_line-IsMeaningful is_word (raw ∷ lines) =
    subst (IsMeaningful is_word) (first_word_line_step is_word raw lines) (
      if-IsMeaningful is_word (is_fence (trim_space raw)) _ (strip_markers (trim_space raw)) _
        (λ w. inr (w, strip_markers_fixed (trim_space raw)))
        (first_word_line-IsMeaningful is_word lines))

first_meaningful_line_eq :
    (is_word : ℕ → Bool) (text : Text)
    → first_word_line is_word (split 10 text) ≡ first_meaningful_line is_word text
unfolding first_meaningful_line
first_meaningful_line_eq is_word text = refl

-- The first meaningful line, if there is one, carries a word, and the loop that peels markers off it
-- has come to its end: another round would change nothing.
pub first_meaningful_line_stripped :
    (is_word : ℕ → Bool) (text : Text)
    → let line = first_meaningful_line is_word text in
      (line ≡ []) ⊎ ((has_word is_word line ≡ true) × (strip_once line ≡ line))
first_meaningful_line_stripped is_word text =
    subst (IsMeaningful is_word) (first_meaningful_line_eq is_word text)
      (first_word_line-IsMeaningful is_word (split 10 text))
