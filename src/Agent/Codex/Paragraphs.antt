-- ===== src/Agent/Codex/Paragraphs.antt =====
-- codex.go: the answer is its messages, a blank line between each two.
use sparstrowgen.Prelude.{
  ℕ, nat_eq, ◌≡◌, refl, sym, ap, ◌∙◌, List, [], ◌∷◌, ◌++◌, Option, some, none, Bool, ◌&&◌, ◌==◌,
  string_eq, if◌then◌else◌, inl, inr, Bool-cases, eq_iff, arith,
}
use mathlib.Core.List.{append_assoc, append-nil}
use sparstrowgen.Text.{Text, trim_newlines, join}
use sparstrowgen.Agent.Parsed.{no_parsed, blank_line}
use sparstrowgen.Agent.Codex.{
  CodexLine, Codex, add_message, is_message, on_line, read_all, parse_codex,
}

-- The line is a message that has come whole.
unfoldable pub is_said : CodexLine → Bool
unfolding is_message
is_said ev = ev.type == "item.completed" && is_message ev

-- The messages of an output, without the newlines around them.
unfoldable pub messages : List (Option CodexLine) → List Text
unfolding is_said trim_newlines
messages [] = []
messages (none ∷ ls) = messages ls
messages (some ev ∷ ls) =
    let rest = messages ls in if is_said ev then trim_newlines ev.item_text ∷ rest else rest

-- Without the empty ones that come first.
unfoldable pub from_first : List Text → List Text
from_first [] = []
from_first ([] ∷ ts) = from_first ts
from_first ((c ∷ t) ∷ ts) = (c ∷ t) ∷ ts

tails : List Text → Text
tails [] = []
tails (t ∷ ts) = (blank_line ++ t) ++ tails ts

join-tails : (s : Text) (ts : List Text) → join blank_line (s ∷ ts) ≡ s ++ tails ts
unfolding join tails
join-tails s [] = sym (append-nil s)
join-tails s (t ∷ ts) =
    ap (λ z. (s ++ blank_line) ++ z) (join-tails t ts)
    ∙ append_assoc s blank_line (t ++ tails ts)
    ∙ ap (λ z. s ++ z) (sym (append_assoc blank_line t (tails ts)))

line_full :
    (ev : CodexLine) (s : Codex)
    → (on_line ev s).full ≡ (if is_said ev then add_message s.full ev.item_text else s.full)
unfolding on_line is_said
line_full ev s = elim (Bool-cases (ev.type == "item.completed")) [
  | inl e ↦
      let same : ev.type ≡ "item.completed" = (eq_iff _ _).0 e in
      rw (same, on_line, is_said)
        (elim (Bool-cases (is_message ev)) [ inl f ↦ rw f refl | inr f ↦ rw f refl ])
  | inr e ↦ ground (arith, e)
]

add_all : Text → List (Option CodexLine) → Text
add_all full [] = full
add_all full (none ∷ ls) = add_all full ls
add_all full (some ev ∷ ls) =
    add_all (if is_said ev then add_message full ev.item_text else full) ls

read_all-add_all :
    (ls : List (Option CodexLine)) (s : Codex) → (read_all ls s).full ≡ add_all s.full ls
unfolding read_all add_all
read_all-add_all [] s = refl
read_all-add_all (none ∷ ls) s = read_all-add_all ls s
read_all-add_all (some ev ∷ ls) s =
    read_all-add_all ls (on_line ev s) ∙ ap (λ z. add_all z ls) (line_full ev s)

-- Once there is a text, each message adds its paragraph.
add_all-tails :
    (c : ℕ) (full : Text) (ls : List (Option CodexLine))
    → add_all (c ∷ full) ls ≡ (c ∷ full) ++ tails (messages ls)
unfolding add_all messages tails add_message
add_all-tails c full [] = sym (append-nil (c ∷ full))
add_all-tails c full (none ∷ ls) = add_all-tails c full ls
add_all-tails c full (some ev ∷ ls) = elim (Bool-cases (is_said ev)) [
  | inr e ↦ rw (e, add_all, messages) (add_all-tails c full ls)
  | inl e ↦
      let t = trim_newlines ev.item_text in
      rw (e, add_all, messages)
        (add_all-tails c ((full ++ blank_line) ++ t) ls
          ∙ ap (λ z. z ++ tails (messages ls)) (append_assoc (c ∷ full) blank_line t)
          ∙ append_assoc (c ∷ full) (blank_line ++ t) (tails (messages ls)))
]

first_message :
    (t : Text) (ls : List (Option CodexLine))
    → add_all [] ls ≡ join blank_line (from_first (messages ls))
    → add_all t ls ≡ join blank_line (from_first (t ∷ messages ls))
unfolding from_first
first_message [] ls h = h
first_message (c ∷ t) ls h = add_all-tails c t ls ∙ sym (join-tails (c ∷ t) (messages ls))

add_all-join :
    (ls : List (Option CodexLine)) → add_all [] ls ≡ join blank_line (from_first (messages ls))
unfolding add_all messages add_message
add_all-join [] = unfold join from_first in refl
add_all-join (none ∷ ls) = add_all-join ls
add_all-join (some ev ∷ ls) = elim (Bool-cases (is_said ev)) [
  | inr e ↦ rw (e, add_all, messages) (add_all-join ls)
  | inl e ↦
      rw (e, add_all, messages) (first_message (trim_newlines ev.item_text) ls (add_all-join ls))
]

-- Whatever codex prints, its answer is its messages in order, each without the newlines around it, with
-- one blank line between each two of them; messages that are empty then, at the beginning, leave no
-- blank line.
pub parse_codex-join :
    (ls : List (Option CodexLine))
    → (parse_codex ls).0.text ≡ join blank_line (from_first (messages ls))
unfolding parse_codex
parse_codex-join ls =
    read_all-add_all ls (record { parsed = no_parsed; full = []; out = [] }) ∙ add_all-join ls
