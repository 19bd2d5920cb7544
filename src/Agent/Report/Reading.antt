-- ===== src/Agent/Report/Reading.antt =====
-- report.go: a record read as it arrives is the record read whole; and what its totals say.
use sparstrowgen.Prelude.{
  String, ◌≡◌, refl, ap, ◌∙◌, List, [], ◌∷◌, ◌++◌, Option, some, none, Bool, true, false, not, ◌&&◌,
  ◌==◌, string_eq, nat_eq, arith, inl, inr, Bool-cases, Option-cases,
}
use sparstrowgen.Prelude.Int.{add64}
use sparstrowgen.Text.{Text}
use sparstrowgen.Protocol.Turn.{ExchangeLine}
use sparstrowgen.Protocol.Report.{ExchangeUsage, ExchangeReport}
use sparstrowgen.Agent.Report.{
  Decoder, Reporter, new_reporter, ClaudeEvent, CodexEvent, AgyEvent, codex_total, claude_usage,
  codex_usage, claude_event, codex_event, agy_event, claude, codex, agy, is_object, read_line, add,
  add_lines, report,
}

-- A reading that answers false leaves the report as it was.
abbrev Honest : ExchangeReport → ExchangeReport × Bool → Type 0
Honest r (r', b) = b ≡ false → r' ≡ r

claude_event-Honest :
    (d : Decoder) (ev : ClaudeEvent) (r : ExchangeReport) → Honest r (claude_event d ev r)
unfolding claude_event
claude_event-Honest d ev r = ground arith

codex_event-Honest : (ev : CodexEvent) (r : ExchangeReport) → Honest r (codex_event ev r)
unfolding codex_event
codex_event-Honest ev r = ground arith

agy_event-Honest : (ev : AgyEvent) (r : ExchangeReport) → Honest r (agy_event ev r)
unfolding agy_event
agy_event-Honest ev r = ground arith

decoded-Honest :
    {E : Type 0} (o : Option E) (f : E → ExchangeReport × Bool) (r : ExchangeReport)
    → ((e : E) → Honest r (f e))
    → Honest r (elim o [ none ↦ (r, false) | some e ↦ f e ])
decoded-Honest none f r h = λ _. refl
decoded-Honest (some e) f r h = h e

-- What holds of each provider's reading, and of no reading, holds of a line's.
by_provider :
    (P : ExchangeReport × Bool → Type 0) (d : Decoder) (p : String) (text : Text)
    (r : ExchangeReport)
    → P (claude d text r)
    → P (codex d text r)
    → ((p == "agy") ≡ true → P (agy d text r))
    → P (r, false)
    → P (read_line d p text r)
unfolding read_line
by_provider P d p text r h₁ h₂ h₃ h₄ = elim (Bool-cases (p == "claude")) [
  | inl e ↦ rw (e, read_line) h₁
  | inr e ↦ elim (Bool-cases (p == "codex")) [
    | inl f ↦ rw (e, f, read_line) h₂
    | inr f ↦ elim (Bool-cases (p == "agy")) [
      | inl g ↦ rw (e, f, g, read_line) (h₃ g)
      | inr g ↦ rw (e, f, g, read_line) h₄
    ]
  ]
]

read_line-Honest :
    (d : Decoder) (p : String) (text : Text) (r : ExchangeReport) → Honest r (read_line d p text r)
unfolding claude codex agy
read_line-Honest d p text r =
    by_provider (Honest r) d p text r
      (decoded-Honest (d.claude text) (λ ev. claude_event d ev r) r
        (λ ev. claude_event-Honest d ev r))
      (decoded-Honest (d.codex text) (λ ev. codex_event ev r) r (λ ev. codex_event-Honest ev r))
      (λ _. decoded-Honest (d.agy text) (λ ev. agy_event ev r) r (λ ev. agy_event-Honest ev r))
      (λ _. refl)

add-unchanged :
    (d : Decoder) (stream : String) (text : Text) (x : Reporter)
    → (add d stream text x).1 ≡ false
    → (add d stream text x).0 ≡ x
unfolding add
add-unchanged d stream text x e = elim (Bool-cases (stream == "stdout" && is_object text)) [
  | inl f ↦
      let g : (read_line d x.provider text x.r).1 ≡ false = cc (e, f) in
      rw (f, add) (ap (λ r. record x { r = r }) (read_line-Honest d x.provider text x.r g))
  | inr f ↦ rw (f, add) refl
]

-- Lines that change nothing leave the reporter as it was.
pub add_lines-unchanged :
    (d : Decoder) (ls : List ExchangeLine) (x : Reporter)
    → (add_lines d ls x).1 ≡ false
    → (add_lines d ls x).0 ≡ x
unfolding add_lines
add_lines-unchanged d [] x e = refl
add_lines-unchanged d (l ∷ ls) x e =
    let y : Reporter = (add d l.stream l.text x).0 in
    let a : (add d l.stream l.text x).1 ≡ false = ground (arith, e) in
    let b : (add_lines d ls y).1 ≡ false = ground (arith, e) in
    add_lines-unchanged d ls y b ∙ add-unchanged d l.stream l.text x a

-- Reading some lines and then others is reading them all.
pub add_lines-append :
    (d : Decoder) (ls ks : List ExchangeLine) (x : Reporter)
    → (add_lines d (ls ++ ks) x).0 ≡ (add_lines d ks (add_lines d ls x).0).0
unfolding add_lines
add_lines-append d [] ks x = refl
add_lines-append d (l ∷ ls) ks x = add_lines-append d ls ks (add d l.stream l.text x).0

-- The usage, where there is one, sums up: its total is its input and its output.
abbrev pub IsSummed : Option ExchangeUsage → Type 0
IsSummed none = Unit {0}
IsSummed (some u) = u.total ≡ add64 u.input u.output

abbrev ReadsSummed : ExchangeReport × Bool → Type 0
ReadsSummed (r, b) = IsSummed r.usage

claude-IsSummed :
    (d : Decoder) (text : Text) (r : ExchangeReport)
    → IsSummed r.usage
    → ReadsSummed (claude d text r)
unfolding claude claude_event claude_usage
claude-IsSummed d text r h = elim (Option-cases (d.claude text)) [
  | inl e ↦ rw (e, claude) h
  | inr (ev, e) ↦
      rw (e, claude)
        (elim (Bool-cases (ev.type == "system" && ev.subtype == "init")) [
          | inl f ↦ rw (f, claude_event) h
          | inr f ↦ elim (Option-cases ev.usage) [
            | inl u ↦ rw (f, u, claude_event) h
            | inr (u, g) ↦ elim (Bool-cases (ev.type == "result")) [
              | inl k ↦ rw (f, g, k, claude_event) refl
              | inr k ↦ rw (f, g, k, claude_event) h
            ]
          ]
        ])
]

codex-IsSummed :
    (d : Decoder) (text : Text) (r : ExchangeReport)
    → IsSummed r.usage
    → ReadsSummed (codex d text r)
unfolding codex codex_event codex_usage codex_total
codex-IsSummed d text r h = elim (Option-cases (d.codex text)) [
  | inl e ↦ rw (e, codex) h
  | inr (ev, e) ↦
      rw (e, codex)
        (elim (Bool-cases (ev.type == "thread.started" && not (ev.thread_id == ""))) [
          | inl f ↦ rw (f, codex_event) h
          | inr f ↦ elim (Option-cases ev.usage) [
            | inl u ↦ rw (f, u, codex_event) h
            | inr (u, g) ↦ elim (Bool-cases (ev.type == "turn.completed")) [
              | inl k ↦ rw (f, g, k, codex_event) refl
              | inr k ↦ rw (f, g, k, codex_event) h
            ]
          ]
        ])
]

add-IsSummed :
    (d : Decoder) (stream : String) (text : Text) (x : Reporter)
    → (x.provider == "agy") ≡ false
    → IsSummed x.r.usage
    → (IsSummed (add d stream text x).0.r.usage) × ((add d stream text x).0.provider ≡ x.provider)
unfolding add
add-IsSummed d stream text x a h = elim (Bool-cases (stream == "stdout" && is_object text)) [
  | inl f ↦
      rw (f, add)
        (
          by_provider ReadsSummed d x.provider text x.r (claude-IsSummed d text x.r h)
              (codex-IsSummed d text x.r h) (λ g. cc (a, g)) h,
          refl,
        )
  | inr f ↦ rw (f, add) (h, refl)
]

add_lines-IsSummed :
    (d : Decoder) (ls : List ExchangeLine) (x : Reporter)
    → (x.provider == "agy") ≡ false
    → IsSummed x.r.usage
    → IsSummed (add_lines d ls x).0.r.usage
unfolding add_lines
add_lines-IsSummed d [] x a h = h
add_lines-IsSummed d (l ∷ ls) x a h =
    let (g, p) = add-IsSummed d l.stream l.text x a h in
    add_lines-IsSummed d ls (add d l.stream l.text x).0 (ap (λ z. z == "agy") p ∙ a) g

-- In a report of any record of a provider other than agy, the total is the input plus the output.
pub report-IsSummed :
    (d : Decoder) (provider : String) (ls : List ExchangeLine)
    → (provider == "agy") ≡ false
    → IsSummed (report d provider ls).usage
unfolding report new_reporter
report-IsSummed d provider ls a = add_lines-IsSummed d ls (new_reporter provider) a tt
