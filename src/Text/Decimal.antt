-- ===== src/Text/Decimal.antt =====
-- Decimal numbers: what `atoi` reads back of what is printed.
use sparstrowgen.Prelude.{
  ℕ, zero, suc, ◌+◌, ◌-◌, ◌*◌, ◌/◌, ◌%◌, ◌^◌, ◌≤◌, ◌<◌, ◌≡◌, ◌≢◌, refl, ap, ◌∙◌, [], ◌∷◌, ◌++◌,
  some, inl, inr, ltb, nat_eq, if◌then◌else◌, All, arith, Bool-cases,
}
use mathlib.Core.List.{reverse, reverse-cons}
use sparstrowgen.Prelude.Int.{pos}
use sparstrowgen.Text.{Text, split, is_digit, digits_value, magnitude, atoi}

abbrev pub IsDigit : ℕ → Type 0
IsDigit c = (48 ≤ c) × (c ≤ 57)

-- The decimal digits of a number, with enough fuel.
unfoldable pub print_fuel : ℕ → ℕ → Text
print_fuel zero n = (48 + n % 10) ∷ []
print_fuel (suc f) n =
    let more = print_fuel f (n / 10) in
    if ltb n 10 then (48 + n) ∷ [] else more ++ ((48 + n % 10) ∷ [])

unfoldable pub print : ℕ → Text
unfolding print_fuel
print n = print_fuel n n

digits_value-snoc :
    (s : Text) (acc d v : ℕ)
    → digits_value acc s ≡ some v
    → d < 10
    → digits_value acc (s ++ ((48 + d) ∷ [])) ≡ some (v * 10 + d)
unfolding digits_value is_digit
digits_value-snoc [] acc d v e h = ground arith
digits_value-snoc (c ∷ s) acc d v e h = elim (Bool-cases (is_digit c)) [
  | inl t ↦
      rw (t, digits_value)
        (digits_value-snoc s (acc * 10 + (c - 48)) d v (rw (t, digits_value) at e) h)
  | inr t ↦ ground (arith, t)
]

print_fuel-value : (f n : ℕ) → n ≤ f → digits_value 0 (print_fuel f n) ≡ some n
unfolding print_fuel
print_fuel-value zero n h = unfold digits_value is_digit in ground arith
print_fuel-value (suc f) n h = elim (Bool-cases (ltb n 10)) [
  | inl t ↦ rw (t, print_fuel) (unfold digits_value is_digit in ground arith)
  | inr t ↦
      rw (t, print_fuel)
        (digits_value-snoc (print_fuel f (n / 10)) 0 (n % 10) (n / 10)
            (print_fuel-value f (n / 10) (ground arith)) (omega arith)
          ∙ ap some (omega arith))
]

pub All-append : (P : ℕ → Type 0) (xs ys : Text) → All P xs → All P ys → All P (xs ++ ys)
All-append P [] ys h k = k
All-append P (x ∷ xs) ys h k = (h.0, All-append P xs ys h.1 k)

pub reverse-All : (P : ℕ → Type 0) (s : Text) → All P s → All P (reverse s)
reverse-All P [] h = h
reverse-All P (c ∷ s) h =
    rw reverse-cons (All-append P (reverse s) (c ∷ []) (reverse-All P s h.1) (h.0, _))

print_fuel-IsDigit : (f n : ℕ) → n ≤ f → All IsDigit (print_fuel f n)
unfolding print_fuel
print_fuel-IsDigit zero n h = omega arith
print_fuel-IsDigit (suc f) n h = elim (Bool-cases (ltb n 10)) [
  | inl t ↦ rw (t, print_fuel) (ground arith)
  | inr t ↦
      rw (t, print_fuel)
        (All-append IsDigit (print_fuel f (n / 10)) _ (print_fuel-IsDigit f (n / 10) (ground arith))
          (omega arith))
]

pub print-IsDigit : (n : ℕ) → All IsDigit (print n)
unfolding print
print-IsDigit n = print_fuel-IsDigit n n (omega arith)

snoc-ne-nil : (s : Text) (c : ℕ) → s ++ (c ∷ []) ≢ []
snoc-ne-nil [] c e = cc
snoc-ne-nil (d ∷ s) c e = cc

print-ne-nil : (n : ℕ) → print n ≢ []
unfolding print print_fuel
print-ne-nil zero e = cc
print-ne-nil (suc n) e = elim (Bool-cases (ltb (suc n) 10)) [
  | inl t ↦ ground (arith, e, t)
  | inr t ↦ snoc-ne-nil (print_fuel n (suc n / 10)) (48 + suc n % 10) (ground (arith, e, t))
]

atoi_digits :
    (s : Text) (n : ℕ)
    → All IsDigit s
    → s ≢ []
    → digits_value 0 s ≡ some n
    → n < 2 ^ 63
    → atoi s ≡ some (pos n)
atoi_digits [] n a h e l = absurd (h refl)
atoi_digits (c ∷ s) n a h e l = unfold atoi magnitude in ground (arith, e, a.0)

-- What is printed of a number below 2^63 is read back.
pub atoi-print : (n : ℕ) → n < 2 ^ 63 → atoi (print n) ≡ some (pos n)
atoi-print n l =
    atoi_digits (print n) n (print-IsDigit n) (print-ne-nil n)
      (unfold print in print_fuel-value n n (omega arith)) l

-- A run of digits holds no dot.
pub split-digits :
    (a rest : Text) → All IsDigit a → split b'.' (a ++ (b'.' ∷ rest)) ≡ a ∷ split b'.' rest
unfolding split
split-digits [] rest h = refl
split-digits (c ∷ a) rest h = ground (arith, split-digits a rest h.1, h.0)

pub split-digits_end : (a : Text) → All IsDigit a → split b'.' a ≡ a ∷ []
unfolding split
split-digits_end [] h = refl
split-digits_end (c ∷ a) h = ground (arith, split-digits_end a h.1, h.0)
