-- ===== src/Prelude/Lists.antt =====
-- Lists measured by native numbers, under the library's names.
use Prim.Native.Nat.{ℕ, zero, suc, ◌+◌, ◌-◌, ◌≤◌}
use mathlib.Core.Logic.{◌⊎◌}
use mathlib.Core.Path.{◌≡◌, refl, sym, ap, ◌∙◌}
use mathlib.Core.List.{List, [], ◌∷◌, ◌++◌}
use native.Mathlib.Omega.{arith}

module _ {ℓ} {A : Type ℓ} where
  abbrev pub length : List A → ℕ
  length [] = 0
  length (x ∷ xs) = suc (length xs)

  pub length-append : (xs ys : List A) → length (xs ++ ys) ≡ length xs + length ys
  length-append [] ys = omega arith
  length-append (x ∷ xs) ys = omega (arith, length-append xs ys)

  abbrev pub take : ℕ → List A → List A
  take zero s = []
  take (suc n) [] = []
  take (suc n) (x ∷ s) = x ∷ take n s

  abbrev pub drop : ℕ → List A → List A
  drop zero s = s
  drop (suc n) [] = []
  drop (suc n) (x ∷ s) = drop n s

  pub take-drop_sizes :
      (n : ℕ) (s : List A)
      → (length (take n s) + length (drop n s) ≡ length s) × (length (take n s) ≤ n)
  take-drop_sizes zero s = (omega arith, omega arith)
  take-drop_sizes (suc n) [] = (omega arith, omega arith)
  take-drop_sizes (suc n) (x ∷ s) =
      let h = take-drop_sizes n s in (omega (arith, h.0), omega (arith, h.1))

  pub take-append : (n : ℕ) (a b : List A) → take n (a ++ b) ≡ take n a ++ take (n - length a) b
  take-append zero a b = let e : 0 - length a ≡ 0 = omega arith in sym (ap (λ k. take k b) e)
  take-append (suc n) [] b = let e : suc n - 0 ≡ suc n = omega arith in sym (ap (λ k. take k b) e)
  take-append (suc n) (x ∷ a) b =
      let e : suc n - suc (length a) ≡ n - length a = omega arith in
      ap (λ z. x ∷ z) (take-append n a b ∙ sym (ap (λ k. take n a ++ take k b) e))

  pub drop-append :
      (n : ℕ) (a b : List A)
      → length (drop n (a ++ b)) ≡ length (drop n a) + length (drop (n - length a) b)
  drop-append zero a b =
      let e : 0 - length a ≡ 0 = omega arith in
      length-append a b ∙ sym (ap (λ k. length a + length (drop k b)) e)
  drop-append (suc n) [] b =
      let e : suc n - 0 ≡ suc n = omega arith in
      let z : length (drop (suc n) b) ≡ 0 + length (drop (suc n) b) = omega arith in
      z ∙ sym (ap (λ k. 0 + length (drop k b)) e)
  drop-append (suc n) (x ∷ a) b =
      let e : suc n - suc (length a) ≡ n - length a = omega arith in
      drop-append n a b ∙ sym (ap (λ k. length (drop n a) + length (drop k b)) e)

  pub room_left : (n : ℕ) (a : List A) → n - length (take n a) ≡ n - length a
  room_left zero a = omega arith
  room_left (suc n) [] = refl
  room_left (suc n) (x ∷ a) = omega (arith, room_left n a)

  pub fits_take : (n : ℕ) (a : List A) → length a ≤ n → (take n a ≡ a) × (length (drop n a) ≡ 0)
  fits_take zero [] h = (refl, refl)
  fits_take zero (x ∷ a) h = absurd (omega (arith, h))
  fits_take (suc n) [] h = (refl, refl)
  fits_take (suc n) (x ∷ a) h =
      let (e, f) = fits_take n a (omega (arith, h)) in (ap (λ z. x ∷ z) e, f)

  abbrev pub All {κ} : (A → Type κ) → List A → Type κ
  All P [] = Unit {κ}
  All P (x ∷ xs) = P x × All P xs

module _ {A : Type 0} where
  abbrev pub Elem : A → List A → Type 0
  Elem a [] = ⊥
  Elem a (x ∷ xs) = (x ≡ a) ⊎ Elem a xs

  abbrev pub Distinct : List A → Type 0
  Distinct [] = Unit {0}
  Distinct (x ∷ xs) = (¬ Elem x xs) × Distinct xs
