-- ===== src/Text/Equality.antt =====
-- `==` on texts decides equality, so that texts can be keys.
use sparstrowgen.Prelude.{
  ◌≡◌, refl, ap, subst, ◌∙◌, ◌↔◌, [], ◌∷◌, true, Eq, ◌==◌, nat_eq, arith, inl, inr, Bool-cases,
}
use sparstrowgen.Text.{Text, text_eq}

pub text_eq_sound : (s t : Text) → text_eq s t ≡ true → s ≡ t
unfolding text_eq
text_eq_sound [] [] e = refl
text_eq_sound [] (d ∷ t) e = cc
text_eq_sound (c ∷ s) [] e = cc
text_eq_sound (c ∷ s) (d ∷ t) e = elim (Bool-cases (c == d)) [
  | inl q ↦
      let same = (nat_eq.beq_iff c d).0 q in
      ap (λ x. x ∷ s) same ∙ ap (λ r. d ∷ r) (text_eq_sound s t (rw q at e))
  | inr q ↦ cc (rw q at e)
]

pub text_eq_refl : (s : Text) → text_eq s s ≡ true
unfolding text_eq
text_eq_refl [] = refl
text_eq_refl (c ∷ s) = ground (arith, text_eq_refl s)

pub text_eq_iff : (s t : Text) → (text_eq s t ≡ true) ↔ (s ≡ t)
text_eq_iff s t = (text_eq_sound s t, λ e. subst (λ u. text_eq s u ≡ true) e (text_eq_refl s))

instance abbrev pub text_eq_instance : Eq Text
text_eq_instance = record { beq = text_eq; beq_iff = text_eq_iff }
