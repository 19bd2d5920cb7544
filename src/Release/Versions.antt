-- ===== src/Release/Versions.antt =====
-- release.go, ParseVersion and Newer: versions are read back as printed, and are ordered.
use sparstrowgen.Prelude.{
  ℕ, ◌^◌, ◌<◌, ◌≡◌, ◌↔◌, ◌⊎◌, refl, sym, ap, ◌∙◌, [], ◌∷◌, ◌++◌, some, none, inl, inr, Bool, true,
  false, nat_eq, arith, All, Option-cases,
}
use mathlib.Core.List.{reverse, reverse-reverse}
use mathlib.Core.Option.{some-injective}
use sparstrowgen.Text.{
  Text, codes, is_space, trim_left_by, trim_right_by, trim_space, after_prefix, trim_prefix, split,
}
use sparstrowgen.Text.Decimal.{
  print, IsDigit, All-append, reverse-All, print-IsDigit, atoi-print, split-digits,
  split-digits_end,
}
use sparstrowgen.Release.{Version, parts_version, parse_version, later, newer}

-- The order on versions: by major, then minor, then patch number.
abbrev pub Later : Version → Version → Type 0
Later v u =
    (u.major < v.major)
    ⊎ ((u.major ≡ v.major) × ((u.minor < v.minor) ⊎ ((u.minor ≡ v.minor) × (u.patch < v.patch))))

later_iff : (v u : Version) → (later v u ≡ true) ↔ Later v u
unfolding later
later_iff v u = (λ e. ground arith, λ e. ground arith)

-- Where both versions can be read, Newer answers whether the first is the later one; where either
-- cannot, it answers an error.
pub newer_exact :
    (a b : Text)
    → ((newer a b ≡ none) × ((parse_version a ≡ none) ⊎ (parse_version b ≡ none)))
      ⊎ ((v : Version) × (u : Version) × (parse_version a ≡ some v)
          × (parse_version b ≡ some u)
          × (newer a b ≡ some (later v u))
          × ((newer a b ≡ some true) ↔ Later v u))
unfolding newer
newer_exact a b = elim (Option-cases (parse_version a)) [
  | inl e ↦ inl (rw (e, newer), inl e)
  | inr (v, e) ↦ elim (Option-cases (parse_version b)) [
    | inl q ↦ inl (rw (e, newer) (rw (q, newer)), inr q)
    | inr (u, q) ↦ inr (
      v,
      u,
      e,
      q,
      rw (e, newer) (rw (q, newer)),
      rw (e, newer)
          (rw (q, newer)
            ((λ t. (later_iff v u).0 (ground arith)), λ t. ap some ((later_iff v u).1 t))),
    )
  ]
]

later_asym : (v u : Version) → later v u ≡ true → later u v ≡ false
unfolding later
later_asym v u e = ground arith

later_irrefl : (v : Version) → later v v ≡ false
unfolding later
later_irrefl v = ground arith

Later-trans : (v u t : Version) → Later v u → Later u t → Later v t
Later-trans v u t p q = ground arith

later_trans : (v u t : Version) → later v u ≡ true → later u t ≡ true → later v t ≡ true
later_trans v u t p q =
    (later_iff v t).1 (Later-trans v u t ((later_iff v u).0 p) ((later_iff u t).0 q))

newer_read :
    (a b : Text)
    → newer a b ≡ some true
    → (v : Version) × (u : Version) × (parse_version a ≡ some v)
      × (parse_version b ≡ some u)
      × (later v u ≡ true)
newer_read a b e = elim (newer_exact a b) [
  | inl (n, _) ↦ cc
  | inr (v, u, p, q, l, _) ↦ (v, u, p, q, some-injective _ _ (sym l ∙ e))
]

newer-parsed :
    (a b : Text) (v u : Version)
    → parse_version a ≡ some v
    → parse_version b ≡ some u
    → newer a b ≡ some (later v u)
unfolding newer
newer-parsed a b v u p q = rw (p, newer) (rw (q, newer) refl)

-- An update never goes back: of two versions at most one is newer than the other, none is newer than
-- itself, and what is newer than a newer version is newer.
pub newer_order :
    (a b c : Text)
    → newer a b ≡ some true
    → newer b c ≡ some true
    → (newer a c ≡ some true) × (newer b a ≡ some false) × (newer a a ≡ some false)
newer_order a b c p q =
    let (v, u, av, bu, l) = newer_read a b p in
    let (u', t, bu', ct, l') = newer_read b c q in
    (
      newer-parsed a c v t av ct
          ∙ ap some
              (later_trans v u t l (ap (λ z. later z t) (some-injective _ _ (sym bu ∙ bu')) ∙ l')),
      newer-parsed b a u v bu av ∙ ap some (later_asym v u l),
      newer-parsed a a v v av av ∙ ap some (later_irrefl v),
    )

-- What a release build prints: three numbers between dots.
abbrev pub printed : Version → Text
printed v = print v.major ++ (b'.' ∷ (print v.minor ++ (b'.' ∷ print v.patch)))

trim_left_by-All : (p : ℕ → Bool) (s : Text) → All (λ c. p c ≡ false) s → trim_left_by p s ≡ s
unfolding trim_left_by
trim_left_by-All p [] h = refl
trim_left_by-All p (c ∷ s) h = rw (h.0, trim_left_by) refl

trim_space-All : (s : Text) → All (λ c. is_space c ≡ false) s → trim_space s ≡ s
unfolding trim_space trim_right_by
trim_space-All s h =
    rw (trim_left_by-All is_space s h, trim_space)
      (rw (trim_left_by-All is_space (reverse s) (reverse-All _ s h), trim_space)
        (reverse-reverse s))

IsDigit-is_space : (s : Text) → All IsDigit s → All (λ c. is_space c ≡ false) s
unfolding is_space
IsDigit-is_space [] h = h
IsDigit-is_space (c ∷ s) h = (ground (arith, h.0), IsDigit-is_space s h.1)

printed-is_space : (v : Version) → All (λ c. is_space c ≡ false) (printed v)
unfolding is_space
printed-is_space v =
    let digits : (n : ℕ) → All (λ c. is_space c ≡ false) (print n) =
      λ n. IsDigit-is_space (print n) (print-IsDigit n) in
    All-append _ (print v.major) _ (digits v.major)
      (refl, All-append _ (print v.minor) _ (digits v.minor) (refl, digits v.patch))

split-printed :
    (v : Version) → split b'.' (printed v) ≡ print v.major ∷ print v.minor ∷ print v.patch ∷ []
split-printed v =
    split-digits (print v.major) _ (print-IsDigit v.major)
    ∙ ap (λ t. print v.major ∷ t)
        (split-digits (print v.minor) _ (print-IsDigit v.minor)
          ∙ ap (λ t. print v.minor ∷ t) (split-digits_end (print v.patch) (print-IsDigit v.patch)))

IsDigit-trim_prefix :
    (s rest : Text)
    → All IsDigit s
    → trim_prefix (codes "v") (s ++ (b'.' ∷ rest)) ≡ s ++ (b'.' ∷ rest)
unfolding trim_prefix after_prefix
IsDigit-trim_prefix [] rest h = refl
IsDigit-trim_prefix (c ∷ s) rest h = ground (arith, h.0)

v-trim_prefix : (s : Text) → trim_prefix (codes "v") (b'v' ∷ s) ≡ s
unfolding trim_prefix after_prefix
v-trim_prefix s = refl

parts_version-print :
    (v : Version)
    → v.major < 2 ^ 63
    → v.minor < 2 ^ 63
    → v.patch < 2 ^ 63
    → parts_version (print v.major ∷ print v.minor ∷ print v.patch ∷ []) ≡ some v
unfolding parts_version
parts_version-print v a b c =
    rw (atoi-print v.major a, parts_version)
      (rw (atoi-print v.minor b, parts_version) (rw (atoi-print v.patch c, parts_version) refl))

-- What is printed of a version whose numbers are below 2^63 is read back as that version, with and
-- without the leading v of a release tag.
pub parse_version-printed :
    (v : Version)
    → v.major < 2 ^ 63
    → v.minor < 2 ^ 63
    → v.patch < 2 ^ 63
    → (parse_version (printed v) ≡ some v) × (parse_version (b'v' ∷ printed v) ≡ some v)
unfolding parse_version
parse_version-printed v a b c =
    let read : parts_version (split b'.' (printed v)) ≡ some v =
      ap parts_version (split-printed v) ∙ parts_version-print v a b c in
    (
      ap (λ t. parts_version (split b'.' (trim_prefix (codes "v") t)))
            (trim_space-All (printed v) (printed-is_space v))
          ∙ ap (λ t. parts_version (split b'.' t))
              (IsDigit-trim_prefix (print v.major) _ (print-IsDigit v.major))
          ∙ read,
      ap (λ t. parts_version (split b'.' (trim_prefix (codes "v") t)))
            (trim_space-All (b'v' ∷ printed v) (unfold is_space in refl, printed-is_space v))
          ∙ ap (λ t. parts_version (split b'.' t)) (v-trim_prefix (printed v))
          ∙ read,
    )
