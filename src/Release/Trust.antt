-- ===== src/Release/Trust.antt =====
-- release.go, Encode and Parse: what an installed computer believes of a manifest it fetched.
use sparstrowgen.Prelude.{
  ℕ, ◌+◌, ◌≡◌, ◌↔◌, refl, sym, ap, ◌∙◌, List, [], ◌∷◌, ◌++◌, some, inl, inr, Bool, true, false,
  ◌&&◌, leb, nat_eq, arith, length, Bool-cases, Option-cases, if◌then◌else◌,
}
use mathlib.Core.Option.{some-injective}
use sparstrowgen.Text.{Text, codes, has_prefix}
use sparstrowgen.Release.{
  Version, Manifest, Codecs, parse_version, hex_value, decode_hex, to_lower, validate, same_site,
  encode, parse,
}

abbrev lower : ℕ → ℕ
lower c = if leb b'A' c && leb c b'Z' then c + 32 else c

hex_value-lower : (c : ℕ) → hex_value (lower c) ≡ hex_value c
unfolding hex_value
hex_value-lower c = ground arith

lower_idem : (c : ℕ) → lower (lower c) ≡ lower c
lower_idem c = ground arith

decode_hex-to_lower : (s : Text) → decode_hex (to_lower s) ≡ decode_hex s
unfolding decode_hex to_lower
decode_hex-to_lower [] = refl
decode_hex-to_lower (a ∷ []) = refl
decode_hex-to_lower (a ∷ b ∷ s) =
    rw (hex_value-lower a, hex_value-lower b, decode_hex-to_lower s) refl

to_lower_idem : (s : Text) → to_lower (to_lower s) ≡ to_lower s
unfolding to_lower
to_lower_idem [] = refl
to_lower_idem (c ∷ s) = rw (lower_idem c, to_lower_idem s) refl

abbrev pub lowered : Manifest → Manifest
lowered m = record m { sha256 = to_lower m.sha256 }

validate-lowered : (m : Manifest) → validate (lowered m) ≡ validate m
unfolding validate
validate-lowered m = rw (decode_hex-to_lower m.sha256) refl

parse-unmarshal :
    (k : Codecs) (body source : Text) (raw m : Manifest)
    → k.unmarshal body ≡ some raw
    → parse k body source ≡ some m
    → (validate raw ≡ true) × (same_site k raw.url source ≡ true) × (m ≡ lowered raw)
unfolding parse
parse-unmarshal k body source raw m u e = elim (Bool-cases (validate raw)) [
  | inl v ↦ elim (Bool-cases (same_site k raw.url source)) [
    | inl s ↦ (v, s, sym (some-injective _ _ (rw (u, v, s, parse) at e)))
    | inr s ↦ cc ((rw (u, v, s, parse) at e))
  ]
  | inr v ↦ cc ((rw (u, v, parse) at e))
]

-- A manifest that Parse accepts is one that was fetched, its digest in lower case, and only if it is
-- well formed and its installer is on the site it was fetched from; nothing else is refused.
pub parse_exact :
    (k : Codecs) (body source : Text) (m : Manifest)
    → (parse k body source ≡ some m) ↔ (
        (raw : Manifest) × (k.unmarshal body ≡ some raw)
        × (validate raw ≡ true)
        × (same_site k raw.url source ≡ true)
        × (m ≡ lowered raw))
unfolding parse
parse_exact k body source m = (
  λ e. elim (Option-cases (k.unmarshal body)) [
    | inl n ↦ cc (rw (n, parse) at e)
    | inr (raw, u) ↦ let (v, s, l) = parse-unmarshal k body source raw m u e in (raw, u, v, s, l)
  ],
  λ (raw, u, v, s, l). rw (u, v, s, parse) (ap some (sym l)),
)

and-true : (a b : Bool) → a && b ≡ true → (a ≡ true) × (b ≡ true)
and-true true b e = (refl, e)
and-true false b e = cc

validate-exact :
    (m : Manifest)
    → validate m ≡ true
    → ((v : Version) × (parse_version m.version ≡ some v))
      × (has_prefix (codes "https://") m.url ≡ true)
      × ((bytes : List ℕ) × (decode_hex m.sha256 ≡ some bytes) × (length bytes ≡ 32))
unfolding validate
validate-exact m h = elim (Option-cases (parse_version m.version)) [
  | inl e ↦ cc (rw (e, validate) at h)
  | inr (v, e) ↦ elim (Option-cases (decode_hex m.sha256)) [
    | inl d ↦ cc (and-true _ false (rw (e, d, validate) at h)).1
    | inr (bytes, d) ↦
        let (https, size) = and-true _ _ (rw (e, d, validate) at h) in
        ((v, e), https, (bytes, d, (nat_eq.beq_iff (length bytes) 32).0 size))
  ]
]

-- A manifest that Parse returns names a version that can be compared, an https address on the site it
-- was fetched from, and a digest of 32 bytes in lower case.
pub parse_trusted :
    (k : Codecs) (body source : Text) (m : Manifest)
    → parse k body source ≡ some m
    → ((v : Version) × (parse_version m.version ≡ some v))
      × (has_prefix (codes "https://") m.url ≡ true)
      × (same_site k m.url source ≡ true)
      × ((bytes : List ℕ) × (decode_hex m.sha256 ≡ some bytes) × (length bytes ≡ 32))
      × (to_lower m.sha256 ≡ m.sha256)
parse_trusted k body source m e =
    let (raw, u, v, s, l) = (parse_exact k body source m).0 e in
    let (version, https, digest) = validate-exact m (ap validate l ∙ validate-lowered raw ∙ v) in
    (
      version,
      https,
      ap (λ n. same_site k n.url source) l ∙ s,
      digest,
      ap (λ n. to_lower n.sha256) l ∙ to_lower_idem raw.sha256 ∙ sym (ap (λ n. n.sha256) l),
    )

encode-exact :
    (k : Codecs) (m : Manifest) (body : Text)
    → encode k m ≡ some body
    → (b : Text) × (k.marshal_indent (lowered m) ≡ some b)
      × (validate (lowered m) ≡ true)
      × (body ≡ b ++ (10 ∷ []))
unfolding encode
encode-exact k m body e = elim (Bool-cases (validate (lowered m))) [
  | inl v ↦ elim (Option-cases (k.marshal_indent (lowered m))) [
    | inl n ↦ cc (rw (v, n, encode) at e)
    | inr (b, w) ↦ (b, w, v, sym (some-injective _ _ (rw (v, w, encode) at e)))
  ]
  | inr v ↦ cc (rw (v, encode) at e)
]

-- What a release build publishes is read back by every computer that fetches it from the installer's
-- own site, its digest in lower case, if JSON reads back what it writes, a newline behind it or not.
pub parse-encode :
    (k : Codecs) (m : Manifest) (body source : Text)
    → ((n : Manifest) (b : Text)
        → k.marshal_indent n ≡ some b
        → k.unmarshal (b ++ (10 ∷ [])) ≡ some n)
    → encode k m ≡ some body
    → same_site k m.url source ≡ true
    → parse k body source ≡ some (lowered m)
unfolding encode
parse-encode k m body source json e s =
    let (b, written, v, l) = encode-exact k m body e in
    (parse_exact k body source (lowered m)).1 (
      lowered m,
      ap k.unmarshal l ∙ json (lowered m) b written,
      v,
      s,
      ap (λ t. record m { sha256 = t }) (sym (to_lower_idem m.sha256)),
    )
