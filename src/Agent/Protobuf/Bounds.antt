-- ===== src/Agent/Protobuf/Bounds.antt =====
-- fed.go, pbFields: it ends on every input, what it reads lies within the input, and what its check
-- of a length lets through.
use sparstrowgen.Prelude.{
  ℕ, zero, suc, ◌+◌, ◌-◌, ◌*◌, ◌/◌, ◌%◌, ◌^◌, ◌≤◌, ◌<◌, ◌≡◌, ◌⊎◌, inl, inr, refl, ap, subst, List,
  [], ◌∷◌, Option, some, none, ltb, ◌==◌, nat_eq, arith, length, take, drop, take-drop_sizes,
  Bool-cases, Option-cases,
}
use sparstrowgen.Agent.Protobuf.{
  Bytes, Result, returned, not_protobuf, panicked, varint_from, pb_varint_at, Field, Read,
  read_varint, skip, read_bytes, read_length, read_value, and_then, fields_from, pb_fields,
}

-- A result, by its three cases.
data Cases {ℓ} {A : Type ℓ} (r : Result A) : Type ℓ where
  is_returned : (a : A) → r ≡ returned a → Cases r
  is_not_protobuf : r ≡ not_protobuf → Cases r
  is_panicked : r ≡ panicked → Cases r

Result-Cases {ℓ} : {A : Type ℓ} (r : Result A) → Cases r
Result-Cases (returned a) = is_returned a refl
Result-Cases not_protobuf = is_not_protobuf refl
Result-Cases panicked = is_panicked refl

-- What is left behind a varint, and one more.
abbrev behind : Option (ℕ × Bytes) → ℕ
behind none = 0
behind (some (v, rest)) = suc (length rest)

-- What a round holds: the bytes of its field, and what is left behind it.
abbrev held : Read → ℕ
held (returned (f, rest)) = length f.bytes + length rest
held not_protobuf = 0
held panicked = 0

behind-varint_from : (fuel shift v : ℕ) (b : Bytes) → behind (varint_from fuel shift v b) ≤ length b
unfolding varint_from
behind-varint_from zero shift v b = omega arith
behind-varint_from (suc fuel) shift v [] = omega arith
behind-varint_from (suc fuel) shift v (c ∷ b) = elim (Bool-cases (ltb c 128)) [
  | inl t ↦ rw (t, varint_from) (omega arith)
  | inr t ↦
      rw (t, varint_from)
        (let more = behind-varint_from fuel (shift + 7) (v + (c % 128) * 2 ^ shift % 2 ^ 64) b in
          omega (arith, more))
]

held-read_bytes :
    (f : Field) (len n l : ℕ) (rest : Bytes) → held (read_bytes f len n l rest) ≤ length rest
unfolding read_bytes
held-read_bytes f len n l rest = ground (arith, (take-drop_sizes l rest).0)

held-read_varint :
    (f : Field) (o : Option (ℕ × Bytes)) (r : Bytes)
    → f.bytes ≡ []
    → behind o ≤ length r
    → held (read_varint f o) ≤ length r
held-read_varint f none r e h = omega arith
held-read_varint f (some (v, rest)) r e h =
    let z : length f.bytes ≡ 0 = ap length e in omega (arith, z, h)

skip_held :
    (f : Field) (len size i : ℕ) (r : Bytes) → f.bytes ≡ [] → held (skip f len size i r) ≤ length r
skip_held f len size i r e =
    let z : length f.bytes ≡ 0 = ap length e in ground (arith, z, (take-drop_sizes size r).0)

held-read_length :
    (f : Field) (len : ℕ) (o : Option (ℕ × Bytes)) (r : Bytes)
    → behind o ≤ length r
    → held (read_length f len o) ≤ length r
held-read_length f len none r h = omega arith
held-read_length f len (some (l, rest)) r h =
    let some_held = held-read_bytes f len (len - length rest) l rest in omega (arith, some_held, h)

held-read_value : (len k : ℕ) (r : Bytes) → held (read_value len (some (k, r))) ≤ length r
unfolding read_value
held-read_value len k r =
    let f : Field = record { num = k / 8; wire = k % 8; varint = 0; bytes = [] } in
    let o = pb_varint_at r in
    let h : behind o ≤ length r = unfold pb_varint_at in behind-varint_from 10 0 0 r in
    elim (Bool-cases (f.wire == 0)) [
      | inl e ↦ rw (e, read_value) (held-read_varint f o r refl h)
      | inr e ↦ elim (Bool-cases (f.wire == 1)) [
        | inl e1 ↦ rw (e, e1, read_value) (skip_held f len 8 (len - length r) r refl)
        | inr e1 ↦ elim (Bool-cases (f.wire == 5)) [
          | inl e5 ↦ rw (e, e1, e5, read_value) (skip_held f len 4 (len - length r) r refl)
          | inr e5 ↦ elim (Bool-cases (f.wire == 2)) [
            | inl e2 ↦ rw (e, e1, e5, e2, read_value) (held-read_length f len o r h)
            | inr e2 ↦ rw (e, e1, e5, e2, read_value) (omega arith)
          ]
        ]
      ]
    ]

-- One round of a loop that still has bytes holds fewer than these.
round_held : (len c : ℕ) (b : Bytes) → held (read_value len (pb_varint_at (c ∷ b))) ≤ length b
round_held len c b = elim (Option-cases (pb_varint_at (c ∷ b))) [
  | inl n ↦ rw n (unfold read_value in omega arith)
  | inr ((k, r), e) ↦
      let h : suc (length r) ≤ length (c ∷ b) =
        subst (λ o. behind o ≤ length (c ∷ b)) e
          (unfold pb_varint_at in behind-varint_from 10 0 0 (c ∷ b)) in
      rw e (let more = held-read_value len k r in omega (arith, more, h))
]

fields_from_enough :
    (f g len : ℕ) (b : Bytes)
    → length b ≤ f
    → length b ≤ g
    → fields_from f len b ≡ fields_from g len b
unfolding fields_from
fields_from_enough f g len [] h k = refl
fields_from_enough zero g len (c ∷ b) h k = absurd (omega (arith, h))
fields_from_enough (suc f) zero len (c ∷ b) h k = absurd (omega (arith, k))
fields_from_enough (suc f) (suc g) len (c ∷ b) h k =
    elim (Result-Cases (read_value len (pb_varint_at (c ∷ b)))) [
      | is_not_protobuf e ↦ rw (e, fields_from) refl
      | is_panicked e ↦ rw (e, fields_from) refl
      | is_returned (field, rest) e ↦
          let less : length field.bytes + length rest ≤ length b =
            subst (λ r. held r ≤ length b) e (round_held len c b) in
          rw (e, fields_from)
            (ap (and_then field)
              (fields_from_enough f g len rest (omega (arith, less, h)) (omega (arith, less, k))))
    ]

-- The loop of pbFields ends: with any number of rounds that is at least the number of bytes it
-- answers the same, so every input is read, refused, or makes it panic.
pub fields_from-pb_fields :
    (fuel : ℕ) (b : Bytes) → length b ≤ fuel → fields_from fuel (length b) b ≡ pb_fields b
unfolding pb_fields
fields_from-pb_fields fuel b h = fields_from_enough fuel (length b) (length b) b h (omega arith)

-- The fields' bytes and, for each field, one more.
unfoldable pub total : List Field → ℕ
total [] = 0
total (f ∷ fs) = 1 + length f.bytes + total fs

abbrev amount : Result (List Field) → ℕ
amount (returned fs) = total fs
amount not_protobuf = 0
amount panicked = 0

and_then-amount :
    (f : Field) (r : Result (List Field)) → amount (and_then f r) ≤ 1 + length f.bytes + amount r
unfolding total
and_then-amount f (returned fs) = omega arith
and_then-amount f not_protobuf = omega arith
and_then-amount f panicked = omega arith

fields_from-amount : (fuel len : ℕ) (b : Bytes) → amount (fields_from fuel len b) ≤ length b
unfolding fields_from
fields_from-amount fuel len [] = unfold total in omega arith
fields_from-amount zero len (c ∷ b) = omega arith
fields_from-amount (suc fuel) len (c ∷ b) =
    elim (Result-Cases (read_value len (pb_varint_at (c ∷ b)))) [
      | is_not_protobuf e ↦ rw (e, fields_from) (omega arith)
      | is_panicked e ↦ rw (e, fields_from) (omega arith)
      | is_returned (field, rest) e ↦
          let less : length field.bytes + length rest ≤ length b =
            subst (λ r. held r ≤ length b) e (round_held len c b) in
          rw (e, fields_from)
            (let first = and_then-amount field (fields_from fuel len rest) in
              let more = fields_from-amount fuel len rest in omega (arith, first, more, less))
    ]

-- What is read lies within the input: all the fields' bytes together, and the number of the fields
-- besides, are no more than the bytes read.
pub pb_fields-total :
    (b : Bytes) (fs : List Field) → pb_fields b ≡ returned fs → total fs ≤ length b
unfolding pb_fields
pb_fields-total b fs e =
    subst (λ r. amount r ≤ length b) e (fields_from-amount (length b) (length b) b)

-- The check of a length `l` behind the index `n` of a slice, for all that a 64-bit integer can hold:
-- the bytes are read if they are there; a length past the end is refused, unless index and length
-- together pass 2^63, where the length itself does not: then the slice expression panics.
pub read_bytes_exact :
    (f : Field) (n l : ℕ) (rest : Bytes)
    → n + length rest < 2 ^ 63
    → l < 2 ^ 64
    → ((l ≤ length rest)
        × (read_bytes f (n + length rest) n l rest
            ≡ returned (record f { bytes = take l rest }, drop l rest)))
      ⊎ ((length rest < l)
          × ((n + l < 2 ^ 63) ⊎ (2 ^ 63 ≤ l))
          × (read_bytes f (n + length rest) n l rest ≡ not_protobuf))
      ⊎ ((2 ^ 63 ≤ n + l) × (l < 2 ^ 63) × (read_bytes f (n + length rest) n l rest ≡ panicked))
unfolding read_bytes
read_bytes_exact f n l rest h k = ground arith

-- Nine bytes of a length, 2^63 - 1, make the reader panic, whatever follows.
pub pb_fields_panics :
    (rest : Bytes)
    → pb_fields (10 ∷ 255 ∷ 255 ∷ 255 ∷ 255 ∷ 255 ∷ 255 ∷ 255 ∷ 255 ∷ 127 ∷ rest) ≡ panicked
unfolding pb_fields
pb_fields_panics rest = ground arith
