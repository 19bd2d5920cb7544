-- ===== src/Agent/Protobuf.antt =====
-- fed.go, the protobuf reader: the wire format alone. Bytes are numbers below 256. A slice and an
-- index into it are the list of what is left behind the index, with the index itself where the code
-- computes with it; `len(b)` is then the index and the length of what is left.
pub mod Bounds
use sparstrowgen.Prelude.{
  ℕ, zero, suc, ◌+◌, ◌-◌, ◌*◌, ◌/◌, ◌%◌, ◌^◌, List, [], ◌∷◌, ◌++◌, Option, some, none, Bool, true,
  false, not, ◌&&◌, ltb, leb, ◌==◌, nat_eq, length, take, drop, ◌||◌, if◌then◌else◌,
}

abbrev pub Bytes : Type 0
Bytes = List ℕ

-- What a call does: it returns a value or errPB, or a slice expression panics.
pub data Result {ℓ} (A : Type ℓ) : Type ℓ where
  returned : A → Result A
  not_protobuf panicked : Result A

-- One round of pbVarintAt for each shift; `fuel` is the number of shifts below 64 that are left. The
-- bits of `v` lie below `shift`, so `|` is `+`.
unfoldable pub varint_from : ℕ → ℕ → ℕ → Bytes → Option (ℕ × Bytes)
varint_from zero shift v b = none
varint_from (suc fuel) shift v [] = none
varint_from (suc fuel) shift v (c ∷ b) =
    let v' = v + (c % 128) * 2 ^ shift % 2 ^ 64 in
    let more = varint_from fuel (shift + 7) v' b in if ltb c 128 then some (v', b) else more

-- Shifts 0, 7, up to 63.
unfoldable pub pb_varint_at : Bytes → Option (ℕ × Bytes)
unfolding varint_from
pb_varint_at b = varint_from 10 0 0 b

pub record Field : Type 0 where
  pub num : ℕ
  pub wire : ℕ
  pub varint : ℕ
  pub bytes : Bytes

-- What one round of the loop of pbFields answers: a field, and what is left behind it.
abbrev pub Read : Type 0
Read = Result (Field × Bytes)

-- Wire type 0.
abbrev pub read_varint : Field → Option (ℕ × Bytes) → Read
read_varint f none = not_protobuf
read_varint f (some (v, rest)) = returned (record f { varint = v }, rest)

-- Wire types 1 and 5: `if i+size > len(b)`.
abbrev pub skip : Field → ℕ → ℕ → ℕ → Bytes → Read
skip f len size i rest = if ltb len (i + size) then not_protobuf else returned (f, drop size rest)

-- Wire type 2, with the length `l` and `rest` behind index `n`: `n+int(l) > len(b) || int(l) < 0`, the
-- sum being that of 64-bit integers, and then b[n : n+int(l)], which panics if its end is negative.
unfoldable pub read_bytes : Field → ℕ → ℕ → ℕ → Bytes → Read
read_bytes f len n l rest =
    let end = (n + l) % 2 ^ 64 in
    if (ltb end (2 ^ 63) && ltb len end) || leb (2 ^ 63) l
    then not_protobuf
    else if leb (2 ^ 63) end
    then panicked
    else returned (record f { bytes = take l rest }, drop l rest)

abbrev pub read_length : Field → ℕ → Option (ℕ × Bytes) → Read
read_length f len none = not_protobuf
read_length f len (some (l, rest)) = read_bytes f len (len - length rest) l rest

-- One round, given the key that pbVarintAt read; `len` is len(b).
unfoldable pub read_value : ℕ → Option (ℕ × Bytes) → Read
unfolding pb_varint_at read_bytes
read_value len none = not_protobuf
read_value len (some (k, rest)) =
    let f : Field = record { num = k / 8; wire = k % 8; varint = 0; bytes = [] } in
    let i = len - length rest in
    if f.wire == 0
    then read_varint f (pb_varint_at rest)
    else if f.wire == 1
    then skip f len 8 i rest
    else if f.wire == 5
    then skip f len 4 i rest
    else if f.wire == 2
    then read_length f len (pb_varint_at rest)
    else not_protobuf

abbrev pub and_then : Field → Result (List Field) → Result (List Field)
and_then f (returned fs) = returned (f ∷ fs)
and_then f not_protobuf = not_protobuf
and_then f panicked = panicked

-- The loop: each round reads at least one byte, so there is no more of them than bytes.
unfoldable pub fields_from : ℕ → ℕ → Bytes → Result (List Field)
unfolding pb_varint_at read_value
fields_from fuel len [] = returned []
fields_from zero len (c ∷ b) = not_protobuf
fields_from (suc fuel) len (c ∷ b) = elim (read_value len (pb_varint_at (c ∷ b))) [
  | returned (f, rest) ↦ and_then f (fields_from fuel len rest)
  | not_protobuf ↦ not_protobuf
  | panicked ↦ panicked
]

unfoldable pub pb_fields : Bytes → Result (List Field)
unfolding fields_from
pb_fields b = fields_from (length b) (length b) b

-- pbAll, pbFirst, pbString and pbVarint.
unfoldable pub chosen_bytes : ℕ → List Field → List Bytes
chosen_bytes num [] = []
chosen_bytes num (f ∷ fs) =
    let more = chosen_bytes num fs in if f.num == num && f.wire == 2 then f.bytes ∷ more else more

unfoldable pub pb_all : Bytes → ℕ → Result (List Bytes)
unfolding pb_fields chosen_bytes
pb_all b num = elim (pb_fields b) [
  | returned fs ↦ returned (chosen_bytes num fs)
  | not_protobuf ↦ returned []
  | panicked ↦ panicked
]

abbrev pub first_of : Result (List Bytes) → Result (Option Bytes)
first_of (returned []) = returned none
first_of (returned (v ∷ vs)) = returned (some v)
first_of not_protobuf = not_protobuf
first_of panicked = panicked

unfoldable pub pb_first : Bytes → ℕ → Result (Option Bytes)
unfolding pb_all
pb_first b num = first_of (pb_all b num)

unfoldable pub pb_string : Bytes → ℕ → Result (Option Bytes)
unfolding pb_first
pb_string b num = pb_first b num

unfoldable pub chosen_varint : ℕ → List Field → Option ℕ
chosen_varint num [] = none
chosen_varint num (f ∷ fs) =
    let more = chosen_varint num fs in if f.num == num && f.wire == 0 then some f.varint else more

unfoldable pub pb_varint : Bytes → ℕ → Result (Option ℕ)
unfolding pb_fields chosen_varint
pb_varint b num = elim (pb_fields b) [
  | returned fs ↦ returned (chosen_varint num fs)
  | not_protobuf ↦ returned none
  | panicked ↦ panicked
]
