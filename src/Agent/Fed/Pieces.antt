-- ===== src/Agent/Fed/Pieces.antt =====
-- fed.go: the list, the index and the marks hold a plain list of pieces, each key once.
pub mod Indexed
use sparstrowgen.Prelude.{
  ℕ, zero, suc, ◌+◌, ◌≤◌, ◌<◌, ◌≡◌, refl, sym, subst, inl, inr, List, [], ◌∷◌, ◌++◌, Option, some,
  none, Bool, true, false, not, ◌&&◌, ◌||◌, ◌==◌, nat_eq, if◌then◌else◌, length, arith, Bool-cases,
  is_some,
}
use sparstrowgen.Prelude.Maps.{Map, lookup, insert, lookup-insert}
use sparstrowgen.Text.{Text}
use sparstrowgen.Text.Equality.{text_eq_instance, text_eq_iff}
use sparstrowgen.Agent.Fed.{Piece, Fed, key_of, is_gone, set_at}

-- What is not gone, of the pieces from index `i` on.
unfoldable pub live_from : ℕ → Map ℕ Bool → List Piece → List Piece
unfolding is_gone
live_from i gone [] = []
live_from i gone (p ∷ ps) =
    let rest = live_from (suc i) gone ps in if is_gone i gone then rest else p ∷ rest

unfoldable pub live : Fed → List Piece
unfolding live_from
live f = live_from 0 f.gone f.list

-- The plain list's operations.
unfoldable pub has_key : Text → List Piece → Bool
has_key k [] = false
has_key k (p ∷ ps) = key_of p == k || has_key k ps

unfoldable pub put_in : Piece → List Piece → List Piece
put_in p [] = p ∷ []
put_in p (q ∷ qs) = if key_of q == key_of p then p ∷ qs else q ∷ put_in p qs

unfoldable pub without : Text → List Piece → List Piece
without k [] = []
without k (p ∷ ps) = let rest = without k ps in if key_of p == k then rest else p ∷ rest

abbrev pub KeysDiffer : List Piece → Type 0
KeysDiffer [] = Unit {0}
KeysDiffer (p ∷ ps) = (has_key (key_of p) ps ≡ false) × KeysDiffer ps

-- The index at which a key's piece stands.
abbrev pub index_of : Text → ℕ → Map ℕ Bool → List Piece → Option ℕ
index_of k i gone [] = none
index_of k i gone (p ∷ ps) =
    let rest = index_of k (suc i) gone ps in
    if not (is_gone i gone) && key_of p == k then some i else rest

abbrev pub Unmarked : ℕ → Map ℕ Bool → Type 0
Unmarked n gone = (i : ℕ) → n ≤ i → is_gone i gone ≡ false

pub record IsValid (f : Fed) : Type 0 where
  pub indexed : (k : Text) → lookup k f.by_key ≡ index_of k 0 f.gone f.list
  pub unmarked : Unmarked (length f.list) f.gone
  pub differ : KeysDiffer (live f)

-- The plain list.
pub has_key-without :
    (k k' : Text) (l : List Piece) → has_key k' (without k l) ≡ (not (k == k') && has_key k' l)
unfolding has_key without
has_key-without k k' [] = ground arith
has_key-without k k' (p ∷ ps) = ground (
  arith,
  has_key-without k k' ps,
  text_eq_iff (key_of p) k,
  text_eq_iff (key_of p) k',
  text_eq_iff k k',
)

pub has_key-put_in :
    (k : Text) (p : Piece) (l : List Piece)
    → has_key k (put_in p l) ≡ (key_of p == k || has_key k l)
unfolding has_key put_in
has_key-put_in k p [] = refl
has_key-put_in k p (q ∷ qs) = ground (
  arith,
  has_key-put_in k p qs,
  text_eq_iff (key_of q) (key_of p),
  text_eq_iff (key_of q) k,
  text_eq_iff (key_of p) k,
)

pub without-KeysDiffer : (k : Text) (l : List Piece) → KeysDiffer l → KeysDiffer (without k l)
unfolding without
without-KeysDiffer k [] d = tt
without-KeysDiffer k (p ∷ ps) d = elim (Bool-cases (key_of p == k)) [
  | inl e ↦ rw (e, without) (without-KeysDiffer k ps d.1)
  | inr e ↦
      rw (e, without)
        (ground (arith, has_key-without k (key_of p) ps, d.0), without-KeysDiffer k ps d.1)
]

pub put_in-KeysDiffer : (p : Piece) (l : List Piece) → KeysDiffer l → KeysDiffer (put_in p l)
unfolding put_in has_key
put_in-KeysDiffer p [] d = (refl, tt)
put_in-KeysDiffer p (q ∷ qs) d = elim (Bool-cases (key_of q == key_of p)) [
  | inl e ↦
      rw (e, put_in)
        (subst (λ k. has_key k qs ≡ false) ((text_eq_iff (key_of q) (key_of p)).0 e) d.0, d.1)
  | inr e ↦
      rw (e, put_in)
        (
          ground (
            arith,
            has_key-put_in (key_of q) p qs,
            text_eq_iff (key_of p) (key_of q),
            text_eq_iff (key_of q) (key_of p),
            d.0,
            e,
          ),
          put_in-KeysDiffer p qs d.1,
        )
]
