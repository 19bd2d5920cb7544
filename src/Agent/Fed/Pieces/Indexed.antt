-- ===== src/Agent/Fed/Pieces/Indexed.antt =====
-- fed.go: how the index, the list and the marks move together.
use sparstrowgen.Prelude.{
  ℕ, zero, suc, ◌+◌, ◌≤◌, ◌<◌, ◌≡◌, refl, sym, subst, List, [], ◌∷◌, ◌++◌, some, none, Bool, true,
  false, ◌||◌, ◌==◌, nat_eq, if◌then◌else◌, length, arith, is_some,
}
use sparstrowgen.Prelude.Maps.{Map, insert, lookup-insert}
use sparstrowgen.Text.{Text}
use sparstrowgen.Text.Equality.{text_eq_instance, text_eq_iff}
use sparstrowgen.Agent.Fed.{Piece, key_of, is_gone, set_at}
use sparstrowgen.Agent.Fed.Pieces.{live_from, has_key, put_in, without, KeysDiffer, index_of}

pub index_of-bound :
    (k : Text) (i j : ℕ) (gone : Map ℕ Bool) (ps : List Piece)
    → index_of k i gone ps ≡ some j
    → i ≤ j
index_of-bound k i j gone [] h = cc
index_of-bound k i j gone (p ∷ ps) h = ground (arith, index_of-bound k (suc i) j gone ps)

-- An indexed piece is not gone.
pub index_of-live :
    (k : Text) (i j : ℕ) (gone : Map ℕ Bool) (ps : List Piece)
    → index_of k i gone ps ≡ some j
    → is_gone j gone ≡ false
index_of-live k i j gone [] h = cc
index_of-live k i j gone (p ∷ ps) h = ground (arith, index_of-live k (suc i) j gone ps)

pub index_of-has_key :
    (k : Text) (i : ℕ) (gone : Map ℕ Bool) (ps : List Piece)
    → is_some (index_of k i gone ps) ≡ has_key k (live_from i gone ps)
unfolding live_from has_key
index_of-has_key k i gone [] = refl
index_of-has_key k i gone (p ∷ ps) = ground (arith, index_of-has_key k (suc i) gone ps)

-- Appending.
pub live_from-append :
    (i : ℕ) (gone : Map ℕ Bool) (p : Piece) (ps : List Piece)
    → is_gone (i + length ps) gone ≡ false
    → live_from i gone (ps ++ p ∷ []) ≡ live_from i gone ps ++ p ∷ []
unfolding live_from
live_from-append i gone p [] h =
    let e : is_gone i gone ≡ false = subst (λ n. is_gone n gone ≡ false) (omega arith) h in
    rw e refl
live_from-append i gone p (q ∷ ps) h =
    let g : is_gone (suc i + length ps) gone ≡ false =
      subst (λ n. is_gone n gone ≡ false) (omega arith) h in
    ground (arith, live_from-append (suc i) gone p ps g)

pub index_of-append :
    (k : Text) (i : ℕ) (gone : Map ℕ Bool) (p : Piece) (ps : List Piece)
    → is_gone (i + length ps) gone ≡ false
    → index_of (key_of p) i gone ps ≡ none
    → index_of k i gone (ps ++ p ∷ [])
      ≡ (if key_of p == k then some (i + length ps) else index_of k i gone ps)
index_of-append k i gone p [] h e =
    let z : i + 0 ≡ i = omega arith in rw z (rw (rw z at h) (ground arith))
index_of-append k i gone p (q ∷ ps) h e =
    let s : suc i + length ps ≡ i + suc (length ps) = omega arith in
    let g : is_gone (suc i + length ps) gone ≡ false =
      subst (λ n. is_gone n gone ≡ false) (sym s) h in
    ground (
      arith,
      index_of-append k (suc i) gone p ps g,
      text_eq_iff (key_of p) k,
      text_eq_iff (key_of q) k,
      text_eq_iff (key_of q) (key_of p),
      s,
      e,
    )

pub put_in-append :
    (p : Piece) (l : List Piece) → has_key (key_of p) l ≡ false → put_in p l ≡ l ++ p ∷ []
unfolding put_in has_key
put_in-append p [] h = refl
put_in-append p (q ∷ qs) h = ground (arith, put_in-append p qs, h)

-- Replacing.
pub live_from-set_at :
    (i d : ℕ) (gone : Map ℕ Bool) (p : Piece) (ps : List Piece)
    → index_of (key_of p) i gone ps ≡ some (i + d)
    → live_from i gone (set_at d p ps) ≡ put_in p (live_from i gone ps)
unfolding live_from put_in
live_from-set_at i d gone p [] h = cc
live_from-set_at i zero gone p (q ∷ ps) h =
    ground (arith, index_of-bound (key_of p) (suc i) (i + 0) gone ps)
live_from-set_at i (suc d) gone p (q ∷ ps) h =
    let s : suc i + d ≡ i + suc d = omega arith in
    ground (arith, live_from-set_at (suc i) d gone p ps, s, h)

pub index_of-set_at :
    (k : Text) (i d : ℕ) (gone : Map ℕ Bool) (p : Piece) (ps : List Piece)
    → index_of (key_of p) i gone ps ≡ some (i + d)
    → index_of k i gone (set_at d p ps) ≡ index_of k i gone ps
index_of-set_at k i d gone p [] h = cc
index_of-set_at k i zero gone p (q ∷ ps) h =
    ground (
      arith,
      index_of-bound (key_of p) (suc i) (i + 0) gone ps,
      text_eq_iff (key_of q) (key_of p),
      h,
    )
index_of-set_at k i (suc d) gone p (q ∷ ps) h =
    let s : suc i + d ≡ i + suc d = omega arith in
    ground (arith, index_of-set_at k (suc i) d gone p ps, s, h)

pub length-set_at : (d : ℕ) (p : Piece) (ps : List Piece) → length (set_at d p ps) ≡ length ps
length-set_at d p [] = refl
length-set_at zero p (q ∷ ps) = refl
length-set_at (suc d) p (q ∷ ps) = omega (arith, length-set_at d p ps)

-- Marking.
pub is_gone-insert :
    (i j : ℕ) (gone : Map ℕ Bool) → is_gone i (insert j true gone) ≡ (j == i || is_gone i gone)
unfolding is_gone
is_gone-insert i j gone = ground (arith, lookup-insert j i true gone)

pub without-absent : (k : Text) (l : List Piece) → has_key k l ≡ false → without k l ≡ l
unfolding has_key without
without-absent k [] h = refl
without-absent k (p ∷ ps) h = ground (arith, without-absent k ps, h)

live_from-mark_before :
    (i j : ℕ) (gone : Map ℕ Bool) (ps : List Piece)
    → j < i
    → live_from i (insert j true gone) ps ≡ live_from i gone ps
unfolding live_from
live_from-mark_before i j gone [] h = refl
live_from-mark_before i j gone (p ∷ ps) h =
    ground (arith, live_from-mark_before (suc i) j gone ps, is_gone-insert i j gone)

pub live_from-mark :
    (k : Text) (i j : ℕ) (gone : Map ℕ Bool) (ps : List Piece)
    → index_of k i gone ps ≡ some j
    → KeysDiffer (live_from i gone ps)
    → live_from i (insert j true gone) ps ≡ without k (live_from i gone ps)
unfolding live_from without
live_from-mark k i j gone [] h d = refl
live_from-mark k i j gone (p ∷ ps) h d = ground (
  arith,
  live_from-mark k (suc i) j gone ps,
  live_from-mark_before (suc i) j gone ps,
  is_gone-insert i j gone,
  index_of-bound k (suc i) j gone ps,
  text_eq_iff (key_of p) k,
  without-absent k (live_from (suc i) gone ps),
  h,
  d,
)

index_of-mark_before :
    (k : Text) (i j : ℕ) (gone : Map ℕ Bool) (ps : List Piece)
    → j < i
    → index_of k i (insert j true gone) ps ≡ index_of k i gone ps
index_of-mark_before k i j gone [] h = refl
index_of-mark_before k i j gone (p ∷ ps) h =
    ground (arith, index_of-mark_before k (suc i) j gone ps, is_gone-insert i j gone)

pub index_of-mark :
    (k k' : Text) (i j : ℕ) (gone : Map ℕ Bool) (ps : List Piece)
    → index_of k i gone ps ≡ some j
    → k == k' ≡ false
    → index_of k' i (insert j true gone) ps ≡ index_of k' i gone ps
index_of-mark k k' i j gone [] h d = refl
index_of-mark k k' i j gone (p ∷ ps) h d = ground (
  arith,
  index_of-mark k k' (suc i) j gone ps,
  index_of-mark_before k' (suc i) j gone ps,
  is_gone-insert i j gone,
  index_of-bound k (suc i) j gone ps,
  text_eq_iff (key_of p) k,
  text_eq_iff (key_of p) k',
  text_eq_iff k k',
  h,
  d,
)
