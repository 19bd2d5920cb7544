-- ===== src/Agent/Fed/Board.antt =====
-- fed.go: what the operations do to the pieces that are not gone.
use sparstrowgen.Prelude.{
  ℕ, suc, ◌+◌, ◌<◌, ◌≡◌, refl, sym, ap, subst, ◌∙◌, inl, inr, List, [], ◌∷◌, some, none, Bool, true,
  false, nat_eq, length, length-append, arith, Option-cases, is_some,
}
use sparstrowgen.Prelude.Maps.{Map, lookup, insert, lookup-insert, lookup-delete}
use sparstrowgen.Text.{Text}
use sparstrowgen.Text.Equality.{text_eq_instance, text_eq_iff}
use sparstrowgen.Agent.Fed.{Piece, Fed, key_of, is_gone, put_piece, append_piece, drop, empty}
use sparstrowgen.Agent.Fed.Pieces.{
  live_from, live, has_key, put_in, without, KeysDiffer, index_of, Unmarked, IsValid,
  without-KeysDiffer, put_in-KeysDiffer, has_key-without,
}
use sparstrowgen.Agent.Fed.Pieces.Indexed.{
  index_of-live, index_of-has_key, live_from-append, index_of-append, put_in-append,
  live_from-set_at, index_of-set_at, length-set_at, is_gone-insert, live_from-mark, index_of-mark,
  without-absent,
}

-- A valid state that holds a given plain list.
pub record Holds (l : List Piece) (f : Fed) : Type 0 where
  pub valid : IsValid f
  pub held : live f ≡ l

abbrev pub Keeps : (Fed → Fed) → (List Piece → List Piece) → Type 0
Keeps op spec = (f : Fed) → IsValid f → Holds (spec (live f)) (op f)

pub empty-Holds : Holds [] empty
unfolding empty live live_from is_gone lookup
empty-Holds = record {
  valid = record { indexed = λ k. refl; unmarked = λ i h. refl; differ = tt };
  held = refl;
}

holds :
    (l : List Piece) (f : Fed)
    → live f ≡ l
    → KeysDiffer l
    → Unmarked (length f.list) f.gone
    → ((k : Text) → lookup k f.by_key ≡ index_of k 0 f.gone f.list)
    → Holds l f
holds l f e d u h = record {
  valid = record { indexed = h; unmarked = u; differ = subst KeysDiffer (sym e) d };
  held = e;
}

append_piece-Holds :
    (p : Piece) (f : Fed)
    → IsValid f
    → lookup (key_of p) f.by_key ≡ none
    → Holds (put_in p (live f)) (append_piece (key_of p) p f)
unfolding live
append_piece-Holds p f v e =
    let absent : index_of (key_of p) 0 f.gone f.list ≡ none = sym (v.indexed (key_of p)) ∙ e in
    let new : has_key (key_of p) (live f) ≡ false =
      sym (index_of-has_key (key_of p) 0 f.gone f.list) ∙ ap is_some absent in
    let z : 0 + length f.list ≡ length f.list = omega arith in
    let free : is_gone (0 + length f.list) f.gone ≡ false =
      v.unmarked (0 + length f.list) (omega arith) in
    holds _ _ (live_from-append 0 f.gone p f.list free ∙ sym (put_in-append p (live f) new))
      (put_in-KeysDiffer p (live f) v.differ)
      (λ i h. v.unmarked i (omega (arith, h, length-append f.list (p ∷ []))))
      (λ k.
        lookup-insert (key_of p) k (length f.list) f.by_key
        ∙ ground (arith, v.indexed k, index_of-append k 0 f.gone p f.list free absent, z))

-- `put` replaces the piece under the same key in its place, or appends.
pub put_piece-Keeps : (p : Piece) → Keeps (put_piece p) (put_in p)
unfolding put_piece live
put_piece-Keeps p f v = elim (Option-cases (lookup (key_of p) f.by_key)) [
  | inl e ↦ rw (e, put_piece) (append_piece-Holds p f v e)
  | inr (i, e) ↦
      let at : index_of (key_of p) 0 f.gone f.list ≡ some i = sym (v.indexed (key_of p)) ∙ e in
      let s : i ≡ 0 + i = omega arith in
      let at' : index_of (key_of p) 0 f.gone f.list ≡ some (0 + i) = at ∙ ap some s in
      rw (e, put_piece)
        (rw (index_of-live (key_of p) 0 i f.gone f.list at) (
          holds _ _ (live_from-set_at 0 i f.gone p f.list at')
            (put_in-KeysDiffer p (live f) v.differ)
            (λ j h. v.unmarked j (omega (arith, h, length-set_at i p f.list)))
            (λ k. v.indexed k ∙ sym (index_of-set_at k 0 i f.gone p f.list at'))))
]

index_of_absent :
    (k : Text) (gone : Map ℕ Bool) (ps : List Piece)
    → has_key k (live_from 0 gone ps) ≡ false
    → index_of k 0 gone ps ≡ none
index_of_absent k gone ps h =
    ground (arith, index_of-has_key k 0 gone ps, Option-cases (index_of k 0 gone ps))

index_of-in :
    (k : Text) (i j : ℕ) (gone : Map ℕ Bool) (ps : List Piece)
    → index_of k i gone ps ≡ some j
    → j < i + length ps
index_of-in k i j gone [] h = cc
index_of-in k i j gone (p ∷ ps) h = ground (arith, index_of-in k (suc i) j gone ps)

-- `drop` takes the key's piece away.
pub drop-Keeps : (k : Text) → Keeps (drop k) (without k)
unfolding drop live
drop-Keeps k f v = elim (Option-cases (lookup k f.by_key)) [
  | inl e ↦
      let absent : index_of k 0 f.gone f.list ≡ none = sym (v.indexed k) ∙ e in
      let new : has_key k (live f) ≡ false =
        sym (index_of-has_key k 0 f.gone f.list) ∙ ap is_some absent in
      rw (e, drop) (record { valid = v; held = sym (without-absent k (live f) new) })
  | inr (i, e) ↦
      let at : index_of k 0 f.gone f.list ≡ some i = sym (v.indexed k) ∙ e in
      let l : live_from 0 (insert i true f.gone) f.list ≡ without k (live f) =
        live_from-mark k 0 i f.gone f.list at v.differ in
      let none_left : index_of k 0 (insert i true f.gone) f.list ≡ none =
        index_of_absent k (insert i true f.gone) f.list
          (ap (has_key k) l ∙ ground (arith, has_key-without k k (live f), text_eq_iff k k)) in
      rw (e, drop)
        (holds _ _ l (without-KeysDiffer k (live f) v.differ)
          (λ j h. ground (
            arith,
            is_gone-insert j i f.gone,
            v.unmarked j h,
            h,
            index_of-in k 0 i f.gone f.list at,
          ))
          (λ k'.
            lookup-delete k k' f.by_key
            ∙ ground (
              arith,
              v.indexed k',
              index_of-mark k k' 0 i f.gone f.list at,
              none_left,
              text_eq_iff k k',
            )))
]
