-- ===== src/Agent/Fed/Groups.antt =====
-- fed.go: the pieces of one kind, which a key tells: how they are listed, counted and cleared.
use sparstrowgen.Prelude.{
  ℕ, suc, ◌≡◌, refl, sym, ap, subst, ◌∙◌, inl, inr, List, [], ◌∷◌, ◌++◌, some, Bool, true, false,
  not, ◌&&◌, ◌==◌, nat_eq, if◌then◌else◌, length, arith, Bool-cases, Option-cases, is_some,
}
use sparstrowgen.Prelude.Maps.{Map, lookup}
use sparstrowgen.Text.{Text}
use sparstrowgen.Text.Equality.{text_eq_instance, text_eq_iff, text_eq_refl}
use sparstrowgen.Agent.Fed.{
  Kind, instructions, file, skill, tool, deferred, server, agent, environment, other, Piece, Fed,
  key_of, key, is_gone, same_kind, drop, clear_each, clear, of_kind, count_from, count, has_name,
  sorted_by, sorted, kind_order,
}
use sparstrowgen.Agent.Fed.Pieces.{
  live_from, live, has_key, without, index_of, IsValid, has_key-without,
}
use sparstrowgen.Agent.Fed.Pieces.Indexed.{index_of-has_key, index_of-live}
use sparstrowgen.Agent.Fed.Board.{Holds, Keeps, drop-Keeps}

-- The plain list's pieces of a kind, and the others.
unfoldable pub only : Kind → List Piece → List Piece
only kind [] = []
only kind (p ∷ ps) = let rest = only kind ps in if same_kind p.kind kind then p ∷ rest else rest

unfoldable pub except : Kind → List Piece → List Piece
except kind [] = []
except kind (p ∷ ps) = let rest = except kind ps in if same_kind p.kind kind then rest else p ∷ rest

unfoldable pub grouped : List Kind → List Piece → List Piece
unfolding only
grouped [] l = []
grouped (kind ∷ kinds) l = only kind l ++ grouped kinds l

kind_told : Text → Kind
kind_told [] = other
kind_told (c ∷ []) = other
kind_told (c ∷ d ∷ s) =
    if c == b'i'
    then instructions
    else if c == b'f'
    then file
    else if c == b's'
    then (if d == b'k' then skill else server)
    else if c == b't'
    then tool
    else if c == b'd'
    then deferred
    else if c == b'a'
    then agent
    else if c == b'e'
    then environment
    else other

-- A key tells the kind.
kind_told-key : (kind : Kind) (name source : Text) → kind_told (key kind name source) ≡ kind
unfolding kind_told key
kind_told-key instructions name [] = refl
kind_told-key instructions name (c ∷ s) = refl
kind_told-key file name [] = refl
kind_told-key file name (c ∷ s) = refl
kind_told-key skill name [] = refl
kind_told-key skill name (c ∷ s) = refl
kind_told-key tool name [] = refl
kind_told-key tool name (c ∷ s) = refl
kind_told-key deferred name [] = refl
kind_told-key deferred name (c ∷ s) = refl
kind_told-key server name [] = refl
kind_told-key server name (c ∷ s) = refl
kind_told-key agent name [] = refl
kind_told-key agent name (c ∷ s) = refl
kind_told-key environment name [] = refl
kind_told-key environment name (c ∷ s) = refl
kind_told-key other name [] = refl
kind_told-key other name (c ∷ s) = refl

kind_told-key_of : (p : Piece) → kind_told (key_of p) ≡ p.kind
unfolding key_of
kind_told-key_of p = kind_told-key p.kind p.name p.source

of_kind-live_from :
    (kind : Kind) (i : ℕ) (gone : Map ℕ Bool) (ps : List Piece)
    → of_kind kind i gone ps ≡ only kind (live_from i gone ps)
unfolding of_kind only live_from
of_kind-live_from kind i gone [] = refl
of_kind-live_from kind i gone (p ∷ ps) =
    let ih = of_kind-live_from kind (suc i) gone ps in
    elim (Bool-cases (is_gone i gone)) [
      | inl g ↦ elim (Bool-cases (same_kind p.kind kind)) [
        | inl e ↦ rw (g, e, of_kind, live_from) ih
        | inr e ↦ rw (g, e, of_kind, live_from) ih
      ]
      | inr g ↦ elim (Bool-cases (same_kind p.kind kind)) [
        | inl e ↦ rw (g, e, of_kind, live_from) (ap (λ l. p ∷ l) ih)
        | inr e ↦ rw (g, e, of_kind, live_from) ih
      ]
    ]

count_from-live_from :
    (kind : Kind) (i : ℕ) (gone : Map ℕ Bool) (ps : List Piece)
    → count_from kind i gone ps ≡ length (only kind (live_from i gone ps))
unfolding count_from only live_from
count_from-live_from kind i gone [] = refl
count_from-live_from kind i gone (p ∷ ps) =
    ground (arith, count_from-live_from kind (suc i) gone ps)

sorted_by-grouped : (kinds : List Kind) (f : Fed) → sorted_by kinds f ≡ grouped kinds (live f)
unfolding sorted_by grouped live
sorted_by-grouped [] f = refl
sorted_by-grouped (kind ∷ kinds) f =
    rw (of_kind-live_from kind 0 f.gone f.list)
      (ap (λ l. only kind (live_from 0 f.gone f.list) ++ l) (sorted_by-grouped kinds f))

-- What is read of a valid state is read of its plain list.
pub sorted-live : (f : Fed) → sorted f ≡ grouped kind_order (live f)
unfolding sorted
sorted-live f = sorted_by-grouped kind_order f

pub count-live : (kind : Kind) (f : Fed) → count kind f ≡ length (only kind (live f))
unfolding count live
count-live kind f = count_from-live_from kind 0 f.gone f.list

pub has_name-live :
    (kind : Kind) (name : Text) (f : Fed)
    → IsValid f
    → has_name kind name f ≡ has_key (key kind name []) (live f)
unfolding has_name live
has_name-live kind name f v =
    let k = key kind name [] in
    elim (Option-cases (lookup k f.by_key)) [
      | inl e ↦
          rw (e, has_name)
            (sym (ap is_some (sym (v.indexed k) ∙ e)) ∙ index_of-has_key k 0 f.gone f.list)
      | inr (i, e) ↦
          let at : index_of k 0 f.gone f.list ≡ some i = sym (v.indexed k) ∙ e in
          rw (e, has_name)
            (rw (index_of-live k 0 i f.gone f.list at)
              (sym (ap is_some at) ∙ index_of-has_key k 0 f.gone f.list))
    ]

-- Clearing.
remove_each : Kind → List Piece → List Piece → List Piece
remove_each kind [] l = l
remove_each kind (p ∷ ps) l =
    remove_each kind ps (if same_kind p.kind kind then without (key_of p) l else l)

clear_each-Keeps :
    (kind : Kind) (ps : List Piece) → Keeps (clear_each kind ps) (remove_each kind ps)
unfolding clear_each remove_each
clear_each-Keeps kind [] f v = record { valid = v; held = refl }
clear_each-Keeps kind (p ∷ ps) f v = elim (Bool-cases (same_kind p.kind kind)) [
  | inl e ↦
      let h = drop-Keeps (key_of p) f v in
      rw (e, clear_each, remove_each)
        (subst (λ l. Holds (remove_each kind ps l) (clear_each kind ps (drop (key_of p) f))) h.held
          (clear_each-Keeps kind ps (drop (key_of p) f) h.valid))
  | inr e ↦ rw (e, clear_each, remove_each) (clear_each-Keeps kind ps f v)
]

has_key-only :
    (k : Text) (kind : Kind) (l : List Piece)
    → has_key k (only kind l) ≡ (same_kind (kind_told k) kind && has_key k l)
unfolding has_key only
has_key-only k kind [] = ground arith
has_key-only k kind (p ∷ ps) = elim (Bool-cases (key_of p == k)) [
  | inl e ↦
      let q : key_of p ≡ k = (text_eq_iff (key_of p) k).0 e in
      let s : same_kind (kind_told k) kind ≡ same_kind p.kind kind =
        ap (λ x. same_kind x kind) (sym (ap kind_told q) ∙ kind_told-key_of p) in
      ground (arith, has_key-only k kind ps, s, e)
  | inr e ↦ ground (arith, has_key-only k kind ps, e)
]

has_key-remove_each :
    (k : Text) (kind : Kind) (ps l : List Piece)
    → has_key k (remove_each kind ps l) ≡ (not (has_key k (only kind ps)) && has_key k l)
unfolding has_key only remove_each
has_key-remove_each k kind [] l = refl
has_key-remove_each k kind (p ∷ ps) l = ground (
  arith,
  has_key-remove_each k kind ps (without (key_of p) l),
  has_key-remove_each k kind ps l,
  has_key-without (key_of p) k l,
)

has_key-live_from :
    (k : Text) (i : ℕ) (gone : Map ℕ Bool) (ps : List Piece)
    → has_key k (live_from i gone ps) ≡ true
    → has_key k ps ≡ true
unfolding has_key live_from
has_key-live_from k i gone [] h = h
has_key-live_from k i gone (p ∷ ps) h = ground (arith, has_key-live_from k (suc i) gone ps)

no_keys : (l : List Piece) → ((k : Text) → has_key k l ≡ false) → l ≡ []
unfolding has_key
no_keys [] h = refl
no_keys (p ∷ ps) h = cc (rw (text_eq_refl (key_of p)) at (h (key_of p)))

except-all : (kind : Kind) (l : List Piece) → only kind l ≡ [] → except kind l ≡ l
unfolding only except
except-all kind [] h = refl
except-all kind (p ∷ ps) h = ground (arith, except-all kind ps, h)

except-without :
    (kind : Kind) (k : Text) (l : List Piece)
    → same_kind (kind_told k) kind ≡ true
    → except kind (without k l) ≡ except kind l
unfolding except without
except-without kind k [] h = refl
except-without kind k (p ∷ ps) h = elim (Bool-cases (key_of p == k)) [
  | inl e ↦
      let q : key_of p ≡ k = (text_eq_iff (key_of p) k).0 e in
      let s : same_kind (kind_told k) kind ≡ same_kind p.kind kind =
        ap (λ x. same_kind x kind) (sym (ap kind_told q) ∙ kind_told-key_of p) in
      ground (arith, except-without kind k ps h, s, e, h)
  | inr e ↦ ground (arith, except-without kind k ps h, e)
]

except-remove_each :
    (kind : Kind) (ps l : List Piece) → except kind (remove_each kind ps l) ≡ except kind l
unfolding remove_each
except-remove_each kind [] l = refl
except-remove_each kind (p ∷ ps) l = elim (Bool-cases (same_kind p.kind kind)) [
  | inl e ↦
      rw (e, remove_each)
        (except-remove_each kind ps (without (key_of p) l)
          ∙ except-without kind (key_of p) l (ap (λ x. same_kind x kind) (kind_told-key_of p) ∙ e))
  | inr e ↦ rw (e, remove_each) (except-remove_each kind ps l)
]

-- `clear` takes away every piece of the kind and no other.
pub clear-Keeps : (kind : Kind) → Keeps (clear kind) (except kind)
unfolding clear live
clear-Keeps kind f v =
    let l = live_from 0 f.gone f.list in
    let left = remove_each kind f.list l in
    let gone : only kind left ≡ [] = no_keys (only kind left) (λ k. ground (
      arith,
      has_key-only k kind left,
      has_key-remove_each k kind f.list l,
      has_key-only k kind f.list,
      has_key-live_from k 0 f.gone f.list,
    )) in
    subst (λ m. Holds m (clear_each kind f.list f))
      (sym (except-all kind left gone) ∙ except-remove_each kind f.list l)
      (clear_each-Keeps kind f.list f v)
