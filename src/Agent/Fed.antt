-- ===== src/Agent/Fed.antt =====
-- fed.go: the pieces of what an agent was fed, kept by kind and name while its records are read. A
-- piece is kept under its key; one that is removed stays in the list and its index is marked as gone.
pub mod Pieces
pub mod Board
pub mod Groups
pub mod Texts
pub mod Documents
pub mod Codex
pub mod Agy
pub mod Context
mod Runs
use sparstrowgen.Prelude.{
  ℕ, zero, suc, ◌+◌, List, [], ◌∷◌, ◌++◌, Option, some, none, Bool, true, false, not, ◌&&◌, ◌==◌,
  nat_eq, if◌then◌else◌, length,
}
use sparstrowgen.Prelude.Maps.{Map, lookup, insert, delete}
use sparstrowgen.Prelude.Int.{ℤ}
use sparstrowgen.Text.{Text, codes, text_eq}
use sparstrowgen.Text.Equality.{text_eq_instance}

pub data Kind : Type 0 where
  instructions file skill tool deferred server agent environment other : Kind

abbrev pub spelled : Kind → Text
spelled instructions = codes "instructions"
spelled file = codes "file"
spelled skill = codes "skill"
spelled tool = codes "tool"
spelled deferred = codes "deferred"
spelled server = codes "server"
spelled agent = codes "agent"
spelled environment = codes "environment"
spelled other = codes "other"

unfoldable pub same_kind : Kind → Kind → Bool
unfolding text_eq
same_kind a b = text_eq (spelled a) (spelled b)

abbrev pub kind_order : List Kind
kind_order =
    instructions ∷ file ∷ skill ∷ tool ∷ deferred ∷ server ∷ agent ∷ environment ∷ other ∷ []

-- protocol.ContextPiece.
pub record Piece : Type 0 where
  pub kind : Kind
  pub name : Text
  pub source : Text
  pub text : Text
  pub chars : ℕ
  pub tokens : Option ℤ

unfoldable pub key : Kind → Text → Text → Text
key kind name [] = spelled kind ++ 0 ∷ name
key kind name (c ∷ source) = spelled kind ++ 0 ∷ c ∷ source

unfoldable pub key_of : Piece → Text
unfolding key
key_of p = key p.kind p.name p.source

pub record Fed : Type 0 where
  pub list : List Piece
  pub by_key : Map Text ℕ
  pub gone : Map ℕ Bool

unfoldable pub empty : Fed
empty = record { list = []; by_key = []; gone = [] }

-- A key that a map[int]bool lacks reads as false.
unfoldable pub is_gone : ℕ → Map ℕ Bool → Bool
unfolding lookup
is_gone i m = elim (lookup i m) [ none ↦ false | some b ↦ b ]

abbrev pub set_at : ℕ → Piece → List Piece → List Piece
set_at i p [] = []
set_at zero p (q ∷ ps) = p ∷ ps
set_at (suc i) p (q ∷ ps) = q ∷ set_at i p ps

abbrev pub append_piece : Text → Piece → Fed → Fed
append_piece k p f = record f {
  by_key = insert k (length f.list) f.by_key;
  list = f.list ++ p ∷ [];
}

unfoldable pub put_piece : Piece → Fed → Fed
unfolding lookup insert is_gone key_of
put_piece p f = elim (lookup (key_of p) f.by_key) [
  | none ↦ append_piece (key_of p) p f
  | some i ↦
      if is_gone i f.gone
      then append_piece (key_of p) p f
      else record f { list = set_at i p f.list }
]

unfoldable pub put : Kind → Text → Text → Text → Option ℤ → Fed → Fed
unfolding put_piece
put kind name source text tokens = put_piece (record {
  kind = kind;
  name = name;
  source = source;
  text = text;
  chars = length text;
  tokens = tokens;
})

unfoldable pub drop : Text → Fed → Fed
unfolding lookup insert delete
drop k f = elim (lookup k f.by_key) [
  | none ↦ f
  | some i ↦ record f { gone = insert i true f.gone; by_key = delete k f.by_key }
]

unfoldable pub remove : Kind → Text → Fed → Fed
unfolding drop key
remove kind name = drop (key kind name [])

unfoldable pub clear_each : Kind → List Piece → Fed → Fed
unfolding drop key_of same_kind
clear_each kind [] f = f
clear_each kind (p ∷ ps) f =
    clear_each kind ps (if same_kind p.kind kind then drop (key_of p) f else f)

-- The loop runs over the list as it is at its start; no round of it changes the list.
unfoldable pub clear : Kind → Fed → Fed
unfolding clear_each
clear kind f = clear_each kind f.list f

-- The pieces of a kind that are not gone, of those from index `i` on.
unfoldable pub of_kind : Kind → ℕ → Map ℕ Bool → List Piece → List Piece
unfolding is_gone same_kind
of_kind kind i gone [] = []
of_kind kind i gone (p ∷ ps) =
    let rest = of_kind kind (suc i) gone ps in
    if same_kind p.kind kind && not (is_gone i gone) then p ∷ rest else rest

unfoldable pub count_from : Kind → ℕ → Map ℕ Bool → List Piece → ℕ
unfolding is_gone same_kind
count_from kind i gone [] = 0
count_from kind i gone (p ∷ ps) =
    let rest = count_from kind (suc i) gone ps in
    if same_kind p.kind kind && not (is_gone i gone) then suc rest else rest

unfoldable pub count : Kind → Fed → ℕ
unfolding count_from
count kind f = count_from kind 0 f.gone f.list

unfoldable pub has_name : Kind → Text → Fed → Bool
unfolding lookup is_gone key
has_name kind name f = elim (lookup (key kind name []) f.by_key) [
  | none ↦ false
  | some i ↦ not (is_gone i f.gone)
]

unfoldable pub sorted_by : List Kind → Fed → List Piece
unfolding of_kind
sorted_by [] f = []
sorted_by (kind ∷ kinds) f = of_kind kind 0 f.gone f.list ++ sorted_by kinds f

unfoldable pub sorted : Fed → List Piece
unfolding sorted_by
sorted f = sorted_by kind_order f
