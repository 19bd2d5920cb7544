-- ===== src/Api/Closing/Abandoned.antt =====
-- api.go, abandonTurns: which turns a machine's disconnection ends.
use sparstrowgen.Prelude.{
  String, ◌≡◌, ◌≢◌, ◌↔◌, refl, sym, ap, ◌∙◌, List, [], ◌∷◌, Option, some, none, Bool, false, ◌||◌,
  ◌==◌, string_eq, nat_eq, if◌then◌else◌, arith, inl, inr, Bool-cases, Option-cases, eq_iff,
  ne_of_beq,
}
use mathlib.Core.Option.{some-injective}
use sparstrowgen.Prelude.Maps.{Map, IsMap, lookup, lookup-delete}
use sparstrowgen.Prelude.Int.{pos}
use sparstrowgen.Text.{Text}
use sparstrowgen.Api.State.{Services, Turn, Server}
use sparstrowgen.Api.Turns.{finish_turn}
use sparstrowgen.Api.Closing.{ids_of, abandon_each, abandon_turns}
use sparstrowgen.Api.Closing.Gone.{finish_turn-turns}

abbrev is_in : String → List String → Bool
is_in j [] = false
is_in j (id ∷ ids) = id == j || is_in j ids

abandon_each-turns :
    {S : Type 0} (v : Services S) (ids : List String) (reason : Text) (s : Server S) (j : String)
    → lookup j (abandon_each v ids reason s).turns
      ≡ (if is_in j ids then none else lookup j s.turns)
unfolding abandon_each
abandon_each-turns v [] reason s j = refl
abandon_each-turns v (id ∷ ids) reason s j = elim (Option-cases (lookup id s.turns)) [
  | inl e ↦
      rw (e, abandon_each)
        (let a = abandon_each-turns v ids reason s j in ground (arith, a, e, eq_iff id j))
  | inr (t, e) ↦
      rw (e, abandon_each)
        (let s' : Server _ = finish_turn v id t.streamed (pos 0) (pos 0) reason false s in
          let a = abandon_each-turns v ids reason s' j in
          let b =
            ap (lookup j) (finish_turn-turns v id t.streamed (pos 0) (pos 0) reason false s) in
          let c = lookup-delete id j s.turns in ground (arith, a, b, c))
]

-- The account has the turn.
abbrev has_turn : String → Option Turn → Bool
has_turn user none = false
has_turn user (some t) = t.user_id == user

missing :
    (user : String) (m : Map String Turn) (j : String)
    → lookup j m ≡ none
    → is_in j (ids_of user m) ≡ false
unfolding lookup ids_of
missing user [] j e = refl
missing user ((id, t) ∷ m) j e = ground (arith, e, missing user m j)

ids_of-has_turn :
    (user : String) (m : Map String Turn) (j : String)
    → IsMap m
    → is_in j (ids_of user m) ≡ has_turn user (lookup j m)
unfolding lookup ids_of
ids_of-has_turn user [] j h = refl
ids_of-has_turn user ((id, t) ∷ m) j (new, h) =
    let a = ids_of-has_turn user m j h in
    elim (Bool-cases (id == j)) [
      | inl e ↦
          let gone : is_in j (ids_of user m) ≡ false =
            missing user m j (ap (λ z. lookup z m) (sym ((eq_iff id j).0 e)) ∙ new) in
          elim (Bool-cases (t.user_id == user)) [
            | inl f ↦ rw (e, f, ids_of) (ground (arith, e, f))
            | inr f ↦ rw (e, f, ids_of) gone
          ]
      | inr e ↦ elim (Bool-cases (t.user_id == user)) [
        | inl f ↦ rw (e, f, ids_of) (ground (arith, e, a))
        | inr f ↦ rw (e, f, ids_of) a
      ]
    ]

left : String → Option Turn → Option Turn
left user o = if has_turn user o then none else o

left_iff :
    (user : String) (o : Option Turn) (t : Turn)
    → (left user o ≡ some t) ↔ ((o ≡ some t) × (t.user_id ≢ user))
unfolding left
left_iff user none t = (λ e. cc e, λ h. cc (h.0))
left_iff user (some u) t = elim (Bool-cases (u.user_id == user)) [
  | inl e ↦ (
    λ h. cc (ap (λ b. if b then none else some u) e, h),
    λ h. absurd (h.1 (ap (λ z. z.user_id) (sym (some-injective _ _ h.0)) ∙ (eq_iff _ _).0 e)),
  )
  | inr e ↦ (
    λ h.
        let same : some u ≡ some t = sym (ap (λ b. if b then none else some u) e) ∙ h in
        (same, λ q. ne_of_beq u.user_id user e (ap (λ z. z.user_id) (some-injective _ _ same) ∙ q)),
    λ h. ap (λ b. if b then none else some u) e ∙ h.0,
  )
]

-- When one of an account's machines goes away, exactly the account's turns are ended, whichever of its
-- machines they were running on: a turn is in flight afterwards, as it was, exactly if it was in flight
-- and belongs to another account.
pub abandon_turns_exact :
    {S : Type 0} (v : Services S) (user : String) (reason : Text) (s : Server S) (j : String)
    (t : Turn)
    → IsMap s.turns
    → (lookup j (abandon_turns v user reason s).turns ≡ some t)
      ↔ ((lookup j s.turns ≡ some t) × (t.user_id ≢ user))
unfolding abandon_turns
abandon_turns_exact v user reason s j t h =
    let a = abandon_each-turns v (ids_of user s.turns) reason s j in
    let b = ids_of-has_turn user s.turns j h in
    let c : lookup j (abandon_each v (ids_of user s.turns) reason s).turns
        ≡ left user (lookup j s.turns) =
      a ∙ unfold left in ap (λ z. if z then none else lookup j s.turns) b in
    let (f, g) = left_iff user (lookup j s.turns) t in (λ e. f (sym c ∙ e), λ h. c ∙ g h)
