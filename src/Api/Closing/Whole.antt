-- ===== src/Api/Closing/Whole.antt =====
-- api.go with main.go's runTurn: what a machine's reports do to the turns in flight.
use sparstrowgen.Prelude.{
  String, ◌≡◌, ◌≢◌, ◌⊎◌, refl, sym, ap, ◌∙◌, List, [], ◌∷◌, Option, some, true, false, ◌==◌,
  string_eq, nat_eq, inl, inr, Bool-cases, Option-cases, eq_iff, ne_of_beq,
}
use mathlib.Core.Option.{some-injective}
use sparstrowgen.Prelude.Maps.{lookup, delete, lookup-delete_ne}
use sparstrowgen.Protocol.{Headroom}
use sparstrowgen.Protocol.Turn.{TurnMessage, exchange, started, delta, limit, done, stopped, failed}
use sparstrowgen.Daemon.RunTurn.Ending.{is_ending}
use sparstrowgen.Api.State.{Services, Turn, Server}
use sparstrowgen.Api.Turns.{handle_turn, Report, hello, said, handle_said, handle_daemon_message}
use sparstrowgen.Api.Closing.{handle_all}
use sparstrowgen.Api.Closing.Gone.{owner_of, owner, Stays, handle_turn-Stays, handle_turn-turns}

-- The turn is the account's: its message is acted on.
pub said_by_owner :
    {S : Type 0} (v : Services S) (user id : String) (m : TurnMessage) (s : Server S)
    → owner id s ≡ some user
    → (t : Turn) × (lookup id s.turns ≡ some t)
      × (handle_said v user id m s ≡ handle_turn v id t m s)
unfolding handle_said
said_by_owner v user id m s e = elim (Option-cases (lookup id s.turns)) [
  | inl f ↦ cc (e, ap owner_of f)
  | inr (t, f) ↦
      let same : t.user_id ≡ user = some-injective _ _ (sym (ap owner_of f) ∙ e) in
      let test : (t.user_id == user) ≡ true = (eq_iff _ _).1 same in
      (t, f, rw (f, handle_said) (rw test refl))
]

-- The turn is not the account's, or there is none: nothing happens.
pub said_by_other :
    {S : Type 0} (v : Services S) (user id : String) (m : TurnMessage) (s : Server S)
    → owner id s ≢ some user
    → handle_said v user id m s ≡ s
unfolding handle_said
said_by_other v user id m s n = elim (Option-cases (lookup id s.turns)) [
  | inl f ↦ rw (f, handle_said) refl
  | inr (t, f) ↦ elim (Bool-cases (t.user_id == user)) [
    | inl g ↦ absurd (n (ap owner_of f ∙ ap some ((eq_iff _ _).0 g)))
    | inr g ↦ rw (f, handle_said) (rw g refl)
  ]
]

owner_is :
    {S : Type 0} (id user : String) (s : Server S)
    → (owner id s ≡ some user) ⊎ (owner id s ≢ some user)
owner_is id user s = elim (Option-cases (lookup id s.turns)) [
  | inl f ↦ inr (λ e. cc (e, ap owner_of f))
  | inr (t, f) ↦ elim (Bool-cases (t.user_id == user)) [
    | inl g ↦ inl (ap owner_of f ∙ ap some ((eq_iff _ _).0 g))
    | inr g ↦ inr (λ e. ne_of_beq t.user_id user g (some-injective _ _ (sym (ap owner_of f) ∙ e)))
  ]
]

limit_turns :
    {S : Type 0} (v : Services S) (user id p : String) (h : Option Headroom) (s : Server S)
    → (handle_said v user id (limit p h) s) ≡ s
unfolding handle_turn
limit_turns v user id p h s = elim (owner_is id user s) [
  | inl e ↦ let (t, f, q) = said_by_owner v user id (limit p h) s e in q
  | inr n ↦ said_by_other v user id (limit p h) s n
]

-- What is said of a turn changes the turns as its own handling does.
pub said_turns :
    {S : Type 0} (v : Services S) (user id : String) (m : TurnMessage) (s : Server S)
    → (handle_daemon_message v user (said id m) s).turns ≡ (handle_said v user id m s).turns
unfolding handle_daemon_message
said_turns v user id (exchange x ls d c) s = refl
said_turns v user id (started i) s = refl
said_turns v user id (delta text) s = refl
said_turns v user id (limit p h) s = ap (λ z. z.turns) (sym (limit_turns v user id p h s))
said_turns v user id (done f a b i) s = refl
said_turns v user id (stopped f a b i) s = refl
said_turns v user id (failed f err) s = refl

pub said-Stays :
    {S : Type 0} (v : Services S) (user id : String) (m : TurnMessage) (s : Server S)
    → owner id s ≡ some user
    → is_ending m ≡ false
    → Stays id s (handle_daemon_message v user (said id m) s)
said-Stays v user id m s e h =
    let (t, here, q) = said_by_owner v user id m s e in
    let stays : Stays id s (handle_turn v id t m s) = handle_turn-Stays v id t m s here h in
    let same : (handle_daemon_message v user (said id m) s).turns ≡ (handle_turn v id t m s).turns =
      said_turns v user id m s ∙ ap (λ z. z.turns) q in
    record {
      same_owner = ap (λ z. owner_of (lookup id z)) same ∙ stays.same_owner;
      others = λ j n. ap (lookup j) same ∙ stays.others j n;
    }

pub said_ending :
    {S : Type 0} (v : Services S) (user id : String) (m : TurnMessage) (s : Server S)
    → owner id s ≡ some user
    → is_ending m ≡ true
    → (handle_daemon_message v user (said id m) s).turns ≡ delete id s.turns
said_ending v user id m s e h =
    let (t, here, q) = said_by_owner v user id m s e in
    said_turns v user id m s ∙ ap (λ z. z.turns) q ∙ handle_turn-turns v id t m s h

-- One report leaves another account's turn as it is.
report_others :
    {S : Type 0} (v : Services S) (user : String) (m : Report) (s : Server S) (j : String)
    (t : Turn)
    → lookup j s.turns ≡ some t
    → t.user_id ≢ user
    → lookup j (handle_daemon_message v user m s).turns ≡ some t
unfolding handle_daemon_message
report_others v user (hello ps dir) s j t here n = here
report_others v user (said id m) s j t here n = elim (owner_is id user s) [
  | inr o ↦
      ap (lookup j) (said_turns v user id m s ∙ ap (λ z. z.turns) (said_by_other v user id m s o))
      ∙ here
  | inl o ↦
      let other : j ≢ id = λ q. n (
        some-injective _ _
          (sym (ap owner_of here) ∙ ap (λ z. owner_of (lookup z s.turns)) q ∙ o)) in
      elim (Bool-cases (is_ending m)) [
        | inl e ↦
            ap (lookup j) (said_ending v user id m s o e)
            ∙ lookup-delete_ne s.turns (λ q. other (sym q))
            ∙ here
        | inr e ↦ (said-Stays v user id m s o e).others j other ∙ here
      ]
]

-- Whatever one account's machines report, in any number and order, every turn of another account
-- stays in flight just as it was.
pub handle_all_others :
    {S : Type 0} (v : Services S) (user : String) (ms : List Report) (s : Server S) (j : String)
    (t : Turn)
    → lookup j s.turns ≡ some t
    → t.user_id ≢ user
    → lookup j (handle_all v user ms s).turns ≡ some t
unfolding handle_all
handle_all_others v user [] s j t here n = here
handle_all_others v user (m ∷ ms) s j t here n =
    handle_all_others v user ms (handle_daemon_message v user m s) j t
      (report_others v user m s j t here n) n
