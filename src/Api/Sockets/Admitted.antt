-- ===== src/Api/Sockets/Admitted.antt =====
-- sockets.go: who is let in, and for which account.
use mathlib.Core.Option.{some-injective}
use sparstrowgen.Prelude.{
  String, ap, ◌∙◌, Bool-cases, Option-cases, ◌≡◌, ◌⊎◌, refl, Option, some, none, Bool, true, false,
  inl, inr,
}
use sparstrowgen.Api.Sockets.{
  Paired, Credential, Admission, unavailable, disconnected, unauthorised, no_owner, admitted,
  admit_as, admit, admit_owner, refuse,
}

account : Admission → Option String
account unavailable = none
account disconnected = none
account unauthorised = none
account no_owner = none
account (admitted user m) = some user

as_owner :
    (legacy : Bool) (owner : Option (Option String)) (p : Paired) (user : String)
    → account (admit_as legacy owner (some p)) ≡ some user
    → ((legacy ≡ true) × (owner ≡ some (some user))) ⊎ ((legacy ≡ false) × (p.user_id ≡ user))
unfolding account
as_owner legacy none p user e = cc e
as_owner true (some none) p user e = cc e
as_owner true (some (some u)) p user e = inl (refl, ap some e)
as_owner false (some o) p user e = inr (refl, some-injective _ _ e)

as_legacy :
    (owner : Option (Option String)) (user : String)
    → account (admit_as true owner none) ≡ some user
    → owner ≡ some (some user)
unfolding account
as_legacy none user e = cc e
as_legacy (some none) user e = cc e
as_legacy (some (some u)) user e = ap some e

refused_account : (c : Credential) → account (refuse c) ≡ none
unfolding refuse account
refused_account c = elim (Option-cases c.is_refused) [
  | inl e ↦ rw (e, refuse) refl
  | inr (true, e) ↦ rw (e, refuse) refl
  | inr (false, e) ↦ rw (e, refuse) refl
]

-- A machine that is let in works for the account of the credential that it presented: for the owner's,
-- if it presented the shared token and the owner has an account; for that of the paired computer whose
-- credential it is, if it did not present the shared token.
pub admit_trusted :
    (c : Credential) (user : String) (m : Option Paired)
    → admit c ≡ admitted user m
    → ((c.legacy ≡ true) × (c.owner ≡ some (some user)))
      ⊎ ((c.legacy ≡ false) × ((p : Paired) × (c.paired ≡ some (some p)) × (p.user_id ≡ user)))
unfolding admit admit_owner
admit_trusted c user m e =
    let here : account (admit c) ≡ some user = ap account e ∙ unfold account in refl in
    elim (Option-cases c.paired) [
      | inl f ↦
          let none_here : account unavailable ≡ some user = rw (f, admit) at here in
          absurd (unfold account in cc none_here)
      | inr (none, f) ↦ elim (Bool-cases c.legacy) [
        | inl g ↦
            let by_owner : account (admit_as true c.owner none) ≡ some user =
              rw (f, g, admit) at here in
            inl (g, as_legacy c.owner user by_owner)
        | inr g ↦
            let by_none : account (refuse c) ≡ some user = rw (f, g, admit) at here in
            absurd (cc (refused_account c, by_none))
      ]
      | inr (some p, f) ↦
          let by_paired : account (admit_as c.legacy c.owner (some p)) ≡ some user =
            rw (f, admit) at here in
          elim (as_owner c.legacy c.owner p user by_paired) [
            | inl a ↦ inl a
            | inr (a, b) ↦ inr (a, (p, f, b))
          ]
    ]
