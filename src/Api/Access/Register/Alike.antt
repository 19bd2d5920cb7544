-- ===== src/Api/Access/Register/Alike.antt =====
-- accounts.go: what the answers tell of the accounts that there are.
use sparstrowgen.Prelude.{
  ℕ, ◌≡◌, ◌≢◌, refl, sym, ap, ◌∙◌, inl, inr, String, List, ◌++◌, Option, some, none, true, false,
  not, ltb, if◌then◌else◌, Option-cases, Bool-cases,
}
use sparstrowgen.Prelude.Maps.{Map}
use sparstrowgen.Text.{Text, codes}
use sparstrowgen.Hub.State.{Sys}
use sparstrowgen.Auth.Throttle.{Throttle, begin}
use sparstrowgen.Api.Access.{
  Message, verify, Outside, Desk, Answer, fail, retry, send_too_soon, unreadable, no_email,
  too_many, request_sent, normalise_email, is_invited, is_email, check_email,
}
use sparstrowgen.Api.Access.Gate.{wait, mark}
use sparstrowgen.Api.Access.Register.{
  retry_after, send_now, send_confirmation, request_access, or_success, register, forgot_password,
}

-- What the answers of later requests depend on, apart from the store.
abbrev pub Front : Type 0
Front = Throttle × Throttle × Map Text ℕ × ℕ × Sys

abbrev pub front : {S : Type 0} → Desk S → Front
front d = (d.throttle, d.requests, d.gate, d.hashing, d.sys)

-- The store answers about the address, and issues a link to it.
pub record Works {S : Type 0} (v : Outside S) (email : Text) (s : S) : Type 0 where
  pub found : v.accounts.user_by_email email s ≢ none
  pub issued : (v.accounts.issue_link verify email s).1 ≢ none
  pub recorded : (v.accounts.record_access_request email s).1 ≢ none

module _ {S : Type 0} (v : Outside S) where
  abbrev Outcome : Type 0
  Outcome = Front × Option Answer

  abbrev outcome : Desk S × Option Answer → Outcome
  outcome (d, a) = (front d, a)

  -- What sendConfirmation does where nothing fails: the gate alone decides.
  gate_decides : ℕ → ℕ → Text → Front → Outcome
  gate_decides now sent_at email (throttle, requests, gate, hashing, sys) =
      let key = codes "confirm:" ++ email in
      let left = wait key v.send_gap now gate in
      if ltb 0 left
      then (
        (throttle, requests, gate, hashing, sys),
        some (retry send_too_soon 429 (retry_after left)),
      )
      else ((throttle, requests, mark key sent_at gate, hashing, sys), none)

  send_now-delivered :
      (sent_at : ℕ) (key : Text) (m : Message) (d : Desk S)
      → v.delivers m ≡ true
      → outcome (send_now v sent_at key m d)
        ≡ ((d.throttle, d.requests, mark key sent_at d.gate, d.hashing, d.sys), none)
  unfolding send_now
  send_now-delivered sent_at key m d e = rw (e, send_now) refl

  send_confirmation-decided :
      (now sent_at : ℕ) (email : Text) (d : Desk S)
      → ((m : Message) → v.delivers m ≡ true)
      → Works v email d.store
      → outcome (send_confirmation v now sent_at email d) ≡ gate_decides now sent_at email (front d)
  unfolding send_confirmation gate_decides
  send_confirmation-decided now sent_at email d delivers w =
      elim (Bool-cases (ltb 0 (wait (codes "confirm:" ++ email) v.send_gap now d.gate))) [
        | inl e ↦ rw (e, send_confirmation, gate_decides) refl
        | inr e ↦
            rw (e, send_confirmation, gate_decides)
              (elim (Option-cases (v.accounts.user_by_email email d.store)) [
                | inl f ↦ absurd (w.found f)
                | inr (some user, f) ↦
                    rw (f, send_confirmation) (send_now-delivered sent_at _ _ d (delivers _))
                | inr (none, f) ↦
                    rw (f, send_confirmation)
                      (elim (Option-cases (v.accounts.issue_link verify email d.store).1) [
                        | inl g ↦ absurd (w.issued g)
                        | inr (t, g) ↦
                            let d' = record d {
                              store = (v.accounts.issue_link verify email d.store).0;
                            } in
                            rw (g, send_confirmation)
                              (send_now-delivered sent_at (codes "confirm:" ++ email) _ d'
                                (delivers _))
                      ])
              ])
      ]

  answered : Text → Outcome → Front × Answer
  answered email (f, none) = (f, check_email email)
  answered email (f, some a) = (f, a)

  abbrev seen : Desk S × Answer → Front × Answer
  seen (d, a) = (front d, a)

  or_success-seen :
      (email : Text) (r : Desk S × Option Answer)
      → seen (or_success v (check_email email) r) ≡ answered email (outcome r)
  unfolding answered
  or_success-seen email (d, none) = refl
  or_success-seen email (d, some a) = refl

  -- What requestAccess does where nothing fails: the throttle of requests alone decides.
  throttle_decides : ℕ → String → Text → Front → Front × Answer
  throttle_decides now client email (throttle, requests, gate, hashing, sys) =
      let (requests', (left, admitted)) = begin now client requests in
      if not admitted
      then ((throttle, requests', gate, hashing, sys), retry too_many 429 (retry_after left))
      else ((throttle, requests', gate, hashing, sys), request_sent email)

  request_access-decided :
      (now : ℕ) (client : String) (email : Text) (d : Desk S)
      → Works v email d.store
      → seen (request_access v now client email d) ≡ throttle_decides now client email (front d)
  unfolding request_access throttle_decides
  request_access-decided now client email d w =
      elim (Bool-cases (begin now client d.requests).1.1) [
        | inl e ↦
            rw (e, request_access, throttle_decides)
              (elim (Option-cases (v.accounts.record_access_request email d.store).1) [
                | inl f ↦ absurd (w.recorded f)
                | inr (true, f) ↦ rw (f, request_access) refl
                | inr (false, f) ↦ rw (f, request_access) refl
              ])
        | inr e ↦ rw (e, request_access, throttle_decides) refl
      ]

  register_decides : ℕ → ℕ → String → Option Text → Front → Front × Answer
  register_decides now sent_at client none f = (f, fail unreadable 400)
  register_decides now sent_at client (some address) f =
      if not (is_email address)
      then (f, fail no_email 400)
      else (let email = normalise_email v.lower address in
          if not (is_invited v email)
          then throttle_decides now client email f
          else answered email (gate_decides now sent_at email f))

  register-decided :
      (now sent_at : ℕ) (client : String) (body : Option Text) (d : Desk S)
      → ((m : Message) → v.delivers m ≡ true)
      → ((email : Text) → Works v email d.store)
      → seen (register v now sent_at client body d)
        ≡ register_decides now sent_at client body (front d)
  unfolding register register_decides
  register-decided now sent_at client none d delivers w = refl
  register-decided now sent_at client (some address) d delivers w =
      let email = normalise_email v.lower address in
      elim (Bool-cases (is_email address)) [
        | inr e ↦ rw (e, register, register_decides) refl
        | inl e ↦
            rw (e, register, register_decides)
              (elim (Bool-cases (is_invited v email)) [
                | inr f ↦
                    rw (f, register, register_decides)
                      (request_access-decided now client email d (w email))
                | inl f ↦
                    rw (f, register, register_decides)
                      (or_success-seen email (send_confirmation v now sent_at email d)
                        ∙ ap (answered email)
                            (send_confirmation-decided now sent_at email d delivers (w email)))
              ])
      ]

  -- Registering answers the same, and leaves the same behind but for the store and the emails, whatever
  -- accounts the store holds: for every address, where the store answers and emails are delivered.
  pub register-same :
      (now sent_at : ℕ) (client : String) (body : Option Text) (d : Desk S) (store : S)
      → ((m : Message) → v.delivers m ≡ true)
      → ((email : Text) → Works v email d.store)
      → ((email : Text) → Works v email store)
      → let (d₁, a₁) = register v now sent_at client body d in
        let (d₂, a₂) = register v now sent_at client body (record d { store = store }) in
        (front d₁ ≡ front d₂) × (a₁ ≡ a₂)
  register-same now sent_at client body d store delivers w w' =
      let same =
        register-decided now sent_at client body d delivers w
        ∙ sym (register-decided now sent_at client body (record d { store = store }) delivers w') in
      (ap (λ r. r.0) same, ap (λ r. r.1) same)

  -- Asking for a reset never reads the store: the answer and all that the handler leaves are the same
  -- whatever the store holds and whatever was mailed.
  pub forgot_password-blind :
      (now : ℕ) (body : Option Text) (d : Desk S) (store : S) (mailed : List Message)
      → forgot_password v now body (record d { store = store; mailed = mailed }) ≡ (
        record (forgot_password v now body d).0 { store = store; mailed = mailed },
        (forgot_password v now body d).1,
      )
  unfolding forgot_password
  forgot_password-blind now none d store mailed = refl
  forgot_password-blind now (some address) d store mailed =
      let key = codes "reset:" ++ normalise_email v.lower address in
      elim (Bool-cases (is_email address)) [
        | inr e ↦ rw (e, forgot_password) refl
        | inl e ↦
            rw (e, forgot_password)
              (elim (Bool-cases (ltb 0 (wait key v.send_gap now d.gate))) [
                | inl f ↦ rw (f, forgot_password) refl
                | inr f ↦ rw (f, forgot_password) refl
              ])
      ]
