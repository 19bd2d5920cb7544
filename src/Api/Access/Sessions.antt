-- ===== src/Api/Access/Sessions.antt =====
-- auth.go: signing in and out, and changing a password. The body is what was decoded, the cookie is the
-- session's where there is one. login reads the clock when it begins and when the store has answered.
pub mod Cutoff
use sparstrowgen.Prelude.{
  ℕ, ◌+◌, ◌⊎◌, inl, inr, String, List, [], ◌∷◌, Option, some, none, Bool, true, false, not, ◌&&◌,
  ◌||◌, ltb, leb, ◌==◌, nat_eq, if◌then◌else◌, length, drop,
}
use sparstrowgen.Text.{Text, codes, text_eq, after_prefix}
use sparstrowgen.Hub.Browsers.{disconnect_user, disconnect_session}
use sparstrowgen.Auth.Throttle.{begin, failed, succeeded}
use sparstrowgen.Agent.Parsed.{is_blank}
use sparstrowgen.Api.Access.{
  User, Started, started, link_unusable, email_taken, no_account, store_failed, Accounts, Outside,
  Desk, Fault, unreadable, password_short, too_many, wrong_login, internal, not_logged_in,
  unverified, could_not_sign_in, nothing_signed_out, not_every_device, could_not_sign_out,
  wrong_current, Answer, fail, forget_cookie, retry, signed_in, signed_out, signed_in_as,
  min_password, byte_length,
}
use sparstrowgen.Api.Access.Register.{acquire_hash, retry_after}

-- daemonAuthorised, given the header.
unfoldable pub daemon_authorised : Text → Text → Bool
unfolding after_prefix text_eq
daemon_authorised [] header = false
daemon_authorised (c ∷ token) header = elim (after_prefix (codes "Bearer ") header) [
  | none ↦ false
  | some [] ↦ false
  | some (e ∷ given) ↦ text_eq (e ∷ given) (c ∷ token)
]

module _ {S : Type 0} (v : Outside S) where
  -- What requireSession does: the request goes on as this user, or is answered.
  unfoldable pub require_session : Option String → Desk S → Answer ⊎ User
  require_session none d = inl (fail not_logged_in 401)
  require_session (some cookie) d = elim (v.accounts.session_user cookie d.store) [
    | none ↦ inl (fail unverified 503)
    | some none ↦ inl (forget_cookie not_logged_in 401)
    | some (some user) ↦ inr user
  ]

  unfoldable pub after_sign_in : ℕ → String → Desk S → S × Started → Desk S × Answer
  unfolding failed succeeded
  after_sign_in now client d (store, started user token expires) = (
    record d { store = store; throttle = succeeded client d.throttle },
    signed_in user.email token expires,
  )
  after_sign_in now client d (store, no_account) =
      (record d { store = store; throttle = failed now client d.throttle }, fail wrong_login 401)
  after_sign_in now client d (store, link_unusable) =
      (record d { store = store }, fail could_not_sign_in 500)
  after_sign_in now client d (store, email_taken) =
      (record d { store = store }, fail could_not_sign_in 500)
  after_sign_in now client d (store, store_failed) =
      (record d { store = store }, fail could_not_sign_in 500)

  unfoldable pub login_admitted :
      ℕ → String → String → Option (Text × Text) → Desk S → Desk S × Answer
  unfolding acquire_hash after_sign_in
  login_admitted later agent client none d = (d, fail unreadable 400)
  login_admitted later agent client (some (email, password)) d =
      if is_blank email || is_blank password
      then (d, fail wrong_login 401)
      else acquire_hash v
          (λ d'.
            after_sign_in later client d' (v.accounts.sign_in email password agent client d'.store))
          d

  unfoldable pub login : ℕ → ℕ → String → String → Option (Text × Text) → Desk S → Desk S × Answer
  unfolding begin login_admitted
  login now later agent client body d =
      let (throttle, (wait, admitted)) = begin now client d.throttle in
      let d' = record d { throttle = throttle } in
      if admitted
      then login_admitted later agent client body d'
      else (d', retry too_many 429 (retry_after wait))

  unfoldable pub logout_everywhere : String → Desk S → Desk S × Answer
  unfolding disconnect_user
  logout_everywhere cookie d = elim (v.accounts.session_user cookie d.store) [
    | none ↦ (d, fail nothing_signed_out 503)
    | some none ↦ (d, signed_out)
    | some (some user) ↦
        let (store, ended) = v.accounts.end_all_sessions user.id d.store in
        let d' = record d { store = store } in
        elim ended [
          | none ↦ (d', fail not_every_device 500)
          | some n ↦ (record d' { sys = (disconnect_user user.id d.sys).0 }, signed_out)
        ]
  ]

  unfoldable pub logout : Bool → Option String → Desk S → Desk S × Answer
  unfolding logout_everywhere disconnect_session
  logout everywhere none d = (d, signed_out)
  logout true (some cookie) d = logout_everywhere cookie d
  logout false (some cookie) d =
      let (store, ended) = v.accounts.end_session cookie d.store in
      let d' = record d { store = store } in
      if ended
      then (record d' { sys = (disconnect_session (v.hash_token cookie) d.sys).0 }, signed_out)
      else (d', fail could_not_sign_out 500)

  unfoldable pub session : Option String → Desk S → Answer
  session none d = signed_in_as none
  session (some cookie) d = elim (v.accounts.session_user cookie d.store) [
    | none ↦ fail unverified 503
    | some user ↦ signed_in_as user
  ]

  unfoldable pub start_session : User → String → String → Desk S → Desk S × Answer
  start_session user agent client d =
      let (store, token) = v.accounts.start_session user.id agent client d.store in
      let d' = record d { store = store } in
      elim token [
        | none ↦ (d', fail internal 500)
        | some (t, expires) ↦ (d', signed_in user.email t expires)
      ]

  -- ChangePassword answers none for a failure, and whether the current password was right.
  unfoldable pub password_checked : User → String → String → Text → Text → Desk S → Desk S × Answer
  unfolding disconnect_user start_session
  password_checked user agent client current next d =
      let (store, changed) = v.accounts.change_password user.id current next d.store in
      let d' = record d { store = store } in
      elim changed [
        | none ↦ (d', fail internal 500)
        | some false ↦ (d', fail wrong_current 401)
        | some true ↦
            start_session user agent client (record d' { sys = (disconnect_user user.id d.sys).0 })
      ]

  unfoldable pub change_password :
      User → String → String → Option (Text × Text) → Desk S → Desk S × Answer
  unfolding byte_length acquire_hash password_checked
  change_password user agent client none d = (d, fail unreadable 400)
  change_password user agent client (some (current, next)) d =
      if ltb (byte_length next) min_password
      then (d, fail password_short 400)
      else acquire_hash v (password_checked user agent client current next) d
