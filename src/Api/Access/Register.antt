-- ===== src/Api/Access/Register.antt =====
-- accounts.go: the handlers. Each takes the decoded body, none where it could not be read, the time, and
-- the client's address, and answers a response. A message that nothing waits on is a job.
pub mod Alike
use sparstrowgen.Prelude.{
  ℕ, ◌+◌, ◌/◌, String, List, [], ◌∷◌, ◌++◌, Option, some, none, Bool, true, false, not, ◌&&◌, ltb,
  if◌then◌else◌,
}
use sparstrowgen.Text.{Text, codes, text_eq}
use sparstrowgen.Hub.Browsers.{disconnect_user}
use sparstrowgen.Auth.Throttle.{second, begin}
use sparstrowgen.Api.Access.{
  User, Message, LinkKind, verify, reset, LinkState, Started, started, link_unusable, email_taken,
  no_account, store_failed, Accounts, Outside, Job, send_reset, send_later, Desk, Fault, unreadable,
  no_email, password_short, not_invited, mail_failed, send_too_soon, unknown_kind, bad_link_input,
  too_many, busy, dead_link, taken, internal, Answer, fail, retry, check_email, request_sent, done,
  done_for, link_works, signed_in, hash_slots, min_password, normalise_email, is_invited,
  byte_length, is_email,
}
use sparstrowgen.Api.Access.Gate.{wait, mark}
use sparstrowgen.Api.Access.Emails.{
  link_url, confirm_email, already_registered_email, reset_email, password_changed_email,
  request_email,
}

-- strconv.Itoa(int(wait.Seconds())+1).
abbrev pub retry_after : ℕ → ℕ
retry_after wait = wait / second + 1

unfoldable pub link_kind : Text → Option LinkKind
unfolding text_eq
link_kind s =
    if text_eq s (codes "verify")
    then some verify
    else if text_eq s (codes "reset")
    then some reset
    else none

module _ {S : Type 0} (v : Outside S) where
  -- A hashing slot, if there is one, for as long as the rest of the handler runs.
  unfoldable pub acquire_hash : (Desk S → Desk S × Answer) → Desk S → Desk S × Answer
  acquire_hash rest d =
      if ltb d.hashing hash_slots
      then (let (d', a) = rest (record d { hashing = d.hashing + 1 }) in
          (record d' { hashing = d.hashing }, a))
      else (d, retry busy 503 1)

  unfoldable pub request_access : ℕ → String → Text → Desk S → Desk S × Answer
  unfolding begin request_email
  request_access now client email d =
      let (requests, (wait, admitted)) = begin now client d.requests in
      let d' = record d { requests = requests } in
      if not admitted
      then (d', retry too_many 429 (retry_after wait))
      else (let (store, first) = v.accounts.record_access_request email d.store in
          let d'' = record d' { store = store } in
          elim first [
            | none ↦ (d'', fail internal 500)
            | some false ↦ (d'', request_sent email)
            | some true ↦ (
              record d'' { jobs = d.jobs ++ send_later (request_email v.owner_email email) ∷ [] },
              request_sent email,
            )
          ])

  -- The message is sent while the handler waits; the address is marked at the time it has gone.
  unfoldable pub send_now : ℕ → Text → Message → Desk S → Desk S × Option Answer
  unfolding mark
  send_now sent_at key m d =
      if v.delivers m
      then (record d { gate = mark key sent_at d.gate; mailed = d.mailed ++ m ∷ [] }, none)
      else (d, some (fail mail_failed 502))

  -- The answer of a failure, if the handler may not answer success.
  unfoldable pub send_confirmation : ℕ → ℕ → Text → Desk S → Desk S × Option Answer
  unfolding wait send_now already_registered_email confirm_email link_url
  send_confirmation now sent_at email d =
      let key = codes "confirm:" ++ email in
      let left = wait key v.send_gap now d.gate in
      if ltb 0 left
      then (d, some (retry send_too_soon 429 (retry_after left)))
      else elim (v.accounts.user_by_email email d.store) [
        | none ↦ (d, some (fail internal 500))
        | some (some user) ↦ send_now sent_at key (already_registered_email email v.origin) d
        | some none ↦
            let (store, token) = v.accounts.issue_link verify email d.store in
            let d' = record d { store = store } in
            elim token [
              | none ↦ (d', some (fail internal 500))
              | some t ↦
                  send_now sent_at key
                    (confirm_email email (link_url v.query_escape v.origin (codes "verify") t)) d'
            ]
      ]

  abbrev pub or_success : Answer → Desk S × Option Answer → Desk S × Answer
  or_success a (d, none) = (d, a)
  or_success a (d, some failure) = (d, failure)

  unfoldable pub register : ℕ → ℕ → String → Option Text → Desk S → Desk S × Answer
  unfolding is_email normalise_email is_invited request_access send_confirmation
  register now sent_at client none d = (d, fail unreadable 400)
  register now sent_at client (some address) d =
      if not (is_email address)
      then (d, fail no_email 400)
      else (let email = normalise_email v.lower address in
          if not (is_invited v email)
          then request_access now client email d
          else or_success (check_email email) (send_confirmation now sent_at email d))

  unfoldable pub resend_confirmation : ℕ → ℕ → Option Text → Desk S → Desk S × Answer
  unfolding is_email normalise_email is_invited send_confirmation
  resend_confirmation now sent_at none d = (d, fail unreadable 400)
  resend_confirmation now sent_at (some address) d =
      if not (is_email address)
      then (d, fail no_email 400)
      else (let email = normalise_email v.lower address in
          if is_invited v email
          then or_success done (send_confirmation now sent_at email d)
          else (d, done))

  unfoldable pub check_link : Option (Text × Text) → Desk S → Answer
  unfolding link_kind
  check_link none d = fail unreadable 400
  check_link (some (kind, token)) d = elim (link_kind kind) [
    | none ↦ fail unknown_kind 400
    | some k ↦ elim (v.accounts.inspect_link k token d.store) [
      | none ↦ fail internal 500
      | some state ↦
          if state.usable
          then link_works state.email
          else Answer.link_dead state.reason state.account_ready
    ]
  ]

  abbrev pub registered : Desk S → S × Started → Desk S × Answer
  registered d (store, started user token expires) =
      (record d { store = store }, signed_in user.email token expires)
  registered d (store, link_unusable) = (record d { store = store }, fail dead_link 410)
  registered d (store, email_taken) = (record d { store = store }, fail taken 409)
  registered d (store, no_account) = (record d { store = store }, fail internal 500)
  registered d (store, store_failed) = (record d { store = store }, fail internal 500)

  unfoldable pub complete_registration :
      String → String → Option (Text × Text) → Desk S → Desk S × Answer
  unfolding byte_length is_invited acquire_hash
  complete_registration agent client none d = (d, fail unreadable 400)
  complete_registration agent client (some ([], password)) d = (d, fail bad_link_input 400)
  complete_registration agent client (some (c ∷ token, password)) d =
      if ltb (byte_length password) min_password
      then (d, fail password_short 400)
      else elim (v.accounts.inspect_link verify (c ∷ token) d.store) [
        | none ↦ (d, fail internal 500)
        | some state ↦
            if state.usable && not (is_invited v state.email)
            then (d, fail not_invited 403)
            else acquire_hash
                (λ d'.
                  registered d'
                    (v.accounts.complete_registration (c ∷ token) password agent client d'.store))
                d
      ]

  unfoldable pub forgot_password : ℕ → Option Text → Desk S → Desk S × Answer
  unfolding is_email normalise_email wait mark
  forgot_password now none d = (d, fail unreadable 400)
  forgot_password now (some address) d =
      if not (is_email address)
      then (d, fail no_email 400)
      else (let email = normalise_email v.lower address in
          let key = codes "reset:" ++ email in
          let left = wait key v.send_gap now d.gate in
          if ltb 0 left then (d, retry send_too_soon 429 (retry_after left)) else (
            record d { gate = mark key now d.gate; jobs = d.jobs ++ send_reset email ∷ [] },
            done_for email,
          ))

  abbrev pub deliver : Message → Desk S → Desk S
  deliver m d = if v.delivers m then record d { mailed = d.mailed ++ m ∷ [] } else d

  -- What the goroutines do, at whichever time they come to run.
  unfoldable pub run_job : Job → Desk S → Desk S
  unfolding reset_email link_url
  run_job (send_later m) d = deliver m d
  run_job (send_reset email) d = elim (v.accounts.user_by_email email d.store) [
    | none ↦ d
    | some none ↦ d
    | some (some user) ↦
        let (store, token) = v.accounts.issue_link reset email d.store in
        let d' = record d { store = store } in
        elim token [
          | none ↦ d'
          | some t ↦
              deliver (reset_email email (link_url v.query_escape v.origin (codes "reset") t)) d'
        ]
  ]

  -- The password is set: every browser of the account is cut off, and this one signed in.
  unfoldable pub password_reset : User → String → ℕ → Desk S → Desk S × Answer
  unfolding disconnect_user password_changed_email
  password_reset user token expires d = (
    record d {
      sys = (disconnect_user user.id d.sys).0;
      jobs = d.jobs ++ send_later (password_changed_email user.email v.origin) ∷ [];
    },
    signed_in user.email token expires,
  )

  abbrev pub after_reset : Desk S → S × Started → Desk S × Answer
  after_reset d (store, started user token expires) =
      password_reset user token expires (record d { store = store })
  after_reset d (store, link_unusable) = (record d { store = store }, fail dead_link 410)
  after_reset d (store, email_taken) = (record d { store = store }, fail internal 500)
  after_reset d (store, no_account) = (record d { store = store }, fail internal 500)
  after_reset d (store, store_failed) = (record d { store = store }, fail internal 500)

  unfoldable pub reset_password : String → String → Option (Text × Text) → Desk S → Desk S × Answer
  unfolding byte_length acquire_hash password_reset
  reset_password agent client none d = (d, fail unreadable 400)
  reset_password agent client (some ([], password)) d = (d, fail bad_link_input 400)
  reset_password agent client (some (c ∷ token, password)) d =
      if ltb (byte_length password) min_password
      then (d, fail password_short 400)
      else acquire_hash
          (λ d'.
            after_reset d' (v.accounts.reset_password (c ∷ token) password agent client d'.store))
          d
