-- ===== src/Api/Access.antt =====
-- accounts.go and auth.go: what the handlers of accounts and sessions read and write. The store, the
-- mail server and what is computed by other packages are given by `Outside`; each operation of the
-- store that can fail answers none where it does.
pub mod Gate
pub mod Emails
pub mod Register
pub mod Sessions
mod Runs
use sparstrowgen.Prelude.{
  ℕ, zero, suc, ◌+◌, ◌-◌, ◌*◌, ◌/◌, String, List, [], ◌∷◌, ◌++◌, Option, some, none, Bool, true,
  false, not, ◌&&◌, ◌||◌, ltb, leb, ◌==◌, nat_eq, if◌then◌else◌, length,
}
use sparstrowgen.Prelude.Maps.{Map, lookup, insert}
use sparstrowgen.Text.{Text, codes, text_eq, trim_space}
use sparstrowgen.Text.Equality.{text_eq_instance}
use sparstrowgen.Store.Title.{utf8_size}
use sparstrowgen.Hub.State.{Sys, World}
use sparstrowgen.Auth.Throttle.{Throttle, second}

-- store.User; mail.Message; store.LinkState.
pub record User : Type 0 where
  pub id : String
  pub email : Text
  pub appearance : String

pub record Message : Type 0 where
  pub to : Text
  pub subject : Text
  pub body : Text

pub data LinkKind : Type 0 where
  verify reset : LinkKind

pub record LinkState : Type 0 where
  pub usable : Bool
  pub reason : Text
  pub account_ready : Bool
  pub email : Text

-- What a call answers that starts a session, or why it does not.
pub data Started : Type 0 where
  started : User → String → ℕ → Started
  link_unusable email_taken no_account store_failed : Started

pub record Accounts (S : Type 0) : Type 0 where
  pub user_by_email : Text → S → Option (Option User)
  pub issue_link : LinkKind → Text → S → S × Option Text
  pub record_access_request : Text → S → S × Option Bool
  pub inspect_link : LinkKind → Text → S → Option LinkState
  pub complete_registration : Text → Text → String → String → S → S × Started
  pub reset_password : Text → Text → String → String → S → S × Started
  pub sign_in : Text → Text → String → String → S → S × Started
  pub start_session : String → String → String → S → S × Option (String × ℕ)
  pub session_user : String → S → Option (Option User)
  pub end_all_sessions : String → S → S × Option ℕ
  pub end_session : String → S → S × Bool
  pub change_password : String → Text → Text → S → S × Option Bool

pub record Outside (S : Type 0) : Type 0 where
  pub accounts : Accounts S
  pub world : World
  pub delivers : Message → Bool
  pub lower : Text → Text
  pub query_escape : Text → Text
  pub hash_token : String → String
  pub invited : List Text
  pub owner_email : Text
  pub origin : Text
  pub send_gap : ℕ

-- What a goroutine is left to do.
pub data Job : Type 0 where
  send_reset : Text → Job
  send_later : Message → Job

-- API, as far as these handlers go; `mailed` are the messages that were delivered.
pub record Desk (S : Type 0) : Type 0 where
  pub throttle : Throttle
  pub requests : Throttle
  pub gate : Map Text ℕ
  pub hashing : ℕ
  pub sys : Sys
  pub store : S
  pub mailed : List Message
  pub jobs : List Job

pub data Fault : Type 0 where
  unreadable no_email password_short not_invited mail_failed send_too_soon unknown_kind : Fault
  bad_link_input too_many busy dead_link taken wrong_login internal not_logged_in unverified : Fault
  could_not_sign_in nothing_signed_out not_every_device could_not_sign_out : Fault
  wrong_current : Fault

-- A response: the status of a failure with what it says, its Retry-After or that the cookie is cleared
-- where it has one; or the body of a success.
pub data Answer : Type 0 where
  fail forget_cookie : Fault → ℕ → Answer
  retry : Fault → ℕ → ℕ → Answer
  check_email request_sent : Text → Answer
  done : Answer
  done_for : Text → Answer
  link_works : Text → Answer
  link_dead : Text → Bool → Answer
  signed_in : Text → String → ℕ → Answer
  signed_out : Answer
  signed_in_as : Option User → Answer

abbrev pub hash_slots : ℕ
hash_slots = 4

abbrev pub min_password : ℕ
min_password = 12

unfoldable pub normalise_email : (Text → Text) → Text → Text
unfolding trim_space
normalise_email lower email = lower (trim_space email)

abbrev pub one_of : Text → List Text → Bool
one_of t [] = false
one_of t (u ∷ us) = text_eq u t || one_of t us

unfoldable pub is_invited : {S : Type 0} → Outside S → Text → Bool
unfolding normalise_email text_eq
is_invited v email = one_of (normalise_email v.lower email) v.invited

-- len of a string: its bytes.
unfoldable pub byte_length : Text → ℕ
unfolding utf8_size
byte_length [] = 0
byte_length (c ∷ s) = utf8_size c + byte_length s

-- strings.LastIndex of one character, counted in characters.
unfoldable pub last_index : ℕ → Text → Option ℕ
last_index c [] = none
last_index c (d ∷ s) = elim (last_index c s) [
  | some i ↦ some (suc i)
  | none ↦ if d == c then some 0 else none
]

abbrev pub has_control : Text → Bool
has_control [] = false
has_control (c ∷ s) = leb c 32 || c == 0x7f || has_control s

-- checkEmail. The @ is one byte, so that its place among the characters decides as its place among the
-- bytes does.
unfoldable pub is_email : Text → Bool
unfolding trim_space last_index byte_length
is_email email =
    let trimmed = trim_space email in
    elim (last_index b'@' trimmed) [
      | none ↦ false
      | some at ↦
          not (at == 0 || at + 1 == length trimmed || ltb 254 (byte_length trimmed))
          && not (has_control trimmed)
    ]
