-- ===== src/Daemon/Serve.antt =====
-- main.go, serve, with endpoints.go: which credential the daemon dials with, and what becomes of the
-- saved ones. The two files hold a credential each, or nothing, which is the empty text; their reads,
-- writes and removals do not fail here. Times are milliseconds.
pub mod Pairing
mod Runs
use sparstrowgen.Prelude.{
  ℕ, ◌+◌, ◌*◌, ◌%◌, ◌^◌, String, Option, some, none, Bool, true, false, not, ◌&&◌, ◌||◌, ltb, ◌==◌,
  string_eq, if◌then◌else◌,
}

pub record Files : Type 0 where
  pub pending : String
  pub credential : String

pub data CredentialKind : Type 0 where
  pending_credential paired_credential shared_token no_credential : CredentialKind

-- `shared` is DAEMON_TOKEN.
unfoldable pub machine_token : Bool → String → Files → String × CredentialKind
machine_token released shared f =
    if not (f.pending == "")
    then (f.pending, pending_credential)
    else if not (f.credential == "")
    then (f.credential, paired_credential)
    else if released
    then ("", no_credential)
    else if not (shared == "")
    then (shared, shared_token)
    else ("", no_credential)

unfoldable pub promote_pending : String → Files → Files
promote_pending credential f =
    if f.pending == credential then record { pending = ""; credential = credential } else f

unfoldable pub forget_pending : String → Files → Files
forget_pending refused f = if f.pending == refused then record f { pending = "" } else f

unfoldable pub forget_paired : String → Files → Files
forget_paired refused f = if f.credential == refused then record f { credential = "" } else f

-- What `run` comes to: whether it connected, and whether the server said that the credential is over.
pub record Outcome : Type 0 where
  pub connected : Bool
  pub disconnected : Bool

-- What the loop does next: it ends; dials at once, with `connectedOnce` as it stands; or waits, with the
-- number of attempts, and `connectedOnce` is false.
pub data Next : Type 0 where
  stops : Next
  at_once : Bool → Next
  waits : ℕ → Next

abbrev pub approve : CredentialKind → String → Bool → Files → Files
approve pending_credential token true f = promote_pending token f
approve pending_credential token false f = f
approve paired_credential token connected f = f
approve shared_token token connected f = f
approve no_credential token connected f = f

abbrev pub forget : CredentialKind → String → Files → Files
forget pending_credential token f = forget_pending token f
forget paired_credential token f = forget_paired token f
forget shared_token token f = f
forget no_credential token f = f

abbrev pub after_refusal : CredentialKind → Bool → Next
after_refusal pending_credential once = at_once once
after_refusal paired_credential once = stops
after_refusal shared_token once = stops
after_refusal no_credential once = stops

-- Another copy saves a pairing.
abbrev pub save : Option String → Files → Files
save none f = f
save (some pairing) f = record f { pending = pairing }

-- A round of the loop with the token that it has read, and the pairing that another copy may save
-- between the connection and the end of `run`; `once` is `connectedOnce` when it begins. How long it waits is left to `backoff`.
unfoldable pub serve_round :
    String → CredentialKind → Outcome → ℕ → Bool → Option String → Files → Files × Next
unfolding promote_pending forget_pending forget_paired
serve_round token kind o attempt once saved f =
    let f' = save saved (approve kind token o.connected f) in
    let once' = once || o.connected in
    if o.disconnected
    then (forget kind token f', after_refusal kind once')
    else (f', waits (if once' then 1 else attempt + 1))

abbrev pub backoff_base : ℕ
backoff_base = 500

abbrev pub backoff_max : ℕ
backoff_max = 30 * 1000

-- `random` is what rand gives; min(attempt, 16) bounds the shift.
unfoldable pub backoff : ℕ → ℕ → ℕ
backoff random attempt =
    let shift = if ltb attempt 16 then attempt else 16 in
    let d = backoff_base * 2 ^ shift in
    random % ((if ltb backoff_max d then backoff_max else d) + 1)
