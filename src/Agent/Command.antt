-- ===== src/Agent/Command.antt =====
-- claude.go, codex.go and agy.go: how each CLI is called, what its exit is made into, and the catalogue
-- of agy's models. Times are nanoseconds; processes, logs and `agy models` are outside.
pub mod Answered
use sparstrowgen.Prelude.{
  ℕ, ◌+◌, ◌-◌, ◌*◌, String, List, [], ◌∷◌, ◌++◌, map, Option, some, none, Bool, true, false, not,
  ◌&&◌, ltb, ◌==◌, string_eq, if◌then◌else◌,
}
use sparstrowgen.Text.{Text, codes}
use sparstrowgen.Protocol.{Model}
use sparstrowgen.Daemon.RunTurn.{Result}
use sparstrowgen.Agent.Parsed.{Parsed, is_blank}

pub record ExecOptions : Type 0 where
  pub cwd : Text
  pub model : Text
  pub resume_session_id : Text
  pub add_dirs : List Text
  pub images : List Text

-- `flag value` where the value is given.
abbrev option : Text → Text → List Text
option flag [] = []
option flag (c ∷ value) = flag ∷ (c ∷ value) ∷ []

abbrev add_dirs_of : List Text → List Text
add_dirs_of [] = []
add_dirs_of (d ∷ ds) = codes "--add-dir" ∷ d ∷ add_dirs_of ds

unfoldable pub claude_args : ExecOptions → List Text
claude_args o =
    map codes (
      "-p" ∷ "--input-format" ∷ "stream-json" ∷ "--output-format" ∷ "stream-json" ∷ "--verbose"
      ∷ "--include-partial-messages" ∷ "--strict-mcp-config" ∷ "--setting-sources" ∷ "project"
      ∷ "--disallowedTools" ∷ "AskUserQuestion" ∷ [])
    ++ option (codes "--model") o.model
    ++ option (codes "--resume") o.resume_session_id
    ++ add_dirs_of o.add_dirs

unfoldable pub codex_args : ExecOptions → List Text
codex_args o =
    let args =
      map codes ("exec" ∷ "--json" ∷ "--ignore-user-config" ∷ "--skip-git-repo-check" ∷ [])
      ++ option (codes "-m") o.model in
    let images = map (λ (img : Text). codes "--image=" ++ img) o.images in
    if is_blank o.resume_session_id
    then args ++ images ++ (codes "-" ∷ [])
    else args ++ (codes "resume" ∷ []) ++ images ++ (o.resume_session_id ∷ codes "-" ∷ [])

-- `timeout` is agyPrintTimeout as time.Duration prints it.
unfoldable pub agy_args : Text → ExecOptions → Text → List Text
agy_args timeout o log_path =
    map codes (
      "-p=" ∷ "--input-format" ∷ "stream-json" ∷ "--output-format" ∷ "stream-json"
      ∷ "--print-timeout" ∷ [])
    ++ (timeout ∷ [])
    ++ option (codes "--log-file") log_path
    ++ option (codes "--add-dir") o.cwd
    ++ add_dirs_of o.add_dirs
    ++ option (codes "--model") o.model
    ++ option (codes "--conversation") o.resume_session_id

-- What a turn's result is, of what was parsed and what waiting for the process answered.
unfoldable pub result_of : Parsed → Option Text → Result
result_of p err = record {
  text = p.text;
  session_id = p.session_id;
  tokens = p.tokens;
  spend_ticks = p.spend_ticks;
  err = err;
}

unfoldable pub claude_result : Parsed → Option Text → Result
unfolding result_of
claude_result p wait_err = result_of p (elim p.err [
  | some e ↦ some e
  | none ↦ elim wait_err [
    | none ↦ none
    | some w ↦
        if is_blank p.text then some (codes "claude exited without answering: " ++ w) else some w
  ]
])

unfoldable pub codex_result : Parsed → Option Text → Result
unfolding result_of
codex_result p wait_err = result_of p (elim p.err [ some e ↦ some e | none ↦ wait_err ])

-- agyQuietFailure. The last match of agyExecutorErrorRe, trimmed, and whether agyTimedOutRe matches are
-- given.
unfoldable pub agy_quiet_failure : Option Text → Bool → Option Text → Text
agy_quiet_failure executor_error timed_out wait_err = elim executor_error [
  | some e ↦ codes "agy failed: " ++ e
  | none ↦ if timed_out then codes "agy gave up waiting for its own answer" else elim wait_err [
    | some w ↦ codes "agy exited without answering: " ++ w
    | none ↦ codes "agy finished without writing an answer"
  ]
]

unfoldable pub agy_result : Parsed → Option Text → Bool → Bool → Option Text → Result
unfolding result_of agy_quiet_failure
agy_result p executor_error timed_out cancelled wait_err = result_of p (elim p.err [
  | some e ↦ some e
  | none ↦
      if is_blank p.text && not cancelled
      then some (agy_quiet_failure executor_error timed_out wait_err)
      else wait_err
])

abbrev pub agy_catalog_ttl : ℕ
agy_catalog_ttl = 10 * 60 * 1000000000

-- The zero time is none.
pub record Catalog : Type 0 where
  pub at : Option ℕ
  pub models : List Model

abbrev pub no_models : List Model → Bool
no_models [] = true
no_models (m ∷ ms) = false

unfoldable pub put : ℕ → List Model → Catalog → Catalog
put now models c = if no_models models then c else record { at = some now; models = models }

abbrev is_fresh : ℕ → Option ℕ → Bool
is_fresh now none = false
is_fresh now (some at) = ltb (now - at) agy_catalog_ttl

-- `listed` is what `agy models` would list now.
unfoldable pub get : ℕ → List Model → Catalog → Catalog × List Model
unfolding put
get now listed c =
    if is_fresh now c.at
    then (c, c.models)
    else if no_models listed
    then (c, c.models)
    else (put now listed c, listed)

-- Calls in any order: a listing that is remembered, or a turn that asks.
pub data CatalogCall : Type 0 where
  puts gets : ℕ → List Model → CatalogCall

unfoldable pub run_catalog : List CatalogCall → Catalog → Catalog
unfolding put get
run_catalog [] c = c
run_catalog (puts now ms ∷ calls) c = run_catalog calls (put now ms c)
run_catalog (gets now ms ∷ calls) c = run_catalog calls (get now ms c).0
