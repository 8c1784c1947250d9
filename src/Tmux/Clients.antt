-- ===== src/Tmux/Clients.antt =====
-- `list_clients`, `list_active_clients` and `list_output_sessions` of
-- native/solstone-tmux/src/tmux.rs: which sessions are looked at.
pub mod Latest
use solstone_tmux.Base.{
  ℕ, Bool, true, false, not, ◌&&◌, ◌||◌, List, [], ◌∷◌, ◌++◌, Text, codes, Option, none, some, ℤ,
  pos, ◌-ℤ◌, leb_ℤ, Result, ok, err, any, text_eq, if◌then◌else◌, strip_prefix, ends_with, is_some,
}
use solstone_tmux.Model.{ClientInfo}
use solstone_tmux.Tmux.Pattern.{matches_session_pattern}
use solstone_tmux.Tmux.Fields.{lines, rsplit_once, read_i64}
use solstone_tmux.Tmux.Rows.{
  TmuxOperation, list_clients, list_sessions, TmuxError, command, no_server, nonzero, invalid_utf8,
  CommandError, is_nil,
}
use solstone_tmux.Tmux.Act.{
  CommandOutput, Runner, Warning, client_row, session_row, World, Act, pure, question, attempt,
  warn, ◌>>=◌, ◌>>◌,
}

-- What stands outside the source: `String::from_utf8`, `String::from_utf8_lossy` and `trim_end`.
pub record Decoding : Type 0 where
  pub from_utf8 : List ℕ → Option Text
  pub from_utf8_lossy : List ℕ → Text
  pub trim_end : Text → Text

abbrev pub is_zero : ℤ → Bool
is_zero (pos ℕ.zero) = true
is_zero n = false

unfoldable pub reports_no_server : Decoding → CommandOutput → Bool
reports_no_server d output =
    if is_zero output.status
    then false
    else (let message = d.trim_end (d.from_utf8_lossy output.stderr) in
        is_some (strip_prefix (codes "no server running on ") message)
        || (is_some (strip_prefix (codes "error connecting to ") message)
            && ends_with (codes " (No such file or directory)") message))

-- How `run` reads the answer of the runner.
unfoldable pub assess_output :
    Decoding → TmuxOperation → Result CommandError CommandOutput → Result TmuxError CommandOutput
assess_output d operation (err e) = err (command e)
assess_output d operation (ok output) =
    if reports_no_server d output
    then err (no_server operation)
    else if not (is_zero output.status)
    then err (nonzero operation output.status (d.from_utf8_lossy output.stderr))
    else ok output

abbrev pub decoded : Decoding → TmuxOperation → CommandOutput → Result TmuxError Text
decoded d operation output = elim (d.from_utf8 output.stdout) [
  | none ↦ err (invalid_utf8 operation)
  | some text ↦ ok text
]

-- A row of `list-clients`: the session and its last activity, or why it is dropped.
unfoldable pub read_client_row : Text → Option (Text × ℤ)
read_client_row row = elim (rsplit_once b' ' row) [
  | none ↦ none
  | some (session, activity) ↦
      if is_nil row || is_nil session
      then none
      else elim (read_i64 activity) [ none ↦ none | some n ↦ some (session, n) ]
]

abbrev pub max_ℤ : ℤ → ℤ → ℤ
max_ℤ a b = if leb_ℤ a b then b else a

-- `clients[index].activity` where `seen` has the session, and a new client where it has not.
unfoldable pub note_client : Text → ℤ → List ClientInfo → List ClientInfo
note_client session activity [] = record { session = session; activity = activity } ∷ []
note_client session activity (c ∷ clients) =
    if text_eq c.session session
    then record c { activity = max_ℤ c.activity activity } ∷ clients
    else c ∷ note_client session activity clients

unfoldable pub client_rows : List ClientInfo → List Text → List ClientInfo × List Warning
client_rows clients [] = (clients, [])
client_rows clients (row ∷ rows) = elim (read_client_row row) [
  | none ↦ let rest = client_rows clients rows in (rest.0, client_row row ∷ rest.1)
  | some (session, activity) ↦ client_rows (note_client session activity clients) rows
]

-- A client is looked at if its activity is no older than the interval.
abbrev pub is_recent : ℤ → ℕ → ℤ → Bool
is_recent now maximum_age activity = leb_ℤ (now -ℤ activity) (pos maximum_age)

unfoldable pub active_clients : ℤ → ℕ → List ClientInfo → List ClientInfo
active_clients now age [] = []
active_clients now age (c ∷ clients) =
    let rest = active_clients now age clients in
    if is_recent now age c.activity then c ∷ rest else rest

-- A row of `list-sessions`.
unfoldable pub read_session_row : Text → Option (Text × ℤ)
read_session_row row = elim (rsplit_once b' ' row) [
  | none ↦ none
  | some (session, activity) ↦ elim (read_i64 activity) [ none ↦ none | some n ↦ some (session, n) ]
]

abbrev pub is_output_session : List Text → ℤ → ℕ → Text → ℤ → Bool
is_output_session patterns now age session activity =
    not (is_nil session)
    && (is_recent now age activity
        && any (λ pattern. matches_session_pattern pattern session) patterns)

unfoldable pub session_rows : List Text → ℤ → ℕ → List Text → List Text × List Warning
session_rows patterns now age [] = ([], [])
session_rows patterns now age (row ∷ rows) =
    let rest = session_rows patterns now age rows in
    elim (read_session_row row) [
      | none ↦ (rest.0, session_row row ∷ rest.1)
      | some (session, activity) ↦
          if is_output_session patterns now age session activity
          then (session ∷ rest.0, rest.1)
          else rest
    ]

module _ {S : Type 0} (runner : Runner S) (d : Decoding) where
  unfoldable pub ask : TmuxOperation → Act S (Result CommandError CommandOutput)
  ask operation w =
      let (answer, s) = runner.run operation w.server in (ok answer, record w { server = s })

  -- `TmuxAdapter::run`
  unfoldable pub run : TmuxOperation → Act S CommandOutput
  run operation = do answer ← ask operation; question (assess_output d operation answer)

  unfoldable pub warn_all : List Warning → Act S (Unit {0})
  warn_all [] = pure tt
  warn_all (line ∷ lines) = do warn line; warn_all lines

  -- No server means that there is nothing to observe yet; any other error goes on.
  abbrev pub without_server : {A : Type 0} → A → TmuxError → Act S A
  without_server a (no_server operation) = pure a
  without_server a e = question (err e)

  abbrev pub clients_of : Result TmuxError CommandOutput → Act S (List ClientInfo)
  clients_of (err e) = without_server [] e
  clients_of (ok output) = do
    stdout ← question (decoded d list_clients output)
    let found = client_rows [] (lines stdout)
    warn_all found.1
    pure found.0

  -- `TmuxAdapter::list_clients`
  unfoldable pub list_all_clients : Act S (List ClientInfo)
  list_all_clients = do output ← attempt (run list_clients); clients_of output

  -- `TmuxAdapter::list_active_clients`
  unfoldable pub list_active_clients : ℤ → ℕ → Act S (List ClientInfo)
  list_active_clients now age = do clients ← list_all_clients; pure (active_clients now age clients)

  abbrev pub sessions_of : List Text → ℤ → ℕ → Result TmuxError CommandOutput → Act S (List Text)
  sessions_of patterns now age (err e) = without_server [] e
  sessions_of patterns now age (ok output) = do
    stdout ← question (decoded d list_sessions output)
    let found = session_rows patterns now age (lines stdout)
    warn_all found.1
    pure found.0

  -- `TmuxAdapter::list_output_sessions`
  unfoldable pub list_output_sessions : List Text → ℤ → ℕ → Act S (List Text)
  list_output_sessions [] now age = pure []
  list_output_sessions (pattern ∷ patterns) now age = do
    output ← attempt (run list_sessions)
    sessions_of (pattern ∷ patterns) now age output
