-- ===== src/Tmux/Poll.antt =====
-- `capture_session`, `display_message` and `poll_context` of native/solstone-tmux/src/tmux.rs: one
-- look at all sessions.
pub mod Sound
pub mod Plan
pub mod Asks
pub mod Sessions
use solstone_tmux.Base.{
  ℕ, zero, Bool, true, false, not, ◌&&◌, ◌||◌, List, [], ◌∷◌, ◌++◌, Text, codes, Option, none, some,
  ℤ, Result, ok, err, any, text_eq, strip_suffix, if◌then◌else◌, is_some,
}
use solstone_tmux.Model.{ClientInfo, WindowInfo, PaneInfo, CaptureResult, PollOutcome}
use solstone_tmux.Name.{derive_component}
use solstone_tmux.Tmux.Fields.{read_u32}
use solstone_tmux.Tmux.Rows.{
  TmuxOperation, DisplayField, pane_title, pane_current_path, pane_pid, list_windows, list_panes,
  capture_pane, display_message, TmuxError, parse_windows, parse_panes, is_nil,
}
use solstone_tmux.Tmux.Act.{
  CommandOutput, ExeFailure, unavailable, unsupported, Runner, Warning, session_skipped,
  session_failed, no_title, no_directory, no_executable, executable_unsupported, World, Act, Stop,
  panics, pure, question, attempt, warn, ◌>>=◌, ◌>>◌,
}
use solstone_tmux.Tmux.Clients.{Decoding, decoded, run, list_active_clients, list_output_sessions}

-- The time of a poll: `unix_timestamp()` and the milliseconds since 1970.
pub record WallNow : Type 0 where
  pub unix_timestamp : ℤ
  pub ts : ℤ

-- The options of `TmuxAdapter`, and the lines that serialize.rs makes.
pub record Adapter : Type 0 where
  pub pane_title : Bool
  pub working_directory : Bool
  pub executable_enabled : Bool
  pub output_sessions : List Text
  pub serialize_terminal_activity :
      ℤ → Text → Text → Option Text → Option Text → Option Text → List ℕ
  pub serialize_availability_activity : ℤ → Text → List ℕ

-- `windows.iter().find(|window| window.active)`
unfoldable pub find_active : List WindowInfo → Option WindowInfo
find_active [] = none
find_active (w ∷ ws) = if w.active then some w else find_active ws

-- What the loop over the sessions has gathered.
pub record Gathered : Type 0 where
  pub captures : List CaptureResult
  pub activity_jsonl : List ℕ
  pub any_failure : Bool
  pub any_unavailable : Bool

-- The activity rows of one pane, and how asking for it failed.
pub record Context : Type 0 where
  pub title : Option Text
  pub cwd : Option Text
  pub exe : Option Text
  pub any_failure : Bool
  pub any_unavailable : Bool

-- A session that an output pattern selects is added if no client is on it.
unfoldable pub add_sessions : List (Text × Bool) → List Text → List (Text × Bool)
add_sessions sessions [] = sessions
add_sessions sessions (session ∷ more) =
    let listed = any (λ (name, output). text_eq name session) sessions in
    add_sessions (if listed then sessions else sessions ++ ((session, true) ∷ [])) more

unfoldable pub client_sessions : List ClientInfo → List (Text × Bool)
client_sessions [] = []
client_sessions (c ∷ clients) = (c.session, false) ∷ client_sessions clients

abbrev pub refused : {E A : Type 0} → Result E A → Bool
refused (ok a) = false
refused (err e) = true

module _ {S : Type 0} (runner : Runner S) (d : Decoding) where
  unfoldable pub read_windows : Text → Act S (List WindowInfo)
  read_windows session = do
    output ← run runner d (list_windows session)
    stdout ← question (decoded d (list_windows session) output)
    question (parse_windows stdout (list_windows session))

  unfoldable pub read_panes : Text → Act S (List PaneInfo)
  read_panes window = do
    output ← run runner d (list_panes window)
    stdout ← question (decoded d (list_panes window) output)
    question (parse_panes stdout (list_panes window))

  unfoldable pub read_pane : Text → Act S Text
  read_pane pane = do
    output ← run runner d (capture_pane pane)
    question (decoded d (capture_pane pane) output)

  unfoldable pub read_contents : List PaneInfo → Act S (List PaneInfo)
  read_contents [] = pure []
  read_contents (p ∷ panes) = do
    content ← read_pane p.id
    rest ← read_contents panes
    pure ((record p { content = content }) ∷ rest)

  -- `expect("validated window set has one active window")`
  unfoldable pub expect : {A : Type 0} → Option A → Act S A
  expect none w = (err panics, w)
  expect (some a) w = (ok a, w)

  -- `TmuxAdapter::capture_session`
  unfoldable pub capture_session : Text → Act S CaptureResult
  capture_session session = do
    windows ← read_windows session
    window ← expect (find_active windows)
    empty ← read_panes window.id
    panes ← read_contents empty
    pure (record {
      session = session;
      window = window;
      windows = windows;
      panes = panes;
      output_only = false;
    })

  abbrev pub line_of : Option Text → Option Text
  line_of none = none
  line_of (some text) = strip_suffix (b'\n' ∷ []) text

  abbrev pub message_of : Result TmuxError CommandOutput → Option Text
  message_of (err e) = none
  message_of (ok output) = line_of (d.from_utf8 output.stdout)

  -- `TmuxAdapter::display_message`, whose errors carry nothing.
  unfoldable pub ask_display : Text → DisplayField → Act S (Option Text)
  ask_display target field = do
    answer ← attempt (run runner d (display_message target field))
    pure (message_of answer)

  abbrev pub answer_field : Warning → Option Text → Act S (Option Text × Bool)
  answer_field line (some text) = pure (some text, false)
  answer_field line none = warn line >> pure (none, true)

  -- One field that is wanted: its value, or a warning that it is unavailable.
  unfoldable pub ask_field : Bool → Text → DisplayField → Warning → Act S (Option Text × Bool)
  ask_field false target field line = pure (none, false)
  ask_field true target field line = do value ← ask_display target field; answer_field line value

  -- `value.parse::<u32>().ok().filter(|pid| *pid != 0)`
  abbrev pub nonzero_pid : Option ℕ → Option ℕ
  nonzero_pid none = none
  nonzero_pid (some zero) = none
  nonzero_pid (some n) = some n

  abbrev pub pid_of : Option Text → Option ℕ
  pid_of none = none
  pid_of (some value) = nonzero_pid (read_u32 value)

  unfoldable pub ask_lookup : ℕ → Act S (Result ExeFailure Text)
  ask_lookup pid w =
      let (answer, s) = runner.lookup pid w.server in (ok answer, record w { server = s })

  -- The executable's path, and whether it failed and was unavailable.
  abbrev pub exe_of : Result ExeFailure Text → Act S (Option Text × Bool × Bool)
  exe_of (err unsupported) = warn executable_unsupported >> pure (none, true, false)
  exe_of (err unavailable) = warn no_executable >> pure (none, true, true)
  exe_of (ok []) = warn no_executable >> pure (none, true, true)
  exe_of (ok (c ∷ path)) = pure (some (c ∷ path), false, false)

  abbrev pub look_up : Option ℕ → Act S (Option Text × Bool × Bool)
  look_up none = warn no_executable >> pure (none, true, true)
  look_up (some pid) = do found ← ask_lookup pid; exe_of found

  unfoldable pub ask_executable : Bool → Text → Act S (Option Text × Bool × Bool)
  ask_executable false target = pure (none, false, false)
  ask_executable true target = do value ← ask_display target pane_pid; look_up (pid_of value)

  module _ (adapter : Adapter) where
    -- The body of the loop over a capture's panes, up to the row.
    unfoldable pub ask_context : PaneInfo → Act S Context
    ask_context pane = do
      title ← ask_field adapter.pane_title pane.id pane_title no_title
      cwd ← ask_field adapter.working_directory pane.id pane_current_path no_directory
      exe ← ask_executable adapter.executable_enabled pane.id
      pure (record {
        title = title.0;
        cwd = cwd.0;
        exe = exe.0;
        any_failure = title.1 || (cwd.1 || exe.1);
        any_unavailable = title.1 || (cwd.1 || exe.2);
      })

    abbrev pub row_of : ℤ → CaptureResult → Context → List ℕ
    row_of ts capture c =
        if is_some c.title || (is_some c.cwd || is_some c.exe)
        then adapter.serialize_terminal_activity ts capture.session capture.window.name c.title
            c.cwd c.exe
        else []

    unfoldable pub add_contexts : ℤ → CaptureResult → List PaneInfo → Gathered → Act S Gathered
    add_contexts ts capture [] g = pure g
    add_contexts ts capture (pane ∷ panes) g = do
      c ← ask_context pane
      add_contexts ts capture panes (record g {
        activity_jsonl = g.activity_jsonl ++ row_of ts capture c;
        any_failure = g.any_failure || c.any_failure;
        any_unavailable = g.any_unavailable || c.any_unavailable;
      })

    abbrev pub wants_context : Bool
    wants_context = adapter.pane_title || (adapter.working_directory || adapter.executable_enabled)

    -- A session's capture, added with its contexts, or a warning.
    abbrev pub add_capture :
        ℤ → Text → Bool → Result TmuxError CaptureResult → Gathered → Act S Gathered
    add_capture ts session output (err e) g = warn (session_failed session) >> pure g
    add_capture ts session output (ok found) g = do
      let capture : CaptureResult = record found { output_only = output }
      next ← add_contexts ts capture (if wants_context then capture.panes else []) g
      pure (record next { captures = next.captures ++ (capture ∷ []) })

    -- The loop over the sessions.
    unfoldable pub gather : ℤ → List (Text × Bool) → Gathered → Act S Gathered
    gather ts [] g = pure g
    gather ts ((session, output) ∷ sessions) g =
        if refused (derive_component session)
        then (do warn (session_skipped session); gather ts sessions g)
        else (do
          found ← attempt (capture_session session)
          next ← add_capture ts session output found g
          gather ts sessions next)

    abbrev pub availability : ℤ → Gathered → List ℕ
    availability ts g =
        if g.any_failure
        then adapter.serialize_availability_activity ts
            (if g.any_unavailable then codes "unavailable" else codes "unsupported")
        else []

    unfoldable pub poll_context : WallNow → ℕ → Act S PollOutcome
    poll_context now interval = do
      clients ← list_active_clients runner d now.unix_timestamp interval
      outputs ← list_output_sessions runner d adapter.output_sessions now.unix_timestamp interval
      g ← gather now.ts (add_sessions (client_sessions clients) outputs) (record {
        captures = [];
        activity_jsonl = [];
        any_failure = false;
        any_unavailable = false;
      })
      pure (record {
        captures = g.captures;
        activity_jsonl = g.activity_jsonl ++ availability now.ts g;
      })
