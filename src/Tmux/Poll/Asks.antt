-- ===== src/Tmux/Poll/Asks.antt =====
-- The lists and the questions of a poll: none of them panics.
use solstone_tmux.Base.{
  ℕ, Bool, true, false, List, [], ◌∷◌, Text, Option, none, some, ℤ, Result, ok, err, Apart, arith,
}
use solstone_tmux.Tmux.Fields.{lines}
use solstone_tmux.Tmux.Rows.{
  DisplayField, list_clients, list_sessions, TmuxError, command, no_server,
  executable_must_be_absolute, nonzero, invalid_utf8, malformed,
}
use solstone_tmux.Tmux.Act.{
  CommandOutput, ExeFailure, unavailable, unsupported, Runner, Warning, pure, warn, ◌>>◌, OrError,
  Always, pure-Always, question-Always, attempt-Always, warn-Always, bind-Always,
}
use solstone_tmux.Tmux.Clients.{
  Decoding, decoded, run, warn_all, client_rows, active_clients, session_rows, without_server,
  clients_of, sessions_of, list_all_clients, list_active_clients, list_output_sessions,
}
use solstone_tmux.Tmux.Clients.Latest.{client_rows-IsLatest}
use solstone_tmux.Tmux.Poll.{
  ask_display, message_of, answer_field, ask_field, pid_of, ask_lookup, exe_of, look_up,
  ask_executable,
}
use solstone_tmux.Tmux.Poll.Sound.{Anything, any-question, run-Always}
use solstone_tmux.Tmux.Poll.Plan.{same_client, active_clients-Apart, ClientsDistinct-Apart}

module _ {S : Type 0} (runner : Runner S) (d : Decoding) where
  pub warn_all-Always : (notes : List Warning) → Always Anything (warn_all runner d notes)
  unfolding warn_all
  warn_all-Always [] = pure-Always Anything tt tt
  warn_all-Always (line ∷ notes) =
      bind-Always Anything Anything _ _ (warn-Always line) (λ u v. warn_all-Always notes)

  pub without_server-Always :
      {A : Type 0} (P : A → Type 0) (a : A) (e : TmuxError)
      → P a
      → Always P (without_server runner d a e)
  without_server-Always P a (no_server operation) p = pure-Always P a p
  without_server-Always P a (command e) p =
      question-Always P (err (command e)) (λ b h. ground (arith, h))
  without_server-Always P a (executable_must_be_absolute path) p =
      question-Always P (err (executable_must_be_absolute path)) (λ b h. ground (arith, h))
  without_server-Always P a (nonzero o n t) p =
      question-Always P (err (nonzero o n t)) (λ b h. ground (arith, h))
  without_server-Always P a (invalid_utf8 o) p =
      question-Always P (err (invalid_utf8 o)) (λ b h. ground (arith, h))
  without_server-Always P a (malformed o t) p =
      question-Always P (err (malformed o t)) (λ b h. ground (arith, h))

  pub clients_of-Always :
      (r : Result TmuxError CommandOutput) → Always (Apart same_client) (clients_of runner d r)
  clients_of-Always (err e) = without_server-Always (Apart same_client) [] e tt
  clients_of-Always (ok output) =
      bind-Always Anything (Apart same_client) _ _
        (any-question runner d (decoded d list_clients output))
        (λ stdout u.
          let found = client_rows [] (lines stdout) in
          bind-Always Anything (Apart same_client) _ _ (warn_all-Always found.1) (λ v x.
            pure-Always (Apart same_client) found.0
              (ClientsDistinct-Apart found.0 (client_rows-IsLatest (lines stdout)).distinct)))

  pub list_active_clients-Always :
      (now : ℤ) (age : ℕ) → Always (Apart same_client) (list_active_clients runner d now age)
  unfolding list_active_clients list_all_clients
  list_active_clients-Always now age =
      bind-Always (Apart same_client) (Apart same_client) _ _
        (bind-Always (OrError Anything) (Apart same_client) _ _
          (attempt-Always Anything (run runner d list_clients) (run-Always runner d list_clients))
          (λ r u. clients_of-Always r))
        (λ clients h.
          pure-Always (Apart same_client) (active_clients now age clients)
            (active_clients-Apart now age clients h))

  pub sessions_of-Always :
      (patterns : List Text) (now : ℤ) (age : ℕ) (r : Result TmuxError CommandOutput)
      → Always Anything (sessions_of runner d patterns now age r)
  sessions_of-Always patterns now age (err e) = without_server-Always Anything [] e tt
  sessions_of-Always patterns now age (ok output) =
      bind-Always Anything Anything _ _ (any-question runner d (decoded d list_sessions output))
        (λ stdout u.
          bind-Always Anything Anything _ _
            (warn_all-Always (session_rows patterns now age (lines stdout)).1)
            (λ v x. pure-Always Anything _ tt))

  pub list_output_sessions-Always :
      (patterns : List Text) (now : ℤ) (age : ℕ)
      → Always Anything (list_output_sessions runner d patterns now age)
  unfolding list_output_sessions
  list_output_sessions-Always [] now age = pure-Always Anything [] tt
  list_output_sessions-Always (p ∷ patterns) now age =
      bind-Always (OrError Anything) Anything _ _
        (attempt-Always Anything (run runner d list_sessions) (run-Always runner d list_sessions))
        (λ r u. sessions_of-Always (p ∷ patterns) now age r)

  pub ask_display-Always :
      (target : Text) (field : DisplayField) → Always Anything (ask_display runner d target field)
  unfolding ask_display
  ask_display-Always target field =
      bind-Always (OrError Anything) Anything _ _
        (attempt-Always Anything _ (run-Always runner d _))
        (λ r u. pure-Always Anything (message_of runner d r) tt)

  pub warned-Always :
      {A : Type 0} (line : Warning) (a : A) → Always Anything (warn {S = S} line >> pure a)
  warned-Always line a =
      bind-Always Anything Anything _ _ (warn-Always line) (λ v x. pure-Always Anything a tt)

  pub ask_field-Always :
      (wanted : Bool) (target : Text) (field : DisplayField) (line : Warning)
      → Always Anything (ask_field runner d wanted target field line)
  unfolding ask_field
  ask_field-Always false target field line = pure-Always Anything _ tt
  ask_field-Always true target field line =
      bind-Always Anything Anything _ _ (ask_display-Always target field) (λ value u.
        elim value as (λ v. Always Anything (answer_field runner d line v)) [
          | some text ↦ pure-Always Anything _ tt
          | none ↦ warned-Always line _
        ])

  pub exe_of-Always : (r : Result ExeFailure Text) → Always Anything (exe_of runner d r)
  exe_of-Always (err unsupported) = warned-Always _ _
  exe_of-Always (err unavailable) = warned-Always _ _
  exe_of-Always (ok []) = warned-Always _ _
  exe_of-Always (ok (c ∷ path)) = pure-Always Anything _ tt

  pub ask_lookup-Always : (pid : ℕ) → Always Anything (ask_lookup runner d pid)
  unfolding ask_lookup
  ask_lookup-Always pid w = tt

  pub look_up-Always : (pid : Option ℕ) → Always Anything (look_up runner d pid)
  look_up-Always none = warned-Always _ _
  look_up-Always (some pid) =
      bind-Always Anything Anything _ _ (ask_lookup-Always pid) (λ r u. exe_of-Always r)

  pub ask_executable-Always :
      (wanted : Bool) (target : Text) → Always Anything (ask_executable runner d wanted target)
  unfolding ask_executable
  ask_executable-Always false target = pure-Always Anything _ tt
  ask_executable-Always true target =
      bind-Always Anything Anything _ _ (ask_display-Always target _)
        (λ value u. look_up-Always (pid_of runner d value))
