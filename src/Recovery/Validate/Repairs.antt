-- ===== src/Recovery/Validate/Repairs.antt =====
-- The loop of `validate_files` over all sessions: the repairs that it gathers settle every file.
use solstone_tmux.Base.{
  ℕ, ◌≡◌, sym, ap, ◌∙◌, false, List, [], ◌∷◌, ◌++◌, Text, Option, some, Map, Result, ok, take,
  append-nil, append_assoc, arith,
}
use solstone_tmux.Base.Stepwise.{bind-step}
use solstone_tmux.Storage.{SessionMetadata}
use solstone_tmux.Recovery.Prefix.{Prefix, stop_at, parse_recorded_prefix}
use solstone_tmux.Recovery.Validate.{
  Directory, RecoveryError, Progress, check_prefix, check_suffix, read_session, check_session,
  check_sessions, question,
}
use solstone_tmux.Recovery.Validate.Loop.{IsSettled, take_all}

abbrev pub Reading : Type 0
Reading = Text → Result RecoveryError (Option (List ℕ))

-- Every session's file is settled, and `ids` are those of all files in turn.
abbrev pub AllSettled : (List ℕ → Option ℕ) → Reading → Map SessionMetadata → List ℕ → Type 0
AllSettled frame_id read [] ids = ids ≡ []
AllSettled frame_id read ((k, s) ∷ rest) ids =
    (file : List ℕ) × (own : List ℕ) × (more : List ℕ) × (read s.filename ≡ ok (some file))
    × IsSettled frame_id file s own
    × (ids ≡ own ++ more)
    × AllSettled frame_id read rest more

module _ (frame_id : List ℕ → Option ℕ) (directory : Directory) where
  settled_session :
      (s : SessionMetadata) (file ids : List ℕ) (done : Progress)
      → directory.read s.filename ≡ ok (some file)
      → IsSettled frame_id file s ids
      → check_session frame_id directory s done ≡ ok (record done { ids = done.ids ++ ids })
  unfolding check_session read_session check_prefix check_suffix
  settled_session s file ids done found is =
      let whole : take s.durable_offset file ≡ file = take_all s.durable_offset file is.size in
      let p : parse_recorded_prefix frame_id (take s.durable_offset file)
          ≡ stop_at s.durable_offset ids false =
        ap (parse_recorded_prefix frame_id) whole ∙ is.parsed in
      bind-step _ _ (some file) _ (ap question found) (
        bind-step _ _ file _ (ground (arith, is.size)) (
          bind-step _ _ done _ (rw p (ground (arith, is.last))) (
            bind-step _ _ done _ (ground (arith, is.size))
              (ap (λ (q : Prefix). ok (record done { ids = done.ids ++ q.ids })) p))))

  -- Where every file is settled, the loop passes and asks for no repair.
  pub check_sessions-AllSettled :
      (sessions : Map SessionMetadata) (ids : List ℕ) (done : Progress)
      → AllSettled frame_id directory.read sessions ids
      → check_sessions frame_id directory sessions done ≡ ok (record done { ids = done.ids ++ ids })
  unfolding check_sessions
  check_sessions-AllSettled [] ids done e =
      ap (λ xs. ok (record done { ids = xs }))
        (sym (append-nil done.ids) ∙ ap (λ xs. done.ids ++ xs) (sym e))
  check_sessions-AllSettled ((k, s) ∷ rest) ids done (file, own, more, found, is, e, later) =
      bind-step _ _ (record done { ids = done.ids ++ own }) _
        (settled_session s file own done found is)
        (check_sessions-AllSettled rest more (record done { ids = done.ids ++ own }) later
          ∙ ap (λ xs. ok (record done { ids = xs }))
              (append_assoc done.ids own more ∙ ap (λ xs. done.ids ++ xs) (sym e)))
