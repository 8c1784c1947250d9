-- ===== src/Recovery/Validate/Again.antt =====
-- Validation, repair and validation again, of native/solstone-tmux/src/recovery.rs.
use solstone_tmux.Base.{
  ℕ, ◌≡◌, refl, sym, ap, ◌∙◌, subst, Bool, true, false, List, [], ◌∷◌, ◌++◌, Text, Option, none,
  some, Map, Result, ok, get, arith,
}
use solstone_tmux.Base.Stepwise.{bind-ok}
use solstone_tmux.Storage.{SegmentMetadata, SessionMetadata}
use solstone_tmux.Segment.Length.{segment_stem}
use solstone_tmux.Segment.Sound.{KeysDistinct}
use solstone_tmux.Recovery.Validate.{
  RecoveryError, DirEntry, Directory, exact, repair, Validation, Progress, check_entries,
  check_activity, check_sessions, sort, counts_from, recount, judge, activity_filename, repair_of,
  or_else, expect, with_files, validate, validate_files,
}
use solstone_tmux.Recovery.Validate.Turns.{question-ok}
use solstone_tmux.Recovery.Validate.Runs.{
  OwnKeys, NoFile, FilesDistinct, Once, Fresh, check_sessions-Run,
}
use solstone_tmux.Recovery.Validate.Converges.{
  holding, conclude-repair, judge-repair, check_entries-same, activity_after, Repaired-apply,
  validated_again,
}
use solstone_tmux.Recovery.Repair.{Files, RepairOutcome, apply_repairs}

expect-ok : {A : Type 0} (o : Option A) (a : A) → expect o ≡ ok a → o ≡ some a
expect-ok none a h = ground (arith, h)
expect-ok (some b) a h = ap some (ground (arith, h))

some_injective : {A : Type 0} {a b : A} → some a ≡ some b → a ≡ b
some_injective h = ground (arith, h)

same_file :
    (o : Option (List ℕ)) (r : Result RecoveryError (Option (List ℕ))) (p : Option (List ℕ))
    → r ≡ ok o
    → r ≡ ok p
    → o ≡ p
same_file o r p e h = ground (arith, e, h)

Fresh-nil : (sessions : Map SessionMetadata) → Fresh [] sessions
unfolding get
Fresh-nil [] = tt
Fresh-nil ((k, s) ∷ rest) = (refl, Fresh-nil rest)

abbrev at_start : SegmentMetadata → Progress
at_start metadata = record { updated = metadata.sessions; repairs = []; ids = [] }

-- What a validation has found that came to its end.
record Passed (frame_id : List ℕ → Option ℕ) (directory : Directory) (metadata : SegmentMetadata)
    (stem : Text) (v : Validation) : Type 0 where
  pub found : List (Result RecoveryError DirEntry)
  pub done : Progress
  pub file : Option (List ℕ)
  pub cut : Option ℕ
  pub listed : directory.entries ≡ ok found
  pub entered : check_entries metadata.sessions stem found ≡ ok tt
  pub looped : check_sessions frame_id directory metadata.sessions (at_start metadata) ≡ ok done
  pub read_as : directory.read (activity_filename stem) ≡ ok file
  pub checked : check_activity file metadata.activity_durable_offset ≡ ok cut
  pub judged :
      judge metadata
        (with_files metadata done.updated (or_else cut metadata.activity_durable_offset))
        (done.repairs ++ repair_of (activity_filename stem) cut)
        (sort done.ids)
      ≡ ok v

validate-Passed :
    (frame_id : List ℕ → Option ℕ) (directory : Directory) (metadata : SegmentMetadata)
    (stem : Text) (v : Validation)
    → segment_stem metadata.incomplete_dir ≡ some stem
    → validate frame_id directory metadata ≡ ok v
    → Passed frame_id directory metadata stem v
unfolding validate
validate-Passed frame_id directory metadata stem v named h =
    let (other, e1, h1) = bind-ok _ _ v h in
    let (found, e2, h2) = bind-ok _ _ v h1 in
    let (u, e3, h3) = bind-ok _ _ v h2 in
    let (done, e4, h4) = bind-ok _ _ v h3 in
    let (file, e5, h5) = bind-ok _ _ v h4 in
    let (cut, e6, h6) = bind-ok _ _ v h5 in
    let same : other ≡ stem =
      ground (arith, expect-ok (segment_stem metadata.incomplete_dir) other e1, named) in
    let passed : Passed frame_id directory metadata other v = record {
      found = found;
      done = done;
      file = file;
      cut = cut;
      listed = question-ok directory.entries found e2;
      entered = e3;
      looped = e4;
      read_as = question-ok (directory.read (activity_filename other)) file e5;
      checked = e6;
      judged = h6;
    } in
    subst (λ name. Passed frame_id directory metadata name v) same passed

module _ (frame_id : List ℕ → Option ℕ)
    (entries : Result RecoveryError (List (Result RecoveryError DirEntry))) (files last : Files)
    (metadata : SegmentMetadata) (stem : Text) (is_child : Text → Bool)
    (outcomes : List RepairOutcome) where
  -- Let no file be torn and longer than recorded at once, the sessions' keys and files be distinct,
  -- and none of the files be the activity file. Where validate_files asks for repairs and all of
  -- them succeed, validating again with the updated metadata finds the segment exact: it asks for
  -- no further repair and leaves the metadata as it is.
  pub validate_files-apply_repairs :
      (v : Validation) (m : SegmentMetadata)
      → segment_stem metadata.incomplete_dir ≡ some stem
      → KeysDistinct metadata.sessions
      → OwnKeys metadata.sessions
      → FilesDistinct metadata.sessions
      → NoFile (activity_filename stem) metadata.sessions
      → Once frame_id (holding entries files) metadata.sessions
      → validate_files frame_id (holding entries files) metadata ≡ ok v
      → v.kind ≡ repair
      → apply_repairs is_child false v.repairs outcomes files ≡ (ok tt, last)
      → v.updated_metadata ≡ some m
      → validate_files frame_id (holding entries last) m
        ≡ ok (record { kind = exact; detail = []; repairs = []; updated_metadata = some m })
  unfolding validate_files validate
  validate_files-apply_repairs v m named keys own distinct apart once h k applied updated =
      let p =
        validate-Passed frame_id (holding entries files) metadata stem v named
          (conclude-repair (validate frame_id (holding entries files) metadata) v h k) in
      let run =
        check_sessions-Run frame_id (holding entries files) [] metadata.sessions (at_start metadata)
          p.done refl (Fresh-nil metadata.sessions) keys own distinct once p.looped in
      let j = judge-repair metadata _ _ (sort p.done.ids) v p.judged k in
      let cuts_all : apply_repairs is_child false
            (run.repairs ++ repair_of (activity_filename stem) p.cut) outcomes files
          ≡ (ok tt, last) =
        ap
          (λ rs.
            apply_repairs is_child false (rs ++ repair_of (activity_filename stem) p.cut) outcomes
              files)
          (sym run.repairs_are)
        ∙ (ap (λ rs. apply_repairs is_child false rs outcomes files) (sym j.repairs_are)
            ∙ applied) in
      let offset : ℕ = or_else p.cut metadata.activity_durable_offset in
      let settled =
        run.settled (λ n. ok (last n))
          (Repaired-apply is_child outcomes files last run.repairs (activity_filename stem) p.cut
            cuts_all entries metadata.sessions apart) in
      let quiet : check_activity (last (activity_filename stem)) offset ≡ ok none =
        activity_after is_child outcomes files last run.repairs (activity_filename stem) p.cut
          cuts_all metadata.activity_durable_offset (run.elsewhere (activity_filename stem) apart)
          (ap (λ o. check_activity o metadata.activity_durable_offset)
              (same_file (files (activity_filename stem)) _ p.file refl p.read_as)
            ∙ p.checked) in
      let ids : p.done.ids ≡ run.ids = run.ids_are in
      let counted : counts_from 1 (sort run.ids) ≡ true =
        ap (λ is. counts_from 1 (sort is)) (sym ids) ∙ j.counts in
      let same : recount (with_files metadata run.sessions offset) (sort run.ids) ≡ m =
        ap (λ s. recount (with_files metadata s offset) (sort run.ids)) (sym run.updated_is)
        ∙ (ap (λ is. recount (with_files metadata p.done.updated offset) (sort is)) (sym ids)
            ∙ some_injective (sym j.metadata_is ∙ updated)) in
      validated_again frame_id entries files last metadata stem run.sessions run.ids offset p.found
        named p.listed
        (check_entries-same metadata.sessions run.sessions stem p.found run.same_names ∙ p.entered)
        settled quiet counted m same
