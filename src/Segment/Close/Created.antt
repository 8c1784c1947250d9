-- ===== src/Segment/Close/Created.antt =====
-- A segment that is created starts with the invariant of its metadata.
use solstone_tmux.Base.{
  ℕ, ◌^◌, ◌<◌, ◌≡◌, refl, ◌∙◌, inl, inr, ℤ, [], ◌++◌, Text, codes, Option, Result, ok, err,
  Result-cases, Bool-cases, arith,
}
use solstone_tmux.Storage.{SegmentMetadata, StorageError}
use solstone_tmux.Segment.{SegmentState, SegmentError, Externals, Failure}
use solstone_tmux.Segment.Length.{lengthened, lengthened-IsNamed, record_length_lem}
use solstone_tmux.Segment.Monad.{Method, on_disk, continue}
use solstone_tmux.Segment.Steps.{◌>>=◌}
use solstone_tmux.Segment.Sound.{IsSound}
use solstone_tmux.Segment.Close.{
  on_storage, not_taken, initial_metadata, create_files, opened_state, create,
}

-- The method leaves the metadata, the digests and the close as they were.
record IsQuiet {S A : Type 0} (m : Method S A) : Type 0 where
  at : (st : SegmentState S) → (m st).1.metadata ≡ st.metadata

module _ {S A B : Type 0} where
  continue-metadata :
      (r : Result Failure A) (k : A → Method S B) (st : SegmentState S)
      → ((a : A) → IsQuiet (k a))
      → (continue r k st).1.metadata ≡ st.metadata
  continue-metadata (ok a) k st q = (q a).at st
  continue-metadata (err e) k st q = refl

  IsQuiet-bind :
      (m : Method S A) (k : A → Method S B)
      → IsQuiet m
      → ((a : A) → IsQuiet (k a))
      → IsQuiet (m >>= k)
  unfolding ◌>>=◌
  IsQuiet-bind m k h q = record { at = λ st. continue-metadata (m st).0 k (m st).1 q ∙ h.at st }

module _ {S T : Type 0} (env : Externals S T) where
  IsQuiet-on_disk : {A : Type 0} (call : S → Result SegmentError A × S) → IsQuiet (on_disk call)
  IsQuiet-on_disk call = record {
    at = λ st. elim (Result-cases (call st.disk).0) [
      | inl (a, e) ↦ rw e refl
      | inr (x, e) ↦ rw e refl
    ];
  }

  IsQuiet-on_storage :
      (call : S → Result StorageError (Unit {0}) × S) → IsQuiet (on_storage env call)
  unfolding on_storage
  IsQuiet-on_storage call = record {
    at = λ st. elim (Result-cases (call st.disk).0) [
      | inl (a, e) ↦ rw e refl
      | inr (x, e) ↦ rw e refl
    ];
  }

  IsQuiet-not_taken : (name reported : Text) → IsQuiet (not_taken env name reported)
  unfolding not_taken
  IsQuiet-not_taken name reported = record {
    at = λ st. elim (Bool-cases (env.entry_exists name st.disk)) [
      | inl e ↦ rw e refl
      | inr e ↦ rw e refl
    ];
  }

  IsQuiet-create_files : (m : SegmentMetadata) → IsQuiet (create_files env m)
  unfolding create_files
  IsQuiet-create_files m = IsQuiet-bind _ _ (IsQuiet-on_storage _) λ _.
      IsQuiet-bind _ _ (IsQuiet-on_disk _)
        λ _. IsQuiet-bind _ _ (IsQuiet-on_disk _) λ _. IsQuiet-on_storage _

-- A segment that is created for any time, zone and interval below 584 years has metadata that keeps
-- the invariant, with no frame counted, whatever the file system answers.
pub create-IsSound :
    {S T : Type 0} (env : Externals S T) (stem : Text) (start_wall : ℤ) (start_monotonic : ℕ)
    (local_offset : ℤ) (tz : Option Text) (interval : ℕ) (disk : S)
    → interval < 2 ^ 64
    → let (r, st) = create env stem start_wall start_monotonic local_offset tz interval disk in
      IsSound st.metadata stem × (st.metadata.durable_frame_count ≡ 0)
unfolding create opened_state initial_metadata
create-IsSound env stem start_wall start_monotonic local_offset tz interval disk short =
    let first = initial_metadata stem start_wall local_offset tz in
    let m = lengthened first stem 0 interval in
    let names = lengthened-IsNamed first stem 0 interval short refl in
    let made = opened_state m start_monotonic interval disk in
    let quiet =
      (IsQuiet-bind _ _
          (IsQuiet-bind _ _
            (IsQuiet-bind _ _ (IsQuiet-on_disk env (env.ensure_private_directory []))
              λ _. IsQuiet-not_taken env m.incomplete_dir m.incomplete_dir)
            λ _. IsQuiet-not_taken env (m.incomplete_dir ++ codes ".meta") m.incomplete_dir)
          λ _. IsQuiet-create_files env m).at
        made in
    rw (record_length_lem first stem 0 interval refl, create)
      (rw quiet (
        record {
          version = refl;
          created = ground arith;
          counts = refl;
          has = refl;
          bounded = omega arith;
          entries = tt;
          distinct = tt;
          named = record { incomplete = names.incomplete; finalized = names.finalized };
        },
        refl,
      ))
