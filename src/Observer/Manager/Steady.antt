-- ===== src/Observer/Manager/Steady.antt =====
-- A segment that is created begins then, and is open.
use solstone_tmux.Base.{
  ℕ, refl, inl, inr, [], ◌++◌, Text, Option, none, ℤ, Result, ok, err, codes, Bool-cases,
  Option-cases, Result-cases,
}
use solstone_tmux.Storage.{SegmentMetadata, StorageError}
use solstone_tmux.Segment.{SegmentState, SegmentClose, SegmentError, Externals, Failure}
use solstone_tmux.Segment.Length.{record_length}
use solstone_tmux.Segment.Monad.{Method, on_disk, continue}
use solstone_tmux.Segment.Steps.{◌>>=◌}
use solstone_tmux.Segment.Close.{
  on_storage, not_taken, initial_metadata, create_files, opened_state, create,
}
use solstone_tmux.Observer.Manager.Kept.{Began}

-- The method leaves the segment's beginning and end as they were.
record Steady {S A : Type 0} (m : Method S A) : Type 0 where
  at :
      (start : ℕ) (close : Option SegmentClose) (st : SegmentState S)
      → Began start close st
      → Began start close (m st).1

module _ {S A B : Type 0} where
  continue-Began :
      (r : Result Failure A) (k : A → Method S B) (start : ℕ) (close : Option SegmentClose)
      (st : SegmentState S)
      → ((a : A) → Steady (k a))
      → Began start close st
      → Began start close (continue r k st).1
  continue-Began (ok a) k start close st q b = (q a).at start close st b
  continue-Began (err e) k start close st q b = b

  Steady-bind :
      (m : Method S A) (k : A → Method S B) → Steady m → ((a : A) → Steady (k a)) → Steady (m >>= k)
  unfolding ◌>>=◌
  Steady-bind m k h q = record {
    at = λ start close st b.
        continue-Began (m st).0 k start close (m st).1 q (h.at start close st b);
  }

module _ {S T : Type 0} (env : Externals S T) where
  Steady-on_disk : {A : Type 0} (call : S → Result SegmentError A × S) → Steady (on_disk call)
  Steady-on_disk call = record {
    at = λ start close st b. elim (Result-cases (call st.disk).0) [
      | inl (a, e) ↦ rw e (record { start_is = b.start_is; close_is = b.close_is })
      | inr (x, e) ↦ rw e (record { start_is = b.start_is; close_is = b.close_is })
    ];
  }

  Steady-on_storage : (call : S → Result StorageError (Unit {0}) × S) → Steady (on_storage env call)
  unfolding on_storage
  Steady-on_storage call = record {
    at = λ start close st b. elim (Result-cases (call st.disk).0) [
      | inl (a, e) ↦ rw e (record { start_is = b.start_is; close_is = b.close_is })
      | inr (x, e) ↦ rw e (record { start_is = b.start_is; close_is = b.close_is })
    ];
  }

  Steady-not_taken : (name reported : Text) → Steady (not_taken env name reported)
  unfolding not_taken
  Steady-not_taken name reported = record {
    at = λ start close st b. elim (Bool-cases (env.entry_exists name st.disk)) [
      | inl e ↦ rw e b
      | inr e ↦ rw e b
    ];
  }

  Steady-create_files : (m : SegmentMetadata) → Steady (create_files env m)
  unfolding create_files
  Steady-create_files m = Steady-bind _ _ (Steady-on_storage _) λ _.
      Steady-bind _ _ (Steady-on_disk _)
        λ _. Steady-bind _ _ (Steady-on_disk _) λ _. Steady-on_storage _

  -- A created segment begins now and is open.
  pub create-Began :
      (stem : Text) (start_wall : ℤ) (start : ℕ) (local_offset : ℤ) (tz : Option Text)
      (interval : ℕ) (disk : S)
      → Began start none (create env stem start_wall start local_offset tz interval disk).1
  unfolding create opened_state
  create-Began stem start_wall start local_offset tz interval disk =
      let first = initial_metadata stem start_wall local_offset tz in
      elim (Option-cases (record_length first 0 interval)) [
        | inl e ↦ rw (e, create) (record { start_is = refl; close_is = refl })
        | inr (m, e) ↦
            let steady =
              Steady-bind _ _
                (Steady-bind _ _
                  (Steady-bind _ _ (Steady-on_disk (env.ensure_private_directory []))
                    λ _. Steady-not_taken m.incomplete_dir m.incomplete_dir)
                  λ _. Steady-not_taken (m.incomplete_dir ++ codes ".meta") m.incomplete_dir)
                λ _. Steady-create_files m in
            rw (e, create)
              (steady.at start none (opened_state m start interval disk)
                (record { start_is = refl; close_is = refl }))
      ]
