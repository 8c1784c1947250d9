-- ===== src/Segment/Close.antt =====
-- `SegmentState::create`, `finalize` and `remove_confirmed_empty` of segment.rs.
pub mod Effects
pub mod Ends
pub mod Created
use solstone_tmux.Base.{
  ℕ, ◌-◌, ℤ, Bool, true, false, not, ◌&&◌, ◌||◌, List, [], ◌∷◌, ◌++◌, Text, codes, Option, none,
  some, Map, Result, ok, err, any, is_some, ◌==◌, if◌then◌else◌,
}
use solstone_tmux.Storage.{
  SegmentMetadata, SessionMetadata, CaptureTime, MetadataLifecycle, creating, opened, finalizing,
  schema_version, StorageError,
}
use solstone_tmux.Segment.{SegmentState, SegmentError, SegmentClose, Externals, Failure, Entry}
use solstone_tmux.Segment.Length.{record_length}
use solstone_tmux.Segment.Monad.{Method, pure, fail, map_err, on_disk, guard_not}
use solstone_tmux.Segment.Steps.{◌>>=◌, ◌>>◌}

-- The refusal of `remove_confirmed_empty`
unfoldable pub has_content : SegmentMetadata → Bool
has_content m =
    m.has_durable_frames
    || not (m.activity_durable_offset == 0)
    || not (m.durable_frame_count == 0)
    || any (λ (key, session). not (session.durable_offset == 0)) m.sessions

-- The metadata that `create_with_faults` starts from, and the state that it makes.
unfoldable pub initial_metadata : Text → ℤ → ℤ → Option Text → SegmentMetadata
initial_metadata stem start_wall local_offset tz = record {
  schema_version = schema_version;
  lifecycle = creating;
  incomplete_dir = stem ++ codes ".incomplete";
  finalized_dir = [];
  start_wall_unix_nanos = start_wall;
  local_offset_seconds = local_offset;
  tz = elim tz [ none ↦ none | some [] ↦ none | some (c ∷ name) ↦ some (c ∷ name) ];
  elapsed_nanos = 0;
  last_durable_frame_id = 0;
  durable_frame_count = 0;
  has_durable_frames = false;
  activity_durable_offset = 0;
  sessions = [];
}

unfoldable pub opened_state : {S : Type 0} → SegmentMetadata → ℕ → ℕ → S → SegmentState S
opened_state m start_monotonic segment_interval disk = record {
  metadata = record m { lifecycle = opened };
  disk = disk;
  digests = [];
  start_monotonic = start_monotonic;
  segment_interval = segment_interval;
  is_poisoned = false;
  close_result = none;
}

module _ {S T : Type 0} (env : Externals S T) where
  -- A call on the storage: its state goes into the segment's.
  unfoldable pub on_storage : (S → Result StorageError (Unit {0}) × S) → Method S (Unit {0})
  on_storage call st =
      let (r, disk') = call st.disk in map_err SegmentError.storage r (record st { disk = disk' })

  -- `if fs::symlink_metadata(&path).is_ok() { return Err(Collision(reported)); }`
  unfoldable pub not_taken : Text → Text → Method S (Unit {0})
  not_taken name reported st =
      guard_not (env.entry_exists name st.disk) (SegmentError.collision reported) st

  unfoldable pub finish : SegmentClose → Method S SegmentClose
  finish close st = (ok close, record st { close_result = some close })

  -- One entry of the directory of a segment that is empty.
  unfoldable pub remove_empty_entry : Result SegmentError Entry → Method S (Unit {0})
  remove_empty_entry (err e) = fail e
  remove_empty_entry (ok entry) =
      if not entry.is_plain_file || not (entry.len == 0)
      then fail SegmentError.not_empty
      else on_disk (env.remove_entry entry.name)

  unfoldable pub remove_empty_entries : List (Result SegmentError Entry) → Method S (Unit {0})
  remove_empty_entries [] = pure tt
  remove_empty_entries (entry ∷ rest) = do remove_empty_entry entry; remove_empty_entries rest

  -- `remove_confirmed_empty` past its refusal.
  unfoldable pub remove_directory : Method S SegmentClose
  remove_directory = do
    on_storage env.durable.sync_and_close
    entries ← on_disk env.read_incomplete
    remove_empty_entries entries
    on_disk env.remove_incomplete
    on_disk env.sync_stream_dir
    on_disk env.remove_metadata
    on_disk env.sync_stream_dir
    finish SegmentClose.removed_empty

  unfoldable pub remove_confirmed_empty : Method S SegmentClose
  remove_confirmed_empty st = elim st.close_result [
    | some close ↦ (ok close, st)
    | none ↦
        if has_content st.metadata
        then (err (Failure.fails SegmentError.not_empty), st)
        else remove_directory st
  ]

  -- `finalize` once the metadata has its length and says `finalizing`.
  unfoldable pub publish : SegmentMetadata → Method S SegmentClose
  publish m = do
    on_storage (env.durable.write_metadata m)
    on_storage env.durable.sync_and_close
    not_taken m.finalized_dir m.finalized_dir
    on_disk (env.rename_incomplete m.incomplete_dir m.finalized_dir)
    on_disk env.sync_stream_dir
    on_disk (
        env.write_capture_time m.finalized_dir
          (record { tz = m.tz; utc_offset_seconds = m.local_offset_seconds }))
    on_disk env.remove_metadata
    on_disk env.sync_stream_dir
    finish (SegmentClose.finalized m.finalized_dir)

  -- `finalize` of a segment with something in it.
  unfoldable pub close_full : ℕ → Method S SegmentClose
  close_full now_monotonic st =
      elim (record_length st.metadata (now_monotonic - st.start_monotonic) st.segment_interval) [
        | none ↦ (err Failure.panic, st)
        | some longer ↦
            let m = record longer { lifecycle = finalizing } in
            publish m (record st { metadata = m })
      ]

  unfoldable pub finalize : ℕ → Method S SegmentClose
  finalize now_monotonic st = elim st.close_result [
    | some close ↦ (ok close, st)
    | none ↦
        if st.is_poisoned
        then (err (Failure.fails SegmentError.poisoned), st)
        else if not st.metadata.has_durable_frames && (st.metadata.activity_durable_offset == 0)
        then remove_confirmed_empty st
        else close_full now_monotonic st
  ]

  -- The files of a new segment, around the metadata in its two lifecycles.
  unfoldable pub create_files : SegmentMetadata → Method S (Unit {0})
  create_files m = do
    on_storage (env.durable.write_metadata m)
    on_disk (env.ensure_private_directory m.incomplete_dir)
    on_disk env.sync_stream_dir
    on_storage (env.durable.write_metadata (record m { lifecycle = opened }))

  -- `create_with_faults`, in the state that it makes; its error leaves no segment. `[]` names the
  -- stream's own directory.
  unfoldable pub create :
      Text → ℤ → ℕ → ℤ → Option Text → ℕ → S → Result Failure (Unit {0}) × SegmentState S
  create stem start_wall start_monotonic local_offset tz segment_interval disk =
      let first = initial_metadata stem start_wall local_offset tz in
      elim (record_length first 0 segment_interval) [
        | none ↦ (err Failure.panic, opened_state first start_monotonic segment_interval disk)
        | some m ↦
            ((on_disk (env.ensure_private_directory [])
                >> not_taken m.incomplete_dir m.incomplete_dir
                >> not_taken (m.incomplete_dir ++ codes ".meta") m.incomplete_dir
                >> create_files m)
              (opened_state m start_monotonic segment_interval disk))
      ]
