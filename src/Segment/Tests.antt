-- ===== src/Segment/Tests.antt =====
-- A segment over a storage that accepts every frame, and the theorems about appends on it.
use solstone_tmux.Base.{
  ◌⊎◌, ℕ, ◌+◌, ◌<◌, ◌^◌, length, ◌≡◌, refl, true, false, List, [], ◌∷◌, codes, none, some, ok, pos,
  arith, text_eq, contains, split, strip_suffix, is_ascii_lowercase, is_ascii_digit,
  is_ascii_alphanumeric, hex_encode, bytes, encode, byte_length, get, insert, decimal_3, decimal,
}
use solstone_tmux.Model.{CaptureResult, WindowInfo}
use solstone_tmux.Name.{derive_component}
use solstone_tmux.Storage.{SegmentMetadata, opened, DurableStorage, IsStorage}
use solstone_tmux.Segment.{SegmentClose, SegmentState, Externals, appended}
use solstone_tmux.Segment.Length.{record_length, finalized_name}
use solstone_tmux.Segment.Digest.{capture_digest}
use solstone_tmux.Segment.Append.{append_capture, offset_of, store_capture, append_activity}
use solstone_tmux.Segment.Sound.{IsSound}
use solstone_tmux.Segment.Steps.{◌>>=◌}
use solstone_tmux.Segment.Close.{
  on_storage, finish, has_content, remove_directory, remove_empty_entries, remove_confirmed_empty,
  finalize, create,
}
use solstone_tmux.Segment.Close.Ends.{IsRemembered, IsClosing, finalize-IsClosing}
use solstone_tmux.Segment.Close.Created.{create-IsSound}
use solstone_tmux.Segment.Keeps.{append_capture-IsSound, append_activity-IsSound}

abbrev storing : DurableStorage (Unit {0})
storing = record {
  append_frame = λ frame s. (ok frame.proposed_metadata, s);
  write_metadata = λ m s. (ok tt, s);
  sync_and_close = λ s. (ok tt, s);
}

storing-IsStorage : IsStorage storing
storing-IsStorage = record { accepts = λ frame s m e. cc }

-- Timestamps are numbers, a frame is one byte and the line's end, and every screen has one digest.
abbrev pub here : Externals (Unit {0}) ℕ
here = record {
  durable = storing;
  ensure_private_directory = λ name s. (ok tt, s);
  entry_exists = λ name s. false;
  rename_incomplete = λ from to s. (ok tt, s);
  sync_stream_dir = λ s. (ok tt, s);
  write_capture_time = λ name t s. (ok tt, s);
  remove_metadata = λ s. (ok tt, s);
  read_incomplete = λ s. (ok [], s);
  remove_entry = λ name s. (ok tt, s);
  remove_incomplete = λ s. (ok tt, s);
  serialize_frame = λ capture id t. some (id ∷ 10 ∷ []);
  hash = λ s. 0;
}

abbrev pub fresh_metadata : SegmentMetadata
fresh_metadata = record {
  schema_version = 1;
  lifecycle = opened;
  incomplete_dir = codes "120000.incomplete";
  finalized_dir = codes "120000_001";
  start_wall_unix_nanos = pos 0;
  local_offset_seconds = pos 0;
  tz = none;
  elapsed_nanos = 1_000_000_000;
  last_durable_frame_id = 0;
  durable_frame_count = 0;
  has_durable_frames = false;
  activity_durable_offset = 0;
  sessions = [];
}

abbrev pub started : SegmentState (Unit {0})
started = record {
  metadata = fresh_metadata;
  disk = tt;
  digests = [];
  start_monotonic = 0;
  segment_interval = 300_000_000_000;
  is_poisoned = false;
  close_result = none;
}

abbrev window : WindowInfo
window = record { id = codes "@1"; index = 0; name = codes "sh"; active = true }

abbrev pub screen : CaptureResult
screen = record {
  session = codes "Main";
  window = window;
  windows = window ∷ [];
  panes = [];
  output_only = false;
}

first_frame : (append_capture here screen 7 2_500_000_000 started).0 ≡ ok (appended 1)
unfolding append_capture store_capture record_length capture_digest derive_component text_eq
    contains split strip_suffix is_ascii_lowercase is_ascii_digit is_ascii_alphanumeric hex_encode
    bytes encode byte_length get insert decimal_3
first_frame = refl

pub fresh-IsSound : IsSound fresh_metadata (codes "120000")
unfolding finalized_name decimal_3 decimal
fresh-IsSound = record {
  version = refl;
  created = λ e. cc;
  counts = refl;
  has = refl;
  bounded = omega arith;
  entries = tt;
  distinct = tt;
  named = record { incomplete = refl; finalized = refl };
}

serialized :
    (id : ℕ) (bytes : List ℕ)
    → here.serialize_frame screen id 7 ≡ some bytes
    → (0 < length bytes)
      × (offset_of (get screen.session started.metadata.sessions) + length bytes < 2 ^ 64)
unfolding get
serialized id bytes e = ground arith

append_capture-IsSound_example :
    IsSound (append_capture here screen 7 2_500_000_000 started).1.metadata (codes "120000")
append_capture-IsSound_example =
    append_capture-IsSound here storing-IsStorage screen 7 2_500_000_000 started (codes "120000")
      fresh-IsSound (omega arith) (omega arith) serialized

append_activity-IsSound_example :
    IsSound (append_activity here (123 ∷ 10 ∷ []) 2_500_000_000 started).1.metadata (codes "120000")
append_activity-IsSound_example =
    append_activity-IsSound here storing-IsStorage (123 ∷ 10 ∷ []) 2_500_000_000 started
      (codes "120000") fresh-IsSound (omega arith)

finalize-started : (finalize here 5_000_000_000 started).0 ≡ ok SegmentClose.removed_empty
unfolding finalize remove_confirmed_empty has_content remove_directory remove_empty_entries
    on_storage finish ◌>>=◌
finalize-started = refl

finalize-IsClosing_example :
    ((IsRemembered SegmentClose.removed_empty started
        × ((finalize here 5_000_000_000 started).1 ≡ started))
      ⊎ IsClosing here started 5_000_000_000 SegmentClose.removed_empty
          (finalize here 5_000_000_000 started).1.disk)
    × (finalize here 6_000_000_000 (finalize here 5_000_000_000 started).1
        ≡ (ok SegmentClose.removed_empty, (finalize here 5_000_000_000 started).1))
finalize-IsClosing_example =
    finalize-IsClosing here 5_000_000_000 6_000_000_000 started SegmentClose.removed_empty
      finalize-started

create-IsSound_example :
    let (r, st) = create here (codes "120000") (pos 0) 0 (pos 0) none 300_000_000_000 tt in
    IsSound st.metadata (codes "120000") × (st.metadata.durable_frame_count ≡ 0)
create-IsSound_example =
    create-IsSound here (codes "120000") (pos 0) 0 (pos 0) none 300_000_000_000 tt (omega arith)
