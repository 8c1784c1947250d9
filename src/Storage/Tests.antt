-- ===== src/Storage/Tests.antt =====
-- A disk, and runs of `FileStorage` on it.
use solstone_tmux.Base.{
  ℕ, ◌≡◌, refl, List, [], ◌∷◌, Text, codes, Option, none, some, true, pos, ok, err, length,
}
use solstone_tmux.Storage.{SegmentMetadata, opened, AppendFrame, schema_version}
use solstone_tmux.Storage.Disk.{Disk, stored, succeeds, breaks, Outcome}
use solstone_tmux.Storage.Triple.{Post}
use solstone_tmux.Storage.File.{append_frame, atomic_write_metadata}
use solstone_tmux.Storage.File.Atomic.{IsOldOrNew, atomic_write_metadata-IsOldOrNew}
use solstone_tmux.Storage.File.Append.{IsAppended, IsLeft, append_frame-IsAtomic}

abbrev some_metadata : SegmentMetadata
some_metadata = record {
  schema_version = schema_version;
  lifecycle = opened;
  incomplete_dir = codes "120000_5.incomplete";
  finalized_dir = codes "120000_5";
  start_wall_unix_nanos = pos 0;
  local_offset_seconds = pos 0;
  tz = none;
  elapsed_nanos = 0;
  last_durable_frame_id = 2;
  durable_frame_count = 2;
  has_durable_frames = true;
  activity_durable_offset = 0;
  sessions = [];
}

-- A printer that keeps the count alone.
abbrev encode : SegmentMetadata → Option (List ℕ)
encode m = some (m.durable_frame_count ∷ [])

abbrev name : Text
name = codes "tmux_main_screen.jsonl"

abbrev frame : AppendFrame
frame = record {
  filename = name;
  previous_offset = 2;
  bytes = 7 ∷ 8 ∷ 9 ∷ [];
  proposed_metadata = some_metadata;
}

abbrev disk : List Outcome → Disk
disk outcomes = record {
  view = record {
    files = (name, 1 ∷ 2 ∷ []) ∷ (codes "other", 5 ∷ []) ∷ [];
    metadata = some (1 ∷ []);
    handles = [];
    temporary = none;
  };
  stages = [];
  atomic_faults = [];
  outcomes = outcomes;
  is_regular = λ n. true;
  target_is_regular = true;
}

-- The seventh call is the write, which fails after two bytes; the rollback takes them away.
abbrev six_then_break : List Outcome
six_then_break = succeeds ∷ succeeds ∷ succeeds ∷ succeeds ∷ succeeds ∷ succeeds ∷ breaks 2 ∷ []

append_frame-IsAtomic_example :
    let (r, d') = append_frame encode frame (disk six_then_break) in
    Post
      (IsAppended encode frame (disk six_then_break).view)
      (IsLeft name (disk six_then_break).view)
      r
      d'.view
unfolding stored solstone_tmux.Base.get solstone_tmux.Base.text_eq
append_frame-IsAtomic_example = append_frame-IsAtomic encode frame (disk six_then_break) refl

atomic_write_metadata-IsOldOrNew_example :
    let (r, d') =
      atomic_write_metadata encode some_metadata (disk (succeeds ∷ succeeds ∷ breaks 0 ∷ [])) in
    Post
      (λ _ v. (v.files ≡ (disk []).view.files) × (v.metadata ≡ encode some_metadata))
      (λ _. IsOldOrNew (disk []).view (encode some_metadata))
      r
      d'.view
atomic_write_metadata-IsOldOrNew_example =
    atomic_write_metadata-IsOldOrNew encode some_metadata
      (disk (succeeds ∷ succeeds ∷ breaks 0 ∷ []))
