-- ===== src/Storage.antt =====
-- native/solstone-tmux/src/storage.rs: the metadata of a segment and what a segment asks of the
-- storage under it.
pub mod Disk
pub mod Triple
pub mod File
mod Tests
use solstone_tmux.Base.{ℕ, ◌≡◌, Bool, false, List, Option, Text, ℤ, Map, Result, ok}

pub data MetadataLifecycle : Type 0 where
  creating opened finalizing : MetadataLifecycle

pub record SessionMetadata : Type 0 where
  pub session : Text
  pub filename : Text
  pub last_frame_id : ℕ
  pub durable_offset : ℕ

pub record SegmentMetadata : Type 0 where
  pub schema_version : ℕ
  pub lifecycle : MetadataLifecycle
  pub incomplete_dir : Text
  pub finalized_dir : Text
  pub start_wall_unix_nanos : ℤ
  pub local_offset_seconds : ℤ
  pub tz : Option Text
  pub elapsed_nanos : ℕ
  pub last_durable_frame_id : ℕ
  pub durable_frame_count : ℕ
  pub has_durable_frames : Bool
  pub activity_durable_offset : ℕ
  pub sessions : Map SessionMetadata

abbrev pub schema_version : ℕ
schema_version = 1

pub record CaptureTime : Type 0 where
  pub tz : Option Text
  pub utc_offset_seconds : ℤ

pub record AppendFrame : Type 0 where
  pub filename : Text
  pub previous_offset : ℕ
  pub bytes : List ℕ
  pub proposed_metadata : SegmentMetadata

-- An I/O error is known by the stage that failed; paths and causes only go into messages.
pub data StorageError : Type 0 where
  serialize invalid_target : StorageError
  offset_mismatch : ℕ → ℕ → StorageError
  io : Text → StorageError
  recoverable : StorageError → StorageError
  poisoned : StorageError → StorageError → StorageError
  rollback_json rollback_metadata : StorageError → StorageError
  rollback_both : StorageError → StorageError → StorageError

-- `StorageError::is_poisoned`
unfoldable pub is_poisoned : StorageError → Bool
is_poisoned (poisoned operation rollback) = Bool.true
is_poisoned e = false

-- `trait DurableStorage`, with the state `S` that its `&mut self` stands for. `append_frame`
-- returns the metadata that `DurableAppend` carries.
pub record DurableStorage (S : Type 0) : Type 0 where
  pub append_frame : AppendFrame → S → Result StorageError SegmentMetadata × S
  pub write_metadata : SegmentMetadata → S → Result StorageError (Unit {0}) × S
  pub sync_and_close : S → Result StorageError (Unit {0}) × S

-- What a segment relies on: a storage that accepts a frame hands back the metadata that came with
-- it.
pub record IsStorage {S : Type 0} (durable : DurableStorage S) : Type 0 where
  pub accepts :
      (frame : AppendFrame) (s : S) (m : SegmentMetadata)
      → (durable.append_frame frame s).0 ≡ ok m
      → m ≡ frame.proposed_metadata
