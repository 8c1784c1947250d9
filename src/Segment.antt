-- ===== src/Segment.antt =====
-- native/solstone-tmux/src/segment.rs: one open segment, from its first frame to its close. Times
-- are nanoseconds; the file system, the storage, the hash and the JSON of a frame are `Externals`.
pub mod Length
pub mod Digest
pub mod Monad
pub mod Append
pub mod Sound
pub mod Keeps
pub mod Steps
pub mod Close
pub mod Tests
use solstone_tmux.Base.{ℕ, Bool, List, Option, Text, Map, Result}
use solstone_tmux.Model.{CaptureResult}
use solstone_tmux.Name.{NameError}
use solstone_tmux.Storage.{SegmentMetadata, CaptureTime, StorageError, DurableStorage}

pub data SegmentClose : Type 0 where
  finalized : Text → SegmentClose
  removed_empty : SegmentClose

pub data AppendOutcome : Type 0 where
  appended : ℕ → AppendOutcome
  unchanged : AppendOutcome

pub data SegmentError : Type 0 where
  path : SegmentError
  name : NameError → SegmentError
  serialize : SegmentError
  storage : StorageError → SegmentError
  collision : Text → SegmentError
  io : Text → SegmentError
  poisoned closed not_empty frame_id_overflow activity_offset_overflow : SegmentError

-- A call returns an error, or panics at an `expect`.
pub data Failure : Type 0 where
  panic : Failure
  fails : SegmentError → Failure

-- An entry of the incomplete directory: its name, whether it is a plain file, and its length.
pub record Entry : Type 0 where
  pub name : Text
  pub is_plain_file : Bool
  pub len : ℕ

-- `S` is the state of the file system and the storage, `T` the type of timestamps. An error of a
-- file operation carries its `operation` text.
pub record Externals (S T : Type 0) : Type 0 where
  pub durable : DurableStorage S
  pub ensure_private_directory : Text → S → Result SegmentError (Unit {0}) × S
  pub entry_exists : Text → S → Bool
  pub rename_incomplete : Text → Text → S → Result SegmentError (Unit {0}) × S
  pub sync_stream_dir : S → Result SegmentError (Unit {0}) × S
  pub write_capture_time : Text → CaptureTime → S → Result SegmentError (Unit {0}) × S
  pub remove_metadata : S → Result SegmentError (Unit {0}) × S
  pub read_incomplete : S → Result SegmentError (List (Result SegmentError Entry)) × S
  pub remove_entry : Text → S → Result SegmentError (Unit {0}) × S
  pub remove_incomplete : S → Result SegmentError (Unit {0}) × S
  pub serialize_frame : CaptureResult → ℕ → T → Option (List ℕ)
  pub hash : Text → ℕ

pub record SegmentState (S : Type 0) : Type 0 where
  pub metadata : SegmentMetadata
  pub disk : S
  pub digests : Map ℕ
  pub start_monotonic : ℕ
  pub segment_interval : ℕ
  pub is_poisoned : Bool
  pub close_result : Option SegmentClose

abbrev pub is_recoverable : StorageError → Bool
is_recoverable (StorageError.recoverable e) = Bool.true
is_recoverable e = Bool.false

-- `SegmentError::is_recoverable_append`
unfoldable pub is_recoverable_append : SegmentError → Bool
is_recoverable_append (storage e) = is_recoverable e
is_recoverable_append e = Bool.false
