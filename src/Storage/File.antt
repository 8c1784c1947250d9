-- ===== src/Storage/File.antt =====
-- native/solstone-tmux/src/storage.rs: `FileStorage`, over the file system of Storage/Disk.antt.
-- `encode` is the JSON printer of serde, which may refuse.
pub mod Blocks
pub mod Atomic
pub mod Append
pub mod Instance
use solstone_tmux.Base.{
  ℕ, ◌+◌, ◌-◌, ◌/◌, Bool, true, false, not, List, [], ◌∷◌, Text, codes, Option, none, some, Result,
  ok, err, get, insert, length, take, ◌==◌, if◌then◌else◌,
}
use solstone_tmux.Storage.{
  StorageError, SegmentMetadata, AppendFrame, DurableStorage, serialize, invalid_target,
  offset_mismatch, io, recoverable, poisoned, rollback_json, rollback_metadata, rollback_both,
}
use solstone_tmux.Storage.Disk.{
  Disk, View, Io, AtomicWriteFault, StorageStage, append, flush, json_fsync, metadata, rollback,
  fail_before_rename, fail_after_rename, silent, changing, modify, asks, attempt, pure, raise,
  ◌>>=◌, ◌>>◌, take_fault, take_atomic_fault, file_is_regular, target_is_valid, stored, is_open,
  write_at, set_len,
}
use Prim.Native.String.{String}

unfoldable pub with_content : Text → (List ℕ → List ℕ) → View → View
with_content name change v = record v { files = insert name (change (stored v name)) v.files }

-- `FileStorage::handle`, without the handle it returns
unfoldable pub handle : Text → Io (Unit {0})
handle name = do
  present ← asks (λ v. is_open v name)
  if present then pure tt else (do
    changing "open JSONL" (with_content name (λ old. old)) (λ n v. v)
    silent "set JSONL permissions"
    silent "inspect JSONL"
    regular ← file_is_regular name
    if regular then modify (λ v. record v { handles = name ∷ v.handles }) else raise invalid_target)

unfoldable pub roll_back : Text → ℕ → Io (Unit {0})
roll_back name offset = do
  injected ← take_fault rollback
  if injected then raise (io (codes "rollback injection")) else (do
    present ← asks (λ v. is_open v name)
    if not present then pure tt else (do
      changing "truncate rollback" (with_content name (set_len offset)) (λ n v. v)
      silent "seek rollback"
      silent "flush rollback"
      silent "fsync rollback"))

unfoldable pub write_all : String → Text → ℕ → List ℕ → Io (Unit {0})
write_all stage name offset bytes =
    changing stage (with_content name (write_at offset bytes))
      (λ n. with_content name (write_at offset (take n bytes)))

-- The writing half of `append_inner`, behind the test of the offset.
unfoldable pub write_frame : AppendFrame → Bool → Bool → Bool → Io (Unit {0})
write_frame frame append_fault flush_fault fsync_fault =
    if append_fault
    then (do
      write_all "partial append" frame.filename frame.previous_offset
          (take ((length frame.bytes + 1) / 2) frame.bytes)
      raise (io (codes "append injection")))
    else (do
      write_all "append" frame.filename frame.previous_offset frame.bytes
      if flush_fault then raise (io (codes "flush injection")) else (do
        silent "flush"
        if fsync_fault
            then raise (io (codes "JSONL fsync injection"))
            else (do silent "fsync JSONL"; silent "fsync directory")))

unfoldable pub append_inner : AppendFrame → Io (Unit {0})
append_inner frame = do
  append_fault ← take_fault append
  flush_fault ← take_fault flush
  fsync_fault ← take_fault json_fsync
  handle frame.filename
  silent "inspect append offset"
  actual ← asks (λ v. length (stored v frame.filename))
  if not (actual == frame.previous_offset)
      then raise (offset_mismatch frame.previous_offset actual)
      else (do silent "seek append"; write_frame frame append_fault flush_fault fsync_fault)

unfoldable pub is_before_rename : Option AtomicWriteFault → Bool
is_before_rename (some fail_before_rename) = true
is_before_rename _ = false

unfoldable pub is_after_rename : Option AtomicWriteFault → Bool
is_after_rename (some fail_after_rename) = true
is_after_rename _ = false

-- The block of `atomic_write_bytes` whose failure removes the temporary file.
unfoldable pub write_temporary : List ℕ → Io (Unit {0})
write_temporary bytes = do
  fault ← take_atomic_fault
  changing "create metadata temporary" (λ v. record v { temporary = some [] }) (λ n v. v)
  silent "set metadata permissions"
  changing "write metadata" (λ v. record v { temporary = some bytes })
      (λ n v. record v { temporary = some (take n bytes) })
  silent "flush metadata"
  silent "fsync metadata"
  if is_before_rename fault
      then raise (io (codes "injected atomic write fault before rename"))
      else (do
        changing "rename metadata" (λ v. record v { metadata = v.temporary; temporary = none })
            (λ n v. v)
        if is_after_rename fault
            then raise (io (codes "injected atomic write fault after rename"))
            else silent "fsync directory")

-- `let _ = fs::remove_file(&temporary)`
unfoldable pub clean_up : Result StorageError (Unit {0}) → Io (Unit {0})
clean_up (ok done) = pure done
clean_up (err e) = do
  attempt (changing "remove temporary" (λ v. record v { temporary = none }) (λ n v. v))
  raise e

unfoldable pub atomic_write_bytes : List ℕ → Io (Unit {0})
atomic_write_bytes bytes = do
  silent "inspect atomic write target"
  valid ← target_is_valid
  if not valid
      then raise invalid_target
      else (do result ← attempt (write_temporary bytes); clean_up result)

-- `fs::read(&self.metadata_path)`
unfoldable pub read_metadata : Io (List ℕ)
read_metadata = do
  silent "read previous metadata"
  found ← asks (λ v. v.metadata)
  elim found [ none ↦ raise (io (codes "read previous metadata")) | some bytes ↦ pure bytes ]

-- How a failed append ends, by what the rollback of the session's file did.
unfoldable pub after_append : StorageError → Result StorageError (Unit {0}) → Io SegmentMetadata
after_append e (ok done) = raise (recoverable e)
after_append e (err r) = raise (poisoned e r)

-- How a failed write of the metadata ends, by what the two rollbacks did.
unfoldable pub after_metadata :
    StorageError
    → Result StorageError (Unit {0})
    → Result StorageError (Unit {0})
    → Io SegmentMetadata
after_metadata e (ok done) (ok done') = raise (recoverable e)
after_metadata e (err j) (ok done) = raise (poisoned e (rollback_json j))
after_metadata e (ok done) (err m) = raise (poisoned e (rollback_metadata m))
after_metadata e (err j) (err m) = raise (poisoned e (rollback_both j m))

-- The handles that `sync_and_close` has taken, flushed one by one.
unfoldable pub flush_all : List Text → Io (Unit {0})
flush_all [] = pure tt
flush_all (name ∷ rest) = do silent "final flush"; silent "final fsync"; flush_all rest

unfoldable pub sync_and_close : Io (Unit {0})
sync_and_close = do
  handles ← asks (λ v. v.handles)
  modify (λ v. record v { handles = [] })
  flush_all handles

module _ (encode : SegmentMetadata → Option (List ℕ)) where
  unfoldable pub atomic_write_metadata : SegmentMetadata → Io (Unit {0})
  atomic_write_metadata proposed = elim (encode proposed) [
    | none ↦ raise serialize
    | some bytes ↦ atomic_write_bytes bytes
  ]

  unfoldable pub save_metadata : SegmentMetadata → Io (Unit {0})
  save_metadata proposed = do
    injected ← take_fault metadata
    if injected then raise (io (codes "metadata injection")) else atomic_write_metadata proposed

  -- `append_frame` from the write of the metadata on.
  unfoldable pub finish_append :
      AppendFrame → List ℕ → Result StorageError (Unit {0}) → Io SegmentMetadata
  finish_append frame previous (err e) = do
    undone ← attempt (roll_back frame.filename frame.previous_offset)
    after_append e undone
  finish_append frame previous (ok done) = do
    saved ← attempt (save_metadata frame.proposed_metadata)
    elim saved [
      | ok done' ↦ pure frame.proposed_metadata
      | err e ↦ (do
        json ← attempt (roll_back frame.filename frame.previous_offset)
        restored ← attempt (atomic_write_bytes previous)
        after_metadata e json restored)
    ]

  unfoldable pub append_frame : AppendFrame → Io SegmentMetadata
  append_frame frame = do
    previous ← read_metadata
    appended ← attempt (append_inner frame)
    finish_append frame previous appended

  unfoldable pub file_storage : DurableStorage Disk
  file_storage = record {
    append_frame = append_frame;
    write_metadata = atomic_write_metadata;
    sync_and_close = sync_and_close;
  }
