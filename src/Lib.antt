-- ===== src/Lib.antt =====
-- solstone-tmux takes in what is on screen in tmux, writes it in five-minute segments to this
-- device and syncs the segments to a journal. This library models its Rust sources under
-- native/solstone-tmux/src, file by file:
--   Model      model.rs: clients, windows, panes and captures
--   Name       name.rs: the path component derived from an identity; the tests of file names,
--              those of sync.rs among them
--   Storage    storage.rs: segment metadata, the storage that a segment writes through, and
--              FileStorage over a file system whose calls may fail (Storage/Disk, Storage/File)
--   Segment    segment.rs: create, appends, lengths and digests of the open segment, and its close
--   Recovery   recovery.rs: which segments left by a crash are accepted, whether their files are
--              those of the metadata, the repairs that cut them back, the removal of empty
--              segments (Empty) and the quarantine of others
--   Health     health.rs: the state of synchronisation, and the snapshot of it that status reads
--   Journal    journal.rs: descriptors of an upload's answer, and whether they acknowledge it
--   Sync       sync.rs: the record of an acknowledged segment, written and read again, the names of
--              segments, and the schedule of retries
--   Observer   observer.rs: the stem of a new segment (Open), the rotation of segments and the
--              appends of a poll (Manager), what the status cell shows and for how long (Linger)
--   Tmux       tmux.rs: the rows that tmux prints, the sessions that are looked at, among them those
--              that a pattern selects, and a poll of all of them (with the types of command.rs)
-- A poll (Tmux, driven by Observer) asks tmux for clients, windows and panes through a runner. Its
-- captures are appended to the open segment (Segment) under names derived from their sessions (Name);
-- the storage keeps the segment's metadata in step (Storage); after a crash recovery reads that
-- metadata back and validates, repairs or quarantines the segment (Recovery). A closed segment is
-- uploaded; the journal's answer is assessed (Journal) and kept in a record, which later sweeps read
-- (Sync).
--
-- A `str` is the list of its code points, and its bytes are their UTF-8 encoding (Base/Utf8). Maps
-- with text keys are association lists. Numbers are natural numbers, with the overflow of `u64`
-- written out where the code has it. Durations are nanoseconds. A method of `&mut self` passes the
-- state on, after an error too. The file system, serde_json, the hasher and the `time` crate are
-- parameters (Externals, TimeRanges, JsonValue, Store, Runner, Decoding, Directory, frame_id), and
-- what is assumed of them is a hypothesis of the theorem.
-- A block of FileStorage takes the outcome of each system call from a list, so its theorems hold for
-- every place where one fails; a failed write has written some first part of its bytes.
-- The loop of open_segment has no bound in the code; the model's has rounds, and one more than there
-- are entries is enough (Observer/Open/Free).
-- The search of quarantine has rounds as well, of which the first free number needs one more than
-- it is (Recovery/Quarantine/Ends). The last fuel is that of decimal printing: `n + 1` rounds for the
-- number `n`, enough since each round divides by ten (Base/Decimal).
--
-- `usize` is taken to be 64 bits wide. In tmux.rs only the operations of observation are modelled, and
-- a row's sets of IDs and indexes are those of the rows before it.
--
-- Not modelled: the decision of recover_candidate over the parts of recovery, rendering of messages,
-- the services of the operating system, the network, pairing and TLS, and asynchronous scheduling.
pub mod Base
pub mod Model
pub mod Name
pub mod Storage
pub mod Segment
pub mod Observer
pub mod Recovery
pub mod Health
pub mod Journal
pub mod Sync
pub mod Tmux
