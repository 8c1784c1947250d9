-- ===== src/Recovery/Consistent.antt =====
-- `metadata_is_consistent` of recovery.rs. The ranges of the `time` crate are parameters.
use solstone_tmux.Base.{
  ℕ, Bool, true, false, not, ◌&&◌, ◌||◌, List, [], ◌∷◌, ◌++◌, Text, codes, ok, err, Map, ℤ, text_eq,
  ltb, leb, ◌==◌, any, if◌then◌else◌,
}
use solstone_tmux.Name.{derive_component, session_filename}
use solstone_tmux.Storage.{
  SegmentMetadata, SessionMetadata, MetadataLifecycle, creating, opened, finalizing, schema_version,
}
use solstone_tmux.Segment.Length.{finalized_name}
use solstone_tmux.Recovery.Names.{valid_time_name, is_direct_name}

-- `UtcOffset::from_whole_seconds(_).is_ok()` and
-- `OffsetDateTime::from_unix_timestamp_nanos(_).is_ok()`
pub record TimeRanges : Type 0 where
  pub valid_offset : ℤ → Bool
  pub valid_timestamp : ℤ → Bool

unfoldable pub is_creating : MetadataLifecycle → Bool
is_creating creating = true
is_creating opened = false
is_creating finalizing = false

unfoldable pub same_flag : Bool → Bool → Bool
same_flag true b = b
same_flag false b = not b

unfoldable pub no_sessions : Map SessionMetadata → Bool
no_sessions [] = true
no_sessions (entry ∷ rest) = false

-- The test of `metadata_is_consistent` before the sessions.
unfoldable pub header_is_consistent : TimeRanges → SegmentMetadata → Text → Bool
unfolding is_creating same_flag no_sessions
header_is_consistent ranges m stem = not (
    not (m.schema_version == schema_version)
    || (not (valid_time_name stem)
        || (not (text_eq m.incomplete_dir (stem ++ codes ".incomplete"))
            || (not (is_direct_name m.incomplete_dir)
                || (not (is_direct_name m.finalized_dir)
                    || (not (text_eq m.finalized_dir (finalized_name stem m.elapsed_nanos))
                        || (not (ranges.valid_offset m.local_offset_seconds)
                            || (not (ranges.valid_timestamp m.start_wall_unix_nanos)
                                || (not
                                      (same_flag m.has_durable_frames (ltb 0 m.durable_frame_count))
                                    || (not (m.durable_frame_count == m.last_durable_frame_id)
                                        || (is_creating m.lifecycle
                                            && (not (m.durable_frame_count == 0)
                                                || (not (m.activity_durable_offset == 0)
                                                    || not (no_sessions m.sessions))))))))))))))

-- `derive_component(identity).map(|name| name.session_filename() == filename).unwrap_or(false)`
unfoldable pub names_file : Text → Text → Bool
names_file identity filename = elim (derive_component identity) [
  | ok name ↦ text_eq (session_filename name) filename
  | err e ↦ false
]

unfoldable pub entry_is_consistent : ℕ → Text × SessionMetadata → Bool
unfolding names_file same_flag
entry_is_consistent last (identity, session) =
    text_eq identity session.session
    && (names_file identity session.filename
        && (same_flag (ltb 0 session.durable_offset) (ltb 0 session.last_frame_id)
            && leb session.last_frame_id last))

-- The `all` over the sessions, with the file names seen so far: `insert` says whether the name is
-- new.
unfoldable pub sessions_are_consistent : ℕ → List Text → Map SessionMetadata → Bool
sessions_are_consistent last filenames [] = true
sessions_are_consistent last filenames (entry ∷ rest) =
    entry_is_consistent last entry
    && (not (any (text_eq (entry.1.filename)) filenames)
        && sessions_are_consistent last (entry.1.filename ∷ filenames) rest)

unfoldable pub metadata_is_consistent : TimeRanges → SegmentMetadata → Text → Bool
metadata_is_consistent ranges m stem =
    if header_is_consistent ranges m stem
    then sessions_are_consistent m.last_durable_frame_id [] m.sessions
    else false
