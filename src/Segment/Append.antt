-- ===== src/Segment/Append.antt =====
-- `append_capture`, `append_activity` and `rotation_due` of segment.rs.
use solstone_tmux.Base.{
  ℕ, ◌+◌, ◌-◌, ◌%◌, ◌^◌, Bool, true, List, ◌++◌, Text, codes, Option, none, some, ok, err, get,
  insert, length, ltb, leb, ◌==◌, is_some, if◌then◌else◌,
}
use solstone_tmux.Model.{CaptureResult}
use solstone_tmux.Name.{derive_component, session_filename}
use solstone_tmux.Storage.{SegmentMetadata, SessionMetadata, AppendFrame, is_poisoned}
use solstone_tmux.Segment.{
  SegmentState, SegmentError, AppendOutcome, appended, unchanged, Externals, Failure,
}
use solstone_tmux.Segment.Length.{record_length, segment_stem}
use solstone_tmux.Segment.Digest.{capture_digest}
use solstone_tmux.Segment.Monad.{
  Method, pure, expect, ok_or, map_err, gets, modify, guard_not, ◌>>=◌, ◌>>◌,
}

-- `checked_add` on `u64`
unfoldable pub checked_add : ℕ → ℕ → Option ℕ
checked_add a b = if ltb (a + b) (2 ^ 64) then some (a + b) else none

abbrev pub offset_of : Option SessionMetadata → ℕ
offset_of none = 0
offset_of (some session) = session.durable_offset

-- `self.digests.get(&capture.session) == Some(&digest)`
abbrev pub has_digest : Option ℕ → ℕ → Bool
has_digest none digest = Bool.false
has_digest (some d) digest = d == digest

-- The metadata with the frame counted and the session's new end.
unfoldable pub with_frame : SegmentMetadata → ℕ → Text → Text → ℕ → List ℕ → SegmentMetadata
with_frame metadata frame_id session filename previous_offset bytes = record metadata {
  last_durable_frame_id = frame_id;
  durable_frame_count = (metadata.durable_frame_count + 1) % 2 ^ 64;
  has_durable_frames = true;
  sessions =
      insert session
        (record {
          session = session;
          filename = filename;
          last_frame_id = frame_id;
          durable_offset = (previous_offset + length bytes) % 2 ^ 64;
        })
        metadata.sessions;
}

module _ {S T : Type 0} (env : Externals S T) where
  -- The frame goes to the storage; an error that poisons the storage poisons the segment.
  unfoldable pub commit : AppendFrame → Method S (Unit {0})
  unfolding is_poisoned
  commit frame st =
      let (result, disk') = env.durable.append_frame frame st.disk in
      elim result [
        | ok metadata ↦ (ok tt, record st { metadata = metadata; disk = disk' })
        | err error ↦ (
          err (Failure.fails (SegmentError.storage error)),
          record st {
            disk = disk';
            is_poisoned = if is_poisoned error then true else st.is_poisoned;
          },
        )
      ]

  -- The frame is committed, and its digest becomes the session's.
  unfoldable pub store_capture : AppendFrame → Text → ℕ → ℕ → Method S AppendOutcome
  unfolding commit
  store_capture frame session digest frame_id = do
    commit frame
    modify (λ st. record st { digests = insert session digest st.digests })
    pure (appended frame_id)

  -- `append_capture` from the name on, for a screen that has changed.
  unfoldable pub append_changed : CaptureResult → ℕ → T → ℕ → Method S AppendOutcome
  unfolding checked_add
  append_changed capture digest timestamp now_monotonic = do
    component ← map_err SegmentError.name (derive_component capture.session)
    let filename = session_filename component
    previous_offset ← gets (λ st. offset_of (get capture.session st.metadata.sessions))
    last ← gets (λ st. st.metadata.last_durable_frame_id)
    frame_id ← ok_or SegmentError.frame_id_overflow (checked_add last 1)
    bytes ← ok_or SegmentError.serialize (env.serialize_frame capture frame_id timestamp)
    st ← gets (λ st. st)
    longer ←
        expect (record_length st.metadata (now_monotonic - st.start_monotonic) st.segment_interval)
    let proposed = with_frame longer frame_id capture.session filename previous_offset bytes
    let frame : AppendFrame = record {
      filename = filename;
      previous_offset = previous_offset;
      bytes = bytes;
      proposed_metadata = proposed;
    }
    store_capture frame capture.session digest frame_id

  unfoldable pub append_capture : CaptureResult → T → ℕ → Method S AppendOutcome
  unfolding append_changed
  append_capture capture timestamp now_monotonic = do
    st ← gets (λ st. st)
    guard_not st.is_poisoned SegmentError.poisoned
    guard_not (is_some st.close_result) SegmentError.closed
    let digest = capture_digest env.hash capture
    if has_digest (get capture.session st.digests) digest
        then pure unchanged
        else append_changed capture digest timestamp now_monotonic

  -- `append_activity` past its early returns.
  unfoldable pub append_rows : List ℕ → ℕ → Method S (Unit {0})
  unfolding checked_add
  append_rows bytes now_monotonic = do
    st ← gets (λ st. st)
    stem ← expect (segment_stem st.metadata.incomplete_dir)
    let filename = stem ++ codes "_desktop_activity.jsonl"
    let previous_offset = st.metadata.activity_durable_offset
    end ← ok_or SegmentError.activity_offset_overflow (checked_add previous_offset (length bytes))
    let counted = record (st.metadata) { activity_durable_offset = end }
    proposed ←
        expect (record_length counted (now_monotonic - st.start_monotonic) st.segment_interval)
    commit (record {
      filename = filename;
      previous_offset = previous_offset;
      bytes = bytes;
      proposed_metadata = proposed;
    })

  unfoldable pub append_activity : List ℕ → ℕ → Method S (Unit {0})
  unfolding append_rows
  append_activity bytes now_monotonic = do
    st ← gets (λ st. st)
    if length bytes == 0 then pure tt else (do
      guard_not st.is_poisoned SegmentError.poisoned
      guard_not (is_some st.close_result) SegmentError.closed
      append_rows bytes now_monotonic)

unfoldable pub rotation_due : {S : Type 0} → SegmentState S → ℕ → ℕ → Bool
rotation_due st now_monotonic interval = leb interval (now_monotonic - st.start_monotonic)
