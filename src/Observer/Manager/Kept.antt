-- ===== src/Observer/Manager/Kept.antt =====
-- An append leaves the beginning and the end of a segment as they are.
use solstone_tmux.Base.{
  ℕ, ◌+◌, ◌-◌, ◌^◌, ◌≡◌, inl, inr, List, Text, Option, get, length, ltb, Bool-cases, Option-cases,
  Result-cases, is_some, ◌==◌,
}
use solstone_tmux.Model.{CaptureResult}
use solstone_tmux.Name.{derive_component}
use solstone_tmux.Storage.{AppendFrame}
use solstone_tmux.Segment.{SegmentState, SegmentClose, Externals}
use solstone_tmux.Segment.Monad.{guard_not_rule, if_rule}
use solstone_tmux.Segment.Length.{segment_stem, record_length}
use solstone_tmux.Segment.Append.{
  commit, store_capture, append_changed, append_capture, append_rows, append_activity, has_digest,
}
use solstone_tmux.Segment.Digest.{capture_digest}

-- The segment began at this time and is closed as this says.
pub record Began {S : Type 0} (start : ℕ) (close : Option SegmentClose) (st : SegmentState S)
    : Type 0 where
  pub start_is : st.start_monotonic ≡ start
  pub close_is : st.close_result ≡ close

module _ {S T : Type 0} (env : Externals S T) (start : ℕ) (close : Option SegmentClose) where
  commit-Began :
      (frame : AppendFrame) (st : SegmentState S)
      → Began start close st
      → Began start close (commit env frame st).1
  unfolding commit
  commit-Began frame st b = elim (Result-cases (env.durable.append_frame frame st.disk).0) [
    | inl (m, e) ↦ rw (e, commit) (record { start_is = b.start_is; close_is = b.close_is })
    | inr (x, e) ↦ rw (e, commit) (record { start_is = b.start_is; close_is = b.close_is })
  ]

  store_capture-Began :
      (frame : AppendFrame) (session : Text) (digest id : ℕ) (st : SegmentState S)
      → Began start close st
      → Began start close (store_capture env frame session digest id st).1
  unfolding store_capture
  store_capture-Began frame session digest id st b =
      elim (Result-cases (env.durable.append_frame frame st.disk).0) [
        | inl (m, e) ↦
            rw (e, store_capture, commit) (record { start_is = b.start_is; close_is = b.close_is })
        | inr (x, e) ↦
            rw (e, store_capture, commit) (record { start_is = b.start_is; close_is = b.close_is })
      ]

  append_changed-Began :
      (capture : CaptureResult) (digest : ℕ) (timestamp : T) (now : ℕ) (st : SegmentState S)
      → Began start close st
      → Began start close (append_changed env capture digest timestamp now st).1
  unfolding append_changed
  append_changed-Began capture digest timestamp now st b =
      elim (Result-cases (derive_component capture.session)) [
        | inr (e, bad) ↦ rw (bad, append_changed) b
        | inl (derived, derives) ↦
            elim (Bool-cases (ltb (st.metadata.last_durable_frame_id + 1) (2 ^ 64))) [
              | inr full ↦ rw (derives, append_changed, full) b
              | inl room ↦
                  elim (Option-cases (
                    env.serialize_frame capture (st.metadata.last_durable_frame_id + 1)
                      timestamp)) [
                        | inl bad ↦ rw (derives, append_changed, room, bad) b
                        | inr (bytes, good) ↦
                            elim (Option-cases (
                              record_length st.metadata (now - st.start_monotonic)
                                st.segment_interval)) [
                                  | inl bad ↦ rw (derives, append_changed, room, good, bad) b
                                  | inr (longer, l) ↦
                                      rw (derives, append_changed, room, good, l)
                                        (store_capture-Began _ capture.session digest _ st b)
                                ]
                      ]
            ]
      ]

  pub append_capture-Began :
      (capture : CaptureResult) (timestamp : T) (now : ℕ) (st : SegmentState S)
      → Began start close st
      → Began start close (append_capture env capture timestamp now st).1
  unfolding append_capture
  append_capture-Began capture timestamp now st b =
      guard_not_rule (Began start close) st.is_poisoned _ _ st b (
        guard_not_rule (Began start close) (is_some st.close_result) _ _ st b (
          if_rule (Began start close)
            (has_digest (get capture.session st.digests) (capture_digest env.hash capture)) _ _ st b
            (append_changed-Began capture (capture_digest env.hash capture) timestamp now st b)))

  append_rows-Began :
      (bytes : List ℕ) (now : ℕ) (st : SegmentState S)
      → Began start close st
      → Began start close (append_rows env bytes now st).1
  unfolding append_rows
  append_rows-Began bytes now st b = elim (Option-cases (segment_stem st.metadata.incomplete_dir)) [
    | inl bad ↦ rw (bad, append_rows) b
    | inr (stem, found) ↦
        elim (Bool-cases (ltb (st.metadata.activity_durable_offset + length bytes) (2 ^ 64))) [
          | inr full ↦ rw (found, append_rows, full) b
          | inl room ↦
              let end = st.metadata.activity_durable_offset + length bytes in
              elim (Option-cases (
                record_length (record (st.metadata) { activity_durable_offset = end })
                  (now - st.start_monotonic) st.segment_interval)) [
                    | inl bad ↦ rw (found, append_rows, room, bad) b
                    | inr (longer, l) ↦ rw (found, append_rows, room, l) (commit-Began _ st b)
                  ]
        ]
  ]

  pub append_activity-Began :
      (bytes : List ℕ) (now : ℕ) (st : SegmentState S)
      → Began start close st
      → Began start close (append_activity env bytes now st).1
  unfolding append_activity
  append_activity-Began bytes now st b = if_rule (Began start close) (length bytes == 0) _ _ st b (
      guard_not_rule (Began start close) st.is_poisoned _ _ st b (
        guard_not_rule (Began start close) (is_some st.close_result) _ _ st b
          (append_rows-Began bytes now st b)))
