-- ===== src/Segment/Keeps.antt =====
-- Every append keeps the invariant of the metadata, whatever the storage answers.
use solstone_tmux.Base.{
  ℕ, ◌+◌, ◌-◌, ◌^◌, ◌<◌, ◌≡◌, ap, sym, ◌∙◌, subst, inl, inr, List, Text, some, get, All, length,
  IsScalar, arith, Bool-cases, Option-cases, Result-cases, is_some, ltb, ◌==◌,
}
use solstone_tmux.Model.{CaptureResult}
use solstone_tmux.Name.{derive_component}
use solstone_tmux.Storage.{SegmentMetadata, AppendFrame, IsStorage}
use solstone_tmux.Segment.{SegmentState, Externals}
use solstone_tmux.Segment.Monad.{guard_not_rule, if_rule}
use solstone_tmux.Segment.Length.{
  lengthened, lengthened-IsNamed, record_length_lem, segment_stem, segment_stem-incomplete,
}
use solstone_tmux.Segment.Append.{
  commit, store_capture, append_changed, append_capture, append_rows, append_activity, offset_of,
  has_digest,
}
use solstone_tmux.Segment.Digest.{capture_digest}
use solstone_tmux.Segment.Sound.{IsSound, with_frame-IsSound}

module _ {S T : Type 0} (env : Externals S T) (law : IsStorage env.durable) where
  commit-metadata :
      (P : SegmentMetadata → Type 0) (frame : AppendFrame) (st : SegmentState S)
      → P st.metadata
      → P frame.proposed_metadata
      → P (commit env frame st).1.metadata
  unfolding commit
  commit-metadata P frame st old new =
      elim (Result-cases (env.durable.append_frame frame st.disk).0) [
        | inl (m, e) ↦ rw (e, commit) (subst P (sym (law.accepts frame st.disk m e)) new)
        | inr (x, e) ↦ rw (e, commit) old
      ]

  store_capture-metadata :
      (P : SegmentMetadata → Type 0) (frame : AppendFrame) (session : Text) (digest id : ℕ)
      (st : SegmentState S)
      → P st.metadata
      → P frame.proposed_metadata
      → P (store_capture env frame session digest id st).1.metadata
  unfolding store_capture
  store_capture-metadata P frame session digest id st old new =
      elim (Result-cases (env.durable.append_frame frame st.disk).0) [
        | inl (m, e) ↦
            rw (e, store_capture, commit) (subst P (sym (law.accepts frame st.disk m e)) new)
        | inr (x, e) ↦ rw (e, store_capture, commit) old
      ]

  append_changed-IsSound :
      (capture : CaptureResult) (digest : ℕ) (timestamp : T) (now : ℕ) (st : SegmentState S)
      (stem : Text)
      → IsSound st.metadata stem
      → st.segment_interval < 2 ^ 64
      → All IsScalar capture.session
      → ((id : ℕ) (bytes : List ℕ)
          → env.serialize_frame capture id timestamp ≡ some bytes
          → (0 < length bytes)
            × (offset_of (get capture.session st.metadata.sessions) + length bytes < 2 ^ 64))
      → IsSound (append_changed env capture digest timestamp now st).1.metadata stem
  unfolding append_changed
  append_changed-IsSound capture digest timestamp now st stem s short scalar serial =
      elim (Result-cases (derive_component capture.session)) [
        | inr (e, bad) ↦ rw (bad, append_changed) s
        | inl (derived, derives) ↦
            elim (Bool-cases (ltb (st.metadata.last_durable_frame_id + 1) (2 ^ 64))) [
              | inr full ↦ rw (derives, append_changed, full) s
              | inl room ↦
                  let id = st.metadata.last_durable_frame_id + 1 in
                  elim (Option-cases (env.serialize_frame capture id timestamp)) [
                    | inl bad ↦ rw (derives, append_changed, room, bad) s
                    | inr (bytes, good) ↦
                        let longer =
                          record_length_lem st.metadata stem (now - st.start_monotonic)
                            st.segment_interval s.named.incomplete in
                        let proposed =
                          with_frame-IsSound st.metadata stem capture.session derived
                            (now - st.start_monotonic) st.segment_interval bytes s short scalar
                            derives (ground arith) (serial id bytes good).0
                            (serial id bytes good).1 in
                        rw (derives, append_changed, room, good, longer)
                          (store_capture-metadata (λ m. IsSound m stem) _ capture.session digest id
                            st s proposed)
                  ]
            ]
      ]

  -- Taking in a session's screen keeps the metadata sound, with any answer of the storage: it is
  -- sound after a frame is stored, after an unchanged screen, and after every error. The frame's
  -- JSON is assumed not to be empty, and the session's file to stay below 2^64 bytes.
  pub append_capture-IsSound :
      (capture : CaptureResult) (timestamp : T) (now : ℕ) (st : SegmentState S) (stem : Text)
      → IsSound st.metadata stem
      → st.segment_interval < 2 ^ 64
      → All IsScalar capture.session
      → ((id : ℕ) (bytes : List ℕ)
          → env.serialize_frame capture id timestamp ≡ some bytes
          → (0 < length bytes)
            × (offset_of (get capture.session st.metadata.sessions) + length bytes < 2 ^ 64))
      → IsSound (append_capture env capture timestamp now st).1.metadata stem
  unfolding append_capture
  append_capture-IsSound capture timestamp now st stem s short scalar serial =
      let changed =
        append_changed-IsSound capture (capture_digest env.hash capture) timestamp now st stem s
          short scalar serial in
      let P = λ (t : SegmentState S). IsSound t.metadata stem in
      guard_not_rule P st.is_poisoned _ _ st s (
        guard_not_rule P (is_some st.close_result) _ _ st s (
          if_rule P (has_digest (get capture.session st.digests) (capture_digest env.hash capture))
            _ _ st s changed))

  -- A longer segment, with more rows of activity, has sound metadata.
  counted-IsSound :
      (m : SegmentMetadata) (stem : Text) (end elapsed interval : ℕ)
      → IsSound m stem
      → interval < 2 ^ 64
      → IsSound (lengthened (record m { activity_durable_offset = end }) stem elapsed interval) stem
  counted-IsSound m stem end elapsed interval s short =
      let names = lengthened-IsNamed m stem elapsed interval short s.named.incomplete in
      record {
        version = s.version;
        created = s.created;
        counts = s.counts;
        has = s.has;
        bounded = s.bounded;
        entries = s.entries;
        distinct = s.distinct;
        named = record { incomplete = names.incomplete; finalized = names.finalized };
      }

  append_rows-IsSound :
      (bytes : List ℕ) (now : ℕ) (st : SegmentState S) (stem : Text)
      → IsSound st.metadata stem
      → st.segment_interval < 2 ^ 64
      → IsSound (append_rows env bytes now st).1.metadata stem
  unfolding append_rows
  append_rows-IsSound bytes now st stem s short =
      let offset = st.metadata.activity_durable_offset in
      let found : segment_stem st.metadata.incomplete_dir ≡ some stem =
        ap segment_stem s.named.incomplete ∙ segment_stem-incomplete stem in
      elim (Bool-cases (ltb (offset + length bytes) (2 ^ 64))) [
        | inr full ↦ rw (found, append_rows, full) s
        | inl room ↦
            let end = offset + length bytes in
            let longer =
              record_length_lem (record (st.metadata) { activity_durable_offset = end }) stem
                (now - st.start_monotonic) st.segment_interval s.named.incomplete in
            rw (found, append_rows, room, longer)
              (commit-metadata (λ m. IsSound m stem) _ st s
                (counted-IsSound st.metadata stem end (now - st.start_monotonic) st.segment_interval
                  s short))
      ]

  -- Taking in rows of activity keeps the metadata sound, with any answer of the storage: on every
  -- error, with nothing to write, and when the rows are stored.
  pub append_activity-IsSound :
      (bytes : List ℕ) (now : ℕ) (st : SegmentState S) (stem : Text)
      → IsSound st.metadata stem
      → st.segment_interval < 2 ^ 64
      → IsSound (append_activity env bytes now st).1.metadata stem
  unfolding append_activity
  append_activity-IsSound bytes now st stem s short =
      let P = λ (t : SegmentState S). IsSound t.metadata stem in
      let rows = append_rows-IsSound bytes now st stem s short in
      if_rule P (length bytes == 0) _ _ st s (
        guard_not_rule P st.is_poisoned _ _ st s
          (guard_not_rule P (is_some st.close_result) _ _ st s rows))
