-- ===== src/Segment/Length.antt =====
-- The length of a segment and the name that it gives: `segment_length`, `record_length`,
-- `finalized_name`, `segment_stem` and `duration_nanos` of segment.rs.
use solstone_tmux.Base.{
  ℕ, ◌-◌, ◌*◌, ◌/◌, ◌^◌, ◌≤◌, ◌<◌, min, max, ◌≡◌, ap, sym, ◌∙◌, ◌++◌, Text, codes, Option, some,
  none, strip_suffix, decimal_3, arith, strip_suffix-append,
}
use solstone_tmux.Storage.{SegmentMetadata}

abbrev pub nanos_per_second : ℕ
nanos_per_second = 1_000_000_000

-- `Duration::as_secs`
unfoldable pub as_secs : ℕ → ℕ
as_secs nanos = nanos / nanos_per_second

-- `elapsed.as_secs().clamp(1, segment_interval.as_secs().max(1))`
unfoldable pub segment_length : ℕ → ℕ → ℕ
unfolding as_secs
segment_length elapsed segment_interval =
    min (max (as_secs elapsed) 1) (max (as_secs segment_interval) 1)

unfoldable pub duration_nanos : ℕ → ℕ
duration_nanos duration = min duration (2 ^ 64 - 1)

-- `none` is the panic of the `expect`.
unfoldable pub segment_stem : Text → Option Text
segment_stem incomplete_name = strip_suffix (codes ".incomplete") incomplete_name

-- `format!("{stem}_{:03}", elapsed.as_secs())`
unfoldable pub finalized_name : Text → ℕ → Text
unfolding as_secs
finalized_name stem elapsed = stem ++ (codes "_" ++ decimal_3 (as_secs elapsed))

unfoldable pub record_length : SegmentMetadata → ℕ → ℕ → Option SegmentMetadata
unfolding segment_stem
record_length metadata elapsed segment_interval =
    let length = segment_length elapsed segment_interval * nanos_per_second in
    elim (segment_stem metadata.incomplete_dir) [
      | none ↦ none
      | some stem ↦ some (record metadata {
        elapsed_nanos = duration_nanos length;
        finalized_dir = finalized_name stem length;
      })
    ]

-- The recorded length is between one second and the interval, and the interval counts for at least
-- one second.
pub segment_length_bounds :
    (elapsed segment_interval : ℕ)
    → (1 ≤ segment_length elapsed segment_interval)
      × (segment_length elapsed segment_interval ≤ max (as_secs segment_interval) 1)
unfolding segment_length
segment_length_bounds elapsed segment_interval = omega arith

-- The name of the closed segment is the one that its recorded length gives.
pub record IsNamed (metadata : SegmentMetadata) (stem : Text) : Type 0 where
  pub incomplete : metadata.incomplete_dir ≡ stem ++ codes ".incomplete"
  pub finalized : metadata.finalized_dir ≡ finalized_name stem metadata.elapsed_nanos

pub segment_stem-incomplete : (stem : Text) → segment_stem (stem ++ codes ".incomplete") ≡ some stem
unfolding segment_stem
segment_stem-incomplete stem = strip_suffix-append stem (codes ".incomplete")

-- Recorded lengths fit 64 bits of nanoseconds, for intervals below 584 years.
duration_nanos-length :
    (elapsed segment_interval : ℕ)
    → segment_interval < 2 ^ 64
    → duration_nanos (segment_length elapsed segment_interval * nanos_per_second)
      ≡ segment_length elapsed segment_interval * nanos_per_second
unfolding duration_nanos segment_length
duration_nanos-length elapsed segment_interval h = omega arith

abbrev pub lengthened : SegmentMetadata → Text → ℕ → ℕ → SegmentMetadata
lengthened metadata stem elapsed segment_interval =
    let length = segment_length elapsed segment_interval * nanos_per_second in
    record metadata {
      elapsed_nanos = duration_nanos length;
      finalized_dir = finalized_name stem length;
    }

-- Recording a length never panics on a segment's own metadata, whatever the length, and keeps the
-- name in step with the length.
pub record_length_lem :
    (metadata : SegmentMetadata) (stem : Text) (elapsed segment_interval : ℕ)
    → metadata.incomplete_dir ≡ stem ++ codes ".incomplete"
    → record_length metadata elapsed segment_interval
      ≡ some (lengthened metadata stem elapsed segment_interval)
unfolding record_length
record_length_lem metadata stem elapsed segment_interval e =
    let found : segment_stem metadata.incomplete_dir ≡ some stem =
      ap segment_stem e ∙ segment_stem-incomplete stem in
    rw (found, record_length)

pub lengthened-IsNamed :
    (metadata : SegmentMetadata) (stem : Text) (elapsed segment_interval : ℕ)
    → segment_interval < 2 ^ 64
    → metadata.incomplete_dir ≡ stem ++ codes ".incomplete"
    → IsNamed (lengthened metadata stem elapsed segment_interval) stem
lengthened-IsNamed metadata stem elapsed segment_interval h e = record {
  incomplete = e;
  finalized = ap (finalized_name stem) (sym (duration_nanos-length elapsed segment_interval h));
}
