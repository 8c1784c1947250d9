-- ===== src/Recovery/Tests.antt =====
-- Runs of native/solstone-tmux/src/recovery.rs, and the theorems about it at concrete segments.
use solstone_tmux.Base.{◌≡◌, refl, true, false, codes, bytes, encode, is_ascii_digit}
use solstone_tmux.Segment.Tests.{fresh_metadata, fresh-IsSound}
use solstone_tmux.Recovery.Names.{valid_time_name}
use solstone_tmux.Recovery.Consistent.{TimeRanges, metadata_is_consistent}
use solstone_tmux.Recovery.Accepts.{metadata_is_consistent-IsSound}

noon : valid_time_name (codes "120000") ≡ true
unfolding valid_time_name bytes encode is_ascii_digit
noon = refl

late : valid_time_name (codes "236000") ≡ false
unfolding valid_time_name bytes encode is_ascii_digit
late = refl

abbrev every_time : TimeRanges
every_time = record { valid_offset = λ t. true; valid_timestamp = λ t. true }

metadata_is_consistent-IsSound_example :
    metadata_is_consistent every_time fresh_metadata (codes "120000") ≡ true
metadata_is_consistent-IsSound_example =
    metadata_is_consistent-IsSound every_time fresh_metadata (codes "120000") noon refl refl
      fresh-IsSound
