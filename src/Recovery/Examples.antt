-- ===== src/Recovery/Examples.antt =====
-- Validation and repair of native/solstone-tmux/src/recovery.rs at a concrete segment.
use solstone_tmux.Base.{
  take, ◌≤◌, ℕ, ◌≡◌, refl, true, false, List, [], ◌∷◌, Text, codes, Option, none, some, Result, ok,
  get, insert, text_eq, contains, subst, ltb, length, arith, if◌then◌else◌, strip_suffix,
}
use solstone_tmux.Base.Stepwise.{◌>>=◌}
use solstone_tmux.Storage.{SegmentMetadata, SessionMetadata}
use solstone_tmux.Storage.Disk.{set_len}
use solstone_tmux.Segment.Tests.{fresh_metadata}
use solstone_tmux.Segment.Length.{segment_stem}
use solstone_tmux.Recovery.Prefix.Again.{parse_recorded_prefix-again}
use solstone_tmux.Recovery.Prefix.{
  stop_at, split_inclusive, ends_line, without_last, last_id, is_stale, parse_line, parse_lines,
  parse_recorded_prefix,
}
use solstone_tmux.Recovery.Validate.{
  RecoveryError, DirEntry, FileRepair, exact, repair, Validation, at_offset, check_entry,
  check_entries, cut_back, cut_entry, check_prefix, check_suffix, read_session, check_session,
  check_sessions, line_end, activity_end, check_activity, sort_in, sort, counts_from, recount,
  judge, validate, validate_files,
}
use solstone_tmux.Recovery.Repair.{Files, repair_file, apply_repairs}
use solstone_tmux.Recovery.Validate.Runs.{Once}
use solstone_tmux.Recovery.Validate.Converges.{holding}
use solstone_tmux.Recovery.Validate.Again.{validate_files-apply_repairs}

-- A line with one byte is a frame with this id.
abbrev one_byte : List ℕ → Option ℕ
one_byte [] = none
one_byte (b ∷ []) = some b
one_byte (b ∷ c ∷ line) = none

abbrev screen_name : Text
screen_name = codes "tmux_a_screen.jsonl"

-- Two frames, the second torn.
abbrev torn_files : Files
torn_files name = if text_eq screen_name name then some (1 ∷ b'\n' ∷ 2 ∷ []) else none

abbrev cut_files : Files
cut_files name = if text_eq screen_name name then some (1 ∷ b'\n' ∷ []) else torn_files name

abbrev session_a : SessionMetadata
session_a = record {
  session = codes "a";
  filename = screen_name;
  last_frame_id = 2;
  durable_offset = 3;
}

abbrev torn_metadata : SegmentMetadata
torn_metadata = record fresh_metadata {
  last_durable_frame_id = 2;
  durable_frame_count = 2;
  has_durable_frames = true;
  sessions = (codes "a", session_a) ∷ [];
}

abbrev cut_metadata : SegmentMetadata
cut_metadata = record torn_metadata {
  last_durable_frame_id = 1;
  durable_frame_count = 1;
  sessions = (codes "a", record session_a { last_frame_id = 1; durable_offset = 2 }) ∷ [];
}

abbrev one_entry : Result RecoveryError (List (Result RecoveryError DirEntry))
one_entry = ok (ok (record { name = some screen_name; is_plain_file = true }) ∷ [])

abbrev cut_once : Validation
cut_once = record {
  kind = repair;
  detail = [];
  repairs = at_offset screen_name 2 ∷ [];
  updated_metadata = some cut_metadata;
}

named : segment_stem torn_metadata.incomplete_dir ≡ some (codes "120000")
unfolding segment_stem strip_suffix text_eq
named = refl

torn_cut : validate_files one_byte (holding one_entry torn_files) torn_metadata ≡ ok cut_once
unfolding validate_files validate check_entry check_entries check_sessions check_session
    check_prefix check_suffix read_session cut_entry cut_back check_activity line_end activity_end
    sort sort_in counts_from recount judge ◌>>=◌ get insert text_eq contains parse_recorded_prefix
    parse_lines parse_line split_inclusive ends_line without_last last_id is_stale segment_stem
    strip_suffix
torn_cut = refl

applied : apply_repairs (λ n. true) false cut_once.repairs [] torn_files ≡ (ok tt, cut_files)
unfolding apply_repairs repair_file set_len text_eq
applied = refl

once : Once one_byte (holding one_entry torn_files) torn_metadata.sessions
unfolding text_eq parse_recorded_prefix parse_lines parse_line split_inclusive ends_line
    without_last last_id is_stale
once = (
  (λ bytes found torn.
      let same : (1 ∷ b'\n' ∷ 2 ∷ []) ≡ bytes = ground (arith, found) in
      subst (λ b. ltb 3 (length b) ≡ false) same refl),
  tt,
)

validate_files-apply_repairs_example :
    validate_files one_byte (holding one_entry cut_files) cut_metadata
    ≡ ok (record { kind = exact; detail = []; repairs = []; updated_metadata = some cut_metadata })
unfolding text_eq get
validate_files-apply_repairs_example =
    validate_files-apply_repairs one_byte one_entry torn_files cut_files torn_metadata
      (codes "120000") (λ n. true) [] cut_once cut_metadata named (refl, tt) (refl, tt) (tt, tt)
      (refl, tt) once torn_cut refl applied refl

-- The same file with one more byte: it is both torn and too long.
abbrev both_files : Files
both_files name = if text_eq screen_name name then some (1 ∷ b'\n' ∷ 2 ∷ 7 ∷ []) else none

abbrev both_repairs : List FileRepair
both_repairs = at_offset screen_name 2 ∷ at_offset screen_name 3 ∷ []

cut_twice :
    validate_files one_byte (holding one_entry both_files) torn_metadata
    ≡ ok (record cut_once { repairs = both_repairs })
unfolding validate_files validate check_entry check_entries check_sessions check_session
    check_prefix check_suffix read_session cut_entry cut_back check_activity line_end activity_end
    sort sort_in counts_from recount judge ◌>>=◌ get insert text_eq contains parse_recorded_prefix
    parse_lines parse_line split_inclusive ends_line without_last last_id is_stale segment_stem
    strip_suffix
cut_twice = refl

-- The second repair writes a zero byte behind the offset of the first.
zero_byte :
    (apply_repairs (λ n. true) false both_repairs [] both_files).1 screen_name
    ≡ some (1 ∷ b'\n' ∷ 0 ∷ [])
unfolding apply_repairs repair_file set_len text_eq
zero_byte = refl

parse_recorded_prefix-again_example :
    (parse_recorded_prefix one_byte (1 ∷ b'\n' ∷ []) ≡ stop_at 2 (1 ∷ []) false)
    × (length {A = ℕ} (take 2 (1 ∷ b'\n' ∷ 2 ∷ [])) ≡ 2)
    × (2 ≤ 3)
unfolding parse_recorded_prefix parse_lines parse_line split_inclusive ends_line without_last
    last_id is_stale
parse_recorded_prefix-again_example = parse_recorded_prefix-again one_byte (1 ∷ b'\n' ∷ 2 ∷ [])
