-- ===== src/Recovery/Validate.antt =====
-- `validate_files` of native/solstone-tmux/src/recovery.rs: whether the files of a segment are those
-- that its metadata speaks of, and how far they have to be cut back.
pub mod Loop
pub mod Turns
pub mod Repairs
pub mod Runs
pub mod Activity
pub mod Converges
pub mod Again
use solstone_tmux.Base.{
  ℕ, zero, suc, ◌+◌, Bool, true, false, not, ◌&&◌, ◌||◌, List, [], ◌∷◌, ◌++◌, Text, codes, Option,
  none, some, Map, Result, ok, err, get, insert, length, take, drop, any, ltb, leb, ◌==◌, contains,
  text_eq, is_some, refuse_if, if◌then◌else◌,
}
use solstone_tmux.Base.Stepwise.{◌>>=◌, ◌>>◌}
use solstone_tmux.Name.Files.{valid_activity_filename}
use solstone_tmux.Storage.{SegmentMetadata, SessionMetadata}
use solstone_tmux.Segment.Length.{segment_stem}
use solstone_tmux.Recovery.Prefix.{Prefix, parse_recorded_prefix, ends_line, last_id}
use Prim.Native.String.{String}

-- `RecoveryError`, without paths and causes.
pub data RecoveryError : Type 0 where
  storage escapes_data_root special_target : RecoveryError
  io : Text → RecoveryError

-- How `validate_files` returns early: by a panic of `expect`, by `?`, or by a contradiction.
pub data Stop : Type 0 where
  panic : Stop
  fails : RecoveryError → Stop
  contradicts : Text → Stop

-- An entry of the directory: its name, where it is UTF-8, and whether it is a plain file.
pub record DirEntry : Type 0 where
  pub name : Option Text
  pub is_plain_file : Bool

-- A directory as `read_dir` and `read` see it; `read` gives `none` where there is no such file.
pub record Directory : Type 0 where
  pub entries : Result RecoveryError (List (Result RecoveryError DirEntry))
  pub read : Text → Result RecoveryError (Option (List ℕ))

pub record FileRepair : Type 0 where
  pub filename : Text
  pub offset : ℕ

pub data ValidationKind : Type 0 where
  exact repair contradictory : ValidationKind

pub record Validation : Type 0 where
  pub kind : ValidationKind
  pub detail : Text
  pub repairs : List FileRepair
  pub updated_metadata : Option SegmentMetadata

unfoldable pub contradiction : Text → Validation
contradiction detail = record {
  kind = contradictory;
  detail = detail;
  repairs = [];
  updated_metadata = none;
}

abbrev pub stop : {A : Type 0} → String → Result Stop A
stop detail = err (contradicts (codes detail))

abbrev pub question : {A : Type 0} → Result RecoveryError A → Result Stop A
question (ok a) = ok a
question (err e) = err (fails e)

-- `expected.contains(name)`, of the file names of the sessions
abbrev pub is_expected : Map SessionMetadata → Text → Bool
is_expected sessions name = any (λ (key, session). text_eq session.filename name) sessions

unfoldable pub check_entry : Map SessionMetadata → Text → DirEntry → Result Stop (Unit {0})
check_entry sessions stem entry = elim entry.name [
  | none ↦ stop "non-UTF-8 filename in segment"
  | some name ↦
      refuse_if
        (not entry.is_plain_file
          || (not (is_expected sessions name) && not (valid_activity_filename name stem)))
        (contradicts (codes "unknown or non-regular file in segment"))
]

unfoldable pub check_entries :
    Map SessionMetadata → Text → List (Result RecoveryError DirEntry) → Result Stop (Unit {0})
check_entries sessions stem [] = ok tt
check_entries sessions stem (entry ∷ rest) = do
  found ← question entry
  check_entry sessions stem found
  check_entries sessions stem rest

-- What the loop over the sessions has gathered.
pub record Progress : Type 0 where
  pub updated : Map SessionMetadata
  pub repairs : List FileRepair
  pub ids : List ℕ

abbrev pub or_zero : Option ℕ → ℕ
or_zero none = 0
or_zero (some n) = n

-- A session's entry cut back to the offset and the ids that were found.
unfoldable pub cut_back : SessionMetadata → Prefix → SessionMetadata
cut_back session p = record session {
  durable_offset = p.offset;
  last_frame_id = or_zero (last_id p.ids);
}

abbrev pub at_offset : Text → ℕ → FileRepair
at_offset filename offset = record { filename = filename; offset = offset }

-- `updated.sessions.get_mut(key).expect(…)`, cut back
unfoldable pub cut_entry :
    Text → Prefix → Map SessionMetadata → Option SessionMetadata → Result Stop (Map SessionMetadata)
cut_entry key p sessions none = err panic
cut_entry key p sessions (some entry) = ok (insert key (cut_back entry p) sessions)

-- A torn prefix is cut back; any other has to be whole.
unfoldable pub check_prefix : SessionMetadata → Prefix → Progress → Result Stop Progress
check_prefix session p done =
    if p.torn
    then (do
      updated ← cut_entry session.session p done.updated (get session.session done.updated)
      ok (record done {
        updated = updated;
        repairs = done.repairs ++ (at_offset session.filename p.offset ∷ []);
      }))
    else if not (p.offset == session.durable_offset)
    then stop "earlier JSONL corruption"
    else if not (or_zero (last_id p.ids) == session.last_frame_id)
    then stop "session frame IDs disagree with metadata"
    else ok done

-- The bytes beyond the recorded offset are cut off, unless a line ends in them.
unfoldable pub check_suffix : SessionMetadata → List ℕ → Progress → Result Stop Progress
check_suffix session bytes done =
    if not (ltb session.durable_offset (length bytes))
    then ok done
    else if contains b'\n' (drop session.durable_offset bytes)
    then stop "complete or multiline bytes exist beyond the durable offset"
    else ok (record done {
      repairs = done.repairs ++ (at_offset session.filename session.durable_offset ∷ []);
    })

unfoldable pub read_session : Option (List ℕ) → SessionMetadata → Result Stop (List ℕ)
read_session none session = stop "referenced JSONL file is missing"
read_session (some bytes) session =
    if ltb (length bytes) session.durable_offset
    then stop "JSONL is shorter than its durable offset"
    else ok bytes

module _ (frame_id : List ℕ → Option ℕ) (directory : Directory) where
  unfoldable pub check_session : SessionMetadata → Progress → Result Stop Progress
  check_session session done = do
    found ← question (directory.read session.filename)
    bytes ← read_session found session
    let p = parse_recorded_prefix frame_id (take session.durable_offset bytes)
    cut ← check_prefix session p done
    checked ← check_suffix session bytes cut
    ok (record checked { ids = checked.ids ++ p.ids })

  unfoldable pub check_sessions : Map SessionMetadata → Progress → Result Stop Progress
  check_sessions [] done = ok done
  check_sessions ((key, session) ∷ rest) done = do
    next ← check_session session done
    check_sessions rest next

-- `bytes.iter().rposition(|byte| *byte == b'\n').map_or(0, |index| index + 1)`
unfoldable pub line_end : List ℕ → ℕ
line_end [] = 0
line_end (b ∷ bytes) =
    let rest = line_end bytes in if not (rest == 0) then suc rest else if b == b'\n' then 1 else 0

unfoldable pub activity_end : List ℕ → ℕ
activity_end prefix =
    if (length prefix == 0) || ends_line prefix then length prefix else line_end prefix

-- What the activity file's check gives: where to cut the file, if it has to be cut.
unfoldable pub check_activity : Option (List ℕ) → ℕ → Result Stop (Option ℕ)
check_activity none recorded = if recorded == 0 then ok none else stop "activity JSONL is missing"
check_activity (some bytes) recorded =
    let offset = activity_end (take recorded bytes) in
    if ltb (length bytes) recorded
    then stop "activity JSONL is shorter than its durable offset"
    else if not (offset == recorded) || ltb recorded (length bytes)
    then ok (some offset)
    else ok none

-- `sort_unstable`
unfoldable pub sort_in : ℕ → List ℕ → List ℕ
sort_in n [] = n ∷ []
sort_in n (m ∷ ids) = let rest = sort_in n ids in if leb n m then n ∷ (m ∷ ids) else m ∷ rest

unfoldable pub sort : List ℕ → List ℕ
sort [] = []
sort (n ∷ ids) = sort_in n (sort ids)

-- Whether the list counts up from its first number.
unfoldable pub counts_from : ℕ → List ℕ → Bool
counts_from n [] = true
counts_from n (id ∷ ids) = (id == n) && counts_from (n + 1) ids

abbrev pub is_empty : List FileRepair → Bool
is_empty [] = true
is_empty (r ∷ rest) = false

-- The metadata with the sessions and the counts of the files.
unfoldable pub recount : SegmentMetadata → List ℕ → SegmentMetadata
recount m ids = record m {
  durable_frame_count = length ids;
  last_durable_frame_id = or_zero (last_id ids);
  has_durable_frames = ltb 0 (length ids);
}

-- `validate_files` from the sorted ids on.
unfoldable pub judge :
    SegmentMetadata → SegmentMetadata → List FileRepair → List ℕ → Result Stop Validation
judge metadata updated repairs ids =
    if not (counts_from 1 ids)
    then stop "global frame IDs are duplicated or nonconsecutive"
    else if is_empty repairs
        && (not (metadata.durable_frame_count == length ids)
            || not (metadata.last_durable_frame_id == or_zero (last_id ids)))
    then stop "global frame IDs disagree with metadata"
    else ok (record {
      kind = if is_empty repairs then exact else repair;
      detail = [];
      repairs = repairs;
      updated_metadata = some (if is_empty repairs then updated else recount updated ids);
    })

abbrev pub activity_filename : Text → Text
activity_filename stem = stem ++ codes "_desktop_activity.jsonl"

abbrev pub repair_of : Text → Option ℕ → List FileRepair
repair_of filename none = []
repair_of filename (some offset) = at_offset filename offset ∷ []

abbrev pub or_else : Option ℕ → ℕ → ℕ
or_else none n = n
or_else (some m) n = m

abbrev pub expect : {A : Type 0} → Option A → Result Stop A
expect none = err panic
expect (some a) = ok a

abbrev pub with_files : SegmentMetadata → Map SessionMetadata → ℕ → SegmentMetadata
with_files m sessions offset = record m { sessions = sessions; activity_durable_offset = offset }

module _ (frame_id : List ℕ → Option ℕ) (directory : Directory) where
  -- `validate_files` up to a contradiction.
  unfoldable pub validate : SegmentMetadata → Result Stop Validation
  validate metadata = do
    stem ← expect (segment_stem metadata.incomplete_dir)
    entries ← question directory.entries
    check_entries metadata.sessions stem entries
    done ←
        check_sessions frame_id directory metadata.sessions
          (record { updated = metadata.sessions; repairs = []; ids = [] })
    found ← question (directory.read (activity_filename stem))
    cut ← check_activity found metadata.activity_durable_offset
    judge metadata (with_files metadata done.updated (or_else cut metadata.activity_durable_offset))
        (done.repairs ++ repair_of (activity_filename stem) cut) (sort done.ids)

abbrev pub conclude : Result Stop Validation → Result Stop Validation
conclude (ok v) = ok v
conclude (err (contradicts detail)) = ok (contradiction detail)
conclude (err e) = err e

unfoldable pub validate_files :
    (List ℕ → Option ℕ) → Directory → SegmentMetadata → Result Stop Validation
validate_files frame_id directory metadata = conclude (validate frame_id directory metadata)
