-- ===== src/Recovery/Empty.antt =====
-- The removal of a confirmed-empty segment in native/solstone-tmux/src/recovery.rs:
-- `validated_empty_files` and `remove_validated_empty_files`, between which the directory may change.
pub mod Pigeonhole
pub mod Again
pub mod Safe
use solstone_tmux.Base.{
  ℕ, Bool, true, false, not, ◌||◌, List, [], ◌∷◌, ◌++◌, Text, codes, Option, none, some, Result, ok,
  err, length, any, text_eq, ◌==◌, if◌then◌else◌,
}
use solstone_tmux.Recovery.Validate.{RecoveryError, io}
use solstone_tmux.Recovery.Repair.{Files}

-- What `symlink_metadata` says of an entry.
pub record Inspected : Type 0 where
  pub is_plain_file : Bool
  pub device : ℕ
  pub inode : ℕ
  pub length : ℕ

-- An entry of `read_dir`: its name, and what inspecting it gives.
pub record Sighting : Type 0 where
  pub name : Text
  pub inspected : Result RecoveryError Inspected

-- `read_dir`, which may fail as a whole and at each entry.
abbrev pub Listing : Type 0
Listing = Result RecoveryError (List (Result RecoveryError Sighting))

pub record ValidatedEmptyFile : Type 0 where
  pub path : Text
  pub device : ℕ
  pub inode : ℕ
  pub length : ℕ

abbrev pub validated_file : Text → Inspected → ValidatedEmptyFile
validated_file name seen = record {
  path = name;
  device = seen.device;
  inode = seen.inode;
  length = seen.length;
}

abbrev pub keep_going :
    {A B : Type 0} → Result RecoveryError A → (A → Result RecoveryError B) → Result RecoveryError B
keep_going (ok a) f = f a
keep_going (err e) f = err e

unfoldable pub validate_entries :
    List ValidatedEmptyFile
    → List (Result RecoveryError Sighting)
    → Result RecoveryError (Option (List ValidatedEmptyFile))
validate_entries validated [] = ok (some validated)
validate_entries validated (err e ∷ entries) = err e
validate_entries validated (ok entry ∷ entries) = keep_going entry.inspected (λ seen.
    if not seen.is_plain_file || not (seen.length == 0)
    then ok none
    else validate_entries (validated ++ (validated_file entry.name seen ∷ [])) entries)

unfoldable pub validated_empty_files :
    Listing → Result RecoveryError (Option (List ValidatedEmptyFile))
validated_empty_files listing = keep_going listing (validate_entries [])

-- `validated.iter().find(|expected| expected.path == path)`
unfoldable pub find_validated : Text → List ValidatedEmptyFile → Option ValidatedEmptyFile
find_validated name [] = none
find_validated name (v ∷ validated) =
    if text_eq v.path name then some v else find_validated name validated

-- The entry is not the file that was validated, or was met before.
abbrev pub has_changed : List Text → Text → ValidatedEmptyFile → Inspected → Bool
has_changed met name expected seen =
    not seen.is_plain_file
    || (not (seen.device == expected.device)
        || (not (seen.inode == expected.inode)
            || (not (seen.length == expected.length) || any (λ m. text_eq m name) met)))

-- The second look at the directory: the names met, or `none` where something has changed.
unfoldable pub check_again :
    List ValidatedEmptyFile
    → List Text
    → List (Result RecoveryError Sighting)
    → Result RecoveryError (Option (List Text))
check_again validated met [] = ok (some met)
check_again validated met (err e ∷ entries) = err e
check_again validated met (ok entry ∷ entries) = elim (find_validated entry.name validated) [
  | none ↦ ok none
  | some expected ↦ keep_going entry.inspected (λ seen.
      if has_changed met entry.name expected seen
      then ok none
      else check_again validated (met ++ (entry.name ∷ [])) entries)
]

abbrev pub without : Text → Files → Files
without name files other = if text_eq name other then none else files other

-- The removals, of which one may fail: `succeeding` is how many do not.
unfoldable pub remove_files :
    ℕ → List ValidatedEmptyFile → Files → Result RecoveryError Bool × Files
remove_files succeeding [] files = (ok true, files)
remove_files ℕ.zero (v ∷ validated) files = (err (io (codes "remove zero-length JSONL")), files)
remove_files (ℕ.suc n) (v ∷ validated) files = remove_files n validated (without v.path files)

abbrev pub if_unchanged :
    ℕ
    → List ValidatedEmptyFile
    → Files
    → Result RecoveryError (Option (List Text))
    → Result RecoveryError Bool × Files
if_unchanged succeeding validated files (err e) = (err e, files)
if_unchanged succeeding validated files (ok none) = (ok false, files)
if_unchanged succeeding validated files (ok (some met)) =
    if not (length met == length validated)
    then (ok false, files)
    else remove_files succeeding validated files

unfoldable pub remove_validated_empty_files :
    ℕ → List ValidatedEmptyFile → Listing → Files → Result RecoveryError Bool × Files
remove_validated_empty_files succeeding validated listing files =
    if_unchanged succeeding validated files (keep_going listing (check_again validated []))
