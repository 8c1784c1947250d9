-- ===== src/Recovery/Quarantine.antt =====
-- `quarantine` and `entry_exists` of native/solstone-tmux/src/recovery.rs, over the entries of the
-- stream directory.
pub mod Loses
pub mod Ends
use solstone_tmux.Base.{
  ℕ, zero, suc, ◌+◌, Bool, true, false, not, ◌||◌, List, [], ◌∷◌, ◌++◌, Text, codes, Option, none,
  some, Result, ok, err, text_eq, is_some, decimal, strip_suffix, ◌==◌, if◌then◌else◌,
}
use solstone_tmux.Recovery.Validate.{RecoveryError, io}
use solstone_tmux.Recovery.Report.{RecoveryRecord, quarantined}

-- The entries of the stream directory by name, of a kind `E`.
abbrev pub Entries : Type 0 → Type 0
Entries E = Text → Option E

-- `fs::rename` where it succeeds and nothing stands at the new name.
abbrev pub move : {E : Type 0} → Text → Text → Entries E → Entries E
move before after entries name =
    if text_eq after name
    then entries before
    else if text_eq before name
    then none
    else entries name

-- The system calls of a run: which names cannot be inspected, and whether the renames of the source,
-- of the metadata and of the source back, and the sync, succeed.
pub record Calls : Type 0 where
  pub inspects : Text → Bool
  pub moves_source : Bool
  pub moves_metadata : Bool
  pub moves_back : Bool
  pub syncs : Bool

abbrev pub io_error : {A : Type 0} → Result RecoveryError A
io_error = err (io (codes "recovery"))

unfoldable pub entry_exists : {E : Type 0} → Calls → Entries E → Text → Result RecoveryError Bool
entry_exists calls entries name =
    if calls.inspects name then ok (is_some (entries name)) else io_error

abbrev pub suffix_of : ℕ → Text
suffix_of number = if number == 0 then [] else codes "." ++ decimal number

unfoldable pub failed_name : Text → ℕ → Text
failed_name stem number = stem ++ (suffix_of number ++ codes ".failed")

unfoldable pub failed_meta_name : Text → ℕ → Text
failed_meta_name stem number = stem ++ (suffix_of number ++ codes ".failed.meta")

-- `unwrap_or("segment")`
abbrev pub stem_or : Option Text → Text
stem_or none = codes "segment"
stem_or (some stem) = stem

-- The number that is found free, an error, or, in the model alone, no rounds left.
pub data Number : Type 0 where
  number_is : ℕ → Number
  stops : RecoveryError → Number
  no_rounds : Number

-- `!entry_exists(&failed)? && !entry_exists(&failed_metadata)?`
abbrev pub both_free :
    Result RecoveryError Bool → Result RecoveryError Bool → Result RecoveryError Bool
both_free (err e) second = err e
both_free (ok true) second = ok false
both_free (ok false) (err e) = err e
both_free (ok false) (ok taken) = ok (not taken)

abbrev pub next_number : ℕ → Result RecoveryError Bool → Number → Number
next_number number (err e) rest = stops e
next_number number (ok true) rest = number_is number
next_number number (ok false) rest = rest

module _ {E : Type 0} (calls : Calls) (entries : Entries E) (stem : Text) where
  unfoldable pub free_number : ℕ → ℕ → Number
  free_number zero number = no_rounds
  free_number (suc fuel) number =
      let rest = free_number fuel (number + 1) in
      next_number number
        (both_free (entry_exists calls entries (failed_name stem number))
          (entry_exists calls entries (failed_meta_name stem number)))
        rest

-- `sync_directory`, and the record.
abbrev pub synced : Calls → Text → Text → Result RecoveryError RecoveryRecord
synced calls detail failed = if calls.syncs then ok (quarantined failed detail) else io_error

module _ {E : Type 0} (calls : Calls) (detail : Text) where
  -- The metadata is moved last; where that fails, the source is moved back.
  abbrev pub move_metadata :
      Text
      → Text
      → Text
      → Text
      → Bool
      → Bool
      → Entries E
      → Result RecoveryError RecoveryRecord × Entries E
  move_metadata source metadata failed failed_meta source_exists metadata_exists entries =
      if not metadata_exists
      then (synced calls detail failed, entries)
      else if calls.moves_metadata
      then (synced calls detail failed, move metadata failed_meta entries)
      else if not source_exists
      then (io_error, entries)
      else (io_error, if calls.moves_back then move failed source entries else entries)

  abbrev pub move_both :
      Text
      → Text
      → Text
      → Text
      → Result RecoveryError Bool
      → Result RecoveryError Bool
      → Entries E
      → Result RecoveryError RecoveryRecord × Entries E
  move_both source metadata failed failed_meta (err e) second entries = (err e, entries)
  move_both source metadata failed failed_meta (ok s) (err e) entries = (err e, entries)
  move_both source metadata failed failed_meta (ok false) (ok m) entries =
      move_metadata source metadata failed failed_meta false m entries
  move_both source metadata failed failed_meta (ok true) (ok m) entries =
      if calls.moves_source
      then move_metadata source metadata failed failed_meta true m (move source failed entries)
      else (io_error, entries)

  abbrev pub quarantine_as :
      Text
      → Text
      → Text
      → Entries E
      → Number
      → Option (Result RecoveryError RecoveryRecord × Entries E)
  quarantine_as stem source metadata entries no_rounds = none
  quarantine_as stem source metadata entries (stops e) = some (err e, entries)
  quarantine_as stem source metadata entries (number_is n) = some (
      move_both source metadata (failed_name stem n) (failed_meta_name stem n)
        (entry_exists calls entries source) (entry_exists calls entries metadata) entries)

  -- `quarantine`, with a bound on the rounds of its search; `none` where they run out.
  unfoldable pub quarantine :
      ℕ → Text → Text → Entries E → Option (Result RecoveryError RecoveryRecord × Entries E)
  quarantine fuel source metadata entries =
      let stem = stem_or (strip_suffix (codes ".incomplete") source) in
      quarantine_as stem source metadata entries (free_number calls entries stem fuel 0)
