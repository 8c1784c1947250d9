-- ===== src/Recovery/Removals.antt =====
-- The removal of an empty segment and a quarantine of native/solstone-tmux/src/recovery.rs at concrete
-- directories.
use solstone_tmux.Base.{
  ℕ, ◌≡◌, refl, true, false, List, [], ◌∷◌, Text, codes, none, some, Result, ok, text_eq, decimal,
  if◌then◌else◌,
}
use solstone_tmux.Recovery.Validate.{RecoveryError}
use solstone_tmux.Recovery.Repair.{Files}
use solstone_tmux.Recovery.Empty.{
  Sighting, ValidatedEmptyFile, validate_entries, validated_empty_files,
  remove_validated_empty_files,
}
use solstone_tmux.Recovery.Empty.Safe.{Removal, remove_validated_empty_files-Removal}
use solstone_tmux.Recovery.Report.{RecoveryRecord}
use solstone_tmux.Recovery.Quarantine.{Entries, Calls, failed_name, failed_meta_name, quarantine}
use solstone_tmux.Recovery.Quarantine.Ends.{source_of, metadata_of, IsQuarantine, quarantine-ends}

abbrev name : Text
name = codes "tmux_a_screen.jsonl"

abbrev sighting : Result RecoveryError Sighting
sighting = ok (record {
  name = name;
  inspected = ok (record { is_plain_file = true; device = 1; inode = 42; length = 0 });
})

abbrev validated : List ValidatedEmptyFile
validated = record { path = name; device = 1; inode = 42; length = 0 } ∷ []

abbrev empty_file : Files
empty_file other = if text_eq name other then some [] else none

validated_one : validated_empty_files (ok (sighting ∷ [])) ≡ ok (some validated)
unfolding validated_empty_files validate_entries
validated_one = refl

remove_validated_empty_files-Removal_example :
    let p = remove_validated_empty_files 5 validated (ok (sighting ∷ [])) empty_file in
    Removal validated (sighting ∷ []) empty_file p.1 p.0
remove_validated_empty_files-Removal_example =
    remove_validated_empty_files-Removal (ok (sighting ∷ [])) validated 5 (sighting ∷ []) empty_file
      validated_one

-- The first quarantine's names are taken, and the metadata cannot be moved.
abbrev stream : Entries ℕ
stream other =
    if text_eq (codes "120000.incomplete") other
    then some 1
    else if text_eq (codes "120000.incomplete.meta") other
    then some 2
    else if text_eq (codes "120000.failed") other
    then some 3
    else none

abbrev detail : Text
detail = codes "contradictory metadata"

abbrev half : Calls
half = record {
  inspects = λ other. true;
  moves_source = true;
  moves_metadata = false;
  moves_back = true;
  syncs = true;
}

quarantine-ends_example :
    (p : Result RecoveryError RecoveryRecord × Entries ℕ) × (quarantine half detail 2
        (source_of (codes "120000"))
        (metadata_of (codes "120000"))
        stream
      ≡ some p)
    × IsQuarantine half detail stream (codes "120000") p
unfolding failed_name failed_meta_name text_eq decimal
quarantine-ends_example = quarantine-ends half detail stream (codes "120000") 1 (refl, refl)
