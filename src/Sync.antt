-- ===== src/Sync.antt =====
-- native/solstone-tmux/src/sync.rs: the record of an acknowledged segment, written after an upload
-- and read before the next.
pub mod Ledger
pub mod Backoff
pub mod Segments
mod Tests
use solstone_tmux.Base.{
  ◌≡◌, ℕ, Bool, true, false, not, ◌&&◌, ◌||◌, List, [], ◌∷◌, ◌++◌, Text, codes, Option, none, some,
  Map, Result, ok, err, get, map, all, text_eq, ◌==◌, if◌then◌else◌,
}
use solstone_tmux.Journal.{AcknowledgedFile, LocalFile}
use solstone_tmux.Journal.Collect.{collect, has_duplicate}

pub record SegmentCandidate : Type 0 where
  pub day : Text
  pub stream : Text
  pub segment : Text

pub record JournalIdentity : Type 0 where
  pub instance_id : Text
  pub ca_fp_prefix_hex : Text
  pub pairing_generation_hex : Text

pub record AckRecord : Type 0 where
  pub location : Text
  pub day : Text
  pub stream : Text
  pub segment : Text
  pub stored_key : Text
  pub instance_id : Text
  pub ca_fp_prefix_hex : Text
  pub pairing_generation_hex : Text
  pub proof : Text
  pub files : List AcknowledgedFile

-- The file system with the state `L`, and serde on the records.
pub record Store (L : Type 0) : Type 0 where
  pub ensure_private_directory : Text → L → Bool × L
  pub atomic_write_bytes : Text → List ℕ → L → Bool × L
  pub read : Text → L → Option (List ℕ)
  pub remove_file : Text → L → L
  pub print : AckRecord → Option (List ℕ)
  pub parse : List ℕ → Option AckRecord

-- What is relied on: a write that succeeds is read back, and so is a record that was printed.
pub record IsStore {L : Type 0} (store : Store L) : Type 0 where
  pub reads :
      (path : Text) (bytes : List ℕ) (l : L)
      → (store.atomic_write_bytes path bytes l).0 ≡ true
      → store.read path (store.atomic_write_bytes path bytes l).1 ≡ some bytes
  pub parses :
      (record_ : AckRecord) (bytes : List ℕ)
      → store.print record_ ≡ some bytes
      → store.parse bytes ≡ some record_

unfoldable pub candidate_ledger_dir : Text → SegmentCandidate → Text
candidate_ledger_dir ledger_root candidate =
    ledger_root
    ++ (codes "/"
        ++ (candidate.day ++ (codes "/" ++ (candidate.stream ++ (codes "/" ++ candidate.segment)))))

unfoldable pub ack_path : Text → SegmentCandidate → Text
ack_path ledger_root candidate = candidate_ledger_dir ledger_root candidate ++ codes "/ack.json"

-- Whether the record is of this place, this candidate and this journal.
unfoldable pub is_of : AckRecord → Text → SegmentCandidate → JournalIdentity → Bool
is_of ack location candidate identity =
    text_eq ack.location location
    && text_eq ack.proof (codes "upload")
    && text_eq ack.day candidate.day
    && text_eq ack.stream candidate.stream
    && text_eq ack.segment candidate.segment
    && text_eq ack.instance_id identity.instance_id
    && text_eq ack.ca_fp_prefix_hex identity.ca_fp_prefix_hex
    && text_eq ack.pairing_generation_hex identity.pairing_generation_hex

unfoldable pub matches_local : LocalFile → Option AcknowledgedFile → Bool
matches_local local none = false
matches_local local (some f) =
    (text_eq f.disposition (codes "written") || text_eq f.disposition (codes "already_held"))
    && (f.size == local.size)
    && text_eq f.sha256 local.sha256

unfoldable pub files_valid : List AcknowledgedFile → List LocalFile → Bool
files_valid files local_files =
    let ack_by_submitted = collect (λ f. f.submitted) [] files in
    all (λ local. matches_local local (get local.name ack_by_submitted)) local_files

-- `read_ack_record` on a record that was parsed.
unfoldable pub accept_ack_record :
    {L : Type 0}
    → Store L
    → Text
    → SegmentCandidate
    → JournalIdentity
    → List LocalFile
    → L
    → AckRecord
    → Option AckRecord × L
accept_ack_record store path candidate identity local_files l ack =
    if not (is_of ack path candidate identity)
    then (none, l)
    else if has_duplicate [] (map (λ f. f.submitted) ack.files)
        || not (files_valid ack.files local_files)
    then (none, store.remove_file path l)
    else (some ack, l)

-- The record that `write_ack_record` writes.
unfoldable pub ack_record_of :
    Text → SegmentCandidate → JournalIdentity → Text → List AcknowledgedFile → AckRecord
ack_record_of ledger_root candidate identity stored_key files = record {
  location = ack_path ledger_root candidate;
  day = candidate.day;
  stream = candidate.stream;
  segment = candidate.segment;
  stored_key = stored_key;
  instance_id = identity.instance_id;
  ca_fp_prefix_hex = identity.ca_fp_prefix_hex;
  pairing_generation_hex = identity.pairing_generation_hex;
  proof = codes "upload";
  files = files;
}

abbrev pub and_then : {A B : Type 0} → Option A → (A → Option B) → Option B
and_then none f = none
and_then (some a) f = f a

module _ {L : Type 0} (store : Store L) where
  unfoldable pub read_ack_record :
      Text → SegmentCandidate → JournalIdentity → List LocalFile → L → Option AckRecord × L
  read_ack_record ledger_root candidate identity local_files l =
      let path = ack_path ledger_root candidate in
      elim (and_then (store.read path l) store.parse) [
        | none ↦ (none, l)
        | some ack ↦ accept_ack_record store path candidate identity local_files l ack
      ]

  unfoldable pub write_printed : Text → Option (List ℕ) → L → Bool × L
  write_printed path none l = (false, l)
  write_printed path (some bytes) l = store.atomic_write_bytes path bytes l

  -- The Boolean tells `Ok(())` from `Err(())`.
  unfoldable pub write_ack_record :
      Text → SegmentCandidate → JournalIdentity → Text → List AcknowledgedFile → L → Bool × L
  write_ack_record ledger_root candidate identity stored_key files l =
      let (made, l') =
        store.ensure_private_directory (candidate_ledger_dir ledger_root candidate) l in
      if not made
      then (false, l')
      else write_printed (ack_path ledger_root candidate)
          (store.print (ack_record_of ledger_root candidate identity stored_key files)) l'
