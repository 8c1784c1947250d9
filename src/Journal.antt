-- ===== src/Journal.antt =====
-- native/solstone-tmux/src/journal.rs: what the journal answers to an upload, and whether it
-- acknowledges the files that were sent.
pub mod Collect
pub mod Acknowledges
pub mod Tests
use solstone_tmux.Base.{
  ℕ, Bool, true, false, not, ◌&&◌, ◌||◌, List, [], ◌∷◌, Text, codes, Option, none, some, Map,
  Result, ok, err, ◌>>=◌, ◌>>◌, refuse_if, get, insert, length, map, all, any, ltb, ◌==◌, text_eq,
  is_some, is_ascii_digit, is_ascii_uppercase, if◌then◌else◌,
}
use solstone_tmux.Name.{derive_component, DerivedName}
use solstone_tmux.Journal.Collect.{collect, has_text, has_duplicate}

pub data UploadStatus : Type 0 where
  accepted duplicate collision conflict failed : UploadStatus

pub data ReceiptFault : Type 0 where
  descriptors_absent malformed_descriptor duplicate_submitted : ReceiptFault
  missing_descriptor extra_descriptor : ReceiptFault
  sha256_mismatch sha256_encoding size_mismatch : ReceiptFault
  unknown_disposition missing_disposition received_not_written upload_not_acknowledged :
      ReceiptFault

-- `ParsedDescriptor` and `AcknowledgedFile` have the same fields.
pub record AcknowledgedFile : Type 0 where
  pub submitted : Text
  pub written : Text
  pub size : ℕ
  pub sha256 : Text
  pub disposition : Text

abbrev pub ParsedDescriptor : Type 0
ParsedDescriptor = AcknowledgedFile

pub record LocalFile : Type 0 where
  pub name : Text
  pub size : ℕ
  pub sha256 : Text

pub record UploadResult : Type 0 where
  pub status : UploadStatus
  pub authoritative_key : Option Text
  pub descriptors : Option (Result ReceiptFault (List ParsedDescriptor))

pub data Receipt : Type 0 where
  absent : Receipt
  invalid : ReceiptFault → Receipt
  valid : List AcknowledgedFile → Receipt

-- What is used of `serde_json::Value`.
pub record JsonValue (V : Type 0) : Type 0 where
  pub as_array : V → Option (List V)
  pub as_object : V → Option (Map V)
  pub as_str : V → Option Text
  pub as_u64 : V → Option ℕ

abbrev pub ok_or {ℓ} : {E A : Type ℓ} → E → Option A → Result E A
ok_or e none = err e
ok_or e (some a) = ok a

abbrev and_then : {A B : Type 0} → Option A → (A → Option B) → Option B
and_then none f = none
and_then (some a) f = f a

abbrev pub is_hex_digit : ℕ → Bool
is_hex_digit c = is_ascii_digit c || (not (ltb c 97) && ltb c 103) || (not (ltb c 65) && ltb c 71)

abbrev pub is_known : Text → Bool
is_known disposition =
    text_eq disposition (codes "written")
    || text_eq disposition (codes "already_held")
    || text_eq disposition (codes "received_not_written")

module _ {V : Type 0} (json : JsonValue V) where
  unfoldable pub parse_descriptor : V → Result ReceiptFault ParsedDescriptor
  parse_descriptor item = do
    obj ← ok_or malformed_descriptor (json.as_object item)
    submitted ← ok_or malformed_descriptor (and_then (get (codes "submitted") obj) json.as_str)
    written ← ok_or malformed_descriptor (and_then (get (codes "written") obj) json.as_str)
    size ← ok_or malformed_descriptor (and_then (get (codes "size") obj) json.as_u64)
    sha256 ← ok_or malformed_descriptor (and_then (get (codes "sha256") obj) json.as_str)
    refuse_if (not (length sha256 == 64) || not (all is_hex_digit sha256)) malformed_descriptor
    refuse_if (any is_ascii_uppercase sha256) sha256_encoding
    disposition_val ← ok_or missing_disposition (get (codes "disposition") obj)
    disposition ← ok_or malformed_descriptor (json.as_str disposition_val)
    refuse_if (not (is_known disposition)) unknown_disposition
    ok (record {
      submitted = submitted;
      written = written;
      size = size;
      sha256 = sha256;
      disposition = disposition;
    })

  unfoldable pub parse_descriptors : List V → Result ReceiptFault (List ParsedDescriptor)
  parse_descriptors [] = ok []
  parse_descriptors (item ∷ items) = do
    d ← parse_descriptor item
    ds ← parse_descriptors items
    ok (d ∷ ds)

  unfoldable pub parse_descriptor_shape : V → Result ReceiptFault (List ParsedDescriptor)
  parse_descriptor_shape val = do
    items ← ok_or malformed_descriptor (json.as_array val)
    parse_descriptors items

-- `UploadStatus::Conflict | UploadStatus::Failed`
unfoldable pub is_refused : UploadStatus → Bool
is_refused conflict = true
is_refused failed = true
is_refused s = false

-- A turn of the last loop of `assess_receipt`, by what the index finds and the turns behind it;
-- `none` is the panic of an index that is not there.
unfoldable pub acknowledge_one :
    Option LocalFile
    → ParsedDescriptor
    → Option (Result ReceiptFault (List AcknowledgedFile))
    → Option (Result ReceiptFault (List AcknowledgedFile))
acknowledge_one none d rest = none
acknowledge_one (some file) d rest =
    if not (d.size == file.size)
    then some (err size_mismatch)
    else if not (text_eq d.sha256 file.sha256)
    then some (err sha256_mismatch)
    else elim rest [
      | none ↦ none
      | some (err fault) ↦ some (err fault)
      | some (ok acknowledged) ↦ some (ok (d ∷ acknowledged))
    ]

unfoldable pub acknowledge :
    Map LocalFile → List ParsedDescriptor → Option (Result ReceiptFault (List AcknowledgedFile))
acknowledge local_by_name [] = some (ok [])
acknowledge local_by_name (d ∷ ds) =
    acknowledge_one (get d.submitted local_by_name) d (acknowledge local_by_name ds)

-- The refusals of `assess_receipt` before its last loop.
unfoldable pub check_descriptors :
    Map LocalFile → List ParsedDescriptor → List LocalFile → Result ReceiptFault (Unit {0})
check_descriptors local_by_name ds local_files = do
  refuse_if (has_duplicate [] (map (λ d. d.submitted) ds)) duplicate_submitted
  refuse_if (any (λ d. text_eq d.disposition (codes "received_not_written")) ds)
      received_not_written
  refuse_if (ltb (length local_files) (length ds)) extra_descriptor
  refuse_if (ltb (length ds) (length local_files)) missing_descriptor
  refuse_if (any (λ d. not (is_some (get d.submitted local_by_name))) ds) extra_descriptor
  refuse_if (any (λ file. not (has_text file.name (map (λ d. d.submitted) ds))) local_files)
      missing_descriptor

abbrev pub receipt_of : Option (Result ReceiptFault (List AcknowledgedFile)) → Option Receipt
receipt_of none = none
receipt_of (some (err fault)) = some (invalid fault)
receipt_of (some (ok acknowledged)) = some (valid acknowledged)

-- `Receipt` by what the checks said and what the last loop gave.
unfoldable pub conclude : Result ReceiptFault (Unit {0}) → Option Receipt → Option Receipt
conclude (err fault) receipt = some (invalid fault)
conclude (ok checked) receipt = receipt

unfoldable pub assess_descriptors : List ParsedDescriptor → List LocalFile → Option Receipt
assess_descriptors ds local_files =
    let local_by_name = collect (λ file. file.name) [] local_files in
    conclude (check_descriptors local_by_name ds local_files)
      (receipt_of (acknowledge local_by_name ds))

unfoldable pub assess_reported :
    Option (Result ReceiptFault (List ParsedDescriptor)) → List LocalFile → Option Receipt
assess_reported none local_files = some absent
assess_reported (some (err fault)) local_files = some (invalid fault)
assess_reported (some (ok ds)) local_files = assess_descriptors ds local_files

unfoldable pub assess_receipt : UploadResult → List LocalFile → Option Receipt
assess_receipt result local_files =
    if is_refused result.status
    then some (invalid upload_not_acknowledged)
    else assess_reported result.descriptors local_files
