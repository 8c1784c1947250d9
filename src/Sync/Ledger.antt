-- ===== src/Sync/Ledger.antt =====
-- What is acknowledged, written and read again.
use solstone_tmux.Base.{
  ℕ, text_eq_refl, insert, get-insert, subst, All-mono, Bool, true, false, not, ◌≡◌, refl, sym, ap,
  ◌∙◌, List, [], ◌∷◌, Text, Option, none, some, Map, get, map, all, All, text_eq, text_eq_iff,
  arith, if◌then◌else◌,
}
use solstone_tmux.Journal.{
  AcknowledgedFile, LocalFile, UploadResult, valid, assess_receipt, is_known,
}
use solstone_tmux.Journal.Collect.{collect, has_duplicate, has_text, IsDistinct}
use solstone_tmux.Journal.Acknowledges.{submitted, IsAcknowledged, IsReceipt, assess_receipt-valid}
use solstone_tmux.Sync.{
  SegmentCandidate, JournalIdentity, Store, IsStore, candidate_ledger_dir, ack_path, is_of,
  matches_local, files_valid, accept_ack_record, read_ack_record, ack_record_of, write_ack_record,
  write_printed, and_then,
}

all-All :
    {A : Type 0} (test : A → Bool) (xs : List A) → All (λ x. test x ≡ true) xs → all test xs ≡ true
all-All test [] h = refl
all-All test (x ∷ xs) h = ground (arith, h.0, all-All test xs (h.1))

unseen-next :
    (t : Text) (seen rest : List Text)
    → has_text t rest ≡ false
    → All (λ u. has_text u seen ≡ false) rest
    → All (λ u. has_text u (t ∷ seen) ≡ false) rest
unfolding has_text
unseen-next t seen [] a b = tt
unseen-next t seen (u ∷ rest) a b = (
  ground (arith, a, b.0, text_eq_iff t u, text_eq_iff u t),
  unseen-next t seen rest (ground (arith, a)) (b.1),
)

has_duplicate-unseen :
    (seen names : List Text)
    → IsDistinct names
    → All (λ t. has_text t seen ≡ false) names
    → has_duplicate seen names ≡ false
unfolding has_duplicate
has_duplicate-unseen seen [] d u = refl
has_duplicate-unseen seen (t ∷ names) d u =
    ground (
      arith,
      u.0,
      has_duplicate-unseen (t ∷ seen) names (d.1) (unseen-next t seen names (d.0) (u.1)),
    )

-- The dispositions that `parse_descriptor_shape` lets through.
abbrev pub Known : AcknowledgedFile → Type 0
Known d = is_known d.disposition ≡ true

matches_local-true :
    (files : List AcknowledgedFile)
    → ((k : Text) (d : AcknowledgedFile) → get k (collect submitted [] files) ≡ some d → Known d)
    → (local : LocalFile) → IsAcknowledged files local
    → matches_local local (get local.name (collect submitted [] files)) ≡ true
unfolding matches_local
matches_local-true files known local (d, found, is) = rw found (
    ground (
      arith,
      is.size,
      is.digest,
      is.kept,
      known local.name d found,
      text_eq_iff d.sha256 local.sha256,
    ))

some-injective : {A : Type 0} {a b : A} → some a ≡ some b → a ≡ b
some-injective {a = a} e = ap (λ o. elim o [ none ↦ a | some x ↦ x ]) e

-- Every entry of a map that is collected comes from the list or from the map before.
collect-from :
    (P : AcknowledgedFile → Type 0) (m : Map AcknowledgedFile) (files : List AcknowledgedFile)
    → All P files
    → ((k : Text) (d : AcknowledgedFile) → get k m ≡ some d → P d)
    → (k : Text) (d : AcknowledgedFile) → get k (collect submitted m files) ≡ some d
    → P d
unfolding collect
collect-from P m [] a h k d e = h k d e
collect-from P m (x ∷ xs) a h k d e = collect-from P (insert x.submitted x m) xs (a.1) next k d e
  where
    next : (j : Text) (c : AcknowledgedFile) → get j (insert x.submitted x m) ≡ some c → P c
    next j c q = either (text_eq x.submitted j) (sym (get-insert x.submitted j x m) ∙ q)
      where
        either : (b : Bool) → (if b then some x else get j m) ≡ some c → P c
        either true r = subst P (some-injective r) a.0
        either false r = h j c r

pub files_valid-IsReceipt :
    (files : List AcknowledgedFile) (local_files : List LocalFile)
    → IsReceipt files local_files
    → All Known files
    → files_valid files local_files ≡ true
unfolding files_valid get
files_valid-IsReceipt files local_files r known = all-All _ local_files (
    All-mono _ _
      (matches_local-true files (collect-from Known [] files known λ k d e. ground (arith, e)))
      local_files r.covers)

seen_nothing : (names : List Text) → All (λ t. has_text t [] ≡ false) names
unfolding has_text
seen_nothing [] = tt
seen_nothing (t ∷ names) = (refl, seen_nothing names)

is_of-ack_record_of :
    (root : Text) (candidate : SegmentCandidate) (identity : JournalIdentity) (key : Text)
    (files : List AcknowledgedFile)
    → is_of
        (ack_record_of root candidate identity key files)
        (ack_path root candidate)
        candidate
        identity
      ≡ true
unfolding is_of ack_record_of text_eq
is_of-ack_record_of root candidate identity key files =
    rw
      (
        text_eq_refl (ack_path root candidate),
        text_eq_refl candidate.day,
        text_eq_refl candidate.stream,
        text_eq_refl candidate.segment,
        text_eq_refl identity.instance_id,
        text_eq_refl identity.ca_fp_prefix_hex,
        text_eq_refl identity.pairing_generation_hex,
      )
      refl

ack_record_of-files :
    (root : Text) (candidate : SegmentCandidate) (identity : JournalIdentity) (key : Text)
    (files : List AcknowledgedFile)
    → (ack_record_of root candidate identity key files).files ≡ files
unfolding ack_record_of
ack_record_of-files root candidate identity key files = refl

accept_ack_record-IsReceipt :
    {L : Type 0} (store : Store L) (root : Text) (candidate : SegmentCandidate)
    (identity : JournalIdentity) (key : Text) (files : List AcknowledgedFile)
    (local_files : List LocalFile) (l : L)
    → IsReceipt files local_files
    → All Known files
    → accept_ack_record store
        (ack_path root candidate)
        candidate
        identity
        local_files
        l
        (ack_record_of root candidate identity key files)
      ≡ (some (ack_record_of root candidate identity key files), l)
unfolding accept_ack_record
accept_ack_record-IsReceipt store root candidate identity key files local_files l r known =
    let a = is_of-ack_record_of root candidate identity key files in
    let b =
      has_duplicate-unseen [] (map submitted files) r.distinct
        (seen_nothing (map submitted files)) in
    let c = files_valid-IsReceipt files local_files r known in
    rw (a, ack_record_of-files root candidate identity key files, b, c) refl

write_printed-true :
    {L : Type 0} (store : Store L) (path : Text) (made : Bool) (printed : Option (List ℕ)) (l : L)
    → (if not made then (false, l) else write_printed store path printed l).0 ≡ true
    → (bytes : List ℕ) × (printed ≡ some bytes)
      × ((if not made then (false, l) else write_printed store path printed l)
          ≡ store.atomic_write_bytes path bytes l)
unfolding write_printed
write_printed-true store path false printed l h = ground (arith, h)
write_printed-true store path true none l h = ground (arith, h)
write_printed-true store path true (some bytes) l h = (bytes, refl, refl)

write_ack_record-true :
    {L : Type 0} (store : Store L) (law : IsStore store) (root : Text)
    (candidate : SegmentCandidate) (identity : JournalIdentity) (key : Text)
    (files : List AcknowledgedFile) (l : L)
    → let (done, l') = write_ack_record store root candidate identity key files l in
      done ≡ true
      → and_then (store.read (ack_path root candidate) l') store.parse
        ≡ some (ack_record_of root candidate identity key files)
unfolding write_ack_record
write_ack_record-true store law root candidate identity key files l h =
    let path = ack_path root candidate in
    let (made, l') = store.ensure_private_directory (candidate_ledger_dir root candidate) l in
    let (bytes, printed, same) =
      write_printed-true store path made
        (store.print (ack_record_of root candidate identity key files)) l' h in
    let done : (store.atomic_write_bytes path bytes l').0 ≡ true = ap (λ p. p.0) (sym same) ∙ h in
    let read : store.read path (write_ack_record store root candidate identity key files l).1
        ≡ some bytes =
      ap (λ p. store.read path p.1) same ∙ law.reads path bytes l' done in
    ap (λ o. and_then o store.parse) read ∙ law.parses _ bytes printed

-- The record that is written of a valid receipt, when its write succeeds, is accepted when it is read
-- for the same candidate, journal and files, and stays where it is. The store reads what it wrote,
-- names of files are distinct, and the dispositions those that a descriptor may have.
pub read_ack_record-written :
    {L : Type 0} (store : Store L) (root : Text) (candidate : SegmentCandidate)
    (identity : JournalIdentity) (key : Text) (result : UploadResult)
    (files : List AcknowledgedFile) (local_files : List LocalFile) (l : L)
    → IsStore store
    → IsDistinct (map (λ file. file.name) local_files)
    → All Known files
    → assess_receipt result local_files ≡ some (valid files)
    → (write_ack_record store root candidate identity key files l).0 ≡ true
    → let l' = (write_ack_record store root candidate identity key files l).1 in
      read_ack_record store root candidate identity local_files l'
      ≡ (some (ack_record_of root candidate identity key files), l')
unfolding read_ack_record
read_ack_record-written store root candidate identity key result files local_files l law distinct
      known assessed done =
    let (a, b, r) = assess_receipt-valid result local_files files distinct assessed in
    let e = write_ack_record-true store law root candidate identity key files l done in
    let kept =
      accept_ack_record-IsReceipt store root candidate identity key files local_files
        (write_ack_record store root candidate identity key files l).1 r known in
    simp (e, read_ack_record) kept
