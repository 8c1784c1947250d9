-- ===== src/Journal/Acknowledges.antt =====
-- What a valid receipt says of the local files.
use solstone_tmux.Base.{
  Bool, true, false, not, ◌≡◌, refl, sym, ap, ◌∙◌, inl, inr, List, [], ◌∷◌, Text, codes, Option,
  none, some, Bool-cases, Map, Result, ok, err, get, insert, get-insert, length, map, any, All,
  All-mono, ltb, text_eq, text_eq_iff, is_some, refuse_if, arith, ◌>>◌,
}
use solstone_tmux.Journal.{
  AcknowledgedFile, ParsedDescriptor, LocalFile, UploadResult, valid, ReceiptFault, acknowledge,
  acknowledge_one, check_descriptors, assess_descriptors, conclude, assess_reported, assess_receipt,
  is_refused, receipt_of,
}
use solstone_tmux.Journal.Collect.{
  collect, has_text, has_duplicate, has_duplicate-IsDistinct, IsDistinct, collect_other,
  collect-All,
}

-- `d` says of `file` that the journal holds it: its size and its digest, and that it was written.
pub record IsFor (file : LocalFile) (d : AcknowledgedFile) : Type 0 where
  pub named : d.submitted ≡ file.name
  pub size : d.size ≡ file.size
  pub digest : d.sha256 ≡ file.sha256
  pub kept : text_eq d.disposition (codes "received_not_written") ≡ false

abbrev pub submitted : AcknowledgedFile → Text
submitted d = d.submitted

abbrev pub Matched : Map LocalFile → AcknowledgedFile → Type 0
Matched m d =
    (file : LocalFile) × (get d.submitted m ≡ some file)
    × (d.size ≡ file.size)
    × (d.sha256 ≡ file.sha256)

acknowledge_one-ok :
    (o : Option LocalFile) (d : AcknowledgedFile)
    (rest : Option (Result ReceiptFault (List AcknowledgedFile)))
    (acknowledged : List AcknowledgedFile)
    → acknowledge_one o d rest ≡ some (ok acknowledged)
    → ((file : LocalFile) × (o ≡ some file) × (d.size ≡ file.size) × (d.sha256 ≡ file.sha256))
      × ((ds : List AcknowledgedFile) × (rest ≡ some (ok ds)) × (acknowledged ≡ d ∷ ds))
unfolding acknowledge_one
acknowledge_one-ok none d rest acknowledged h = ground (arith, h)
acknowledge_one-ok (some file) d none acknowledged h = ground (arith, h)
acknowledge_one-ok (some file) d (some (err fault)) acknowledged h = ground (arith, h)
acknowledge_one-ok (some file) d (some (ok ds)) acknowledged h = (
  (file, refl, ground (arith, h), ground (arith, h, text_eq_iff d.sha256 file.sha256)),
  (ds, refl, ground (arith, h)),
)

acknowledge_lem :
    (m : Map LocalFile) (ds acknowledged : List AcknowledgedFile)
    → acknowledge m ds ≡ some (ok acknowledged)
    → (acknowledged ≡ ds) × All (Matched m) ds
unfolding acknowledge
acknowledge_lem m [] acknowledged h = (ground (arith, h), tt)
acknowledge_lem m (d ∷ ds) acknowledged h =
    let (found, tail) =
      acknowledge_one-ok (get d.submitted m) d (acknowledge m ds) acknowledged h in
    let (rest, e, same) = tail in
    let (equal, all_rest) = acknowledge_lem m ds rest e in
    (same ∙ ap (λ x. d ∷ x) equal, (found, all_rest))

-- What an entry of the list says holds of the entry that its name finds.
find-All {κ} :
    (P : AcknowledgedFile → Type κ) (m : Map AcknowledgedFile) (ds : List AcknowledgedFile)
    (k : Text)
    → All P ds
    → IsDistinct (map submitted ds)
    → has_text k (map submitted ds) ≡ true
    → (d : AcknowledgedFile) × (get k (collect submitted m ds) ≡ some d) × (d.submitted ≡ k) × P d
unfolding collect has_text
find-All P m [] k a i h = ground (arith, h)
find-All P m (d ∷ ds) k a i h = elim (Bool-cases (text_eq k d.submitted)) [
  | inl e ↦
      let same : d.submitted ≡ k = sym ((text_eq_iff k d.submitted).0 e) in
      (
        d,
        collect_other submitted k (insert d.submitted d m) ds (rw⁻¹ same (i.0))
            ∙ (get-insert d.submitted k d m ∙ ground (arith, text_eq_iff d.submitted k, same)),
        same,
        a.0,
      )
  | inr e ↦ find-All P (insert d.submitted d m) ds k a.1 i.1 (ground (arith, e, h))
]

-- The checks that pass.
pub record Passes (m : Map LocalFile) (ds : List AcknowledgedFile) (files : List LocalFile)
    : Type 0 where
  pub distinct : has_duplicate [] (map submitted ds) ≡ false
  pub kept : any (λ d. text_eq d.disposition (codes "received_not_written")) ds ≡ false
  pub present : any (λ d. not (is_some (get d.submitted m))) ds ≡ false
  pub covered : any (λ file. not (has_text file.name (map submitted ds))) files ≡ false
  pub equal : length ds ≡ length files

refuse_if-ok :
    {E A : Type 0} (b : Bool) (e : E) (r : Result E A) (a : A)
    → (refuse_if b e >> r) ≡ ok a
    → (b ≡ false) × (r ≡ ok a)
refuse_if-ok true e r a h = ground (arith, h)
refuse_if-ok false e r a h = (refl, h)

refuse_if-last : {E : Type 0} (b : Bool) (e : E) → refuse_if b e ≡ ok tt → b ≡ false
refuse_if-last true e h = ground (arith, h)
refuse_if-last false e h = refl

check_descriptors-Passes :
    (m : Map LocalFile) (ds : List AcknowledgedFile) (files : List LocalFile)
    → check_descriptors m ds files ≡ ok tt
    → Passes m ds files
unfolding check_descriptors
check_descriptors-Passes m ds files h =
    let (a, h1) = refuse_if-ok (has_duplicate [] (map submitted ds)) _ _ tt h in
    let (b, h2) =
      refuse_if-ok (any (λ d. text_eq d.disposition (codes "received_not_written")) ds) _ _ tt h1 in
    let (c, h3) = refuse_if-ok (ltb (length files) (length ds)) _ _ tt h2 in
    let (d, h4) = refuse_if-ok (ltb (length ds) (length files)) _ _ tt h3 in
    let (e, h5) = refuse_if-ok (any (λ d. not (is_some (get d.submitted m))) ds) _ _ tt h4 in
    record {
      distinct = a;
      kept = b;
      present = e;
      covered = refuse_if-last _ _ h5;
      equal = ground (arith, c, d);
    }

any-All :
    {A : Type 0} (test : A → Bool) (xs : List A)
    → any test xs ≡ false
    → All (λ x. test x ≡ false) xs
any-All test [] h = tt
any-All test (x ∷ xs) h = (ground (arith, h), any-All test xs (ground (arith, h)))

All-both :
    {A : Type 0} (P Q : A → Type 0) (xs : List A) → All P xs → All Q xs → All (λ x. P x × Q x) xs
All-both P Q [] p q = tt
All-both P Q (x ∷ xs) p q = ((p.0, q.0), All-both P Q xs (p.1) (q.1))

abbrev by_name : List LocalFile → Map LocalFile
by_name files = collect (λ file. file.name) [] files

-- How each local file is acknowledged: the entry of its name is for it.
abbrev pub IsAcknowledged : List AcknowledgedFile → LocalFile → Type 0
IsAcknowledged acknowledged file =
    (d : AcknowledgedFile) × (get file.name (collect submitted [] acknowledged) ≡ some d)
    × IsFor file d

abbrev Kept : AcknowledgedFile → Type 0
Kept d = text_eq d.disposition (codes "received_not_written") ≡ false

IsAcknowledged-one :
    (files : List LocalFile) (ds : List AcknowledgedFile)
    → All (λ d. Matched (by_name files) d × Kept d) ds
    → IsDistinct (map submitted ds)
    → (file : LocalFile)
    → (get file.name (by_name files) ≡ some file)
      × (not (has_text file.name (map submitted ds)) ≡ false)
    → IsAcknowledged ds file
IsAcknowledged-one files ds a i file (here, t) =
    let (d, found, name, both) =
      find-All (λ d. Matched (by_name files) d × Kept d) [] ds file.name a i (ground (arith, t)) in
    let ((other, is, size, digest), kept) = both in
    let same : other ≡ file = cc in
    (
      d,
      found,
      record {
        named = name;
        size = size ∙ ap (λ f. f.size) same;
        digest = digest ∙ ap (λ f. f.sha256) same;
        kept = kept;
      },
    )

conclude-valid :
    (c : Result ReceiptFault (Unit {0})) (r : Option (Result ReceiptFault (List AcknowledgedFile)))
    (acknowledged : List AcknowledgedFile)
    → conclude c (receipt_of r) ≡ some (valid acknowledged)
    → (c ≡ ok tt) × (r ≡ some (ok acknowledged))
unfolding conclude
conclude-valid (err fault) r a h = ground (arith, h)
conclude-valid (ok tt) none a h = ground (arith, h)
conclude-valid (ok tt) (some (err fault)) a h = ground (arith, h)
conclude-valid (ok tt) (some (ok ds)) a h = (refl, ground (arith, h))

-- The descriptors of a valid receipt, as they are acknowledged.
pub record IsReceipt (ds : List ParsedDescriptor) (files : List LocalFile) : Type 0 where
  pub equal : length ds ≡ length files
  pub distinct : IsDistinct (map submitted ds)
  pub covers : All (IsAcknowledged ds) files

assess_descriptors-valid :
    (ds : List AcknowledgedFile) (files : List LocalFile) (acknowledged : List AcknowledgedFile)
    → IsDistinct (map (λ file. file.name) files)
    → assess_descriptors ds files ≡ some (valid acknowledged)
    → (acknowledged ≡ ds) × IsReceipt ds files
unfolding assess_descriptors
assess_descriptors-valid ds files acknowledged i h =
    let (checked, listed) = conclude-valid _ _ acknowledged h in
    let p = check_descriptors-Passes (by_name files) ds files checked in
    let (same, matched) = acknowledge_lem (by_name files) ds acknowledged listed in
    let distinct = has_duplicate-IsDistinct [] (map submitted ds) p.distinct in
    let each = All-both (Matched (by_name files)) Kept ds matched (any-All _ ds p.kept) in
    let covers = All-mono _ (IsAcknowledged ds) (IsAcknowledged-one files ds each distinct) files (
      All-both _ _ files (collect-All (λ file. file.name) [] files i)
        (any-All _ files p.covered)) in
    (same, record { equal = p.equal; distinct = distinct; covers = covers })

assess_reported-valid :
    (o : Option (Result ReceiptFault (List AcknowledgedFile))) (files : List LocalFile)
    (acknowledged : List AcknowledgedFile)
    → IsDistinct (map (λ file. file.name) files)
    → assess_reported o files ≡ some (valid acknowledged)
    → (o ≡ some (ok acknowledged)) × IsReceipt acknowledged files
unfolding assess_reported
assess_reported-valid none files a i h = ground (arith, h)
assess_reported-valid (some (err fault)) files a i h = ground (arith, h)
assess_reported-valid (some (ok ds)) files a i h =
    let (same, r) = assess_descriptors-valid ds files a i h in
    (ap (λ x. some (ok x)) (sym same), rw same r)

-- A receipt is taken for valid only if the upload was accepted and lists, once each, exactly the
-- files that were sent: each of them with its size and its digest, and none as received but not
-- written. File names are distinct, as those of one directory are.
pub assess_receipt-valid :
    (result : UploadResult) (files : List LocalFile) (acknowledged : List AcknowledgedFile)
    → IsDistinct (map (λ file. file.name) files)
    → assess_receipt result files ≡ some (valid acknowledged)
    → (is_refused result.status ≡ false)
      × (result.descriptors ≡ some (ok acknowledged))
      × IsReceipt acknowledged files
unfolding assess_receipt
assess_receipt-valid result files acknowledged i h = elim (Bool-cases (is_refused result.status)) [
  | inl e ↦ ground (arith, h, e)
  | inr e ↦
      let reported : assess_reported result.descriptors files ≡ some (valid acknowledged) =
        ground (arith, h, e) in
      let both = assess_reported-valid result.descriptors files acknowledged i reported in
      (e, both.0, both.1)
]
