-- ===== src/Recovery/Empty/Again.antt =====
-- What the second look at a directory has found where it sees no change.
use solstone_tmux.Base.{
  ◌+◌, ◌≡◌, refl, subst, inl, inr, true, false, not, ◌||◌, List, [], ◌∷◌, ◌++◌, Text, some, Result,
  ok, err, length, length-append, any, All, All-snoc, Apart, sym, text_eq, text_eq→≡, ◌==◌,
  Bool-cases, Option-cases, Result-cases, arith,
}
use solstone_tmux.Recovery.Validate.{RecoveryError}
use solstone_tmux.Recovery.Empty.{
  Inspected, Sighting, ValidatedEmptyFile, validated_file, validate_entries, find_validated,
  has_changed, check_again,
}
use solstone_tmux.Recovery.Empty.Pigeonhole.{same_path}

-- The entry is the validated file: it has its path, its device and inode, and is an empty plain file.
abbrev pub StillEmpty : ValidatedEmptyFile → Result RecoveryError Sighting → Type 0
StillEmpty v r =
    (entry : Sighting) × (seen : Inspected) × (r ≡ ok entry)
    × (entry.name ≡ v.path)
    × (entry.inspected ≡ ok seen)
    × (seen.is_plain_file ≡ true)
    × (seen.length ≡ 0)
    × (seen.device ≡ v.device)
    × (seen.inode ≡ v.inode)

-- A look at a directory that finds these files, one for each entry.
pub data Looked : List ValidatedEmptyFile → List (Result RecoveryError Sighting) → Type 0 where
  nothing : Looked [] []
  another :
      {v : ValidatedEmptyFile} {r : Result RecoveryError Sighting} {vs : List ValidatedEmptyFile}
      {rs : List (Result RecoveryError Sighting)}
      → StillEmpty v r
      → Looked vs rs
      → Looked (v ∷ vs) (r ∷ rs)

abbrev pub AllEmpty : List ValidatedEmptyFile → Type 0
AllEmpty validated = All (λ v. v.length ≡ 0) validated

pub validate_entries-AllEmpty :
    (entries : List (Result RecoveryError Sighting)) (before validated : List ValidatedEmptyFile)
    → AllEmpty before
    → validate_entries before entries ≡ ok (some validated)
    → AllEmpty validated
unfolding validate_entries
validate_entries-AllEmpty [] before validated a h =
    let same : before ≡ validated = ground (arith, h) in subst AllEmpty same a
validate_entries-AllEmpty (err e ∷ entries) before validated a h = ground (arith, h)
validate_entries-AllEmpty (ok entry ∷ entries) before validated a h =
    elim (Result-cases entry.inspected) [
      | inr (e, f) ↦ ground (arith, h, f)
      | inl (seen, f) ↦ elim (Bool-cases (not seen.is_plain_file || not (seen.length == 0))) [
        | inl b ↦ ground (arith, h, f, b)
        | inr b ↦
            let empty : seen.length ≡ 0 = ground (arith, b) in
            validate_entries-AllEmpty entries (before ++ (validated_file entry.name seen ∷ []))
              validated
              (All-snoc (λ v. v.length ≡ 0) before (validated_file entry.name seen) a empty)
              (ground (arith, h, f, b))
      ]
    ]

find_validated-length :
    (name : Text) (validated : List ValidatedEmptyFile) (v : ValidatedEmptyFile)
    → AllEmpty validated
    → find_validated name validated ≡ some v
    → v.length ≡ 0
unfolding find_validated
find_validated-length name [] v a h = ground (arith, h)
find_validated-length name (w ∷ validated) v a h = elim (Bool-cases (text_eq w.path name)) [
  | inl e ↦
      let same : w ≡ v = ground (arith, h, e) in
      subst (λ (x : ValidatedEmptyFile). x.length ≡ 0) same (a.0)
  | inr e ↦ find_validated-length name validated v (a.1) (ground (arith, h, e))
]

find_validated-path :
    (name : Text) (validated : List ValidatedEmptyFile) (v : ValidatedEmptyFile)
    → find_validated name validated ≡ some v
    → v.path ≡ name
unfolding find_validated
find_validated-path name [] v h = ground (arith, h)
find_validated-path name (w ∷ validated) v h = elim (Bool-cases (text_eq w.path name)) [
  | inl e ↦
      let same : w ≡ v = ground (arith, h, e) in
      subst (λ (x : ValidatedEmptyFile). x.path ≡ name) same (text_eq→≡ w.path name e)
  | inr e ↦ find_validated-path name validated v (ground (arith, h, e))
]

any-snoc :
    (name other : Text) (met : List Text)
    → any (λ m. text_eq m other) (met ++ (name ∷ [])) ≡ false
    → (any (λ m. text_eq m other) met ≡ false) × (text_eq name other ≡ false)
any-snoc name other [] h = (refl, ground (arith, h))
any-snoc name other (m ∷ met) h = elim (Bool-cases (text_eq m other)) [
  | inl e ↦ ground (arith, h, e)
  | inr e ↦ let (a, b) = any-snoc name other met (ground (arith, h, e)) in (ground (arith, a, e), b)
]

any-parted :
    (name : Text) (met : List Text) (vs : List ValidatedEmptyFile)
    → All (λ v. any (λ m. text_eq m v.path) (met ++ (name ∷ [])) ≡ false) vs
    → All (λ v. any (λ m. text_eq m v.path) met ≡ false) vs
      × All (λ (v : ValidatedEmptyFile). text_eq name v.path ≡ false) vs
any-parted name met [] h = (tt, tt)
any-parted name met (v ∷ vs) h =
    let (a, b) = any-snoc name v.path met (h.0) in
    let (as_met, as_name) = any-parted name met vs (h.1) in ((a, as_met), (b, as_name))

-- What a second look that finds no change has found, past the names met before.
pub record IsAgain (validated : List ValidatedEmptyFile)
    (entries : List (Result RecoveryError Sighting)) (met all_met : List Text) : Type 0 where
  pub again : List ValidatedEmptyFile
  pub looked : Looked again entries
  pub found : All (λ v. find_validated v.path validated ≡ some v) again
  pub apart : Apart same_path again
  pub unmet : All (λ v. any (λ m. text_eq m v.path) met ≡ false) again
  pub size : length all_met ≡ length met + length again

-- One more entry, whose name was not met before.
IsAgain-∷ :
    (validated : List ValidatedEmptyFile) (r : Result RecoveryError Sighting)
    (entries : List (Result RecoveryError Sighting)) (met all_met : List Text)
    (v : ValidatedEmptyFile)
    → StillEmpty v r
    → find_validated v.path validated ≡ some v
    → any (λ m. text_eq m v.path) met ≡ false
    → IsAgain validated entries (met ++ (v.path ∷ [])) all_met
    → IsAgain validated (r ∷ entries) met all_met
IsAgain-∷ validated r entries met all_met v still e new rest =
    let parted = any-parted v.path met rest.again rest.unmet in
    record {
      again = v ∷ rest.again;
      looked = another still rest.looked;
      found = (e, rest.found);
      apart = (parted.1, rest.apart);
      unmet = (new, parted.0);
      size = omega (arith, rest.size, length-append met (v.path ∷ []));
    }

pub check_again-IsAgain :
    (validated : List ValidatedEmptyFile) (entries : List (Result RecoveryError Sighting))
    (met all_met : List Text)
    → AllEmpty validated
    → check_again validated met entries ≡ ok (some all_met)
    → IsAgain validated entries met all_met
unfolding check_again
check_again-IsAgain validated [] met all_met a h = record {
  again = [];
  looked = nothing;
  found = tt;
  apart = tt;
  unmet = tt;
  size = ground (arith, h);
}
check_again-IsAgain validated (err e ∷ entries) met all_met a h = ground (arith, h)
check_again-IsAgain validated (ok entry ∷ entries) met all_met a h =
    elim (Option-cases (find_validated entry.name validated)) [
      | inl e ↦ ground (arith, h, e)
      | inr (v, e) ↦ elim (Result-cases entry.inspected) [
        | inr (x, f) ↦ ground (arith, h, e, f)
        | inl (seen, f) ↦ elim (Bool-cases (has_changed met entry.name v seen)) [
          | inl b ↦ ground (arith, h, e, f, b)
          | inr b ↦
              let zero_long = find_validated-length entry.name validated v a e in
              let named : v.path ≡ entry.name = find_validated-path entry.name validated v e in
              let still : StillEmpty v (ok entry) = (
                entry,
                seen,
                refl,
                sym named,
                f,
                ground (arith, b),
                ground (arith, b, zero_long),
                ground (arith, b),
                ground (arith, b),
              ) in
              let new : any (λ m. text_eq m entry.name) met ≡ false = ground (arith, b) in
              let rest =
                check_again-IsAgain validated entries (met ++ (entry.name ∷ [])) all_met a
                  (ground (arith, h, e, f, b)) in
              let back = sym named in
              IsAgain-∷ validated (ok entry) entries met all_met v still
                (subst (λ n. find_validated n validated ≡ some v) back e)
                (subst (λ n. any (λ m. text_eq m n) met ≡ false) back new)
                (subst (λ n. IsAgain validated entries (met ++ (n ∷ [])) all_met) back rest)
        ]
      ]
    ]
