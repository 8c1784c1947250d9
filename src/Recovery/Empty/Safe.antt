-- ===== src/Recovery/Empty/Safe.antt =====
-- Only files that were empty at both looks are removed.
use solstone_tmux.Base.{
  ℕ, zero, suc, ◌≡◌, refl, ap, inl, inr, ◌⊎◌, Bool, true, false, List, [], ◌∷◌, Text, Option, none,
  some, Result, ok, err, length, take, ◌==◌, ==_iff, Bool-cases, arith,
}
use mathlib.Core.List.{Perm}
use solstone_tmux.Recovery.Validate.{RecoveryError}
use solstone_tmux.Recovery.Repair.{Files}
use solstone_tmux.Recovery.Empty.{
  Sighting, Listing, ValidatedEmptyFile, validated_empty_files, check_again, without, remove_files,
  if_unchanged, remove_validated_empty_files,
}
use solstone_tmux.Recovery.Empty.Pigeonhole.{Found-Perm}
use solstone_tmux.Recovery.Empty.Again.{
  Looked, AllEmpty, validate_entries-AllEmpty, check_again-IsAgain,
}

-- The directory's files without the first of the validated ones.
abbrev pub removed : List ValidatedEmptyFile → Files → Files
removed [] files = files
removed (v ∷ validated) files = removed validated (without v.path files)

remove_files-removed :
    (succeeding : ℕ) (validated : List ValidatedEmptyFile) (files : Files)
    → (k : ℕ) × ((remove_files succeeding validated files).1 ≡ removed (take k validated) files)
      × ((remove_files succeeding validated files).0 ≡ ok true → take k validated ≡ validated)
unfolding remove_files
remove_files-removed succeeding [] files = (0, refl, λ h. refl)
remove_files-removed zero (v ∷ validated) files = (0, refl, λ h. ground (arith, h))
remove_files-removed (suc n) (v ∷ validated) files =
    let (k, e, t) = remove_files-removed n validated (without v.path files) in
    (suc k, e, λ h. ap (λ vs. v ∷ vs) (t h))

-- What is left of the files: all of them, or, where the second look finds exactly the validated files,
-- in any order and all still empty, those that are not among the first `k` validated ones.
pub record Removal (validated : List ValidatedEmptyFile)
    (entries : List (Result RecoveryError Sighting)) (files left : Files)
    (result : Result RecoveryError Bool) : Type 0 where
  pub k : ℕ
  pub left_is : left ≡ removed (take k validated) files
  pub again : List ValidatedEmptyFile
  pub found : (k ≡ 0) ⊎ (Looked again entries × Perm again validated)
  pub all_removed : result ≡ ok true → take k validated ≡ validated

nothing_removed :
    (validated : List ValidatedEmptyFile) (entries : List (Result RecoveryError Sighting))
    (files : Files) (result : Result RecoveryError Bool)
    → (result ≡ ok true → take 0 validated ≡ validated)
    → Removal validated entries files files result
nothing_removed validated entries files result n = record {
  k = 0;
  left_is = refl;
  again = [];
  found = inl refl;
  all_removed = n;
}

if_unchanged-Removal :
    (succeeding : ℕ) (validated : List ValidatedEmptyFile)
    (entries : List (Result RecoveryError Sighting)) (files : Files)
    (r : Result RecoveryError (Option (List Text)))
    → AllEmpty validated
    → check_again validated [] entries ≡ r
    → let p = if_unchanged succeeding validated files r in Removal validated entries files p.1 p.0
if_unchanged-Removal succeeding validated entries files (err e) a c =
    nothing_removed validated entries files (err e) (λ h. ground (arith, h))
if_unchanged-Removal succeeding validated entries files (ok none) a c =
    nothing_removed validated entries files (ok false) (λ h. ground (arith, h))
if_unchanged-Removal succeeding validated entries files (ok (some met)) a c =
    elim (Bool-cases (length met == length validated)) [
      | inr e ↦ rw e (nothing_removed validated entries files (ok false) (λ h. ground (arith, h)))
      | inl e ↦
          let i = check_again-IsAgain validated entries [] met a c in
          let same_size : length i.again ≡ length validated =
            omega (arith, i.size, (==_iff (length met) (length validated)).0 e) in
          let (k, left, t) = remove_files-removed succeeding validated files in
          rw e (record {
            k = k;
            left_is = left;
            again = i.again;
            found =
                inr (
                  i.looked,
                  Found-Perm validated i.again i.found i.apart (omega (arith, same_size)),
                );
            all_removed = t;
          })
    ]

-- Let the first look at a directory validate its files as empty, and let anything happen to it
-- before the second look. Files are then removed only if the entries of the second look are exactly
-- the validated files, each met once, with its name, device and inode and still a plain file of
-- length zero; otherwise all files are left. Only validated files are removed, from the first on,
-- and all of them where remove_validated_empty_files returns true.
pub remove_validated_empty_files-Removal :
    (first : Listing) (validated : List ValidatedEmptyFile) (succeeding : ℕ)
    (entries : List (Result RecoveryError Sighting)) (files : Files)
    → validated_empty_files first ≡ ok (some validated)
    → let p = remove_validated_empty_files succeeding validated (ok entries) files in
      Removal validated entries files p.1 p.0
unfolding validated_empty_files remove_validated_empty_files
remove_validated_empty_files-Removal (err e) validated succeeding entries files h =
    ground (arith, h)
remove_validated_empty_files-Removal (ok found) validated succeeding entries files h =
    if_unchanged-Removal succeeding validated entries files (check_again validated [] entries)
      (validate_entries-AllEmpty found [] validated tt h) refl
