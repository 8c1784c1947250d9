-- ===== src/Storage/File/Atomic.antt =====
-- Appends of `FileStorage` happen wholly or not at all: the session's file and the metadata move
-- together, or an error tells.
use solstone_tmux.Base.{
  ℕ, ◌≡◌, refl, not, List, [], Option, none, some, Result, ok, err, Option-cases, inl, inr, ◌⊎◌,
  sym,
}
use solstone_tmux.Storage.{StorageError, SegmentMetadata, serialize}
use solstone_tmux.Storage.Disk.{Disk, View}
use solstone_tmux.Storage.Triple.{
  Triple, Post, Triple-bind, Triple-pure, Triple-raise, Triple-attempt, Triple-if, Triple-weaken,
  Triple-silent, Triple-changing, Triple-take_fault, Triple-take_atomic_fault,
  Triple-target_is_valid,
}
use solstone_tmux.Storage.File.{
  is_before_rename, is_after_rename, write_temporary, clean_up, atomic_write_bytes,
  atomic_write_metadata, save_metadata,
}

-- What an atomic write of `bytes` keeps.
pub record IsKept (bytes : List ℕ) (F : View → Type 0) : Type 0 where
  pub on_temporary : (v : View) (t : Option (List ℕ)) → F v → F (record v { temporary = t })
  pub on_rename : (v : View) → F v → F (record v { metadata = some bytes; temporary = none })

-- What every atomic write keeps.
abbrev pub IsStable : (View → Type 0) → Type 0
IsStable F = (v : View) (m t : Option (List ℕ)) → F v → F (record v { metadata = m; temporary = t })

pub IsKept-IsStable : (bytes : List ℕ) (F : View → Type 0) → IsStable F → IsKept bytes F
IsKept-IsStable bytes F stable = record {
  on_temporary = λ v t. stable v v.metadata t;
  on_rename = λ v. stable v (some bytes) none;
}

module _ (bytes : List ℕ) (F : View → Type 0) (kept : IsKept bytes F) where
  write_temporary-F :
      Triple F (write_temporary bytes) (λ _ v. F v × (v.metadata ≡ some bytes)) (λ _. F)
  unfolding write_temporary
  write_temporary-F = Triple-bind _ _ Triple-take_atomic_fault λ fault.
      Triple-bind _ _
        (Triple-changing {Q = F} _ _ _ (λ v h. kept.on_temporary v (some []) h) (λ n x v h. h))
        λ _. Triple-bind _ _ (Triple-silent _ λ x v h. h) λ _.
          Triple-bind _ _
            (Triple-changing {Q = λ v. F v × (v.temporary ≡ some bytes)} _ _ _
              (λ v h. (kept.on_temporary v (some bytes) h, refl))
              (λ n x v h. kept.on_temporary v _ h))
            λ _. Triple-bind _ _ (Triple-silent _ λ x v h. h.0) λ _.
              Triple-bind _ _ (Triple-silent _ λ x v h. h.0) λ _.
                Triple-if (is_before_rename fault) _ _ (λ _. Triple-raise _ λ v h. h.0)
                  (λ _.
                    Triple-bind _ _
                      (Triple-changing {Q = λ v. F v × (v.metadata ≡ some bytes)} _ _ _
                        (λ v h. (rw (h.1) (kept.on_rename v h.0), h.1)) (λ n x v h. h.0))
                      λ _.
                        Triple-if (is_after_rename fault) _ _ (λ _. Triple-raise _ λ v h. h.0)
                          (λ _. Triple-silent _ λ x v h. h.0))

  clean_up-F :
      (Q : Unit {0} → View → Type 0) (r : Result StorageError (Unit {0}))
      → Triple (λ v. Post Q (λ _. F) r v) (clean_up r) Q (λ _. F)
  unfolding clean_up
  clean_up-F Q (ok done) = Triple-pure done λ v h. h
  clean_up-F Q (err e) =
      Triple-bind _ _
        (Triple-attempt {Q = λ _. F} {E = λ _. F} _
          (Triple-changing _ _ _ (λ v h. kept.on_temporary v none h) (λ n x v h. h)))
        λ r. Triple-raise e λ v h. either r v h
    where
      either : (r : Result StorageError (Unit {0})) (v : View) → Post (λ _. F) (λ _. F) r v → F v
      either (ok x) v h = h
      either (err x) v h = h

  pub atomic_write_bytes-F :
      Triple F (atomic_write_bytes bytes) (λ _ v. F v × (v.metadata ≡ some bytes)) (λ _. F)
  unfolding atomic_write_bytes
  atomic_write_bytes-F = Triple-bind _ _ (Triple-silent _ λ x v h. h) λ _.
      Triple-bind _ _ Triple-target_is_valid λ valid.
        Triple-if (not valid) _ _ (λ _. Triple-raise _ λ v h. h)
          (λ _. Triple-bind _ _ (Triple-attempt _ write_temporary-F) λ r. clean_up-F _ r)

module _ (encode : SegmentMetadata → Option (List ℕ)) (m : SegmentMetadata)
    (F : View → Type 0) where
  pub atomic_write_metadata-F :
      ((bytes : List ℕ) → encode m ≡ some bytes → IsKept bytes F)
      → Triple F (atomic_write_metadata encode m) (λ _ v. F v × (v.metadata ≡ encode m)) (λ _. F)
  unfolding atomic_write_metadata
  atomic_write_metadata-F kept = elim (Option-cases (encode m)) [
    | inl e ↦ rw (e, atomic_write_metadata) (Triple-raise {P = F} {E = λ _. F} serialize λ v h. h)
    | inr (bytes, e) ↦ rw (e, atomic_write_metadata) (atomic_write_bytes-F bytes F (kept bytes e))
  ]

  pub save_metadata-F :
      IsStable F → Triple F (save_metadata encode m) (λ _ v. F v × (v.metadata ≡ encode m)) (λ _. F)
  unfolding save_metadata
  save_metadata-F stable = Triple-bind _ _ (Triple-take_fault _) λ injected.
      Triple-if injected _ _ (λ _. Triple-raise _ λ v h. h)
        (λ _. atomic_write_metadata-F λ bytes e. IsKept-IsStable bytes F stable)

-- The files of `v` are those of `v0`, and its metadata that of `v0` or the new one, whole.
abbrev pub IsOldOrNew : View → Option (List ℕ) → View → Type 0
IsOldOrNew v0 new v = (v.files ≡ v0.files) × ((v.metadata ≡ v0.metadata) ⊎ (v.metadata ≡ new))

-- Whatever system calls fail, and at which of them: a write of the metadata that succeeds leaves the
-- printed metadata in its file; one that fails leaves the old metadata or the new one, and never a
-- part of it; the files of the sessions are not touched.
pub atomic_write_metadata-IsOldOrNew :
    (encode : SegmentMetadata → Option (List ℕ)) (m : SegmentMetadata) (d : Disk)
    → let (r, d') = atomic_write_metadata encode m d in
      Post
        (λ _ v. (v.files ≡ d.view.files) × (v.metadata ≡ encode m))
        (λ _. IsOldOrNew d.view (encode m))
        r
        d'.view
atomic_write_metadata-IsOldOrNew encode m d =
    (Triple-weaken _
        (atomic_write_metadata-F encode m (IsOldOrNew d.view (encode m))
          λ bytes e. record { on_temporary = λ v t h. h; on_rename = λ v h. (h.0, inr (sym e)) })
        (λ v h. h) (λ x v h. (h.0.0, h.1)) (λ x v h. h)).at
      d (refl, inl refl)
