-- ===== src/Storage/File/Instance.antt =====
-- `FileStorage` as a segment knows it.
use solstone_tmux.Base.{Result-cases, ℕ, ◌≡◌, refl, subst, List, Option, inl, inr, Result, ok, err}
use solstone_tmux.Storage.{StorageError, SegmentMetadata, AppendFrame, IsStorage}
use solstone_tmux.Storage.Disk.{Io, Disk, View}
use solstone_tmux.Storage.Triple.{Triple, Post, Triple-bind, Triple-pure, Triple-raise}
use solstone_tmux.Storage.File.{
  after_append, after_metadata, finish_append, append_frame, file_storage,
}

module _ {A : Type 0} where
  Post-any : (r : Result StorageError A) (v : View) → Post (λ _ _. Unit {0}) (λ _ _. Unit {0}) r v
  Post-any (ok a) v = tt
  Post-any (err e) v = tt

  Triple-any : {P : View → Type 0} (m : Io A) → Triple P m (λ _ _. Unit {0}) (λ _ _. Unit {0})
  Triple-any m = record { at = λ d h. Post-any (m d).0 (m d).1.view }

module _ (encode : SegmentMetadata → Option (List ℕ)) (frame : AppendFrame) where
  abbrev Proposed : SegmentMetadata → View → Type 0
  Proposed m v = m ≡ frame.proposed_metadata

  abbrev Anything : StorageError → View → Type 0
  Anything e v = Unit {0}

  after_append-Proposed :
      {P : View → Type 0} (e : StorageError) (r : Result StorageError (Unit {0}))
      → Triple P (after_append e r) Proposed Anything
  unfolding after_append
  after_append-Proposed e (ok x) = Triple-raise _ λ v h. tt
  after_append-Proposed e (err x) = Triple-raise _ λ v h. tt

  after_metadata-Proposed :
      {P : View → Type 0} (e : StorageError) (j m : Result StorageError (Unit {0}))
      → Triple P (after_metadata e j m) Proposed Anything
  unfolding after_metadata
  after_metadata-Proposed e (ok x) (ok y) = Triple-raise _ λ v h. tt
  after_metadata-Proposed e (err x) (ok y) = Triple-raise _ λ v h. tt
  after_metadata-Proposed e (ok x) (err y) = Triple-raise _ λ v h. tt
  after_metadata-Proposed e (err x) (err y) = Triple-raise _ λ v h. tt

  finish_append-Proposed :
      {P : View → Type 0} (previous : List ℕ) (r : Result StorageError (Unit {0}))
      → Triple P (finish_append encode frame previous r) Proposed Anything
  unfolding finish_append
  finish_append-Proposed previous (err e) =
      Triple-bind _ _ (Triple-any _) λ undone. after_append-Proposed e undone
  finish_append-Proposed previous (ok done) = Triple-bind _ _ (Triple-any _) λ saved.
      elim (Result-cases saved) [
        | inl (x, e) ↦ rw e (Triple-pure frame.proposed_metadata λ v h. refl)
        | inr (x, e) ↦ rw e (
            Triple-bind _ _ (Triple-any _) λ json.
              Triple-bind _ _ (Triple-any _) λ restored. after_metadata-Proposed x json restored)
      ]

  append_frame-Proposed :
      (d : Disk)
      → Post Proposed Anything (append_frame encode frame d).0 (append_frame encode frame d).1.view
  unfolding append_frame
  append_frame-Proposed d =
      (Triple-bind {P = λ _. Unit {0}} _ _ (Triple-any _)
          λ previous. Triple-bind _ _ (Triple-any _) λ r. finish_append-Proposed previous r).at
        d tt

-- `FileStorage` does what a segment relies on: an accepted frame comes back with the metadata that
-- was proposed with it.
file_storage-IsStorage :
    (encode : SegmentMetadata → Option (List ℕ)) → IsStorage (file_storage encode)
unfolding file_storage
file_storage-IsStorage encode = record {
  accepts = λ frame d m e.
      subst
        (λ r.
          Post (Proposed encode frame) (Anything encode frame) r
            (append_frame encode frame d).1.view)
        e (append_frame-Proposed encode frame d);
}
