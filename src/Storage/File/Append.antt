-- ===== src/Storage/File/Append.antt =====
-- `FileStorage::append_frame`: the session's file and the metadata move together, or an error tells
-- which of them did not.
use solstone_tmux.Base.{
  arith, Result-cases, ℕ, ◌≡◌, refl, sym, ◌∙◌, List, ◌++◌, Text, false, Option, some, Option-cases,
  inl, inr, Result, ok, err, length, text_eq,
}
use solstone_tmux.Storage.{StorageError, SegmentMetadata, AppendFrame, recoverable, poisoned}
use solstone_tmux.Storage.Disk.{attempt, is_open, Disk, View, stored, ◌>>=◌}
use solstone_tmux.Storage.Triple.{
  Triple, Post, Triple-bind, Triple-pure, Triple-raise, Triple-asks, Triple-attempt, Triple-weaken,
  Triple-silent,
}
use solstone_tmux.Storage.File.{
  roll_back, atomic_write_bytes, append_inner, read_metadata, after_append, after_metadata,
  finish_append, append_frame,
}
use solstone_tmux.Storage.File.Blocks.{
  Holds, Untouched, Grown, Ready, Grown-Ready, append_inner-Ready, roll_back-Untouched,
}
use solstone_tmux.Storage.File.Atomic.{
  IsStable, IsKept-IsStable, atomic_write_bytes-F, save_metadata-F,
}

abbrev pub Others : Text → View → View → Type 0
Others name v0 v = (other : Text) → text_eq name other ≡ false → stored v other ≡ stored v0 other

-- What an append that fails with `e` leaves of the view `v0`: the other files, and everything where
-- `e` is recoverable.
pub record IsLeft (name : Text) (v0 : View) (e : StorageError) (v : View) : Type 0 where
  pub others : Others name v0 v
  pub whole :
      (cause : StorageError)
      → e ≡ recoverable cause
      → (stored v name ≡ stored v0 name) × (v.metadata ≡ v0.metadata)

-- What an append that succeeds with `m` leaves.
pub record IsAppended (encode : SegmentMetadata → Option (List ℕ)) (frame : AppendFrame) (v0 : View)
    (m : SegmentMetadata) (v : View) : Type 0 where
  pub content : stored v frame.filename ≡ stored v0 frame.filename ++ frame.bytes
  pub metadata_is : v.metadata ≡ encode frame.proposed_metadata
  pub result : m ≡ frame.proposed_metadata
  pub others : Others frame.filename v0 v

module _ (name : Text) (v0 : View) where
  IsLeft-start : (e : StorageError) (v : View) → v ≡ v0 → IsLeft name v0 e v
  IsLeft-start e v h = rw h (record { others = λ other d. refl; whole = λ cause q. (refl, refl) })

  IsLeft-poisoned :
      (e r : StorageError) (v : View) → Others name v0 v → IsLeft name v0 (poisoned e r) v
  IsLeft-poisoned e r v h = record { others = h; whole = λ cause q. ground arith }

  IsLeft-recoverable :
      (e : StorageError) (v : View)
      → Holds name (stored v0 name) v0 v
      → v.metadata ≡ v0.metadata
      → IsLeft name v0 (recoverable e) v
  IsLeft-recoverable e v h m = record { others = h.others; whole = λ cause q. (h.content_is, m) }

  read_metadata-some :
      Triple
        (λ v. v ≡ v0)
        read_metadata
        (λ bytes v. (v ≡ v0) × (v0.metadata ≡ some bytes))
        (IsLeft name v0)
  unfolding read_metadata
  read_metadata-some = Triple-bind _ _ (Triple-silent _ IsLeft-start) λ _.
      Triple-bind _ _ (Triple-asks _) λ found. elim (Option-cases found) [
        | inl e ↦ rw e (Triple-raise _ λ v h. IsLeft-start _ v h.0)
        | inr (bytes, e) ↦ rw e (Triple-pure bytes λ v h. (h.0, rw (sym (h.0)) (h.1)))
      ]

  -- The rollback of the session's file by its result, then that of the metadata.
  abbrev Rolled : Result StorageError (Unit {0}) → View → Type 0
  Rolled r v =
      Post (λ _ v. Untouched name (stored v0 name) v0 (λ _. Unit {0}) v) (λ _ v. Others name v0 v) r
        v

  Rolled-IsStable : (r : Result StorageError (Unit {0})) → IsStable (Rolled r)
  unfolding stored
  Rolled-IsStable (ok x) v m t h = (record { content_is = h.0.content_is; others = h.0.others }, tt)
  Rolled-IsStable (err x) v m t h = h

  after_append-IsLeft :
      {Q : SegmentMetadata → View → Type 0} (e : StorageError) (r : Result StorageError (Unit {0}))
      → Triple
          (λ v.
            Post
              (λ _. Untouched name (stored v0 name) v0 (λ m. m ≡ v0.metadata))
              (λ _. Others name v0)
              r
              v)
          (after_append e r)
          Q
          (IsLeft name v0)
  unfolding after_append
  after_append-IsLeft e (ok x) = Triple-raise _ λ v h. IsLeft-recoverable e v h.0 h.1
  after_append-IsLeft e (err x) = Triple-raise _ λ v h. IsLeft-poisoned e x v h

  Rolled-Others : (r : Result StorageError (Unit {0})) (v : View) → Rolled r v → Others name v0 v
  Rolled-Others (ok x) v h = h.0.others
  Rolled-Others (err x) v h = h

  after_metadata-IsLeft :
      {Q : SegmentMetadata → View → Type 0} (e : StorageError) (previous : List ℕ)
      (j m : Result StorageError (Unit {0}))
      → v0.metadata ≡ some previous
      → Triple
          (λ v. Post (λ _ v. Rolled j v × (v.metadata ≡ some previous)) (λ _ v. Rolled j v) m v)
          (after_metadata e j m)
          Q
          (IsLeft name v0)
  unfolding after_metadata
  after_metadata-IsLeft e previous (ok x) (ok y) p =
      Triple-raise _ λ v h. IsLeft-recoverable e v h.0.0 (h.1 ∙ sym p)
  after_metadata-IsLeft e previous (err x) (ok y) p =
      Triple-raise _ λ v h. IsLeft-poisoned e _ v h.0
  after_metadata-IsLeft e previous (ok x) (err y) p =
      Triple-raise _ λ v h. IsLeft-poisoned e _ v h.0.others
  after_metadata-IsLeft e previous (err x) (err y) p = Triple-raise _ λ v h. IsLeft-poisoned e _ v h

module _ (encode : SegmentMetadata → Option (List ℕ)) (frame : AppendFrame) (v0 : View) where
  abbrev Same : Option (List ℕ) → Type 0
  Same m = m ≡ v0.metadata

  abbrev Known : Option (List ℕ) → Type 0
  Known m = Unit {0}

  -- The session's file with the frame behind it, whatever the metadata.
  abbrev Full : View → Type 0
  Full =
      Ready frame.filename (stored v0 frame.filename) v0 Known
        (stored v0 frame.filename ++ frame.bytes)

  Full-IsStable : IsStable Full
  unfolding stored is_open
  Full-IsStable v m t h = record {
    holds = record { content_is = h.holds.content_is; others = h.holds.others };
    opened = h.opened;
    kept = tt;
  }

  Full-Ready :
      (v : View)
      → Ready frame.filename
          (stored v0 frame.filename)
          v0
          Same
          (stored v0 frame.filename ++ frame.bytes)
          v
      → Full v
  Full-Ready v h = record { holds = h.holds; opened = h.opened; kept = tt }

  abbrev After : Result StorageError (Unit {0}) → View → Type 0
  After r v =
      Post
        (λ _.
          Ready frame.filename (stored v0 frame.filename) v0 Same
            (stored v0 frame.filename ++ frame.bytes))
        (λ _. Grown frame.filename (stored v0 frame.filename) v0 Same) r v

  rest_IsLeft :
      (e : StorageError) (previous : List ℕ)
      → v0.metadata ≡ some previous
      → frame.previous_offset ≡ length (stored v0 frame.filename)
      → Triple Full
          (attempt (roll_back frame.filename frame.previous_offset) >>= λ json.
            attempt (atomic_write_bytes previous) >>= λ restored. after_metadata e json restored)
          (IsAppended encode frame v0)
          (IsLeft frame.filename v0)
  rest_IsLeft e previous p o = rw o (
      Triple-bind _ _
        (Triple-attempt _ (
          Triple-weaken _ (roll_back-Untouched frame.filename (stored v0 frame.filename) v0 Known)
            (λ v h. Grown-Ready frame.filename (stored v0 frame.filename) v0 Known frame.bytes v h)
            (λ x v h. h) (λ x v h. h)))
        λ json.
          Triple-bind _ _
            (Triple-attempt _ (
              atomic_write_bytes-F previous (Rolled frame.filename v0 json)
                (IsKept-IsStable previous _ (Rolled-IsStable frame.filename v0 json))))
            λ restored. after_metadata-IsLeft frame.filename v0 e previous json restored p)

  finish_append-lem :
      (previous : List ℕ) (r : Result StorageError (Unit {0}))
      → v0.metadata ≡ some previous
      → frame.previous_offset ≡ length (stored v0 frame.filename)
      → Triple
          (After r)
          (finish_append encode frame previous r)
          (IsAppended encode frame v0)
          (IsLeft frame.filename v0)
  unfolding finish_append
  finish_append-lem previous (err e) p o = rw o (
      Triple-bind _ _
        (Triple-attempt _ (roll_back-Untouched frame.filename (stored v0 frame.filename) v0 Same))
        λ undone. after_append-IsLeft frame.filename v0 e undone)
  finish_append-lem previous (ok done) p o =
      Triple-bind _ _
        (Triple-attempt _ (
          Triple-weaken _ (save_metadata-F encode frame.proposed_metadata Full Full-IsStable)
            Full-Ready (λ x v h. h) (λ x v h. h)))
        λ saved. elim (Result-cases saved) [
          | inl (x, e) ↦ rw e (
              Triple-pure frame.proposed_metadata λ v h. record {
                content = h.0.holds.content_is;
                metadata_is = h.1;
                result = refl;
                others = h.0.holds.others;
              })
          | inr (x, e) ↦ rw e (rest_IsLeft x previous p o)
        ]

  append_read :
      (previous : List ℕ)
      → v0.metadata ≡ some previous
      → frame.previous_offset ≡ length (stored v0 frame.filename)
      → Triple
          (λ v. v ≡ v0)
          (attempt (append_inner frame) >>= λ r. finish_append encode frame previous r)
          (IsAppended encode frame v0)
          (IsLeft frame.filename v0)
  append_read previous p o =
      Triple-bind _ _
        (Triple-attempt _ (
          Triple-weaken _
            (append_inner-Ready frame.filename (stored v0 frame.filename) v0 Same frame refl o)
            (λ v h. rw h (record { content_is = refl; others = λ other d. refl }, refl))
            (λ x v h. h) (λ x v h. h)))
        λ r. finish_append-lem previous r p o

  append_frame-triple :
      frame.previous_offset ≡ length (stored v0 frame.filename)
      → Triple
          (λ v. v ≡ v0)
          (append_frame encode frame)
          (IsAppended encode frame v0)
          (IsLeft frame.filename v0)
  unfolding append_frame
  append_frame-triple o =
      Triple-bind _ _ (read_metadata-some frame.filename v0)
        λ previous. record { at = λ d h. (append_read previous (h.1) o).at d (h.0) }

-- Whatever system calls fail, and at which of them: an append at the file's length that succeeds
-- adds exactly its bytes to the session's file and leaves the metadata that was proposed; one that
-- fails with a recoverable error leaves that file and the metadata as they were; and no append
-- touches another file.
pub append_frame-IsAtomic :
    (encode : SegmentMetadata → Option (List ℕ)) (frame : AppendFrame) (d : Disk)
    → frame.previous_offset ≡ length (stored d.view frame.filename)
    → let (r, d') = append_frame encode frame d in
      Post (IsAppended encode frame d.view) (IsLeft frame.filename d.view) r d'.view
append_frame-IsAtomic encode frame d o = (append_frame-triple encode frame d.view o).at d refl
