-- ===== src/Segment/Close/Effects.antt =====
-- What the close of a segment does to its stream's directory: the calls of `publish` and of
-- `remove_directory`, each on the disk that the one before it left.
use solstone_tmux.Base.{
  ℕ, ◌≡◌, refl, sym, ap, subst, ◌∙◌, inl, inr, Bool, true, false, not, ◌||◌, List, [], ◌∷◌, Result,
  ok, err, Bool-cases, ◌==◌, arith,
}
use solstone_tmux.Storage.{SegmentMetadata, StorageError}
use solstone_tmux.Segment.{SegmentState, SegmentError, SegmentClose, Externals, Failure, Entry}
use solstone_tmux.Segment.Monad.{Method, continue, map_err, on_disk, guard_not}
use solstone_tmux.Segment.Steps.{◌>>=◌}
use solstone_tmux.Segment.Close.{
  on_storage, not_taken, finish, remove_empty_entry, remove_empty_entries, remove_directory,
  publish,
}

-- The call succeeds with `a` and takes the disk from one state to the other.
abbrev pub Did : {S E A : Type 0} → (S → Result E A × S) → S → A → S → Type 0
Did call before a after = call before ≡ (ok a, after)

-- Entries that are all empty plain files, removed in order.
abbrev pub Emptied :
    {S T : Type 0} → Externals S T → List (Result SegmentError Entry) → S → S → Type 0
Emptied env [] before after = before ≡ after
Emptied {S = S} env (r ∷ rest) before after =
    (entry : Entry) × (between : S) × (r ≡ ok entry)
    × (entry.is_plain_file ≡ true)
    × (entry.len ≡ 0)
    × Did (env.remove_entry entry.name) before tt between
    × Emptied env rest between after

-- The metadata is stored and the storage closed; the final name, not taken before, is given to the
-- directory, its time of capture is written, and the metadata file goes last.
pub record Published {S T : Type 0} (env : Externals S T) (m : SegmentMetadata) (d0 d8 : S)
    : Type 0 where
  pub d1 : S
  pub d2 : S
  pub d3 : S
  pub d4 : S
  pub d5 : S
  pub d6 : S
  pub stored : Did (env.durable.write_metadata m) d0 tt d1
  pub closed : Did env.durable.sync_and_close d1 tt d2
  pub free : env.entry_exists m.finalized_dir d2 ≡ false
  pub renamed : Did (env.rename_incomplete m.incomplete_dir m.finalized_dir) d2 tt d3
  pub synced : Did env.sync_stream_dir d3 tt d4
  pub timed :
      Did
        (env.write_capture_time m.finalized_dir
          (record { tz = m.tz; utc_offset_seconds = m.local_offset_seconds }))
        d4
        tt
        d5
  pub metadata_removed : Did env.remove_metadata d5 tt d6
  pub synced_last : Did env.sync_stream_dir d6 tt d8

-- The storage is closed; all that the directory then holds is removed, being empty plain files, then
-- the directory and last the metadata file.
pub record Removed {S T : Type 0} (env : Externals S T) (d0 d7 : S) : Type 0 where
  pub entries : List (Result SegmentError Entry)
  pub d1 : S
  pub d2 : S
  pub d3 : S
  pub d4 : S
  pub d5 : S
  pub d6 : S
  pub closed : Did env.durable.sync_and_close d0 tt d1
  pub listed : Did env.read_incomplete d1 entries d2
  pub emptied : Emptied env entries d2 d3
  pub removed : Did env.remove_incomplete d3 tt d4
  pub synced : Did env.sync_stream_dir d4 tt d5
  pub metadata_removed : Did env.remove_metadata d5 tt d6
  pub synced_last : Did env.sync_stream_dir d6 tt d7

module _ {S A B : Type 0} where
  continue-ok :
      (r : Result Failure A) (st : SegmentState S) (k : A → Method S B) (b : B)
      (st' : SegmentState S)
      → continue r k st ≡ (ok b, st')
      → (a : A) × (r ≡ ok a) × (k a st ≡ (ok b, st'))
  continue-ok (ok a) st k b st' h = (a, refl, h)
  continue-ok (err e) st k b st' h = ground (arith, h)

  -- A block that succeeds has succeeded in its first method.
  bind-ok :
      (m : Method S A) (k : A → Method S B) (st : SegmentState S) (b : B) (st' : SegmentState S)
      → (m >>= k) st ≡ (ok b, st')
      → (a : A) × (s1 : SegmentState S) × (m st ≡ (ok a, s1)) × (k a s1 ≡ (ok b, st'))
  unfolding ◌>>=◌
  bind-ok m k st b st' h =
      let (a, e, rest) = continue-ok (m st).0 (m st).1 k b st' h in
      (a, (m st).1, ap (λ r. (r, (m st).1)) e, rest)

module _ {S E A : Type 0} (f : E → SegmentError) where
  map_err-Did :
      (r : Result E A) (disk : S) (st : SegmentState S) (a : A) (st' : SegmentState S)
      → map_err f r (record st { disk = disk }) ≡ (ok a, st')
      → ◌≡◌ {A = Result E A × S} (r, disk) (ok a, st'.disk)
  map_err-Did (ok x) disk st a st' h = cc
  map_err-Did (err e) disk st a st' h = ground (arith, h)

on_disk-Did :
    {S A : Type 0} (call : S → Result SegmentError A × S) (st : SegmentState S) (a : A)
    (st' : SegmentState S)
    → on_disk call st ≡ (ok a, st')
    → Did call st.disk a st'.disk
on_disk-Did call st a st' h = map_err-Did (λ e. e) (call st.disk).0 (call st.disk).1 st a st' h

guard_not-ok :
    {S : Type 0} (test : Bool) (e : SegmentError) (st : SegmentState S) (a : Unit {0})
    (st' : SegmentState S)
    → guard_not test e st ≡ (ok a, st')
    → (test ≡ false) × (st ≡ st')
guard_not-ok true e st a st' h = ground (arith, h)
guard_not-ok false e st a st' h = (refl, ap (λ p. p.1) h)

module _ {S T : Type 0} (env : Externals S T) where
  on_storage-Did :
      (call : S → Result StorageError (Unit {0}) × S) (st : SegmentState S) (a : Unit {0})
      (st' : SegmentState S)
      → on_storage env call st ≡ (ok a, st')
      → Did call st.disk a st'.disk
  unfolding on_storage
  on_storage-Did call st a st' h =
      map_err-Did SegmentError.storage (call st.disk).0 (call st.disk).1 st a st' h

  not_taken-free :
      (name reported : List ℕ) (st : SegmentState S) (a : Unit {0}) (st' : SegmentState S)
      → not_taken env name reported st ≡ (ok a, st')
      → (env.entry_exists name st.disk ≡ false) × (st'.disk ≡ st.disk)
  unfolding not_taken
  not_taken-free name reported st a st' h =
      let (free, same) = guard_not-ok _ _ st a st' h in (free, ap (λ s. s.disk) (sym same))

  finish-unchanged :
      (close answer : SegmentClose) (st st' : SegmentState S)
      → finish env close st ≡ (ok answer, st')
      → st.disk ≡ st'.disk
  unfolding finish
  finish-unchanged close answer st st' h = ap (λ p. p.1.disk) h

  remove_empty_entry-Emptied :
      (r : Result SegmentError Entry) (st : SegmentState S) (a : Unit {0}) (st' : SegmentState S)
      → remove_empty_entry env r st ≡ (ok a, st')
      → (entry : Entry) × (r ≡ ok entry)
        × (entry.is_plain_file ≡ true)
        × (entry.len ≡ 0)
        × Did (env.remove_entry entry.name) st.disk tt st'.disk
  unfolding remove_empty_entry
  remove_empty_entry-Emptied (err e) st a st' h = ground (arith, h)
  remove_empty_entry-Emptied (ok entry) st a st' h =
      elim (Bool-cases (not entry.is_plain_file || not (entry.len == 0))) [
        | inl e ↦ ground (arith, h, e)
        | inr e ↦ (
          entry,
          refl,
          ground (arith, e),
          ground (arith, e),
          on_disk-Did (env.remove_entry entry.name) st a st' (sym (rw e refl) ∙ h),
        )
      ]

  remove_empty_entries-Emptied :
      (entries : List (Result SegmentError Entry)) (st : SegmentState S) (a : Unit {0})
      (st' : SegmentState S)
      → remove_empty_entries env entries st ≡ (ok a, st')
      → Emptied env entries st.disk st'.disk
  unfolding remove_empty_entries
  remove_empty_entries-Emptied [] st a st' h = ap (λ p. p.1.disk) h
  remove_empty_entries-Emptied (r ∷ rest) st a st' h =
      let (x, s1, first, later) = bind-ok _ _ st a st' h in
      let (entry, e, plain, empty, gone) = remove_empty_entry-Emptied r st x s1 first in
      (entry, s1.disk, e, plain, empty, gone, remove_empty_entries-Emptied rest s1 a st' later)

  pub publish-Published :
      (m : SegmentMetadata) (st : SegmentState S) (close : SegmentClose) (st' : SegmentState S)
      → publish env m st ≡ (ok close, st')
      → Published env m st.disk st'.disk
  unfolding publish
  publish-Published m st close st' h =
      let (a1, s1, e1, h1) = bind-ok _ _ st close st' h in
      let (a2, s2, e2, h2) = bind-ok _ _ s1 close st' h1 in
      let (a3, s3, e3, h3) = bind-ok _ _ s2 close st' h2 in
      let (a4, s4, e4, h4) = bind-ok _ _ s3 close st' h3 in
      let (a5, s5, e5, h5) = bind-ok _ _ s4 close st' h4 in
      let (a6, s6, e6, h6) = bind-ok _ _ s5 close st' h5 in
      let (a7, s7, e7, h7) = bind-ok _ _ s6 close st' h6 in
      let (a8, s8, e8, h8) = bind-ok _ _ s7 close st' h7 in
      let (free, same) = not_taken-free m.finalized_dir m.finalized_dir s2 a3 s3 e3 in
      let last = finish-unchanged (SegmentClose.finalized m.finalized_dir) close s8 st' h8 in
      let rename = env.rename_incomplete m.incomplete_dir m.finalized_dir in
      let time =
        env.write_capture_time m.finalized_dir
          (record { tz = m.tz; utc_offset_seconds = m.local_offset_seconds }) in
      let tidied = on_disk-Did env.sync_stream_dir s7 a8 s8 e8 in
      record {
        d1 = s1.disk;
        d2 = s2.disk;
        d3 = s4.disk;
        d4 = s5.disk;
        d5 = s6.disk;
        d6 = s7.disk;
        stored = on_storage-Did (env.durable.write_metadata m) st a1 s1 e1;
        closed = on_storage-Did env.durable.sync_and_close s1 a2 s2 e2;
        free = free;
        renamed = subst (λ d. Did rename d tt s4.disk) same (on_disk-Did rename s3 a4 s4 e4);
        synced = on_disk-Did env.sync_stream_dir s4 a5 s5 e5;
        timed = on_disk-Did time s5 a6 s6 e6;
        metadata_removed = on_disk-Did env.remove_metadata s6 a7 s7 e7;
        synced_last = subst (λ d. Did env.sync_stream_dir s7.disk tt d) last tidied;
      }

  pub remove_directory-Removed :
      (st : SegmentState S) (close : SegmentClose) (st' : SegmentState S)
      → remove_directory env st ≡ (ok close, st')
      → Removed env st.disk st'.disk
  unfolding remove_directory
  remove_directory-Removed st close st' h =
      let (a1, s1, e1, h1) = bind-ok _ _ st close st' h in
      let (entries, s2, e2, h2) = bind-ok _ _ s1 close st' h1 in
      let (a3, s3, e3, h3) = bind-ok _ _ s2 close st' h2 in
      let (a4, s4, e4, h4) = bind-ok _ _ s3 close st' h3 in
      let (a5, s5, e5, h5) = bind-ok _ _ s4 close st' h4 in
      let (a6, s6, e6, h6) = bind-ok _ _ s5 close st' h5 in
      let (a7, s7, e7, h7) = bind-ok _ _ s6 close st' h6 in
      let last = finish-unchanged SegmentClose.removed_empty close s7 st' h7 in
      let tidied = on_disk-Did env.sync_stream_dir s6 a7 s7 e7 in
      record {
        entries = entries;
        d1 = s1.disk;
        d2 = s2.disk;
        d3 = s3.disk;
        d4 = s4.disk;
        d5 = s5.disk;
        d6 = s6.disk;
        closed = on_storage-Did env.durable.sync_and_close st a1 s1 e1;
        listed = on_disk-Did env.read_incomplete s1 entries s2 e2;
        emptied = remove_empty_entries-Emptied entries s2 a3 s3 e3;
        removed = on_disk-Did env.remove_incomplete s3 a4 s4 e4;
        synced = on_disk-Did env.sync_stream_dir s4 a5 s5 e5;
        metadata_removed = on_disk-Did env.remove_metadata s5 a6 s6 e6;
        synced_last = subst (λ d. Did env.sync_stream_dir s6.disk tt d) last tidied;
      }
