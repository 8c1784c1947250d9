-- ===== src/Recovery/Repair.antt =====
-- `apply_repairs` of native/solstone-tmux/src/recovery.rs: the files that the validation wants cut
-- back are opened, truncated and synced, one after the other.
use solstone_tmux.Base.{
  ℕ, ◌≡◌, refl, sym, ap, ◌∙◌, subst, Bool, not, List, [], ◌∷◌, Text, codes, Option, none, some,
  Result, ok, err, text_eq, text_eq_iff, if◌then◌else◌, Bool-cases, inl, inr, arith,
}
use solstone_tmux.Storage.Disk.{set_len}
use solstone_tmux.Recovery.Validate.{RecoveryError, io, escapes_data_root, FileRepair}
use solstone_tmux.Recovery.Validate.Loop.{cuts}

-- The files of a directory; there is no file where it gives `none`.
abbrev pub Files : Type 0
Files = Text → Option (List ℕ)

abbrev pub put : Text → List ℕ → Files → Files
put name bytes files other = if text_eq name other then some bytes else files other

-- How the system calls on one file go.
pub data RepairOutcome : Type 0 where
  repairs open_fails truncate_fails sync_fails : RepairOutcome

abbrev pub next_repair : List RepairOutcome → RepairOutcome
next_repair [] = repairs
next_repair (o ∷ rest) = o

abbrev pub later_repairs : List RepairOutcome → List RepairOutcome
later_repairs [] = []
later_repairs (o ∷ rest) = rest

abbrev pub repair_failed : Result RecoveryError (Unit {0})
repair_failed = err (io (codes "truncate and fsync JSONL repair"))

-- One file: it has to exist, it is cut, and then synced unless the test option makes that fail.
unfoldable pub repair_file :
    Bool
    → FileRepair
    → RepairOutcome
    → Option (List ℕ)
    → Files
    → Result RecoveryError (Unit {0}) × Files
repair_file fail_repair_sync r outcome none files = (err (io (codes "open JSONL repair")), files)
repair_file fail_repair_sync r open_fails (some bytes) files =
    (err (io (codes "open JSONL repair")), files)
repair_file fail_repair_sync r truncate_fails (some bytes) files = (repair_failed, files)
repair_file fail_repair_sync r sync_fails (some bytes) files =
    (repair_failed, put r.filename (set_len r.offset bytes) files)
repair_file fail_repair_sync r repairs (some bytes) files = (
  if fail_repair_sync then repair_failed else ok tt,
  put r.filename (set_len r.offset bytes) files,
)

abbrev pub and_then :
    Result RecoveryError (Unit {0}) × Files
    → (Files → Result RecoveryError (Unit {0}) × Files)
    → Result RecoveryError (Unit {0}) × Files
and_then (ok u, files) f = f files
and_then (err e, files) f = (err e, files)

-- `is_child` is `path.parent() == Some(directory)` of the file's path.
module _ (is_child : Text → Bool) (fail_repair_sync : Bool) where
  unfoldable pub apply_repairs :
      List FileRepair → List RepairOutcome → Files → Result RecoveryError (Unit {0}) × Files
  apply_repairs [] outcomes files = (ok tt, files)
  apply_repairs (r ∷ rest) outcomes files =
      if not (is_child r.filename)
      then (err escapes_data_root, files)
      else and_then (repair_file fail_repair_sync r (next_repair outcomes) (files r.filename) files)
          (λ cut. apply_repairs rest (later_repairs outcomes) cut)

  repaired_file :
      (r : FileRepair) (o : RepairOutcome) (files next : Files) (found : Option (List ℕ))
      → repair_file fail_repair_sync r o found files ≡ (ok tt, next)
      → (bytes : List ℕ) × (found ≡ some bytes)
        × (next ≡ put r.filename (set_len r.offset bytes) files)
  unfolding repair_file
  repaired_file r o files next none h = ground (arith, h)
  repaired_file r open_fails files next (some bytes) h = ground (arith, h)
  repaired_file r truncate_fails files next (some bytes) h = ground (arith, h)
  repaired_file r sync_fails files next (some bytes) h = ground (arith, h)
  repaired_file r repairs files next (some bytes) h = (bytes, refl, sym (ap (λ p. p.1) h))

  and_then-ok :
      (p : Result RecoveryError (Unit {0}) × Files)
      (f : Files → Result RecoveryError (Unit {0}) × Files) (last : Files)
      → and_then p f ≡ (ok tt, last)
      → (next : Files) × (p ≡ (ok tt, next)) × (f next ≡ (ok tt, last))
  and_then-ok (ok tt, files) f last h = (files, refl, h)
  and_then-ok (err e, files) f last h = ground (arith, h)

  repaired_first :
      (r : FileRepair) (rest : List FileRepair) (outcomes : List RepairOutcome) (files last : Files)
      → apply_repairs (r ∷ rest) outcomes files ≡ (ok tt, last)
      → (bytes : List ℕ) × (files r.filename ≡ some bytes)
        × (apply_repairs rest
              (later_repairs outcomes)
              (put r.filename (set_len r.offset bytes) files)
            ≡ (ok tt, last))
  unfolding apply_repairs
  repaired_first r rest outcomes files last h = elim (Bool-cases (is_child r.filename)) [
    | inr e ↦ ground (arith, h, e)
    | inl e ↦
        let run =
          and_then-ok
            (repair_file fail_repair_sync r (next_repair outcomes) (files r.filename) files)
            (λ cut. apply_repairs rest (later_repairs outcomes) cut) last (ground (arith, h, e)) in
        let (next, e1, h1) = run in
        let (bytes, found, same) =
          repaired_file r (next_repair outcomes) files next (files r.filename) e1 in
        (
          bytes,
          found,
          subst (λ fs. apply_repairs rest (later_repairs outcomes) fs ≡ (ok tt, last)) same h1,
        )
  ]

  -- A file that is there is cut as the repairs say, one after the other.
  pub apply_repairs-some :
      (rs : List FileRepair) (outcomes : List RepairOutcome) (files last : Files) (name : Text)
      (bytes : List ℕ)
      → apply_repairs rs outcomes files ≡ (ok tt, last)
      → files name ≡ some bytes
      → last name ≡ some (cuts name rs bytes)
  unfolding apply_repairs
  apply_repairs-some [] outcomes files last name bytes h found = ap (λ p. p.1 name) (sym h) ∙ found
  apply_repairs-some (r ∷ rest) outcomes files last name bytes h found =
      let (own, there, h1) = repaired_first r rest outcomes files last h in
      apply_repairs-some rest (later_repairs outcomes) (put r.filename (set_len r.offset own) files)
        last name (if text_eq r.filename name then set_len r.offset bytes else bytes) h1
        (elim (Bool-cases (text_eq r.filename name)) [
          | inr e ↦ rw e found
          | inl e ↦
              let same : own ≡ bytes =
                ground (arith, there, found, ap files ((text_eq_iff r.filename name).0 e)) in
              rw (e, same) refl
        ])

  -- No file is made.
  pub apply_repairs-none :
      (rs : List FileRepair) (outcomes : List RepairOutcome) (files last : Files) (name : Text)
      → apply_repairs rs outcomes files ≡ (ok tt, last)
      → files name ≡ none
      → last name ≡ none
  unfolding apply_repairs
  apply_repairs-none [] outcomes files last name h found = ap (λ p. p.1 name) (sym h) ∙ found
  apply_repairs-none (r ∷ rest) outcomes files last name h found =
      let (own, there, h1) = repaired_first r rest outcomes files last h in
      apply_repairs-none rest (later_repairs outcomes) (put r.filename (set_len r.offset own) files)
        last name h1
        (elim (Bool-cases (text_eq r.filename name)) [
          | inr e ↦ rw e found
          | inl e ↦ ground (arith, there, found, ap files ((text_eq_iff r.filename name).0 e))
        ])
