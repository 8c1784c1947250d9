-- ===== src/Recovery/Validate/Converges.antt =====
-- What `validate_files` says of a segment once its repairs have been applied.
use solstone_tmux.Base.{
  ℕ, ◌≡◌, refl, sym, ap, ◌∙◌, subst, inl, inr, Bool, true, false, not, ◌||◌, ◌&&◌, List, [], ◌∷◌,
  ◌++◌, Text, Option, none, some, Map, Result, ok, err, length, ◌==◌, ==_refl, if◌then◌else◌,
  Bool-cases, Option-cases, text_eq_comm, arith,
}
use solstone_tmux.Base.Stepwise.{◌>>=◌, bind-step}
use solstone_tmux.Storage.{SegmentMetadata, SessionMetadata}
use solstone_tmux.Segment.Length.{segment_stem}
use solstone_tmux.Recovery.Prefix.{last_id}
use solstone_tmux.Recovery.Validate.{
  RecoveryError, Stop, panic, fails, contradicts, DirEntry, Directory, FileRepair, ValidationKind,
  exact, repair, Validation, contradiction, check_entry, check_entries, is_expected, check_activity,
  sort, counts_from, recount, judge, is_empty, activity_filename, repair_of, or_else, or_zero,
  expect, question, with_files, validate, conclude, validate_files,
}
use solstone_tmux.Recovery.Validate.Loop.{cuts, cuts-append, Elsewhere, cuts-Elsewhere, cuts_one}
use solstone_tmux.Recovery.Validate.Repairs.{AllSettled, check_sessions-AllSettled}
use solstone_tmux.Recovery.Validate.Runs.{NoFile, Repaired}
use solstone_tmux.Recovery.Validate.Activity.{check_activity-again}
use solstone_tmux.Recovery.Repair.{
  Files, RepairOutcome, apply_repairs, apply_repairs-some, apply_repairs-none,
}

-- A directory with these entries and files.
abbrev pub holding : Result RecoveryError (List (Result RecoveryError DirEntry)) → Files → Directory
holding entries files = record { entries = entries; read = λ name. ok (files name) }

check_entry-same :
    (before after : Map SessionMetadata) (stem : Text) (entry : DirEntry)
    → ((name : Text) → is_expected after name ≡ is_expected before name)
    → check_entry after stem entry ≡ check_entry before stem entry
unfolding check_entry
check_entry-same before after stem entry same = elim (Option-cases entry.name) [
  | inl e ↦ rw e refl
  | inr (n, e) ↦ rw (e, same n) refl
]

pub check_entries-same :
    (before after : Map SessionMetadata) (stem : Text)
    (entries : List (Result RecoveryError DirEntry))
    → ((name : Text) → is_expected after name ≡ is_expected before name)
    → check_entries after stem entries ≡ check_entries before stem entries
unfolding check_entries ◌>>=◌
check_entries-same before after stem [] same = refl
check_entries-same before after stem (err e ∷ rest) same = refl
check_entries-same before after stem (ok entry ∷ rest) same =
    rw
      (
        check_entry-same before after stem entry same,
        check_entries-same before after stem rest same,
      )
      refl

abbrev outcome_kind : Result Stop Validation → ValidationKind
outcome_kind (ok v) = v.kind
outcome_kind (err e) = repair

pub conclude-repair :
    (r : Result Stop Validation) (v : Validation) → conclude r ≡ ok v → v.kind ≡ repair → r ≡ ok v
unfolding contradiction
conclude-repair (ok w) v h k = h
conclude-repair (err (contradicts detail)) v h k = ground (arith, ap outcome_kind h ∙ k)
conclude-repair (err panic) v h k = ground (arith, h)
conclude-repair (err (fails e)) v h k = ground (arith, h)

pub record Judged (m updated : SegmentMetadata) (repairs : List FileRepair) (ids : List ℕ)
    (v : Validation) : Type 0 where
  pub counts : counts_from 1 ids ≡ true
  pub repairs_are : v.repairs ≡ repairs
  pub metadata_is : v.updated_metadata ≡ some (recount updated ids)

abbrev judged : SegmentMetadata → List FileRepair → List ℕ → Result Stop Validation
judged updated repairs ids = ok (record {
  kind = if is_empty repairs then exact else repair;
  detail = [];
  repairs = repairs;
  updated_metadata = some (if is_empty repairs then updated else recount updated ids);
})

judged-repair :
    (m updated : SegmentMetadata) (repairs : List FileRepair) (ids : List ℕ) (v : Validation)
    → counts_from 1 ids ≡ true
    → judged updated repairs ids ≡ ok v
    → v.kind ≡ repair
    → Judged m updated repairs ids v
judged-repair m updated [] ids v c h k = ground (arith, ap outcome_kind h ∙ k)
judged-repair m updated (r ∷ rs) ids v c h k =
    let made : Validation = record {
      kind = repair;
      detail = [];
      repairs = r ∷ rs;
      updated_metadata = some (recount updated ids);
    } in
    let same : made ≡ v = ground (arith, h) in
    subst (Judged m updated (r ∷ rs) ids) same
      (record { counts = c; repairs_are = refl; metadata_is = refl })

pub judge-repair :
    (m updated : SegmentMetadata) (repairs : List FileRepair) (ids : List ℕ) (v : Validation)
    → judge m updated repairs ids ≡ ok v
    → v.kind ≡ repair
    → Judged m updated repairs ids v
unfolding judge
judge-repair m updated repairs ids v h k = elim (Bool-cases (counts_from 1 ids)) [
  | inr c ↦ ground (arith, h, c)
  | inl c ↦
      elim (Bool-cases (
        is_empty repairs
        && (not (m.durable_frame_count == length ids)
            || not (m.last_durable_frame_id == or_zero (last_id ids))))) [
              | inl e ↦ ground (arith, h, c, e)
              | inr e ↦ judged-repair m updated repairs ids v c (ground (arith, h, c, e)) k
            ]
]

judge-again :
    (m : SegmentMetadata) (ids : List ℕ)
    → counts_from 1 ids ≡ true
    → judge (recount m ids) (recount m ids) [] ids
      ≡ ok (record {
        kind = exact;
        detail = [];
        repairs = [];
        updated_metadata = some (recount m ids);
      })
unfolding judge recount
judge-again m ids c = rw (c, ==_refl (length ids), ==_refl (or_zero (last_id ids))) refl

check_activity-none :
    (recorded : ℕ) (cut : Option ℕ)
    → check_activity none recorded ≡ ok cut
    → (cut ≡ none) × (check_activity none recorded ≡ ok none)
unfolding check_activity
check_activity-none recorded cut h = (ground (arith, h), ground (arith, h))

module _ (is_child : Text → Bool) (outcomes : List RepairOutcome) (files last : Files)
    (rs : List FileRepair) (name : Text) (cut : Option ℕ)
    (applied : apply_repairs is_child false (rs ++ repair_of name cut) outcomes files
      ≡ (ok tt, last)) where
  pub activity_after :
      (recorded : ℕ)
      → Elsewhere name rs
      → check_activity (files name) recorded ≡ ok cut
      → check_activity (last name) (or_else cut recorded) ≡ ok none
  activity_after recorded apart h = elim (Option-cases (files name)) [
    | inl e ↦
        let (kept, again) =
          check_activity-none recorded cut (ap (λ o. check_activity o recorded) (sym e) ∙ h) in
        rw
          (
            apply_repairs-none is_child false (rs ++ repair_of name cut) outcomes files last name
                applied e,
            kept,
          )
          again
    | inr (bytes, e) ↦
        let after =
          apply_repairs-some is_child false (rs ++ repair_of name cut) outcomes files last name
            bytes applied e in
        let left : cuts name (rs ++ repair_of name cut) bytes
            ≡ cuts name (repair_of name cut) bytes =
          cuts-append name rs (repair_of name cut) bytes
          ∙ ap (cuts name (repair_of name cut)) (cuts-Elsewhere name rs bytes apart) in
        ap (λ o. check_activity o (or_else cut recorded)) after
        ∙ check_activity-again bytes recorded cut _
            (ap (λ o. check_activity o recorded) (sym e) ∙ h)
            (elim (Option-cases cut) [
              | inl n ↦ inl (n, left ∙ rw n refl)
              | inr (offset, n) ↦ inr (offset, n, left ∙ rw n (cuts_one name offset bytes))
            ])
  ]

  pub Repaired-apply :
      (entries : Result RecoveryError (List (Result RecoveryError DirEntry)))
      (sessions : Map SessionMetadata)
      → NoFile name sessions
      → Repaired (holding entries files) (λ n. ok (last n)) rs sessions
  Repaired-apply entries [] others = tt
  Repaired-apply entries ((k, s) ∷ rest) others = (
    (λ bytes found.
        let there : files s.filename ≡ some bytes = ground (arith, found) in
        let apart : Elsewhere s.filename (repair_of name cut) = elim (Option-cases cut) [
          | inl n ↦ rw n tt
          | inr (offset, n) ↦ rw n (rw (text_eq_comm s.filename name (others.0)) refl, tt)
        ] in
        ap ok (
          apply_repairs-some is_child false (rs ++ repair_of name cut) outcomes files last
            s.filename bytes applied there)
        ∙ ap (λ b. ok (some b))
            (cuts-append s.filename rs (repair_of name cut) bytes
              ∙ cuts-Elsewhere s.filename (repair_of name cut) (cuts s.filename rs bytes) apart)),
    Repaired-apply entries rest (others.1),
  )

module _ (frame_id : List ℕ → Option ℕ)
    (entries : Result RecoveryError (List (Result RecoveryError DirEntry))) (files last : Files)
    (metadata : SegmentMetadata) (stem : Text) where
  pub validated_again :
      (sessions : Map SessionMetadata) (ids : List ℕ) (offset : ℕ)
      → (found : List (Result RecoveryError DirEntry))
      → segment_stem metadata.incomplete_dir ≡ some stem
      → entries ≡ ok found
      → check_entries sessions stem found ≡ ok tt
      → AllSettled frame_id (λ n. ok (last n)) sessions ids
      → check_activity (last (activity_filename stem)) offset ≡ ok none
      → counts_from 1 (sort ids) ≡ true
      → (m : SegmentMetadata) → recount (with_files metadata sessions offset) (sort ids) ≡ m
      → validate_files frame_id (holding entries last) m
        ≡ ok (record { kind = exact; detail = []; repairs = []; updated_metadata = some m })
  unfolding validate_files validate recount
  validated_again sessions ids offset found named listed entered settled quiet counted m is =
      let start : SegmentMetadata = recount (with_files metadata sessions offset) (sort ids) in
      let run : validate_files frame_id (holding entries last) start
          ≡ ok (record { kind = exact; detail = []; repairs = []; updated_metadata = some start }) =
        ap conclude (
          bind-step _ _ stem _ (ap expect named) (
            bind-step _ _ found _ (ap question listed) (
              bind-step _ _ tt _ entered (
                bind-step _ _ (record { updated = sessions; repairs = []; ids = ids }) _
                  (check_sessions-AllSettled frame_id (holding entries last) sessions ids
                    (record { updated = sessions; repairs = []; ids = [] }) settled)
                  (bind-step _ _ (last (activity_filename stem)) _ refl (
                    bind-step _ _ none _ quiet (
                      judge-again (with_files metadata sessions offset) (sort ids) counted))))))) in
      subst
        (λ n.
          validate_files frame_id (holding entries last) n
          ≡ ok (record { kind = exact; detail = []; repairs = []; updated_metadata = some n }))
        is run
