-- ===== src/Recovery/Quarantine/Loses.antt =====
-- A quarantine loses nothing, wherever a system call fails.
use solstone_tmux.Base.{
  ◌≡◌, ◌≢◌, refl, sym, ap, ◌∙◌, inl, inr, ◌⊎◌, Bool, true, false, Text, none, Result, ok, err,
  text_eq_iff, is_some, Bool-cases, Option-cases, arith,
}
use solstone_tmux.Recovery.Validate.{RecoveryError}
use solstone_tmux.Recovery.Quarantine.{Entries, move, Calls, io_error, synced, move_both}
use solstone_tmux.Recovery.Report.{RecoveryRecord, quarantined}

module _ {E : Type 0} where
  -- Whatever stood at one of the two names stands at one of them now, and nothing else does.
  abbrev pub Stands : Text → Text → Entries E → Entries E → Type 0
  Stands before after entries left =
      ((left before ≡ entries before) × (left after ≡ none))
      ⊎ ((left before ≡ none) × (left after ≡ entries before))

  -- Source and metadata are each at their own name or at the one of the quarantine, all other
  -- entries are as they were, and where the quarantine succeeds both have been moved and the record
  -- names the place of the source.
  pub record Kept (detail source metadata failed failed_meta : Text) (entries left : Entries E)
      (result : Result RecoveryError RecoveryRecord) : Type 0 where
    pub source_stands : Stands source failed entries left
    pub metadata_stands : Stands metadata failed_meta entries left
    pub others :
        (name : Text)
        → name ≢ source
        → name ≢ metadata
        → name ≢ failed
        → name ≢ failed_meta
        → left name ≡ entries name
    pub moved :
        (made : RecoveryRecord)
        → result ≡ ok made
        → (left failed ≡ entries source)
          × (left failed_meta ≡ entries metadata)
          × (made ≡ quarantined failed detail)

  move-after :
      (before after : Text) (entries : Entries E) → move before after entries after ≡ entries before
  move-after before after entries = rw ((text_eq_iff after after).1 refl) refl

  move-before :
      (before after : Text) (entries : Entries E)
      → before ≢ after
      → move before after entries before ≡ none
  move-before before after entries h =
      ground (arith, h, text_eq_iff after before, text_eq_iff before before)

  move-other :
      (before after name : Text) (entries : Entries E)
      → name ≢ before
      → name ≢ after
      → move before after entries name ≡ entries name
  move-other before after name entries h g =
      ground (arith, h, g, text_eq_iff after name, text_eq_iff before name)

-- The four names differ, as far as their endings tell.
pub record Names (source metadata failed failed_meta : Text) : Type 0 where
  pub source_metadata : source ≢ metadata
  pub source_failed : source ≢ failed
  pub source_failed_meta : source ≢ failed_meta
  pub metadata_failed : metadata ≢ failed
  pub failed_failed_meta : failed ≢ failed_meta

module _ {E : Type 0} where
  module _ (calls : Calls) (detail source metadata failed failed_meta : Text) (entries : Entries E)
      (names : Names source metadata failed failed_meta) (free : entries failed ≡ none)
      (free_meta : entries failed_meta ≡ none) where
    abbrev IsKept : Result RecoveryError RecoveryRecord × Entries E → Type 0
    IsKept p = Kept detail source metadata failed failed_meta entries p.1 p.0

    -- A result whose record, where there is one, is that of the quarantine.
    abbrev Makes : Result RecoveryError RecoveryRecord → Type 0
    Makes r = (made : RecoveryRecord) → r ≡ ok made → made ≡ quarantined failed detail

    synced-Makes : Makes (synced calls detail failed)
    synced-Makes made h = elim (Bool-cases calls.syncs) [
      | inl e ↦ ground (arith, h, e)
      | inr e ↦ ground (arith, h, e)
    ]

    pub unmoved : (e : RecoveryError) → IsKept (err e, entries)
    unmoved e = record {
      source_stands = inl (refl, free);
      metadata_stands = inl (refl, free_meta);
      others = λ name h1 h2 h3 h4. refl;
      moved = λ made h. ground (arith, h);
    }

    -- The source has been moved, and the metadata is still to be.
    source_moved :
        (r : Result RecoveryError RecoveryRecord)
        → Makes r
        → ((made : RecoveryRecord) → r ≡ ok made → entries metadata ≡ none)
        → IsKept (r, move source failed entries)
    source_moved r t m = record {
      source_stands =
          inr (
            move-before source failed entries names.source_failed,
            move-after source failed entries,
          );
      metadata_stands = inl (
        move-other source failed metadata entries (λ e. names.source_metadata (sym e))
            names.metadata_failed,
        move-other source failed failed_meta entries (λ e. names.source_failed_meta (sym e))
              (λ e. names.failed_failed_meta (sym e))
            ∙ free_meta,
      );
      others = λ name h1 h2 h3 h4. move-other source failed name entries h1 h3;
      moved = λ made h. (
        move-after source failed entries,
        move-other source failed failed_meta entries (λ e. names.source_failed_meta (sym e))
              (λ e. names.failed_failed_meta (sym e))
            ∙ (free_meta ∙ sym (m made h)),
        t made h,
      );
    }

    nothing_there :
        (r : Result RecoveryError RecoveryRecord)
        → Makes r
        → entries source ≡ none
        → entries metadata ≡ none
        → IsKept (r, entries)
    nothing_there r t s m = record {
      source_stands = inl (refl, free);
      metadata_stands = inl (refl, free_meta);
      others = λ name h1 h2 h3 h4. refl;
      moved = λ made h. (free ∙ sym s, free_meta ∙ sym m, t made h);
    }

    -- The metadata alone is moved.
    metadata_moved :
        (r : Result RecoveryError RecoveryRecord)
        → Makes r
        → entries source ≡ none
        → metadata ≢ failed_meta
        → IsKept (r, move metadata failed_meta entries)
    metadata_moved r t s apart =
        let at_source =
          move-other metadata failed_meta source entries names.source_metadata
            names.source_failed_meta in
        let at_failed =
          move-other metadata failed_meta failed entries (λ e. names.metadata_failed (sym e))
            names.failed_failed_meta in
        record {
          source_stands = inl (at_source, at_failed ∙ free);
          metadata_stands = inr (
            move-before metadata failed_meta entries apart,
            move-after metadata failed_meta entries,
          );
          others = λ name h1 h2 h3 h4. move-other metadata failed_meta name entries h2 h4;
          moved = λ made h.
              (at_failed ∙ (free ∙ sym s), move-after metadata failed_meta entries, t made h);
        }

    both_moved :
        (r : Result RecoveryError RecoveryRecord)
        → Makes r
        → metadata ≢ failed_meta
        → IsKept (r, move metadata failed_meta (move source failed entries))
    both_moved r t apart =
        let first = move source failed entries in
        let at_source =
          move-other metadata failed_meta source first names.source_metadata
            names.source_failed_meta
          ∙ move-before source failed entries names.source_failed in
        let at_failed =
          move-other metadata failed_meta failed first (λ e. names.metadata_failed (sym e))
            names.failed_failed_meta
          ∙ move-after source failed entries in
        let at_meta =
          move-after metadata failed_meta first
          ∙ move-other source failed metadata entries (λ e. names.source_metadata (sym e))
              names.metadata_failed in
        record {
          source_stands = inr (at_source, at_failed);
          metadata_stands = inr (move-before metadata failed_meta first apart, at_meta);
          others = λ name h1 h2 h3 h4.
              move-other metadata failed_meta name first h2 h4
              ∙ move-other source failed name entries h1 h3;
          moved = λ made h. (at_failed, at_meta, t made h);
        }

    -- The source is moved back.
    moved_back :
        (e : RecoveryError) → IsKept (err e, move failed source (move source failed entries))
    moved_back e =
        let first = move source failed entries in
        record {
          source_stands = inl (
            move-after failed source first ∙ move-after source failed entries,
            move-before failed source first (λ h. names.source_failed (sym h)),
          );
          metadata_stands = inl (
            move-other failed source metadata first names.metadata_failed
                  (λ h. names.source_metadata (sym h))
                ∙ move-other source failed metadata entries (λ h. names.source_metadata (sym h))
                    names.metadata_failed,
            move-other failed source failed_meta first (λ h. names.failed_failed_meta (sym h))
                  (λ h. names.source_failed_meta (sym h))
                ∙ (move-other source failed failed_meta entries
                      (λ h. names.source_failed_meta (sym h))
                      (λ h. names.failed_failed_meta (sym h))
                    ∙ free_meta),
          );
          others = λ name h1 h2 h3 h4.
              move-other failed source name first h3 h1
              ∙ move-other source failed name entries h1 h3;
          moved = λ made h. ground (arith, h);
        }

    -- Where the metadata is there, its name is not the free one.
    apart_from_free : is_some (entries metadata) ≡ true → metadata ≢ failed_meta
    apart_from_free h e = ground (arith, h, free_meta, ap entries e)

    is_none : (name : Text) → is_some (entries name) ≡ false → entries name ≡ none
    is_none name h = elim (Option-cases (entries name)) [
      | inl e ↦ e
      | inr (x, e) ↦ ground (arith, h, e)
    ]

    pub move_both-IsKept :
        (s m : Bool)
        → is_some (entries source) ≡ s
        → is_some (entries metadata) ≡ m
        → IsKept (move_both calls detail source metadata failed failed_meta (ok s) (ok m) entries)
    move_both-IsKept false false s m =
        nothing_there _ synced-Makes (is_none source s) (is_none metadata m)
    move_both-IsKept false true s m = elim (Bool-cases calls.moves_metadata) [
      | inl e ↦ rw e (metadata_moved _ synced-Makes (is_none source s) (apart_from_free m))
      | inr e ↦ rw e (unmoved _)
    ]
    move_both-IsKept true false s m = elim (Bool-cases calls.moves_source) [
      | inl e ↦ rw e (source_moved _ synced-Makes (λ made h. is_none metadata m))
      | inr e ↦ rw e (unmoved _)
    ]
    move_both-IsKept true true s m = elim (Bool-cases calls.moves_source) [
      | inr e ↦ rw e (unmoved _)
      | inl e ↦ elim (Bool-cases calls.moves_metadata) [
        | inl f ↦ rw (e, f) (both_moved _ synced-Makes (apart_from_free m))
        | inr f ↦ elim (Bool-cases calls.moves_back) [
          | inl g ↦ rw (e, f, g) (moved_back _)
          | inr g ↦
              rw (e, f, g)
                (source_moved io_error (λ made h. ground (arith, h)) (λ made h. ground (arith, h)))
        ]
      ]
    ]
