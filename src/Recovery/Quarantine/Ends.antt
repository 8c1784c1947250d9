-- ===== src/Recovery/Quarantine/Ends.antt =====
-- The search of `quarantine` for a number ends, and what the quarantine leaves.
use solstone_tmux.Base.{
  ℕ, zero, suc, ◌+◌, ◌≡◌, ◌≢◌, refl, sym, ap, ◌∙◌, subst, inl, inr, ◌⊎◌, Bool, true, false, [], ◌∷◌,
  ◌++◌, Text, codes, none, some, Result, ok, err, is_some, strip_suffix, strip_suffix-append,
  append_assoc, Bool-cases, Option-cases, Result-cases, arith,
}
use solstone_tmux.Recovery.Validate.{RecoveryError}
use solstone_tmux.Recovery.Report.{RecoveryRecord}
use solstone_tmux.Recovery.Quarantine.{
  Entries, Calls, entry_exists, suffix_of, failed_name, failed_meta_name, stem_or, Number,
  number_is, stops, both_free, free_number, move_both, quarantine_as, quarantine,
}
use solstone_tmux.Recovery.Quarantine.Loses.{Kept, Names, unmoved, move_both-IsKept}

-- The last character.
unfoldable ending : Text → ℕ
ending [] = 0
ending (c ∷ []) = c
ending (c ∷ d ∷ s) = ending (d ∷ s)

ending-append : (s : Text) (c : ℕ) (t : Text) → ending (s ++ (c ∷ t)) ≡ ending (c ∷ t)
unfolding ending
ending-append [] c t = refl
ending-append (x ∷ []) c t = refl
ending-append (x ∷ y ∷ s) c t = ending-append (y ∷ s) c t

abbrev pub source_of : Text → Text
source_of stem = stem ++ codes ".incomplete"

abbrev pub metadata_of : Text → Text
metadata_of stem = stem ++ codes ".incomplete.meta"

failed-ending : (stem : Text) (n : ℕ) → ending (failed_name stem n) ≡ b'd'
unfolding failed_name ending
failed-ending stem n =
    ap ending (sym (append_assoc stem (suffix_of n) (codes ".failed")))
    ∙ ending-append (stem ++ suffix_of n) b'.' (codes "failed")

failed_meta-ending : (stem : Text) (n : ℕ) → ending (failed_meta_name stem n) ≡ b'a'
unfolding failed_meta_name ending
failed_meta-ending stem n =
    ap ending (sym (append_assoc stem (suffix_of n) (codes ".failed.meta")))
    ∙ ending-append (stem ++ suffix_of n) b'.' (codes "failed.meta")

source-ending : (stem : Text) → ending (source_of stem) ≡ b'e'
unfolding ending
source-ending stem = ending-append stem b'.' (codes "incomplete")

metadata-ending : (stem : Text) → ending (metadata_of stem) ≡ b'a'
unfolding ending
metadata-ending stem = ending-append stem b'.' (codes "incomplete.meta")

names_of :
    (stem : Text) (n : ℕ)
    → Names (source_of stem) (metadata_of stem) (failed_name stem n) (failed_meta_name stem n)
names_of stem n = record {
  source_metadata = λ e. ground (arith, ap ending e, source-ending stem, metadata-ending stem);
  source_failed = λ e. ground (arith, ap ending e, source-ending stem, failed-ending stem n);
  source_failed_meta =
      λ e. ground (arith, ap ending e, source-ending stem, failed_meta-ending stem n);
  metadata_failed = λ e. ground (arith, ap ending e, metadata-ending stem, failed-ending stem n);
  failed_failed_meta =
      λ e. ground (arith, ap ending e, failed-ending stem n, failed_meta-ending stem n);
}

module _ {E : Type 0} (calls : Calls) (entries : Entries E) (stem : Text) where
  -- The number's two names are free.
  abbrev pub BothFree : ℕ → Type 0
  BothFree n = (entries (failed_name stem n) ≡ none) × (entries (failed_meta_name stem n) ≡ none)

  entry_exists-false :
      (name : Text) → entry_exists calls entries name ≡ ok false → entries name ≡ none
  unfolding entry_exists
  entry_exists-false name h = elim (Bool-cases (calls.inspects name)) [
    | inr e ↦ ground (arith, h, e)
    | inl e ↦ elim (Option-cases (entries name)) [
      | inl f ↦ f
      | inr (x, f) ↦ ground (arith, h, e, f)
    ]
  ]

  entry_exists-none :
      (name : Text) → entries name ≡ none → entry_exists calls entries name ≢ ok true
  unfolding entry_exists
  entry_exists-none name f h = elim (Bool-cases (calls.inspects name)) [
    | inr e ↦ ground (arith, h, e)
    | inl e ↦ ground (arith, h, e, f)
  ]

  abbrev free_at : ℕ → Result RecoveryError Bool
  free_at n =
      both_free (entry_exists calls entries (failed_name stem n))
        (entry_exists calls entries (failed_meta_name stem n))

  both_free-true :
      (a b : Result RecoveryError Bool) → both_free a b ≡ ok true → (a ≡ ok false) × (b ≡ ok false)
  both_free-true (err e) b h = ground (arith, h)
  both_free-true (ok true) b h = ground (arith, h)
  both_free-true (ok false) (err e) h = ground (arith, h)
  both_free-true (ok false) (ok taken) h = (refl, ap ok (ground (arith, h)))

  both_free-false :
      (a b : Result RecoveryError Bool) → both_free a b ≡ ok false → (a ≡ ok true) ⊎ (b ≡ ok true)
  both_free-false (err e) b h = ground (arith, h)
  both_free-false (ok true) b h = inl refl
  both_free-false (ok false) (err e) h = ground (arith, h)
  both_free-false (ok false) (ok taken) h = inr (ap ok (ground (arith, h)))

  -- The search ends with a free number, or at a name that cannot be inspected.
  abbrev pub Ended : Number → Type 0
  Ended found =
      ((n : ℕ) × (found ≡ number_is n) × BothFree n) ⊎ ((e : RecoveryError) × (found ≡ stops e))

  taken_not_free : (n : ℕ) → free_at n ≡ ok false → ¬ BothFree n
  taken_not_free n f (a, b) = elim (both_free-false _ _ f) [
    | inl h ↦ entry_exists-none (failed_name stem n) a h
    | inr h ↦ entry_exists-none (failed_meta_name stem n) b h
  ]

  -- A round in which the number is free or cannot be inspected is the last.
  last_round :
      (k number : ℕ)
      → Ended (free_number calls entries stem (suc k) number) ⊎ (free_at number ≡ ok false)
  unfolding free_number
  last_round k number = elim (Result-cases (free_at number)) [
    | inr (e, f) ↦ inl (inr (e, rw f refl))
    | inl (true, f) ↦
        let (a, b) = both_free-true _ _ f in
        inl (
          inl (
            number,
            rw f refl,
            (
              entry_exists-false (failed_name stem number) a,
              entry_exists-false (failed_meta_name stem number) b,
            ),
          ))
    | inl (false, f) ↦ inr f
  ]

  next_round :
      (k number : ℕ)
      → free_at number ≡ ok false
      → free_number calls entries stem (suc k) number
        ≡ free_number calls entries stem k (number + 1)
  unfolding free_number
  next_round k number f = rw f refl

  free_number-Ended :
      (k number : ℕ) → BothFree (number + k) → Ended (free_number calls entries stem (suc k) number)
  free_number-Ended zero number free = elim (last_round zero number) [
    | inl e ↦ e
    | inr f ↦ absurd (taken_not_free number f (subst BothFree (omega arith) free))
  ]
  free_number-Ended (suc k) number free = elim (last_round (suc k) number) [
    | inl e ↦ e
    | inr f ↦
        subst Ended (sym (next_round (suc k) number f))
          (free_number-Ended k (number + 1) (subst BothFree (omega arith) free))
  ]

module _ {E : Type 0} (calls : Calls) (detail : Text) (entries : Entries E) (stem : Text) where
  -- Moving both, as far as they are there and can be inspected, keeps them.
  kept :
      (n : ℕ)
      → BothFree calls entries stem n
      → let p =
          move_both calls detail
            (source_of stem)
            (metadata_of stem)
            (failed_name stem n)
            (failed_meta_name stem n)
            (entry_exists calls entries (source_of stem))
            (entry_exists calls entries (metadata_of stem))
            entries in
        Kept detail
          (source_of stem)
          (metadata_of stem)
          (failed_name stem n)
          (failed_meta_name stem n)
          entries
          p.1
          p.0
  unfolding entry_exists
  kept n (free, free_meta) =
      let names = names_of stem n in
      let still =
        unmoved calls detail (source_of stem) (metadata_of stem) (failed_name stem n)
          (failed_meta_name stem n) entries names free free_meta in
      elim (Bool-cases (calls.inspects (source_of stem))) [
        | inr e ↦ rw e (still _)
        | inl e ↦ elim (Bool-cases (calls.inspects (metadata_of stem))) [
          | inr f ↦ rw (e, f) (still _)
          | inl f ↦
              rw (e, f)
                (move_both-IsKept calls detail (source_of stem) (metadata_of stem)
                  (failed_name stem n) (failed_meta_name stem n) entries names free free_meta
                  (is_some (entries (source_of stem))) (is_some (entries (metadata_of stem))) refl
                  refl)
        ]
      ]

  -- The entries as the quarantine under the number leaves them.
  abbrev pub IsQuarantine : Result RecoveryError RecoveryRecord × Entries E → Type 0
  IsQuarantine p =
      ((n : ℕ) × BothFree calls entries stem n
        × Kept detail (source_of stem) (metadata_of stem) (failed_name stem n)
            (failed_meta_name stem n) entries p.1 p.0)
      ⊎ ((e : RecoveryError) × (p ≡ (err e, entries)))

  quarantine_as-IsQuarantine :
      (found : Number)
      → Ended calls entries stem found
      → (p : Result RecoveryError RecoveryRecord × Entries E) × (quarantine_as calls detail stem
            (source_of stem)
            (metadata_of stem)
            entries
            found
          ≡ some p)
        × IsQuarantine p
  quarantine_as-IsQuarantine found (inr (e, f)) = ((err e, entries), rw f refl, inr (e, refl))
  quarantine_as-IsQuarantine found (inl (n, f, free)) =
      let names = names_of stem n in
      let done =
        move_both calls detail (source_of stem) (metadata_of stem) (failed_name stem n)
          (failed_meta_name stem n) (entry_exists calls entries (source_of stem))
          (entry_exists calls entries (metadata_of stem)) entries in
      (done, rw f refl, inl (n, free, kept n free))

-- Let the names of some number `k` be free. Then quarantine ends after at most k + 1 rounds of its
-- search, and either it has changed nothing and returns an error, or it has found a number whose two
-- names are free; source and metadata then stand each at its own name or at the new one, whatever
-- calls have failed, all other entries are as they were, and where it succeeds both are at the new
-- names and the record has the source's new name for its candidate, and the detail.
pub quarantine-ends :
    {E : Type 0} (calls : Calls) (detail : Text) (entries : Entries E) (stem : Text) (k : ℕ)
    → BothFree calls entries stem k
    → (p : Result RecoveryError RecoveryRecord × Entries E) × (quarantine calls detail
          (suc k)
          (source_of stem)
          (metadata_of stem)
          entries
        ≡ some p)
      × IsQuarantine calls detail entries stem p
unfolding quarantine
quarantine-ends calls detail entries stem k free =
    let named : stem_or (strip_suffix (codes ".incomplete") (source_of stem)) ≡ stem =
      ap stem_or (strip_suffix-append stem (codes ".incomplete")) in
    let (p, e, is) =
      quarantine_as-IsQuarantine calls detail entries stem
        (free_number calls entries stem (suc k) 0)
        (free_number-Ended calls entries stem k 0
          (subst (BothFree calls entries stem) (omega arith) free)) in
    (
      p,
      ap
            (λ s.
              quarantine_as calls detail s (source_of stem) (metadata_of stem) entries
                (free_number calls entries s (suc k) 0))
            named
          ∙ e,
      is,
    )
