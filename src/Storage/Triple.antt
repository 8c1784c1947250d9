-- ===== src/Storage/Triple.antt =====
-- What a block of calls ensures: `Triple P m Q E` says that from a view with `P` the block returns
-- `a` with `Q a` of the view, or an error with `E` of the view, whatever the environment chooses.
use Prim.Native.String.{String}
use solstone_tmux.Base.{
  ℕ, ◌≡◌, refl, ◌⊎◌, inl, inr, List, Bool, true, false, [], ◌∷◌, Result, ok, err, if◌then◌else◌,
  Bool-cases, Text, Option,
}
use solstone_tmux.Storage.{StorageError}
use solstone_tmux.Storage.Disk.{
  Disk, View, Io, StorageStage, AtomicWriteFault, Outcome, succeeds, breaks, system_call, silent,
  changing, take_fault, pure, raise, asks, modify, attempt, take_atomic_fault, file_is_regular,
  target_is_valid, ◌>>=◌, continue, same_stage, next_outcome,
}

abbrev pub Post :
    {A : Type 0}
    → (A → View → Type 0)
    → (StorageError → View → Type 0)
    → Result StorageError A
    → View
    → Type 0
Post Q E (ok a) v = Q a v
Post Q E (err e) v = E e v

pub record Triple {A : Type 0} (P : View → Type 0) (m : Io A) (Q : A → View → Type 0)
    (E : StorageError → View → Type 0) : Type 0 where
  pub at : (d : Disk) → P d.view → Post Q E (m d).0 (m d).1.view

module _ {A B : Type 0} where
  Post-continue :
      {E : StorageError → View → Type 0} {Q : A → View → Type 0} {R : B → View → Type 0}
      (r : Result StorageError A) (k : A → Io B) (d : Disk)
      → ((a : A) → Triple (Q a) (k a) R E)
      → Post Q E r d.view
      → Post R E (continue r k d).0 (continue r k d).1.view
  Post-continue (ok a) k d t h = (t a).at d h
  Post-continue (err e) k d t h = h

  pub Triple-bind :
      {P : View → Type 0} {E : StorageError → View → Type 0} {Q : A → View → Type 0}
      {R : B → View → Type 0} (m : Io A) (k : A → Io B)
      → Triple P m Q E
      → ((a : A) → Triple (Q a) (k a) R E)
      → Triple P (m >>= k) R E
  unfolding ◌>>=◌
  Triple-bind m k t u = record { at = λ d h. Post-continue (m d).0 k (m d).1 u (t.at d h) }

module _ {A : Type 0} where
  pub Triple-pure :
      {P : View → Type 0} {Q : A → View → Type 0} {E : StorageError → View → Type 0} (a : A)
      → ((v : View) → P v → Q a v)
      → Triple P (pure a) Q E
  unfolding pure
  Triple-pure a weaker = record { at = λ d h. weaker d.view h }

  pub Triple-raise :
      {P : View → Type 0} {Q : A → View → Type 0} {E : StorageError → View → Type 0}
      (e : StorageError)
      → ((v : View) → P v → E e v)
      → Triple P (raise {A = A} e) Q E
  unfolding raise
  Triple-raise e weaker = record { at = λ d h. weaker d.view h }

  pub Triple-asks :
      {P : View → Type 0} {E : StorageError → View → Type 0} (f : View → A)
      → Triple P (asks f) (λ a v. P v × (f v ≡ a)) E
  unfolding asks
  Triple-asks f = record { at = λ d h. (h, refl) }

  pub Triple-attempt :
      {P : View → Type 0} {Q : A → View → Type 0} {E E' : StorageError → View → Type 0} (m : Io A)
      → Triple P m Q E
      → Triple P (attempt m) (λ r v. Post Q E r v) E'
  unfolding attempt
  Triple-attempt m t = record { at = λ d h. t.at d h }

  pub Triple-if :
      {P : View → Type 0} {Q : A → View → Type 0} {E : StorageError → View → Type 0} (b : Bool)
      (m n : Io A)
      → (b ≡ true → Triple P m Q E)
      → (b ≡ false → Triple P n Q E)
      → Triple P (if b then m else n) Q E
  Triple-if true m n t u = t refl
  Triple-if false m n t u = u refl

  -- A stronger start and weaker ends.
  pub Triple-weaken :
      {P P' : View → Type 0} {Q Q' : A → View → Type 0} {E E' : StorageError → View → Type 0}
      (m : Io A)
      → Triple P m Q E
      → ((v : View) → P' v → P v)
      → ((a : A) (v : View) → Q a v → Q' a v)
      → ((e : StorageError) (v : View) → E e v → E' e v)
      → Triple P' m Q' E'
  Triple-weaken {P} {P'} {Q} {Q'} {E} {E'} m t p q e = record {
    at = λ d h. weaken (m d).0 (m d).1.view (t.at d (p d.view h));
  }
    where
      weaken : (r : Result StorageError A) (v : View) → Post Q E r v → Post Q' E' r v
      weaken (ok a) v h = q a v h
      weaken (err x) v h = e x v h

Outcome-cases : (o : Outcome) → (o ≡ succeeds) ⊎ ((n : ℕ) × (o ≡ breaks n))
Outcome-cases succeeds = inl refl
Outcome-cases (breaks n) = inr (n, refl)

pub Triple-silent :
    {P : View → Type 0} {E : StorageError → View → Type 0} (stage : String)
    → ((e : StorageError) (v : View) → P v → E e v)
    → Triple P (silent stage) (λ _. P) E
unfolding silent
Triple-silent {P} {E} stage weaker = record {
  at = λ d h. elim (Outcome-cases (next_outcome d.outcomes)) [
    | inl e ↦ rw (e, silent, system_call) h
    | inr (n, e) ↦ rw (e, silent, system_call) (weaker _ d.view h)
  ];
}

pub Triple-changing :
    {P Q : View → Type 0} {E : StorageError → View → Type 0} (stage : String) (effect : View → View)
    (partial : ℕ → View → View)
    → ((v : View) → P v → Q (effect v))
    → ((n : ℕ) (e : StorageError) (v : View) → P v → E e (partial n v))
    → Triple P (changing stage effect partial) (λ _. Q) E
unfolding changing
Triple-changing {P} {Q} {E} stage effect partial done left = record {
  at = λ d h. elim (Outcome-cases (next_outcome d.outcomes)) [
    | inl e ↦ rw (e, changing, system_call) (done d.view h)
    | inr (n, e) ↦ rw (e, changing, system_call) (left n _ d.view h)
  ];
}

pub Triple-modify :
    {P Q : View → Type 0} {E : StorageError → View → Type 0} (f : View → View)
    → ((v : View) → P v → Q (f v))
    → Triple P (modify f) (λ _. Q) E
unfolding modify
Triple-modify f done = record { at = λ d h. done d.view h }

take_first :
    (P : View → Type 0) (E : StorageError → View → Type 0) (stage : StorageStage)
    (stages : List StorageStage) (d : Disk)
    → d.stages ≡ stages
    → P d.view
    → Post (λ _. P) E (take_fault stage d).0 (take_fault stage d).1.view
unfolding take_fault
take_first P E stage [] d e h = rw (e, take_fault) h
take_first P E stage (next ∷ rest) d e h = elim (Bool-cases (same_stage next stage)) [
  | inl same ↦ rw (e, take_fault, same) h
  | inr other ↦ rw (e, take_fault, other) h
]

pub Triple-take_fault :
    {P : View → Type 0} {E : StorageError → View → Type 0} (stage : StorageStage)
    → Triple P (take_fault stage) (λ _. P) E
Triple-take_fault {P} {E} stage = record { at = λ d h. take_first P E stage d.stages d refl h }

take_next :
    (P : View → Type 0) (E : StorageError → View → Type 0) (faults : List (Option AtomicWriteFault))
    (d : Disk)
    → d.atomic_faults ≡ faults
    → P d.view
    → Post (λ _. P) E (take_atomic_fault d).0 (take_atomic_fault d).1.view
unfolding take_atomic_fault
take_next P E [] d e h = rw (e, take_atomic_fault) h
take_next P E (next ∷ rest) d e h = rw (e, take_atomic_fault) h

pub Triple-take_atomic_fault :
    {P : View → Type 0} {E : StorageError → View → Type 0} → Triple P take_atomic_fault (λ _. P) E
Triple-take_atomic_fault {P} {E} = record { at = λ d h. take_next P E d.atomic_faults d refl h }

pub Triple-file_is_regular :
    {P : View → Type 0} {E : StorageError → View → Type 0} (name : Text)
    → Triple P (file_is_regular name) (λ _. P) E
unfolding file_is_regular
Triple-file_is_regular name = record { at = λ d h. h }

pub Triple-target_is_valid :
    {P : View → Type 0} {E : StorageError → View → Type 0} → Triple P target_is_valid (λ _. P) E
unfolding target_is_valid
Triple-target_is_valid = record { at = λ d h. h }
