-- ===== src/Storage/Disk.antt =====
-- The file system under `FileStorage`: files, the metadata file, open handles, and system calls
-- that may fail. `View` is what outlives a call; the rest is the environment's choices.
use solstone_tmux.Base.{
  ℕ, ◌+◌, ◌-◌, Bool, true, false, List, [], ◌∷◌, ◌++◌, Text, codes, Option, none, some, Map, Result,
  ok, err, get, length, take, drop, replicate, any, text_eq, if◌then◌else◌,
}
use Prim.Native.String.{String}
use solstone_tmux.Storage.{StorageError, io}

pub data StorageStage : Type 0 where
  append flush json_fsync metadata rollback : StorageStage

pub data AtomicWriteFault : Type 0 where
  fail_before_rename fail_after_rename : AtomicWriteFault

-- What the next system call does: it succeeds, or fails; a failed write has written some bytes.
pub data Outcome : Type 0 where
  succeeds : Outcome
  breaks : ℕ → Outcome

pub record View : Type 0 where
  pub files : Map (List ℕ)
  pub metadata : Option (List ℕ)
  pub handles : List Text
  pub temporary : Option (List ℕ)

-- `stages` are the faults injected by `FaultPlan`, `atomic_faults` those that each atomic write
-- takes; both are empty outside tests. When `outcomes` runs out, every further call succeeds.
pub record Disk : Type 0 where
  pub view : View
  pub stages : List StorageStage
  pub atomic_faults : List (Option AtomicWriteFault)
  pub outcomes : List Outcome
  pub is_regular : Text → Bool
  pub target_is_regular : Bool

-- The bytes of a file; one that is not there has none.
abbrev pub or_empty : Option (List ℕ) → List ℕ
or_empty none = []
or_empty (some content) = content

unfoldable pub stored : View → Text → List ℕ
stored v name = or_empty (get name v.files)

unfoldable pub is_open : View → Text → Bool
is_open v name = any (text_eq name) v.handles

-- `write_all` at the position `offset`
unfoldable pub write_at : ℕ → List ℕ → List ℕ → List ℕ
write_at offset bytes content =
    take offset content ++ (bytes ++ drop (offset + length bytes) content)

-- `set_len`
unfoldable pub set_len : ℕ → List ℕ → List ℕ
set_len offset content = take offset content ++ replicate (offset - length content) 0

abbrev pub Io : Type 0 → Type 0
Io A = Disk → Result StorageError A × Disk

module _ {A : Type 0} where
  unfoldable pub pure : A → Io A
  pure a d = (ok a, d)

  unfoldable pub raise : StorageError → Io A
  raise e d = (err e, d)

  unfoldable pub asks : (View → A) → Io A
  asks f d = (ok (f d.view), d)

  -- The result of a block that may fail, as a value.
  unfoldable pub attempt : Io A → Io (Result StorageError A)
  attempt m d = let (r, d') = m d in (ok r, d')

module _ {A B : Type 0} where
  abbrev pub continue : Result StorageError A → (A → Io B) → Io B
  continue (ok a) f d = f a d
  continue (err e) f d = (err e, d)

  infixl 10 ◌>>=◌ ◌>>◌
  unfoldable pub ◌>>=◌ : Io A → (A → Io B) → Io B
  ◌>>=◌ m f d = let (r, d') = m d in continue r f d'

  abbrev pub ◌>>◌ : Io A → Io B → Io B
  m >> n = m >>= λ _. n

unfoldable pub modify : (View → View) → Io (Unit {0})
modify f d = (ok tt, record d { view = f d.view })

abbrev pub next_outcome : List Outcome → Outcome
next_outcome [] = succeeds
next_outcome (o ∷ rest) = o

abbrev later_outcomes : List Outcome → List Outcome
later_outcomes [] = []
later_outcomes (o ∷ rest) = rest

-- A system call: its effect on the view and on the temporary file if it succeeds, and what a
-- failure leaves.
unfoldable pub system_call : String → (Disk → Disk) → (ℕ → Disk → Disk) → Io (Unit {0})
system_call stage effect partial d =
    let rest = record d { outcomes = later_outcomes d.outcomes } in
    elim (next_outcome d.outcomes) [
      | succeeds ↦ (ok tt, effect rest)
      | breaks n ↦ (err (io (codes stage)), partial n rest)
    ]

-- A call that changes nothing that outlives it: `seek`, `flush`, `sync_all`, an inspection.
unfoldable pub silent : String → Io (Unit {0})
unfolding system_call
silent stage = system_call stage (λ d. d) (λ n d. d)

-- A call that changes the view.
unfoldable pub changing : String → (View → View) → (ℕ → View → View) → Io (Unit {0})
unfolding system_call
changing stage effect partial =
    system_call stage (λ d. record d { view = effect d.view })
      (λ n d. record d { view = partial n d.view })

abbrev pub same_stage : StorageStage → StorageStage → Bool
same_stage append append = true
same_stage flush flush = true
same_stage json_fsync json_fsync = true
same_stage metadata metadata = true
same_stage rollback rollback = true
same_stage _ _ = false

-- `FaultPlan::fail`: whether the stage is the next one to fail.
unfoldable pub take_fault : StorageStage → Io Bool
take_fault stage d = elim d.stages [
  | [] ↦ (ok false, d)
  | next ∷ rest ↦
      if same_stage next stage then (ok true, record d { stages = rest }) else (ok false, d)
]

unfoldable pub take_atomic_fault : Io (Option AtomicWriteFault)
take_atomic_fault d = elim d.atomic_faults [
  | [] ↦ (ok none, d)
  | next ∷ rest ↦ (ok next, record d { atomic_faults = rest })
]

-- Whether a name, and the target of an atomic write, is a regular file.
unfoldable pub file_is_regular : Text → Io Bool
file_is_regular name d = (ok (d.is_regular name), d)

unfoldable pub target_is_valid : Io Bool
target_is_valid d = (ok d.target_is_regular, d)
