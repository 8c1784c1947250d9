-- ===== src/Segment/Monad.antt =====
-- Methods of `&mut self` that return a `Result`: what was written before an error stays written.
use solstone_tmux.Base.{Bool, true, false, Option, none, some, Result, ok, err, if◌then◌else◌}
use solstone_tmux.Segment.{SegmentState, SegmentError, Failure, panic, fails}

abbrev pub Method : Type 0 → Type 0 → Type 0
Method S A = SegmentState S → Result Failure A × SegmentState S

module _ {S A : Type 0} where
  abbrev pub pure : A → Method S A
  pure a st = (ok a, st)

  abbrev pub fail : SegmentError → Method S A
  fail e st = (err (fails e), st)

  -- `option.expect(…)`
  abbrev pub expect : Option A → Method S A
  expect none st = (err panic, st)
  expect (some a) st = (ok a, st)

  -- `option.ok_or(e)?`
  abbrev pub ok_or : SegmentError → Option A → Method S A
  ok_or e none st = (err (fails e), st)
  ok_or e (some a) st = (ok a, st)

  -- `result.map_err(f)?`
  abbrev pub map_err : {E : Type 0} → (E → SegmentError) → Result E A → Method S A
  map_err f (ok a) st = (ok a, st)
  map_err f (err e) st = (err (fails (f e)), st)

  abbrev pub gets : (SegmentState S → A) → Method S A
  gets f st = (ok (f st), st)

module _ {S A B : Type 0} where
  abbrev pub continue : Result Failure A → (A → Method S B) → Method S B
  continue (ok a) f st = f a st
  continue (err e) f st = (err e, st)

  infixl 10 ◌>>=◌ ◌>>◌
  abbrev pub ◌>>=◌ : Method S A → (A → Method S B) → Method S B
  ◌>>=◌ m f st = let (r, st') = m st in continue r f st'

  abbrev pub ◌>>◌ : Method S A → Method S B → Method S B
  m >> n = m >>= λ _. n

module _ {S : Type 0} where
  abbrev pub modify : (SegmentState S → SegmentState S) → Method S (Unit {0})
  modify f st = (ok tt, f st)

  -- `if test { return Err(e); }`
  abbrev pub guard_not : Bool → SegmentError → Method S (Unit {0})
  guard_not true e st = (err (fails e), st)
  guard_not false e st = (ok tt, st)

  -- A call on the file system: its state goes into the segment's.
  abbrev pub on_disk : {A : Type 0} → (S → Result SegmentError A × S) → Method S A
  on_disk call st = let (r, disk') = call st.disk in map_err (λ e. e) r (record st { disk = disk' })

-- Rules for a predicate on the state that a block leaves.
module _ {S A : Type 0} (P : SegmentState S → Type 0) where
  pub guard_not_rule :
      (b : Bool) (e : SegmentError) (m : Method S A) (st : SegmentState S)
      → P st
      → P (m st).1
      → P ((guard_not b e >> m) st).1
  guard_not_rule true e m st old new = old
  guard_not_rule false e m st old new = new

  pub if_rule :
      (b : Bool) (m n : Method S A) (st : SegmentState S)
      → P (m st).1
      → P (n st).1
      → P ((if b then m else n) st).1
  if_rule true m n st yes_case no_case = yes_case
  if_rule false m n st yes_case no_case = no_case
