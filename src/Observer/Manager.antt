-- ===== src/Observer/Manager.antt =====
-- `open_segment` and `SegmentManager` of native/solstone-tmux/src/observer.rs: each poll goes into the
-- open segment, and a segment whose time is up is closed and followed by another.
pub mod Kept
pub mod Steady
pub mod Rotates
use solstone_tmux.Base.{
  ℕ, zero, Bool, true, false, not, List, [], ◌∷◌, ◌++◌, Text, codes, Option, none, some, ℤ, Result,
  ok, err, length, ◌==◌, if◌then◌else◌,
}
use solstone_tmux.Model.{CaptureResult}
use solstone_tmux.Name.{NameError, escapes_parent}
use solstone_tmux.Segment.{
  SegmentState, SegmentClose, SegmentError, Externals, Failure, fails, is_recoverable_append,
}
use solstone_tmux.Segment.Append.{append_capture, append_activity, rotation_due}
use solstone_tmux.Segment.Close.{finalize, create}
use solstone_tmux.Observer.Open.{
  Moment, Days, Search, chosen, natural, name_error, path_error, panic, out_of_fuel, stem_of,
  search,
}

-- Why an operation of the manager ends: by an error or a panic of the segment, or, in the model
-- alone, since the search has run out of rounds.
pub data Halt : Type 0 where
  failed : Failure → Halt
  endless : Halt

-- Zones: the local date and time and the offset of a moment in one, and its name.
pub record Zones (D Z : Type 0) : Type 0 where
  pub utc : Z
  pub iana_name : Z → Option Text
  pub offset_at : Z → ℤ → ℤ
  pub local : Z → ℤ → Moment D

-- `last_zone` and `zone_failure_warned`, and the number of warnings written.
pub record ZoneMemory (Z : Type 0) : Type 0 where
  pub last_zone : Option Z
  pub zone_failure_warned : Bool
  pub warnings : ℕ

abbrev pub fallback : {D Z : Type 0} → Zones D Z → Option Z → Z × Option Text
fallback zones none = (zones.utc, some (codes "UTC"))
fallback zones (some z) = (z, zones.iana_name z)

-- The zone of a new segment, by what `source.read()` gives; `none` is its error.
unfoldable pub read_zone :
    {D Z : Type 0} → Zones D Z → Option Z → ZoneMemory Z → (Z × Option Text) × ZoneMemory Z
read_zone zones (some z) memory =
    ((z, zones.iana_name z), record memory { last_zone = some z; zone_failure_warned = false })
read_zone zones none memory = (
  fallback zones memory.last_zone,
  if memory.zone_failure_warned
      then memory
      else record memory { zone_failure_warned = true; warnings = ℕ.suc memory.warnings },
)

-- What surrounds the manager: the file system under each date's stream directory, the calendar, the
-- zones, the timestamp of a frame, and a bound on the rounds of the search.
pub record Surroundings (S T D Z : Type 0) : Type 0 where
  pub env : D → Externals S T
  pub days : Days D
  pub zones : Zones D Z
  pub frame_timestamp : SegmentState S → ℤ → T
  pub fuel : ℕ

pub record Manager (S D Z : Type 0) : Type 0 where
  pub segment : SegmentState S
  pub date : D
  pub memory : ZoneMemory Z
  pub closes : List SegmentClose

-- The times of a poll.
pub record Times : Type 0 where
  pub wall_now : ℤ
  pub monotonic_now : ℕ
  pub segment_interval : ℕ

module _ {S T D Z : Type 0} (around : Surroundings S T D Z) where
  abbrev pub failing : SegmentError → Result Halt (D × SegmentState S)
  failing e = err (failed (fails e))

  abbrev pub created :
      D → Result Failure (Unit {0}) × SegmentState S → Result Halt (D × SegmentState S)
  created date (ok u, st) = ok (date, st)
  created date (err e, st) = err (failed e)

  -- `SegmentState::create_with_faults` at the place that the search has found.
  unfoldable pub create_at :
      Times → ℤ → Option Text → S → Moment D → Search D → Result Halt (D × SegmentState S)
  create_at times offset tz disk local (chosen at) = created at.date (
      create (around.env at.date) (stem_of at) times.wall_now times.monotonic_now offset tz
        times.segment_interval disk)
  create_at times offset tz disk local natural = created local.date (
      create (around.env local.date) (stem_of local) times.wall_now times.monotonic_now offset tz
        times.segment_interval disk)
  create_at times offset tz disk local name_error = failing (SegmentError.name escapes_parent)
  create_at times offset tz disk local path_error = failing SegmentError.path
  create_at times offset tz disk local panic = err (failed Failure.panic)
  create_at times offset tz disk local out_of_fuel = err endless

  -- From the zone on: the natural directory is made first, then the search begins.
  abbrev pub open_in : Times → S → Z × Option Text → Result Halt (D × SegmentState S)
  open_in times disk (zone, tz) =
      let local = around.zones.local zone times.wall_now in
      if not (around.days.joins local.date)
      then failing (SegmentError.name escapes_parent)
      else if not (around.days.ensures local.date)
      then failing SegmentError.path
      else create_at times (around.zones.offset_at zone times.wall_now) tz disk local
          (search around.days around.fuel false local)

  unfoldable pub open_segment :
      Times → Option Z → ZoneMemory Z → S → Result Halt (D × SegmentState S) × ZoneMemory Z
  open_segment times reading memory disk =
      let (zone, next) = read_zone around.zones reading memory in (open_in times disk zone, next)

  abbrev pub Act : Type 0 → Type 0
  Act A = Manager S D Z → Result Halt A × Manager S D Z

  abbrev pub opened_as :
      SegmentClose
      → Manager S D Z
      → Result Halt (D × SegmentState S) × ZoneMemory Z
      → Result Halt (Unit {0}) × Manager S D Z
  opened_as close m (ok (date, st), memory) = (
    ok tt,
    record m { segment = st; date = date; memory = memory; closes = m.closes ++ (close ∷ []) },
  )
  opened_as close m (err e, memory) =
      (err e, record m { memory = memory; closes = m.closes ++ (close ∷ []) })

  abbrev pub closed_as :
      Times
      → Option Z
      → Manager S D Z
      → Result Failure SegmentClose × SegmentState S
      → Result Halt (Unit {0}) × Manager S D Z
  closed_as times reading m (err e, st) = (err (failed e), record m { segment = st })
  closed_as times reading m (ok close, st) =
      opened_as close (record m { segment = st }) (open_segment times reading m.memory st.disk)

  -- The rotation at the head of `process_poll`.
  unfoldable pub rotate : Times → Option Z → Act (Unit {0})
  rotate times reading m =
      if rotation_due m.segment times.monotonic_now times.segment_interval
      then closed_as times reading m (finalize (around.env m.date) times.monotonic_now m.segment)
      else (ok tt, m)

  -- After an append: a recoverable error is passed over, any other ends the poll.
  abbrev pub appended_as :
      {A : Type 0}
      → Manager S D Z
      → Result Failure A × SegmentState S
      → Result Halt (Unit {0}) × Manager S D Z
  appended_as m (ok a, st) = (ok tt, record m { segment = st })
  appended_as m (err (fails e), st) =
      (if is_recoverable_append e then ok tt else err (failed (fails e)), record m { segment = st })
  appended_as m (err Failure.panic, st) = (err (failed Failure.panic), record m { segment = st })

  abbrev pub then_do :
      Result Halt (Unit {0}) × Manager S D Z
      → Act (Unit {0})
      → Result Halt (Unit {0}) × Manager S D Z
  then_do (ok u, m) f = f m
  then_do (err e, m) f = (err e, m)

  unfoldable pub append_captures : T → ℕ → List CaptureResult → Act (Unit {0})
  append_captures timestamp now [] m = (ok tt, m)
  append_captures timestamp now (capture ∷ captures) m =
      then_do (appended_as m (append_capture (around.env m.date) capture timestamp now m.segment))
        (λ next. append_captures timestamp now captures next)

  unfoldable pub append_rows_of : List ℕ → ℕ → Act (Unit {0})
  append_rows_of activity now m =
      if length activity == 0
      then (ok tt, m)
      else appended_as m (append_activity (around.env m.date) activity now m.segment)

  unfoldable pub process_poll : List CaptureResult → List ℕ → Times → Option Z → Act (Unit {0})
  process_poll captures activity times reading m = then_do (rotate times reading m) (λ next.
      then_do
        (append_captures (around.frame_timestamp next.segment times.wall_now) times.monotonic_now
          captures next)
        (λ last. append_rows_of activity times.monotonic_now last))

  abbrev pub shut :
      Manager S D Z
      → Result Failure SegmentClose × SegmentState S
      → Result Halt SegmentClose × Manager S D Z
  shut m (ok close, st) = (ok close, record m { segment = st })
  shut m (err e, st) = (err (failed e), record m { segment = st })

  unfoldable pub shutdown : ℕ → Act SegmentClose
  shutdown now m = shut m (finalize (around.env m.date) now m.segment)
