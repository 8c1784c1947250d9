-- ===== src/Observer/Manager/Rotates.antt =====
-- What a poll leaves: an open segment that is younger than the interval, and the close of the one
-- before it told to synchronisation.
use solstone_tmux.Base.{
  ℕ, ◌-◌, ◌<◌, ◌≡◌, refl, sym, ap, ◌∙◌, subst, inl, inr, ◌⊎◌, true, false, List, [], ◌∷◌, ◌++◌,
  Text, Option, none, ℤ, Result, ok, err, length, leb, ◌==◌, Bool-cases, arith,
}
use solstone_tmux.Model.{CaptureResult}
use solstone_tmux.Segment.{SegmentState, SegmentClose, Failure, fails}
use solstone_tmux.Segment.Append.{append_capture, append_activity, rotation_due}
use solstone_tmux.Segment.Close.{finalize}
use solstone_tmux.Observer.Open.{
  Moment, Search, chosen, natural, name_error, path_error, panic, out_of_fuel, search,
}
use solstone_tmux.Observer.Manager.{
  Halt, ZoneMemory, Surroundings, Manager, Times, created, create_at, open_in, open_segment,
  opened_as, closed_as, rotate, appended_as, then_do, append_captures, append_rows_of, process_poll,
  read_zone,
}
use solstone_tmux.Observer.Manager.Kept.{Began, append_capture-Began, append_activity-Began}
use solstone_tmux.Observer.Manager.Steady.{create-Began}

module _ {S T D Z : Type 0} (around : Surroundings S T D Z) where
  created-Began :
      (start : ℕ) (date date' : D) (p : Result Failure (Unit {0}) × SegmentState S)
      (st : SegmentState S)
      → Began start none p.1
      → created around date p ≡ ok (date', st)
      → Began start none st
  created-Began start date date' (ok u, made) st b h =
      subst (Began start none) (ground (arith, h)) b
  created-Began start date date' (err e, made) st b h = ground (arith, h)

  create_at-Began :
      (times : Times) (offset : ℤ) (tz : Option Text) (disk : S) (local : Moment D)
      (found : Search D) (date : D) (st : SegmentState S)
      → create_at around times offset tz disk local found ≡ ok (date, st)
      → Began times.monotonic_now none st
  unfolding create_at
  create_at-Began times offset tz disk local (chosen at) date st h =
      created-Began times.monotonic_now at.date date _ st
        (create-Began (around.env at.date) _ _ _ _ _ _ _) h
  create_at-Began times offset tz disk local natural date st h =
      created-Began times.monotonic_now local.date date _ st
        (create-Began (around.env local.date) _ _ _ _ _ _ _) h
  create_at-Began times offset tz disk local name_error date st h = ground (arith, h)
  create_at-Began times offset tz disk local path_error date st h = ground (arith, h)
  create_at-Began times offset tz disk local panic date st h = ground (arith, h)
  create_at-Began times offset tz disk local out_of_fuel date st h = ground (arith, h)

  open_in-Began :
      (times : Times) (disk : S) (zone : Z × Option Text) (date : D) (st : SegmentState S)
      → open_in around times disk zone ≡ ok (date, st)
      → Began times.monotonic_now none st
  open_in-Began times disk (zone, tz) date st h =
      let local = around.zones.local zone times.wall_now in
      elim (Bool-cases (around.days.joins local.date)) [
        | inr e ↦ ground (arith, h, e)
        | inl e ↦ elim (Bool-cases (around.days.ensures local.date)) [
          | inr f ↦ ground (arith, h, e, f)
          | inl f ↦
              create_at-Began times (around.zones.offset_at zone times.wall_now) tz disk local
                (search around.days around.fuel false local) date st (ground (arith, h, e, f))
        ]
      ]

  -- What a poll has done: gone on with the segment, or closed it and opened another now.
  abbrev pub GoesOn : Times → Manager S D Z → Manager S D Z → Type 0
  GoesOn times m last =
      (rotation_due m.segment times.monotonic_now times.segment_interval ≡ false)
      × (last.closes ≡ m.closes)
      × Began m.segment.start_monotonic none last.segment

  abbrev pub Rotated : Times → Manager S D Z → Manager S D Z → Type 0
  Rotated times m last =
      (rotation_due m.segment times.monotonic_now times.segment_interval ≡ true)
      × (close : SegmentClose) × ((finalize (around.env m.date) times.monotonic_now m.segment).0
          ≡ ok close)
      × (last.closes ≡ m.closes ++ (close ∷ []))
      × Began times.monotonic_now none last.segment

  opened_as-Began :
      (times : Times) (close : SegmentClose) (m last : Manager S D Z)
      (r : Result Halt (D × SegmentState S) × ZoneMemory Z)
      → ((date : D) (st : SegmentState S) → r.0 ≡ ok (date, st) → Began times.monotonic_now none st)
      → opened_as around close m r ≡ (ok tt, last)
      → (last.closes ≡ m.closes ++ (close ∷ [])) × Began times.monotonic_now none last.segment
  opened_as-Began times close m last (err e, memory) b h = ground (arith, h)
  opened_as-Began times close m last (ok (date, st), memory) b h =
      let made : Manager S D Z = record m {
        segment = st;
        date = date;
        memory = memory;
        closes = m.closes ++ (close ∷ []);
      } in
      let same : made ≡ last = ap (λ p. p.1) h in
      (
        ap (λ (x : Manager S D Z). x.closes) (sym same),
        subst (λ (x : Manager S D Z). Began times.monotonic_now none x.segment) same
            (b date st refl),
      )

  closed_as-Rotated :
      (times : Times) (reading : Option Z) (m last : Manager S D Z)
      (p : Result Failure SegmentClose × SegmentState S)
      → closed_as around times reading m p ≡ (ok tt, last)
      → (close : SegmentClose) × (p.0 ≡ ok close)
        × (last.closes ≡ m.closes ++ (close ∷ []))
        × Began times.monotonic_now none last.segment
  unfolding open_segment
  closed_as-Rotated times reading m last (err e, st) h = ground (arith, h)
  closed_as-Rotated times reading m last (ok close, st) h =
      let (told, began) =
        opened_as-Began times close (record m { segment = st }) last _
          (λ date made e.
            open_in-Began times st.disk (read_zone around.zones reading m.memory).0 date made e)
          h in
      (close, refl, told, began)

  rotate-cases :
      (times : Times) (reading : Option Z) (m last : Manager S D Z)
      → m.segment.close_result ≡ none
      → rotate around times reading m ≡ (ok tt, last)
      → GoesOn times m last ⊎ Rotated times m last
  unfolding rotate
  rotate-cases times reading m last o h =
      elim (Bool-cases (rotation_due m.segment times.monotonic_now times.segment_interval)) [
        | inr e ↦
            let same : m ≡ last = ap (λ p. p.1) (rw e at h) in
            inl (
              e,
              ap (λ (x : Manager S D Z). x.closes) (sym same),
              subst (λ (x : Manager S D Z). Began m.segment.start_monotonic none x.segment) same
                  (record { start_is = refl; close_is = o }),
            )
        | inl e ↦
            let k : closed_as around times reading m
                  (finalize (around.env m.date) times.monotonic_now m.segment)
                ≡ (ok tt, last) =
              rw e at h in
            let (close, closes, told, began) = closed_as-Rotated times reading m last _ k in
            inr (e, close, closes, told, began)
      ]

  -- A manager goes on with the same closes, and a segment that began and is closed as said.
  abbrev pub Same : ℕ → List SegmentClose → Manager S D Z → Type 0
  Same start closes m = (m.closes ≡ closes) × Began start none m.segment

  appended_as-Same :
      {A : Type 0} (start : ℕ) (closes : List SegmentClose) (m last : Manager S D Z)
      (p : Result Failure A × SegmentState S)
      → m.closes ≡ closes
      → Began start none p.1
      → appended_as around m p ≡ (ok tt, last)
      → Same start closes last
  appended_as-Same start closes m last (ok a, st) c b h =
      subst (Same start closes) (ap (λ q. q.1) h) (c, b)
  appended_as-Same start closes m last (err (fails e), st) c b h =
      subst (Same start closes) (ap (λ q. q.1) h) (c, b)
  appended_as-Same start closes m last (err Failure.panic, st) c b h = ground (arith, h)

  then_do-ok :
      (p : Result Halt (Unit {0}) × Manager S D Z)
      (f : Manager S D Z → Result Halt (Unit {0}) × Manager S D Z) (last : Manager S D Z)
      → then_do around p f ≡ (ok tt, last)
      → (next : Manager S D Z) × (p ≡ (ok tt, next)) × (f next ≡ (ok tt, last))
  then_do-ok (ok u, m) f last h = (m, refl, h)
  then_do-ok (err e, m) f last h = ground (arith, h)

  append_captures-Same :
      (start : ℕ) (closes : List SegmentClose) (timestamp : T) (now : ℕ)
      (captures : List CaptureResult) (m last : Manager S D Z)
      → Same start closes m
      → append_captures around timestamp now captures m ≡ (ok tt, last)
      → Same start closes last
  unfolding append_captures
  append_captures-Same start closes timestamp now [] m last same h =
      subst (Same start closes) (ap (λ q. q.1) h) same
  append_captures-Same start closes timestamp now (capture ∷ captures) m last (c, b) h =
      let appended = append_capture (around.env m.date) capture timestamp now m.segment in
      let (next, e, h1) =
        then_do-ok (appended_as around m appended) (append_captures around timestamp now captures)
          last h in
      append_captures-Same start closes timestamp now captures next last
        (appended_as-Same start closes m next appended c
          (append_capture-Began (around.env m.date) start none capture timestamp now m.segment b) e)
        h1

  append_rows_of-Same :
      (start : ℕ) (closes : List SegmentClose) (activity : List ℕ) (now : ℕ)
      (m last : Manager S D Z)
      → Same start closes m
      → append_rows_of around activity now m ≡ (ok tt, last)
      → Same start closes last
  unfolding append_rows_of
  append_rows_of-Same start closes activity now m last (c, b) h =
      elim (Bool-cases (length activity == 0)) [
        | inl e ↦
            let kept : Result Halt (Unit {0}) × Manager S D Z = (ok tt, m) in
            let k : kept ≡ (ok tt, last) = rw e at h in
            subst (Same start closes) (ap (λ q. q.1) k) (c, b)
        | inr e ↦
            let k : appended_as around m
                  (append_activity (around.env m.date) activity now m.segment)
                ≡ (ok tt, last) =
              rw e at h in
            appended_as-Same start closes m last _ c
              (append_activity-Began (around.env m.date) start none activity now m.segment b) k
      ]

  young :
      (times : Times) (start : ℕ) (st : SegmentState S)
      → 0 < times.segment_interval
      → Began start none st
      → leb times.segment_interval (times.monotonic_now - start) ≡ false
      → rotation_due st times.monotonic_now times.segment_interval ≡ false
  unfolding rotation_due
  young times start st positive b h =
      ap (λ n. leb times.segment_interval (times.monotonic_now - n)) b.start_is ∙ h

  -- Let the segment be open and the interval not zero. Where process_poll succeeds, the segment is
  -- open and its time is not up; and either its time was not up before, then it began when it did and
  -- no close is told, or it was, then it has been finalized, the close that finalize gave is told
  -- once, and the segment begins now.
  pub process_poll-IsYoung :
      (captures : List CaptureResult) (activity : List ℕ) (times : Times) (reading : Option Z)
      (m last : Manager S D Z)
      → m.segment.close_result ≡ none
      → 0 < times.segment_interval
      → process_poll around captures activity times reading m ≡ (ok tt, last)
      → (rotation_due last.segment times.monotonic_now times.segment_interval ≡ false)
        × (GoesOn times m last ⊎ Rotated times m last)
  unfolding process_poll rotation_due
  process_poll-IsYoung captures activity times reading m last o positive h =
      let stamp = λ (n : Manager S D Z). around.frame_timestamp n.segment times.wall_now in
      let rows = append_rows_of around activity times.monotonic_now in
      let (next, e1, h1) =
        then_do-ok (rotate around times reading m)
          (λ n.
            then_do around (append_captures around (stamp n) times.monotonic_now captures n) rows)
          last h in
      let (near, e2, h2) =
        then_do-ok (append_captures around (stamp next) times.monotonic_now captures next) rows last
          h1 in
      elim (rotate-cases times reading m next o e1) [
        | inl (due, closes, b) ↦
            let same =
              append_rows_of-Same m.segment.start_monotonic m.closes activity times.monotonic_now
                near last
                (append_captures-Same m.segment.start_monotonic m.closes _ times.monotonic_now
                  captures next near (closes, b) e2)
                h2 in
            (
              young times m.segment.start_monotonic last.segment positive same.1 due,
              inl (due, same.0, same.1),
            )
        | inr (due, close, gave, told, b) ↦
            let same =
              append_rows_of-Same times.monotonic_now (m.closes ++ (close ∷ [])) activity
                times.monotonic_now near last
                (append_captures-Same times.monotonic_now (m.closes ++ (close ∷ [])) _
                  times.monotonic_now captures next near (told, b) e2)
                h2 in
            (
              young times times.monotonic_now last.segment positive same.1 (ground arith),
              inr (due, close, gave, same.0, same.1),
            )
      ]
