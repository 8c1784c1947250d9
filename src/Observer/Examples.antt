-- ===== src/Observer/Examples.antt =====
-- The search for a stem and a poll of native/solstone-tmux/src/observer.rs at concrete inputs.
use solstone_tmux.Base.{
  ℕ, ◌+◌, ◌≡◌, refl, ◌⊎◌, true, false, List, [], ◌∷◌, Text, codes, none, some, pos, Result, ok,
  arith, strip_prefix, strip_suffix, text_eq,
}
use solstone_tmux.Segment.Tests.{here, started}
use solstone_tmux.Segment.Length.{record_length, segment_stem}
use solstone_tmux.Segment.Append.{rotation_due}
use solstone_tmux.Segment.Steps.{◌>>=◌}
use solstone_tmux.Segment.Close.{
  on_storage, not_taken, finish, has_content, remove_directory, remove_empty_entries,
  remove_confirmed_empty, finalize, create, create_files, initial_metadata, opened_state,
}
use solstone_tmux.Observer.Open.{two, Moment, stem_of, Days, scan, bump, chosen, search}
use solstone_tmux.Observer.Open.Free.{readable, IsFirstFree, search-ends}
use solstone_tmux.Observer.Manager.{
  Halt, Surroundings, Manager, Times, read_zone, create_at, open_segment, rotate, append_captures,
  append_rows_of, process_poll,
}
use solstone_tmux.Observer.Manager.Rotates.{GoesOn, Rotated, process_poll-IsYoung}

-- Dates are numbers, and each day has one finished segment, of noon.
abbrev names : List Text
names = codes "120000_300" ∷ []

abbrev days : Days ℕ
days = record {
  joins = λ date. true;
  ensures = λ date. true;
  read_dir = λ date. some (readable names);
  next_day = λ date. some (date + 1);
}

abbrev noon : Moment ℕ
noon = record { date = 7; hour = 12; minute = 0; second = 0 }

bumped : search days 2 false noon ≡ chosen (record noon { second = 1 })
unfolding search scan stem_of two bump strip_prefix
bumped = refl

search-ends_example :
    (found : Moment ℕ) × (search days 2 false noon ≡ chosen found) × IsFirstFree names noon found
search-ends_example =
    search-ends days names noon
      (record { hours = omega arith; minutes = omega arith; seconds = omega arith })
      (record { joins = refl; ensures = refl; listed = refl }) (omega arith)

abbrev around : Surroundings (Unit {0}) ℕ ℕ ℕ
around = record {
  env = λ date. here;
  days = days;
  zones = record { utc = 0; iana_name = λ z. none; offset_at = λ z t. pos 0; local = λ z t. noon };
  frame_timestamp = λ st t. 7;
  fuel = 10;
}

abbrev manager : Manager (Unit {0}) ℕ ℕ
manager = record {
  segment = started;
  date = 6;
  memory = record { last_zone = none; zone_failure_warned = false; warnings = 0 };
  closes = [];
}

abbrev later : Times
later = record {
  wall_now = pos 0;
  monotonic_now = 400_000_000_000;
  segment_interval = 300_000_000_000;
}

abbrev polled : Result Halt (Unit {0}) × Manager (Unit {0}) ℕ ℕ
polled = process_poll around [] [] later (some 3) manager

rotated : process_poll around [] [] later (some 3) manager ≡ (ok tt, polled.1)
unfolding process_poll rotate rotation_due append_captures append_rows_of open_segment read_zone
    create_at search scan stem_of two bump strip_prefix finalize remove_confirmed_empty has_content
    remove_directory remove_empty_entries on_storage not_taken finish create create_files
    initial_metadata opened_state record_length segment_stem strip_suffix text_eq ◌>>=◌
rotated = refl

process_poll-IsYoung_example :
    (rotation_due polled.1.segment later.monotonic_now later.segment_interval ≡ false)
    × (GoesOn around later manager polled.1 ⊎ Rotated around later manager polled.1)
process_poll-IsYoung_example =
    process_poll-IsYoung around [] [] later (some 3) manager polled.1 refl (omega arith) rotated
