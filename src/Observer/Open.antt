-- ===== src/Observer/Open.antt =====
-- The search of `open_segment` of native/solstone-tmux/src/observer.rs: the first second from now on
-- whose stem no entry of its stream directory begins with.
pub mod Free
use solstone_tmux.Base.{
  ℕ, zero, suc, ◌+◌, ◌/◌, ◌%◌, Bool, true, false, not, List, [], ◌∷◌, ◌++◌, Text, Option, none,
  some, strip_prefix, is_some, ltb, if◌then◌else◌,
}

-- `{:02}` of a number below 100
unfoldable pub two : ℕ → Text
two n = (b'0' + n / 10) ∷ (b'0' + n % 10) ∷ []

-- `cur_date`, `cur_h`, `cur_m` and `cur_s`
pub record Moment (D : Type 0) : Type 0 where
  pub date : D
  pub hour : ℕ
  pub minute : ℕ
  pub second : ℕ

unfoldable pub stem_of : {D : Type 0} → Moment D → Text
stem_of at = two at.hour ++ (two at.minute ++ two at.second)

-- The stream directory of each date, and the calendar of the `time` crate: whether the name joins
-- below it, whether it can be made, and its entries, where an entry may fail or not be UTF-8.
pub record Days (D : Type 0) : Type 0 where
  pub joins : D → Bool
  pub ensures : D → Bool
  pub read_dir : D → Option (List (Option (Option Text)))
  pub next_day : D → Option D

-- What the loop over the entries of a directory finds.
pub data Scan : Type 0 where
  free taken scan_error : Scan

unfoldable pub scan : Text → List (Option (Option Text)) → Scan
scan stem [] = free
scan stem (none ∷ entries) = scan_error
scan stem (some none ∷ entries) = scan stem entries
scan stem (some (some name) ∷ entries) =
    let rest = scan stem entries in if is_some (strip_prefix stem name) then taken else rest

abbrev pub at_date : {D : Type 0} → Option D → Option (Moment D)
at_date none = none
at_date (some date) = some (record { date = date; hour = 0; minute = 0; second = 0 })

-- The next second; `none` is the panic where the calendar ends.
unfoldable pub bump : {D : Type 0} → Days D → Moment D → Option (Moment D)
bump days at =
    if ltb at.second 59
    then some (record at { second = at.second + 1 })
    else if ltb at.minute 59
    then some (record at { minute = at.minute + 1; second = 0 })
    else if ltb at.hour 23
    then some (record at { hour = at.hour + 1; minute = 0; second = 0 })
    else at_date (days.next_day at.date)

-- How the search ends: with a moment, with the natural name, or with an error.
pub data Search (D : Type 0) : Type 0 where
  chosen : Moment D → Search D
  natural name_error path_error panic out_of_fuel : Search D

module _ {D : Type 0} (days : Days D) where
  abbrev pub go_on : Option (Moment D) → (Moment D → Search D) → Search D
  go_on none rest = panic
  go_on (some at) rest = rest at

  -- What a scan of the directory decides.
  abbrev pub decide : Moment D → Scan → (Moment D → Search D) → Search D
  decide at free rest = chosen at
  decide at scan_error rest = natural
  decide at taken rest = go_on (bump days at) rest

  abbrev pub scanned :
      Moment D → Option (List (Option (Option Text))) → (Moment D → Search D) → Search D
  scanned at none rest = natural
  scanned at (some entries) rest = decide at (scan (stem_of at) entries) rest

  -- The loop, with a bound on its rounds.
  unfoldable pub search : ℕ → Bool → Moment D → Search D
  search zero bumped at = out_of_fuel
  search (suc fuel) bumped at =
      if not (days.joins at.date)
      then name_error
      else if not (days.ensures at.date)
      then (if bumped then natural else path_error)
      else scanned at (days.read_dir at.date) (λ next. search fuel true next)
