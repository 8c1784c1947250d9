-- ===== src/Sync/Segments.antt =====
-- `valid_segment_name` of native/solstone-tmux/src/sync.rs: which directories are segments to sync.
use solstone_tmux.Base.{
  ℕ, ◌+◌, ◌*◌, ◌/◌, ◌%◌, ◌-◌, ◌≤◌, ◌<◌, ◌≡◌, refl, ap, ap₂, ◌∙◌, Bool, true, false, not, ◌||◌, [],
  ◌∷◌, ◌++◌, Text, codes, Option, none, some, length, all, All, contains, split_once,
  split_once-first, bytes, encode, byte_length, is_ascii_digit, ltb, leb, ◌==◌, if◌then◌else◌,
  decimal_3, all-digit-decimal_3, length-decimal_3, arith,
}
use solstone_tmux.Segment.Length.{finalized_name, as_secs}
use solstone_tmux.Recovery.Names.{valid_time_name, time_ranges, valid_time_name-digits}
use solstone_tmux.Observer.Open.{two, Moment, stem_of}
use solstone_tmux.Observer.Open.Free.{IsClock}

-- The two parts of the name.
abbrev pub valid_parts : Option (Text × Text) → Bool
valid_parts none = false
valid_parts (some (time, duration)) =
    if not (byte_length time == 6)
      || (ltb (byte_length duration) 3
          || (not (all is_ascii_digit (bytes time)) || not (all is_ascii_digit (bytes duration))))
    then false
    else time_ranges (bytes time)

-- `value.split_once('_')`; `Time::from_hms` accepts the ranges of a clock.
unfoldable pub valid_segment_name : Text → Bool
valid_segment_name value = valid_parts (split_once b'_' value)

digit_encode : (c : ℕ) → is_ascii_digit c ≡ true → encode c ≡ c ∷ []
unfolding encode is_ascii_digit
digit_encode c h = ground (arith, h)

digits_same : (s : Text) → all is_ascii_digit s ≡ true → bytes s ≡ s
unfolding bytes
digits_same [] h = refl
digits_same (c ∷ s) h =
    ap₂ ◌++◌ (digit_encode c (ground (arith, h))) (digits_same s (ground (arith, h)))

digits_all : (s : Text) → All (λ c. is_ascii_digit c ≡ true) s → all is_ascii_digit s ≡ true
digits_all [] h = refl
digits_all (c ∷ s) h = ground (arith, h.0, digits_all s (h.1))

no_underscore : (s : Text) → All (λ c. is_ascii_digit c ≡ true) s → contains b'_' s ≡ false
unfolding contains is_ascii_digit
no_underscore [] h = refl
no_underscore (c ∷ s) h = ground (arith, h.0, no_underscore s (h.1))

-- Under a stem that recovery accepts, a closed segment's name is one that synchronisation takes.
finalized_name-valid :
    (stem : Text) (elapsed : ℕ)
    → valid_time_name stem ≡ true
    → valid_segment_name (finalized_name stem elapsed) ≡ true
unfolding valid_segment_name finalized_name valid_time_name byte_length
finalized_name-valid stem elapsed h =
    let (six, digits) = valid_time_name-digits stem h in
    let n = as_secs elapsed in
    let same = digits_same (decimal_3 n) (all-digit-decimal_3 n) in
    let long : ltb (length (bytes (decimal_3 n))) 3 ≡ false =
      ground (arith, ap length same, length-decimal_3 n) in
    let all_digits : all is_ascii_digit (bytes (decimal_3 n)) ≡ true =
      ap (all is_ascii_digit) same ∙ all-digit-decimal_3 n in
    let parts : split_once b'_' (stem ++ (codes "_" ++ decimal_3 n)) ≡ some (stem, decimal_3 n) =
      split_once-first b'_' stem (decimal_3 n) (no_underscore stem digits) in
    ap valid_parts parts ∙ ground (arith, long, all_digits, h)

one_digit : (d : ℕ) → d < 10 → is_ascii_digit (b'0' + d) ≡ true
unfolding is_ascii_digit
one_digit d h = ground (arith, h)

two_in :
    (n most : ℕ)
    → n ≤ most
    → most < 100
    → leb ((b'0' + n / 10 - b'0') * 10 + (b'0' + n % 10 - b'0')) most ≡ true
two_in n most h small = ground (arith, h, small)

stem_of-digits :
    {D : Type 0} (at : Moment D) → IsClock at → All (λ c. is_ascii_digit c ≡ true) (stem_of at)
unfolding stem_of two
stem_of-digits at c = (
  one_digit (at.hour / 10) (omega (arith, c.hours)),
  (
    one_digit (at.hour % 10) (omega arith),
    (
      one_digit (at.minute / 10) (omega (arith, c.minutes)),
      (
        one_digit (at.minute % 10) (omega arith),
        (
          one_digit (at.second / 10) (omega (arith, c.seconds)),
          (one_digit (at.second % 10) (omega arith), tt),
        ),
      ),
    ),
  ),
)

stem_of-ranges : {D : Type 0} (at : Moment D) → IsClock at → time_ranges (stem_of at) ≡ true
unfolding stem_of two time_ranges
stem_of-ranges at c =
    rw
      (
        two_in at.hour 23 (omega (arith, c.hours)) (omega arith),
        two_in at.minute 59 (omega (arith, c.minutes)) (omega arith),
        two_in at.second 59 (omega (arith, c.seconds)) (omega arith),
      )
      refl

stem_of-length : {D : Type 0} (at : Moment D) → length (stem_of at) ≡ 6
unfolding stem_of two
stem_of-length at = refl

stem_of-valid : {D : Type 0} (at : Moment D) → IsClock at → valid_time_name (stem_of at) ≡ true
unfolding valid_time_name
stem_of-valid at c =
    let digits = digits_all (stem_of at) (stem_of-digits at c) in
    let same = digits_same (stem_of at) digits in
    let six : (length (bytes (stem_of at)) == 6) ≡ true =
      ground (arith, ap length same, stem_of-length at) in
    let all_digits : all is_ascii_digit (bytes (stem_of at)) ≡ true =
      ap (all is_ascii_digit) same ∙ digits in
    let ranges : time_ranges (bytes (stem_of at)) ≡ true =
      ap time_ranges same ∙ stem_of-ranges at c in
    rw (six, all_digits) ranges

-- The stem that open_segment makes of a time of the day is one that recovery accepts after a crash,
-- and the name that the segment gets when it is closed with any length is one that synchronisation
-- takes for a segment.
pub valid_segment_name-finalized :
    {D : Type 0} (at : Moment D) (elapsed : ℕ)
    → IsClock at
    → (valid_time_name (stem_of at) ≡ true)
      × (valid_segment_name (finalized_name (stem_of at) elapsed) ≡ true)
valid_segment_name-finalized at elapsed c =
    let stem_is = stem_of-valid at c in (stem_is, finalized_name-valid (stem_of at) elapsed stem_is)
