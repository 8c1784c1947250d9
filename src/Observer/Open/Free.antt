-- ===== src/Observer/Open/Free.antt =====
-- The search for a free stem ends: a directory takes at most as many seconds as it has entries.
use solstone_tmux.Base.{
  ℕ, zero, suc, ◌+◌, ◌*◌, ◌/◌, ◌%◌, ◌≤◌, ◌<◌, ◌≡◌, refl, sym, ap, ap₂, ◌∙◌, subst, inl, inr, Bool,
  true, false, ◌||◌, List, [], ◌∷◌, ◌++◌, Text, Option, some, strip_prefix, is_some, ltb,
  if◌then◌else◌, ◌==◌, ==_iff, length, any, Bool-cases, arith,
}
use solstone_tmux.Observer.Open.{
  two, Moment, stem_of, Days, free, taken, scan, bump, chosen, decide, search,
}

abbrev Names : Type 0
Names = List Text

-- Entries that can all be read, with UTF-8 names.
abbrev pub readable : List Text → List (Option (Option Text))
readable [] = []
readable (name ∷ names) = some (some name) ∷ readable names

unfoldable pub begins : Text → Text → Bool
begins stem name = is_some (strip_prefix stem name)

-- Some entry begins with the stem.
abbrev pub is_taken : List Text → Text → Bool
is_taken names stem = any (begins stem) names

scan-readable :
    (stem : Text) (names : List Text)
    → scan stem (readable names) ≡ (if is_taken names stem then taken else free)
unfolding scan begins
scan-readable stem [] = refl
scan-readable stem (name ∷ names) = elim (Bool-cases (is_some (strip_prefix stem name))) [
  | inl e ↦ rw (e, scan) refl
  | inr e ↦ rw (e, scan) (scan-readable stem names)
]

-- The second of the day at which a moment stands.
abbrev pub time_of : {D : Type 0} → Moment D → ℕ
time_of at = at.hour * 3600 + (at.minute * 60 + at.second)

pub record IsClock {D : Type 0} (at : Moment D) : Type 0 where
  pub hours : at.hour < 24
  pub minutes : at.minute < 60
  pub seconds : at.second < 60

-- The stem at a second of the day.
unfoldable pub stem_at : ℕ → Text
stem_at t = two (t / 3600) ++ (two (t / 60 % 60) ++ two (t % 60))

stem_of-time : {D : Type 0} (at : Moment D) → IsClock at → stem_of at ≡ stem_at (time_of at)
unfolding stem_of stem_at
stem_of-time at c =
    let h : time_of at / 3600 ≡ at.hour = omega (arith, c.hours, c.minutes, c.seconds) in
    let m : time_of at / 60 % 60 ≡ at.minute = omega (arith, c.hours, c.minutes, c.seconds) in
    let s : time_of at % 60 ≡ at.second = omega (arith, c.hours, c.minutes, c.seconds) in
    rw (h, m, s) refl

two-injective :
    (a b : ℕ)
    → a < 100
    → b < 100
    → b'0' + a / 10 ≡ b'0' + b / 10
    → b'0' + a % 10 ≡ b'0' + b % 10
    → a ≡ b
two-injective a b ha hb e f = omega arith

both_prefixes :
    (p q name : Text) → length p ≡ length q → begins p name ≡ true → begins q name ≡ true → p ≡ q
unfolding begins strip_prefix
both_prefixes [] [] name l h g = refl
both_prefixes [] (y ∷ q) name l h g = absurd (omega arith)
both_prefixes (x ∷ p) [] name l h g = absurd (omega arith)
both_prefixes (x ∷ p) (y ∷ q) [] l h g = ground (arith, h)
both_prefixes (x ∷ p) (y ∷ q) (c ∷ name) l h g =
    let rest : p ≡ q =
      both_prefixes p q name (omega arith) (ground (arith, h)) (ground (arith, g)) in
    ap₂ (λ c s. c ∷ s) (ground (arith, h, g)) rest

stems_long : (t u : ℕ) → length (stem_at t) ≡ length (stem_at u)
unfolding stem_at two
stems_long t u = refl

stem_at-injective : (t u : ℕ) → t < 86400 → u < 86400 → stem_at t ≡ stem_at u → t ≡ u
unfolding stem_at two
stem_at-injective t u ht hu e =
    let h : t / 3600 ≡ u / 3600 =
      two-injective (t / 3600) (u / 3600) (omega arith) (omega arith) (ground (arith, e))
        (ground (arith, e)) in
    let m : t / 60 % 60 ≡ u / 60 % 60 =
      two-injective (t / 60 % 60) (u / 60 % 60) (omega arith) (omega arith) (ground (arith, e))
        (ground (arith, e)) in
    let s : t % 60 ≡ u % 60 =
      two-injective (t % 60) (u % 60) (omega arith) (omega arith) (ground (arith, e))
        (ground (arith, e)) in
    omega arith

-- The number of the next `n` seconds whose stems pass a test.
unfoldable count : (Text → Bool) → ℕ → ℕ → ℕ
count test t zero = 0
count test t (suc n) = (if test (stem_at t) then 1 else 0) + count test (t + 1) n

-- An entry that begins with one stem begins with no later one.
count_later :
    (name : Text) (t u n : ℕ)
    → begins (stem_at t) name ≡ true
    → t < u
    → u + n ≤ 86400
    → count (λ stem. begins stem name) u n ≡ 0
unfolding count
count_later name t u zero h l fits = refl
count_later name t u (suc n) h l fits =
    let rest = count_later name t (u + 1) n h (omega arith) (omega arith) in
    elim (Bool-cases (begins (stem_at u) name)) [
      | inr e ↦ rw e (omega (arith, rest))
      | inl e ↦
          let same = both_prefixes (stem_at t) (stem_at u) name (stems_long t u) h e in
          absurd (omega (arith, stem_at-injective t u (omega arith) (omega arith) same, l))
    ]

count_one : (name : Text) (t n : ℕ) → t + n ≤ 86400 → count (λ stem. begins stem name) t n ≤ 1
unfolding count
count_one name t zero fits = omega arith
count_one name t (suc n) fits = elim (Bool-cases (begins (stem_at t) name)) [
  | inl e ↦ rw e (omega (arith, count_later name t (t + 1) n e (omega arith) (omega arith)))
  | inr e ↦ rw e (omega (arith, count_one name (t + 1) n (omega arith)))
]

count-or :
    (f g : Text → Bool) (t n : ℕ) → count (λ stem. f stem || g stem) t n ≤ count f t n + count g t n
unfolding count
count-or f g t zero = omega arith
count-or f g t (suc n) = ground (arith, count-or f g (t + 1) n)

count_none : (t n : ℕ) → count (λ stem. false) t n ≡ 0
unfolding count
count_none t zero = refl
count_none t (suc n) = omega (arith, count_none (t + 1) n)

-- Entries take at most as many seconds as they are.
count_taken :
    (names : List Text) (t n : ℕ) → t + n ≤ 86400 → count (is_taken names) t n ≤ length names
count_taken [] t n fits = omega (arith, count_none t n)
count_taken (name ∷ names) t n fits = omega (
  arith,
  count-or (λ stem. begins stem name) (is_taken names) t n,
  count_one name t n fits,
  count_taken names t n fits,
)

record Bumped {D : Type 0} (days : Days D) (at : Moment D) : Type 0 where
  pub next : Moment D
  pub bump_is : bump days at ≡ some next
  pub clock : IsClock next
  pub same_date : next.date ≡ at.date
  pub later : time_of next ≡ time_of at + 1

bump-Bumped :
    {D : Type 0} (days : Days D) (at : Moment D)
    → IsClock at
    → time_of at + 1 < 86400
    → Bumped days at
unfolding bump
bump-Bumped days at c small = elim (Bool-cases (ltb at.second 59)) [
  | inl s ↦ record {
    next = record at { second = at.second + 1 };
    bump_is = rw s refl;
    clock = record { hours = c.hours; minutes = c.minutes; seconds = ground (arith, s) };
    same_date = refl;
    later = omega arith;
  }
  | inr s ↦ elim (Bool-cases (ltb at.minute 59)) [
    | inl m ↦ record {
      next = record at { minute = at.minute + 1; second = 0 };
      bump_is = rw (s, m) refl;
      clock = record { hours = c.hours; minutes = ground (arith, m); seconds = omega arith };
      same_date = refl;
      later = ground (arith, s, c.seconds);
    }
    | inr m ↦
        let early : ltb at.hour 23 ≡ true = ground (arith, s, m, small) in
        record {
          next = record at { hour = at.hour + 1; minute = 0; second = 0 };
          bump_is = rw (s, m, early) refl;
          clock = record {
            hours = ground (arith, early);
            minutes = omega arith;
            seconds = omega arith;
          };
          same_date = refl;
          later = ground (arith, s, m, c.seconds, c.minutes);
        }
  ]
]

-- The search has found the first second from `at` on whose stem is free, on the same date.
pub record IsFirstFree {D : Type 0} (names : List Text) (at found : Moment D) : Type 0 where
  pub clock : IsClock found
  pub same_date : found.date ≡ at.date
  pub not_before : time_of at ≤ time_of found
  pub is_free : is_taken names (stem_of found) ≡ false
  pub is_first : (t : ℕ) → time_of at ≤ t → t < time_of found → is_taken names (stem_at t) ≡ true

module _ {D : Type 0} (days : Days D) (names : List Text) where
  -- The date's directory can be made and read, with these names in it.
  pub record IsListed (date : D) : Type 0 where
    pub joins : days.joins date ≡ true
    pub ensures : days.ensures date ≡ true
    pub listed : days.read_dir date ≡ some (readable names)

  search_round :
      (fuel : ℕ) (bumped : Bool) (at : Moment D)
      → IsListed at.date
      → search days (suc fuel) bumped at
        ≡ decide days at
            (if is_taken names (stem_of at) then taken else free)
            (λ next. search days fuel true next)
  unfolding search
  search_round fuel bumped at l =
      rw (l.joins, l.ensures, l.listed, scan-readable (stem_of at) names) refl

  search-IsFirstFree :
      (n : ℕ) (bumped : Bool) (at : Moment D)
      → IsClock at
      → IsListed at.date
      → time_of at + n ≤ 86400
      → count (is_taken names) (time_of at) n < n
      → (found : Moment D) × (search days n bumped at ≡ chosen found) × IsFirstFree names at found
  unfolding count
  search-IsFirstFree zero bumped at c l fits few = absurd (omega (arith, few))
  search-IsFirstFree (suc n) bumped at c l fits few =
      let here = stem_of-time at c in
      elim (Bool-cases (is_taken names (stem_of at))) [
        | inr e ↦ (
          at,
          search_round n bumped at l ∙ rw e refl,
          record {
            clock = c;
            same_date = refl;
            not_before = omega arith;
            is_free = e;
            is_first = λ t h g. absurd (omega (arith, h, g));
          },
        )
        | inl e ↦
            let now : is_taken names (stem_at (time_of at)) ≡ true =
              ap (is_taken names) (sym here) ∙ e in
            let fewer : count (is_taken names) (time_of at + 1) n < n = ground (arith, few, now) in
            let b = bump-Bumped days at c (omega (arith, fits, fewer)) in
            let (found, run, is) =
              search-IsFirstFree n true b.next b.clock (subst IsListed (sym b.same_date) l)
                (omega (arith, b.later, fits))
                (subst (λ t. count (is_taken names) t n < n) (sym b.later) fewer) in
            (
              found,
              search_round n bumped at l ∙ (rw (e, b.bump_is) run),
              record {
                clock = is.clock;
                same_date = is.same_date ∙ b.same_date;
                not_before = omega (arith, is.not_before, b.later);
                is_free = is.is_free;
                is_first = λ t h g. elim (Bool-cases (t == time_of at)) [
                  | inl same ↦
                      ap (λ x. is_taken names (stem_at x)) ((==_iff t (time_of at)).0 same) ∙ now
                  | inr other ↦ is.is_first t (ground (arith, h, other, b.later)) g
                ];
              },
            )
      ]

  -- Let the date's directory be readable, with a number of entries, and let at least one second more
  -- than there are entries be left of the day. Then the search ends after at most that many rounds,
  -- without an error and without the natural name, with the first second from the start on whose
  -- stem no entry begins with.
  pub search-ends :
      (at : Moment D)
      → IsClock at
      → IsListed at.date
      → time_of at + (length names + 1) ≤ 86400
      → (found : Moment D) × (search days (length names + 1) false at ≡ chosen found)
        × IsFirstFree names at found
  search-ends at c l fits =
      search-IsFirstFree (length names + 1) false at c l fits
        (omega (arith, count_taken names (time_of at) (length names + 1) fits))
