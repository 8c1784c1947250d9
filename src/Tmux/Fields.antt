-- ===== src/Tmux/Fields.antt =====
-- The methods of `str` that native/solstone-tmux/src/tmux.rs reads the rows of tmux with.
use solstone_tmux.Base.{
  ℕ, zero, suc, ◌<◌, ◌≡◌, refl, ap, ◌∙◌, true, false, not, ◌||◌, List, [], ◌∷◌, ◌++◌, Text, Option,
  none, some, ℤ, pos, negsuc, length, all, contains, split, strip_suffix, ltb, ◌==◌, is_ascii_digit,
  digits_value, decimal, if◌then◌else◌, split-≢[], Option-cases, inl, inr, arith,
  strip_suffix→append, all-digit-decimal, length-decimal, digits_value-decimal, ==_refl,
}

abbrev pub text_or : Option Text → Text → Text
text_or none s = s
text_or (some t) s = t

-- A line without the `\r` before its `\n`.
unfoldable pub strip_return : Text → Text
strip_return line = text_or (strip_suffix (b'\r' ∷ []) line) line

-- `lines()` of the parts between the `\n`s: what follows the last one is a line if it is not empty.
unfoldable pub ended_lines : List Text → List Text
ended_lines [] = []
ended_lines ([] ∷ []) = []
ended_lines ((c ∷ last) ∷ []) = (c ∷ last) ∷ []
ended_lines (line ∷ next ∷ more) = strip_return line ∷ ended_lines (next ∷ more)

unfoldable pub lines : Text → List Text
lines s = ended_lines (split b'\n' s)

-- `rsplit_once(c)`
unfoldable pub rsplit_once : ℕ → Text → Option (Text × Text)
rsplit_once c [] = none
rsplit_once c (x ∷ s) = elim (rsplit_once c s) [
  | some (a, b) ↦ some (x ∷ a, b)
  | none ↦ if x == c then some ([], s) else none
]

abbrev pub parse_digits : Text → Option ℕ
parse_digits s =
    if (length s == 0) || not (all is_ascii_digit s) then none else some (digits_value 0 s)

-- `parse::<u32>()` of the text behind an optional `+`
abbrev pub below : ℕ → Option ℕ → Option ℕ
below bound none = none
below bound (some n) = if ltb n bound then some n else none

abbrev pub without_plus : Text → Text
without_plus [] = []
without_plus (c ∷ s) = if c == b'+' then s else c ∷ s

-- `parse::<u32>()`
unfoldable pub read_u32 : Text → Option ℕ
read_u32 s = below 4_294_967_296 (parse_digits (without_plus s))

abbrev pub negative : ℕ → ℤ
negative zero = pos 0
negative (suc n) = negsuc n

abbrev pub to_ℤ : (ℕ → ℤ) → Option ℕ → Option ℤ
to_ℤ f none = none
to_ℤ f (some n) = some (f n)

-- `parse::<i64>()`
unfoldable pub read_i64 : Text → Option ℤ
read_i64 [] = none
read_i64 (c ∷ s) =
    if c == b'-'
    then to_ℤ negative (below 9_223_372_036_854_775_809 (parse_digits s))
    else to_ℤ pos (below 9_223_372_036_854_775_808 (parse_digits (without_plus (c ∷ s))))

pub split-first :
    (c : ℕ) (p rest : Text) → contains c p ≡ false → split c (p ++ (c ∷ rest)) ≡ p ∷ split c rest
unfolding split contains
split-first c [] rest h = rw (==_refl c) refl
split-first c (x ∷ p) rest h =
    let differ : (x == c) ≡ false = ground (arith, h) in
    rw (differ, split-first c p rest (ground (arith, h))) refl

pub split-last : (c : ℕ) (p : Text) → contains c p ≡ false → split c p ≡ p ∷ []
unfolding split contains
split-last c [] h = refl
split-last c (x ∷ p) h =
    let differ : (x == c) ≡ false = ground (arith, h) in
    rw (differ, split-last c p (ground (arith, h))) refl

pub contains-append :
    (c : ℕ) (p s : Text) → contains c p ≡ false → contains c s ≡ false → contains c (p ++ s) ≡ false
unfolding contains
contains-append c [] s h g = g
contains-append c (x ∷ p) s h g = ground (arith, h, contains-append c p s (ground (arith, h)) g)

contains-end : (c : ℕ) (s : Text) → contains c (s ++ (c ∷ [])) ≡ true
unfolding contains
contains-end c [] = rw (==_refl c) refl
contains-end c (x ∷ s) = ground (arith, contains-end c s)

strip_return-same : (s : Text) → contains b'\r' s ≡ false → strip_return s ≡ s
unfolding strip_return
strip_return-same s h = elim (Option-cases (strip_suffix (b'\r' ∷ []) s)) [
  | inl e ↦ rw e refl
  | inr (r, e) ↦
      ground
        (arith, h, contains-end b'\r' r, ap (contains b'\r') (strip_suffix→append (b'\r' ∷ []) s e))
]

ended_lines-cons :
    (line : Text) (parts : List Text)
    → ¬ (parts ≡ [])
    → ended_lines (line ∷ parts) ≡ strip_return line ∷ ended_lines parts
unfolding ended_lines
ended_lines-cons line [] h = absurd (h refl)
ended_lines-cons [] (p ∷ ps) h = refl
ended_lines-cons (c ∷ line) (p ∷ ps) h = refl

-- A row without a line break is the first of the lines.
pub lines-cons :
    (row rest : Text)
    → contains b'\n' row ≡ false
    → contains b'\r' row ≡ false
    → lines (row ++ (b'\n' ∷ rest)) ≡ row ∷ lines rest
unfolding lines
lines-cons row rest h g =
    ap ended_lines (split-first b'\n' row rest h)
    ∙ (ended_lines-cons row (split b'\n' rest) (split-≢[] b'\n' rest)
        ∙ ap (λ r. r ∷ ended_lines (split b'\n' rest)) (strip_return-same row g))

digits-contain :
    (c : ℕ) (s : Text)
    → is_ascii_digit c ≡ false
    → all is_ascii_digit s ≡ true
    → contains c s ≡ false
unfolding contains is_ascii_digit
digits-contain c [] h d = refl
digits-contain c (x ∷ s) h d = ground (arith, h, d, digits-contain c s h (ground (arith, d)))

pub contains-decimal : (c n : ℕ) → is_ascii_digit c ≡ false → contains c (decimal n) ≡ false
contains-decimal c n h = digits-contain c (decimal n) h (all-digit-decimal n)

without_plus-digits : (s : Text) → all is_ascii_digit s ≡ true → without_plus s ≡ s
unfolding is_ascii_digit
without_plus-digits [] d = refl
without_plus-digits (c ∷ s) d = ground (arith, d)

-- A printed number is read again.
pub read_u32-decimal : (n : ℕ) → n < 4_294_967_296 → read_u32 (decimal n) ≡ some n
unfolding read_u32
read_u32-decimal n h =
    let d = all-digit-decimal n in
    let some_digit : (length (decimal n) == 0) ≡ false = ground (arith, length-decimal n) in
    let small : ltb n 4_294_967_296 ≡ true = ground (arith, h) in
    rw (without_plus-digits (decimal n) d, d, some_digit, digits_value-decimal n, small) refl

pub read_u32-bound : (s : Text) (n : ℕ) → read_u32 s ≡ some n → n < 4_294_967_296
unfolding read_u32
read_u32-bound s n h = ground (arith, h)
