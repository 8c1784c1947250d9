-- ===== src/Recovery/Names.antt =====
-- `valid_time_name` and `is_direct_name` of recovery.rs, and what `Path::file_name` gives them.
use solstone_tmux.Base.{
  ℕ, ◌+◌, ◌-◌, ◌*◌, ◌≡◌, refl, ap, sym, ◌∙◌, ap₂, Bool, true, false, not, ◌&&◌, ◌||◌, List, [], ◌∷◌,
  ◌++◌, Text, codes, Option, none, some, arith, All, All-append, All-mono, all, all-append, length,
  split, contains, text_eq, text_eq_refl, bytes, encode, leb, ◌==◌, is_ascii_digit, if◌then◌else◌,
  decimal_3, all→All, all-digit-decimal_3,
}
use solstone_tmux.Segment.Length.{finalized_name, as_secs}

abbrev two_digits : ℕ → ℕ → ℕ
two_digits a b = (a - b'0') * 10 + (b - b'0')

-- The ranges of hour, minute and second, on six digit bytes.
unfoldable pub time_ranges : List ℕ → Bool
time_ranges (a ∷ b ∷ c ∷ d ∷ e ∷ f ∷ []) =
    leb (two_digits a b) 23 && (leb (two_digits c d) 59 && leb (two_digits e f) 59)
time_ranges _ = false

unfoldable pub valid_time_name : Text → Bool
unfolding time_ranges
valid_time_name value =
    if not (length (bytes value) == 6) || not (all is_ascii_digit (bytes value))
    then false
    else time_ranges (bytes value)

-- The last component of a path, if it is a name: empty parts and `.` are no components.
unfoldable pub last_name : List Text → Option Text → Option Text
last_name [] found = found
last_name (part ∷ parts) found = last_name parts (
    if text_eq part [] || text_eq part (codes ".")
    then found
    else if text_eq part (codes "..")
    then none
    else some part)

-- `Path::new(name).file_name()`
unfoldable pub file_name : Text → Option Text
unfolding last_name
file_name name = last_name (split b'/' name) none

unfoldable pub is_direct_name : Text → Bool
unfolding file_name
is_direct_name name =
    not (text_eq name [])
    && (elim (file_name name) [ none ↦ false | some last ↦ text_eq last name ]
        && not (contains b'/' name))

abbrev NotSlash : ℕ → Type 0
NotSlash c = (c == b'/') ≡ false

split-no_slash : (s : Text) → All NotSlash s → split b'/' s ≡ s ∷ []
unfolding split
split-no_slash [] h = refl
split-no_slash (c ∷ s) h = rw (h.0, split-no_slash s h.1)

contains-no_slash : (s : Text) → All NotSlash s → contains b'/' s ≡ false
unfolding contains
contains-no_slash [] h = refl
contains-no_slash (c ∷ s) h = ground (arith, h.0, contains-no_slash s h.1)

digit-NotSlash : (c : ℕ) → is_ascii_digit c ≡ true → NotSlash c
unfolding is_ascii_digit
digit-NotSlash c h = ground arith

-- A name that begins with a digit and has no slash is one entry of a directory.
digit_first-direct :
    (c : ℕ) (s : Text) → is_ascii_digit c ≡ true → All NotSlash s → is_direct_name (c ∷ s) ≡ true
unfolding is_direct_name
digit_first-direct c s first later =
    let clear : All NotSlash (c ∷ s) = (digit-NotSlash c first, later) in
    rw (split-no_slash (c ∷ s) clear, is_direct_name, contains-no_slash (c ∷ s) clear)
      (unfold text_eq is_ascii_digit in ground (arith, first, text_eq_refl (c ∷ s)))

digit_bytes :
    (s : Text)
    → all is_ascii_digit (bytes s) ≡ true
    → (bytes s ≡ s) × All (λ c. is_ascii_digit c ≡ true) s
unfolding bytes
digit_bytes [] h = (refl, tt)
digit_bytes (c ∷ s) h =
    let both = sym (all-append is_ascii_digit (encode c) (bytes s)) ∙ h in
    let (one, here) = digit_byte c (ground (arith, both)) in
    let (same, rest) = digit_bytes s (ground (arith, both)) in (ap₂ ◌++◌ one same, (here, rest))
  where
    digit_byte :
        (c : ℕ)
        → all is_ascii_digit (encode c) ≡ true
        → (encode c ≡ c ∷ []) × (is_ascii_digit c ≡ true)
    digit_byte c h = unfold encode is_ascii_digit in ground arith

-- A time name is six digits.
pub valid_time_name-digits :
    (stem : Text)
    → valid_time_name stem ≡ true
    → (length stem ≡ 6) × All (λ c. is_ascii_digit c ≡ true) stem
unfolding valid_time_name
valid_time_name-digits stem h =
    let (same, digits) = digit_bytes stem (ground (arith, h)) in
    let six : length (bytes stem) ≡ 6 = ground (arith, h) in (ap length (sym same) ∙ six, digits)

direct_after :
    (stem rest : Text)
    → valid_time_name stem ≡ true
    → All NotSlash rest
    → is_direct_name (stem ++ rest) ≡ true
direct_after [] rest h clear = absurd (omega (arith, (valid_time_name-digits [] h).0))
direct_after (c ∷ stem) rest h clear =
    let digits = (valid_time_name-digits (c ∷ stem) h).1 in
    digit_first-direct c (stem ++ rest) digits.0 (
      All-append NotSlash stem rest
        (All-mono (λ c. is_ascii_digit c ≡ true) NotSlash digit-NotSlash stem digits.1) clear)

pub incomplete-direct :
    (stem : Text)
    → valid_time_name stem ≡ true
    → is_direct_name (stem ++ codes ".incomplete") ≡ true
incomplete-direct stem h =
    direct_after stem (codes ".incomplete") h
      (refl, (refl, (refl, (refl, (refl, (refl, (refl, (refl, (refl, (refl, (refl, tt)))))))))))

pub finalized_name-direct :
    (stem : Text) (elapsed : ℕ)
    → valid_time_name stem ≡ true
    → is_direct_name (finalized_name stem elapsed) ≡ true
unfolding finalized_name
finalized_name-direct stem elapsed h =
    direct_after stem (codes "_" ++ decimal_3 (as_secs elapsed)) h (
      refl,
      All-mono (λ c. is_ascii_digit c ≡ true) NotSlash digit-NotSlash (decimal_3 (as_secs elapsed))
          (all→All is_ascii_digit (decimal_3 (as_secs elapsed))
            (all-digit-decimal_3 (as_secs elapsed))),
    )
