-- ===== src/Base/Strings.antt =====
-- Texts as lists of code points, with the methods of `str` that the program uses.
use Prim.Native.Nat.{ℕ, ◌≤◌, ◌<◌}
use Prim.Native.Char.{code}
use Prim.Native.String.{String}
use mathlib.Core.Path.{◌≡◌, refl, ap, sym, ◌∙◌}
use mathlib.Core.Logic.{◌↔◌, ◌≢◌, inl, inr}
use mathlib.Core.Bool.{Bool, true, false, ◌&&◌, ◌||◌}
use mathlib.Core.Option
use mathlib.Core.Option.{Option, none, some}
use mathlib.Core.List.{List, [], ◌∷◌, ◌++◌, append_assoc}
use native.Mathlib.Omega.{arith}
use solstone_tmux.Base.Tests.{◌==◌, if◌then◌else◌, ==_refl, is_some, Bool-cases, Option-cases}
use solstone_tmux.Base.Lists.{length, length-append}

abbrev pub Text : Type 0
Text = List ℕ

-- The code points of a literal.
abbrev pub codes : String → Text
codes String.[] = []
codes (String.◌∷◌ c s) = code c ∷ codes s

unfoldable pub text_eq : Text → Text → Bool
text_eq [] [] = true
text_eq [] (y ∷ ys) = false
text_eq (x ∷ xs) [] = false
text_eq (x ∷ xs) (y ∷ ys) = (x == y) && text_eq xs ys

pub text_eq→≡ : (xs ys : Text) → text_eq xs ys ≡ true → xs ≡ ys
unfolding text_eq
text_eq→≡ [] [] h = refl
text_eq→≡ [] (y ∷ ys) h = cc
text_eq→≡ (x ∷ xs) [] h = cc
text_eq→≡ (x ∷ xs) (y ∷ ys) h = ground (arith, text_eq→≡ xs ys)

pub text_eq_refl : (xs : Text) → text_eq xs xs ≡ true
unfolding text_eq
text_eq_refl [] = refl
text_eq_refl (x ∷ xs) = ground (arith, text_eq_refl xs)

pub ≡→text_eq : (xs ys : Text) → xs ≡ ys → text_eq xs ys ≡ true
≡→text_eq xs ys e = ap (text_eq xs) (sym e) ∙ text_eq_refl xs

pub text_eq_iff : (xs ys : Text) → (text_eq xs ys ≡ true) ↔ (xs ≡ ys)
text_eq_iff xs ys = (text_eq→≡ xs ys, ≡→text_eq xs ys)

pub text_eq_comm : (a b : Text) → text_eq a b ≡ false → text_eq b a ≡ false
text_eq_comm a b h = ground (arith, h, text_eq_iff a b, text_eq_iff b a)

-- `text.strip_prefix(pattern)`
unfoldable pub strip_prefix : Text → Text → Option Text
strip_prefix [] s = some s
strip_prefix (p ∷ ps) [] = none
strip_prefix (p ∷ ps) (x ∷ xs) = if p == x then strip_prefix ps xs else none

pub strip_prefix→append : (p s : Text) {r : Text} → strip_prefix p s ≡ some r → s ≡ p ++ r
unfolding strip_prefix
strip_prefix→append [] s h = ground arith
strip_prefix→append (p ∷ ps) [] h = cc
strip_prefix→append (p ∷ ps) (x ∷ xs) {r} h =
    ground (arith, λ (e : strip_prefix ps xs ≡ some r). strip_prefix→append ps xs e)

pub strip_prefix-append : (p r : Text) → strip_prefix p (p ++ r) ≡ some r
unfolding strip_prefix
strip_prefix-append [] r = refl
strip_prefix-append (p ∷ ps) r = rw (==_refl p) (strip_prefix-append ps r)

-- `text.strip_suffix(pattern)`
unfoldable pub strip_suffix : Text → Text → Option Text
strip_suffix p [] = if text_eq p [] then some [] else none
strip_suffix p (x ∷ xs) =
    let rest = Option.map (◌∷◌ x) (strip_suffix p xs) in
    if text_eq p (x ∷ xs) then some [] else rest

-- `text.ends_with(pattern)`
unfoldable pub ends_with : Text → Text → Bool
ends_with p s = is_some (strip_suffix p s)

-- `text.find(pattern)` together with the slice past the match: what follows the leftmost
-- occurrence of the pattern.
unfoldable pub find_after : Text → Text → Option Text
find_after p [] = strip_prefix p []
find_after p (x ∷ xs) = elim (strip_prefix p (x ∷ xs)) [ some r ↦ some r | none ↦ find_after p xs ]

-- `text.contains(c)` for one character
unfoldable pub contains : ℕ → Text → Bool
contains c [] = false
contains c (x ∷ xs) = x == c || contains c xs

abbrev pub cons_head : ℕ → List Text → List Text
cons_head x [] = (x ∷ []) ∷ []
cons_head x (p ∷ ps) = (x ∷ p) ∷ ps

-- `text.split(c)` for one character
unfoldable pub split : ℕ → Text → List Text
split c [] = [] ∷ []
split c (x ∷ xs) = let rest = split c xs in if x == c then [] ∷ rest else cons_head x rest

pub split-≢[] : (c : ℕ) (s : Text) → split c s ≢ []
unfolding split
split-≢[] c [] h = cc
split-≢[] c (x ∷ xs) h = ground arith

strip_suffix_self : (p : Text) → strip_suffix p p ≡ some []
unfolding strip_suffix text_eq
strip_suffix_self [] = refl
strip_suffix_self (x ∷ p) = rw (text_eq_refl (x ∷ p))

-- A text ends with a pattern exactly when it is something followed by the pattern.
pub ends_with-append : (gap p : Text) → ends_with p (gap ++ p) ≡ true
unfolding ends_with strip_suffix
ends_with-append [] p = rw (strip_suffix_self p)
ends_with-append (x ∷ gap) p = ground (arith, ends_with-append gap p)

pub strip_suffix→append : (p s : Text) {r : Text} → strip_suffix p s ≡ some r → s ≡ r ++ p
unfolding strip_suffix
strip_suffix→append p [] h = ground (arith, text_eq→≡ p [])
strip_suffix→append p (x ∷ xs) {r} h = elim (Bool-cases (text_eq p (x ∷ xs))) [
  | inl same ↦ let e : some [] ≡ some r = rw same at h in cc (text_eq→≡ p (x ∷ xs) same)
  | inr other ↦ elim (Option-cases (strip_suffix p xs)) [
    | inl e ↦ ground arith
    | inr (q, e) ↦ ground (arith, strip_suffix→append p xs e)
  ]
]

pub ends_with→append : (p s : Text) → ends_with p s ≡ true → (gap : Text) × (s ≡ gap ++ p)
unfolding ends_with
ends_with→append p s h = elim (Option-cases (strip_suffix p s)) [
  | inl e ↦ absurd (ground arith)
  | inr (gap, e) ↦ (gap, strip_suffix→append p s e)
]

-- What `find_after` leaves stands behind an occurrence of the pattern.
pub find_after→append :
    (p s : Text) {r : Text} → find_after p s ≡ some r → (gap : Text) × (s ≡ gap ++ (p ++ r))
unfolding find_after
find_after→append p [] h = ([], strip_prefix→append p [] h)
find_after→append p (x ∷ xs) {r} h = elim (Option-cases (strip_prefix p (x ∷ xs))) [
  | inl miss ↦
      let (gap, e) = find_after→append p xs (rw (miss, find_after) at h) in (x ∷ gap, ap (◌∷◌ x) e)
  | inr (q, hit) ↦ ([], ground (arith, strip_prefix→append p (x ∷ xs) hit))
]

find_after-hit : (p s : Text) {r : Text} → strip_prefix p s ≡ some r → find_after p s ≡ some r
unfolding find_after
find_after-hit p [] h = h
find_after-hit p (x ∷ xs) h = rw (h, find_after)

append_overlap :
    (p q r t : Text) → p ++ r ≡ q ++ t → length p ≤ length q → (gap : Text) × (r ≡ gap ++ t)
append_overlap [] q r t e h = (q, e)
append_overlap (x ∷ p) [] r t e h = absurd (omega arith)
append_overlap (x ∷ p) (y ∷ q) r t e h = append_overlap p q r t (cc) (omega arith)

-- The leftmost occurrence leaves at least what any other occurrence leaves.
pub find_after-leftmost :
    (p gap r : Text)
    → (rest extra : Text) × (find_after p (gap ++ (p ++ r)) ≡ some rest) × (rest ≡ extra ++ r)
unfolding find_after
find_after-leftmost p [] r = (r, [], find_after-hit p (p ++ r) (strip_prefix-append p r), refl)
find_after-leftmost p (x ∷ gap) r = elim (Option-cases (strip_prefix p (x ∷ (gap ++ (p ++ r))))) [
  | inl miss ↦
      let (rest, extra, e, k) = find_after-leftmost p gap r in
      (rest, extra, rw (miss, find_after) e, k)
  | inr (q, hit) ↦
      let (extra, e) =
        append_overlap p ((x ∷ gap) ++ p) q r
          (sym (strip_prefix→append p (x ∷ (gap ++ (p ++ r))) hit)
            ∙ sym (append_assoc (x ∷ gap) p r))
          (omega (arith, length-append {0} (x ∷ gap) p)) in
      (q, extra, rw (hit, find_after), e)
]

text_eq_longer : (p s : Text) → length p < length s → text_eq p s ≡ false
unfolding text_eq
text_eq_longer [] [] h = absurd (omega arith)
text_eq_longer [] (y ∷ s) h = refl
text_eq_longer (x ∷ p) [] h = absurd (omega arith)
text_eq_longer (x ∷ p) (y ∷ s) h = ground (arith, text_eq_longer p s)

pub strip_suffix-append : (s p : Text) → strip_suffix p (s ++ p) ≡ some s
unfolding strip_suffix
strip_suffix-append [] p = strip_suffix_self p
strip_suffix-append (x ∷ s) p =
    let longer : length p < length (x ∷ (s ++ p)) = omega (arith, length-append {0} s p) in
    rw (text_eq_longer p (x ∷ (s ++ p)) longer, strip_suffix-append s p)

-- `split_once(c)`
unfoldable pub split_once : ℕ → Text → Option (Text × Text)
split_once c [] = none
split_once c (x ∷ s) =
    let rest = split_once c s in
    if x == c then some ([], s) else elim rest [ none ↦ none | some (a, b) ↦ some (x ∷ a, b) ]

pub split_once-first :
    (c : ℕ) (p rest : Text) → contains c p ≡ false → split_once c (p ++ (c ∷ rest)) ≡ some (p, rest)
unfolding split_once contains
split_once-first c [] rest h = rw (==_refl c) refl
split_once-first c (x ∷ p) rest h =
    let differ : (x == c) ≡ false = ground (arith, h) in
    rw (differ, split_once-first c p rest (ground (arith, h))) refl
