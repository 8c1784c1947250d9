-- ===== src/Base/Decimal.antt =====
-- Decimal printing, with and without a minimal width.
use Prim.Native.Nat.{ℕ, zero, suc, ◌+◌, ◌-◌, ◌/◌, ◌%◌, ◌≤◌, ◌<◌, ◌*◌}
use mathlib.Core.Path.{◌≡◌, refl, ap, ◌∙◌}
use mathlib.Core.Logic.{inl, inr}
use mathlib.Core.Bool.{true}
use mathlib.Core.List.{[], ◌∷◌, ◌++◌}
use native.Mathlib.Omega.{arith}
use solstone_tmux.Base.Tests.{ltb, if◌then◌else◌, Bool-cases}
use solstone_tmux.Base.Lists.{length, all, replicate, all-append, length-append, length-replicate}
use solstone_tmux.Base.Strings.{Text}
use solstone_tmux.Base.Digits.{is_ascii_digit}

-- The digits of `n` in front of `acc`.
unfoldable pub decimal_onto : ℕ → ℕ → Text → Text
decimal_onto zero n acc = acc
decimal_onto (suc fuel) n acc =
    let more = decimal_onto fuel (n / 10) ((b'0' + n % 10) ∷ acc) in
    if ltb n 10 then (b'0' + n) ∷ acc else more

-- `{n}`: the fuel is enough, since a number falls when it is divided by ten.
unfoldable pub decimal : ℕ → Text
unfolding decimal_onto
decimal n = decimal_onto (suc n) n []

-- `{n:03}`
unfoldable pub decimal_3 : ℕ → Text
decimal_3 n = replicate (3 - length (decimal n)) b'0' ++ decimal n

decimal_onto-digits :
    (fuel n : ℕ) (acc : Text)
    → all is_ascii_digit acc ≡ true
    → all is_ascii_digit (decimal_onto fuel n acc) ≡ true
unfolding decimal_onto is_ascii_digit
decimal_onto-digits zero n acc h = h
decimal_onto-digits (suc fuel) n acc h =
    ground (arith, decimal_onto-digits fuel (n / 10) ((b'0' + n % 10) ∷ acc))

pub all-digit-decimal : (n : ℕ) → all is_ascii_digit (decimal n) ≡ true
unfolding decimal
all-digit-decimal n = decimal_onto-digits (suc n) n [] refl

zeros_digits : (k : ℕ) → all is_ascii_digit (replicate k b'0') ≡ true
unfolding is_ascii_digit
zeros_digits zero = refl
zeros_digits (suc k) = zeros_digits k

pub all-digit-decimal_3 : (n : ℕ) → all is_ascii_digit (decimal_3 n) ≡ true
unfolding decimal_3
all-digit-decimal_3 n =
    let zeros = replicate (3 - length (decimal n)) b'0' in
    all-append is_ascii_digit zeros (decimal n)
    ∙ ground (arith, zeros_digits (3 - length (decimal n)), all-digit-decimal n)

pub length-decimal_3 : (n : ℕ) → 3 ≤ length (decimal_3 n)
unfolding decimal_3
length-decimal_3 n = omega (
  arith,
  length-append {0} {A = ℕ} (replicate (3 - length (decimal n)) b'0') (decimal n),
  length-replicate {0} {A = ℕ} (3 - length (decimal n)) b'0',
)

-- The number that decimal digits are read as, after the number read so far.
unfoldable pub digits_value : ℕ → Text → ℕ
digits_value n [] = n
digits_value n (c ∷ s) = digits_value (n * 10 + (c - b'0')) s

digits_value-onto :
    (fuel n : ℕ) (acc : Text)
    → n < fuel
    → digits_value 0 (decimal_onto fuel n acc) ≡ digits_value n acc
unfolding decimal_onto digits_value
digits_value-onto zero n acc h = absurd (omega arith)
digits_value-onto (suc fuel) n acc h = elim (Bool-cases (ltb n 10)) [
  | inl small ↦ rw small (ap (λ v. digits_value v acc) (omega arith))
  | inr large ↦ rw large (
      digits_value-onto fuel (n / 10) ((b'0' + n % 10) ∷ acc) (ground arith)
      ∙ ap (λ v. digits_value v acc) (omega arith))
]

-- The digits printed for a number are read back as the number, so the fuel is enough.
pub digits_value-decimal : (n : ℕ) → digits_value 0 (decimal n) ≡ n
unfolding decimal digits_value
digits_value-decimal n = digits_value-onto (suc n) n [] (omega arith)

decimal_onto-longer :
    (fuel n : ℕ) (acc : Text) → length acc + 1 ≤ length (decimal_onto (suc fuel) n acc)
unfolding decimal_onto
decimal_onto-longer zero n acc = ground arith
decimal_onto-longer (suc fuel) n acc =
    ground (arith, decimal_onto-longer fuel (n / 10) ((b'0' + n % 10) ∷ acc))

pub length-decimal : (n : ℕ) → 1 ≤ length (decimal n)
unfolding decimal
length-decimal n = decimal_onto-longer n n []
