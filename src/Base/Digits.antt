-- ===== src/Base/Digits.antt =====
-- ASCII classes of characters and bytes, and the hexadecimal printing of bytes.
use Prim.Native.Nat.{ℕ, ◌+◌, ◌/◌, ◌%◌, ◌<◌}
use mathlib.Core.Path.{◌≡◌, refl, ap₂}
use mathlib.Core.Bool.{Bool, ◌&&◌, ◌||◌}
use mathlib.Core.List.{List, [], ◌∷◌}
use native.Mathlib.Omega.{arith}
use solstone_tmux.Base.Tests.{ltb, leb, if◌then◌else◌}
use solstone_tmux.Base.Lists.{All}

unfoldable pub is_ascii_lowercase : ℕ → Bool
is_ascii_lowercase c = leb b'a' c && leb c b'z'

unfoldable pub is_ascii_uppercase : ℕ → Bool
is_ascii_uppercase c = leb b'A' c && leb c b'Z'

unfoldable pub is_ascii_digit : ℕ → Bool
is_ascii_digit c = leb b'0' c && leb c b'9'

unfoldable pub is_ascii_alphanumeric : ℕ → Bool
unfolding is_ascii_lowercase is_ascii_uppercase is_ascii_digit
is_ascii_alphanumeric c = is_ascii_lowercase c || (is_ascii_uppercase c || is_ascii_digit c)

unfoldable pub hex_digit : ℕ → ℕ
hex_digit d = if ltb d 10 then b'0' + d else 87 + d

-- `{byte:02x}` for each byte in turn
unfoldable pub hex_encode : List ℕ → List ℕ
unfolding hex_digit
hex_encode [] = []
hex_encode (b ∷ bs) = hex_digit (b / 16) ∷ hex_digit (b % 16) ∷ hex_encode bs

hex_byte_injective :
    (a b : ℕ)
    → a < 256
    → b < 256
    → hex_digit (a / 16) ≡ hex_digit (b / 16)
    → hex_digit (a % 16) ≡ hex_digit (b % 16)
    → a ≡ b
unfolding hex_digit
hex_byte_injective a b ha hb e f = ground arith

pub hex_encode-injective :
    (xs ys : List ℕ)
    → All (λ b. b < 256) xs
    → All (λ b. b < 256) ys
    → hex_encode xs ≡ hex_encode ys
    → xs ≡ ys
unfolding hex_encode
hex_encode-injective [] [] hx hy e = refl
hex_encode-injective [] (y ∷ ys) hx hy e = cc
hex_encode-injective (x ∷ xs) [] hx hy e = cc
hex_encode-injective (x ∷ xs) (y ∷ ys) hx hy e =
    ap₂ ◌∷◌ (hex_byte_injective x y hx.0 hy.0 (cc) (cc)) (hex_encode-injective xs ys hx.1 hy.1 (cc))
