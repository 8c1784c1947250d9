-- ===== src/Base/Utf8.antt =====
-- The UTF-8 encoding of `str`: `as_bytes`, `len`.
use Prim.Native.Nat.{ℕ, ◌+◌, ◌/◌, ◌%◌, ◌<◌}
use mathlib.Core.Path.{◌≡◌, refl, ap, ap₂, sym, ◌∙◌}
use mathlib.Core.Logic.{◌≢◌}
use native.Mathlib.Omega.{arith}
use mathlib.Core.List.{List, [], ◌∷◌, ◌++◌, append_assoc}
use solstone_tmux.Base.Tests.{ltb, if◌then◌else◌}
use solstone_tmux.Base.Lists.{length, length-append, All, All-append}
use solstone_tmux.Base.Strings.{Text}

unfoldable pub encode : ℕ → List ℕ
encode c =
    if ltb c 0x80
    then c ∷ []
    else if ltb c 0x800
    then (0xc0 + c / 64) ∷ (0x80 + c % 64) ∷ []
    else if ltb c 0x10000
    then (0xe0 + c / 4096) ∷ (0x80 + c / 64 % 64) ∷ (0x80 + c % 64) ∷ []
    else (0xf0 + c / 262144) ∷ (0x80 + c / 4096 % 64) ∷ (0x80 + c / 64 % 64) ∷ (0x80 + c % 64) ∷ []

-- `text.as_bytes()`
unfoldable pub bytes : Text → List ℕ
bytes [] = []
bytes (c ∷ s) = encode c ++ bytes s

-- `text.len()`
unfoldable pub byte_length : Text → ℕ
byte_length s = length (bytes s)

pub bytes-append : (s t : Text) → bytes (s ++ t) ≡ bytes s ++ bytes t
unfolding bytes
bytes-append [] t = refl
bytes-append (c ∷ s) t = rw (bytes-append s t) (sym (append_assoc (encode c) (bytes s) (bytes t)))

pub byte_length-append : (s t : Text) → byte_length (s ++ t) ≡ byte_length s + byte_length t
unfolding byte_length
byte_length-append s t = ap length (bytes-append s t) ∙ length-append (bytes s) (bytes t)

-- The code points that a `char` can be, surrogates included.
abbrev pub IsScalar : ℕ → Type 0
IsScalar c = c < 0x110000

encode_prefix_free :
    (c d : ℕ) (u v : List ℕ)
    → IsScalar c
    → IsScalar d
    → encode c ++ u ≡ encode d ++ v
    → (c ≡ d) × (u ≡ v)
unfolding encode
encode_prefix_free c d u v hc hd e = ground arith

bytes-≢[] : (c : ℕ) (s : Text) → bytes (c ∷ s) ≢ []
unfolding bytes encode
bytes-≢[] c s e = ground arith

-- Two texts with the same bytes are the same.
pub bytes-injective : (s t : Text) → All IsScalar s → All IsScalar t → bytes s ≡ bytes t → s ≡ t
unfolding bytes
bytes-injective [] [] hs ht e = refl
bytes-injective [] (d ∷ t) hs ht e = absurd (bytes-≢[] d t (sym e))
bytes-injective (c ∷ s) [] hs ht e = absurd (bytes-≢[] c s e)
bytes-injective (c ∷ s) (d ∷ t) hs ht e =
    let (same, rest) = encode_prefix_free c d (bytes s) (bytes t) hs.0 ht.0 e in
    ap₂ ◌∷◌ same (bytes-injective s t hs.1 ht.1 rest)

encode-IsByte : (c : ℕ) → IsScalar c → All (λ b. b < 256) (encode c)
unfolding encode
encode-IsByte c h = ground arith

pub bytes-IsByte : (s : Text) → All IsScalar s → All (λ b. b < 256) (bytes s)
unfolding bytes
bytes-IsByte [] h = tt
bytes-IsByte (c ∷ s) h =
    All-append (λ b. b < 256) (encode c) (bytes s) (encode-IsByte c h.0) (bytes-IsByte s h.1)
