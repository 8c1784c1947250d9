-- ===== src/Name/Charset.antt =====
-- Which texts a derived name can be.
use solstone_tmux.Base.{
  ℕ, ◌/◌, ◌%◌, ◌≤◌, ◌<◌, ◌≡◌, refl, sym, ◌∙◌, subst, ◌≢◌, inl, inr, Bool, true, false, ◌||◌, List,
  [], ◌∷◌, ◌++◌, map, Text, codes, ok, arith, All, All-append, All-mono, bytes, byte_length,
  hex_encode, hex_digit, is_ascii_lowercase, is_ascii_digit, is_ascii_alphanumeric, Bool-cases,
  ◌==◌, IsScalar, bytes-IsByte,
}
use solstone_tmux.Name.{
  DerivedName, derive_component, canonical, canonical_first, component, sanitize, is_empty,
  max_component_bytes,
}
use solstone_tmux.Name.Canonical.{derive_component-Checked, canonical-cons, component-canonical}

-- ASCII letters and digits, and `.`, `_`, `-`.
unfoldable pub is_plain : ℕ → Bool
unfolding is_ascii_alphanumeric
is_plain c = is_ascii_alphanumeric c || (c == b'.' || (c == b'_' || c == b'-'))

abbrev pub IsPlain : ℕ → Type 0
IsPlain c = is_plain c ≡ true

abbrev pub IsNameChar : ℕ → Type 0
IsNameChar c = (is_plain c || c == b'~') ≡ true

sanitize-IsPlain : (c : ℕ) → IsPlain (sanitize c)
unfolding sanitize is_plain
sanitize-IsPlain c = ground arith

pub map-sanitize-IsPlain : (s : Text) → All IsPlain (map sanitize s)
map-sanitize-IsPlain [] = tt
map-sanitize-IsPlain (c ∷ s) = (sanitize-IsPlain c, map-sanitize-IsPlain s)

IsPlain-IsNameChar : (c : ℕ) → IsPlain c → IsNameChar c
IsPlain-IsNameChar c h = ground arith

hex_digit-IsNameChar : (d : ℕ) → d < 16 → IsNameChar (hex_digit d)
unfolding is_plain hex_digit
hex_digit-IsNameChar d h = ground arith

hex_encode-IsNameChar : (bs : List ℕ) → All (λ b. b < 256) bs → All IsNameChar (hex_encode bs)
unfolding hex_encode
hex_encode-IsNameChar [] h = tt
hex_encode-IsNameChar (b ∷ bs) h = (
  hex_digit-IsNameChar (b / 16) (omega (arith, h.0)),
  (hex_digit-IsNameChar (b % 16) (omega arith), hex_encode-IsNameChar bs h.1),
)

component-IsNameChar : (raw : Text) → All IsScalar raw → All IsNameChar (component raw)
unfolding component is_plain
component-IsNameChar raw h =
    let plain =
      All-mono IsPlain IsNameChar IsPlain-IsNameChar (map sanitize raw)
        (map-sanitize-IsPlain raw) in
    elim (Bool-cases (canonical raw)) [
      | inl c ↦ rw c plain
      | inr c ↦ rw c (
          All-append IsNameChar (map sanitize raw) (b'~' ∷ hex_encode (bytes raw)) plain
            (refl, hex_encode-IsNameChar (bytes raw) (bytes-IsByte raw h)))
    ]

-- A text that begins with a canonical first character, or that has a `~` in it.
abbrev Distinct : Text → Type 0
Distinct s = (s ≢ []) × (s ≢ codes ".") × (s ≢ codes "..")

tilde-Distinct : (s t : Text) → Distinct (s ++ (b'~' ∷ t))
tilde-Distinct [] t = (λ e. cc, λ e. ground arith, λ e. ground arith)
tilde-Distinct (x ∷ []) t = (λ e. cc, λ e. cc, λ e. ground arith)
tilde-Distinct (x ∷ y ∷ []) t = (λ e. cc, λ e. cc, λ e. cc)
tilde-Distinct (x ∷ y ∷ z ∷ s) t = (λ e. cc, λ e. cc, λ e. cc)

first-Distinct : (c : ℕ) (s : Text) → canonical_first c ≡ true → Distinct (c ∷ s)
unfolding canonical_first is_ascii_lowercase is_ascii_digit
first-Distinct c s h = (λ e. cc, λ e. ground arith, λ e. ground arith)

component-Distinct : (raw : Text) → is_empty raw ≡ false → Distinct (component raw)
unfolding component is_empty
component-Distinct [] h = cc
component-Distinct (c ∷ s) h = elim (Bool-cases (canonical (c ∷ s))) [
  | inl e ↦
      subst Distinct (sym (component-canonical (c ∷ s) e))
        (first-Distinct c s (canonical-cons c s e).0)
  | inr e ↦ rw e (tilde-Distinct (map sanitize (c ∷ s)) (hex_encode (bytes (c ∷ s))))
]

-- A name that can stand for one entry of a directory.
pub record IsSafe (name : DerivedName) : Type 0 where
  pub chars : All IsNameChar name.as_str
  pub distinct : (name.as_str ≢ []) × (name.as_str ≢ codes ".") × (name.as_str ≢ codes "..")
  pub fits : byte_length name.as_str ≤ max_component_bytes

-- Whatever the identity, a name derived from it has only ASCII letters, digits and `.`, `_`, `-`,
-- `~` in it (no `/`, no NUL), is not empty, is neither `.` nor `..`, and is at most 200 bytes.
pub derive_component-IsSafe :
    (raw : Text) (name : DerivedName)
    → All IsScalar raw
    → derive_component raw ≡ ok name
    → IsSafe name
derive_component-IsSafe raw name scalar h =
    let checked = derive_component-Checked raw name h in
    let e = sym checked.named in
    record {
      chars = subst (All IsNameChar) e (component-IsNameChar raw scalar);
      distinct = subst Distinct e (component-Distinct raw checked.nonempty);
      fits = subst (λ s. byte_length s ≤ max_component_bytes) e checked.fits;
    }

-- A derived name is never empty.
pub derived-≢[] :
    (raw : Text) (name : DerivedName) → derive_component raw ≡ ok name → name.as_str ≢ []
derived-≢[] raw name h e =
    let checked = derive_component-Checked raw name h in
    (component-Distinct raw checked.nonempty).0 (sym checked.named ∙ e)
