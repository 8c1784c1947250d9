-- ===== src/Name/Canonical.antt =====
-- Canonical identities, which name themselves.
use solstone_tmux.Base.{
  ℕ, ◌≤◌, ◌≡◌, refl, ap, ap₂, sym, ◌∙◌, ◌≢◌, ◌↔◌, inl, inr, true, false, List, [], ◌∷◌, ◌++◌, map,
  Text, ok, arith, All, all, all-append, length, length-map, length-append, encode, bytes,
  byte_length, is_ascii_lowercase, is_ascii_digit, is_ascii_alphanumeric, Bool-cases,
}
use solstone_tmux.Name.{
  DerivedName, derive_component, canonical, canonical_bytes, canonical_first, canonical_later,
  component, sanitize, is_empty, max_component_bytes,
}

-- What a successful derivation has checked.
pub record Checked (raw : Text) (name : DerivedName) : Type 0 where
  pub named : name.as_str ≡ component raw
  pub nonempty : is_empty raw ≡ false
  pub fits : byte_length (component raw) ≤ max_component_bytes

pub derive_component-Checked :
    (raw : Text) (name : DerivedName) → derive_component raw ≡ ok name → Checked raw name
unfolding derive_component
derive_component-Checked raw name h = ground arith

later_char :
    (c : ℕ)
    → all canonical_later (encode c) ≡ true
    → (encode c ≡ c ∷ []) × (canonical_later c ≡ true)
unfolding canonical_later is_ascii_lowercase is_ascii_digit encode
later_char c h = ground arith

later_chars :
    (s : Text)
    → all canonical_later (bytes s) ≡ true
    → (bytes s ≡ s) × All (λ c. canonical_later c ≡ true) s
unfolding bytes
later_chars [] h = (refl, tt)
later_chars (c ∷ s) h =
    let both = sym (all-append canonical_later (encode c) (bytes s)) ∙ h in
    let (one, here) = later_char c (ground (arith, both)) in
    let (same, rest) = later_chars s (ground (arith, both)) in (ap₂ ◌++◌ one same, (here, rest))

first_char :
    (c : ℕ) (u : List ℕ)
    → canonical_bytes (encode c ++ u) ≡ true
    → (encode c ≡ c ∷ []) × (canonical_first c ≡ true) × (all canonical_later u ≡ true)
unfolding canonical_bytes is_ascii_lowercase is_ascii_digit encode
first_char c u h = ground arith

-- The characters of a canonical identity are its bytes.
pub canonical-cons :
    (c : ℕ) (s : Text)
    → canonical (c ∷ s) ≡ true
    → (canonical_first c ≡ true) × All (λ d. canonical_later d ≡ true) s × (bytes (c ∷ s) ≡ c ∷ s)
unfolding canonical bytes
canonical-cons c s h =
    let (one, first, later) = first_char c (bytes s) h in
    let (same, rest) = later_chars s later in (first, rest, ap₂ ◌++◌ one same)

pub canonical-bytes : (s : Text) → canonical s ≡ true → bytes s ≡ s
unfolding bytes
canonical-bytes [] h = refl
canonical-bytes (c ∷ s) h = (canonical-cons c s h).2

sanitize-later : (c : ℕ) → canonical_later c ≡ true → sanitize c ≡ c
unfolding sanitize canonical_later is_ascii_alphanumeric
sanitize-later c h = ground arith

sanitize-first : (c : ℕ) → canonical_first c ≡ true → sanitize c ≡ c
unfolding sanitize canonical_first is_ascii_alphanumeric
sanitize-first c h = ground arith

map-sanitize : (s : Text) → All (λ c. canonical_later c ≡ true) s → map sanitize s ≡ s
map-sanitize [] h = refl
map-sanitize (c ∷ s) h = ap₂ ◌∷◌ (sanitize-later c h.0) (map-sanitize s h.1)

pub component-canonical : (raw : Text) → canonical raw ≡ true → component raw ≡ raw
unfolding component
component-canonical [] h = rw h
component-canonical (c ∷ s) h =
    let (first, later, same) = canonical-cons c s h in
    rw h (ap₂ ◌∷◌ (sanitize-first c first) (map-sanitize s later))

-- A component that is not the identity itself is longer.
component-longer : (raw : Text) → canonical raw ≡ false → component raw ≢ raw
unfolding component
component-longer raw h e =
    let longer = rw h at (ap length e) in
    absurd
      (omega (arith, longer, length-append {0} (map sanitize raw), length-map {0, 0} sanitize raw))

-- A derived name is the identity itself exactly for the canonical identities.
pub derive_component-fixed :
    (raw : Text) (name : DerivedName)
    → derive_component raw ≡ ok name
    → (name.as_str ≡ raw) ↔ (canonical raw ≡ true)
derive_component-fixed raw name h =
    let checked = derive_component-Checked raw name h in
    (
      λ same. elim (Bool-cases (canonical raw)) [
        | inl yes_it_is ↦ yes_it_is
        | inr not_it ↦ absurd (component-longer raw not_it (sym checked.named ∙ same))
      ],
      λ c. checked.named ∙ component-canonical raw c,
    )
