-- ===== src/Name/Exact.antt =====
-- `exact_component` of native/solstone-tmux/src/sync.rs and the checks of the same form in
-- recovery.rs: the texts that are their own derived name.
use solstone_tmux.Base.{
  ℕ, ◌≤◌, ◌≡◌, refl, ap, sym, subst, ◌≢◌, ◌↔◌, inl, inr, true, false, [], ◌∷◌, Text, ok, Option,
  some, none, arith, All, split, contains, text_eq, text_eq→≡, ◌==◌, is_ascii_lowercase,
  is_ascii_digit, byte_length, codes, err, if◌then◌else◌, Result-cases, text_eq_refl,
}
use solstone_tmux.Name.{
  DerivedName, derive_component, canonical, canonical_first, canonical_later, is_empty, is_absolute,
  has_traversal, max_component_bytes,
}
use solstone_tmux.Name.Canonical.{
  derive_component-Checked, derive_component-fixed, canonical-cons, component-canonical,
}

-- `derive_component(value).ok().filter(|component| component.as_str() == value)`
unfoldable pub exact_component : Text → Option DerivedName
exact_component value = elim (derive_component value) [
  | ok name ↦ if text_eq name.as_str value then some name else none
  | err e ↦ none
]

later_not : (c d : ℕ) → canonical_later c ≡ true → canonical_later d ≡ false → (c == d) ≡ false
later_not c d h k = ground arith

no_slash : (s : Text) → All (λ c. canonical_later c ≡ true) s → split b'/' s ≡ s ∷ []
unfolding split canonical_later is_ascii_lowercase is_ascii_digit
no_slash [] h = refl
no_slash (c ∷ s) h =
    let miss : (c == b'/') ≡ false = ground (arith, h.0) in rw (miss, no_slash s h.1)

no_nul : (s : Text) → All (λ c. canonical_later c ≡ true) s → contains 0 s ≡ false
unfolding contains canonical_later is_ascii_lowercase is_ascii_digit
no_nul [] h = refl
no_nul (c ∷ s) h = ground (arith, h.0, no_nul s h.1)

first-later : (c : ℕ) → canonical_first c ≡ true → canonical_later c ≡ true
unfolding canonical_first canonical_later
first-later c h = ground arith

first_not_dots :
    (c : ℕ) (s : Text)
    → canonical_first c ≡ true
    → (text_eq (c ∷ s) (codes ".") ≡ false) × (text_eq (c ∷ s) (codes "..") ≡ false)
unfolding canonical_first is_ascii_lowercase is_ascii_digit text_eq
first_not_dots c s h = ground arith

canonical_no_traversal :
    (c : ℕ) (s : Text)
    → canonical (c ∷ s) ≡ true
    → (has_traversal (c ∷ s) ≡ false) × (is_absolute (c ∷ s) ≡ false)
unfolding has_traversal text_eq is_absolute
canonical_no_traversal c s h =
    let (first, later, same) = canonical-cons c s h in
    let one = no_slash (c ∷ s) (first-later c first, later) in
    let dots = first_not_dots c s first in
    let relative : (c == b'/') ≡ false =
      unfold canonical_first is_ascii_lowercase is_ascii_digit in ground (arith, first) in
    (rw (one, relative, dots.0, dots.1), relative)

canonical-derives :
    (raw : Text)
    → canonical raw ≡ true
    → raw ≢ []
    → byte_length raw ≤ max_component_bytes
    → derive_component raw ≡ ok (record { as_str = raw })
unfolding derive_component
canonical-derives [] c n h = absurd (n refl)
canonical-derives (x ∷ s) c n h =
    let (first, later, same) = canonical-cons x s c in
    ground (
      arith,
      no_nul (x ∷ s) (first-later x first, later),
      canonical_no_traversal x s c,
      component-canonical (x ∷ s) c,
    )

exact_component-some :
    (value : Text) (name : DerivedName)
    → exact_component value ≡ some name
    → (derive_component value ≡ ok name) × (name.as_str ≡ value)
unfolding exact_component
exact_component-some value name h = elim (Result-cases (derive_component value)) [
  | inl (n, e) ↦
      let found : (if text_eq n.as_str value then some n else none) ≡ some name =
        rw (e, exact_component) at h in
      ground (arith, text_eq→≡ n.as_str value)
  | inr (x, e) ↦ absurd (ground arith)
]

-- A text is accepted as an exact component if and only if it is canonical, not empty, and at most
-- 200 bytes, and it is then its own name.
pub exact_component_iff :
    (value : Text) (name : DerivedName)
    → (exact_component value ≡ some name) ↔ (
        (name.as_str ≡ value)
        × (canonical value ≡ true)
        × (value ≢ [])
        × (byte_length value ≤ max_component_bytes))
unfolding exact_component is_empty
exact_component_iff value name = (
  λ h.
      let (e, same) = exact_component-some value name h in
      let c = (derive_component-fixed value name e).0 same in
      let checked = derive_component-Checked value name e in
      (
        same,
        c,
        λ none_left. cc (checked.nonempty, ap is_empty none_left),
        subst (λ s. byte_length s ≤ max_component_bytes) (component-canonical value c) checked.fits,
      ),
  λ (same, c, n, fits).
      rw (canonical-derives value c n fits, exact_component, text_eq_refl value)
        (ap some (λ i. record { as_str = sym same i })),
)
