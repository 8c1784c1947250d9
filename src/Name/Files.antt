-- ===== src/Name/Files.antt =====
-- The file names of a segment: `valid_activity_filename` of native/solstone-tmux/src/name.rs and
-- `valid_capture_filename` of native/solstone-tmux/src/sync.rs.
use solstone_tmux.Base.{
  ℕ, ◌+◌, ◌≤◌, ◌≡◌, refl, ap, sym, ◌∙◌, subst, ◌≢◌, ◌↔◌, inl, inr, Bool, true, false, not, ◌&&◌, [],
  ◌∷◌, ◌++◌, map, Text, codes, ok, err, Option, some, none, arith, All, all, all→All, ap₂,
  All-append, text_eq, strip_prefix, strip_suffix, is_some, strip_prefix-append,
  strip_suffix-append, bytes, encode, byte_length, byte_length-append, hex_encode,
  is_ascii_lowercase, is_ascii_digit, Bool-cases, Option-cases, if◌then◌else◌,
}
use solstone_tmux.Name.{
  DerivedName, derive_component, session_filename, canonical, canonical_bytes, canonical_first,
  canonical_later, component, sanitize, max_component_bytes,
}
use solstone_tmux.Name.Canonical.{derive_component-Checked, canonical-cons, component-canonical}
use solstone_tmux.Name.Charset.{derived-≢[]}
use solstone_tmux.Name.Exact.{exact_component, exact_component_iff}

-- `derive_component(name).is_ok_and(|component| component.as_str() == name)`
unfoldable pub names_itself : Text → Bool
names_itself name = elim (derive_component name) [
  | ok derived ↦ text_eq derived.as_str name
  | err e ↦ false
]

unfoldable pub valid_activity_filename : Text → Text → Bool
unfolding names_itself
valid_activity_filename name stem =
    if text_eq name (stem ++ codes "_desktop_activity.jsonl")
    then names_itself name
    else elim (strip_prefix (stem ++ codes "_") name) [
      | none ↦ false
      | some value ↦ elim (strip_suffix (codes "_desktop_activity.jsonl") value) [
        | none ↦ false
        | some id ↦ not (text_eq id []) && names_itself name
      ]
    ]

-- `strip_prefix("tmux_").and_then(|value| value.strip_suffix("_screen.jsonl"))`
unfoldable pub captured_session : Text → Option Text
captured_session value = elim (strip_prefix (codes "tmux_") value) [
  | none ↦ none
  | some rest ↦ strip_suffix (codes "_screen.jsonl") rest
]

unfoldable pub valid_capture_filename : Text → Bool
unfolding captured_session
valid_capture_filename value = elim (captured_session value) [
  | none ↦ false
  | some session ↦ is_some (exact_component value) && is_some (exact_component session)
]

captured_session-session_filename :
    (name : DerivedName) → captured_session (session_filename name) ≡ some name.as_str
unfolding captured_session session_filename
captured_session-session_filename name =
    rw
      (strip_prefix-append (codes "tmux_") (name.as_str ++ codes "_screen.jsonl"), captured_session)
      (strip_suffix-append name.as_str (codes "_screen.jsonl"))

-- Canonical texts, by their characters.
abbrev IsLater : ℕ → Type 0
IsLater c = canonical_later c ≡ true

later_encode : (c : ℕ) → IsLater c → encode c ≡ c ∷ []
unfolding canonical_later encode is_ascii_lowercase is_ascii_digit
later_encode c h = ground arith

bytes-IsLater : (s : Text) → All IsLater s → bytes s ≡ s
unfolding bytes
bytes-IsLater [] h = refl
bytes-IsLater (c ∷ s) h = ap₂ ◌++◌ (later_encode c h.0) (bytes-IsLater s h.1)

all-IsLater : (s : Text) → All IsLater s → all canonical_later s ≡ true
all-IsLater [] h = refl
all-IsLater (c ∷ s) h = ground (arith, h.0, all-IsLater s h.1)

first-IsLater : (c : ℕ) → canonical_first c ≡ true → IsLater c
unfolding canonical_first canonical_later
first-IsLater c h = ground arith

canonical_of_chars :
    (c : ℕ) (s : Text) → canonical_first c ≡ true → All IsLater s → canonical (c ∷ s) ≡ true
unfolding canonical canonical_bytes
canonical_of_chars c s first later =
    rw (bytes-IsLater (c ∷ s) (first-IsLater c first, later)) (ground (arith, all-IsLater s later))

canonical-IsLater : (s : Text) → canonical s ≡ true → All IsLater s
canonical-IsLater [] h = tt
canonical-IsLater (c ∷ s) h =
    let (first, later, same) = canonical-cons c s h in (first-IsLater c first, later)

later_no_tilde : (p t : Text) → All IsLater (p ++ (b'~' ∷ t)) → ⊥
unfolding canonical_later is_ascii_lowercase is_ascii_digit
later_no_tilde [] t h = cc (h.0)
later_no_tilde (x ∷ p) t h = later_no_tilde p t h.1

-- A derived name is canonical only if the identity was.
canonical-derived :
    (raw : Text) (name : DerivedName)
    → derive_component raw ≡ ok name
    → canonical name.as_str ≡ true
    → canonical raw ≡ true
unfolding component
canonical-derived raw name h c = elim (Bool-cases (canonical raw)) [
  | inl e ↦ e
  | inr e ↦
      let named = (derive_component-Checked raw name h).named ∙ rw e in
      absurd (
        later_no_tilde (map sanitize raw) (hex_encode (bytes raw))
          (subst (All IsLater) named (canonical-IsLater name.as_str c)))
]

canonical-session_filename :
    (name : DerivedName) → canonical name.as_str ≡ true → canonical (session_filename name) ≡ true
unfolding session_filename canonical_first canonical_later is_ascii_lowercase is_ascii_digit
canonical-session_filename name c =
    canonical_of_chars b't' (codes "mux_" ++ (name.as_str ++ codes "_screen.jsonl")) refl (
      All-append IsLater (codes "mux_") (name.as_str ++ codes "_screen.jsonl")
        (all→All canonical_later (codes "mux_") refl)
        (All-append IsLater name.as_str (codes "_screen.jsonl") (canonical-IsLater name.as_str c)
          (all→All canonical_later (codes "_screen.jsonl") refl)))

byte_length-session_filename :
    (name : DerivedName) → byte_length (session_filename name) ≡ byte_length name.as_str + 18
unfolding session_filename
byte_length-session_filename name = omega (
  arith,
  byte_length-append (codes "tmux_") (name.as_str ++ codes "_screen.jsonl"),
  byte_length-append name.as_str (codes "_screen.jsonl"),
  affix_lengths.0,
  affix_lengths.1,
)
  where
    affix_lengths : (byte_length (codes "tmux_") ≡ 5) × (byte_length (codes "_screen.jsonl") ≡ 13)
    affix_lengths = unfold byte_length bytes encode in (refl, refl)

exact-is_some :
    (value : Text)
    → (is_some (exact_component value) ≡ true)
      ↔ ((canonical value ≡ true) × (value ≢ []) × (byte_length value ≤ max_component_bytes))
exact-is_some value = (
  λ h. elim (Option-cases (exact_component value)) [
    | inl e ↦ absurd (ground arith)
    | inr (name, e) ↦
        let found = (exact_component_iff value name).0 e in (found.1, found.2, found.3)
  ],
  λ h.
      let found = (exact_component_iff value (record { as_str = value })).1 (refl, h.0, h.1, h.2) in
      ap is_some found,
)

session_filename-≢[] : (name : DerivedName) → session_filename name ≢ []
unfolding session_filename
session_filename-≢[] name e = cc

valid_capture_filename-named :
    (name : DerivedName)
    → name.as_str ≢ []
    → (valid_capture_filename (session_filename name) ≡ true)
      ↔ ((canonical name.as_str ≡ true) × (byte_length name.as_str ≤ 182))
unfolding valid_capture_filename
valid_capture_filename-named name n =
    let file = session_filename name in
    let size = byte_length-session_filename name in
    let by_parts : valid_capture_filename file
        ≡ (is_some (exact_component file) && is_some (exact_component name.as_str)) =
      rw (captured_session-session_filename name, valid_capture_filename) in
    (
      λ h.
          let both = sym by_parts ∙ h in
          let whole = (exact-is_some file).0 (ground (arith, both)) in
          let part = (exact-is_some name.as_str).0 (ground (arith, both)) in
          (part.0, omega (arith, size, whole.2)),
      λ (c, fits).
          let whole =
            (exact-is_some file).1
              (canonical-session_filename name c, session_filename-≢[] name, omega (arith, size)) in
          let part = (exact-is_some name.as_str).1 (c, n, omega arith) in
          by_parts ∙ ground (arith, whole, part),
    )

-- The file that a session's frames are written to passes the test that synchronisation makes of
-- every file of a segment if and only if the session's name is canonical and at most 182 bytes; the
-- file of any other session that has a derived name fails the test.
pub valid_capture_filename_iff :
    (raw : Text) (name : DerivedName)
    → derive_component raw ≡ ok name
    → (valid_capture_filename (session_filename name) ≡ true)
      ↔ ((canonical raw ≡ true) × (byte_length raw ≤ 182))
valid_capture_filename_iff raw name h =
    let checked = derive_component-Checked raw name h in
    let by_name = valid_capture_filename-named name (derived-≢[] raw name h) in
    let same = λ (c : canonical raw ≡ true). checked.named ∙ component-canonical raw c in
    (
      λ v.
          let (c, fits) = by_name.0 v in
          let whole = canonical-derived raw name h c in
          (whole, subst (λ s. byte_length s ≤ 182) (same whole) fits),
      λ (c, fits). by_name.1 (
        subst (λ s. canonical s ≡ true) (sym (same c)) c,
        subst (λ s. byte_length s ≤ 182) (sym (same c)) fits,
      ),
    )
