-- ===== src/Name/Injective.antt =====
-- Different identities have different names.
use solstone_tmux.Base.{
  ◌≡◌, sym, ◌∙◌, subst, ◌≢◌, inl, inr, true, false, [], ◌∷◌, ◌++◌, map, Text, ok, All, bytes,
  hex_encode, hex_encode-injective, Bool-cases, IsScalar, bytes-IsByte, bytes-injective,
  is_ascii_lowercase, is_ascii_uppercase, is_ascii_digit,
}
use solstone_tmux.Name.{DerivedName, derive_component, canonical, component, sanitize}
use solstone_tmux.Name.Canonical.{derive_component-Checked, component-canonical}
use solstone_tmux.Name.Charset.{IsPlain, is_plain, map-sanitize-IsPlain}

plain_not_tilde : IsPlain b'~' → ⊥
unfolding is_plain is_ascii_lowercase is_ascii_uppercase is_ascii_digit
plain_not_tilde h = cc

-- The `~` ends the plain part, so the two parts are determined.
tilde_split :
    (p q s t : Text) → All IsPlain p → All IsPlain q → p ++ (b'~' ∷ s) ≡ q ++ (b'~' ∷ t) → s ≡ t
tilde_split [] [] s t hp hq e = cc
tilde_split [] (y ∷ q) s t hp hq e =
    let same : y ≡ b'~' = cc in absurd (plain_not_tilde (subst IsPlain same hq.0))
tilde_split (x ∷ p) [] s t hp hq e =
    let same : x ≡ b'~' = cc in absurd (plain_not_tilde (subst IsPlain same hp.0))
tilde_split (x ∷ p) (y ∷ q) s t hp hq e = tilde_split p q s t hp.1 hq.1 (cc)

plain_no_tilde : (p q s : Text) → All IsPlain p → p ≢ q ++ (b'~' ∷ s)
plain_no_tilde [] [] s h e = cc
plain_no_tilde [] (y ∷ q) s h e = cc
plain_no_tilde (x ∷ p) [] s h e =
    let same : x ≡ b'~' = cc in absurd (plain_not_tilde (subst IsPlain same h.0))
plain_no_tilde (x ∷ p) (y ∷ q) s h e = plain_no_tilde p q s h.1 (cc)

component-canonical_ne :
    (a b : Text) → canonical a ≡ true → canonical b ≡ false → component a ≢ component b
unfolding component
component-canonical_ne a b ha hb e =
    plain_no_tilde (map sanitize a) (map sanitize b) (hex_encode (bytes b)) (map-sanitize-IsPlain a)
      (rw (ha, hb) at e)

component-injective :
    (a b : Text) → All IsScalar a → All IsScalar b → component a ≡ component b → a ≡ b
unfolding component
component-injective a b sa sb e = elim (Bool-cases (canonical a)) [
  | inl ha ↦ elim (Bool-cases (canonical b)) [
    | inl hb ↦ sym (component-canonical a ha) ∙ (e ∙ component-canonical b hb)
    | inr hb ↦ absurd (component-canonical_ne a b ha hb e)
  ]
  | inr ha ↦ elim (Bool-cases (canonical b)) [
    | inl hb ↦ absurd (component-canonical_ne b a hb ha (sym e))
    | inr hb ↦
        let tails =
          tilde_split (map sanitize a) (map sanitize b) (hex_encode (bytes a))
            (hex_encode (bytes b)) (map-sanitize-IsPlain a) (map-sanitize-IsPlain b)
            (rw (ha, hb) at e) in
        bytes-injective a b sa sb
          (hex_encode-injective (bytes a) (bytes b) (bytes-IsByte a sa) (bytes-IsByte b sb) tails)
  ]
]

-- Two identities that get the same name are the same identity: no two sessions or streams ever
-- share a file or a directory.
pub derive_component-injective :
    (a b : Text) (name : DerivedName)
    → All IsScalar a
    → All IsScalar b
    → derive_component a ≡ ok name
    → derive_component b ≡ ok name
    → a ≡ b
derive_component-injective a b name sa sb ha hb =
    component-injective a b sa sb
      (sym (derive_component-Checked a name ha).named ∙ (derive_component-Checked b name hb).named)
