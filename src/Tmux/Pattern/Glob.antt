-- ===== src/Tmux/Pattern/Glob.antt =====
-- What a pattern means: `*` stands for any run of characters, every other character for itself.
use solstone_tmux.Base.{
  ℕ, ◌≡◌, refl, ◌≢◌, ◌↔◌, inl, inr, List, [], ◌∷◌, ◌++◌, Text, split, cons_head, Bool-cases, ==_iff,
  ◌==◌, arith, sym, ap, subst, split-≢[], true, false,
}

pub data Glob : Text → Text → Type 0 where
  done : Glob [] []
  same : {p s : Text} (c : ℕ) → c ≢ b'*' → Glob p s → Glob (c ∷ p) (c ∷ s)
  stop : {p s : Text} (c : ℕ) → c ≡ b'*' → Glob p s → Glob (c ∷ p) s
  skip : {p s : Text} (c x : ℕ) → c ≡ b'*' → Glob (c ∷ p) s → Glob (c ∷ p) (x ∷ s)

-- A text cut into the parts of a split pattern: the first at its start, each other after a gap,
-- and the last at its end.
abbrev pub Cut : Text → List Text → Text → Type 0
Cut first [] s = s ≡ first
Cut first (part ∷ more) s = (gap rest : Text) × (s ≡ first ++ (gap ++ rest)) × Cut part more rest

abbrev pub Cuts : List Text → Text → Type 0
Cuts [] s = ⊥
Cuts (first ∷ more) s = Cut first more s

-- What follows a star: a gap, and then the parts.
abbrev pub Later : List Text → Text → Type 0
Later parts s = (gap rest : Text) × (s ≡ gap ++ rest) × Cuts parts rest

Cuts-cons : (c : ℕ) (parts : List Text) (s : Text) → Cuts parts s → Cuts (cons_head c parts) (c ∷ s)
Cuts-cons c [] s h = absurd h
Cuts-cons c (first ∷ []) s h = ap (◌∷◌ c) h
Cuts-cons c (first ∷ part ∷ more) s (gap, rest, e, k) = (gap, rest, ap (◌∷◌ c) e, k)

Cuts-uncons :
    (c : ℕ) (parts : List Text) (s : Text)
    → parts ≢ []
    → Cuts (cons_head c parts) s
    → (t : Text) × (s ≡ c ∷ t) × Cuts parts t
Cuts-uncons c [] s n h = absurd (n refl)
Cuts-uncons c (first ∷ []) s n h = (first, h, refl)
Cuts-uncons c (first ∷ part ∷ more) s n (gap, rest, e, k) =
    (first ++ (gap ++ rest), e, (gap, rest, refl, k))

Cuts-star : (parts : List Text) (s : Text) → Later parts s → Cuts ([] ∷ parts) s
Cuts-star [] s (gap, rest, e, k) = absurd k
Cuts-star (part ∷ more) s h = h

Cuts-unstar : (parts : List Text) (s : Text) → parts ≢ [] → Cuts ([] ∷ parts) s → Later parts s
Cuts-unstar [] s n h = absurd (n refl)
Cuts-unstar (part ∷ more) s n h = h

Glob-gap :
    {p : Text} (c : ℕ) (gap rest : Text) → c ≡ b'*' → Glob (c ∷ p) rest → Glob (c ∷ p) (gap ++ rest)
Glob-gap c [] rest e g = g
Glob-gap c (x ∷ gap) rest e g = skip c x e (Glob-gap c gap rest e g)

Cuts→Glob : (p s : Text) → Cuts (split b'*' p) s → Glob p s
unfolding split
Cuts→Glob [] s h = subst (Glob []) (sym h) done
Cuts→Glob (c ∷ p) s h = elim (Bool-cases (c == b'*')) [
  | inl star ↦
      let (gap, rest, e, k) = Cuts-unstar (split b'*' p) s (split-≢[] b'*' p) (rw star at h) in
      let star_eq = (==_iff c b'*').0 star in
      rw e (Glob-gap c gap rest star_eq (stop c star_eq (Cuts→Glob p rest k)))
  | inr other ↦
      let (t, e, k) = Cuts-uncons c (split b'*' p) s (split-≢[] b'*' p) (rw other at h) in
      rw e (same c (ground arith) (Cuts→Glob p t k))
]

Glob→Cuts : {p s : Text} → Glob p s → Cuts (split b'*' p) s
unfolding split
Glob→Cuts done = refl
Glob→Cuts (same {p} {s} c n g) =
    let miss : (c == b'*') ≡ false = ground arith in
    rw miss (Cuts-cons c (split b'*' p) s (Glob→Cuts g))
Glob→Cuts (stop {p} {s} c e g) =
    let hit : (c == b'*') ≡ true = ground arith in
    rw hit (Cuts-star (split b'*' p) s ([], s, refl, Glob→Cuts g))
Glob→Cuts (skip {p} {s} c x e g) =
    let hit : (c == b'*') ≡ true = ground arith in
    let (gap, rest, eq, k) =
      Cuts-unstar (split b'*' p) s (split-≢[] b'*' p) (rw hit at (Glob→Cuts g)) in
    rw hit (Cuts-star (split b'*' p) (x ∷ s) (x ∷ gap, rest, ap (◌∷◌ x) eq, k))

pub Cuts-iff-Glob : (p s : Text) → Cuts (split b'*' p) s ↔ Glob p s
Cuts-iff-Glob p s = (Cuts→Glob p s, Glob→Cuts)
