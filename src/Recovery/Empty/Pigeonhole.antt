-- ===== src/Recovery/Empty/Pigeonhole.antt =====
-- Files that are found among the validated ones under different names, as many as there are, are the
-- validated ones in some order.
use mathlib.Core.List.{Perm, perm_middle}
use mathlib.Core.List.Perm
use solstone_tmux.Base.{
  ◌≤◌, ◌≡◌, refl, sym, ap, subst, inl, inr, ◌⊎◌, Bool, true, false, List, [], ◌∷◌, ◌++◌, Text, some,
  length, length-append, All, Apart, text_eq, text_eq→≡, ≡→text_eq, text_eq_comm, Bool-cases, arith,
}
use solstone_tmux.Recovery.Empty.{ValidatedEmptyFile, find_validated}

abbrev pub same_path : ValidatedEmptyFile → ValidatedEmptyFile → Bool
same_path v w = text_eq v.path w.path

abbrev Found : List ValidatedEmptyFile → ValidatedEmptyFile → Type 0
Found validated v = find_validated v.path validated ≡ some v

abbrev Other : Text → ValidatedEmptyFile → Type 0
Other path v = text_eq path v.path ≡ false

-- None of the files has the path, or they are split at one that has it.
split_at :
    (path : Text) (vs : List ValidatedEmptyFile)
    → All (Other path) vs
      ⊎ ((xs : List ValidatedEmptyFile) × (v : ValidatedEmptyFile) × (ys : List ValidatedEmptyFile)
          × (vs ≡ xs ++ (v ∷ ys))
          × (path ≡ v.path))
split_at path [] = inl tt
split_at path (v ∷ vs) = elim (Bool-cases (text_eq path v.path)) [
  | inl e ↦ inr ([], v, vs, refl, text_eq→≡ path v.path e)
  | inr e ↦ elim (split_at path vs) [
    | inl rest ↦ inl (e, rest)
    | inr (xs, w, ys, split, same) ↦ inr (v ∷ xs, w, ys, ap (λ us. v ∷ us) split, same)
  ]
]

All-without :
    (P : ValidatedEmptyFile → Type 0) (xs : List ValidatedEmptyFile) (v : ValidatedEmptyFile)
    (ys : List ValidatedEmptyFile)
    → All P (xs ++ (v ∷ ys))
    → P v × All P (xs ++ ys)
All-without P [] v ys h = (h.0, h.1)
All-without P (x ∷ xs) v ys h = let (p, rest) = All-without P xs v ys (h.1) in (p, (h.0, rest))

Apart-without :
    (xs : List ValidatedEmptyFile) (v : ValidatedEmptyFile) (ys : List ValidatedEmptyFile)
    → Apart same_path (xs ++ (v ∷ ys))
    → All (Other v.path) (xs ++ ys) × Apart same_path (xs ++ ys)
Apart-without [] v ys h = (h.0, h.1)
Apart-without (x ∷ xs) v ys h =
    let (p, rest) = All-without (Other x.path) xs v ys (h.0) in
    let (others, apart) = Apart-without xs v ys (h.1) in
    ((text_eq_comm x.path v.path p, others), (rest, apart))

-- Files with other paths are found behind the first.
All-Found-tail :
    (w : ValidatedEmptyFile) (ws vs : List ValidatedEmptyFile)
    → All (Other w.path) vs
    → All (Found (w ∷ ws)) vs
    → All (Found ws) vs
unfolding find_validated
All-Found-tail w ws [] o f = tt
All-Found-tail w ws (v ∷ vs) o f = (ground (arith, o.0, f.0), All-Found-tail w ws vs (o.1) (f.1))

Found-first :
    (w : ValidatedEmptyFile) (ws : List ValidatedEmptyFile) (v : ValidatedEmptyFile)
    → Found (w ∷ ws) v
    → text_eq w.path v.path ≡ true
    → w ≡ v
unfolding find_validated
Found-first w ws v f e = ground (arith, f, e)

Found-shorter :
    (validated vs : List ValidatedEmptyFile)
    → All (Found validated) vs
    → Apart same_path vs
    → length vs ≤ length validated
unfolding find_validated
Found-shorter [] [] f a = omega arith
Found-shorter [] (v ∷ vs) f a = ground (arith, f.0)
Found-shorter (w ∷ ws) vs f a = elim (split_at w.path vs) [
  | inl o ↦ let rest = Found-shorter ws vs (All-Found-tail w ws vs o f) a in omega (arith, rest)
  | inr (xs, v, ys, split, same) ↦
      let (others, apart) = Apart-without xs v ys (subst (Apart same_path) split a) in
      let (_, found) =
        All-without (Found (w ∷ ws)) xs v ys (subst (All (Found (w ∷ ws))) split f) in
      let away = subst (λ p. All (Other p) (xs ++ ys)) (sym same) others in
      let rest = Found-shorter ws (xs ++ ys) (All-Found-tail w ws (xs ++ ys) away found) apart in
      rw split (omega (arith, rest, length-append xs ys, length-append xs (v ∷ ys)))
]

pub Found-Perm :
    (validated vs : List ValidatedEmptyFile)
    → All (Found validated) vs
    → Apart same_path vs
    → length validated ≤ length vs
    → Perm vs validated
unfolding find_validated
Found-Perm [] [] f a n = Perm.refl []
Found-Perm [] (v ∷ vs) f a n = ground (arith, f.0)
Found-Perm (w ∷ ws) vs f a n = elim (split_at w.path vs) [
  | inl o ↦ let rest = Found-shorter ws vs (All-Found-tail w ws vs o f) a in ground (arith, rest, n)
  | inr (xs, v, ys, split, same) ↦
      let (others, apart) = Apart-without xs v ys (subst (Apart same_path) split a) in
      let (first, found) =
        All-without (Found (w ∷ ws)) xs v ys (subst (All (Found (w ∷ ws))) split f) in
      let away = subst (λ p. All (Other p) (xs ++ ys)) (sym same) others in
      let size : length vs ≡ length (xs ++ (v ∷ ys)) = ap length split in
      let rest =
        Found-Perm ws (xs ++ ys) (All-Found-tail w ws (xs ++ ys) away found) apart
          (omega (arith, n, size, length-append xs ys, length-append xs (v ∷ ys))) in
      let same_file : v ≡ w = sym (Found-first w ws v first (≡→text_eq w.path v.path same)) in
      rw split (
        Perm.trans (perm_middle xs ys)
          (subst (λ u. Perm (v ∷ (xs ++ ys)) (u ∷ ws)) same_file (Perm.cons v rest)))
]
