-- ===== src/Base/Maps.antt =====
-- Maps with texts for keys (`BTreeMap<String, _>`, `HashMap<String, _>`) as association lists.
use mathlib.Core.Path.{◌≡◌, refl}
use mathlib.Core.Option.{Option, none, some}
use mathlib.Core.List.{List, [], ◌∷◌}
use native.Mathlib.Omega.{arith}
use solstone_tmux.Base.Tests.{if◌then◌else◌, Bool-cases}
use mathlib.Core.Logic.{inl, inr}
use solstone_tmux.Base.Lists.{All}
use solstone_tmux.Base.Strings.{Text, text_eq, text_eq_iff}

abbrev pub Map {ℓ} : Type ℓ → Type ℓ
Map V = List (Text × V)

module _ {ℓ} {V : Type ℓ} where
  unfoldable pub get : Text → Map V → Option V
  get key [] = none
  get key ((k, v) ∷ m) = if text_eq k key then some v else get key m

  unfoldable pub insert : Text → V → Map V → Map V
  insert key value [] = (key, value) ∷ []
  insert key value ((k, v) ∷ m) =
      if text_eq k key then (key, value) ∷ m else (k, v) ∷ insert key value m

  pub get-insert :
      (key other : Text) (value : V) (m : Map V)
      → get other (insert key value m) ≡ (if text_eq key other then some value else get other m)
  unfolding get insert
  get-insert key other value [] = refl
  get-insert key other value ((k, v) ∷ m) = ground (
    arith,
    text_eq_iff key other,
    text_eq_iff k key,
    text_eq_iff k other,
    get-insert key other value m,
  )

  pub All-insert {κ} :
      (P : Text × V → Type κ) (key : Text) (value : V) (m : Map V)
      → P (key, value)
      → All P m
      → All P (insert key value m)
  unfolding insert
  All-insert P key value [] p h = (p, tt)
  All-insert P key value ((k, v) ∷ m) p h = elim (Bool-cases (text_eq k key)) [
    | inl e ↦ rw e (p, h.1)
    | inr e ↦ rw e (h.0, All-insert P key value m p h.1)
  ]
