-- ===== src/Journal/Collect.antt =====
-- Sets and maps that journal.rs and sync.rs build in loops: `HashSet::insert` on names, and
-- `collect` into a `HashMap`, where the last value of a key stays.
use solstone_tmux.Base.{
  Bool, true, false, ◌||◌, ◌≡◌, refl, ◌∙◌, List, [], ◌∷◌, Text, some, Map, get, insert, get-insert,
  map, any, All, text_eq, text_eq_iff, arith,
}

unfoldable pub has_text : Text → List Text → Bool
has_text t names = any (text_eq t) names

-- The loop that inserts names into a set until one is there already.
unfoldable pub has_duplicate : List Text → List Text → Bool
has_duplicate seen [] = false
has_duplicate seen (t ∷ rest) = has_text t seen || has_duplicate (t ∷ seen) rest

abbrev pub IsDistinct : List Text → Type 0
IsDistinct [] = Unit {0}
IsDistinct (t ∷ rest) = (has_text t rest ≡ false) × IsDistinct rest

has_duplicate-unseen :
    (t : Text) (seen names : List Text)
    → has_text t seen ≡ true
    → has_duplicate seen names ≡ false
    → has_text t names ≡ false
unfolding has_duplicate has_text
has_duplicate-unseen t seen [] s h = refl
has_duplicate-unseen t seen (u ∷ names) s h =
    ground (arith, text_eq_iff t u, s, h, has_duplicate-unseen t (u ∷ seen) names)

pub has_duplicate-IsDistinct :
    (seen names : List Text) → has_duplicate seen names ≡ false → IsDistinct names
unfolding has_duplicate has_text
has_duplicate-IsDistinct seen [] h = tt
has_duplicate-IsDistinct seen (t ∷ names) h = (
  has_duplicate-unseen t (t ∷ seen) names (ground (arith, text_eq_iff t t)) (ground (arith, h)),
  has_duplicate-IsDistinct (t ∷ seen) names (ground (arith, h)),
)

module _ {V : Type 0} (key : V → Text) where
  unfoldable pub collect : Map V → List V → Map V
  collect m [] = m
  collect m (x ∷ xs) = collect (insert (key x) x m) xs

  pub collect_other :
      (k : Text) (m : Map V) (xs : List V)
      → has_text k (map key xs) ≡ false
      → get k (collect m xs) ≡ get k m
  unfolding collect has_text
  collect_other k m [] h = refl
  collect_other k m (x ∷ xs) h =
      collect_other k (insert (key x) x m) xs (ground (arith, h))
      ∙ (get-insert (key x) k x m ∙ ground (arith, h, text_eq_iff (key x) k, text_eq_iff k (key x)))

  pub collect-All :
      (m : Map V) (xs : List V)
      → IsDistinct (map key xs)
      → All (λ x. get (key x) (collect m xs) ≡ some x) xs
  unfolding collect
  collect-All m [] h = tt
  collect-All m (x ∷ xs) h = (
    collect_other (key x) (insert (key x) x m) xs (h.0)
        ∙ (get-insert (key x) (key x) x m ∙ ground (arith, text_eq_iff (key x) (key x))),
    collect-All (insert (key x) x m) xs (h.1),
  )
