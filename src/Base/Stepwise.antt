-- ===== src/Base/Stepwise.antt =====
-- The bind of `Result` for long blocks whose runs are taken apart: it computes only where `unfolding`
-- names it.
use mathlib.Core.Path.{◌≡◌, refl, ap, ◌∙◌}
use mathlib.Core.Bool.{Bool, true, false}
use native.Mathlib.Omega.{arith}
use solstone_tmux.Base.Results.{Result, ok, err, refuse_if}

module _ {E A B : Type 0} where
  infixl 5 ◌>>=◌ ◌>>◌
  unfoldable pub ◌>>=◌ : Result E A → (A → Result E B) → Result E B
  ok a >>= f = f a
  err e >>= f = err e

  abbrev pub ◌>>◌ : Result E A → Result E B → Result E B
  m >> k = m >>= λ _. k

  -- A block that returns has run its first step and then the rest.
  pub bind-ok :
      (m : Result E A) (f : A → Result E B) (b : B)
      → (m >>= f) ≡ ok b
      → (a : A) × (m ≡ ok a) × (f a ≡ ok b)
  unfolding ◌>>=◌
  bind-ok (ok a) f b h = (a, refl, h)
  bind-ok (err e) f b h = ground (arith, h)

  pub bind-step :
      (m : Result E A) (f : A → Result E B) (a : A) (r : Result E B)
      → m ≡ ok a
      → f a ≡ r
      → (m >>= f) ≡ r
  unfolding ◌>>=◌
  bind-step m f a r e h = ap (λ x. x >>= f) e ∙ h

module _ {E : Type 0} where
  pub refuse_if-ok : (b : Bool) (e : E) (u : Unit {0}) → refuse_if b e ≡ ok u → b ≡ false
  refuse_if-ok true e u h = ground (arith, h)
  refuse_if-ok false e u h = refl

  pub refuse_if-passes : (b : Bool) (e : E) → b ≡ false → refuse_if b e ≡ ok tt
  refuse_if-passes true e h = ground (arith, h)
  refuse_if-passes false e h = refl
