-- ===== src/Segment/Steps.antt =====
-- The bind of Segment/Monad.antt for long blocks: it computes only where `unfolding` names it.
use solstone_tmux.Segment.Monad.{Method, continue}

module _ {S A B : Type 0} where
  infixl 10 ◌>>=◌ ◌>>◌
  unfoldable pub ◌>>=◌ : Method S A → (A → Method S B) → Method S B
  ◌>>=◌ m f st = let (r, st') = m st in continue r f st'

  abbrev pub ◌>>◌ : Method S A → Method S B → Method S B
  m >> n = m >>= λ _. n
