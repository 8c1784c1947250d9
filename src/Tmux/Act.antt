-- ===== src/Tmux/Act.antt =====
-- Blocks of native/solstone-tmux/src/tmux.rs that run tmux: they ask a runner whose answers may
-- change from call to call, and write warnings.
use solstone_tmux.Base.{ℕ, ◌≡◌, refl, List, [], ◌∷◌, ◌++◌, Text, ℤ, Result, ok, err}
use solstone_tmux.Tmux.Rows.{TmuxOperation, TmuxError, CommandError}

pub record CommandOutput : Type 0 where
  pub stdout : List ℕ
  pub stderr : List ℕ
  pub status : ℤ

pub data ExeFailure : Type 0 where
  unavailable unsupported : ExeFailure

-- `CommandRunner` and `ForegroundLookup`, with the state `S` of what they ask.
pub record Runner (S : Type 0) : Type 0 where
  pub run : TmuxOperation → S → Result CommandError CommandOutput × S
  pub lookup : ℕ → S → Result ExeFailure Text × S

-- The lines that `WarningSink` is given, by what they tell.
pub data Warning : Type 0 where
  client_row session_row session_skipped session_failed : Text → Warning
  no_title no_directory no_executable executable_unsupported : Warning

pub record World (S : Type 0) : Type 0 where
  pub server : S
  pub warnings : List Warning

-- How a block ends early: by `expect`, or by `?`.
pub data Stop : Type 0 where
  panics : Stop
  fails : TmuxError → Stop

abbrev pub Act : Type 0 → Type 0 → Type 0
Act S A = World S → Result Stop A × World S

module _ {S : Type 0} where
  module _ {A : Type 0} where
    unfoldable pub pure : A → Act S A
    pure a w = (ok a, w)

    -- `?` of a result
    unfoldable pub question : Result TmuxError A → Act S A
    question (ok a) w = (ok a, w)
    question (err e) w = (err (fails e), w)

    abbrev pub caught : Result Stop A × World S → Result Stop (Result TmuxError A) × World S
    caught (ok a, w) = (ok (ok a), w)
    caught (err (fails e), w) = (ok (err e), w)
    caught (err panics, w) = (err panics, w)

    -- The result of a block as a value; a panic goes on.
    unfoldable pub attempt : Act S A → Act S (Result TmuxError A)
    attempt m w = caught (m w)

  unfoldable pub warn : Warning → Act S (Unit {0})
  warn line w = (ok tt, record w { warnings = w.warnings ++ (line ∷ []) })

  module _ {A B : Type 0} where
    abbrev pub continue : Result Stop A × World S → (A → Act S B) → Result Stop B × World S
    continue (ok a, w) f = f a w
    continue (err e, w) f = (err e, w)

    infixl 10 ◌>>=◌ ◌>>◌
    unfoldable pub ◌>>=◌ : Act S A → (A → Act S B) → Act S B
    ◌>>=◌ m f w = continue (m w) f

    abbrev pub ◌>>◌ : Act S A → Act S B → Act S B
    m >> n = m >>= λ _. n

-- A result that satisfies the predicate, or an error, and no panic.
abbrev pub Gives : {A : Type 0} → (A → Type 0) → Result Stop A → Type 0
Gives P (ok a) = P a
Gives P (err (fails e)) = Unit {0}
Gives P (err panics) = ⊥

abbrev pub OrError : {A : Type 0} → (A → Type 0) → Result TmuxError A → Type 0
OrError P (ok a) = P a
OrError P (err e) = Unit {0}

-- Wherever the block starts, it does not panic, and what it returns satisfies the predicate.
abbrev pub Always : {S A : Type 0} → (A → Type 0) → Act S A → Type 0
Always P m = (w : World _) → Gives P (m w).0

module _ {S : Type 0} where
  module _ {A : Type 0} where
    pub pure-Always : (P : A → Type 0) (a : A) → P a → Always P (pure {S = S} a)
    unfolding pure
    pure-Always P a p w = p

    pub question-Always :
        (P : A → Type 0) (r : Result TmuxError A)
        → ((a : A) → r ≡ ok a → P a)
        → Always P (question {S = S} r)
    unfolding question
    question-Always P (ok a) h w = h a refl
    question-Always P (err e) h w = tt

    caught-Gives :
        (P : A → Type 0) (r : Result Stop A × World S)
        → Gives P r.0
        → Gives (OrError P) (caught r).0
    caught-Gives P (ok a, w) h = h
    caught-Gives P (err (fails e), w) h = tt
    caught-Gives P (err panics, w) h = h

    pub attempt-Always :
        (P : A → Type 0) (m : Act S A) → Always P m → Always (OrError P) (attempt m)
    unfolding attempt
    attempt-Always P m h w = caught-Gives P (m w) (h w)

  pub warn-Always : (line : Warning) → Always (λ u. Unit {0}) (warn {S = S} line)
  unfolding warn
  warn-Always line w = tt

  module _ {A B : Type 0} where
    continue-Gives :
        (P : A → Type 0) (Q : B → Type 0) (r : Result Stop A × World S) (f : A → Act S B)
        → Gives P r.0
        → ((a : A) → P a → Always Q (f a))
        → Gives Q (continue r f).0
    continue-Gives P Q (ok a, w) f h g = g a h w
    continue-Gives P Q (err (fails e), w) f h g = tt
    continue-Gives P Q (err panics, w) f h g = h

    pub bind-Always :
        (P : A → Type 0) (Q : B → Type 0) (m : Act S A) (f : A → Act S B)
        → Always P m
        → ((a : A) → P a → Always Q (f a))
        → Always Q (m >>= f)
    unfolding ◌>>=◌
    bind-Always P Q m f h g w = continue-Gives P Q (m w) f (h w) g
