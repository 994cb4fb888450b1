-- ===== src/Exec.antt =====
-- Methods that act on the world (kernel, state files, clock, locks) and may raise. What was done
-- before a raise stays done, so the world comes back beside the error.
pub mod Keeps
pub mod Hoare
use nslab.Base.{◌≡◌, refl, Bool, true, false, if◌then◌else◌, Option, none, some}
use nslab.Error.{Error, Result, ok, err}

abbrev pub Exec : Type 0 → Type 0 → Type 0
Exec E A = E → Result A × E

module _ {E A : Type 0} where
  pub pure : A → Exec E A
  pure a e = (ok a, e)

  pub raise : Error → Exec E A
  raise x e = (err x, e)

  pub lift : Result A → Exec E A
  lift r e = (r, e)

  -- `try: m` with the outcome as a value, for the `except` clauses that follow.
  pub attempt : Exec E A → Exec E (Result A)
  attempt m e = let (r, e') = m e in (ok r, e')

module _ {E A B : Type 0} where
  abbrev pub continue : Result A → (A → Exec E B) → Exec E B
  continue (ok a) f e = f a e
  continue (err x) f e = (err x, e)

  infixl 5 ◌>>=◌ ◌>>◌
  -- opening this opens `pure`, `raise`, `lift` and `attempt` too
  unfoldable pub ◌>>=◌ : Exec E A → (A → Exec E B) → Exec E B
  unfolding pure raise lift attempt
  ◌>>=◌ m f e = let (r, e') = m e in continue r f e'

  abbrev pub ◌>>◌ : Exec E A → Exec E B → Exec E B
  m >> k = m >>= λ _. k

  abbrev pub handled : Result A → (A → Exec E B) → (Error → Exec E B) → Exec E B
  handled (ok a) f h e = f a e
  handled (err x) f h e = h x e

  -- `try: a = m`, `except ... as x: h x`, `else: f a`
  unfoldable pub try_except : Exec E A → (A → Exec E B) → (Error → Exec E B) → Exec E B
  unfolding ◌>>=◌
  try_except m f h e = let (r, e') = m e in handled r f h e'

  -- `if o is None: n`, `else: f o`
  abbrev pub given : Option A → Exec E B → (A → Exec E B) → Exec E B
  given none n f = n
  given (some a) n f = f a
