-- ===== src/Exec/Keeps.antt =====
-- Invariants of actions, a rule for each way to build an action.
use nslab.Base.{◌≡◌, Bool, true, false, if◌then◌else◌, Option, none, some, subst, sym}
use nslab.Error.{Error, Result, ok, err}
use nslab.Exec.{Exec, pure, raise, lift, attempt, ◌>>=◌, try_except, given}

-- `m` keeps `P`, whether it returns or raises.
pub record Keeps {E A : Type 0} (P : E → Type 0) (m : Exec E A) : Type 0 where
  pub at : (e : E) → P e → P (m e).1

module _ {E A : Type 0} {P : E → Type 0} where
  pub Keeps-pure : (a : A) → Keeps P (pure a)
  unfolding pure
  Keeps-pure a = record { at = λ e h. h }

  pub Keeps-raise : (x : Error) → Keeps P (raise {A = A} x)
  unfolding raise
  Keeps-raise x = record { at = λ e h. h }

  pub Keeps-lift : (r : Result A) → Keeps P (lift r)
  unfolding lift
  Keeps-lift r = record { at = λ e h. h }

  pub Keeps-attempt : (m : Exec E A) → Keeps P m → Keeps P (attempt m)
  unfolding attempt
  Keeps-attempt m k = record { at = k.at }

  pub Keeps-if : (b : Bool) (m n : Exec E A) → Keeps P m → Keeps P n → Keeps P (if b then m else n)
  Keeps-if true m n km kn = km
  Keeps-if false m n km kn = kn

module _ {E A B : Type 0} {P : E → Type 0} where
  Keeps-continue :
      (r : Result A) (f : A → Exec E B) → ((a : A) → Keeps P (f a)) → Keeps P (lift r >>= f)
  unfolding ◌>>=◌
  Keeps-continue (ok a) f kf = kf a
  Keeps-continue (err x) f kf = Keeps-raise x

  pub Keeps-bind :
      (m : Exec E A) (next : A → Exec E B)
      → Keeps P m
      → ((a : A) → Keeps P (next a))
      → Keeps P (m >>= next)
  unfolding ◌>>=◌
  Keeps-bind m next first later = record {
    at = λ e h. let (r, after) = m e in (Keeps-continue r next later).at after (first.at e h);
  }

  -- Where the value is known.
  pub Keeps-bind_ok :
      (r : Result A) (a : A) (f : A → Exec E B) → r ≡ ok a → Keeps P (f a) → Keeps P (lift r >>= f)
  unfolding ◌>>=◌
  Keeps-bind_ok r a f q k = subst (λ x. Keeps P (lift x >>= f)) (sym q) k

module _ {E A B : Type 0} {P : E → Type 0} where
  pub Keeps-given :
      (o : Option A) (n : Exec E B) (f : A → Exec E B)
      → Keeps P n
      → ((a : A) → Keeps P (f a))
      → Keeps P (given o n f)
  Keeps-given none n f kn kf = kn
  Keeps-given (some a) n f kn kf = kf a

  Keeps-handled :
      (r : Result A) (f : A → Exec E B) (h : Error → Exec E B)
      → ((a : A) → Keeps P (f a))
      → ((x : Error) → Keeps P (h x))
      → Keeps P (try_except (lift r) f h)
  unfolding try_except
  Keeps-handled (ok a) f h kf kh = kf a
  Keeps-handled (err x) f h kf kh = kh x

  pub Keeps-try_except :
      (m : Exec E A) (f : A → Exec E B) (h : Error → Exec E B)
      → Keeps P m
      → ((a : A) → Keeps P (f a))
      → ((x : Error) → Keeps P (h x))
      → Keeps P (try_except m f h)
  unfolding try_except
  Keeps-try_except m f h km kf kh = record {
    at = λ e p. let (r, e') = m e in (Keeps-handled r f h kf kh).at e' (km.at e p);
  }

pub ruleset keeps_rules = (
  Keeps-given, Keeps-try_except, Keeps-pure, Keeps-raise, Keeps-lift, Keeps-attempt, Keeps-if,
  Keeps-bind,
)
