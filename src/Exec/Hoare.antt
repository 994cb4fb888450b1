-- ===== src/Exec/Hoare.antt =====
-- What holds after an action, by how it ended, given what held before.
use nslab.Base.{◌≡◌, refl, Bool, true, false, if◌then◌else◌, Option, none, some, subst, sym}
use nslab.Error.{Error, Result, ok, err}
use nslab.Exec.{Exec, pure, raise, lift, ◌>>=◌, try_except, given}
use nslab.Exec.Keeps.{Keeps}

pub record Hoare {E A : Type 0} (P : E → Type 0) (m : Exec E A) (Q : Result A → E → Type 0)
    : Type 0 where
  pub at : (e : E) → P e → Q (m e).0 (m e).1

module _ {E A : Type 0} {P : E → Type 0} where
  pub Hoare-Keeps : {m : Exec E A} → Keeps P m → Hoare P m (λ _. P)
  Hoare-Keeps k = record { at = k.at }

  pub Keeps-Hoare : {m : Exec E A} → Hoare P m (λ _. P) → Keeps P m
  Keeps-Hoare h = record { at = h.at }

  pub Hoare-weaken :
      {R : E → Type 0} {m : Exec E A} {Q : Result A → E → Type 0}
      → ((e : E) → R e → P e)
      → Hoare P m Q
      → Hoare R m Q
  Hoare-weaken w h = record { at = λ e r. h.at e (w e r) }

  pub Hoare-if :
      (b : Bool) (m n : Exec E A) {Q : Result A → E → Type 0}
      → (b ≡ true → Hoare P m Q)
      → (b ≡ false → Hoare P n Q)
      → Hoare P (if b then m else n) Q
  Hoare-if true m n hm hn = hm refl
  Hoare-if false m n hm hn = hn refl

module _ {E A B : Type 0} (Q : Result A → E → Type 0) (R : Result B → E → Type 0) where
  bind_step :
      (r : Result A) (f : A → Exec E B)
      → ((a : A) → Hoare (Q (ok a)) (f a) R)
      → ((x : Error) (e : E) → Q (err x) e → R (err x) e)
      → Hoare (Q r) (lift r >>= f) R
  unfolding ◌>>=◌
  bind_step (ok a) f hf hx = record { at = λ e q. (hf a).at e q }
  bind_step (err x) f hf hx = record { at = hx x }

  try_step :
      (r : Result A) (f : A → Exec E B) (h : Error → Exec E B)
      → ((a : A) → Hoare (Q (ok a)) (f a) R)
      → ((x : Error) → Hoare (Q (err x)) (h x) R)
      → Hoare (Q r) (try_except (lift r) f h) R
  unfolding try_except
  try_step (ok a) f h hf hh = record { at = λ e q. (hf a).at e q }
  try_step (err x) f h hf hh = record { at = λ e q. (hh x).at e q }

module _ {E A B : Type 0} {P : E → Type 0} {Q : Result A → E → Type 0}
    {R : Result B → E → Type 0} where
  pub Hoare-bind :
      (m : Exec E A) (f : A → Exec E B)
      → Hoare P m Q
      → ((a : A) → Hoare (Q (ok a)) (f a) R)
      → ((x : Error) (e : E) → Q (err x) e → R (err x) e)
      → Hoare P (m >>= f) R
  unfolding ◌>>=◌
  Hoare-bind m f hm hf hx = record {
    at = λ e p. let (r, e') = m e in (bind_step Q R r f hf hx).at e' (hm.at e p);
  }

  pub Hoare-try :
      (m : Exec E A) (f : A → Exec E B) (h : Error → Exec E B)
      → Hoare P m Q
      → ((a : A) → Hoare (Q (ok a)) (f a) R)
      → ((x : Error) → Hoare (Q (err x)) (h x) R)
      → Hoare P (try_except m f h) R
  unfolding try_except
  Hoare-try m f h hm hf hh = record {
    at = λ e p. let (r, e') = m e in (try_step Q R r f h hf hh).at e' (hm.at e p);
  }

module _ {E A B : Type 0} {P : E → Type 0} {Q : Result B → E → Type 0} where
  pub Hoare-given :
      (o : Option A) (n : Exec E B) (f : A → Exec E B)
      → (o ≡ none → Hoare P n Q)
      → ((a : A) → Hoare P (f a) Q)
      → Hoare P (given o n f) Q
  Hoare-given none n f hn hf = hn refl
  Hoare-given (some a) n f hn hf = hf a

-- What holds of the value, where there is one.
abbrev pub OnOk : {E A : Type 0} → (A → E → Type 0) → Result A → E → Type 0
OnOk Q (ok a) e = Q a e
OnOk Q (err x) e = Unit

pub on_ok :
    {E A : Type 0} (Q : A → E → Type 0) (r : Result A) (e : E) {a : A}
    → r ≡ ok a
    → OnOk Q r e
    → Q a e
on_ok Q r e q h = subst (λ x. OnOk Q x e) q h

module _ {E A : Type 0} {P : E → Type 0} {Q : A → E → Type 0} where
  pub Hoare-pure : (a : A) → ((e : E) → P e → Q a e) → Hoare P (pure a) (OnOk Q)
  unfolding pure
  Hoare-pure a h = record { at = h }

  pub Hoare-raise : (x : Error) → Hoare P (raise x) (OnOk Q)
  unfolding raise
  Hoare-raise x = record { at = λ e h. tt }

  kept_step : (r : Result A) (e : E) → P e → ((a : A) (e : E) → P e → Q a e) → OnOk Q r e
  kept_step (ok a) e p h = h a e p
  kept_step (err x) e p h = tt

  pub Hoare-kept : {m : Exec E A} → Keeps P m → ((a : A) (e : E) → P e → Q a e) → Hoare P m (OnOk Q)
  Hoare-kept k h = record { at = λ e p. kept_step _ _ (k.at e p) h }

module _ {E A B : Type 0} {P : E → Type 0} {R : B → E → Type 0} where
  pub Hoare-seq :
      {Q : A → E → Type 0} (m : Exec E A) (f : A → Exec E B)
      → Hoare P m (OnOk Q)
      → ((a : A) → Hoare (Q a) (f a) (OnOk R))
      → Hoare P (m >>= f) (OnOk R)
  Hoare-seq m f hm hf = Hoare-bind m f hm hf (λ x e h. h)

  -- Where nothing need be known of the first action.
  pub Hoare-skip :
      (m : Exec E A) (f : A → Exec E B)
      → ((a : A) → Hoare (λ _. Unit) (f a) (OnOk R))
      → Hoare P (m >>= f) (OnOk R)
  Hoare-skip m f hf = Hoare-bind {Q = λ _ _. Unit} m f (record { at = λ e h. tt }) hf (λ x e h. h)

  -- Where the value of the first one is known.
  pub Hoare-bind_ok :
      (r : Result A) (a : A) (f : A → Exec E B)
      → r ≡ ok a
      → Hoare P (f a) (OnOk R)
      → Hoare P (lift r >>= f) (OnOk R)
  unfolding ◌>>=◌
  Hoare-bind_ok r a f q h = subst (λ x. Hoare P (lift x >>= f) (OnOk R)) (sym q) h

  -- Where the first action keeps what is known.
  pub Hoare-keep :
      (m : Exec E A) (f : A → Exec E B)
      → Keeps P m
      → ((a : A) → Hoare P (f a) (OnOk R))
      → Hoare P (m >>= f) (OnOk R)
  Hoare-keep m f k hf = Hoare-bind m f (Hoare-Keeps k) hf (λ x e h. tt)

  pub Hoare-try_skip :
      {Q : A → E → Type 0} (m : Exec E A) (f : A → Exec E B) (h : Error → Exec E B)
      → Hoare P m (OnOk Q)
      → ((a : A) → Hoare (Q a) (f a) (OnOk R))
      → ((x : Error) → Hoare (λ _. Unit) (h x) (OnOk R))
      → Hoare P (try_except m f h) (OnOk R)
  Hoare-try_skip m f h hm hf hh = Hoare-try m f h hm hf hh
