-- ===== src/State/Lock/Polling.antt =====
-- state.py, `__enter__`: the loop ends, and when.
use nslab.Base.{
  ℕ, zero, suc, ◌+◌, ◌-◌, ◌≤◌, ◌<◌, String, ◌≡◌, refl, Bool, true, false, not, List, [], ◌∷◌,
  if◌then◌else◌, leb, arith,
}
use nslab.Error.{Error, Result, ok, err, is_os_error}
use nslab.Exec.{Exec, ◌>>=◌, try_except, handled, continue}
use nslab.Exec.Keeps.{Keeps}
use nslab.Exec.Hoare.{Hoare}
use nslab.State.Files.{Disk, lock_file, sleep, read_clock, slept}
use nslab.State.Files.Entries.{Hoare-call, Keeps-call}
use nslab.State.Lock.{DeploymentLock, poll, refused, is_contention, min, poll_interval}

-- The clock has not gone back.
abbrev pub Since : ℕ → Disk → Type 0
Since start d = start ≤ d.clock

pub lock_file-Since : (start : ℕ) (p : String) → Keeps (Since start) (lock_file p)
unfolding lock_file
lock_file-Since start p = Keeps-call (λ d ts h. h) _ (record { at = λ d h. h })

pub slept-clock : (n : ℕ) (delays : List ℕ) (d : Disk) → d.clock + n ≤ (slept n delays d).clock
slept-clock n [] d = omega arith
slept-clock n (delay ∷ later) d = omega arith

-- A sleep that is not interrupted advances the clock.
abbrev Slept : ℕ → Result (Unit {0}) → Disk → Type 0
Slept until (ok a) d = until ≤ d.clock
Slept until (err x) d = Unit

sleep-Slept : (start n : ℕ) → Hoare (Since start) (sleep n) (Slept (start + n))
unfolding sleep
sleep-Slept start n =
    Hoare-call (λ d ts h. h) (λ x d h. tt) _ (λ x d h. tt)
      (record { at = λ d h. omega (arith, slept-clock n d.delays d) })

module _ {E A B : Type 0} where
  same_try :
      {P : E → Type 0} (m : Exec E A) (f : A → Exec E B) (h h' : Error → Exec E B)
      → Keeps P m
      → ((x : Error) (d : E) → P d → h x d ≡ h' x d)
      → (d : E) → P d
      → try_except m f h d ≡ try_except m f h' d
  unfolding try_except
  same_try {P = P} m f h h' k same d p = go (m d) (k.at d p)
    where
      go : (r : Result A × E) → P r.1 → handled r.0 f h r.1 ≡ handled r.0 f h' r.1
      go (ok a, e) q = refl
      go (err x, e) q = same x e q

  same_bind :
      {P : E → Type 0} {Q : Result A → E → Type 0} (m : Exec E A) (f f' : A → Exec E B)
      → Hoare P m Q
      → ((a : A) (d : E) → Q (ok a) d → f a d ≡ f' a d)
      → (d : E) → P d
      → (m >>= f) d ≡ (m >>= f') d
  unfolding ◌>>=◌
  same_bind {Q = Q} m f f' hm same d p = go (m d) (hm.at d p)
    where
      go : (r : Result A × E) → Q r.0 r.1 → continue r.0 f r.1 ≡ continue r.0 f' r.1
      go (ok a, e) q = same a e q
      go (err x, e) q = refl

same_else :
    {E B : Type 0} (b : Bool) (m n n' : Exec E B) (d : E)
    → (b ≡ false → n d ≡ n' d)
    → (if b then m else n) d ≡ (if b then m else n') d
same_else true m n n' d h = refl
same_else false m n n' d h = h refl

nap : (deadline now : ℕ) → leb deadline now ≡ false → 0 < min poll_interval (deadline - now)
nap deadline now h = ground arith

module _ (lock : DeploymentLock) (deadline : ℕ) where
  -- The next round starts later than this one, which is before the deadline.
  same_refused :
      (again again' : Exec Disk Unit) (d : Disk)
      → ((e : Disk) → d.clock < deadline → d.clock < e.clock → again e ≡ again' e)
      → (x : Error) → refused lock again deadline x d ≡ refused lock again' deadline x d
  unfolding read_clock ◌>>=◌
  same_refused again again' d same x = same_else (not (is_os_error x)) _ _ _ d λ q.
      same_else (not (is_contention x)) _ _ _ d λ r.
        same_else (leb deadline d.clock) _ _ _ d λ early.
          same_bind _ _ _ (sleep-Slept d.clock (min poll_interval (deadline - d.clock)))
            (λ a e slept. same e (ground arith) (omega (arith, nap deadline d.clock early))) d
            (omega arith)

  -- The loop ends: with more rounds than there are milliseconds until the deadline, how many more there
  -- are does not matter, so it never runs out of them.
  pub poll_enough :
      (n fuel more : ℕ) (d : Disk)
      → deadline < d.clock + n
      → n < fuel
      → n < more
      → poll lock fuel deadline d ≡ poll lock more deadline d
  unfolding poll
  poll_enough n zero more d h f m = absurd (omega arith)
  poll_enough n (suc fuel) zero d h f m = absurd (omega arith)
  poll_enough zero (suc fuel) (suc more) d h f m =
      same_try {P = Since d.clock} _ _ _ _ (lock_file-Since d.clock lock.path)
        (λ x e since. same_refused _ _ e (λ e' early later. absurd (omega arith)) x) d (omega arith)
  poll_enough (suc n) (suc fuel) (suc more) d h f m =
      same_try {P = Since d.clock} _ _ _ _ (lock_file-Since d.clock lock.path)
        (λ x e since.
          same_refused _ _ e
            (λ e' early later. poll_enough n fuel more e' (omega arith) (omega arith) (omega arith))
            x)
        d (omega arith)
