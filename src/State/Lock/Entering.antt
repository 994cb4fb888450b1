-- ===== src/State/Lock/Entering.antt =====
-- state.py, `__enter__`: what is known when the lock is taken, and when it is refused.
use nslab.Base.{
  ℕ, zero, suc, ◌+◌, ◌≤◌, String, ◌≡◌, refl, Bool, true, false, not, some, if◌then◌else◌, leb,
  leb→le, arith, inl, In, ◌==◌, option_eq, string_eq, beq_iff,
}
use nslab.Error.{Error, Result, ok, err, is_os_error, code}
use nslab.Exec.{Exec, pure, raise, ◌>>=◌}
use nslab.Exec.Hoare.{Hoare, Hoare-bind, Hoare-try, Hoare-if, Hoare-given, Hoare-weaken}
use nslab.State.Files.{
  Disk, Fault, raised, os, other, cancelled, interrupted, call, done, lock_file, sleep, read_clock,
  nothing, open_descriptor, close_descriptor,
}
use nslab.State.Files.Entries.{Hoare-call}
use nslab.State.Store.{ensure_directory, suppress_os_error}
use nslab.State.Lock.{
  DeploymentLock, poll, refused, is_contention, acquire_lock, enter_open, enter, give_up,
}
use nslab.State.Lock.Polling.{Since, slept-clock}

-- The error of a lock that another process holds.
abbrev is_locked : Error → Bool
is_locked x = code x == some "DEPLOYMENT_LOCKED"

locked-raised : (f : Fault) → is_locked (raised f) ≡ false
locked-raised (os k m n) = refl
locked-raised (other t m) = refl
locked-raised (cancelled m) = refl
locked-raised (interrupted m) = refl

-- The calls that do not ask for the lock keep what stays true as the clock goes on.
module _ (P : Disk → Type 0) (later : (d e : Disk) → d.clock ≤ e.clock → P d → P e) where
  abbrev Quiet : {A : Type 0} → Result A → Disk → Type 0
  Quiet (ok a) d = P d
  Quiet (err x) d = (is_locked x ≡ false) × P d

  quiet :
      (effect : Disk → Disk)
      → ((d : Disk) → d.clock ≤ (effect d).clock)
      → Hoare P (call (done effect)) Quiet
  quiet effect h =
      Hoare-call (λ d ts s. later d _ (omega arith) s) (λ x d s. (locked-raised x, s)) _
        (λ x d s. (locked-raised x, later d _ (h d) s)) (record { at = λ d s. later d _ (h d) s })

  nothing-Quiet : Hoare P nothing Quiet
  unfolding nothing
  nothing-Quiet = quiet _ λ d. omega arith

  open-Quiet : (p : String) → Hoare P (open_descriptor p) Quiet
  unfolding open_descriptor
  open-Quiet p = quiet _ λ d. omega arith

  close-Quiet : (p : String) → Hoare P (close_descriptor p) Quiet
  unfolding close_descriptor
  close-Quiet p = quiet _ λ d. omega arith

  sleep-Quiet : (n : ℕ) → Hoare P (sleep n) Quiet
  unfolding sleep
  sleep-Quiet n = quiet _ λ d. omega (arith, slept-clock n d.delays d)

  close_if-Quiet :
      (is_open : Bool) (p : String)
      → Hoare P (if is_open then suppress_os_error (close_descriptor p) else pure tt) Quiet
  unfolding ◌>>=◌
  close_if-Quiet false p = record { at = λ d s. s }
  close_if-Quiet true p =
      Hoare-try _ _ _ (close-Quiet p) (λ a. record { at = λ d s. s })
        λ x.
          Hoare-if (is_os_error x) _ _ (λ q. record { at = λ d h. h.1 })
            (λ q. record { at = λ d h. h })

module _ (lock : DeploymentLock) (start deadline : ℕ) where
  -- How an attempt may end: with the lock, or refused, at the deadline at the earliest.
  abbrev pub Tried : {A : Type 0} → Result A → Disk → Type 0
  Tried (ok a) d = In lock.path d.locked × Since start d
  Tried (err x) d = (is_locked x ≡ true → deadline ≤ d.clock) × Since start d

  abbrev Asked : Result (Unit {0}) → Disk → Type 0
  Asked (ok a) d = In lock.path d.locked × Since start d
  Asked (err x) d = (is_locked x ≡ false) × Since start d

  lock_file-Asked : Hoare (Since start) (lock_file lock.path) Asked
  unfolding lock_file
  lock_file-Asked =
      Hoare-call (λ d ts h. h) (λ x d h. (locked-raised x, h)) _ (λ x d h. (locked-raised x, h))
        (record { at = λ d h. (inl refl, h) })

  raise-Tried :
      {A : Type 0} (x : Error) → is_locked x ≡ false → Hoare (Since start) (raise {A = A} x) Tried
  unfolding ◌>>=◌
  raise-Tried x h = record { at = λ d s. ((λ q. absurd (cc (h, q))), s) }

  later : (d e : Disk) → d.clock ≤ e.clock → Since start d → Since start e
  later d e h s = omega arith

  bind-Quiet :
      {A B : Type 0} (m : Exec Disk A) (f : A → Exec Disk B)
      → Hoare (Since start) m (Quiet (Since start) later)
      → ((a : A) → Hoare (Since start) (f a) Tried)
      → Hoare (Since start) (m >>= f) Tried
  bind-Quiet m f hm hf = Hoare-bind m f hm hf (λ x d (q, s). ((λ r. absurd (cc (q, r))), s))

  module _ (until : ℕ) (late : deadline ≤ until) where
    refused-Tried :
        (again : Exec Disk Unit)
        → Hoare (Since start) again Tried
        → (x : Error) → is_locked x ≡ false
        → Hoare (Since start) (refused lock again until x) Tried
    unfolding read_clock ◌>>=◌
    refused-Tried again next x h =
        Hoare-if (not (is_os_error x)) _ _ (λ q. raise-Tried x h)
          λ q.
            Hoare-if (not (is_contention x)) _ _ (λ r. raise-Tried _ refl)
              λ r. record {
                at = λ d s.
                    (Hoare-if {P = λ e. (e.clock ≡ d.clock) × Since start e} (leb until d.clock) _ _
                        (λ l. record {
                          at = λ e (same, t). ((λ _. omega (arith, leb→le until d.clock l)), t);
                        })
                        (λ l.
                          Hoare-weaken (λ e (same, t). t)
                            (bind-Quiet _ _ (sleep-Quiet (Since start) later _) (λ a. next)))).at
                      d (refl, s);
              }

    poll-Tried : (fuel : ℕ) → Hoare (Since start) (poll lock fuel until) Tried
    unfolding poll ◌>>=◌
    poll-Tried zero = raise-Tried _ refl
    poll-Tried (suc fuel) =
        Hoare-try _ _ _ lock_file-Asked (λ a. record { at = λ d h. h })
          λ x. record { at = λ d (q, s). (refused-Tried _ (poll-Tried fuel) x q).at d s }

  kept_error :
      (x : Error) (d e : Disk)
      → d.clock ≤ e.clock
      → Tried {A = Unit {0}} (err x) d
      → Tried {A = Unit {0}} (err x) e
  kept_error x d e h (q, s) = ((λ r. omega (arith, q r)), omega arith)

  -- Giving up keeps the error, or names it a failure to open the lock.
  give_up-Tried :
      (is_open : Bool) (x : Error)
      → Hoare (Tried {A = Unit {0}} (err x)) (give_up lock is_open x) Tried
  unfolding ◌>>=◌
  give_up-Tried is_open x =
      Hoare-bind _ _
        (close_if-Quiet (Tried {A = Unit {0}} (err x)) (kept_error x) is_open lock.path)
        (λ a.
          Hoare-if (is_os_error x) _ _ (λ q. record { at = λ d (h, s). ((λ r. absurd (cc)), s) })
            (λ q. record { at = λ d h. h }))
        (λ y d (q, (h, s)). ((λ r. absurd (cc (q, r))), s))

module _ (lock : DeploymentLock) (start : ℕ) where
  abbrev Taken : {A : Type 0} → Result A → Disk → Type 0
  Taken r d = Tried lock start (start + lock.timeout) r d

  abbrev Timed : Result ℕ → Disk → Type 0
  Timed (ok now) d = (start ≤ now) × Since start d
  Timed (err x) d = Taken {A = Unit {0}} (err x) d

  given_up :
      (is_open : Bool) (x : Error)
      → Hoare (Taken {A = Unit {0}} (err x)) (give_up lock is_open x) Taken
  given_up = give_up-Tried lock start (start + lock.timeout)

  acquire_lock-Taken : Hoare (Since start) (acquire_lock lock) Taken
  unfolding acquire_lock read_clock ◌>>=◌
  acquire_lock-Taken =
      Hoare-try {Q = Timed} _ _ _
        (Hoare-bind _ _ (nothing-Quiet (Since start) (later lock start start))
          (λ a. record { at = λ d s. (s, s) }) (λ x d (q, s). ((λ r. absurd (cc (q, r))), s)))
        (λ now. record {
          at = λ d (early, s).
              (Hoare-try _ _ _
                  (poll-Tried lock start (start + lock.timeout) (now + lock.timeout) (omega arith)
                    _)
                  (λ a. record { at = λ e h. h }) (given_up true)).at
                d s;
        })
        (given_up true)

  plain_nothing : Hoare (Since start) nothing (Quiet (Since start) (later lock start start))
  plain_nothing = nothing-Quiet (Since start) (later lock start start)

  ensured :
      Hoare
        (Since start)
        (ensure_directory lock.root "DEPLOYMENT_LOCK_FAILED" "open lock for")
        (Quiet (Since start) (later lock start start))
  unfolding ensure_directory ◌>>=◌
  ensured =
      Hoare-try _ _ _
        (Hoare-bind {Q = Quiet (Since start) (later lock start start)} _ _ plain_nothing
          (λ a. plain_nothing) (λ x d h. h))
        (λ a. record { at = λ d s. s })
        λ x.
          Hoare-if (is_os_error x) _ _ (λ q. record { at = λ d (r, s). (refl, s) })
            (λ q. record { at = λ d h. h })

  enter_open-Taken : Hoare (Since start) (enter_open lock) Taken
  unfolding enter_open
  enter_open-Taken = bind-Quiet lock start (start + lock.timeout) _ _ ensured λ a.
      Hoare-try _ _ _ (open-Quiet (Since start) (later lock start start) lock.path)
        (λ b. acquire_lock-Taken)
        λ x. record { at = λ d (q, s). (given_up false x).at d ((λ r. absurd (cc (q, r))), s) }

-- What `__enter__` comes to: the file is locked and its descriptor kept; and a lock that is refused as
-- held by another was asked for until the time was up.
abbrev pub Entered : DeploymentLock → ℕ → Result DeploymentLock → Disk → Type 0
Entered lock start (ok l) d =
    In lock.path d.locked × (l ≡ record lock { file_descriptor = some lock.path })
Entered lock start (err x) d = code x ≡ some "DEPLOYMENT_LOCKED" → start + lock.timeout ≤ d.clock

-- Where the lock is taken, the file is locked and the object keeps its descriptor; where it is refused as
-- held by another, the time-out has passed.
pub enter-Entered :
    (lock : DeploymentLock) (d : Disk) → Entered lock d.clock (enter lock d).0 (enter lock d).1
unfolding enter ◌>>=◌
enter-Entered lock d =
    (Hoare-given lock.file_descriptor _ _
        (λ free.
          Hoare-bind {R = Entered lock d.clock} (enter_open lock) _ (enter_open-Taken lock d.clock)
            (λ a. record { at = λ e (held, s). (held, refl) })
            (λ x e (h, s) q. h (ground (arith, beq_iff (code x) (some "DEPLOYMENT_LOCKED")))))
        (λ a. record { at = λ e s q. absurd (cc q) })).at
      d (omega arith)
