-- ===== src/State/Lock.antt =====
-- state.py, `DeploymentLock`: an exclusive lock on a file, asked for again until a deadline. Times are whole
-- milliseconds. `poll` runs on fuel, and `enter` gives it as much as the deadline can need.
pub mod Polling
pub mod Entering
use nslab.Base.{
  ℕ, zero, suc, ◌+◌, ◌-◌, String, Bool, true, false, not, ◌&&◌, ◌||◌, Option, none, some, [], ◌∷◌,
  ◌<>◌, ◌==◌, string_eq, option_eq, contains, if◌then◌else◌, leb, ◌++◌,
}
use nslab.Base.Int.{ℤ, pos, int_eq}
use nslab.Json.{Json, str, int}
use nslab.Error.{Error, nslab_error, os_error, exception, Result, ok, err, is_os_error}
use nslab.Exec.{Exec, pure, raise, lift, try_except, given, ◌>>=◌}
use nslab.State.Codec.{is_name}
use nslab.State.Files.{
  Disk, nothing, open_descriptor, close_descriptor, lock_file, unlock_file, read_clock, sleep,
}
use nslab.State.Store.{
  ensure_directory, suppress_os_error, error_details, deployment_name_error, done, or_else,
}

pub record DeploymentLock : Type 0 where
  pub root : String
  pub name : String
  pub path : String
  pub timeout : ℕ
  pub file_descriptor : Option String

unfoldable pub deployment_lock : (Json → String) → String → String → ℕ → Result DeploymentLock
deployment_lock repr root name timeout =
    if is_name name
    then ok (record {
      root = root;
      name = name;
      path = root <> "/" <> name <> ".lock";
      timeout = timeout;
      file_descriptor = none;
    })
    else err (deployment_name_error repr name)

abbrev poll_interval : ℕ
poll_interval = 10

-- `EAGAIN` is 11 and `EACCES` is 13.
unfoldable pub is_contention : Error → Bool
is_contention (os_error t m number notes) =
    t == "BlockingIOError" || contains (some (pos 11) ∷ some (pos 13) ∷ []) number
is_contention _ = false

abbrev min : ℕ → ℕ → ℕ
min a b = if leb a b then a else b

module _ (lock : DeploymentLock) where
  abbrev pub lock_failed : String → Error → Error
  lock_failed message x =
      nslab_error "DEPLOYMENT_LOCK_FAILED" (message <> lock.path)
        (("name", str lock.name) ∷ error_details lock.path x)

  abbrev deployment_locked : Error
  deployment_locked =
      nslab_error "DEPLOYMENT_LOCKED" ("deployment is locked: " <> lock.name) (
        ("name", str lock.name)
        ∷ ("path", str lock.path)
        ∷ ("timeout", int (pos lock.timeout))
        ∷ [])

  abbrev out_of_fuel : Error
  out_of_fuel = exception "RuntimeError" "out of fuel" []

  abbrev pub wait : Exec Disk Unit → ℕ → ℕ → Exec Disk Unit
  wait again deadline now =
      if leb deadline now
      then raise deployment_locked
      else (sleep (min poll_interval (deadline - now)) >>= λ _. again)

  -- `except OSError` in the loop
  abbrev pub refused : Exec Disk Unit → ℕ → Error → Exec Disk Unit
  refused again deadline x =
      if not (is_os_error x)
      then raise x
      else if not (is_contention x)
      then raise (lock_failed "failed to acquire deployment lock: " x)
      else (read_clock >>= wait again deadline)

  -- The `while True` loop.
  unfoldable pub poll : ℕ → ℕ → Exec Disk Unit
  poll zero deadline = raise out_of_fuel
  poll (suc fuel) deadline =
      let again = poll fuel deadline in
      try_except (lock_file lock.path) pure (refused again deadline)

  -- `except OSError` around the opening and the loop, and the `finally`
  abbrev pub give_up : Bool → Error → Exec Disk Unit
  give_up is_open x =
      (if is_open then suppress_os_error (close_descriptor lock.path) else done) >>= λ _.
      if is_os_error x then raise (lock_failed "failed to open deployment lock: " x) else raise x

  unfoldable pub acquire_lock : Exec Disk Unit
  acquire_lock =
      try_except (nothing >>= λ _. read_clock)
        (λ now. try_except (poll (suc (suc lock.timeout)) (now + lock.timeout)) pure (give_up true))
        (give_up true)

  unfoldable pub enter_open : Exec Disk Unit
  enter_open = ensure_directory lock.root "DEPLOYMENT_LOCK_FAILED" "open lock for" >>= λ _.
      try_except (open_descriptor lock.path) (λ _. acquire_lock) (give_up false)

  unfoldable pub enter : Exec Disk DeploymentLock
  enter =
      given lock.file_descriptor
        (enter_open >>= λ _. pure (record lock { file_descriptor = some lock.path }))
        λ _. raise (exception "RuntimeError" "deployment lock is already held by this object" [])

  abbrev close_released : String → Option Error → Exec Disk (Option Error)
  close_released descriptor release_error =
      try_except (close_descriptor descriptor) (λ _. pure release_error)
        λ x. if is_os_error x then pure (or_else release_error (some x)) else raise x

  -- `failed` says whether the body raised.
  unfoldable pub release : Bool → String → Exec Disk DeploymentLock
  release failed descriptor =
      try_except (unlock_file descriptor) (λ _. close_released descriptor none)
        (λ x.
          if is_os_error x
          then close_released descriptor (some x)
          else (close_released descriptor none >>= λ _. raise x))
      >>= λ release_error. given release_error (pure (record lock { file_descriptor = none })) λ x.
        if failed
        then pure (record lock { file_descriptor = none })
        else raise (lock_failed "failed to release deployment lock: " x)

  unfoldable pub exit : Bool → Exec Disk DeploymentLock
  exit failed = given lock.file_descriptor (pure lock) (release failed)
