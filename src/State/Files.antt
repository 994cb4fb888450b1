-- ===== src/State/Files.antt =====
-- The calls of `os`, `tempfile` and file objects that state.py makes, on a disk. `turns` says how each
-- call ends, one entry for each: it goes well, or it is stopped by a fault, before or after its effect.
pub mod Entries
pub mod Temporary
use nslab.Base.{
  ℕ, ◌+◌, String, ◌≡◌, Bool, true, false, not, Option, none, some, List, [], ◌∷◌, ◌<>◌, ◌==◌,
  string_eq, if◌then◌else◌, ◌||◌, contains,
}
use nslab.Base.Dict.{Dict, lookup, insert, erase, has_key}
use nslab.Base.Int.{ℤ, pos}
use nslab.Error.{
  Error, os_error, exception, operation_cancelled, keyboard_interrupt, Result, ok, err,
}
use nslab.Exec.{Exec, pure, raise, lift, ◌>>=◌, try_except, given}

-- The `OSError`s that may stop a call. A `FileNotFoundError` comes from the calls themselves, where the
-- file is not there.
pub data OsKind : Type 0 where
  plain permission blocking exists not_a_directory : OsKind

abbrev pub kind_name : OsKind → String
kind_name plain = "OSError"
kind_name permission = "PermissionError"
kind_name blocking = "BlockingIOError"
kind_name exists = "FileExistsError"
kind_name not_a_directory = "NotADirectoryError"

-- What may stop a call: one of these, another exception, and the two that a signal raises.
pub data Fault : Type 0 where
  os : OsKind → String → Option ℤ → Fault
  other : String → String → Fault
  cancelled : String → Fault
  interrupted : String → Fault

abbrev pub raised : Fault → Error
raised (os k m number) = os_error (kind_name k) m number []
raised (other t m) = exception t m []
raised (cancelled m) = operation_cancelled m []
raised (interrupted m) = keyboard_interrupt m []

-- The flag says whether the call took effect all the same.
pub data Turn : Type 0 where
  goes : Turn
  stops : Bool → Fault → Turn

-- `safe` once the text has been synced to the disk.
pub record File : Type 0 where
  pub text : String
  pub mode : ℕ
  pub safe : Bool

-- `durable` holds the entries as of the last sync of the directory; `pending` is the buffer of the
-- one file object that `save` opens; `suffixes` are the random names that `mkstemp` will try.
pub record Disk : Type 0 where
  pub files : Dict File
  pub durable : Dict File
  pub descriptors : List String
  pub pending : String
  pub suffixes : List String
  pub pid : String
  pub turns : List Turn
  -- The files that this process holds locked, the clock in milliseconds, and by how much each sleep
  -- takes longer than it was asked to.
  pub locked : List String
  pub clock : ℕ
  pub delays : List ℕ

module _ {A : Type 0} where
  abbrev on_turn : List Turn → Exec Disk A → Exec Disk A
  on_turn [] effect d = effect d
  on_turn (goes ∷ later) effect d = effect (record d { turns = later })
  on_turn (stops false fault ∷ later) effect d = (err (raised fault), record d { turns = later })
  on_turn (stops true fault ∷ later) effect d =
      (err (raised fault), (effect (record d { turns = later })).1)

  unfoldable pub call : Exec Disk A → Exec Disk A
  call effect d = on_turn d.turns effect d

abbrev pub not_found : {A : Type 0} → String → Exec Disk A
not_found p d = (
  err (
      os_error "FileNotFoundError" ("[Errno 2] No such file or directory: " <> p) (some (pos 2))
        []),
  d,
)

-- `except FileNotFoundError`
abbrev pub is_missing : Error → Bool
is_missing (os_error t _ _ _) = t == "FileNotFoundError"
is_missing _ = false

-- `except UnicodeError`, and `except (TypeError, ValueError)`, to which it belongs
abbrev pub is_unicode_error : Error → Bool
is_unicode_error (exception t _ _) =
    contains ("UnicodeError" ∷ "UnicodeEncodeError" ∷ "UnicodeDecodeError" ∷ []) t
is_unicode_error _ = false

abbrev pub is_value_error : Error → Bool
is_value_error (exception t m n) =
    is_unicode_error (exception t m n)
    || contains ("ValueError" ∷ "TypeError" ∷ "JSONDecodeError" ∷ []) t
is_value_error _ = false

abbrev opened : String → Disk → Disk
opened p d = record d { descriptors = p ∷ d.descriptors }

abbrev pub without : String → List String → List String
without p [] = []
without p (q ∷ qs) = let rest = without p qs in if p == q then qs else q ∷ rest

abbrev pub change : (File → File) → String → Disk → Disk
change f p d = elim (lookup p d.files) [
  | none ↦ d
  | some file ↦ record d { files = insert p (f file) d.files }
]

-- `mkstemp`: the first candidate that is no file yet is created and opened.
abbrev first_free : String → List String → Dict File → Option (String × List String)
first_free prefix [] files = none
first_free prefix (s ∷ later) files =
    let rest = first_free prefix later files in
    if has_key (prefix <> s) files then rest else some (prefix <> s, later)

abbrev pub new_file : File
new_file = record { text = ""; mode = 0o600; safe = false }

abbrev create : Option (String × List String) → Exec Disk String
create none d = (err (os_error "FileExistsError" "No usable temporary file name found" none []), d)
create (some (p, later)) d =
    (ok p, opened p (record d { files = insert p new_file d.files; suffixes = later }))

unfoldable pub make_temporary : String → Exec Disk String
unfolding call
make_temporary path =
    call λ d. create (first_free (path <> ".tmp-" <> d.pid <> "-") d.suffixes d.files) d

abbrev pub done : (Disk → Disk) → Exec Disk Unit
done f d = (ok tt, f d)

unfoldable pub nothing : Exec Disk Unit
unfolding call
nothing = call (done λ d. d)

unfoldable pub set_mode : String → ℕ → Exec Disk Unit
unfolding call
set_mode p mode = call (done (change (λ f. record f { mode = mode }) p))

unfoldable pub write_text : String → Exec Disk Unit
unfolding call
write_text text = call (done λ d. record d { pending = text })

unfoldable pub flush : String → Exec Disk Unit
unfolding call
flush p = call (done λ d. change (λ f. record f { text = d.pending; safe = false }) p d)

unfoldable pub sync_file : String → Exec Disk Unit
unfolding call
sync_file p = call (done (change (λ f. record f { safe = true }) p))

unfoldable pub open_descriptor : String → Exec Disk Unit
unfolding call
open_descriptor p = call (done (opened p))

unfoldable pub close_descriptor : String → Exec Disk Unit
unfolding call
close_descriptor p =
    call (done λ d. record d { descriptors = without p d.descriptors; locked = without p d.locked })

abbrev pub renamed : Option File → String → String → Exec Disk Unit
renamed none source target = not_found source
renamed (some f) source target =
    done λ d. record d { files = insert target f (erase source d.files) }

-- `os.replace`
unfoldable pub replace : String → String → Exec Disk Unit
unfolding call
replace source target = call λ d. renamed (lookup source d.files) source target d

unfoldable pub unlink : String → Exec Disk Unit
unfolding call
unlink p =
    call λ d.
      if has_key p d.files then (ok tt, record d { files = erase p d.files }) else not_found p d

unfoldable pub sync_directory : Exec Disk Unit
unfolding call
sync_directory = call (done λ d. record d { durable = d.files })

abbrev text_of : Option File → String → Exec Disk String
text_of none p d = not_found p d
text_of (some f) p d = (ok f.text, d)

unfoldable pub read_text : String → Exec Disk String
unfolding call
read_text p = call λ d. text_of (lookup p d.files) p d

-- `fcntl.flock`; a lock that another process holds is a `BlockingIOError`.
unfoldable pub lock_file : String → Exec Disk Unit
unfolding call
lock_file p = call (done λ d. record d { locked = p ∷ d.locked })

unfoldable pub unlock_file : String → Exec Disk Unit
unfolding call
unlock_file p = call (done λ d. record d { locked = without p d.locked })

-- `time.monotonic`
unfoldable pub read_clock : Exec Disk ℕ
read_clock d = (ok d.clock, d)

abbrev pub slept : ℕ → List ℕ → Disk → Disk
slept duration [] d = record d { clock = d.clock + duration }
slept duration (delay ∷ later) d = record d { clock = d.clock + duration + delay; delays = later }

unfoldable pub sleep : ℕ → Exec Disk Unit
unfolding call
sleep duration = call (done λ d. slept duration d.delays d)
