-- ===== src/State/Store.antt =====
-- state.py, `StateStore`: the snapshot of a deployment in a file that is replaced as a whole. `handling`
-- says whether the caller is inside an `except` block, which `sys.exception()` shows to the clean-up.
-- `dumps` and `loads` stand for the JSON text of a document, `root` for the directory of the store. The
-- local variables at a failure are the arguments of `fail`.
pub mod Cleanup
pub mod Stages
pub mod Atomic
pub mod Removal
pub mod Others
pub mod Reload
use nslab.Base.{
  String, ◌≡◌, Bool, true, false, not, ◌&&◌, ◌||◌, Option, none, some, [], ◌∷◌, ◌<>◌, ◌==◌,
  string_eq, if◌then◌else◌, ◌++◌,
}
use nslab.Base.Dict.{Dict}
use nslab.Json.{Json, str, bool, int}
use nslab.Error.{
  Error, nslab_error, operation_cancelled, os_error, exception, keyboard_interrupt, Result, ok, err,
  is_os_error, ◌>>=◌ as ◌then◌,
}
use nslab.Exec.{Exec, pure, raise, lift, try_except, given, ◌>>=◌}
use nslab.State.Snapshot.{StateSnapshot}
use nslab.State.Codec.{is_name, snapshot_to_dict, snapshot_from_dict}
use nslab.State.Files.{
  Disk, is_missing, is_unicode_error, is_value_error, make_temporary, nothing, set_mode, write_text,
  flush, sync_file, open_descriptor, close_descriptor, replace, unlink, sync_directory, read_text,
}

-- `str(error)`, `type(error).__name__` and `error.errno`
abbrev error_text : Error → String
error_text (nslab_error _ m _) = m
error_text (operation_cancelled m _) = m
error_text (os_error _ m _ _) = m
error_text (exception _ m _) = m
error_text (keyboard_interrupt m _) = m

abbrev error_type : Error → String
error_type (nslab_error _ _ _) = "NslabError"
error_type (operation_cancelled _ _) = "OperationCancelled"
error_type (os_error t _ _ _) = t
error_type (exception t _ _) = t
error_type (keyboard_interrupt _ _) = "KeyboardInterrupt"

abbrev errno_detail : Error → Dict Json
errno_detail (os_error _ _ (some n) _) = ("errno", int n) ∷ []
errno_detail _ = []

abbrev pub error_details : String → Error → Dict Json
error_details path x = ("path", str path) ∷ ("error", str (error_text x)) ∷ errno_detail x

abbrev cause_details : Error → Dict Json
cause_details x = ("cause_type", str (error_type x)) ∷ ("cause_message", str (error_text x)) ∷ []

-- `{name!r}` is `repr` of the name.
abbrev pub deployment_name_error : (Json → String) → String → Error
deployment_name_error repr name =
    nslab_error "DEPLOYMENT_NAME_INVALID" ("invalid deployment name: " <> repr (str name))
      (("name", str name) ∷ [])

abbrev state_error : String → String → String → Error → Error
state_error code action path x =
    nslab_error code ("failed to " <> action <> " deployment state: " <> path)
      (error_details path x)

abbrev state_invalid : String → Error → Error
state_invalid path x =
    nslab_error "STATE_INVALID" ("invalid deployment state: " <> path) (error_details path x)

abbrev pub durability_error : String → String → Error → Error
durability_error path operation x =
    nslab_error "STATE_DURABILITY_UNCERTAIN"
      ("deployment state " <> operation <> " committed but durability is uncertain: " <> path)
      (error_details path x
        ++ ("operation", str operation) ∷ ("committed", bool true) ∷ cause_details x)

abbrev pub commit_outcome_unknown : String → String → Error → Error
commit_outcome_unknown path operation x =
    nslab_error "STATE_COMMIT_OUTCOME_UNKNOWN"
      ("deployment state " <> operation <> " outcome is unknown: " <> path)
      (("path", str path)
        ∷ ("operation", str operation)
        ∷ ("committed", str "unknown")
        ∷ cause_details x)

abbrev pub done : Exec Disk Unit
done = pure tt

-- `with suppress(OSError): m`
abbrev pub suppress_os_error : Exec Disk Unit → Exec Disk Unit
suppress_os_error m = try_except m pure λ x. if is_os_error x then done else raise x

-- `_ensure_directory`: `mkdir` and `chmod` of the root
unfoldable pub ensure_directory : String → String → String → Exec Disk Unit
ensure_directory root code action =
    try_except (nothing >>= λ _. nothing) pure
      λ x. if is_os_error x then raise (state_error code action root x) else raise x

unfoldable pub fsync_directory : String → Exec Disk Unit
fsync_directory root = open_descriptor root >>= λ _.
    try_except sync_directory (λ _. suppress_os_error (close_descriptor root))
      λ x. suppress_os_error (close_descriptor root) >>= λ _. raise x

-- `cleanup_error`: the first of the two errors
abbrev pub or_else : Option Error → Option Error → Option Error
or_else none y = y
or_else (some x) y = some x

-- The error of an action, as a value.
abbrev error_of : Exec Disk Unit → Exec Disk (Option Error)
error_of m = try_except m (λ _. pure none) λ x. pure (some x)

abbrev close_open : Option String → Exec Disk (Option Error)
close_open none = pure none
close_open (some descriptor) = error_of (close_descriptor descriptor)

abbrev remove_left : Option String → Bool → Exec Disk (Option Error)
remove_left (some temporary) false =
    try_except (unlink temporary) (λ _. pure none)
      λ x. if is_missing x then pure none else pure (some x)
remove_left _ _ = pure none

abbrev raise_unless : Bool → Option Error → Exec Disk Unit
raise_unless active none = done
raise_unless true (some x) = done
raise_unless false (some x) = raise x

unfoldable pub cleanup_temporary : Bool → Option String → Bool → Option String → Exec Disk Unit
cleanup_temporary active temporary replaced descriptor = close_open descriptor >>= λ closing.
    remove_left temporary replaced >>= λ removing. raise_unless active (or_else closing removing)

-- The `except` and `finally` clauses of `save`: `cleanup_temporary` runs under the error.
unfoldable pub fail : String → Option String → Bool → Option String → Error → Exec Disk Unit
fail path temporary replaced descriptor x =
    cleanup_temporary true temporary replaced descriptor >>= λ _.
    if is_os_error x || is_unicode_error x
    then raise (state_error "STATE_WRITE_FAILED" "write" path x)
    else raise x

-- `write`, `flush`, `fsync`, and the `close` in their `finally`
unfoldable pub write_synced : Bool → String → String → Exec Disk Unit
write_synced handling temporary text =
    try_except (write_text text >>= λ _. flush temporary >>= λ _. sync_file temporary)
      (λ _. try_except (close_descriptor temporary) pure λ x. if handling then done else raise x)
      λ x. try_except (close_descriptor temporary) (λ _. raise x) λ _. raise x

module _ (root : String) (handling : Bool) where
  unfoldable pub commit : String → String → Exec Disk Unit
  commit path temporary =
      try_except (replace temporary path)
        (λ _.
          try_except (fsync_directory root)
            (λ _. cleanup_temporary handling (some temporary) true none)
            λ x. fail path (some temporary) true none (durability_error path "save" x))
        λ x. fail path (some temporary) false none (commit_outcome_unknown path "save" x)

  unfoldable pub fill : String → String → String → Exec Disk Unit
  fill path text temporary =
      try_except (set_mode temporary 0o644 >>= λ _. nothing)
        (λ _.
          try_except (write_synced handling temporary text) (λ _. commit path temporary)
            λ x. fail path (some temporary) false none x)
        λ x. fail path (some temporary) false (some temporary) x

  unfoldable pub save_text : String → String → Exec Disk Unit
  save_text path text = ensure_directory root "STATE_WRITE_FAILED" "write" >>= λ _.
      try_except (make_temporary path) (fill path text) λ x. fail path none false none x

module _ (root : String) (repr : Json → String) where
  unfoldable pub state_path : String → Result String
  state_path name =
      if is_name name
      then ok (root <> "/" <> name <> ".json")
      else err (deployment_name_error repr name)

module _ (repr : Json → String) (dumps : Json → Result String) where
  unfoldable pub serialize : StateSnapshot → Result String
  serialize snapshot = snapshot_from_dict repr (snapshot_to_dict snapshot) then λ validated.
      dumps (snapshot_to_dict validated) then λ text. ok (text <> "\n")

module _ (root : String) (repr : Json → String) (dumps : Json → Result String) where
  unfoldable pub save : Bool → StateSnapshot → Exec Disk Unit
  save handling snapshot = lift (state_path root repr snapshot.name) >>= λ path.
      try_except (lift (serialize repr dumps snapshot)) (save_text root handling path)
        λ x. if is_value_error x then raise (state_invalid path x) else raise x

module _ (root : String) where
  unfoldable pub delete_path : String → Exec Disk Unit
  delete_path path =
      try_except (unlink path)
        (λ _. try_except (fsync_directory root) pure λ x. raise (durability_error path "delete" x))
        λ x. if is_missing x then done else raise (commit_outcome_unknown path "delete" x)

module _ (root : String) (repr : Json → String) where
  unfoldable pub delete : String → Exec Disk Unit
  delete name = lift (state_path root repr name) >>= delete_path root

module _ (root : String) (repr : Json → String) (loads : String → Result Json) where
  pub read_document : String → Exec Disk (Option Json)
  read_document path =
      try_except (read_text path >>= λ text. lift (loads text)) (λ j. pure (some j))
        λ x.
          if is_missing x
          then pure none
          else if is_value_error x
          then raise (state_invalid path x)
          else if is_os_error x
          then raise (state_error "STATE_READ_FAILED" "read" path x)
          else raise x

  unfoldable pub load : String → Exec Disk (Option StateSnapshot)
  unfolding read_document
  load name = lift (state_path root repr name) >>= λ path. read_document path >>= λ found.
      given found (pure none) λ document.
        try_except (lift (snapshot_from_dict repr document)) (λ s. pure (some s))
          λ x. if is_value_error x then raise (state_invalid path x) else raise x
