-- ===== src/State/Store/Removal.antt =====
-- state.py, `delete`: what becomes of the file of the snapshot; and the other files, which `save` and
-- `delete` leave alone.
use nslab.Base.{
  String, ◌≡◌, refl, subst, Bool, true, false, Option, none, some, if◌then◌else◌, arith, beq_iff,
  string_eq, option_eq, ◌⊎◌, inl, inr, Option-cases,
}
use nslab.Base.Dict.{lookup, lookup-erase, erase, has_key, has_key-lookup}
use nslab.Json.{Json}
use nslab.Error.{Result, ok, err, code, is_os_error}
use nslab.Exec.{◌>>=◌}
use nslab.Exec.Keeps.{Keeps, Keeps-raise, Keeps-pure, Keeps-bind, Keeps-try_except, Keeps-if}
use nslab.Exec.Hoare.{Hoare, Hoare-Keeps, Hoare-try, Hoare-if}
use nslab.State.Files.{
  Disk, File, Fault, raised, not_found, plain, permission, blocking, exists, not_a_directory, os,
  other, cancelled, interrupted, is_missing, unlink, close_descriptor,
}
use nslab.State.Files.Entries.{
  Entry, Hoare-call, Keeps-close_descriptor, Keeps-open_descriptor, Keeps-sync_directory,
}
use nslab.State.Store.{fsync_directory, delete, delete_path, state_path, suppress_os_error}

is_missing-raised : (f : Fault) → is_missing (raised f) ≡ false
is_missing-raised (os plain m n) = refl
is_missing-raised (os permission m n) = refl
is_missing-raised (os blocking m n) = refl
is_missing-raised (os exists m n) = refl
is_missing-raised (os not_a_directory m n) = refl
is_missing-raised (other t m) = refl
is_missing-raised (cancelled m) = refl
is_missing-raised (interrupted m) = refl

module _ (path : String) (o : Option File) where
  suppress-Keeps :
      (root : String) → Keeps (Entry path o) (suppress_os_error (close_descriptor root))
  suppress-Keeps root =
      Keeps-try_except _ _ _ (Keeps-close_descriptor path o root) (λ a. Keeps-pure a)
        λ x. Keeps-if (is_os_error x) _ _ (Keeps-pure tt) (Keeps-raise x)

  pub fsync_directory-Keeps : (root : String) → Keeps (Entry path o) (fsync_directory root)
  unfolding fsync_directory
  fsync_directory-Keeps root = Keeps-bind _ _ (Keeps-open_descriptor path o root) λ a.
      Keeps-try_except _ _ _ (Keeps-sync_directory path o) (λ b. suppress-Keeps root)
        λ x. Keeps-bind _ _ (suppress-Keeps root) λ b. Keeps-raise x

module _ (path : String) (o : Option File) where
  Either : Disk → Type 0
  Either d = Entry path o d ⊎ Entry path none d

  -- How a `delete` may end.
  abbrev pub Deleted : Result (Unit {0}) → Disk → Type 0
  Deleted (ok a) d = Entry path none d
  Deleted (err x) d =
      ((code x ≡ some "STATE_DURABILITY_UNCERTAIN") × Entry path none d)
      ⊎ ((code x ≡ some "STATE_COMMIT_OUTCOME_UNKNOWN") × (Entry path o d ⊎ Entry path none d))

  -- What is known of the entry when `unlink` ends.
  abbrev Unlinked : Result (Unit {0}) → Disk → Type 0
  Unlinked (ok a) d = Entry path none d
  Unlinked (err x) d =
      if is_missing x then Entry path none d else (Entry path o d ⊎ Entry path none d)

  erased : (d : Disk) → lookup path (erase path d.files) ≡ none
  erased d = ground (arith, lookup-erase path path d.files, beq_iff path path)

  -- `unlink` without a fault.
  removed :
      (b : Bool) (d : Disk)
      → has_key path d.files ≡ b
      → Entry path o d
      → let (r, after) =
          if b then (ok tt, record d { files = erase path d.files }) else not_found path d in
        Unlinked r after
  removed true d q h = erased d
  removed false d q h = elim (Option-cases (lookup path d.files)) [
    | inl absent ↦ absent
    | inr (f, found) ↦ absurd (cc (has_key-lookup path d.files found, q))
  ]

  unlinked_after :
      (b : Bool) (d : Disk)
      → Entry path o d
      → Either (if b then (ok tt, record d { files = erase path d.files }) else not_found path d).1
  unfolding Either
  unlinked_after true d h = inr (erased d)
  unlinked_after false d h = inl h

  unlink-Unlinked : Hoare (Entry path o) (unlink path) Unlinked
  unfolding unlink Either
  unlink-Unlinked =
      Hoare-call (λ d ts h. h) (λ x d h. rw (is_missing-raised x) (inl h)) _
        (λ x d h. rw (is_missing-raised x) (unlinked_after _ d h))
        (record { at = λ d h. removed _ d refl h })

  delete_path-Deleted : (root : String) → Hoare (Entry path o) (delete_path root path) Deleted
  unfolding delete_path ◌>>=◌ Either
  delete_path-Deleted root =
      Hoare-try _ _ _ unlink-Unlinked
        (λ a.
          Hoare-try _ _ _ (Hoare-Keeps (fsync_directory-Keeps path none root))
            (λ b. record { at = λ d h. h }) λ x. record { at = λ d h. inl (refl, h) })
        λ x.
          Hoare-if (is_missing x) _ _
            (λ q. record { at = λ d h. subst (λ b. if b then Entry path none d else Either d) q h })
            (λ q. record {
              at = λ d h. inr (refl, subst (λ b. if b then Entry path none d else Either d) q h);
            })

-- However the calls of a `delete` end: the file is gone where it returns and where it reports an
-- uncertain durability; under any other error it is gone or what it was.
pub delete-Deleted :
    (root : String) (repr : Json → String) (name path : String)
    → state_path root repr name ≡ ok path
    → (d : Disk)
    → let (r, after) = delete root repr name d in Deleted path (lookup path d.files) r after
unfolding delete ◌>>=◌
delete-Deleted root repr name path q d = rw (q) ((delete_path-Deleted path _ root).at d refl)
