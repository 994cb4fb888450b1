-- ===== src/State/Store/Others.antt =====
-- state.py: the files that are not the snapshot's, which `save` leaves alone.
use nslab.Base.{String, ◌≡◌, ◌≢◌, Bool, true, false, Option, none, some, inr}
use nslab.Json.{Json}
use nslab.Error.{Error, Result, ok, is_os_error}
use nslab.Exec.{◌>>=◌}
use nslab.Exec.Keeps.{
  Keeps, Keeps-bind_ok, Keeps-raise, Keeps-pure, Keeps-bind, Keeps-try_except, Keeps-if, Keeps-lift,
}
use nslab.Exec.Hoare.{Keeps-Hoare, Hoare-try}
use nslab.State.Snapshot.{StateSnapshot}
use nslab.State.Files.{File, is_value_error, close_descriptor}
use nslab.State.Files.Entries.{
  Entry, Keeps-nothing, Keeps-write_text, Keeps-close_descriptor, Keeps-unlink, Keeps-set_mode,
  Keeps-flush, Keeps-sync_file, Keeps-replace,
}
use nslab.State.Files.Temporary.{make_temporary-Made}
use nslab.State.Store.{
  fail, commit, fill, save_text, save, state_path, ensure_directory, write_synced,
  cleanup_temporary,
}
use nslab.State.Store.Cleanup.{Hoare-fail}
use nslab.State.Store.Removal.{fsync_directory-Keeps}

module _ (q : String) (f : File) (path : String) (aside : path ≢ q) where
  fail-Keeps :
      (temporary : Option String) (replaced : Bool) (descriptor : Option String) (x : Error)
      → ((t : String) → temporary ≡ some t → t ≢ q)
      → Keeps (Entry q (some f)) (fail path temporary replaced descriptor x)
  fail-Keeps temporary replaced descriptor x apart = Keeps-Hoare (
      Hoare-fail (Keeps-close_descriptor q (some f)) path temporary replaced descriptor x
        (λ t e. Keeps-unlink q (some f) t (apart t e)) (λ d h. h) (λ d h _. h))

  module _ (root : String) (handling : Bool) (t : String) (apart : t ≢ q) where
    fail_t-Keeps :
        (replaced : Bool) (descriptor : Option String) (x : Error)
        → Keeps (Entry q (some f)) (fail path (some t) replaced descriptor x)
    fail_t-Keeps replaced descriptor x =
        fail-Keeps (some t) replaced descriptor x (λ u e h. apart (cc))

    write_synced-Keeps : (text : String) → Keeps (Entry q (some f)) (write_synced handling t text)
    unfolding write_synced
    write_synced-Keeps text =
        Keeps-try_except _ _ _
          (Keeps-bind _ _ (Keeps-write_text q (some f) text) λ a.
            Keeps-bind _ _ (Keeps-flush q (some f) t apart) λ b. Keeps-sync_file q (some f) t apart)
          (λ a.
            Keeps-try_except _ _ _ closes (λ b. Keeps-pure b)
              λ x. Keeps-if handling _ _ (Keeps-pure tt) (Keeps-raise x))
          λ x. Keeps-try_except _ _ _ closes (λ b. Keeps-raise x) (λ y. Keeps-raise x)
      where
        closes : Keeps (Entry q (some f)) (close_descriptor t)
        closes = Keeps-close_descriptor q (some f) t

    committed-Keeps : Keeps (Entry q (some f)) (cleanup_temporary handling (some t) true none)
    unfolding cleanup_temporary ◌>>=◌
    committed-Keeps = record { at = λ d h. h }

    commit-Keeps : Keeps (Entry q (some f)) (commit root handling path t)
    unfolding commit
    commit-Keeps =
        Keeps-try_except _ _ _ (Keeps-replace q (some f) t apart path aside)
          (λ a.
            Keeps-try_except _ _ _ (fsync_directory-Keeps q (some f) root) (λ b. committed-Keeps)
              λ x. fail_t-Keeps true none _)
          λ x. fail_t-Keeps false none _

    fill-Keeps : (text : String) → Keeps (Entry q (some f)) (fill root handling path text t)
    unfolding fill
    fill-Keeps text =
        Keeps-try_except _ _ _
          (Keeps-bind _ _ (Keeps-set_mode q (some f) t apart 0o644) λ a. Keeps-nothing q (some f))
          (λ a.
            Keeps-try_except _ _ _ (write_synced-Keeps text) (λ b. commit-Keeps)
              λ x. fail_t-Keeps false none x)
          λ x. fail_t-Keeps false (some t) x

  ensure_directory-Keeps :
      (root code action : String) → Keeps (Entry q (some f)) (ensure_directory root code action)
  unfolding ensure_directory
  ensure_directory-Keeps root code action =
      Keeps-try_except _ _ _
        (Keeps-bind _ _ (Keeps-nothing q (some f)) λ a. Keeps-nothing q (some f))
        (λ a. Keeps-pure a) λ x. Keeps-if (is_os_error x) _ _ (Keeps-raise _) (Keeps-raise x)

  save_text-Keeps :
      (root text : String) (handling : Bool)
      → Keeps (Entry q (some f)) (save_text root handling path text)
  unfolding save_text
  save_text-Keeps root text handling = Keeps-bind _ _ (ensure_directory-Keeps root _ _) λ a.
      Keeps-Hoare (
        Hoare-try _ _ _ (make_temporary-Made path q (some f) (inr (λ e. cc)))
          (λ t. record {
            at = λ d made. (fill-Keeps root handling t made.other text).at d made.entry;
          })
          λ x. record { at = λ d h. (fail-Keeps none false none x (λ t e. absurd (cc))).at d h.1 })

  -- A `save` leaves every other file that was there as it was.
  pub save-Keeps :
      (root : String) (repr : Json → String) (dumps : Json → Result String) (handling : Bool)
      (snapshot : StateSnapshot)
      → state_path root repr snapshot.name ≡ ok path
      → Keeps (Entry q (some f)) (save root repr dumps handling snapshot)
  unfolding save
  save-Keeps root repr dumps handling snapshot h = Keeps-bind_ok _ path _ h (
      Keeps-try_except _ _ _ (Keeps-lift _) (λ text. save_text-Keeps root text handling)
        λ x. Keeps-if (is_value_error x) _ _ (Keeps-raise _) (Keeps-raise x))
