-- ===== src/State/Store/Atomic.antt =====
-- state.py, `save`: what becomes of the file of the snapshot, however the calls end.
use nslab.Base.{
  String, ◌≡◌, ◌≢◌, refl, Bool, true, false, Option, none, some, if◌then◌else◌, arith, beq_iff,
  ◌==◌, string_eq, option_eq, ◌⊎◌, inl, inr, ◌||◌,
}
use nslab.Base.Dict.{lookup, lookup-insert, insert, erase}
use nslab.Json.{Json}
use nslab.Error.{Error, Result, ok, err, code, is_os_error}
use nslab.Exec.{◌>>=◌, try_except}
use nslab.Exec.Keeps.{Keeps}
use nslab.Exec.Hoare.{Hoare, Hoare-Keeps, Hoare-bind, Hoare-try, Hoare-if}
use nslab.State.Snapshot.{StateSnapshot}
use nslab.State.Files.{
  Disk, File, new_file, nothing, close_descriptor, sync_directory, replace, unlink,
}
use nslab.State.Files.Entries.{
  uncertain, uncertain-raised, Entry, Hoare-call, Keeps-call, Keeps-close_descriptor, Keeps-unlink,
  Keeps-open_descriptor,
}
use nslab.State.Files.Temporary.{Made, make_temporary-Made}
use nslab.State.Store.{
  fsync_directory, suppress_os_error, cleanup_temporary, fail, commit, fill, save_text, save,
  state_path, serialize, ensure_directory,
}
use nslab.State.Store.Cleanup.{Hoare-fail}
use nslab.State.Store.Stages.{
  Stage, Holds, Hoare-Stage, set_mode-Holds, nothing-Holds, write_synced-Holds,
}

choose :
    (A B : Type 0) {C : Type 0} (a b : Bool)
    → (a || b) ≡ false
    → C
    → if a then A else if b then B else C
choose A B false false q c = c
choose A B true b q c = absurd (cc q)
choose A B false true q c = absurd (cc q)

module _ (path : String) (o : Option File) (new : File) where
  -- The new file, in the directory and on the disk.
  abbrev pub Durable : Disk → Type 0
  Durable d = Entry path (some new) d × (lookup path d.durable ≡ some new)

  abbrev Failed : Error → Disk → Type 0
  Failed x d =
      if code x == some "STATE_DURABILITY_UNCERTAIN"
      then Entry path (some new) d
      else if code x == some "STATE_COMMIT_OUTCOME_UNKNOWN"
      then Entry path o d ⊎ Entry path (some new) d
      else Entry path o d

  -- How a `save` may end.
  abbrev pub Saved : Result (Unit {0}) → Disk → Type 0
  Saved (ok a) d = Durable d
  Saved (err x) d = Failed x d

  plain-Failed : (x : Error) (d : Disk) → uncertain x ≡ false → Entry path o d → Failed x d
  plain-Failed x d q h =
      choose (Entry path (some new) d) (Entry path o d ⊎ Entry path (some new) d)
        (code x == some "STATE_DURABILITY_UNCERTAIN")
        (code x == some "STATE_COMMIT_OUTCOME_UNKNOWN") q h

  abbrev Synced : Result (Unit {0}) → Disk → Type 0
  Synced (ok a) d = Durable d
  Synced (err x) d = Entry path (some new) d

  close-Durable : (root : String) → Keeps Durable (close_descriptor root)
  unfolding close_descriptor
  close-Durable root = Keeps-call (λ d ts h. h) _ (record { at = λ d h. h })

  suppress-Synced :
      (root : String) {P : Disk → Type 0}
      → Keeps P (close_descriptor root)
      → ((d : Disk) → P d → Entry path (some new) d)
      → {Q : Result (Unit {0}) → Disk → Type 0} → ((d : Disk) → P d → Q (ok tt) d)
      → ((x : Error) (d : Disk) → P d → Q (err x) d)
      → Hoare P (suppress_os_error (close_descriptor root)) Q
  unfolding ◌>>=◌
  suppress-Synced root k entry good bad =
      Hoare-try _ _ _ (Hoare-Keeps k) (λ a. record { at = good })
        λ x. Hoare-if (is_os_error x) _ _ (λ q. record { at = good }) (λ q. record { at = bad x })

  sync_directory-Synced : Hoare (Entry path (some new)) sync_directory Synced
  unfolding sync_directory
  sync_directory-Synced =
      Hoare-call (λ d ts h. h) (λ x d h. h) _ (λ x d h. h) (record { at = λ d h. (h, h) })

  fsync_directory-Synced :
      (root : String) → Hoare (Entry path (some new)) (fsync_directory root) Synced
  unfolding fsync_directory ◌>>=◌
  fsync_directory-Synced root =
      Hoare-bind _ _ (Hoare-Keeps (Keeps-open_descriptor path (some new) root))
        (λ a.
          Hoare-try _ _ _ sync_directory-Synced
            (λ b. suppress-Synced root (close-Durable root) (λ d h. h.0) (λ d h. h) λ x d h. h.0)
            λ x.
              Hoare-bind {Q = λ _. Entry path (some new)} _ _
                (suppress-Synced root (Keeps-close_descriptor path (some new) root) (λ d h. h)
                  (λ d h. h) λ y d h. h)
                (λ b. record { at = λ d h. h }) (λ y d h. h))
        (λ x d h. h)

  Either : Disk → Type 0
  Either d = Entry path o d ⊎ Entry path (some new) d

  abbrev Replaced : Result (Unit {0}) → Disk → Type 0
  Replaced (ok a) d = Entry path (some new) d
  Replaced (err x) d = Either d

  moved :
      (t : String) (d : Disk)
      → Entry path (some new) (record d { files = insert path new (erase t d.files) })
  moved t d = ground (arith, lookup-insert path path new (erase t d.files), beq_iff path path)

  replace-Replaced : (t : String) → Hoare (Holds path o t new) (replace t path) Replaced
  unfolding replace Either
  replace-Replaced t =
      Hoare-call (λ d ts h. h) (λ x d h. inl h.0) _ (λ x d h. rw (h.1) (inr (moved t d)))
        (record { at = λ d h. rw (h.1) (moved t d) })

  Keeps-Either : (t : String) → t ≢ path → Keeps Either (unlink t)
  unfolding Either
  Keeps-Either t apart = record {
    at = λ d h. elim h [
      | inl old ↦ inl ((Keeps-unlink path o t apart).at d old)
      | inr new' ↦ inr ((Keeps-unlink path (some new) t apart).at d new')
    ];
  }

  -- The end of a `save` under a plain error.
  plain_fail-Saved :
      (temporary : Option String) (descriptor : Option String) (x : Error)
      → ((t : String) → temporary ≡ some t → t ≢ path)
      → uncertain x ≡ false
      → Hoare (Entry path o) (fail path temporary false descriptor x) Saved
  plain_fail-Saved temporary descriptor x apart q =
      Hoare-fail (Keeps-close_descriptor path o) path temporary false descriptor x
        (λ t h. Keeps-unlink path o t (apart t h)) (λ d. plain-Failed x d q) (λ d h _. h)

  the_one : {t : String} → t ≢ path → (u : String) → some t ≡ some u → u ≢ path
  the_one apart u e q = apart (cc)

  close-Either : (p : String) → Keeps Either (close_descriptor p)
  unfolding close_descriptor Either
  close-Either p = Keeps-call (λ d ts h. h) _ (record { at = λ d h. h })

  commit-Saved :
      (root : String) (handling : Bool) (t : String)
      → t ≢ path
      → Hoare (Holds path o t new) (commit root handling path t) Saved
  unfolding commit cleanup_temporary ◌>>=◌ Either
  commit-Saved root handling t apart =
      Hoare-try _ _ _ (replace-Replaced t)
        (λ a.
          Hoare-try _ _ _ (fsync_directory-Synced root) (λ b. record { at = λ d h. h })
            λ x.
              Hoare-fail (Keeps-close_descriptor path (some new)) path (some t) true none _
                (λ u e. Keeps-unlink path (some new) u (the_one apart u e)) (λ d h. h)
                λ d h q. absurd (cc))
        λ x.
          Hoare-fail close-Either path (some t) false none _
            (λ u e. Keeps-Either u (the_one apart u e)) (λ d h. h) λ d h q. absurd (cc)

-- The file that `save` writes.
abbrev pub written : String → File
written text = record { text = text; mode = 0o644; safe = true }

module _ (root path text : String) (o : Option File) where
  fill-Saved :
      (handling : Bool) (t : String)
      → Hoare (Made path path o t) (fill root handling path text t) (Saved path o (written text))
  unfolding fill
  fill-Saved handling t = record { at = λ d made. (run made.apart).at d (made.entry, made.own) }
    where
      run :
          t ≢ path
          → Hoare
              (Holds path o t new_file)
              (fill root handling path text t)
              (Saved path o (written text))
      run apart =
          Hoare-try _ _ _
            (Hoare-Stage path o _ _ (set_mode-Holds path o t apart new_file 0o644)
              (λ a. nothing-Holds path o t apart _))
            (λ a.
              Hoare-try _ _ _ (write_synced-Holds path o t apart handling _ text)
                (λ b. commit-Saved path o (written text) root handling t apart)
                λ x. record {
                  at = λ d (q, h).
                      (plain_fail-Saved path o (written text) (some t) none x
                          (the_one path o (written text) apart) q).at
                        d h;
                })
            λ x. record {
              at = λ d (q, h).
                  (plain_fail-Saved path o (written text) (some t) (some t) x
                      (the_one path o (written text) apart) q).at
                    d h;
            }

  plain_save_text-Saved :
      (handling : Bool)
      → Hoare (Entry path o) (save_text root handling path text) (Saved path o (written text))
  unfolding save_text ensure_directory nothing ◌>>=◌
  plain_save_text-Saved handling =
      Hoare-bind _ _ ensured
        (λ a.
          Hoare-try _ _ _ (make_temporary-Made path path o (inl refl)) (fill-Saved handling) λ x.
            record {
              at = λ d (q, h).
                  (plain_fail-Saved path o (written text) none none x (λ t e. absurd (cc)) q).at d
                    h;
            })
        (λ x d (q, h). plain-Failed path o (written text) x d q h)
    where
      plain_nothing : Hoare (Entry path o) nothing (Stage path o (λ _. Entry path o))
      plain_nothing =
          Hoare-call (λ d ts h. h) (λ x d h. (uncertain-raised x, h)) _
            (λ x d h. (uncertain-raised x, h)) (record { at = λ d h. h })

      ensured :
          Hoare
            (Entry path o)
            (ensure_directory root "STATE_WRITE_FAILED" "write")
            (Stage path o (λ _. Entry path o))
      ensured =
          Hoare-try _ _ _ (Hoare-Stage path o _ _ plain_nothing (λ a. plain_nothing))
            (λ a. record { at = λ d h. h })
            λ x.
              Hoare-if (is_os_error x) _ _ (λ q. record { at = λ d (r, h). (refl, h) })
                (λ q. record { at = λ d h. h })

module _ (root : String) (repr : Json → String) (dumps : Json → Result String) where
  -- However the calls of a `save` end, the file is the old one or the whole new one: the new one, synced and
  -- durable, where it returns, the new one where it reports an uncertain durability, either where it reports
  -- an unknown outcome, and the old one under any other error.
  pub save-Saved :
      (handling : Bool) (snapshot : StateSnapshot) (path text : String)
      → state_path root repr snapshot.name ≡ ok path
      → serialize repr dumps snapshot ≡ ok text
      → (d : Disk)
      → let (r, after) = save root repr dumps handling snapshot d in
        Saved path (lookup path d.files) (written text) r after
  unfolding save ◌>>=◌ try_except
  save-Saved handling snapshot path text q r d =
      rw (q, r) ((plain_save_text-Saved root path text _ handling).at d refl)
