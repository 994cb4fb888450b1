-- ===== src/State/Store/Stages.antt =====
-- state.py, `save`: the stages before the file is replaced, and what they leave of the two files.
use nslab.Base.{
  String, ◌≡◌, ◌≢◌, refl, Bool, true, false, Option, some, arith, beq_iff, string_eq, List,
}
use nslab.Base.Dict.{lookup-insert}
use nslab.Error.{Result, ok, err}
use nslab.Exec.{Exec, ◌>>=◌}
use nslab.Exec.Hoare.{Hoare, Hoare-bind, Hoare-try, Hoare-if}
use nslab.State.Files.{
  Disk, File, Turn, call, done, change, nothing, set_mode, write_text, flush, sync_file,
  close_descriptor,
}
use nslab.State.Files.Entries.{uncertain, uncertain-raised, Entry, Hoare-call}
use nslab.State.Store.{write_synced}

module _ (path : String) (o : Option File) where
  -- `R` holds after the stage; a stage that fails has a plain error, and the entry is the old one.
  abbrev pub Stage : {A : Type 0} → (A → Disk → Type 0) → Result A → Disk → Type 0
  Stage R (ok a) d = R a d
  Stage R (err x) d = (uncertain x ≡ false) × Entry path o d

  pub Hoare-Stage :
      {A B : Type 0} {P : Disk → Type 0} {Q : A → Disk → Type 0} {R : B → Disk → Type 0}
      (m : Exec Disk A) (f : A → Exec Disk B)
      → Hoare P m (Stage Q)
      → ((a : A) → Hoare (Q a) (f a) (Stage R))
      → Hoare P (m >>= f) (Stage R)
  Hoare-Stage m f hm hf = Hoare-bind m f hm hf (λ x d h. h)

  -- The temporary file `t` holds `f`, and the entry of `path` is the old one.
  abbrev pub Holds : String → File → Disk → Type 0
  Holds t f d = Entry path o d × Entry t (some f) d

  module _ (t : String) (apart : t ≢ path) where
    change_entry :
        (g : File → File) (f : File) (d : Disk) → Holds t f d → Holds t (g f) (change g t d)
    change_entry g f d (h, own) =
        rw (change, own)
          (
            ground (arith, apart, lookup-insert t path (g f) d.files, beq_iff path t),
            ground (arith, lookup-insert t t (g f) d.files, beq_iff t t),
          )

    -- A call that changes the temporary file only.
    changing :
        {P : Disk → Type 0} (f f' : File) (effect : Disk → Disk)
        → ((d : Disk) (ts : List Turn) → P d → P (record d { turns = ts }))
        → ((d : Disk) → P d → Holds t f d)
        → ((d : Disk) → P d → Holds t f' (effect d))
        → Hoare P (call (done effect)) (Stage (λ _. Holds t f'))
    changing f f' effect stable before after =
        Hoare-call stable (λ x d h. (uncertain-raised x, (before d h).0)) (done effect)
          (λ x d h. (uncertain-raised x, (after d h).0)) (record { at = after })

    pub set_mode-Holds :
        (f : File) (mode : _)
        → Hoare (Holds t f) (set_mode t mode) (Stage (λ _. Holds t (record f { mode = mode })))
    unfolding set_mode
    set_mode-Holds f mode =
        changing f _ _ (λ d ts h. h) (λ d h. h)
          λ d. change_entry (λ g. record g { mode = mode }) f d

    pub nothing-Holds : (f : File) → Hoare (Holds t f) nothing (Stage (λ _. Holds t f))
    unfolding nothing
    nothing-Holds f = changing f f _ (λ d ts h. h) (λ d h. h) λ d h. h

    Pending : File → String → Disk → Type 0
    Pending f text d = Holds t f d × (d.pending ≡ text)

    write_text-Pending :
        (f : File) (text : String)
        → Hoare (Holds t f) (write_text text) (Stage (λ _. Pending f text))
    unfolding write_text Pending
    write_text-Pending f text =
        Hoare-call (λ d ts h. h) (λ x d h. (uncertain-raised x, h.0)) _
          (λ x d h. (uncertain-raised x, h.0)) (record { at = λ d h. (h, refl) })

    flush-Holds :
        (f : File) (text : String)
        → Hoare
            (Pending f text)
            (flush t)
            (Stage (λ _. Holds t (record f { text = text; safe = false })))
    unfolding flush Pending
    flush-Holds f text =
        changing f _ _ (λ d ts h. h) (λ d h. h.0)
          λ d (h, q). rw⁻¹ q (change_entry (λ g. record g { text = d.pending; safe = false }) f d h)

    sync_file-Holds :
        (f : File)
        → Hoare (Holds t f) (sync_file t) (Stage (λ _. Holds t (record f { safe = true })))
    unfolding sync_file
    sync_file-Holds f =
        changing f _ _ (λ d ts h. h) (λ d h. h)
          λ d. change_entry (λ g. record g { safe = true }) f d

    -- The stage keeps `P`, and an error of it is plain.
    Plain : {A : Type 0} → (Disk → Type 0) → Result A → Disk → Type 0
    Plain P (ok a) d = P d
    Plain P (err x) d = (uncertain x ≡ false) × P d

    close-Plain :
        {P : Disk → Type 0}
        → ((d : Disk) (ts : List Turn) → P d → P (record d { turns = ts }))
        → ((d : Disk) (ps ls : List String) → P d → P (record d { descriptors = ps; locked = ls }))
        → Hoare P (close_descriptor t) (Plain P)
    unfolding close_descriptor Plain
    close-Plain stable k =
        Hoare-call stable (λ x d h. (uncertain-raised x, h)) _
          (λ x d h. (uncertain-raised x, k d _ _ h)) (record { at = λ d h. k d _ _ h })

    -- The text is written and synced, or the old entry stays.
    pub write_synced-Holds :
        (handling : Bool) (f : File) (text : String)
        → Hoare
            (Holds t f)
            (write_synced handling t text)
            (Stage (λ _. Holds t (record f { text = text; safe = true })))
    unfolding write_synced ◌>>=◌ Plain
    write_synced-Holds handling f text =
        Hoare-try _ _ _
          (Hoare-Stage _ _ (write_text-Pending f text) λ a.
            Hoare-Stage _ _ (flush-Holds f text)
              λ b. sync_file-Holds (record f { text = text; safe = false }))
          (λ a.
            Hoare-try _ _ _ (close-Plain (λ d ts h. h) (λ d ps ls h. h))
              (λ b. record { at = λ d h. h })
              λ x.
                Hoare-if handling _ _ (λ q. record { at = λ d h. h.1 })
                  (λ q. record { at = λ d h. (h.0, h.1.0) }))
          λ x.
            Hoare-try _ _ _ (close-Plain (λ d ts h. h) (λ d ps ls h. h))
              (λ b. record { at = λ d h. h }) (λ y. record { at = λ d h. h.1 })
