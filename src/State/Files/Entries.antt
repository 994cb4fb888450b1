-- ===== src/State/Files/Entries.antt =====
-- What the calls do to the entry of one path.
use nslab.Base.{
  ℕ, String, ◌≡◌, ◌≢◌, refl, Bool, true, false, Option, some, List, [], ◌∷◌, ◌==◌, string_eq,
  beq_iff, arith, option_eq, ◌||◌, inl, inr, Option-cases, Bool-cases,
}
use nslab.Base.Dict.{lookup, erase, has_key, lookup-insert, lookup-erase}
use nslab.Error.{Error, Result, err, code}
use nslab.Exec.{Exec}
use nslab.Exec.Keeps.{Keeps}
use nslab.Exec.Hoare.{Hoare}
use nslab.State.Files.{
  Disk, File, Turn, goes, stops, Fault, raised, os, other, cancelled, interrupted, on_turn, call,
  change, nothing, set_mode, write_text, flush, sync_file, open_descriptor, close_descriptor,
  replace, unlink, sync_directory,
}

-- One of the two codes that leave open what became of a file.
abbrev pub uncertain : Error → Bool
uncertain x =
    code x == some "STATE_DURABILITY_UNCERTAIN" || code x == some "STATE_COMMIT_OUTCOME_UNKNOWN"

pub uncertain-raised : (f : Fault) → uncertain (raised f) ≡ false
uncertain-raised (os t m n) = refl
uncertain-raised (other t m) = refl
uncertain-raised (cancelled m) = refl
uncertain-raised (interrupted m) = refl

-- The entry of `path` is `o`.
abbrev pub Entry : String → Option File → Disk → Type 0
Entry path o d = lookup path d.files ≡ o

module _ {A : Type 0} {P : Disk → Type 0}
    (stable : (d : Disk) (ts : List Turn) → P d → P (record d { turns = ts })) where
  turn-Keeps :
      (ts : List Turn) (effect : Exec Disk A)
      → Keeps P effect
      → (d : Disk) → P d
      → P (on_turn ts effect d).1
  turn-Keeps [] effect k d h = k.at d h
  turn-Keeps (goes ∷ later) effect k d h = k.at _ (stable d later h)
  turn-Keeps (stops false fault ∷ later) effect k d h = stable d later h
  turn-Keeps (stops true fault ∷ later) effect k d h = k.at _ (stable d later h)

  pub Keeps-call : (effect : Exec Disk A) → Keeps P effect → Keeps P (call effect)
  unfolding call
  Keeps-call effect k = record { at = λ d h. turn-Keeps d.turns effect k d h }

module _ {A : Type 0} {P : Disk → Type 0} {Q : Result A → Disk → Type 0}
    (stable : (d : Disk) (ts : List Turn) → P d → P (record d { turns = ts }))
    (unmade : (f : Fault) (d : Disk) → P d → Q (err (raised f)) d) (effect : Exec Disk A)
    (made : (f : Fault) (d : Disk) → P d → Q (err (raised f)) (effect d).1)
    (run : Hoare P effect Q) where
  turn_gives : (ts : List Turn) (d : Disk) → P d → Q (on_turn ts effect d).0 (on_turn ts effect d).1
  turn_gives [] d h = run.at d h
  turn_gives (goes ∷ later) d h = run.at _ (stable d later h)
  turn_gives (stops false fault ∷ later) d h = unmade fault _ (stable d later h)
  turn_gives (stops true fault ∷ later) d h = made fault _ (stable d later h)

  -- A call goes well, or a fault stops it before or after its effect.
  pub Hoare-call : Hoare P (call effect) Q
  unfolding call
  Hoare-call = record { at = λ d h. turn_gives d.turns d h }

module _ (path : String) (o : Option File) where
  stable : (d : Disk) (ts : List Turn) → Entry path o d → Entry path o (record d { turns = ts })
  stable d ts h = h

  Keeps-set :
      {A : Type 0} (effect : Exec Disk A)
      → ((d : Disk) → (effect d).1.files ≡ d.files)
      → Keeps (Entry path o) effect
  Keeps-set effect h = record { at = λ d e. rw (h d) e }

  pub Keeps-nothing : Keeps (Entry path o) nothing
  unfolding nothing
  Keeps-nothing = Keeps-call stable _ (Keeps-set _ λ d. refl)

  pub Keeps-write_text : (text : String) → Keeps (Entry path o) (write_text text)
  unfolding write_text
  Keeps-write_text text = Keeps-call stable _ (Keeps-set _ λ d. refl)

  pub Keeps-open_descriptor : (p : String) → Keeps (Entry path o) (open_descriptor p)
  unfolding open_descriptor
  Keeps-open_descriptor p = Keeps-call stable _ (Keeps-set _ λ d. refl)

  pub Keeps-close_descriptor : (p : String) → Keeps (Entry path o) (close_descriptor p)
  unfolding close_descriptor
  Keeps-close_descriptor p = Keeps-call stable _ (Keeps-set _ λ d. refl)

  pub Keeps-sync_directory : Keeps (Entry path o) sync_directory
  unfolding sync_directory
  Keeps-sync_directory = Keeps-call stable _ (Keeps-set _ λ d. refl)

  -- The calls that change the entry of another path.
  module _ (p : String) (apart : p ≢ path) where
    change_apart : (f : File → File) (d : Disk) → Entry path o d → Entry path o (change f p d)
    change_apart f d h = elim (Option-cases (lookup p d.files)) [
      | inl q ↦ rw (change, q) h
      | inr (file, q) ↦
          rw (change, q) (ground (arith, lookup-insert p path (f file) d.files, beq_iff path p))
    ]

    erase_apart : (d : Disk) → Entry path o d → lookup path (erase p d.files) ≡ o
    erase_apart d h = ground (arith, lookup-erase p path d.files, beq_iff path p)

    pub Keeps-set_mode : (mode : ℕ) → Keeps (Entry path o) (set_mode p mode)
    unfolding set_mode
    Keeps-set_mode mode = Keeps-call stable _ (record { at = change_apart _ })

    pub Keeps-flush : Keeps (Entry path o) (flush p)
    unfolding flush
    Keeps-flush = Keeps-call stable _ (record { at = λ d. change_apart _ d })

    pub Keeps-sync_file : Keeps (Entry path o) (sync_file p)
    unfolding sync_file
    Keeps-sync_file = Keeps-call stable _ (record { at = change_apart _ })

    pub Keeps-unlink : Keeps (Entry path o) (unlink p)
    unfolding unlink
    Keeps-unlink = Keeps-call stable _ (record {
      at = λ d h. elim (Bool-cases (has_key p d.files)) [
        | inl q ↦ rw q (erase_apart d h)
        | inr q ↦ rw q h
      ];
    })

    pub Keeps-replace : (target : String) → target ≢ path → Keeps (Entry path o) (replace p target)
    unfolding replace
    Keeps-replace target apart' = Keeps-call stable _ (record {
      at = λ d h. elim (Option-cases (lookup p d.files)) [
        | inl q ↦ rw (q) h
        | inr (file, q) ↦ rw q (
            ground (
              arith,
              lookup-insert target path file (erase p d.files),
              erase_apart d h,
              beq_iff path target,
            ))
      ];
    })
