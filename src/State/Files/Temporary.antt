-- ===== src/State/Files/Temporary.antt =====
-- `mkstemp`: the new file is no file that was there, and not the one it is named after.
use Prim.Native.String.{len}
use text.Mathlib.TextPositions.{len-append}
use nslab.Base.{
  String, ◌≡◌, ◌≢◌, refl, sym, ◌∙◌, ap, subst, false, Option, none, some, List, [], ◌∷◌, ◌<>◌,
  string_eq, beq_iff, arith, ◌⊎◌, inl, inr, Option-cases, Bool-cases,
}
use nslab.Base.Dict.{Dict, lookup, has_key, lookup-insert, has_key-lookup}
use nslab.Error.{Result, ok, err}
use nslab.Exec.Hoare.{Hoare}
use nslab.State.Files.{Disk, File, new_file, create, first_free, make_temporary}
use nslab.State.Files.Entries.{uncertain, uncertain-raised, Entry, Hoare-call}

longer : (path x s : String) → (path <> ".tmp-" <> x) <> s ≢ path
longer path x s h = omega (
  arith,
  ap len h,
  len-append (path <> ".tmp-" <> x) s,
  len-append path (".tmp-" <> x),
  len-append ".tmp-" x,
  five,
)
  where
    five : len ".tmp-" ≡ 5
    five = refl

IsFree : String → Dict File → String → Type 0
IsFree prefix files t = (has_key t files ≡ false) × ((s : String) × (t ≡ prefix <> s))

first_free-IsFree :
    (prefix : String) (suffixes : List String) (files : Dict File) (t : String)
    (later : List String)
    → first_free prefix suffixes files ≡ some (t, later)
    → IsFree prefix files t
unfolding IsFree
first_free-IsFree prefix [] files t later h = cc
first_free-IsFree prefix (s ∷ ss) files t later h =
    elim (Bool-cases (has_key (prefix <> s) files)) [
      | inl q ↦ first_free-IsFree prefix ss files t later (ground arith)
      | inr q ↦
          let same : prefix <> s ≡ t = ground arith in
          subst (λ x. IsFree prefix files x) same (q, (s, refl))
    ]

-- What is known when the temporary file `t` is made: `q` is another path, with the entry `o`.
pub record Made (path : String) (q : String) (o : Option File) (t : String) (d : Disk)
    : Type 0 where
  pub apart : t ≢ path
  pub other : t ≢ q
  pub entry : Entry q o d
  pub own : Entry t (some new_file) d

module _ (path q : String) (o : Option File) (there : (q ≡ path) ⊎ (o ≢ none)) where
  abbrev pub Making : Result String → Disk → Type 0
  Making (ok t) d = Made path q o t d
  Making (err x) d = (uncertain x ≡ false) × Entry q o d

  made :
      (t : String) (x : String) (later : List String) (d : Disk)
      → Entry q o d
      → IsFree (path <> ".tmp-" <> x) d.files t
      → Made path q o t (create (some (t, later)) d).1
  unfolding IsFree
  made t x later d h (free, (s, named)) = record {
    apart = apart;
    other = other;
    entry = ground (arith, other, lookup-insert t q new_file d.files, beq_iff q t);
    own = ground (arith, lookup-insert t t new_file d.files, beq_iff t t);
  }
    where
      apart : t ≢ path
      apart e = longer path x s (sym named ∙ e)

      other : t ≢ q
      other e = elim there [
        | inl same ↦ apart (e ∙ same)
        | inr some_entry ↦ elim (Option-cases (lookup t d.files)) [
          | inl none_there ↦ some_entry (sym h ∙ ap (λ p. lookup p d.files) (sym e) ∙ none_there)
          | inr (f, found) ↦ absurd (cc (has_key-lookup t d.files found, free))
        ]
      ]

  create_made :
      (x : String) (d : Disk) (found : Option (String × List String))
      → ((t : String) (later : List String)
          → found ≡ some (t, later)
          → IsFree (path <> ".tmp-" <> x) d.files t)
      → Entry q o d
      → Making (create found d).0 (create found d).1
  create_made x d none free h = (refl, h)
  create_made x d (some (t, later)) free h = made t x later d h (free t later refl)

  Making-Entry : (r : Result String) (d : Disk) → Making r d → Entry q o d
  Making-Entry (ok t) d m = m.entry
  Making-Entry (err x) d h = h.1

  tried :
      (d : Disk)
      → Entry q o d
      → let r = create (first_free (path <> ".tmp-" <> d.pid <> "-") d.suffixes d.files) d in
        Making r.0 r.1
  tried d = create_made (d.pid <> "-") d _ (λ t later. first_free-IsFree _ _ _ _ _)

  -- `mkstemp` makes a new file, or fails; either way the entry of `q` stays.
  pub make_temporary-Made : Hoare (Entry q o) (make_temporary path) Making
  unfolding make_temporary
  make_temporary-Made =
      Hoare-call (λ d ts h. h) (λ x d h. (uncertain-raised x, h)) _
        (λ x d h. (uncertain-raised x, Making-Entry _ _ (tried d h))) (record { at = tried })
