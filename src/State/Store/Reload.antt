-- ===== src/State/Store/Reload.antt =====
-- state.py: a snapshot that was saved is loaded again.
use nslab.Base.{String, ◌≡◌, refl, subst, Bool, true, some, [], ◌<>◌}
use nslab.Base.Dict.{lookup}
use nslab.Json.{Json}
use nslab.Error.{Result, ok}
use nslab.Exec.{◌>>=◌, try_except}
use nslab.State.Snapshot.{StateSnapshot}
use nslab.State.Codec.{snapshot_to_dict, snapshot_from_dict, is_valid}
use nslab.State.Codec.RoundTrip.{from_dict-to_dict}
use nslab.State.Codec.Sorted.{sort_keys, sorted_snapshot, from_dict-sort_keys}
use nslab.State.Files.{Disk, read_text}
use nslab.State.Store.{save, load, read_document, serialize, state_path}
use nslab.State.Store.Atomic.{Saved, written, save-Saved}

module _ (root : String) (repr : Json → String) (dumps : Json → Result String)
    (loads : String → Result Json) where
  pub serialize-ok :
      (s : StateSnapshot) (t : String)
      → is_valid s ≡ true
      → dumps (snapshot_to_dict s) ≡ ok t
      → serialize repr dumps s ≡ ok (t <> "\n")
  unfolding serialize
  serialize-ok s t h q = rw (from_dict-to_dict repr s h, q) refl

  load-read :
      (name path text : String) (j : Json) (s : StateSnapshot) (d : Disk)
      → state_path root repr name ≡ ok path
      → lookup path d.files ≡ some (written text)
      → loads text ≡ ok j
      → snapshot_from_dict repr j ≡ ok s
      → d.turns ≡ []
      → (load root repr loads name d).0 ≡ ok (some s)
  unfolding load read_document read_text ◌>>=◌ try_except
  load-read name path text j s d p f l r q = rw (p, q, f, l, r) refl

  -- A snapshot that the checks accept, saved by a call that returns and then loaded without a fault, comes
  -- back with its dictionaries in the order of their keys, where the text of its document reads as that
  -- document with its keys in order.
  pub load-save :
      (handling : Bool) (s : StateSnapshot) (path t : String)
      → is_valid s ≡ true
      → state_path root repr s.name ≡ ok path
      → dumps (snapshot_to_dict s) ≡ ok t
      → loads (t <> "\n") ≡ ok (sort_keys (snapshot_to_dict s))
      → (d : Disk) → (save root repr dumps handling s d).0 ≡ ok tt
      → (load root repr loads s.name
          (record (save root repr dumps handling s d).1 { turns = [] })).0
        ≡ ok (some (sorted_snapshot s))
  load-save handling s path t valid p q law d returned =
      let after = (save root repr dumps handling s d).1 in
      load-read s.name path (t <> "\n") _ (sorted_snapshot s) _ p
        (subst (λ r. Saved path (lookup path d.files) (written (t <> "\n")) r after) returned
          (save-Saved root repr dumps handling s path (t <> "\n") p (serialize-ok s t valid q) d)).0
        law (from_dict-sort_keys repr s valid) refl
