-- ===== src/State/Codec/RoundTrip.antt =====
-- state.py: `from_dict` after `to_dict`.
use nslab.Base.{String, ◌≡◌, refl, ap, true, [], ◌∷◌, ◌==◌, nat_eq, string_eq, arith, beq_iff, not}
use nslab.Base.Dict.{Dict}
use nslab.Json.{Json, object, to_fields, to_dict}
use nslab.Error.{ok}
use nslab.State.Snapshot.{
  StateSnapshot, SnapshotStatus, deploying, deployed, destroying, status_text,
}
use nslab.State.Codec.{
  snapshot_from_dict, snapshot_to_dict, is_valid, is_name, is_digest, is_finite, string_entries,
  texts, status_where,
}

pub to_dict-to_fields : (d : Dict Json) → to_dict (to_fields d) ≡ d
to_dict-to_fields [] = refl
to_dict-to_fields ((k, v) ∷ d) = ap (λ r. (k, v) ∷ r) (to_dict-to_fields d)

pub string_entries-texts :
    (d : Dict String) (label : String) → string_entries (to_fields (texts d)) label ≡ ok d
string_entries-texts [] label = refl
string_entries-texts ((k, v) ∷ d) label = rw (string_entries-texts d label) refl

pub status_where-status_text :
    (m : String) (s : SnapshotStatus) → status_where m (Json.str (status_text s)) ≡ ok s
status_where-status_text m deploying = refl
status_where-status_text m deployed = refl
status_where-status_text m destroying = refl

pub valid_parts :
    (s : StateSnapshot)
    → is_valid s ≡ true
    → (s.schema ≡ 1)
      × (is_name s.name ≡ true)
      × (is_digest s.fingerprint ≡ true)
      × (not (s.created_at == "") ≡ true)
      × (is_finite (object s.manifest) ≡ true)
      × (is_finite (object s.interfaces) ≡ true)
valid_parts s h = ground (arith, beq_iff s.schema 1)

module _ (repr : Json → String) where
  -- A snapshot that the checks accept is read back from its own document.
  pub from_dict-to_dict :
      (s : StateSnapshot) → is_valid s ≡ true → snapshot_from_dict repr (snapshot_to_dict s) ≡ ok s
  unfolding snapshot_from_dict snapshot_to_dict
  from_dict-to_dict s h =
      let (schema, name, digest, stamp, finite, finite') = valid_parts s h in
      rw
        (
          schema,
          name,
          digest,
          stamp,
          status_where-status_text,
          to_dict-to_fields s.manifest,
          to_dict-to_fields s.interfaces,
          string_entries-texts,
          finite,
          finite',
        )
        refl
