-- ===== src/State/Codec/Sorted.antt =====
-- state.py, `json.dumps(..., sort_keys=True)`: the document that is written has its keys in order, and is
-- read back as the snapshot with its dictionaries in order.
use nslab.Base.{
  String, ◌≡◌, refl, ap, ◌∙◌, Bool, true, ◌&&◌, [], ◌∷◌, nat_eq, string_eq, arith, if◌then◌else◌,
  Bool-cases, inl, inr,
}
use nslab.Base.Texts.{code_points, points_leb}
use nslab.Base.Dict.{Dict}
use nslab.Json.{
  Json, null, bool, int, float, str, arr, obj, Items, nil, cons, Fields, end, field, to_fields,
  to_dict,
}
use nslab.Error.{ok}
use nslab.State.Snapshot.{StateSnapshot}
use nslab.State.Codec.{
  snapshot_from_dict, snapshot_to_dict, is_valid, is_finite, are_finite, fields_finite, texts,
}
use nslab.State.Codec.RoundTrip.{valid_parts, status_where-status_text, string_entries-texts}

abbrev name_leb : String → String → Bool
name_leb a b = points_leb (code_points a) (code_points b)

abbrev place_field : String → Json → Fields → Fields
place_field k v end = field k v end
place_field k v (field j w f) =
    let rest = place_field k v f in if name_leb k j then field k v (field j w f) else field j w rest

unfoldable mutual
  pub sort_keys : Json → Json
  sort_keys null = null
  sort_keys (bool b) = bool b
  sort_keys (int n) = int n
  sort_keys (float finite text) = float finite text
  sort_keys (str s) = str s
  sort_keys (arr xs) = arr (sort_items xs)
  sort_keys (obj f) = obj (sort_fields f)

  sort_items : Items → Items
  sort_items nil = nil
  sort_items (cons x xs) = cons (sort_keys x) (sort_items xs)

  pub sort_fields : Fields → Fields
  sort_fields end = end
  sort_fields (field k v f) = place_field k (sort_keys v) (sort_fields f)

abbrev place_text : String → String → Dict String → Dict String
place_text k v [] = (k, v) ∷ []
place_text k v ((j, w) ∷ d) =
    let rest = place_text k v d in if name_leb k j then (k, v) ∷ (j, w) ∷ d else (j, w) ∷ rest

abbrev sort_texts : Dict String → Dict String
sort_texts [] = []
sort_texts ((k, v) ∷ d) = place_text k v (sort_texts d)

abbrev sort_dict : Dict Json → Dict Json
sort_dict d = to_dict (sort_fields (to_fields d))

-- The snapshot with its dictionaries in the order of their keys.
abbrev pub sorted_snapshot : StateSnapshot → StateSnapshot
sorted_snapshot s = record s {
  manifest = sort_dict s.manifest;
  namespaces = sort_texts s.namespaces;
  interfaces = sort_dict s.interfaces;
}

to_fields-to_dict : (f : Fields) → to_fields (to_dict f) ≡ f
to_fields-to_dict end = refl
to_fields-to_dict (field k v f) = ap (field k v) (to_fields-to_dict f)

finite-place_field :
    (k : String) (v : Json) (f : Fields)
    → fields_finite (place_field k v f) ≡ (is_finite v && fields_finite f)
unfolding is_finite
finite-place_field k v end = refl
finite-place_field k v (field j w f) = ground (arith, finite-place_field k v f)

mutual
  unfolding is_finite sort_keys

  is_finite-sort_keys : (j : Json) → is_finite (sort_keys j) ≡ is_finite j
  is_finite-sort_keys null = refl
  is_finite-sort_keys (bool b) = refl
  is_finite-sort_keys (int n) = refl
  is_finite-sort_keys (float finite text) = refl
  is_finite-sort_keys (str s) = refl
  is_finite-sort_keys (arr xs) = are_finite-sort_items xs
  is_finite-sort_keys (obj f) = fields_finite-sort_fields f

  are_finite-sort_items : (xs : Items) → are_finite (sort_items xs) ≡ are_finite xs
  are_finite-sort_items nil = refl
  are_finite-sort_items (cons x xs) = rw (is_finite-sort_keys x, are_finite-sort_items xs) refl

  fields_finite-sort_fields : (f : Fields) → fields_finite (sort_fields f) ≡ fields_finite f
  fields_finite-sort_fields end = refl
  fields_finite-sort_fields (field k v f) =
      rw
        (
          finite-place_field k (sort_keys v) (sort_fields f),
          is_finite-sort_keys v,
          fields_finite-sort_fields f,
        )
        refl

place_field-texts :
    (k v : String) (d : Dict String)
    → place_field k (str v) (to_fields (texts d)) ≡ to_fields (texts (place_text k v d))
place_field-texts k v [] = refl
place_field-texts k v ((j, w) ∷ d) = elim (Bool-cases (name_leb k j)) [
  | inl q ↦ rw q refl
  | inr q ↦ rw (q, place_field-texts k v d) refl
]

sort_fields-texts :
    (d : Dict String) → sort_fields (to_fields (texts d)) ≡ to_fields (texts (sort_texts d))
unfolding sort_keys
sort_fields-texts [] = refl
sort_fields-texts ((k, v) ∷ d) = rw (sort_fields-texts d) (place_field-texts k v (sort_texts d))

sorted-is_valid : (s : StateSnapshot) → is_valid (sorted_snapshot s) ≡ is_valid s
unfolding is_finite sort_keys
sorted-is_valid s =
    rw
      (
        to_fields-to_dict (sort_fields (to_fields s.manifest)),
        to_fields-to_dict (sort_fields (to_fields s.interfaces)),
        fields_finite-sort_fields (to_fields s.manifest),
        fields_finite-sort_fields (to_fields s.interfaces),
      )
      refl

-- What is written is the document of the snapshot in order, up to the order of its own fields.
module _ (repr : Json → String) where
  pub from_dict-sort_keys :
      (s : StateSnapshot)
      → is_valid s ≡ true
      → snapshot_from_dict repr (sort_keys (snapshot_to_dict s)) ≡ ok (sorted_snapshot s)
  unfolding snapshot_from_dict snapshot_to_dict sort_keys code_points
  from_dict-sort_keys s h =
      let (schema, name, digest, stamp, finite, finite') =
        valid_parts (sorted_snapshot s) (sorted-is_valid s ∙ h) in
      rw
        (
          schema, name, digest, stamp, status_where-status_text, sort_fields-texts,
          string_entries-texts, finite, finite',
        )
        refl
