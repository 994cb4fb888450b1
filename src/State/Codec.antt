-- ===== src/State/Codec.antt =====
-- state.py: a snapshot as a JSON document, and the checks on a document that is read back. `repr` is
-- Python's, for the messages. The keys of a `dict` differ from each other, so a copy of one has the
-- same entries; a frozen value is the value, since a list and a tuple are one `arr`.
pub mod RoundTrip
pub mod Sorted
use nslab.Base.{
  ℕ, String, Bool, true, false, not, ◌&&◌, ◌||◌, Option, none, some, List, [], ◌∷◌, map, length,
  any, all, filter, contains, ◌==◌, nat_eq, string_eq, if◌then◌else◌, leb, ◌<>◌,
}
use nslab.Base.Texts.{code_points, between, is_digit, is_lower, sorted, join}
use nslab.Base.Dict.{Dict, has_key, keys}
use nslab.Base.Int.{pos, int_beq}
use nslab.Json.{
  Json, null, bool, int, float, str, arr, obj, Items, nil, cons, Fields, end, field, object,
  to_dict, to_fields, get, on_fields,
}
use nslab.Error.{Error, nslab_error, exception, Result, ok, err, ◌>>=◌}
use nslab.State.Snapshot.{
  StateSnapshot, SnapshotStatus, deploying, deployed, destroying, status_text,
}

-- `NAME_PATTERN`: `^[a-z][a-z0-9_-]{0,31}$`
abbrev is_name_character : ℕ → Bool
is_name_character c = is_lower c || is_digit c || c == 95 || c == 45

abbrev is_name_points : List ℕ → Bool
is_name_points [] = false
is_name_points (c ∷ cs) = is_lower c && all is_name_character cs && leb (length cs) 31

unfoldable pub is_name : String → Bool
is_name s = is_name_points (code_points s)

abbrev is_hex : ℕ → Bool
is_hex c = is_digit c || between 97 102 c

-- A lowercase SHA-256 digest.
unfoldable pub is_digest : String → Bool
is_digest s = let cs = code_points s in length cs == 64 && all is_hex cs

-- No float of the value is infinite or not a number.
unfoldable mutual
  pub is_finite : Json → Bool
  is_finite null = true
  is_finite (bool b) = true
  is_finite (int n) = true
  is_finite (float finite text) = finite
  is_finite (str s) = true
  is_finite (arr xs) = are_finite xs
  is_finite (obj f) = fields_finite f

  pub are_finite : Items → Bool
  are_finite nil = true
  are_finite (cons x xs) = is_finite x && are_finite xs

  pub fields_finite : Fields → Bool
  fields_finite end = true
  fields_finite (field k v f) = is_finite v && fields_finite f

abbrev pub value_error : {A : Type 0} → String → Result A
value_error m = err (exception "ValueError" m [])

-- `if not b: raise ValueError(m)`, before the rest
abbrev require : {A : Type 0} → Bool → String → Result A → Result A
require b m rest = if b then rest else value_error m

abbrev freeze_json : {A : Type 0} → Json → Result A → Result A
freeze_json j = require (is_finite j) "JSON numbers must be finite"

abbrev texts : Dict String → Dict Json
texts = map (λ (k, v). (k, str v))

unfoldable pub snapshot_to_dict : StateSnapshot → Json
snapshot_to_dict s = object (
    ("schema", int (pos s.schema))
    ∷ ("name", str s.name)
    ∷ ("fingerprint", str s.fingerprint)
    ∷ ("manifest", object s.manifest)
    ∷ ("namespaces", object (texts s.namespaces))
    ∷ ("interfaces", object s.interfaces)
    ∷ ("created_at", str s.created_at)
    ∷ ("status", str (status_text s.status))
    ∷ [])

abbrev required_fields : List String
required_fields =
    "created_at" ∷ "fingerprint" ∷ "interfaces" ∷ "manifest" ∷ "name" ∷ "namespaces" ∷ "schema" ∷ []

-- `document[k]`, once the key is known to be there
abbrev item : String → Dict Json → Json
item k [] = null
item k ((j, v) ∷ d) = if k == j then v else item k d

abbrev none_of : {A : Type 0} → List String → String → Result A → Result A
none_of [] m rest = rest
none_of (x ∷ xs) m rest = value_error (m <> join ", " (x ∷ xs))

abbrev check_fields : {A : Type 0} → Dict Json → Result A → Result A
check_fields d rest =
    none_of (filter (λ k. not (has_key k d)) required_fields) "snapshot is missing fields: " (
      none_of (sorted (filter (λ k. not (contains ("status" ∷ required_fields) k)) (keys d)))
        "snapshot has unknown fields: " rest)

abbrev is_schema : Json → Bool
is_schema (int n) = int_beq n (pos 1)
is_schema _ = false

abbrev text_where : (String → Bool) → String → Json → Result String
text_where p m (str s) = require (p s) m (ok s)
text_where p m _ = value_error m

abbrev status_where : String → Json → Result SnapshotStatus
status_where m (str s) =
    if s == "deploying"
    then ok deploying
    else if s == "deployed"
    then ok deployed
    else if s == "destroying"
    then ok destroying
    else value_error m
status_where m _ = value_error m

-- `_validate_object`: the keys of an object are strings here.
abbrev validate_object : Json → String → Result (Dict Json)
validate_object j label = elim (on_fields j) [
  | none ↦ value_error (label <> " must be an object")
  | some f ↦ ok (to_dict f)
]

abbrev string_entries : Fields → String → Result (Dict String)
string_entries end label = ok []
string_entries (field k (str s) f) label = string_entries f label >>= λ rest. ok ((k, s) ∷ rest)
string_entries (field k _ f) label = value_error (label <> " keys and values must be strings")

abbrev validate_string_mapping : Json → String → Result (Dict String)
validate_string_mapping j label = elim (on_fields j) [
  | none ↦ value_error (label <> " must be an object")
  | some f ↦ string_entries f label
]

module _ (repr : Json → String) where
  abbrev status_of : Dict Json → Result SnapshotStatus
  status_of d =
      if has_key "status" d
      then status_where ("invalid snapshot status: " <> repr (item "status" d)) (item "status" d)
      else ok deployed

  abbrev read_fields : Dict Json → Result StateSnapshot
  read_fields d =
      require (is_schema (item "schema" d))
        ("unsupported snapshot schema: " <> repr (item "schema" d))
        (do
          name ←
              text_where is_name ("invalid snapshot deployment name: " <> repr (item "name" d))
                (item "name" d)
          fingerprint ←
              text_where is_digest "snapshot fingerprint must be a lowercase SHA-256 digest"
                (item "fingerprint" d)
          created_at ←
              text_where (λ s. not (s == ""))
                "snapshot creation timestamp must be a non-empty string" (item "created_at" d)
          status ← status_of d
          manifest ← validate_object (item "manifest" d) "manifest"
          namespaces ← validate_string_mapping (item "namespaces" d) "namespaces"
          interfaces ← validate_object (item "interfaces" d) "interfaces"
          freeze_json (object manifest) (
              freeze_json (object interfaces) (
                ok (record {
                  schema = 1;
                  name = name;
                  fingerprint = fingerprint;
                  manifest = manifest;
                  namespaces = namespaces;
                  interfaces = interfaces;
                  created_at = created_at;
                  status = status;
                }))))

  unfoldable pub snapshot_from_dict : Json → Result StateSnapshot
  snapshot_from_dict document = elim (on_fields document) [
    | none ↦ value_error "snapshot must be a JSON object"
    | some f ↦ check_fields (to_dict f) (read_fields (to_dict f))
  ]

-- What `snapshot_from_dict` demands of a snapshot.
abbrev pub is_valid : StateSnapshot → Bool
is_valid s =
    s.schema == 1
    && is_name s.name
    && is_digest s.fingerprint
    && not (s.created_at == "")
    && is_finite (object s.manifest)
    && is_finite (object s.interfaces)
