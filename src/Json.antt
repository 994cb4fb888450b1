-- ===== src/Json.antt =====
-- The JSON-like `object` values that snapshots, error details and qdisc options hold, with Python's
-- `==` on them: objects are compared as dicts, in any order. A float is its text, with whether it is
-- finite; no float of the program is compared with an integer.
use nslab.Base.{
  ℕ, suc, String, Bool, true, false, ◌&&◌, Option, none, some, [], ◌∷◌, ◌==◌, nat_eq, string_eq,
  bool_eq, if◌then◌else◌,
}
use nslab.Base.Dict.{Dict}
use nslab.Base.Int.{ℤ, pos, int_beq}

mutual
  pub data Json : Type 0 where
    null : Json
    bool : Bool → Json
    int : ℤ → Json
    float : Bool → String → Json
    str : String → Json
    arr : Items → Json
    obj : Fields → Json

  pub data Items : Type 0 where
    nil : Items
    cons : Json → Items → Items

  pub data Fields : Type 0 where
    end : Fields
    field : String → Json → Fields → Fields

abbrev pub to_fields : Dict Json → Fields
to_fields [] = end
to_fields ((k, v) ∷ d) = field k v (to_fields d)

abbrev pub object : Dict Json → Json
object d = obj (to_fields d)

abbrev pub to_dict : Fields → Dict Json
to_dict end = []
to_dict (field k v f) = (k, v) ∷ to_dict f

-- `f.get(k)`
abbrev pub get : String → Fields → Option Json
get k end = none
get k (field j v f) = if k == j then some v else get k f

abbrev count : Fields → ℕ
count end = 0
count (field k v f) = suc (count f)

-- `True == 1` and `False == 0`
abbrev bool_number : Bool → ℕ
bool_number true = 1
bool_number false = 0

abbrev scalar_beq : Json → Json → Bool
scalar_beq null null = true
scalar_beq (bool a) (bool b) = a == b
scalar_beq (bool a) (int b) = int_beq (pos (bool_number a)) b
scalar_beq (int a) (bool b) = int_beq a (pos (bool_number b))
scalar_beq (int a) (int b) = int_beq a b
scalar_beq (float _ a) (float _ b) = a == b
scalar_beq (str a) (str b) = a == b
scalar_beq _ _ = false

abbrev on_items : Json → Option Items
on_items (arr xs) = some xs
on_items _ = none

abbrev pub on_fields : Json → Option Fields
on_fields (obj f) = some f
on_fields _ = none

unfoldable mutual
  -- `a == b`
  pub json_beq : Json → Json → Bool
  json_beq (arr xs) b = elim (on_items b) [ none ↦ false | some ys ↦ items_beq xs ys ]
  json_beq (obj f) b = elim (on_fields b) [
    | none ↦ false
    | some g ↦ count f == count g && fields_le f g
  ]
  json_beq null b = scalar_beq null b
  json_beq (bool a) b = scalar_beq (bool a) b
  json_beq (int a) b = scalar_beq (int a) b
  json_beq (float a s) b = scalar_beq (float a s) b
  json_beq (str a) b = scalar_beq (str a) b

  pub items_beq : Items → Items → Bool
  items_beq nil ys = elim ys [ nil ↦ true | cons y ys ↦ false ]
  items_beq (cons x xs) ys = elim ys [ nil ↦ false | cons y ys ↦ json_beq x y && items_beq xs ys ]

  -- Each field of the first object has an equal one in the second.
  pub fields_le : Fields → Fields → Bool
  fields_le end g = true
  fields_le (field k v f) g =
      elim (get k g) [ none ↦ false | some w ↦ json_beq v w ] && fields_le f g
