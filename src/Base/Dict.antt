-- ===== src/Base/Dict.antt =====
-- A Python `dict` with string keys, as its entries in insertion order.
use nslab.Base.Tests.{if◌then◌else◌}
use nslab.Base.Lists.{length, all}
use nslab.Base.Equality.{◌==◌, string_eq, beq_iff, contains}
use Prim.Native.String.{String}
use mathlib.Core.Path.{◌≡◌, refl}
use mathlib.Core.Bool.{Bool, true, false, ◌&&◌}
use mathlib.Core.Option.{Option, none, some}
use mathlib.Core.List.{List, [], ◌∷◌, map}
use native.Mathlib.Omega.{arith}
use nslab.Base.Equality.{nat_eq}

abbrev pub Dict {ℓ} : Type ℓ → Type ℓ
Dict V = List (String × V)

module _ {ℓ} {V : Type ℓ} where
  -- `d.get(k)`
  abbrev pub lookup : String → Dict V → Option V
  lookup k [] = none
  lookup k ((j, v) ∷ d) = if k == j then some v else lookup k d

  -- `k in d`
  abbrev pub has_key : String → Dict V → Bool
  has_key k [] = false
  has_key k ((j, v) ∷ d) = if k == j then true else has_key k d

  -- `d[k] = v`
  abbrev pub insert : String → V → Dict V → Dict V
  insert k v [] = (k, v) ∷ []
  insert k v ((j, w) ∷ d) = if k == j then (j, v) ∷ d else (j, w) ∷ insert k v d

  -- `d.pop(k, None)`
  abbrev pub erase : String → Dict V → Dict V
  erase k [] = []
  erase k ((j, w) ∷ d) = let rest = erase k d in if k == j then rest else (j, w) ∷ rest

  abbrev pub keys : Dict V → List String
  keys = map (λ (k, _). k)

  -- `d.values()`
  abbrev pub values : Dict V → List V
  values = map (λ (_, v). v)

  pub lookup-insert :
      (k j : String) (v : V) (d : Dict V)
      → lookup j (insert k v d) ≡ (if j == k then some v else lookup j d)
  lookup-insert k j v [] = refl
  lookup-insert k j v ((i, w) ∷ d) =
      ground (arith, beq_iff k j, beq_iff j k, beq_iff k i, beq_iff j i, lookup-insert k j v d)

  pub lookup-erase :
      (k j : String) (d : Dict V) → lookup j (erase k d) ≡ (if j == k then none else lookup j d)
  lookup-erase k j [] = ground arith
  lookup-erase k j ((i, w) ∷ d) =
      ground (arith, beq_iff k j, beq_iff j k, beq_iff k i, beq_iff j i, lookup-erase k j d)

  pub has_key-lookup : (k : String) (d : Dict V) {v : V} → lookup k d ≡ some v → has_key k d ≡ true
  has_key-lookup k [] {v} h = cc
  has_key-lookup k ((j, w) ∷ d) {v} h = ground (arith, has_key-lookup k d {v = v})

  -- `{...} == {...}`: the same keys with equal values, in any order.
  abbrev pub dict_beq : (V → V → Bool) → Dict V → Dict V → Bool
  dict_beq eq a b =
      length a == length b && all (λ (k, v). elim (lookup k b) [ none ↦ false | some w ↦ eq v w ]) a

-- `set(a) == set(b)` on keys
abbrev pub same_keys : List String → List String → Bool
same_keys a b = all (contains b) a && all (contains a) b
