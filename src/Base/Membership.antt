-- ===== src/Base/Membership.antt =====
-- Membership, by the Boolean tests and as a proposition.
use nslab.Base.Lists.{In, all}
use nslab.Base.Equality.{Eq, contains}
use mathlib.Core.Path.{◌≡◌, refl, sym, subst}
use mathlib.Core.Logic.{◌↔◌, ◌⊎◌, inl, inr}
use mathlib.Core.Bool.{true}
use mathlib.Core.List.{List, [], ◌∷◌, ◌++◌}
use native.Mathlib.Omega.{arith}

module _ {A : Type 0} ⦃e : Eq A⦄ where
  pub contains_iff : (xs : List A) (a : A) → (contains xs a ≡ true) ↔ In a xs
  contains_iff [] a = (λ h. cc, λ at. elim at [ ])
  contains_iff (x ∷ xs) a = ground (arith, e.beq_iff a x, contains_iff xs a)

  -- `frozenset(a) <= frozenset(b)`
  pub all-contains_iff : (b a : List A) → (all (contains b) a ≡ true) ↔ ((x : A) → In x a → In x b)
  all-contains_iff b [] = (λ h x at. elim at [ ], λ h. refl)
  all-contains_iff b (y ∷ a) = (
    λ h x at. elim at [
      | inl same ↦ subst (λ z. In z b) (sym same) ((contains_iff b y).0 (ground arith))
      | inr there ↦ (all-contains_iff b a).0 (ground arith) x there
    ],
    λ h. ground (
      arith,
      (contains_iff b y).1 (h y (inl refl)),
      (all-contains_iff b a).1 (λ x there. h x (inr there)),
    ),
  )

pub In-append_iff : {A : Type 0} (x : A) (xs ys : List A) → In x (xs ++ ys) ↔ (In x xs ⊎ In x ys)
In-append_iff x [] ys = (λ h. inr h, λ h. elim h [ inl e ↦ absurd e | inr t ↦ t ])
In-append_iff x (y ∷ xs) ys = grind (arith, In-append_iff x xs ys)
