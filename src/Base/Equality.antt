-- ===== src/Base/Equality.antt =====
-- Python's `==` and `in`, for every type with a Boolean equality that agrees with `≡`.
use Prim.Native.Nat.{ℕ}
use Prim.Native.String.{String}
use mathlib.Core.Path.{◌≡◌, refl}
use mathlib.Core.Logic.{◌↔◌}
use mathlib.Core.Bool.{Bool, true, false, ◌||◌, ◌&&◌}
use mathlib.Core.Option.{Option, none, some}
use mathlib.Core.List.{List, [], ◌∷◌}
use native.Mathlib.Omega.{arith}
use text.Mathlib.Text.{◌==◌ as str_eq}
use text.Mathlib.TextEquality.{eq_iff}
use nslab.Base.Tests.{nat_beq, nat_beq_iff}

-- `beq` is the `__eq__` of the type.
pub record Eq {ℓ} (T : Type ℓ) : Type ℓ where
  pub beq : T → T → Bool
  pub beq_iff : (x y : T) → (beq x y ≡ true) ↔ (x ≡ y)

infix 50 ◌==◌
abbrev pub ◌==◌ {ℓ} : {T : Type ℓ} ⦃eq : Eq T⦄ (x y : T) → Bool
◌==◌ ⦃eq⦄ x y = eq.beq x y

-- The law of the instance, for the list of a tactic.
pub beq_iff {ℓ} : {A : Type ℓ} ⦃e : Eq A⦄ (a b : A) → ((a == b) ≡ true) ↔ (a ≡ b)
beq_iff ⦃e⦄ = e.beq_iff

pub beq_refl {ℓ} : {A : Type ℓ} ⦃e : Eq A⦄ (a : A) → (a == a) ≡ true
beq_refl ⦃e⦄ a = (e.beq_iff a a).1 refl

instance abbrev pub nat_eq : Eq ℕ
nat_eq = record { beq_iff = nat_beq_iff; beq = nat_beq }

instance abbrev pub string_eq : Eq String
string_eq = record { beq_iff = eq_iff; beq = str_eq }

abbrev bool_beq : Bool → Bool → Bool
bool_beq true b = b
bool_beq false true = false
bool_beq false false = true

pub bool_beq_iff : (a b : Bool) → (bool_beq a b ≡ true) ↔ (a ≡ b)
bool_beq_iff a b = ground arith

instance abbrev pub bool_eq : Eq Bool
bool_eq = record { beq = bool_beq; beq_iff = bool_beq_iff }

module _ {ℓ} {A : Type ℓ} ⦃e : Eq A⦄ where
  abbrev option_beq : Option A → Option A → Bool
  option_beq none none = true
  option_beq none (some b) = false
  option_beq (some a) none = false
  option_beq (some a) (some b) = a == b

  pub option_beq_iff : (a b : Option A) → (option_beq a b ≡ true) ↔ (a ≡ b)
  option_beq_iff none none = (λ _. refl, λ _. refl)
  option_beq_iff none (some b) = (λ h. cc, λ h. cc)
  option_beq_iff (some a) none = (λ h. cc, λ h. cc)
  option_beq_iff (some a) (some b) = ground (arith, e.beq_iff a b)

  instance abbrev pub option_eq : Eq (Option A)
  option_eq = record { beq = option_beq; beq_iff = option_beq_iff }

  abbrev list_beq : List A → List A → Bool
  list_beq [] [] = true
  list_beq [] (b ∷ s) = false
  list_beq (a ∷ r) [] = false
  list_beq (a ∷ r) (b ∷ s) = a == b && list_beq r s

  pub list_beq_iff : (xs ys : List A) → (list_beq xs ys ≡ true) ↔ (xs ≡ ys)
  list_beq_iff [] [] = (λ _. refl, λ _. refl)
  list_beq_iff [] (b ∷ s) = (λ h. cc, λ h. cc)
  list_beq_iff (a ∷ r) [] = (λ h. cc, λ h. cc)
  list_beq_iff (a ∷ r) (b ∷ s) = ground (arith, e.beq_iff a b, list_beq_iff r s)

  instance abbrev pub list_eq : Eq (List A)
  list_eq = record { beq = list_beq; beq_iff = list_beq_iff }

  -- `a in xs`
  abbrev pub contains : List A → A → Bool
  contains [] a = false
  contains (x ∷ xs) a = a == x || contains xs a

module _ {ℓ κ} {A : Type ℓ} {B : Type κ} ⦃e : Eq A⦄ ⦃f : Eq B⦄ where
  abbrev pair_beq : A × B → A × B → Bool
  pair_beq (a, b) (c, d) = a == c && b == d

  pub pair_beq_iff : (p q : A × B) → (pair_beq p q ≡ true) ↔ (p ≡ q)
  pair_beq_iff (a, b) (c, d) = ground (arith, e.beq_iff a c, f.beq_iff b d)

  instance abbrev pub pair_eq : Eq (A × B)
  pair_eq = record { beq = pair_beq; beq_iff = pair_beq_iff }

-- An equality that comes from a decision procedure.
module _ {ℓ} {A : Type ℓ} (dec : Discrete A) where
  abbrev decided : {a b : A} → Dec (a ≡ b) → Bool
  decided (yes p) = true
  decided (no p) = false

  pub decided_iff : {a b : A} (d : Dec (a ≡ b)) → (decided d ≡ true) ↔ (a ≡ b)
  decided_iff (yes p) = (λ _. p, λ _. refl)
  decided_iff (no p) = (λ h. cc, λ h. absurd (p h))

  abbrev pub of_discrete : Eq A
  of_discrete = record { beq = λ a b. decided (dec a b); beq_iff = λ a b. decided_iff (dec a b) }

-- Whole texts and numbers, decided.
unfoldable pub discrete_of {ℓ} : {A : Type ℓ} → Eq A → Discrete A
discrete_of e a b = go (e.beq a b) refl
  where
    go : (r : Bool) → e.beq a b ≡ r → Dec (a ≡ b)
    go true h = yes ((e.beq_iff a b).0 h)
    go false h = no (λ p. false_true (e.beq a b) h ((e.beq_iff a b).1 p))
      where
        false_true : (r : Bool) → r ≡ false → r ≡ true → ⊥
        false_true r x y = cc
