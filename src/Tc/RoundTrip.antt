-- ===== src/Tc/RoundTrip.antt =====
-- tc.py: what is printed is read back.
use nslab.Base.{
  ℕ, String, ◌≡◌, refl, ◌∙◌, subst, true, false, some, List, [], ◌∷◌, ◌++◌, nat_eq, list_eq, arith,
}
use nslab.Base.Texts.{code_points, is_digit}
use nslab.Base.Dict.{Dict}
use nslab.Tc.{is_space, right_strip, strip, lower, unit_of, is_unit, starts_with_digit, full_match}
use nslab.Tc.Decimal.{print_before, number, number-print_before, Behind, print_before-Behind}

digit_is_no_space : (c : ℕ) → is_digit c ≡ true → is_space c ≡ false
digit_is_no_space c h = ground arith

right_strip-append :
    (ds : List ℕ) (u : ℕ) (us : List ℕ)
    → right_strip (u ∷ us) ≡ u ∷ us
    → right_strip (ds ++ u ∷ us) ≡ ds ++ u ∷ us
right_strip-append [] u us h = h
right_strip-append (d ∷ []) u us h = rw (right_strip-append [] u us h) refl
right_strip-append (d ∷ e ∷ ds) u us h = rw (right_strip-append (e ∷ ds) u us h) refl

-- A unit that the program prints, and what it reads it as.
pub record UnitOf (units : Dict ℕ) (unit : String) (multiplier : ℕ) : Type 0 where
  pub first : ℕ
  pub rest : List ℕ
  pub points : code_points unit ≡ first ∷ rest
  pub no_digit : is_digit first ≡ false
  pub no_space : right_strip (first ∷ rest) ≡ first ∷ rest
  pub known : is_unit units (first ∷ rest) ≡ true
  pub lowered : lower (first ∷ rest) ≡ first ∷ rest
  pub value : unit_of (first ∷ rest) units ≡ some multiplier

module _ (units : Dict ℕ) (unit : String) (multiplier : ℕ) (u : UnitOf units unit multiplier)
    (n : ℕ) where
  open u use {first, rest, points, no_digit, no_space, known, lowered, value}

  behind : Behind (code_points (print_before n unit)) (first ∷ rest)
  behind = subst (Behind (code_points (print_before n unit))) points (print_before-Behind n unit)

  open behind use {head, middle, is_head, shape}

  pub strip-print : strip (code_points (print_before n unit)) ≡ code_points (print_before n unit)
  strip-print =
      rw (shape, digit_is_no_space head is_head)
        (right_strip-append (head ∷ middle) first rest no_space)

  number-print : number 0 (code_points (print_before n unit)) ≡ (n, first ∷ rest)
  number-print = number-print_before n unit ∙ rw (points, no_digit) refl

  starts : starts_with_digit (code_points (print_before n unit)) ≡ true
  starts = rw shape is_head

  pub match-print : full_match units (code_points (print_before n unit)) ≡ some (n, first ∷ rest)
  match-print = rw (number-print, starts, known) refl
