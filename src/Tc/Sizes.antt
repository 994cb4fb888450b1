-- ===== src/Tc/Sizes.antt =====
-- tc.py, `parse_size` after `format_size`.
use nslab.Base.{
  ℕ, ◌*◌, ◌/◌, ◌%◌, ◌^◌, ◌≤◌, ◌<◌, String, ◌≡◌, ◌≢◌, refl, ◌∙◌, true, false, [], ◌∷◌, ◌==◌, nat_eq,
  beq_iff, any, All, arith, Bool-cases, inl, inr,
}
use nslab.Base.Texts.{code_points}
use nslab.Base.Int.{pos}
use nslab.Base.Dict.{Dict}
use nslab.Json.{str}
use nslab.Error.{Result, ok, ◌>>=◌}
use nslab.Tc.{
  with_unit, size_units, printed_size_units, check_size, size_text, parse_size, format_size,
  max_size_bytes, times_unit,
}
use nslab.Tc.Decimal.{print_before}
use nslab.Tc.RoundTrip.{UnitOf, strip-print, match-print}

-- What is done with the printed text, for whichever unit divides the amount.
pub bind-with_unit :
    {B : Type 0} (units : Dict ℕ) (m : String) (n : ℕ) (f : String → Result B) (r : Result B)
    → All (λ (u, k). (n % k == 0) ≡ true → f (print_before (n / k) u) ≡ r) units
    → any (λ (u, k). n % k == 0) units ≡ true
    → (with_unit units m n >>= f) ≡ r
bind-with_unit [] m n f r h some_unit = absurd (cc some_unit)
bind-with_unit ((u, k) ∷ units) m n f r (now, later) some_unit = elim (Bool-cases (n % k == 0)) [
  | inl q ↦ rw q (now q)
  | inr q ↦ rw q (bind-with_unit units m n f r later (ground arith))
]

gb : UnitOf size_units "gb" (1024 ^ 3)
unfolding code_points
gb = record {
  first = 103;
  rest = 98 ∷ [];
  points = refl;
  no_digit = refl;
  no_space = refl;
  known = refl;
  lowered = refl;
  value = refl;
}

mb : UnitOf size_units "mb" (1024 ^ 2)
unfolding code_points
mb = record {
  first = 109;
  rest = 98 ∷ [];
  points = refl;
  no_digit = refl;
  no_space = refl;
  known = refl;
  lowered = refl;
  value = refl;
}

kb : UnitOf size_units "kb" 1024
unfolding code_points
kb = record {
  first = 107;
  rest = 98 ∷ [];
  points = refl;
  no_digit = refl;
  no_space = refl;
  known = refl;
  lowered = refl;
  value = refl;
}

b : UnitOf size_units "b" 1
unfolding code_points
b = record {
  first = 98;
  rest = [];
  points = refl;
  no_digit = refl;
  no_space = refl;
  known = refl;
  lowered = refl;
  value = refl;
}

size_text-print :
    (unit : String) (k : ℕ)
    → UnitOf size_units unit k
    → (n : ℕ) → size_text (print_before n unit) ≡ check_size (n * k)
unfolding size_text
size_text-print unit k u n =
    rw
      (
        strip-print size_units unit k u n,
        match-print size_units unit k u n,
        u.lowered,
        times_unit,
        u.value,
      )
      refl

exactly : (n k : ℕ) → n ≡ k → n ≢ 0 → k ≤ max_size_bytes → check_size n ≡ ok k
exactly n k h p q = ground arith

-- A size from one byte up to the limit of 4294967295 bytes is read back from its printed text as the same
-- number of bytes.
pub parse-format_size :
    (n : ℕ)
    → 0 < n
    → n ≤ max_size_bytes
    → (format_size (pos n) >>= λ text. parse_size (str text)) ≡ ok n
unfolding format_size
parse-format_size n positive small = rw (nonzero) (
    bind-with_unit printed_size_units _ n size_text (ok n)
      (
        (λ q. read gb q (omega (arith, (beq_iff (n % 1024 ^ 3) 0).0 q))),
        (
          (λ q. read mb q (omega (arith, (beq_iff (n % 1024 ^ 2) 0).0 q))),
          (
            (λ q. read kb q (omega (arith, (beq_iff (n % 1024) 0).0 q))),
            ((λ q. read b q (omega arith)), tt),
          ),
        ),
      )
      (ground arith))
  where
    nonzero : (n == 0) ≡ false
    nonzero = ground arith

    read :
        {unit : String} {k : ℕ}
        → UnitOf size_units unit k
        → (n % k == 0) ≡ true
        → n / k * k ≡ n
        → size_text (print_before (n / k) unit) ≡ ok n
    read {unit} {k} u q exact =
        size_text-print unit k u (n / k) ∙ exactly (n / k * k) n exact (ground arith) small
