-- ===== src/Tc/Rates.antt =====
-- tc.py, `normalize_rate`, `rate_to_bytes_per_second` and `format_rate`: what they make of each other's texts.
use nslab.Base.{
  ℕ, ◌*◌, ◌/◌, ◌%◌, ◌≤◌, ◌<◌, String, ◌≡◌, refl, ap, ◌∙◌, subst, Bool, true, false, not, ◌&&◌, ◌||◌,
  Option, none, some, List, [], ◌∷◌, ◌==◌, nat_eq, beq_iff, if◌then◌else◌, leb, ltb, arith,
  Bool-cases, inl, inr,
}
use nslab.Base.Texts.{code_points}
use nslab.Base.Int.{pos}
use nslab.Json.{Json, str, null, bool, int, float, arr, obj}
use nslab.Error.{Error, Result, ok, err, ◌>>=◌}
use nslab.Tc.{
  rate_units, printed_rate_units, check_rate, normalize_match, normalize_text, normalize_rate,
  bytes_of, full_match, rate_to_bytes_per_second, format_rate, format_rate_bytes,
  max_rate_bytes_per_second, times_unit, strip, lower,
}
use nslab.Tc.Decimal.{print_before}
use nslab.Tc.RoundTrip.{UnitOf, strip-print, match-print}
use nslab.Tc.Sizes.{bind-with_unit}

gbit : UnitOf rate_units "gbit" 1000000000
unfolding code_points
gbit = record {
  first = 103;
  rest = 98 ∷ 105 ∷ 116 ∷ [];
  points = refl;
  no_digit = refl;
  no_space = refl;
  known = refl;
  lowered = refl;
  value = refl;
}

mbit : UnitOf rate_units "mbit" 1000000
unfolding code_points
mbit = record {
  first = 109;
  rest = 98 ∷ 105 ∷ 116 ∷ [];
  points = refl;
  no_digit = refl;
  no_space = refl;
  known = refl;
  lowered = refl;
  value = refl;
}

kbit : UnitOf rate_units "kbit" 1000
unfolding code_points
kbit = record {
  first = 107;
  rest = 98 ∷ 105 ∷ 116 ∷ [];
  points = refl;
  no_digit = refl;
  no_space = refl;
  known = refl;
  lowered = refl;
  value = refl;
}

bit : UnitOf rate_units "bit" 1
unfolding code_points
bit = record {
  first = 98;
  rest = 105 ∷ 116 ∷ [];
  points = refl;
  no_digit = refl;
  no_space = refl;
  known = refl;
  lowered = refl;
  value = refl;
}

module _ (unit : String) (k : ℕ) (u : UnitOf rate_units unit k) (n : ℕ) where
  normalize_text-print : normalize_text (print_before n unit) ≡ check_rate (n * k)
  unfolding normalize_text
  normalize_text-print =
      rw
        (
          strip-print rate_units unit k u n,
          match-print rate_units unit k u n,
          u.lowered,
          times_unit,
          u.value,
        )
        refl

  bytes_of-print :
      bytes_of (full_match rate_units (code_points (print_before n unit))) ≡ ok (n * k / 8)
  bytes_of-print = rw (match-print rate_units unit k u n, bytes_of, times_unit, u.value) refl

check_rate-ok :
    (n b : ℕ)
    → n ≡ b * 8
    → 0 < b
    → b ≤ max_rate_bytes_per_second
    → check_rate n ≡ format_rate_bytes b
check_rate-ok n b h p q = rw (fine, fits) (ap format_rate_bytes (omega arith))
  where
    fine : (ltb n 8 || not (n % 8 == 0)) ≡ false
    fine = ground arith

    fits : ltb max_rate_bytes_per_second (n / 8) ≡ false
    fits = ground arith

-- A text that is printed for `b` bytes is handled as `r`, whichever its unit.
printed :
    {B : Type 0} (b : ℕ) (f : String → Result B) (r : Result B)
    → ((unit : String) (k : ℕ)
        → UnitOf rate_units unit k
        → b * 8 / k * k ≡ b * 8
        → f (print_before (b * 8 / k) unit) ≡ r)
    → (format_rate_bytes b >>= f) ≡ r
unfolding format_rate_bytes
printed b f r h =
    bind-with_unit printed_rate_units _ (b * 8) f r
      (
        (λ q. h "gbit" _ gbit (omega (arith, (beq_iff (b * 8 % 1000000000) 0).0 q))),
        (
          (λ q. h "mbit" _ mbit (omega (arith, (beq_iff (b * 8 % 1000000) 0).0 q))),
          (
            (λ q. h "kbit" _ kbit (omega (arith, (beq_iff (b * 8 % 1000) 0).0 q))),
            ((λ q. h "bit" _ bit (omega arith)), tt),
          ),
        ),
      )
      (ground arith)

module _ (b : ℕ) (positive : 0 < b) (small : b ≤ max_rate_bytes_per_second) where
  format_rate_bytes-normal : (format_rate_bytes b >>= normalize_text) ≡ format_rate_bytes b
  format_rate_bytes-normal = printed b normalize_text (format_rate_bytes b) λ unit k u exact.
      normalize_text-print unit k u (b * 8 / k) ∙ check_rate-ok _ b exact positive small

  format_rate_bytes-bytes :
      (format_rate_bytes b >>= λ s. bytes_of (full_match rate_units (code_points s))) ≡ ok b
  format_rate_bytes-bytes = printed b _ (ok b) λ unit k u exact.
      bytes_of-print unit k u (b * 8 / k) ∙ ap ok (ap (λ n. n / 8) exact ∙ omega arith)

  format_rate_bytes-read : (format_rate_bytes b >>= rate_to_bytes_per_second) ≡ ok b
  unfolding rate_to_bytes_per_second
  format_rate_bytes-read = printed b rate_to_bytes_per_second (ok b) λ unit k u exact.
      rw (normalize_text-print unit k u (b * 8 / k), check_rate-ok _ b exact positive small)
        format_rate_bytes-bytes

in_range :
    (b : ℕ)
    → 0 < b
    → b ≤ max_rate_bytes_per_second
    → (ltb 0 b && leb b max_rate_bytes_per_second) ≡ true
in_range b positive small = ground arith

-- A rate that the kernel can have is read back from its text.
pub rate_to_bytes-format_rate :
    (b : ℕ)
    → 0 < b
    → b ≤ max_rate_bytes_per_second
    → (format_rate (pos b) >>= rate_to_bytes_per_second) ≡ ok b
unfolding format_rate
rate_to_bytes-format_rate b positive small =
    rw (in_range b positive small) (format_rate_bytes-read b positive small)

check_rate-normal : (n : ℕ) → (check_rate n >>= normalize_text) ≡ check_rate n
check_rate-normal n = elim (Bool-cases (ltb n 8 || not (n % 8 == 0))) [
  | inl q ↦ rw q refl
  | inr q ↦ elim (Bool-cases (ltb max_rate_bytes_per_second (n / 8))) [
    | inl r ↦ rw (q, r) refl
    | inr r ↦ rw (q, r) (format_rate_bytes-normal (n / 8) (ground arith) (ground arith))
  ]
]

match-normal :
    (o : Option (ℕ × List ℕ)) → (normalize_match o >>= normalize_text) ≡ normalize_match o
match-normal none = refl
match-normal (some (amount, unit)) = go (times_unit rate_units amount (lower unit))
  where
    go : (r : Result ℕ) → ((r >>= check_rate) >>= normalize_text) ≡ (r >>= check_rate)
    go (ok n) = check_rate-normal n
    go (err x) = refl

-- A normalized rate is normal: normalizing it again changes nothing.
pub normalize_rate-normalize_rate :
    (v : Json) → (normalize_rate v >>= λ text. normalize_rate (str text)) ≡ normalize_rate v
unfolding normalize_text
normalize_rate-normalize_rate null = refl
normalize_rate-normalize_rate (bool b) = refl
normalize_rate-normalize_rate (int n) = refl
normalize_rate-normalize_rate (float f t) = refl
normalize_rate-normalize_rate (str s) = match-normal (full_match rate_units (strip (code_points s)))
normalize_rate-normalize_rate (arr xs) = refl
normalize_rate-normalize_rate (obj f) = refl

-- The rate `s` of some number of bytes that the kernel can have, whose text is `c`.
pub record IsRate (s c : String) : Type 0 where
  pub bytes : ℕ
  pub positive : 0 < bytes
  pub small : bytes ≤ max_rate_bytes_per_second
  pub read : rate_to_bytes_per_second s ≡ ok bytes
  pub printed_as : format_rate (pos bytes) ≡ ok c

checked :
    (n : ℕ) (c : String)
    → check_rate n ≡ ok c
    → (0 < n / 8) × ((n / 8 ≤ max_rate_bytes_per_second) × (format_rate_bytes (n / 8) ≡ ok c))
checked n c h = go _ _ _ _ refl refl h
  where
    go :
        (low high : Bool) (x y : Error)
        → (ltb n 8 || not (n % 8 == 0)) ≡ low
        → ltb max_rate_bytes_per_second (n / 8) ≡ high
        → (if low then err x else if high then err y else format_rate_bytes (n / 8)) ≡ ok c
        → (0 < n / 8) × ((n / 8 ≤ max_rate_bytes_per_second) × (format_rate_bytes (n / 8) ≡ ok c))
    go true high x y q r t = absurd (cc t)
    go false true x y q r t = absurd (cc t)
    go false false x y q r t = (ground arith, (ground arith, t))

match-ok :
    (o : Option (ℕ × List ℕ)) (c : String)
    → normalize_match o ≡ ok c
    → (n : ℕ) × (check_rate n ≡ ok c)
match-ok none c h = absurd (cc)
match-ok (some (amount, unit)) c h = go (times_unit rate_units amount (lower unit)) h
  where
    go : (r : Result ℕ) → (r >>= check_rate) ≡ ok c → (n : ℕ) × (check_rate n ≡ ok c)
    go (ok n) q = (n, q)
    go (err x) q = absurd (cc)

read_back :
    (b : ℕ) (c : String)
    → 0 < b
    → b ≤ max_rate_bytes_per_second
    → format_rate_bytes b ≡ ok c
    → bytes_of (full_match rate_units (code_points c)) ≡ ok b
read_back b c positive small h =
    subst (λ r. (r >>= λ s. bytes_of (full_match rate_units (code_points s))) ≡ ok b) h
      (format_rate_bytes-bytes b positive small)

-- A rate that is accepted has a number of bytes that the kernel can have, and its normal text is that of
-- the number.
pub normalize_text-IsRate : (s c : String) → normalize_text s ≡ ok c → IsRate s c
unfolding normalize_text rate_to_bytes_per_second format_rate
normalize_text-IsRate s c h =
    let (n, accepted) = match-ok (full_match rate_units (strip (code_points s))) c h in
    let (positive, (small, text)) = checked n c accepted in
    record {
      bytes = n / 8;
      positive = positive;
      small = small;
      read = rw h (read_back (n / 8) c positive small text);
      printed_as = rw (in_range (n / 8) positive small) text;
    }
