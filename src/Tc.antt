-- ===== src/Tc.antt =====
-- tc.py: rates and sizes of traffic control as text. A pattern is matched on the code points of the text;
-- `re.IGNORECASE` lets a letter stand for its other case and for the few letters that fold to it. `int`
-- reads any number of digits here; those that it refuses for their number are too large anyway.
pub mod Decimal
pub mod RoundTrip
pub mod Sizes
pub mod Rates
use nslab.Base.{
  ℕ, suc, ◌+◌, ◌-◌, ◌*◌, ◌/◌, ◌%◌, ◌^◌, String, ◌≡◌, refl, Bool, true, false, not, ◌&&◌, ◌||◌,
  Option, none, some, List, [], ◌∷◌, ◌++◌, ◌<>◌, ◌==◌, nat_eq, list_eq, if◌then◌else◌, leb, ltb,
  contains, any,
}
use nslab.Base.Texts.{code_points, between, is_digit, is_upper}
use nslab.Base.Int.{ℤ, pos, negsuc}
use nslab.Base.Dict.{Dict}
use nslab.Json.{Json, int, str}
use nslab.Error.{Error, exception, Result, ok, err, ◌>>=◌}
use nslab.Tc.Decimal.{print_before, number}

abbrev pub rate_units : Dict ℕ
rate_units = ("bit", 1) ∷ ("kbit", 1000) ∷ ("mbit", 1000000) ∷ ("gbit", 1000000000) ∷ []

abbrev pub size_units : Dict ℕ
size_units =
    ("b", 1)
    ∷ ("k", 1024)
    ∷ ("kb", 1024)
    ∷ ("m", 1024 ^ 2)
    ∷ ("mb", 1024 ^ 2)
    ∷ ("g", 1024 ^ 3)
    ∷ ("gb", 1024 ^ 3)
    ∷ []

abbrev pub max_rate_bytes_per_second : ℕ
max_rate_bytes_per_second = 0xffffffff

abbrev pub max_size_bytes : ℕ
max_size_bytes = 0xffffffff

-- `str.isspace`
abbrev is_space : ℕ → Bool
is_space c =
    between 9 13 c
    || between 28 32 c
    || between 0x2000 0x200a c
    || contains (0x85 ∷ 0xa0 ∷ 0x1680 ∷ 0x2028 ∷ 0x2029 ∷ 0x202f ∷ 0x205f ∷ 0x3000 ∷ []) c

abbrev left_strip : List ℕ → List ℕ
left_strip [] = []
left_strip (c ∷ cs) = let rest = left_strip cs in if is_space c then rest else c ∷ cs

abbrev cons_unless_space : ℕ → List ℕ → List ℕ
cons_unless_space c [] = if is_space c then [] else c ∷ []
cons_unless_space c (d ∷ ds) = c ∷ d ∷ ds

abbrev right_strip : List ℕ → List ℕ
right_strip [] = []
right_strip (c ∷ cs) = cons_unless_space c (right_strip cs)

-- `value.strip()`
abbrev pub strip : List ℕ → List ℕ
strip cs = right_strip (left_strip cs)

-- The characters that the letter `c` of a pattern matches: both cases, the Kelvin sign for `k`, and the
-- dotless and the dotted letter for `i`.
abbrev letter_matches : ℕ → ℕ → Bool
letter_matches c d =
    d == c || d + 32 == c || c == 107 && d == 0x212a || c == 105 && (d == 0x130 || d == 0x131)

abbrev matches : List ℕ → List ℕ → Bool
matches [] [] = true
matches [] (d ∷ ds) = false
matches (c ∷ cs) [] = false
matches (c ∷ cs) (d ∷ ds) = letter_matches c d && matches cs ds

-- `str.lower`, on the characters that a unit can have
abbrev lower_letter : ℕ → List ℕ
lower_letter c =
    if is_upper c
    then (c + 32) ∷ []
    else if c == 0x212a
    then 107 ∷ []
    else if c == 0x130
    then 105 ∷ 0x307 ∷ []
    else c ∷ []

abbrev pub lower : List ℕ → List ℕ
lower [] = []
lower (c ∷ cs) = lower_letter c ++ lower cs

-- `units[unit]`
abbrev unit_of : List ℕ → Dict ℕ → Option ℕ
unit_of unit [] = none
unit_of unit ((name, multiplier) ∷ units) =
    let rest = unit_of unit units in if unit == code_points name then some multiplier else rest

abbrev is_unit : Dict ℕ → List ℕ → Bool
is_unit units unit = any (λ (name, _). matches (code_points name) unit) units

abbrev starts_with_digit : List ℕ → Bool
starts_with_digit [] = false
starts_with_digit (c ∷ cs) = is_digit c

-- `[0-9]+` and then a unit: the two groups of the pattern
abbrev pub full_match : Dict ℕ → List ℕ → Option (ℕ × List ℕ)
full_match units cs =
    let (amount, unit) = number 0 cs in
    if starts_with_digit cs && is_unit units unit then some (amount, unit) else none

abbrev value_error {ℓ} : {A : Type ℓ} → String → Result A
value_error m = err (exception "ValueError" m [])

-- `amount * units[key]`; a key that is not there is a `KeyError`.
abbrev pub times_unit : Dict ℕ → ℕ → List ℕ → Result ℕ
times_unit units amount key = elim (unit_of key units) [
  | none ↦ err (exception "KeyError" "" [])
  | some multiplier ↦ ok (amount * multiplier)
]

-- The first unit, the largest first, that divides the amount.
abbrev pub with_unit : Dict ℕ → String → ℕ → Result String
with_unit [] m amount = value_error m
with_unit ((unit, multiplier) ∷ units) m amount =
    let rest = with_unit units m amount in
    if amount % multiplier == 0 then ok (print_before (amount / multiplier) unit) else rest

abbrev pub printed_rate_units : Dict ℕ
printed_rate_units = ("gbit", 1000000000) ∷ ("mbit", 1000000) ∷ ("kbit", 1000) ∷ ("bit", 1) ∷ []

abbrev pub printed_size_units : Dict ℕ
printed_size_units = ("gb", 1024 ^ 3) ∷ ("mb", 1024 ^ 2) ∷ ("kb", 1024) ∷ ("b", 1) ∷ []

unfoldable pub format_rate_bytes : ℕ → Result String
format_rate_bytes bytes_per_second =
    with_unit printed_rate_units "rate cannot be represented as a whole number of bits per second"
      (bytes_per_second * 8)

abbrev pub check_rate : ℕ → Result String
check_rate bits_per_second =
    if ltb bits_per_second 8 || not (bits_per_second % 8 == 0)
    then value_error "rate must be at least 8bit and represent a whole number of bytes"
    else if ltb max_rate_bytes_per_second (bits_per_second / 8)
    then value_error "rate is too large for the supported tc netlink attributes"
    else format_rate_bytes (bits_per_second / 8)

abbrev pub normalize_match : Option (ℕ × List ℕ) → Result String
normalize_match none = value_error "rate must match '<integer>(bit|kbit|mbit|gbit)'"
normalize_match (some (amount, unit)) = times_unit rate_units amount (lower unit) >>= check_rate

unfoldable pub normalize_text : String → Result String
normalize_text s = normalize_match (full_match rate_units (strip (code_points s)))

abbrev pub normalize_rate : Json → Result String
normalize_rate (str s) = normalize_text s
normalize_rate _ = value_error "rate must be a string such as '10mbit'"

abbrev pub bytes_of : Option (ℕ × List ℕ) → Result ℕ
bytes_of none = err (exception "AssertionError" "" [])
bytes_of (some (amount, unit)) = times_unit rate_units amount unit >>= λ bits. ok (bits / 8)

unfoldable pub rate_to_bytes_per_second : String → Result ℕ
rate_to_bytes_per_second value =
    normalize_text value >>= λ canonical. bytes_of (full_match rate_units (code_points canonical))

unfoldable pub format_rate : ℤ → Result String
format_rate (pos n) =
    if ltb 0 n && leb n max_rate_bytes_per_second
    then format_rate_bytes n
    else value_error "kernel rate is outside the supported range"
format_rate (negsuc n) = value_error "kernel rate is outside the supported range"

abbrev pub check_size : ℕ → Result ℕ
check_size amount =
    if amount == 0 || ltb max_size_bytes amount
    then value_error "size must be in the range 1..4294967295 bytes"
    else ok amount

abbrev size_match : Option (ℕ × List ℕ) → Result ℕ
size_match none = value_error "size must be an integer or use b/kb/mb/gb"
size_match (some (amount, unit)) = times_unit size_units amount (lower unit) >>= check_size

unfoldable pub size_text : String → Result ℕ
size_text s = size_match (full_match size_units (strip (code_points s)))

abbrev pub parse_size : Json → Result ℕ
parse_size (int (pos n)) = check_size n
parse_size (int (negsuc n)) = value_error "size must be in the range 1..4294967295 bytes"
parse_size (str s) = size_text s
parse_size _ = value_error "size must be an integer or use b/kb/mb/gb"

unfoldable pub format_size : ℤ → Result String
format_size (pos n) =
    if n == 0
    then value_error "size must be a positive integer"
    else with_unit printed_size_units "size cannot be represented" n
format_size (negsuc n) = value_error "size must be a positive integer"
