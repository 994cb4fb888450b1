-- ===== src/Tests/Rates.antt =====
-- Rates and sizes of traffic control.
use native.Mathlib.Decide.{dec_lt}
use nslab.Base.{[], ◌≡◌, refl, arith}
use nslab.Base.Int.{pos}
use nslab.Base.Texts.{code_points}
use nslab.Json.{str}
use nslab.Error.{ok, err, exception, ◌>>=◌}
use nslab.Tc.{
  normalize_text, normalize_rate, parse_size, format_size, format_rate, rate_to_bytes_per_second,
  format_rate_bytes,
}
use nslab.Tc.Decimal.{print_before}
use nslab.Tc.Sizes.{parse-format_size}
use nslab.Tc.Rates.{
  IsRate, rate_to_bytes-format_rate, normalize_rate-normalize_rate, normalize_text-IsRate,
}

ten_mbit : normalize_text " 10000Kbit " ≡ ok "10mbit"
unfolding normalize_text code_points format_rate_bytes print_before dec_lt
ten_mbit = refl

-- The dotless letter matches the pattern and names no unit.
dotless : normalize_text "8bıt" ≡ err (exception "KeyError" "" [])
unfolding normalize_text code_points
dotless = refl

parse-format_size_example : (format_size (pos 3072) >>= λ text. parse_size (str text)) ≡ ok 3072
parse-format_size_example = parse-format_size 3072 (omega arith) (omega arith)

rate_to_bytes-format_rate_example : (format_rate (pos 1250) >>= rate_to_bytes_per_second) ≡ ok 1250
rate_to_bytes-format_rate_example = rate_to_bytes-format_rate 1250 (omega arith) (omega arith)

normalize_rate-normalize_rate_example :
    (normalize_rate (str "8000bit") >>= λ text. normalize_rate (str text))
    ≡ normalize_rate (str "8000bit")
normalize_rate-normalize_rate_example = normalize_rate-normalize_rate (str "8000bit")

normalize_text-IsRate_example : IsRate " 10000Kbit " "10mbit"
normalize_text-IsRate_example = normalize_text-IsRate " 10000Kbit " "10mbit" ten_mbit
