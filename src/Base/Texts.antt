-- ===== src/Base/Texts.antt =====
-- Texts as lists of code points, for the patterns and orders of the program's strings.
use Prim.Native.Char.{code}
use Prim.Native.Nat.{ℕ}
use Prim.Native.String.append
use Prim.Native.String.{String, ◌++◌ as ◌<>◌}
use mathlib.Core.Bool.{Bool, true, false, ◌&&◌, ◌||◌}
use mathlib.Core.List.{List, [], ◌∷◌, ◌++◌}
use mathlib.Core.Path.{◌≡◌, ap}
use nslab.Base.Tests.{if◌then◌else◌, ltb, leb}
use nslab.Base.Equality.{◌==◌, nat_eq}

unfoldable pub code_points : String → List ℕ
code_points String.[] = []
code_points (String.◌∷◌ c s) = code c ∷ code_points s

pub code_points-append : (a b : String) → code_points (a <> b) ≡ code_points a ++ code_points b
unfolding code_points
code_points-append String.[] b = ap code_points (append.nil b)
code_points-append (String.◌∷◌ c s) b =
    rw (append.cons c s b) (ap (λ r. code c ∷ r) (code_points-append s b))

-- `low <= c <= high`, a range of a character class
abbrev pub between : ℕ → ℕ → ℕ → Bool
between low high c = leb low c && leb c high

abbrev pub is_digit : ℕ → Bool
is_digit = between 48 57

abbrev pub is_lower : ℕ → Bool
is_lower = between 97 122

abbrev pub is_upper : ℕ → Bool
is_upper = between 65 90

-- `a <= b` on strings
abbrev pub points_leb : List ℕ → List ℕ → Bool
points_leb [] b = true
points_leb (x ∷ a) [] = false
points_leb (x ∷ a) (y ∷ b) = let rest = points_leb a b in ltb x y || x == y && rest

abbrev place : String → List String → List String
place x [] = x ∷ []
place x (y ∷ ys) =
    let rest = place x ys in
    if points_leb (code_points x) (code_points y) then x ∷ y ∷ ys else y ∷ rest

-- `sorted(xs)`
abbrev pub sorted : List String → List String
sorted [] = []
sorted (x ∷ xs) = place x (sorted xs)

-- `separator.join(xs)`
abbrev pub join : String → List String → String
join separator [] = ""
join separator (x ∷ []) = x
join separator (x ∷ y ∷ ys) = x <> separator <> join separator (y ∷ ys)
