-- ===== src/Tc/Decimal.antt =====
-- Python's decimal text of a number, and the number that digits spell.
use mathlib.Core.Logic.{dite}
use mathlib.Core.WellFounded.{Acc, WellFounded}
use native.Mathlib.Decide.{dec_lt}
use nslab.Base.{
  ℕ, zero, suc, ◌+◌, ◌-◌, ◌*◌, ◌/◌, ◌%◌, ◌≤◌, ◌<◌, String, ◌≡◌, refl, ap, ◌∙◌, subst, true, List,
  [], ◌∷◌, ◌++◌, ◌<>◌, if◌then◌else◌, arith,
}
use nslab.Base.Texts.{code_points, code_points-append, is_digit}

abbrev nth : List String → ℕ → String
nth [] n = ""
nth (x ∷ xs) zero = x
nth (x ∷ xs) (suc n) = nth xs n

abbrev digit : ℕ → String
digit = nth ("0" ∷ "1" ∷ "2" ∷ "3" ∷ "4" ∷ "5" ∷ "6" ∷ "7" ∷ "8" ∷ "9" ∷ [])

acc_under : (bound n : ℕ) → n < bound → Acc ◌<◌ n
acc_under zero n h = absurd (omega arith)
acc_under (suc bound) n h = Acc.intro n λ m lt. acc_under bound m (omega arith)

below : WellFounded ◌<◌
unfolding acc_under
below = record { apply = λ n. acc_under (suc n) n (omega arith) }

tenth : {n : ℕ} → 9 < n → n / 10 < n
tenth h = omega arith

print : (n : ℕ) → Acc ◌<◌ n → String → String
print n (Acc.intro _ smaller) out =
    dite (dec_lt 9 n) (λ h. print (n / 10) (smaller (n / 10) (tenth h)) (digit (n % 10) <> out))
      λ _. digit n <> out

-- `f"{n}{out}"`
unfoldable pub print_before : ℕ → String → String
unfolding print below tenth
print_before n out = print n (below.apply n) out

-- `int` of the digits at the start of a text, and the rest of it
abbrev pub number : ℕ → List ℕ → ℕ × List ℕ
number n [] = (n, [])
number n (c ∷ cs) =
    let rest = number (n * 10 + (c - 48)) cs in if is_digit c then rest else (n, c ∷ cs)

decimal_test : print_before 1250 "kb" ≡ "1250kb"
unfolding print_before dec_lt
decimal_test = refl

digit-code_points : (n : ℕ) → n ≤ 9 → code_points (digit n) ≡ (48 + n) ∷ []
unfolding code_points
digit-code_points zero h = refl
digit-code_points (suc zero) h = refl
digit-code_points (suc (suc zero)) h = refl
digit-code_points (suc (suc (suc zero))) h = refl
digit-code_points (suc (suc (suc (suc zero)))) h = refl
digit-code_points (suc (suc (suc (suc (suc zero))))) h = refl
digit-code_points (suc (suc (suc (suc (suc (suc zero)))))) h = refl
digit-code_points (suc (suc (suc (suc (suc (suc (suc zero))))))) h = refl
digit-code_points (suc (suc (suc (suc (suc (suc (suc (suc zero)))))))) h = refl
digit-code_points (suc (suc (suc (suc (suc (suc (suc (suc (suc zero))))))))) h = refl
digit-code_points (suc (suc (suc (suc (suc (suc (suc (suc (suc (suc n)))))))))) h =
    absurd (omega arith)

digit-append :
    (n : ℕ) (out : String) → n ≤ 9 → code_points (digit n <> out) ≡ (48 + n) ∷ code_points out
digit-append n out h =
    code_points-append (digit n) out ∙ ap (λ r. r ++ code_points out) (digit-code_points n h)

number_digit : (m n : ℕ) (cs : List ℕ) → n ≤ 9 → number m ((48 + n) ∷ cs) ≡ number (m * 10 + n) cs
number_digit m n cs h = rw (seen, value) refl
  where
    seen : is_digit (48 + n) ≡ true
    seen = ground arith

    value : m * 10 + (48 + n - 48) ≡ m * 10 + n
    value = omega arith

-- What holds of both branches holds of the choice.
dite-either :
    {A : Type 0} (P : String → Type 0) (d : Dec A) (f : A → String) (g : ¬ A → String)
    → ((a : A) → P (f a))
    → ((h : ¬ A) → P (g h))
    → P (dite d f g)
dite-either P (yes a) f g hf hg = hf a
dite-either P (no h) f g hf hg = hg h

-- Reading the text of a number gives the number, and the text behind it is read on.
number-print :
    (n : ℕ) (w : Acc ◌<◌ n) (out : String)
    → number 0 (code_points (print n w out)) ≡ number n (code_points out)
unfolding print
number-print n (Acc.intro _ smaller) out =
    dite-either (λ t. number 0 (code_points t) ≡ number n (code_points out)) (dec_lt 9 n) _ _
      (λ h.
        number-print (n / 10) (smaller (n / 10) (tenth h)) (digit (n % 10) <> out)
        ∙ ap (number (n / 10)) (digit-append (n % 10) out (omega arith))
        ∙ number_digit (n / 10) (n % 10) (code_points out) (omega arith)
        ∙ ap (λ m. number m (code_points out)) (omega arith))
      λ h.
        ap (number 0) (digit-append n out (omega arith))
        ∙ number_digit 0 n (code_points out) (omega arith)
        ∙ ap (λ m. number m (code_points out)) (omega arith)

pub number-print_before :
    (n : ℕ) (out : String)
    → number 0 (code_points (print_before n out)) ≡ number n (code_points out)
unfolding print_before
number-print_before n out = number-print n (below.apply n) out

-- The text of a number starts with a digit, and ends with what follows it.
pub record Behind (cs out : List ℕ) : Type 0 where
  pub head : ℕ
  pub middle : List ℕ
  pub is_head : is_digit head ≡ true
  pub shape : cs ≡ head ∷ (middle ++ out)

append_cons : (ds out : List ℕ) (d : ℕ) → ds ++ (d ∷ out) ≡ (ds ++ d ∷ []) ++ out
append_cons [] out d = refl
append_cons (e ∷ ds) out d = ap (λ r. e ∷ r) (append_cons ds out d)

first_digit : (n : ℕ) → n ≤ 9 → is_digit (48 + n) ≡ true
first_digit n h = ground arith

longer : (cs out : List ℕ) (d : ℕ) → Behind cs (d ∷ out) → Behind cs out
longer cs out d b = record {
  head = b.head;
  middle = b.middle ++ d ∷ [];
  is_head = b.is_head;
  shape = b.shape ∙ ap (λ r. b.head ∷ r) (append_cons b.middle out d);
}

single : (n : ℕ) (out : String) → n ≤ 9 → Behind (code_points (digit n <> out)) (code_points out)
single n out h = record {
  head = 48 + n;
  middle = [];
  is_head = first_digit n h;
  shape = digit-append n out h;
}

print-Behind :
    (n : ℕ) (w : Acc ◌<◌ n) (out : String) → Behind (code_points (print n w out)) (code_points out)
unfolding print
print-Behind n (Acc.intro _ smaller) out =
    dite-either (λ t. Behind (code_points t) (code_points out)) (dec_lt 9 n) _ _
      (λ h.
        let w = smaller (n / 10) (tenth h) in
        let later = digit (n % 10) <> out in
        longer (code_points (print (n / 10) w later)) (code_points out) (48 + n % 10) (
          subst (λ r. Behind (code_points (print (n / 10) w later)) r)
            (digit-append (n % 10) out (omega arith))
            (print-Behind (n / 10) (smaller (n / 10) (tenth h)) later)))
      λ h. single n out (omega arith)

pub print_before-Behind :
    (n : ℕ) (out : String) → Behind (code_points (print_before n out)) (code_points out)
unfolding print_before
print_before-Behind n out = print-Behind n (below.apply n) out
