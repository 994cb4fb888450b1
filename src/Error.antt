-- ===== src/Error.antt =====
-- errors.py and the exceptions that the program catches: `NslabError`, its subclass
-- `OperationCancelled`, the `OSError`s with their number, any other `Exception`, and `KeyboardInterrupt`. The error object is mutable in
-- the source (`error.details[key] = value`, `error.add_note`); here the annotated error is handed on.
use nslab.Base.{String, ◌≡◌, Bool, true, false, Option, none, some, [], ◌∷◌, ◌++◌, arith}
use nslab.Base.{string_eq}
use nslab.Base.Dict.{Dict, insert}
use nslab.Base.Int.{ℤ}
use nslab.Json.{Json, str, object}

pub data Error : Type 0 where
  nslab_error : String → String → Dict Json → Error
  operation_cancelled : String → Dict Json → Error
  os_error : String → String → Option ℤ → Dict Json → Error
  exception : String → String → Dict Json → Error
  keyboard_interrupt : String → Dict Json → Error

pub data Result {ℓ} (A : Type ℓ) : Type ℓ where
  ok : A → Result A
  err : Error → Result A

infixl 5 ◌>>=◌ ◌>>◌
abbrev pub ◌>>=◌ {ℓ κ} : {A : Type ℓ} {B : Type κ} → Result A → (A → Result B) → Result B
ok a >>= f = f a
err e >>= f = err e

abbrev pub ◌>>◌ {ℓ κ} : {A : Type ℓ} {B : Type κ} → Result A → Result B → Result B
m >> k = m >>= λ _. k

-- `error.code`, for the errors of the program.
abbrev pub code : Error → Option String
code (nslab_error c _ _) = some c
code (operation_cancelled _ _) = some "OPERATION_CANCELLED"
code (os_error _ _ _ _) = none
code (exception _ _ _) = none
code (keyboard_interrupt _ _) = none

-- `isinstance(error, (OperationCancelled, KeyboardInterrupt))`
abbrev pub is_raw_interrupt : Error → Bool
is_raw_interrupt (nslab_error _ _ _) = false
is_raw_interrupt (operation_cancelled _ _) = true
is_raw_interrupt (os_error _ _ _ _) = false
is_raw_interrupt (exception _ _ _) = false
is_raw_interrupt (keyboard_interrupt _ _) = true

-- `NslabError.as_dict`
abbrev pub as_dict : String → String → Dict Json → Json
as_dict code message details =
    object (("code", str code) ∷ ("message", str message) ∷ ("details", object details) ∷ [])

-- `lifecycle._error_payload`. Details hold JSON values here, so `_json_safe` changes nothing but a
-- float that is not finite, which no detail of the program is.
abbrev pub error_payload : Error → Json
error_payload (nslab_error c m d) = as_dict c m d
error_payload (operation_cancelled m d) = as_dict "OPERATION_CANCELLED" m d
error_payload (os_error t m _ _) = object (("type", str t) ∷ ("message", str m) ∷ [])
error_payload (exception t m _) = object (("type", str t) ∷ ("message", str m) ∷ [])
error_payload (keyboard_interrupt m _) =
    object (("type", str "KeyboardInterrupt") ∷ ("message", str m) ∷ [])

-- `LifecycleService._attach`: a detail of the program's errors, a note on any other.
abbrev pub attach : Error → String → Json → Error
attach (nslab_error c m d) k v = nslab_error c m (insert k v d)
attach (operation_cancelled m d) k v = operation_cancelled m (insert k v d)
attach (os_error t m number n) k v = os_error t m number (n ++ (k, v) ∷ [])
attach (exception t m n) k v = exception t m (n ++ (k, v) ∷ [])
attach (keyboard_interrupt m n) k v = keyboard_interrupt m (n ++ (k, v) ∷ [])

pub code-attach : (e : Error) (k : String) (v : Json) → code (attach e k v) ≡ code e
code-attach e k v = ground arith

pub is_raw_interrupt-attach :
    (e : Error) (k : String) (v : Json) → is_raw_interrupt (attach e k v) ≡ is_raw_interrupt e
is_raw_interrupt-attach e k v = ground arith

-- `except OSError`
abbrev pub is_os_error : Error → Bool
is_os_error (os_error _ _ _ _) = true
is_os_error _ = false
