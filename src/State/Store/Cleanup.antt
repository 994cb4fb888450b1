-- ===== src/State/Store/Cleanup.antt =====
-- state.py, `_cleanup_temporary` and the end of a failing `save`: what they leave of an entry.
use nslab.Base.{
  String, ◌≡◌, refl, Bool, true, false, Option, none, some, string_eq, option_eq, ◌||◌,
}
use nslab.Error.{Error, Result, ok, err, is_os_error}
use nslab.Exec.{Exec, pure, ◌>>=◌}
use nslab.Exec.Keeps.{Keeps}
use nslab.Exec.Hoare.{Hoare, Hoare-Keeps, Hoare-bind, Hoare-try, Hoare-if}
use nslab.State.Files.{Disk, is_missing, is_unicode_error, unlink, close_descriptor}
use nslab.State.Store.{
  error_of, close_open, remove_left, raise_unless, or_else, cleanup_temporary, fail, state_error,
}

-- The action returns, and `P` holds then.
abbrev pub Sure : {A : Type 0} → (Disk → Type 0) → Result A → Disk → Type 0
Sure P (ok a) d = P d
Sure P (err x) d = ⊥

module _ {P : Disk → Type 0} where
  Sure-pure : {A : Type 0} (a : A) → Hoare P (pure a) (Sure P)
  unfolding ◌>>=◌
  Sure-pure a = record { at = λ d h. h }

  Sure-error_of : (m : Exec Disk Unit) → Keeps P m → Hoare P (error_of m) (Sure P)
  Sure-error_of m k =
      Hoare-try m _ _ (Hoare-Keeps k) (λ a. Sure-pure none) (λ x. Sure-pure (some x))

  Sure-raise_unless : (o : Option Error) → Hoare P (raise_unless true o) (Sure P)
  unfolding ◌>>=◌
  Sure-raise_unless none = record { at = λ d h. h }
  Sure-raise_unless (some x) = record { at = λ d h. h }

  module _ (close : (p : String) → Keeps P (close_descriptor p)) where
    Sure-close_open : (descriptor : Option String) → Hoare P (close_open descriptor) (Sure P)
    Sure-close_open none = Sure-pure none
    Sure-close_open (some p) = Sure-error_of _ (close p)

    Sure-remove_left :
        (temporary : Option String) (replaced : Bool)
        → ((t : String) → temporary ≡ some t → Keeps P (unlink t))
        → Hoare P (remove_left temporary replaced) (Sure P)
    Sure-remove_left none replaced k = Sure-pure none
    Sure-remove_left (some t) true k = Sure-pure none
    Sure-remove_left (some t) false k =
        Hoare-try (unlink t) _ _ (Hoare-Keeps (k t refl)) (λ a. Sure-pure none)
          λ x. Hoare-if (is_missing x) _ _ (λ q. Sure-pure none) (λ q. Sure-pure (some x))

    -- Under an error, the clean-up never raises.
    Sure-cleanup :
        (temporary : Option String) (replaced : Bool) (descriptor : Option String)
        → ((t : String) → temporary ≡ some t → Keeps P (unlink t))
        → Hoare P (cleanup_temporary true temporary replaced descriptor) (Sure P)
    unfolding cleanup_temporary
    Sure-cleanup temporary replaced descriptor k =
        Hoare-bind _ _ (Sure-close_open descriptor)
          (λ closing.
            Hoare-bind _ _ (Sure-remove_left temporary replaced k)
              (λ removing. Sure-raise_unless (or_else closing removing)) (λ x d h. absurd h))
          (λ x d h. absurd h)

    module _ {Q : Result Unit → Disk → Type 0} where
      pub Hoare-fail :
          (path : String) (temporary : Option String) (replaced : Bool) (descriptor : Option String)
          (x : Error)
          → ((t : String) → temporary ≡ some t → Keeps P (unlink t))
          → ((d : Disk) → P d → Q (err x) d)
          → ((d : Disk)
              → P d
              → is_os_error x || is_unicode_error x ≡ true
              → Q (err (state_error "STATE_WRITE_FAILED" "write" path x)) d)
          → Hoare P (fail path temporary replaced descriptor x) Q
      unfolding fail ◌>>=◌
      Hoare-fail path temporary replaced descriptor x k same wrapped =
          Hoare-bind _ _ (Sure-cleanup temporary replaced descriptor k)
            (λ a.
              Hoare-if (is_os_error x || is_unicode_error x) _ _
                (λ q. record { at = λ d h. wrapped d h q }) (λ q. record { at = same }))
            (λ x d h. absurd h)
