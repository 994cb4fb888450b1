-- ===== src/Lifecycle/Kept.antt =====
-- lifecycle.py, `_rollback_and_attach`: what a rollback cannot change.
use nslab.Base.{List, ◌∷◌}
use nslab.Lifecycle.Services.{Services}
use nslab.Lifecycle.Frame.{CallsKeep}
use nslab.Lifecycle.Removals.{RemovalsKeep}
use nslab.Lifecycle.Trace.{
  Event, created, deleted, saved, removed, observed, changed, consulted, World, traced, OnLog,
  Keeps-note, IsNeutral, traced-CallsKeep,
}

-- Every event but a creation.
abbrev pub IsOther : Event → Type 0
IsOther (created n) = ⊥
IsOther (deleted n) = Unit
IsOther (saved s) = Unit
IsOther (removed n) = Unit
IsOther (observed i) = Unit
IsOther changed = Unit
IsOther consulted = Unit

neutral-IsOther : (e : Event) → IsNeutral e → IsOther e
neutral-IsOther (created n) h = h
neutral-IsOther (deleted n) h = elim h [ ]
neutral-IsOther (saved s) h = tt
neutral-IsOther (removed n) h = elim h [ ]
neutral-IsOther (observed i) h = tt
neutral-IsOther changed h = tt
neutral-IsOther consulted h = tt

-- What only a creation can change is kept by the whole rollback.
module _ {E M : Type 0} (S : Services E M) (Q : List Event → Type 0)
    (step : (e : Event) → IsOther e → (log : List Event) → Q log → Q (e ∷ log)) where
  abbrev T : Services (World E) M
  T = traced S

  abbrev P : World E → Type 0
  P = OnLog Q

  pub calls : CallsKeep T P
  calls = traced-CallsKeep S Q (λ e n log h. step e (neutral-IsOther e n) log h)

  pub removals : RemovalsKeep T P
  unfolding traced
  removals = record {
    calls = calls;
    keep_delete_namespace = λ n. Keeps-note Q _ _ (λ r. step (deleted n) tt);
    keep_delete = λ n. Keeps-note Q _ _ (λ r. step (removed n) tt);
  }
