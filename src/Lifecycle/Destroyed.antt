-- ===== src/Lifecycle/Destroyed.antt =====
-- lifecycle.py, `destroy`: what a removal that returns has done.
use nslab.Base.{String, ◌≡◌, refl, inl, inr, List, [], ◌∷◌, In, All}
use nslab.Base.Dict.{values}
use nslab.Error.{ok}
use nslab.Exec.Hoare.{on_ok}
use nslab.Plan.Types.{TopologyPlan}
use nslab.Inventory.Whole.{namespaces_of}
use nslab.State.Snapshot.{StateSnapshot}
use nslab.Lifecycle.Services.{Services}
use nslab.Lifecycle.Guards.{LifecycleResult}
use nslab.Lifecycle.Rollback.{reversed_onto}
use nslab.Lifecycle.Destroy.{destroy_existing}
use nslab.Lifecycle.Trace.{deleted, traced}
use nslab.Lifecycle.Cleanup.{destroy_existing-At}
use nslab.Lifecycle.Forgets.Cleared.{Cleared, destroy_existing-Cleared_lem}

In-onto : (n : String) (xs out : List String) → In n out → In n (reversed_onto xs out)
In-onto n [] out at = at
In-onto n (x ∷ xs) out at = In-onto n xs (x ∷ out) (inr at)

pub In-reversed_onto : (n : String) (xs out : List String) → In n xs → In n (reversed_onto xs out)
In-reversed_onto n [] out at = elim at [ ]
In-reversed_onto n (x ∷ xs) out (inl e) = In-onto n xs (x ∷ out) (inl e)
In-reversed_onto n (x ∷ xs) out (inr at) = In-reversed_onto n xs (x ∷ out) at

All-each : {P : String → Type 0} (xs : List String) → ((n : String) → In n xs → P n) → All P xs
All-each [] h = tt
All-each (x ∷ xs) h = (h x (inl refl), All-each xs (λ n at. h n (inr at)))

-- Whatever the backend and the store answer, where the removal of a deployment that has a snapshot
-- returns, `delete_namespace` was called for each namespace of the plan in the snapshot, and the last
-- call removed the snapshot with the plan's name, at a time when the latest inventory showed no
-- resource of the plan and no call had changed the kernel since.
pub destroy_existing-Cleared :
    {E M : Type 0} (S : Services E M) (plan : TopologyPlan) (name : String)
    (current : StateSnapshot) (e : E) (result : LifecycleResult)
    → S.plan_from_snapshot current ≡ ok plan
    → (destroy_existing (traced S) name current (e, [])).0 ≡ ok result
    → Cleared plan (destroy_existing (traced S) name current (e, [])).1.1
      × All
          (λ n. In (deleted n) (destroy_existing (traced S) name current (e, [])).1.1)
          (namespaces_of (values plan.nodes))
destroy_existing-Cleared S plan name current e result q r = (
  destroy_existing-Cleared_lem S plan name current e result q r,
  All-each (namespaces_of (values plan.nodes)) λ n at.
      on_ok _ _ _ r
        ((destroy_existing-At n S plan name current q (In-reversed_onto n _ [] at)).at (e, []) tt),
)
