-- ===== src/Lifecycle/Forgets/Cleared.antt =====
-- lifecycle.py, `destroy`: what a removal that returns has done.
use nslab.Lifecycle.Frame.{save_initial_transition-Keeps}
use nslab.Base.{String, ◌≡◌, refl, not, ◌&&◌, List, [], ◌∷◌}
use nslab.Base.Dict.{values}
use nslab.Error.{Error, Result, ok, err, is_raw_interrupt}
use nslab.Exec.Keeps.{Keeps-lift}
use nslab.Exec.Hoare.{
  Hoare, Hoare-weaken, Hoare-if, Hoare-bind, Hoare-try, Hoare-given, OnOk, Hoare-pure, Hoare-raise,
  Hoare-skip, Hoare-seq, on_ok, Hoare-keep, Hoare-bind_ok,
}
use nslab.Plan.Types.{TopologyPlan}
use nslab.Inventory.Types.{LiveInventory}
use nslab.Inventory.Whole.{namespaces_of}
use nslab.State.Snapshot.{StateSnapshot}
use nslab.Lifecycle.Services.{Services}
use nslab.Lifecycle.Guards.{LifecycleResult}
use nslab.Lifecycle.Reconcile.{
  absent_in, delete_final_state, handle_final_delete_failure, final_retry_failed,
  raise_delete_retry_interrupt, requires_reconciliation, DeleteGate, retry_safe,
}
use nslab.Lifecycle.Rollback.{reversed}
use nslab.Lifecycle.Destroy.{
  Cleanup, inventory_cleanup, finish_destroy, tear_down, destroy_existing,
}
use nslab.Lifecycle.Trace.{
  Event, created, deleted, saved, removed, observed, changed, consulted, World, note, traced,
}
use nslab.Lifecycle.Forgets.{LastAbsent, T, F, G, forget, GateSays, delete_gate_says, gate_opens}
use nslab.Lifecycle.Forgets.Runs.{
  Ok, held, InventorySays, read_says, gone, cleanup_routing-Keeps, cleanup_namespaces-Keeps,
}

-- The last call took the snapshot of the plan away, while the latest inventory showed no resource of
-- the plan and no call had changed the kernel since.
abbrev pub Cleared : TopologyPlan → List Event → Type 0
Cleared plan [] = ⊥
Cleared plan (removed n ∷ before) = (n ≡ plan.name) × LastAbsent plan before
Cleared plan (created n ∷ before) = ⊥
Cleared plan (deleted n ∷ before) = ⊥
Cleared plan (saved s ∷ before) = ⊥
Cleared plan (observed i ∷ before) = ⊥
Cleared plan (changed ∷ before) = ⊥
Cleared plan (consulted ∷ before) = ⊥

module _ (plan : TopologyPlan) {E M : Type 0} (S : Services E M) where
  abbrev pub U : Services (World E) M
  U = T plan S

  pub IsCleared : World E → Type 0
  IsCleared w = Cleared plan w.1

  -- A call of `delete`, by its outcome.
  Removal : Result (Unit {0}) → World E → Type 0
  Removal (ok u) w = IsCleared w
  Removal (err x) w = G plan S w

  outcome-Removal :
      (r : Result (Unit {0})) (e : E) (log : List Event)
      → G plan S (e, log)
      → Removal r (e, removed plan.name ∷ log)
  unfolding Removal IsCleared G
  outcome-Removal (ok u) e log h = (refl, h.1)
  outcome-Removal (err x) e log h = ((refl, h.1, h.0), h.1)

  delete-Removal : Hoare (G plan S) (U.delete plan.name) Removal
  unfolding T G traced note
  delete-Removal = record { at = λ (e, log) h. outcome-Removal (S.delete plan.name e).0 _ log h }

  final_retry_failed-raises :
      {P : World E → Type 0} (x y : Error) (g : DeleteGate) (s : StateSnapshot)
      → Hoare P (final_retry_failed U x y g plan s) (OnOk (λ _. IsCleared))
  unfolding final_retry_failed raise_delete_retry_interrupt
  final_retry_failed-raises x y g s =
      Hoare-if (is_raw_interrupt y) _ _ (λ _. Hoare-skip _ _ (λ _. Hoare-raise _))
        (λ _.
          Hoare-if (requires_reconciliation y) _ _ (λ _. Hoare-skip _ _ (λ _. Hoare-raise _))
            (λ _. Hoare-raise _))

  gate_lost :
      (x : Error) (w : World E)
      → GateSays plan S (err x) w
      → OnOk (λ (u : Unit {0}) w. IsCleared w) (err x) w
  gate_lost x w h = tt

  final_delete_failure-IsCleared :
      (x : Error) (s : StateSnapshot)
      → Hoare (G plan S) (handle_final_delete_failure U x plan s) (OnOk (λ _. IsCleared))
  unfolding handle_final_delete_failure Removal
  final_delete_failure-IsCleared x s =
      Hoare-if (requires_reconciliation x) _ _
        (λ _. Hoare-weaken (forget plan S) (
          Hoare-bind _ _ (delete_gate_says plan S s)
            (λ g.
              Hoare-if (not (is_raw_interrupt x) && retry_safe g) _ _
                (λ safe.
                  Hoare-weaken (λ w h. gate_opens plan S g _ w safe h)
                    (Hoare-try _ _ _ delete-Removal (λ _. Hoare-pure tt (λ w h. h))
                      (λ y. final_retry_failed-raises _ y g s)))
                (λ _. Hoare-raise _))
            gate_lost))
        (λ _. Hoare-raise _)

  delete_final_state-IsCleared :
      (s : StateSnapshot) → Hoare (G plan S) (delete_final_state U plan s) (OnOk (λ _. IsCleared))
  unfolding delete_final_state Removal
  delete_final_state-IsCleared s =
      Hoare-try _ _ _ delete-Removal (λ _. Hoare-pure tt (λ w h. h))
        (λ x. final_delete_failure-IsCleared x s)

  finish_destroy-IsCleared :
      (name : String) (s : StateSnapshot) (r : Result LiveInventory) (c : Cleanup)
      → Hoare
          (InventorySays plan S (ok r))
          (finish_destroy U plan name s (inventory_cleanup r c).0 (inventory_cleanup r c).1)
          (OnOk (λ _. IsCleared))
  finish_destroy-IsCleared name s r c =
      Hoare-given (inventory_cleanup r c).1.first_error _ _
        (λ _.
          Hoare-if (absent_in U plan (inventory_cleanup r c).0) _ _
            (λ q.
              Hoare-weaken (λ w h. gone plan S r c w q h)
                (Hoare-seq _ _ (delete_final_state-IsCleared s) (λ _. Hoare-pure _ (λ w h. h))))
            (λ _. Hoare-raise _))
        (λ x. Hoare-raise _)

  tear_down-IsCleared :
      (name : String) (s : StateSnapshot)
      → Hoare (Ok plan S) (tear_down U plan name s) (OnOk (λ _. IsCleared))
  unfolding tear_down
  tear_down-IsCleared name s = Hoare-keep _ _ (cleanup_routing-Keeps plan S) λ routed.
      Hoare-keep _ _
        (cleanup_namespaces-Keeps plan S (reversed (namespaces_of (values plan.nodes))) routed)
        λ cleaned.
          Hoare-bind _ _ (read_says plan S) (λ r. finish_destroy-IsCleared name s r cleaned)
            (λ x w h. tt)

  pub destroy_existing-IsCleared :
      (name : String) (s : StateSnapshot)
      → S.plan_from_snapshot s ≡ ok plan
      → Hoare (Ok plan S) (destroy_existing U name s) (OnOk (λ _. IsCleared))
  unfolding destroy_existing T traced
  destroy_existing-IsCleared name s q = Hoare-keep _ _ (Keeps-lift _) λ _.
      Hoare-keep _ _ (Keeps-lift _) λ _. Hoare-bind_ok _ plan _ q (
        Hoare-keep _ _ (save_initial_transition-Keeps U (Ok plan S) (held plan S) _ plan)
          (λ _. tear_down-IsCleared name _))

pub destroy_existing-Cleared_lem :
    {E M : Type 0} (S : Services E M) (plan : TopologyPlan) (name : String)
    (current : StateSnapshot) (e : E) (result : LifecycleResult)
    → S.plan_from_snapshot current ≡ ok plan
    → (destroy_existing (traced S) name current (e, [])).0 ≡ ok result
    → Cleared plan (destroy_existing (traced S) name current (e, [])).1.1
unfolding T F IsCleared
destroy_existing-Cleared_lem S plan name current e result q r =
    on_ok _ _ _ r ((destroy_existing-IsCleared plan S name current q).at (e, []) tt)
