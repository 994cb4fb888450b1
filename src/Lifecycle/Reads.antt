-- ===== src/Lifecycle/Reads.antt =====
-- lifecycle.py, `_delete_final_state`: what the reading calls and the removal of the snapshot keep.
use nslab.Base.{String}
use nslab.Error.{Error}
use nslab.Exec.Keeps.{Keeps, keeps_rules}
use nslab.Plan.Types.{TopologyPlan}
use nslab.State.Snapshot.{StateSnapshot}
use nslab.Lifecycle.Services.{Services}
use nslab.Lifecycle.Reconcile.{
  DeleteGate, reconcile, delete_gate, raise_delete_retry_interrupt, final_retry_failed,
  handle_final_delete_failure, delete_final_state,
}

-- Reading the snapshot and the inventory keeps `P`.
pub record ReadsKeep {E M : Type 0} (S : Services E M) (P : E → Type 0) : Type 0 where
  pub keep_load : (n : String) → Keeps P (S.load n)
  pub keep_inventory : (p : TopologyPlan) → Keeps P (S.inventory p)

module _ {E M : Type 0} (S : Services E M) (P : E → Type 0) (reads : ReadsKeep S P) where
  pub reconciled-Keeps : (p : TopologyPlan) → Keeps P (reconcile S p)
  unfolding reconcile
  reconciled-Keeps p = search (keeps_rules, reads.keep_load, reads.keep_inventory)

  pub gate-Keeps : (p : TopologyPlan) (s : StateSnapshot) → Keeps P (delete_gate S p s)
  unfolding delete_gate
  gate-Keeps p s = search (keeps_rules, reconciled-Keeps)

  pub interrupt-Keeps :
      {A : Type 0} (a b c : Error) (g : DeleteGate) (p : TopologyPlan) (s : StateSnapshot)
      → Keeps P (raise_delete_retry_interrupt S {A = A} a b c g p s)
  unfolding raise_delete_retry_interrupt
  interrupt-Keeps a b c g p s = search (keeps_rules, gate-Keeps)

  module _ (keep_delete : (n : String) → Keeps P (S.delete n)) where
    retry-Keeps :
        (a b : Error) (g : DeleteGate) (p : TopologyPlan) (s : StateSnapshot)
        → Keeps P (final_retry_failed S a b g p s)
    unfolding final_retry_failed
    retry-Keeps a b g p s = search (keeps_rules, gate-Keeps, interrupt-Keeps) depth 9

    failure-Keeps :
        (a : Error) (p : TopologyPlan) (s : StateSnapshot)
        → Keeps P (handle_final_delete_failure S a p s)
    unfolding handle_final_delete_failure
    failure-Keeps a p s = search (keeps_rules, keep_delete, gate-Keeps, retry-Keeps) depth 9

    pub final_state-Keeps :
        (p : TopologyPlan) (s : StateSnapshot) → Keeps P (delete_final_state S p s)
    unfolding delete_final_state
    final_state-Keeps p s = search (keeps_rules, keep_delete, failure-Keeps)
