-- ===== src/Lifecycle/Removals.antt =====
-- lifecycle.py, `_rollback_and_attach`: what the calls keep, the rollback keeps.
use nslab.Base.{String, Bool, List, [], ◌∷◌}
use nslab.Json.{Json}
use nslab.Error.{Error}
use nslab.Exec.Keeps.{Keeps, keeps_rules, Keeps-pure, Keeps-bind, Keeps-attempt}
use nslab.Plan.Types.{TopologyPlan}
use nslab.State.Snapshot.{StateSnapshot}
use nslab.Lifecycle.Services.{Services}
use nslab.Lifecycle.Rollback.{
  rollback_step, rollback_namespaces, rollback_and_attach, remove_rollback_state, remove_own,
  reconcile_rollback_state_delete, rollback_retry_failed,
}
use nslab.Lifecycle.Frame.{
  CallsKeep, delete_gate-Keeps, raise_delete_retry_interrupt-Keeps, stop_routing-Keeps,
}

-- The deletions keep `P` too.
pub record RemovalsKeep {E M : Type 0} (S : Services E M) (P : E → Type 0) : Type 0 where
  pub calls : CallsKeep S P
  pub keep_delete_namespace : (n : String) → Keeps P (S.delete_namespace n)
  pub keep_delete : (n : String) → Keeps P (S.delete n)

module _ {E M : Type 0} (S : Services E M) (P : E → Type 0) (removals : RemovalsKeep S P) where
  reconcile_delete-Keeps :
      (a b : Error) (p : TopologyPlan) (s : StateSnapshot)
      → Keeps P (reconcile_rollback_state_delete S a b p s)
  unfolding reconcile_rollback_state_delete rollback_retry_failed
  reconcile_delete-Keeps a b p s =
      search
        (
          keeps_rules,
          removals.keep_delete,
          delete_gate-Keeps S P removals.calls,
          raise_delete_retry_interrupt-Keeps S P removals.calls,
        )
        depth 9

  pub remove_state-Keeps :
      (a : Error) (p : TopologyPlan) (s : StateSnapshot) → Keeps P (remove_rollback_state S a p s)
  unfolding remove_rollback_state remove_own
  remove_state-Keeps a p s =
      search (keeps_rules, removals.keep_delete, removals.calls.keep_load, reconcile_delete-Keeps)
        depth 9

  pub rollback_namespaces-Keeps :
      (ns : List String) (acc : List Json × Bool) → Keeps P (rollback_namespaces S ns acc)
  unfolding rollback_namespaces
  rollback_namespaces-Keeps [] acc = Keeps-pure acc
  rollback_namespaces-Keeps (n ∷ ns) acc =
      Keeps-bind _ _ (Keeps-attempt _ (removals.keep_delete_namespace n))
        (λ outcome. rollback_namespaces-Keeps ns (rollback_step S n acc outcome))

  pub rollback_and_attach-Keeps :
      (a : Error) (p : TopologyPlan) (cs : List String) (s : StateSnapshot)
      → Keeps P (rollback_and_attach S a p cs s)
  unfolding rollback_and_attach
  rollback_and_attach-Keeps a p cs s =
      search
        (
          keeps_rules,
          rollback_namespaces-Keeps,
          remove_state-Keeps,
          stop_routing-Keeps S P removals.calls,
          removals.calls.keep_inventory,
        )
        depth 9
