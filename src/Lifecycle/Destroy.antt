-- ===== src/Lifecycle/Destroy.antt =====
-- lifecycle.py, `LifecycleService`: the removal of a deployment, and the public methods with their
-- lock.
use nslab.Base.{
  String, Bool, true, false, ◌||◌, Option, none, some, List, [], ◌∷◌, ◌++◌, ◌<>◌, ◌==◌, string_eq,
  if◌then◌else◌,
}
use nslab.Base.Dict.{values}
use nslab.Json.{Json, arr}
use nslab.Error.{Error, Result, ok, err, attach, is_raw_interrupt}
use nslab.Exec.{Exec, pure, raise, lift, attempt, ◌>>=◌, ◌>>◌, given}
use nslab.Plan.Types.{TopologyPlan}
use nslab.Inventory.Types.{LiveInventory}
use nslab.Inventory.Whole.{inventory_is_absent, namespaces_of}
use nslab.State.Snapshot.{StateSnapshot, destroying}
use nslab.Lifecycle.Services.{Services}
use nslab.Lifecycle.Guards.{
  LifecycleResult, outcome, ownership_unknown, plan_name_mismatch, destroy_incomplete,
  require_snapshot_identity, require_stable_snapshot,
}
use nslab.Lifecycle.Reconcile.{absent_in, delete_final_state}
use nslab.Lifecycle.Rollback.{
  to_items, has_routing, reversed, result_entry, error_entry, routing_entry, routing_stopped,
  is_missing, stop_routing,
}
use nslab.Lifecycle.Deploy.{
  validate_plan_manifest, save_initial_transition, deploy_validated, deploy_locked,
}

-- The list `cleanup` and the variable `first_error`.
pub record Cleanup : Type 0 where
  pub entries : List Json
  pub first_error : Option Error

abbrev add_entry : Json → Cleanup → Cleanup
add_entry j c = record c { entries = c.entries ++ (j ∷ []) }

-- `first_error = error`
abbrev overwrite : Error → Cleanup → Cleanup
overwrite e c = record c { first_error = some e }

-- `if first_error is None: first_error = error`
abbrev keep_first : Error → Cleanup → Cleanup
keep_first e c = record c { first_error = elim c.first_error [ none ↦ some e | some f ↦ some f ] }

abbrev pub routing_cleanup : Result (Unit {0}) → Cleanup
routing_cleanup (ok _) = record { entries = routing_stopped ∷ []; first_error = none }
routing_cleanup (err e) = record {
  entries = routing_entry (if is_raw_interrupt e then "interrupted" else "failed") e ∷ [];
  first_error = some e;
}

-- What one `delete_namespace` adds, and whether the loop goes on.
abbrev pub namespace_cleanup : String → Result (Unit {0}) → Cleanup → Cleanup × Bool
namespace_cleanup namespace (ok _) c = (add_entry (result_entry namespace "deleted") c, true)
namespace_cleanup namespace (err e) c =
    if is_raw_interrupt e
    then (overwrite e (add_entry (error_entry namespace "interrupted" e) c), false)
    else if is_missing e
    then (add_entry (result_entry namespace "absent") c, true)
    else (keep_first e (add_entry (error_entry namespace "failed" e) c), true)

abbrev pub inventory_cleanup : Result LiveInventory → Cleanup → Option LiveInventory × Cleanup
inventory_cleanup (ok i) c = (some i, c)
inventory_cleanup (err e) c = (none, keep_first e c)

abbrev with_status : StateSnapshot → StateSnapshot
with_status s = record s { status = destroying }

module _ {E M : Type 0} (S : Services E M) where
  unfoldable pub cleanup_routing : TopologyPlan → Exec E Cleanup
  cleanup_routing plan =
      let stop = (do stopped ← attempt (stop_routing S plan); pure (routing_cleanup stopped)) in
      if has_routing plan then stop else pure (record { entries = []; first_error = none })

  unfoldable pub cleanup_namespaces : List String → Cleanup → Exec E Cleanup
  cleanup_namespaces [] c = pure c
  cleanup_namespaces (namespace ∷ rest) c = do
    deleted ← attempt (S.delete_namespace namespace)
    let (c', more) = namespace_cleanup namespace deleted c
    let others = cleanup_namespaces rest c'
    if more then others else pure c'

  -- The verdict on the cleanup, and the removal of the snapshot.
  abbrev pub finish_destroy :
      TopologyPlan
      → String
      → StateSnapshot
      → Option LiveInventory
      → Cleanup
      → Exec E LifecycleResult
  finish_destroy plan name current inventory c =
      let fail = λ (e : Error). raise (attach e "cleanup" (arr (to_items c.entries))) in
      let remove = (do
        delete_final_state S plan current
        pure (outcome "destroy" name true "absent" ("destroyed topology: " <> name))) in
      given c.first_error
        (if absent_in S plan inventory then remove else fail (destroy_incomplete name)) fail

  -- From the saved `destroying` snapshot on.
  unfoldable pub tear_down : TopologyPlan → String → StateSnapshot → Exec E LifecycleResult
  tear_down plan name current = do
    routed ← cleanup_routing plan
    cleaned ← cleanup_namespaces (reversed (namespaces_of (values plan.nodes))) routed
    observed ← attempt (S.inventory plan)
    let (inventory, final) = inventory_cleanup observed cleaned
    finish_destroy plan name current inventory final

  -- `_destroy_locked` where there is a snapshot
  unfoldable pub destroy_existing : String → StateSnapshot → Exec E LifecycleResult
  destroy_existing name current = do
    lift (require_snapshot_identity current name)
    lift (require_stable_snapshot current)
    plan ← lift (S.plan_from_snapshot current)
    save_initial_transition S (with_status current) plan
    tear_down plan name (with_status current)

  -- `_destroy_locked` where there is no snapshot
  unfoldable pub destroy_absent : Option TopologyPlan → String → Exec E LifecycleResult
  destroy_absent none name = raise (ownership_unknown name)
  destroy_absent (some plan) name = do
    preflight ← S.inventory plan
    let stop = (do
      stop_routing S plan
      pure (outcome "destroy" name false "absent" ("topology already absent: " <> name)))
    if inventory_is_absent plan preflight then stop else raise (ownership_unknown name)

  abbrev pub check_plan_name : Option TopologyPlan → String → Exec E Unit
  check_plan_name none name = pure tt
  check_plan_name (some plan) name =
      if plan.name == name then pure tt else raise (plan_name_mismatch name plan)

  -- `_destroy_locked`
  unfoldable pub destroy_locked : Option TopologyPlan → String → Exec E LifecycleResult
  destroy_locked plan name = do
    check_plan_name plan name
    current ← S.load name
    given current (destroy_absent plan name) (destroy_existing name)

  -- `with self.lock_factory(name):`
  abbrev pub raised : {A : Type 0} → Result A → Bool
  raised (ok a) = false
  raised (err x) = true

  abbrev pub with_lock : {A : Type 0} → String → Exec E A → Exec E A
  with_lock name body = do
    S.acquire name
    done ← attempt body
    S.release name (raised done)
    lift done

  unfoldable pub deploy : TopologyPlan → M → Exec E LifecycleResult
  deploy plan manifest = with_lock plan.name (deploy_locked S plan manifest)

  unfoldable pub destroy : Option TopologyPlan → String → Exec E LifecycleResult
  destroy plan name = with_lock name (destroy_locked plan name)

  unfoldable pub redeploy_locked : TopologyPlan → M → Exec E LifecycleResult
  redeploy_locked plan manifest = do
    validate_plan_manifest S plan manifest
    destroyed ← destroy_locked (some plan) plan.name
    deployed ← deploy_validated S plan manifest
    pure (
        outcome "redeploy" plan.name (destroyed.changed || deployed.changed) deployed.status
          ("redeployed topology: " <> plan.name))

  unfoldable pub redeploy : TopologyPlan → M → Exec E LifecycleResult
  redeploy plan manifest = with_lock plan.name (redeploy_locked plan manifest)
