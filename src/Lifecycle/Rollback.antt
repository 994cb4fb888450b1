-- ===== src/Lifecycle/Rollback.antt =====
-- lifecycle.py: routing helpers, and the rollback of a deployment that failed.
use nslab.Base.{
  String, Bool, true, false, not, ◌&&◌, ◌||◌, Option, none, some, List, [], ◌∷◌, ◌++◌, ◌<>◌, ◌==◌,
  string_eq, option_eq, any, if◌then◌else◌,
}
use nslab.Base.Dict.{has_key, values}
use nslab.Json.{Json, bool, str, arr, object, Items, nil, cons}
use nslab.Error.{
  Error, nslab_error, operation_cancelled, os_error, exception, keyboard_interrupt, Result, ok, err,
  code, is_raw_interrupt, error_payload, attach,
}
use nslab.Exec.{Exec, pure, raise, attempt, ◌>>=◌, try_except, given}
use nslab.Plan.Types.{NodePlan, TopologyPlan}
use nslab.Inventory.Types.{LiveInventory}
use nslab.State.Snapshot.{StateSnapshot, deployed, status_text, status_beq, snapshot_beq}
use nslab.Lifecycle.Services.{Services}
use nslab.Lifecycle.Reconcile.{
  DeleteGate, retry_safe, requires_reconciliation, reconcile, delete_gate, absent_in,
  raise_delete_retry_interrupt, Reconciliation,
}

abbrev pub to_items : List Json → Items
to_items [] = nil
to_items (x ∷ xs) = cons x (to_items xs)

-- `_has_routing`
abbrev pub has_routing : TopologyPlan → Bool
has_routing plan =
    any (λ (n : NodePlan). elim n.routing [ none ↦ false | some r ↦ true ]) (values plan.nodes)

-- A list that a `for` loop goes through by `reversed`.
abbrev pub reversed_onto : {A : Type 0} → List A → List A → List A
reversed_onto [] out = out
reversed_onto (x ∷ xs) out = reversed_onto xs (x ∷ out)

abbrev pub reversed : {A : Type 0} → List A → List A
reversed xs = reversed_onto xs []

-- An entry of the results of a cleanup.
abbrev pub result_entry : String → String → Json
result_entry namespace result = object (("namespace", str namespace) ∷ ("result", str result) ∷ [])

abbrev pub error_entry : String → String → Error → Json
error_entry namespace result e =
    object (("namespace", str namespace) ∷ ("result", str result) ∷ ("error", error_payload e) ∷ [])

abbrev pub routing_entry : String → Error → Json
routing_entry result e = object (("routing", str result) ∷ ("error", error_payload e) ∷ [])

abbrev pub routing_stopped : Json
routing_stopped = object (("routing", str "stopped") ∷ [])

-- `isinstance(error, NslabError) and error.code == "RESOURCE_MISSING"`
abbrev pub is_missing : Error → Bool
is_missing e = code e == some "RESOURCE_MISSING"

abbrev is_keyboard : Error → Bool
is_keyboard (nslab_error _ _ _) = false
is_keyboard (operation_cancelled _ _) = false
is_keyboard (os_error _ _ _ _) = false
is_keyboard (exception _ _ _) = false
is_keyboard (keyboard_interrupt _ _) = true

module _ {E M : Type 0} (S : Services E M) where
  abbrev unsupported : {A : Type 0} → TopologyPlan → Exec E A
  unsupported plan = raise (
      nslab_error "ROUTING_UNSUPPORTED"
        ("network backend does not support dynamic routing: " <> plan.name)
        (("name", str plan.name) ∷ []))

  abbrev pub chosen : {A : Type 0} → Option (TopologyPlan → Exec E A) → TopologyPlan → Exec E A
  chosen none plan = unsupported plan
  chosen (some m) plan = m plan

  abbrev call_routing :
      {A : Type 0} → Option (TopologyPlan → Exec E A) → TopologyPlan → A → Exec E A
  call_routing method plan default = if has_routing plan then chosen method plan else pure default

  unfoldable pub start_routing : TopologyPlan → Exec E Unit
  start_routing plan = call_routing S.start_routing plan tt

  unfoldable pub stop_routing : TopologyPlan → Exec E Unit
  stop_routing plan = call_routing S.stop_routing plan tt

  unfoldable pub routing_ready : TopologyPlan → Exec E Bool
  routing_ready plan = call_routing S.routing_ready plan true

  -- `_reconcile_rollback_state_delete`, after its first lines; the Boolean says that the state is gone.
  unfoldable pub rollback_retry_failed :
      Error → Error → Error → DeleteGate → TopologyPlan → StateSnapshot → Exec E (Bool × Error)
  rollback_retry_failed original state_error retry_error gate plan deploying =
      let interrupted =
        raise_delete_retry_interrupt S retry_error original state_error gate plan deploying in
      let failed = attach original "rollback_state_delete_retry" (error_payload retry_error) in
      let reconciled = (do
        retry_gate ← delete_gate S plan deploying
        pure (
          false,
          attach failed "rollback_state_delete_retry_reconciliation"
              (object retry_gate.reconciliation.diagnostics),
        )) in
      if is_raw_interrupt retry_error
      then interrupted
      else if requires_reconciliation retry_error
      then reconciled
      else pure (false, failed)

  unfoldable pub reconcile_rollback_state_delete :
      Error → Error → TopologyPlan → StateSnapshot → Exec E (Bool × Error)
  reconcile_rollback_state_delete original state_error plan deploying =
      let noted = attach original "rollback_state" (error_payload state_error) in
      let recover = (do
        gate ← delete_gate S plan deploying
        let annotated =
            attach noted "rollback_state_reconciliation" (object gate.reconciliation.diagnostics)
        let retry =
            try_except (S.delete plan.name) (λ _. pure (true, annotated))
              λ retry_error.
                rollback_retry_failed annotated state_error retry_error gate plan deploying
        let safe = not (is_raw_interrupt state_error) && retry_safe gate
        if safe then retry else pure (false, annotated)) in
      if requires_reconciliation state_error then recover else pure (false, noted)

  abbrev retained : Error → StateSnapshot → Error
  retained original current = attach original "rollback_state" (
      object (
        ("result", str "retained")
        ∷ ("status", str (status_text current.status))
        ∷ ("fingerprint", str current.fingerprint)
        ∷ []))

  abbrev delete_rollback_state : Error → TopologyPlan → StateSnapshot → Exec E (Bool × Error)
  delete_rollback_state original plan deploying =
      try_except (S.delete plan.name) (λ _. pure (true, original))
        λ state_error. reconcile_rollback_state_delete original state_error plan deploying

  -- Only the very snapshot of this deployment is taken away.
  unfoldable pub remove_own :
      Error → TopologyPlan → StateSnapshot → StateSnapshot → Exec E (Bool × Error)
  remove_own original plan deploying current =
      let remove = delete_rollback_state original plan deploying in
      if snapshot_beq current deploying then remove else pure (false, retained original current)

  -- `_remove_rollback_state`
  unfoldable pub remove_rollback_state :
      Error → TopologyPlan → StateSnapshot → Exec E (Bool × Error)
  remove_rollback_state original plan deploying =
      try_except (S.load plan.name)
        (λ loaded. given loaded (pure (true, original)) (remove_own original plan deploying))
        λ state_error. pure (false, attach original "rollback_state" (error_payload state_error))

  -- The routing part of the rollback: its results, and whether the cleanup failed.
  abbrev pub rollback_routing : TopologyPlan → Exec E (List Json × Bool)
  rollback_routing plan =
      let stop =
        try_except (stop_routing plan) (λ _. pure (routing_stopped ∷ [], false))
          λ e.
            pure (routing_entry (if is_keyboard e then "interrupted" else "failed") e ∷ [], true) in
      if has_routing plan then stop else pure ([], false)

  abbrev pub rollback_step : String → List Json × Bool → Result (Unit {0}) → List Json × Bool
  rollback_step namespace (results, failed) (ok _) =
      (results ++ (result_entry namespace "deleted" ∷ []), failed)
  rollback_step namespace (results, failed) (err e) =
      if is_missing e
      then (results ++ (result_entry namespace "absent" ∷ []), failed)
      else (results ++ (error_entry namespace "failed" e ∷ []), true)

  -- The loop over the namespaces that were created, the last one first.
  unfoldable pub rollback_namespaces : List String → List Json × Bool → Exec E (List Json × Bool)
  rollback_namespaces [] acc = pure acc
  rollback_namespaces (namespace ∷ rest) acc = do
    outcome ← attempt (S.delete_namespace namespace)
    rollback_namespaces rest (rollback_step namespace acc outcome)

  abbrev pub rollback_inventory : Error → Result LiveInventory → Option LiveInventory × Error
  rollback_inventory error (ok i) = (some i, error)
  rollback_inventory error (err x) = (none, attach error "rollback_inventory" (error_payload x))

  abbrev pub is_none : {A : Type 0} → Option A → Bool
  is_none none = true
  is_none (some a) = false

  -- The last lines of `_rollback_and_attach`.
  abbrev pub attach_rollback : Error → List Json → Bool → Error
  attach_rollback error results complete =
      attach (attach error "rollback" (arr (to_items results))) "rollback_complete" (bool complete)

  -- `_rollback_and_attach`: the annotated error to raise, or the interrupt that came instead.
  unfoldable pub rollback_and_attach :
      Error → TopologyPlan → List String → StateSnapshot → Exec E Error
  rollback_and_attach error plan created deploying = do
    routing ← rollback_routing plan
    acc ← rollback_namespaces (reversed created) routing
    observed ← attempt (S.inventory plan)
    let (inventory, noted) = rollback_inventory error observed
    let failed = acc.1 || is_none inventory
    let absent = absent_in S plan inventory
    let remove = (do
      removed ← remove_rollback_state noted plan deploying
      pure (attach_rollback removed.1 acc.0 removed.0))
    if not failed && absent
        then remove
        else pure (attach_rollback noted acc.0 (absent && not failed))

  abbrev is_committed : TopologyPlan → Option StateSnapshot → Bool
  is_committed plan none = false
  is_committed plan (some s) =
      s.name == plan.name && s.fingerprint == plan.fingerprint && status_beq s.status deployed

  -- The reconciliation is inconclusive, or shows that the snapshot is committed.
  abbrev pub is_settled : TopologyPlan → Reconciliation → Bool
  is_settled plan r =
      has_key "state_error" r.diagnostics
      || has_key "inventory_error" r.diagnostics
      || is_committed plan r.snapshot

  -- `_handle_final_deploy_save_failure`: no rollback where the snapshot may be, or is, committed.
  unfoldable pub handle_final_deploy_save_failure :
      Error → TopologyPlan → List String → StateSnapshot → Exec E Error
  handle_final_deploy_save_failure error plan created deploying =
      let recover = (do
        r ← reconcile S plan
        let annotated = attach error "reconciliation" (object r.diagnostics)
        let rollback = rollback_and_attach annotated plan created deploying
        if is_settled plan r then pure annotated else rollback) in
      let rollback = rollback_and_attach error plan created deploying in
      if requires_reconciliation error then recover else rollback
