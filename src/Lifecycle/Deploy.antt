-- ===== src/Lifecycle/Deploy.antt =====
-- lifecycle.py, `LifecycleService`: the deployment.
use nslab.Base.{
  String, Bool, true, false, ◌&&◌, Option, none, some, List, [], ◌∷◌, ◌++◌, map, ◌<>◌, ◌==◌,
  string_eq, list_eq, if◌then◌else◌,
}
use nslab.Base.Dict.{Dict, keys, values}
use nslab.Json.{Json, str, object}
use nslab.Error.{Error, nslab_error, Result, ok, err, attach}
use nslab.Exec.{Exec, pure, raise, lift, ◌>>=◌, ◌>>◌, try_except, given}
use nslab.Plan.Types.{NodeKind, linux, bridge, NodePlan, LinkPlan, TopologyPlan}
use nslab.Plan.Equality.{plan_beq}
use nslab.Inventory.Types.{LiveInventory}
use nslab.Inventory.Links.{recorded_link_ids_match_inventory}
use nslab.Inventory.Whole.{inventory_matches_plan, inventory_is_absent}
use nslab.State.Snapshot.{StateSnapshot, SnapshotStatus, deploying, deployed}
use nslab.Lifecycle.Services.{Services}
use nslab.Lifecycle.Ownership.{interface_ownership}
use nslab.Lifecycle.Reconcile.{requires_reconciliation, reconcile}
use nslab.Lifecycle.Rollback.{
  start_routing, routing_ready, rollback_and_attach, handle_final_deploy_save_failure,
}
use nslab.Lifecycle.Guards.{
  LifecycleResult, outcome, ownership_unknown, deployment_conflict, deployment_drift,
  verification_failed, require_snapshot_identity, require_stable_snapshot,
}

abbrev pub map_result : {A B : Type 0} → (A → B) → Result A → Result B
map_result f (ok a) = ok (f a)
map_result f (err x) = err x

-- What the `try` of a deployment hands to its handlers beside its outcome: the namespaces that it
-- has created so far.
abbrev pub Building : Type 0 → Type 0 → Type 0
Building E A = E → (Result A × List String) × E

module _ {E M : Type 0} (S : Services E M) where
  abbrev mismatch : TopologyPlan → M → Error
  mismatch plan manifest =
      nslab_error "PLAN_MANIFEST_MISMATCH" ("topology plan does not match manifest: " <> plan.name)
        (("name", str plan.name)
          ∷ ("plan_fingerprint", str plan.fingerprint)
          ∷ ("manifest_fingerprint", str (S.manifest_fingerprint manifest))
          ∷ [])

  abbrev is_expected : TopologyPlan → M → TopologyPlan → Bool
  is_expected plan manifest expected =
      plan.fingerprint == S.manifest_fingerprint manifest
      && plan_beq plan expected
      && keys plan.nodes == keys expected.nodes

  -- `_validate_plan_manifest`
  unfoldable pub validate_plan_manifest : TopologyPlan → M → Exec E Unit
  validate_plan_manifest plan manifest = do
    expected ← lift (S.compile_plan manifest plan.name)
    if is_expected plan manifest expected then pure tt else raise (mismatch plan manifest)

  -- The snapshot, once the interfaces that it owns are known.
  abbrev pub snapshot_of : TopologyPlan → M → String → SnapshotStatus → Dict Json → StateSnapshot
  snapshot_of plan manifest created_at status owned = record {
    schema = 1;
    name = plan.name;
    fingerprint = plan.fingerprint;
    manifest = S.normalized_manifest manifest;
    namespaces = map (λ (name, n). (name, n.namespace)) plan.nodes;
    interfaces = owned;
    created_at = created_at;
    status = status;
  }

  -- `_snapshot_for_plan`
  unfoldable pub snapshot_for_plan :
      TopologyPlan → M → String → SnapshotStatus → Option LiveInventory → Result StateSnapshot
  snapshot_for_plan plan manifest created_at status inventory =
      map_result (snapshot_of plan manifest created_at status)
        (interface_ownership S.address_text plan inventory)

  -- `_save_initial_transition`
  unfoldable pub save_initial_transition : StateSnapshot → TopologyPlan → Exec E Unit
  save_initial_transition snapshot plan = try_except (S.save snapshot) pure λ error.
      let explained = (do
        r ← reconcile S plan
        raise (attach error "reconciliation" (object r.diagnostics))) in
      if requires_reconciliation error then explained else raise error

  abbrev matches : TopologyPlan → LiveInventory → Exec E Bool
  matches plan inventory = lift (inventory_matches_plan ⦃red = S.red⦄ plan inventory)

  -- `a and b` of the source: the second test is made only where the first holds.
  abbrev and_then : Bool → Exec E Bool → Exec E Bool
  and_then a b = if a then b else pure false

  -- The tests of a deployment that has a stable snapshot with the fingerprint of the plan.
  unfoldable pub is_in_place : TopologyPlan → StateSnapshot → LiveInventory → Exec E Bool
  is_in_place plan current inventory = do
    live ← matches plan inventory
    let recorded = recorded_link_ids_match_inventory plan inventory current.interfaces
    and_then (live && recorded) (routing_ready S plan)

  -- `_deploy_locked` where there is a snapshot
  unfoldable pub deploy_existing : TopologyPlan → StateSnapshot → Exec E LifecycleResult
  deploy_existing plan current = do
    lift (require_snapshot_identity current plan.name)
    lift (require_stable_snapshot current)
    let checked = (do
      lift (S.plan_from_snapshot current)
      inventory ← S.inventory plan
      in_place ← is_in_place plan current inventory
      if in_place
          then pure (
              outcome "deploy" plan.name false "deployed"
                ("topology already deployed: " <> plan.name))
          else raise (deployment_drift plan))
    if current.fingerprint == plan.fingerprint
        then checked
        else raise (deployment_conflict plan current)

  -- The loop goes on with the namespace in the list, or ends with the error.
  abbrev pub created_then :
      NodePlan
      → (List String → Building E Unit)
      → List String
      → Result (Unit {0}) × E
      → (Result (Unit {0}) × List String) × E
  created_then node rest created (ok _, e) = rest (created ++ (node.namespace ∷ [])) e
  created_then node rest created (err x, e) = ((err x, created), e)

  -- `for node in plan.nodes.values(): create_namespace(node)`
  unfoldable pub create_namespaces : List NodePlan → List String → Building E Unit
  create_namespaces [] created e = ((ok tt, created), e)
  create_namespaces (node ∷ nodes) created e =
      created_then node (create_namespaces nodes) created (S.create_namespace node e)

  abbrev pub create_bridge_of : NodePlan → NodeKind → Exec E Unit
  create_bridge_of node linux = pure tt
  create_bridge_of node bridge = S.create_bridge node

  unfoldable pub create_bridges : List NodePlan → Exec E Unit
  create_bridges [] = pure tt
  create_bridges (node ∷ nodes) = do create_bridge_of node node.kind; create_bridges nodes

  unfoldable pub create_veths : List LinkPlan → Exec E Unit
  create_veths [] = pure tt
  create_veths (l ∷ ls) = do S.create_veth l; create_veths ls

  unfoldable pub configure_nodes : TopologyPlan → List NodePlan → Exec E Unit
  configure_nodes plan [] = pure tt
  configure_nodes plan (node ∷ nodes) = do S.configure_node node plan; configure_nodes plan nodes

  -- The verification that ends the `try`.
  unfoldable pub verify : TopologyPlan → Exec E LiveInventory
  verify plan = do
    inventory ← S.inventory plan
    live ← matches plan inventory
    ready ← and_then live (routing_ready S plan)
    if ready then pure inventory else raise (verification_failed plan)

  -- The `try` after the namespaces.
  unfoldable pub build_up : TopologyPlan → Exec E LiveInventory
  build_up plan = do
    create_bridges (values plan.nodes)
    create_veths plan.links
    configure_nodes plan (values plan.nodes)
    start_routing S plan
    verify plan

  abbrev pub then_build :
      TopologyPlan
      → (Result (Unit {0}) × List String) × E
      → (Result LiveInventory × List String) × E
  then_build plan ((err x, created), e) = ((err x, created), e)
  then_build plan ((ok _, created), e) = let (r, e') = build_up plan e in ((r, created), e')

  -- The whole `try`.
  unfoldable pub build : TopologyPlan → Building E LiveInventory
  build plan e = then_build plan (create_namespaces (values plan.nodes) [] e)

  -- Saving the final snapshot, and its handlers.
  unfoldable pub commit_deployment :
      TopologyPlan → List String → StateSnapshot → StateSnapshot → Exec E LifecycleResult
  commit_deployment plan created first final =
      try_except (S.save final)
        (λ _.
          pure (outcome "deploy" plan.name true "deployed" ("deployed topology: " <> plan.name)))
        λ error. do
          annotated ← handle_final_deploy_save_failure S error plan created first
          raise annotated

  -- What follows the `try`, by its outcome.
  unfoldable pub conclude :
      TopologyPlan
      → M
      → String
      → StateSnapshot
      → Result LiveInventory
      → List String
      → Exec E LifecycleResult
  conclude plan manifest created_at first (err error) created = do
    annotated ← rollback_and_attach S error plan created first
    raise annotated
  conclude plan manifest created_at first (ok inventory) created = do
    final ← lift (snapshot_for_plan plan manifest created_at deployed (some inventory))
    commit_deployment plan created first final

  -- From the saved `deploying` snapshot on.
  unfoldable pub build_and_conclude :
      TopologyPlan → M → String → StateSnapshot → Exec E LifecycleResult
  build_and_conclude plan manifest created_at first e =
      let ((r, created), e') = build plan e in conclude plan manifest created_at first r created e'

  -- `_deploy_locked` where there is no snapshot
  unfoldable pub deploy_new : TopologyPlan → M → Exec E LifecycleResult
  deploy_new plan manifest = do
    preflight ← S.inventory plan
    let begin = (do
      created_at ← S.timestamp
      first ← lift (snapshot_for_plan plan manifest created_at deploying none)
      save_initial_transition first plan
      build_and_conclude plan manifest created_at first)
    if inventory_is_absent plan preflight then begin else raise (ownership_unknown plan.name)

  unfoldable pub deploy_validated : TopologyPlan → M → Exec E LifecycleResult
  deploy_validated plan manifest = do
    current ← S.load plan.name
    given current (deploy_new plan manifest) (deploy_existing plan)

  -- `_deploy_locked`
  unfoldable pub deploy_locked : TopologyPlan → M → Exec E LifecycleResult
  deploy_locked plan manifest = do
    validate_plan_manifest plan manifest
    deploy_validated plan manifest
