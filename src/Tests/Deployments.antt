-- ===== src/Tests/Deployments.antt =====
-- The theorems on the service, at runs in the small world.
use nslab.Lifecycle.Undone.{build_and_conclude-Undone}
use nslab.Lifecycle.Forgets.Complete.{rollback_complete_lem}
use nslab.Json.{arr, bool}
use nslab.Lifecycle.Reconcile.{delete_final_state}
use nslab.Plan.Mtu.{link_ends}
use nslab.Base.Equality.{discrete_of}
use nslab.Plan.Interfaces.{node_interface_addresses}
use nslab.Inventory.Links.{links_match, observed_veths, veths_of, match_links}
use nslab.Inventory.Equality.{RoutePlan-discrete}
use nslab.Inventory.Match.{
  interfaces_match, interface_matches, routes_match, neighbors_match, declared_sysctls_match,
  qdisc_matches,
}
use nslab.Inventory.Expected.{expected_interfaces, expected_routes}
use nslab.Inventory.Whole.{
  inventory_is_absent, node_is_absent, inventory_matches_plan, nodes_match, node_matches,
  contents_match,
}
use nslab.Lifecycle.Rollback.{
  start_routing, routing_ready, to_items, result_entry, rollback_and_attach, rollback_namespaces,
  stop_routing, remove_rollback_state, remove_own,
}
use nslab.Lifecycle.Ownership.{interface_ownership}
use nslab.Plan.Equality.{plan_beq, node_beq, same, NodeKind-discrete, links_beq}
use nslab.Base.{◌≡◌, refl, true, false, some, [], In, All, ◌∷◌, inl, inr}
use nslab.Error.{ok, Error, exception, err}
use nslab.Exec as Exec
use nslab.Exec.{try_except}
use nslab.State.Snapshot.{deployed, deploying, snapshot_beq}
use nslab.Lifecycle.Deploy.{
  deploy_locked, validate_plan_manifest, deploy_validated, deploy_new, snapshot_for_plan,
  save_initial_transition, build_and_conclude, build, create_namespaces, build_up, create_bridges,
  create_veths, configure_nodes, verify, commit_deployment, conclude,
}
use nslab.Lifecycle.Destroy.{
  destroy_existing, destroy_locked, redeploy_locked, tear_down, cleanup_routing, cleanup_namespaces,
}
use nslab.Lifecycle.Guards.{outcome}
use nslab.Lifecycle.Trace.{traced, deleted, note, created}
use nslab.Lifecycle.Owned.{DeletesOwn, deploy_locked-DeletesOwn}
use nslab.Lifecycle.Forgets.{ForgetsAbsent, LastAbsent}
use nslab.Lifecycle.Forgets.Runs.{deploy_locked-ForgetsAbsent, destroy_existing-ForgetsAbsent}
use nslab.Lifecycle.Forgets.Cleared.{Cleared}
use nslab.Lifecycle.Deployed.{Committed, deploy_locked-Committed}
use nslab.Lifecycle.Destroyed.{destroy_existing-Cleared}
use nslab.Lifecycle.Quiet.{Quiet, Refused, deploy_locked-Quiet, interrupted-Refusal}
use nslab.Tests.Simulation.{lab, services, empty_world, deployed_world, interrupted_world, snapshot}

-- A deployment whose configuration fails is rolled back.
deploy_locked-DeletesOwn_example :
    DeletesOwn (deploy_locked (traced (services true)) lab tt (empty_world, [])).1.1
deploy_locked-DeletesOwn_example = deploy_locked-DeletesOwn (services true) lab tt empty_world

deploy_locked-ForgetsAbsent_example :
    ForgetsAbsent lab (deploy_locked (traced (services true)) lab tt (empty_world, [])).1.1
deploy_locked-ForgetsAbsent_example = deploy_locked-ForgetsAbsent (services true) lab tt empty_world

destroy_existing-ForgetsAbsent_example :
    ForgetsAbsent lab
      (destroy_existing
        (traced (services false))
        "lab"
        (snapshot deployed)
        (deployed_world, [])).1.1
destroy_existing-ForgetsAbsent_example =
    destroy_existing-ForgetsAbsent (services false) lab "lab" (snapshot deployed) deployed_world
      refl

-- The deployment of the example succeeds.
lab_deployed :
    (deploy_locked (traced (services false)) lab tt (empty_world, [])).0
    ≡ ok (outcome "deploy" "lab" true "deployed" "deployed topology: lab")
unfolding deploy_locked validate_plan_manifest plan_beq node_beq same NodeKind-discrete links_beq
    deploy_validated deploy_new snapshot_for_plan interface_ownership save_initial_transition
    build_and_conclude build create_namespaces build_up create_bridges create_veths configure_nodes
    start_routing verify inventory_is_absent node_is_absent inventory_matches_plan nodes_match
    node_matches contents_match expected_interfaces expected_routes interfaces_match
    interface_matches routes_match RoutePlan-discrete neighbors_match declared_sysctls_match
    links_match observed_veths veths_of match_links routing_ready commit_deployment conclude traced
    note try_except Exec.◌>>=◌ node_interface_addresses qdisc_matches discrete_of link_ends
lab_deployed = refl

deploy_locked-Committed_example :
    Committed
      (services false).red
      lab
      (deploy_locked (traced (services false)) lab tt (empty_world, [])).1.1
deploy_locked-Committed_example =
    deploy_locked-Committed (services false) lab tt empty_world
      (outcome "deploy" "lab" true "deployed" "deployed topology: lab") lab_deployed refl

-- The removal of the example succeeds.
lab_destroyed :
    (destroy_existing (traced (services false)) "lab" (snapshot deployed) (deployed_world, [])).0
    ≡ ok (outcome "destroy" "lab" true "absent" "destroyed topology: lab")
unfolding destroy_existing save_initial_transition tear_down cleanup_routing cleanup_namespaces
    inventory_is_absent node_is_absent delete_final_state traced note try_except Exec.◌>>=◌
lab_destroyed = refl

destroy_existing-Cleared_example :
    Cleared lab
      (destroy_existing
        (traced (services false))
        "lab"
        (snapshot deployed)
        (deployed_world, [])).1.1
    × All
        (λ n.
          In
            (deleted n)
            (destroy_existing
              (traced (services false))
              "lab"
              (snapshot deployed)
              (deployed_world, [])).1.1)
        ("lab-h1" ∷ [])
destroy_existing-Cleared_example =
    destroy_existing-Cleared (services false) lab "lab" (snapshot deployed) deployed_world
      (outcome "destroy" "lab" true "absent" "destroyed topology: lab") refl lab_destroyed

deploy_locked-Quiet_example :
    Quiet (deploy_locked (traced (services false)) lab tt (deployed_world, [])).1.1
deploy_locked-Quiet_example =
    deploy_locked-Quiet (services false) lab tt deployed_world (snapshot deployed) refl

is_interrupted : (snapshot deploying).status ≡ deployed → ⊥
is_interrupted q = cc

interrupted-Refusal_example :
    Refused (deploy_locked (traced (services false)) lab tt (interrupted_world, []))
    × Refused (destroy_locked (traced (services false)) (some lab) "lab" (interrupted_world, []))
    × Refused (redeploy_locked (traced (services false)) lab tt (interrupted_world, []))
interrupted-Refusal_example =
    interrupted-Refusal (services false) lab tt interrupted_world (snapshot deploying) refl
      is_interrupted

abbrev failure : Error
failure = exception "OSError" "no device" []

-- The failure after its rollback.
abbrev rolled_back : Error
rolled_back = exception "OSError" "no device" (
    ("rollback", arr (to_items (result_entry "lab-h1" "deleted" ∷ [])))
    ∷ ("rollback_complete", bool true)
    ∷ [])

rollback_returns :
    (rollback_and_attach
      (traced (services false))
      failure
      lab
      ("lab-h1" ∷ [])
      (snapshot deploying)
      (interrupted_world, [])).0
    ≡ ok rolled_back
unfolding rollback_and_attach rollback_namespaces stop_routing inventory_is_absent node_is_absent
    remove_rollback_state remove_own snapshot_beq traced note try_except Exec.◌>>=◌
rollback_returns = refl

rollback_complete_lem_example :
    LastAbsent lab
      (rollback_and_attach
        (traced (services false))
        failure
        lab
        ("lab-h1" ∷ [])
        (snapshot deploying)
        (interrupted_world, [])).1.1
rollback_complete_lem_example =
    rollback_complete_lem (services false) lab failure ("lab-h1" ∷ []) (snapshot deploying)
      interrupted_world rolled_back rollback_returns refl

-- The build of the example fails where the configuration does.
build_fails : (build (traced (services true)) lab (empty_world, [])).0.0 ≡ err failure
unfolding build create_namespaces build_up create_bridges create_veths configure_nodes traced note
    Exec.◌>>=◌
build_fails = refl

creation_returned :
    In
      (created "lab-h1")
      (build_and_conclude
        (traced (services true))
        lab
        tt
        ""
        (snapshot deploying)
        (empty_world, [])).1.1
unfolding build_and_conclude build create_namespaces build_up create_bridges create_veths
    configure_nodes conclude rollback_and_attach rollback_namespaces stop_routing
    inventory_is_absent node_is_absent remove_rollback_state traced note try_except Exec.◌>>=◌
creation_returned = inr (inr (inr (inr (inl refl))))

build_and_conclude-Undone_example :
    In
      (deleted "lab-h1")
      (build_and_conclude
        (traced (services true))
        lab
        tt
        ""
        (snapshot deploying)
        (empty_world, [])).1.1
build_and_conclude-Undone_example =
    build_and_conclude-Undone (services true) lab tt "" (snapshot deploying) empty_world failure
      "lab-h1" build_fails creation_returned
