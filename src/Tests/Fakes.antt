-- ===== src/Tests/Fakes.antt =====
-- The theorems on the backend in memory, at a pair of veth ends between two namespaces.
use nslab.Error.{ok}
use nslab.Base.{true, false, ◌≡◌, refl, none, some, List, [], ◌∷◌}
use nslab.Exec.{◌>>=◌, try_except}
use nslab.Exec.Hoare.{OnOk}
use nslab.Plan.Types.{NodePlan, LinkPlan}
use nslab.Plan.Interfaces.{node_interface_addresses}
use nslab.Inventory.Expected.{expected_interfaces, expected_routes}
use nslab.Inventory.Types.{LiveInventory}
use nslab.Fake.Observed.{Vacant, inventory-IsAbsent}
use nslab.Base.Dict.{has_key, values}
use nslab.Base.{All}
use nslab.Fake.{
  create_namespace, delete_namespace, create_veth, drop_endpoint, drop_endpoints, inventory,
  observed,
}
use nslab.Fake.State.{
  FakeNetworkBackend, new_backend, read, write, record_call, allocate_ifindex, require_namespace,
  insert_interface, peer_of,
}
use nslab.Fake.Paired.{IsPaired}
use nslab.Fake.Removal.{Gone, delete_namespace-Gone}
use nslab.Fake.Calls.{
  BackendCall, create_namespace_call, create_veth_call, delete_namespace_call, after_calls,
  after_calls-IsPaired,
}
use nslab.Plan.Mtu.{link_ends}
use nslab.Base.Equality.{discrete_of}
use nslab.Inventory.Links.{links_match, observed_veths, veths_of, match_links}
use nslab.Inventory.Equality.{RoutePlan-discrete}
use nslab.Inventory.Match.{
  interfaces_match, interface_matches, routes_match, neighbors_match, declared_sysctls_match,
  qdisc_matches,
}
use nslab.Inventory.Whole.{
  inventory_is_absent, node_is_absent, inventory_matches_plan, nodes_match, node_matches,
  contents_match,
}
use nslab.Lifecycle.Rollback.{start_routing, routing_ready}
use nslab.Lifecycle.Ownership.{interface_ownership}
use nslab.Plan.Equality.{plan_beq, node_beq, same, NodeKind-discrete, links_beq}
use nslab.Lifecycle.Deploy.{
  deploy_locked, validate_plan_manifest, deploy_validated, deploy_new, snapshot_for_plan,
  save_initial_transition, build_and_conclude, build, create_namespaces, build_up, create_bridges,
  create_veths, configure_nodes, verify, commit_deployment, conclude,
}
use nslab.Lifecycle.Guards.{outcome}
use nslab.Fake.Configure.{
  configure_node, configured, configure_devices, each_device, configure_links, set_macs,
  configure_bridge, replace_interface,
}
use nslab.Lifecycle.Destroy.{
  deploy, destroy_existing, destroy_absent, tear_down, cleanup_routing, cleanup_namespaces,
}
use nslab.Lifecycle.Reconcile.{delete_final_state}
use nslab.State.Snapshot.{deployed}
use nslab.Fake.Service.{on_fake, on_backend, on_rest, destroy-Vacant}
use nslab.Tests.Simulation.{World, host, lab, services, empty_world, deployed_world, snapshot}

abbrev other_host : NodePlan
other_host = record host { name = "h2"; namespace = "lab-h2" }

abbrev wire : LinkPlan
wire = record {
  index = 0;
  left = record { node = "h1"; interface = "eth0"; namespace = "lab-h1"; temporary_name = "t0" };
  right = record { node = "h2"; interface = "eth0"; namespace = "lab-h2"; temporary_name = "t1" };
  mtu = 1500;
  netem = none;
  qdisc = none;
}

abbrev setup : List BackendCall
setup = create_namespace_call host ∷ create_namespace_call other_host ∷ create_veth_call wire ∷ []

abbrev with_host : FakeNetworkBackend
with_host = after_calls (create_namespace_call host ∷ []) (new_backend none none)

abbrev wired : FakeNetworkBackend
wired = after_calls setup (new_backend none none)

-- The pair is there, and goes with the namespace of one end.
wire_made : peer_of ("lab-h2", "eth0") wired.veth_peers ≡ some ("lab-h1", "eth0")
unfolding create_namespace create_veth record_call allocate_ifindex require_namespace
    insert_interface read write ◌>>=◌ expected_routes node_interface_addresses
wire_made = refl

after_calls-IsPaired_example : IsPaired (
    after_calls
      (create_namespace_call host
        ∷ create_namespace_call other_host
        ∷ create_veth_call wire
        ∷ delete_namespace_call "lab-h1"
        ∷ [])
      (new_backend (some 4) none))
after_calls-IsPaired_example = after_calls-IsPaired (some 4) none (
    create_namespace_call host
    ∷ create_namespace_call other_host
    ∷ create_veth_call wire
    ∷ delete_namespace_call "lab-h1"
    ∷ [])

wired-IsPaired : IsPaired wired
wired-IsPaired = after_calls-IsPaired none none setup

delete_namespace-Gone_example :
    IsPaired (delete_namespace "lab-h1" wired).1
    × OnOk
        (λ _. Gone "lab-h1" wired)
        (delete_namespace "lab-h1" wired).0
        (delete_namespace "lab-h1" wired).1
delete_namespace-Gone_example = delete_namespace-Gone "lab-h1" wired wired-IsPaired

-- The end in the other namespace is gone too.
wire_gone : (delete_namespace "lab-h1" wired).1.veth_peers ≡ []
unfolding delete_namespace drop_endpoint drop_endpoints create_namespace create_veth record_call
    allocate_ifindex require_namespace insert_interface read write ◌>>=◌ expected_routes
    node_interface_addresses
wire_gone = refl

destroy-Vacant_example :
    OnOk
      (λ _ w. Vacant lab w.0)
      (destroy_existing
        (on_fake (services false))
        "lab"
        (snapshot deployed)
        (with_host, deployed_world)).0
      (destroy_existing
        (on_fake (services false))
        "lab"
        (snapshot deployed)
        (with_host, deployed_world)).1
    × OnOk
        (λ _ w. Vacant lab w.0)
        (destroy_absent (on_fake (services false)) (some lab) "lab" (with_host, deployed_world)).0
        (destroy_absent (on_fake (services false)) (some lab) "lab" (with_host, deployed_world)).1
destroy-Vacant_example =
    destroy-Vacant (services false) lab "lab" (snapshot deployed) with_host deployed_world refl

-- This removal returns, over a backend that has the namespace.
removal_runs :
    (destroy_existing
      (on_fake (services false))
      "lab"
      (snapshot deployed)
      (with_host, deployed_world)).0
    ≡ ok (outcome "destroy" "lab" true "absent" "destroyed topology: lab")
unfolding destroy_existing tear_down cleanup_routing cleanup_namespaces delete_final_state on_fake
    on_backend on_rest create_namespace delete_namespace drop_endpoints inventory record_call read
    write allocate_ifindex inventory_is_absent node_is_absent save_initial_transition try_except
    ◌>>=◌ expected_routes node_interface_addresses
removal_runs = refl

abbrev lone : FakeNetworkBackend × World
lone = (new_backend none none, empty_world)

-- The example is deployed on this backend.
lab_runs :
    (deploy (on_fake (services false)) lab tt lone).0
    ≡ ok (outcome "deploy" "lab" true "deployed" "deployed topology: lab")
unfolding deploy deploy_locked validate_plan_manifest plan_beq node_beq same NodeKind-discrete
    links_beq deploy_validated deploy_new snapshot_for_plan interface_ownership
    save_initial_transition build_and_conclude build create_namespaces build_up create_bridges
    create_veths configure_nodes start_routing verify inventory_is_absent node_is_absent
    inventory_matches_plan nodes_match node_matches contents_match expected_interfaces
    expected_routes interfaces_match interface_matches routes_match RoutePlan-discrete
    neighbors_match declared_sysctls_match links_match observed_veths veths_of match_links
    routing_ready commit_deployment conclude try_except ◌>>=◌ node_interface_addresses qdisc_matches
    discrete_of link_ends on_fake on_backend on_rest create_namespace configure_node inventory
    record_call require_namespace read write allocate_ifindex configured configure_devices
    each_device configure_links set_macs configure_bridge replace_interface
lab_runs = refl

abbrev vacant : FakeNetworkBackend
vacant = new_backend none none

abbrev seen : LiveInventory
seen = record { namespaces = observed (values lab.nodes) [] []; root_interfaces = [] }

reading_returns : (inventory lab vacant).0 ≡ ok seen
unfolding inventory record_call read write ◌>>=◌
reading_returns = refl

nothing_there : inventory_is_absent lab seen ≡ true
unfolding inventory_is_absent node_is_absent
nothing_there = refl

inventory-IsAbsent_example :
    ((inventory lab vacant).1.root_interfaces ≡ [])
    × All
        (λ node. has_key node.namespace (inventory lab vacant).1.namespaces ≡ false)
        (values lab.nodes)
inventory-IsAbsent_example = inventory-IsAbsent lab vacant seen reading_returns nothing_there
