-- ===== src/Fake.antt =====
-- backend/fake.py: the backend in memory. A dictionary with pairs as keys is a list of entries, in the order
-- of insertion; `routing_deployments` is a set of names, as a list. This file has the state and the
-- operations but `configure_node`, which is in Devices and Configure.
pub mod State
pub mod Devices
pub mod Configure
pub mod Paired
pub mod Kept
pub mod Pairs
pub mod Veths
pub mod Configured
pub mod Unlinked
pub mod Dropped
pub mod Removal
pub mod Calls
pub mod Service
pub mod Observed
use nslab.Base.{
  ℕ, suc, ◌+◌, String, Bool, true, false, not, ◌&&◌, ◌||◌, Option, none, some, List, [], ◌∷◌, ◌++◌,
  map, filter, any, contains, ◌==◌, nat_eq, string_eq, option_eq, if◌then◌else◌, ◌<>◌,
}
use nslab.Base.Dict.{Dict, lookup, insert, erase, has_key, values}
use nslab.Base.Int.{pos}
use nslab.Json.{str}
use nslab.Error.{Error, nslab_error, exception, Result, ok, err}
use nslab.Exec.{Exec, pure, raise, lift, given, ◌>>=◌, ◌>>◌}
use nslab.Plan.Types.{
  NodePlan, NodeKind, linux, bridge, LinkPlan, EndpointPlan, TopologyPlan, RoutePlan, NeighborPlan,
  NetemPlan, QdiscPlan, route_interfaces,
}
use nslab.Inventory.Types.{
  InterfaceInventory, NamespaceInventory, LiveInventory, ExecResult, observed_interface,
}
use nslab.Inventory.Expected.{expected_routes, loopback_address}
use nslab.Tc.Decimal.{print_before}
use nslab.Fake.State.{
  FakeNamespaceState, FakeNetworkBackend, EndpointKey, key_beq, peer_of, set_peer, drop_peer, read,
  write, record_call, allocate_ifindex, require_namespace, resource_error, insert_interface,
}

abbrev pub bridge_resource : NodePlan → String
bridge_resource node = elim node.bridge_name [
  | none ↦ node.namespace
  | some name ↦ node.namespace <> ":" <> name
]

abbrev pub link_resource : LinkPlan → String
link_resource l = l.left.temporary_name <> "<->" <> l.right.temporary_name

-- `routes[:1]`
abbrev first_of : List RoutePlan → List RoutePlan
first_of [] = []
first_of (r ∷ rs) = r ∷ []

abbrev pub new_namespace : NodePlan → ℕ → List RoutePlan → FakeNamespaceState
new_namespace node ifindex routes = record {
  node = node.name;
  kind = node.kind;
  namespace = node.namespace;
  interfaces =
      (
        "lo",
        record (observed_interface "lo" "loopback" (some ifindex) (pos 65536) true) {
          addresses = loopback_address ∷ [];
        },
      )
      ∷ [];
  routes = first_of routes;
  sysctls = [];
  rules = [];
  neighbors = [];
}

abbrev pub add_namespace : NodePlan → Exec FakeNetworkBackend Unit
add_namespace node = do
  write (λ b. record b { next_ifindex = insert node.namespace 1 b.next_ifindex })
  ifindex ← allocate_ifindex node.namespace
  routes ← lift (expected_routes node)
  write (λ b. record b {
    namespaces = insert node.namespace (new_namespace node ifindex routes) b.namespaces;
  })

unfoldable pub create_namespace : NodePlan → Exec FakeNetworkBackend Unit
create_namespace node = do
  record_call "create_namespace" node.namespace
  there ← read (λ b. has_key node.namespace b.namespaces)
  if there
      then raise (resource_error "RESOURCE_EXISTS" "create_namespace" node.namespace)
      else add_namespace node

-- `peer[1] not in route_interfaces(route)`, for each route
abbrev pub routes_without : String → List RoutePlan → Result (List RoutePlan)
routes_without name [] = ok []
routes_without name (r ∷ rs) = elim (route_interfaces r) [
  | none ↦ err (exception "AssertionError" "" [])
  | some devices ↦ elim (routes_without name rs) [
    | err x ↦ err x
    | ok rest ↦ ok (if contains devices name then rest else r ∷ rest)
  ]
]

abbrev pub set_namespace : String → FakeNamespaceState → FakeNetworkBackend → FakeNetworkBackend
set_namespace name s b = record b { namespaces = insert name s b.namespaces }

-- What a namespace loses with the end of a veth pair; the interface goes before the routes are read.
abbrev pub lose_end : EndpointKey → FakeNamespaceState → Exec FakeNetworkBackend Unit
lose_end peer s =
    let left = record s { interfaces = erase peer.1 s.interfaces } in
    do
      write (set_namespace peer.0 left)
      routes ← lift (routes_without peer.1 s.routes)
      write (
          set_namespace peer.0 (record left {
            routes = routes;
            neighbors = filter (λ n. not (n.dev == peer.1)) s.neighbors;
          }))

abbrev pub drop_end : EndpointKey → Exec FakeNetworkBackend Unit
drop_end peer = do
  write (λ b. record b { veth_peers = drop_peer peer b.veth_peers })
  state ← read (λ b. lookup peer.0 b.namespaces)
  given state (pure tt) (lose_end peer)

unfoldable pub drop_endpoint : EndpointKey → Exec FakeNetworkBackend Unit
drop_endpoint endpoint = do
  peer ← read (λ b. peer_of endpoint b.veth_peers)
  write (λ b. record b { veth_peers = drop_peer endpoint b.veth_peers })
  given peer (pure tt) drop_end

unfoldable pub drop_endpoints : List EndpointKey → Exec FakeNetworkBackend Unit
drop_endpoints [] = pure tt
drop_endpoints (e ∷ es) = let rest = drop_endpoints es in do drop_endpoint e; rest

unfoldable pub delete_namespace : String → Exec FakeNetworkBackend Unit
delete_namespace namespace = do
  record_call "delete_namespace" namespace
  endpoints ← read (λ b. filter (λ e. e.0 == namespace) (map (λ (e, _). e) b.veth_peers))
  drop_endpoints endpoints
  write (λ b. record b {
    namespaces = erase namespace b.namespaces;
    next_ifindex = erase namespace b.next_ifindex;
  })

abbrev pub insert_bridge : NodePlan → String → Exec FakeNetworkBackend Unit
insert_bridge node name = do
  ifindex ← allocate_ifindex node.namespace
  insert_interface node.namespace
      (record (observed_interface name "bridge" (some ifindex) (pos 1500) false) {
        stp = node.stp;
        vlan_filtering = node.vlan_filtering;
        bridge_priority = node.bridge_priority;
      })

abbrev pub bridge_required : NodePlan → Error
bridge_required node =
    nslab_error "BACKEND_FAILURE" ("bridge operation requires a bridge node: " <> node.name)
      (("operation", str "create_bridge") ∷ ("resource", str (bridge_resource node)) ∷ [])

abbrev pub named_bridge : NodeKind → Option String → Option String
named_bridge linux name = none
named_bridge bridge name = name

unfoldable pub create_bridge : NodePlan → Exec FakeNetworkBackend Unit
create_bridge node = do
  record_call "create_bridge" (bridge_resource node)
  state ← require_namespace node.namespace "create_bridge" (bridge_resource node)
  given (named_bridge node.kind node.bridge_name) (raise (bridge_required node)) λ name.
      if has_key name state.interfaces
      then raise (resource_error "RESOURCE_EXISTS" "create_bridge" (bridge_resource node))
      else insert_bridge node name

abbrev pub insert_veth_endpoint : LinkPlan → String → EndpointPlan → Exec FakeNetworkBackend Unit
insert_veth_endpoint l link_id endpoint = do
  ifindex ← allocate_ifindex endpoint.namespace
  insert_interface endpoint.namespace
      (record (observed_interface endpoint.interface "veth" (some ifindex) (pos l.mtu) false) {
        netem = l.netem;
        qdisc = l.qdisc;
        link_id = some link_id;
      })

abbrev pub key_of : EndpointPlan → EndpointKey
key_of e = (e.namespace, e.interface)

abbrev pub connect : LinkPlan → Exec FakeNetworkBackend Unit
connect l = do
  number ← read (λ b. b.next_link_id)
  write (λ b. record b { next_link_id = suc b.next_link_id })
  insert_veth_endpoint l ("fake-link-" <> print_before number "") l.left
  insert_veth_endpoint l ("fake-link-" <> print_before number "") l.right
  write (λ b. record b {
    veth_peers =
        set_peer (key_of l.right) (key_of l.left)
          (set_peer (key_of l.left) (key_of l.right) b.veth_peers);
  })

unfoldable pub create_veth : LinkPlan → Exec FakeNetworkBackend Unit
create_veth l = do
  record_call "create_veth" (link_resource l)
  left ← require_namespace l.left.namespace "create_veth" (link_resource l)
  right ← require_namespace l.right.namespace "create_veth" (link_resource l)
  if has_key l.left.interface left.interfaces || has_key l.right.interface right.interfaces
      then raise (resource_error "RESOURCE_EXISTS" "create_veth" (link_resource l))
      else connect l

abbrev has_routing_plan : List NodePlan → Bool
has_routing_plan = any λ node. elim node.routing [ none ↦ false | some r ↦ true ]

unfoldable pub start_routing : TopologyPlan → Exec FakeNetworkBackend Unit
start_routing plan =
    if has_routing_plan (values plan.nodes)
    then (do
      record_call "start_routing" plan.name
      write (λ b. record b {
        routing_deployments =
            if contains b.routing_deployments plan.name
            then b.routing_deployments
            else plan.name ∷ b.routing_deployments;
      }))
    else pure tt

unfoldable pub stop_routing : TopologyPlan → Exec FakeNetworkBackend Unit
stop_routing plan =
    if has_routing_plan (values plan.nodes)
    then (do
      record_call "stop_routing" plan.name
      write (λ b. record b {
        routing_deployments = filter (λ name. not (name == plan.name)) b.routing_deployments;
      }))
    else pure tt

unfoldable pub routing_ready : TopologyPlan → Exec FakeNetworkBackend Bool
routing_ready plan =
    if has_routing_plan (values plan.nodes)
    then read (λ b. contains b.routing_deployments plan.name)
    else pure true

abbrev namespace_inventory : NodePlan → Option FakeNamespaceState → NamespaceInventory
namespace_inventory node none = record {
  node = node.name;
  kind = node.kind;
  namespace = node.namespace;
  exists = false;
  interfaces = [];
  routes = [];
  sysctls = [];
  rules = [];
  neighbors = [];
}
namespace_inventory node (some s) = record {
  node = s.node;
  kind = s.kind;
  namespace = s.namespace;
  exists = true;
  interfaces = s.interfaces;
  routes = s.routes;
  sysctls = s.sysctls;
  rules = s.rules;
  neighbors = s.neighbors;
}

abbrev pub observed :
    List NodePlan → Dict FakeNamespaceState → Dict NamespaceInventory → Dict NamespaceInventory
observed [] namespaces seen = seen
observed (node ∷ nodes) namespaces seen =
    observed nodes namespaces
      (insert node.namespace (namespace_inventory node (lookup node.namespace namespaces)) seen)

unfoldable pub inventory : TopologyPlan → Exec FakeNetworkBackend LiveInventory
inventory plan = do
  record_call "inventory" plan.name
  read (λ b. record {
    namespaces = observed (values plan.nodes) b.namespaces [];
    root_interfaces = b.root_interfaces;
  })

abbrev executed : List String → Bool → Option ExecResult → ExecResult
executed argv capture_output none = record {
  argv = argv;
  returncode = pos 0;
  stdout = "";
  stderr = "";
}
executed argv capture_output (some r) = record {
  argv = argv;
  returncode = r.returncode;
  stdout = if capture_output then r.stdout else "";
  stderr = if capture_output then r.stderr else "";
}

unfoldable pub execute : String → List String → Bool → Exec FakeNetworkBackend ExecResult
execute namespace argv capture_output = do
  record_call "execute" namespace
  require_namespace namespace "execute" namespace
  write (λ b. record b {
    execute_requests = b.execute_requests ++ (namespace, argv, capture_output) ∷ [];
  })
  read (λ b. executed argv capture_output b.execute_result)
