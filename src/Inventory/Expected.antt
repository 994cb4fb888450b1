-- ===== src/Inventory/Expected.antt =====
-- backend/base.py: the interfaces and routes that a plan expects in the namespace of a node.
use nslab.Base.{
  ℕ, String, Bool, true, false, not, ◌||◌, Option, none, some, List, [], ◌∷◌, ◌++◌, map, ◌==◌,
  nat_eq, string_eq, option_eq, contains, if◌then◌else◌,
}
use nslab.Base.Dict.{Dict, lookup, insert, values}
use nslab.Base.Int.{pos}
use nslab.Error.{Result, ok, err, exception, ◌>>=◌}
use nslab.Plan.Address.{IpInterface, ipv4, network}
use nslab.Plan.Types.{
  NodePlan, EndpointPlan, LinkPlan, TopologyPlan, RoutePlan, BridgeVlanPlan, BridgePortPlan,
  DevicePlan, NodeKind, linux, bridge, vlan, vrf, bond, gre, ipip, vxlan, dummy, geneve, macvlan,
  ipvlan,
}
use nslab.Plan.Mtu.{
  bond_device_mtu, vxlan_device_mtu, dummy_device_mtu, geneve_device_mtu, gre_device_mtu,
  ipip_device_mtu, macvlan_device_mtu, ipvlan_device_mtu,
}
use nslab.Plan.Interfaces.{
  main_route_table, device_name, node_interface_addresses, node_interface_master,
  node_interface_route_table,
}
use nslab.Inventory.Types.{ExpectedInterface, expected_interface}
use nslab.Inventory.Equality.{route_eq}

-- `not value` of an optional flag
abbrev unset : Option Bool → Bool
unset none = true
unset (some b) = not b

abbrev default_vlan : List BridgeVlanPlan
default_vlan = record { vid = 1; pvid = true; untagged = true } ∷ []

abbrev port_vlans : Option BridgePortPlan → List BridgeVlanPlan
port_vlans none = default_vlan
port_vlans (some port) = elim port.vlans [ [] ↦ default_vlan | v ∷ vs ↦ v ∷ vs ]

abbrev is_bridge : NodeKind → Bool
is_bridge linux = false
is_bridge bridge = true

unfoldable pub expected_bridge_port_vlans : NodePlan → String → List BridgeVlanPlan
expected_bridge_port_vlans node interface =
    if not (is_bridge node.kind)
      || unset node.vlan_filtering
      || not (node_interface_master node interface == node.bridge_name)
    then []
    else port_vlans (lookup interface node.bridge_ports)

-- The connected route of one address.
abbrev connected_route : String → ℕ → IpInterface → RoutePlan
connected_route interface table address = record {
  dst = network address;
  via = none;
  dev = some interface;
  table = table;
  nexthops = [];
}

abbrev connected_routes : NodePlan → String → List IpInterface → Result (List RoutePlan)
connected_routes node interface [] = ok []
connected_routes node interface (a ∷ as') = do
  table ← node_interface_route_table node interface
  rest ← connected_routes node interface as'
  ok (connected_route interface table a ∷ rest)

abbrev all_connected : NodePlan → Dict (List IpInterface) → Result (List RoutePlan)
all_connected node [] = ok []
all_connected node ((interface, addresses) ∷ more) = do
  here ← connected_routes node interface addresses
  rest ← all_connected node more
  ok (here ++ rest)

-- 127.0.0.0/8 on `lo`
abbrev pub loopback_route : RoutePlan
loopback_route = record {
  dst = record { network_address = ipv4 2130706432; prefixlen = 8 };
  via = none;
  dev = some "lo";
  table = main_route_table;
  nexthops = [];
}

-- `dict.fromkeys` on routes
abbrev pub distinct_routes : List RoutePlan → List RoutePlan → List RoutePlan
distinct_routes seen [] = []
distinct_routes seen (r ∷ rs) =
    let kept = distinct_routes (r ∷ seen) rs in
    let skipped = distinct_routes seen rs in if contains seen r then skipped else r ∷ kept

unfoldable pub expected_routes : NodePlan → Result (List RoutePlan)
expected_routes node = do
  connected ← all_connected node (node_interface_addresses node)
  ok (distinct_routes [] (loopback_route ∷ (connected ++ node.routes)))

-- `d.get(k, ())`
abbrev pub addresses_of : String → NodePlan → List IpInterface
addresses_of name node = elim (lookup name node.interfaces) [ none ↦ [] | some a ↦ a ]

-- The bridge port controls of an interface.
abbrev with_port : Option BridgePortPlan → ExpectedInterface → ExpectedInterface
with_port none e = e
with_port (some port) e = record e {
  path_cost = port.path_cost;
  port_priority = port.priority;
  hairpin = port.hairpin;
  isolated = port.isolated;
  learning = port.learning;
  flood = port.flood;
  multicast_flood = port.multicast_flood;
}

abbrev with_controls : NodePlan → String → ExpectedInterface → ExpectedInterface
with_controls node name e =
    let controlled = with_port (lookup name node.bridge_ports) e in
    record controlled { bridge_vlans = expected_bridge_port_vlans node name }

abbrev expect_endpoint :
    NodePlan → LinkPlan → EndpointPlan → Dict ExpectedInterface → Dict ExpectedInterface
expect_endpoint node link endpoint expected =
    if endpoint.namespace == node.namespace
    then insert endpoint.interface
        (with_controls node endpoint.interface (
          let e =
            expected_interface "veth" (node_interface_master node endpoint.interface)
              (some (pos link.mtu)) (addresses_of endpoint.interface node) in
          record e { netem = link.netem; qdisc = link.qdisc }))
        expected
    else expected

abbrev expect_links : NodePlan → List LinkPlan → Dict ExpectedInterface → Dict ExpectedInterface
expect_links node [] expected = expected
expect_links node (l ∷ ls) expected =
    expect_links node ls (expect_endpoint node l l.right (expect_endpoint node l l.left expected))

-- The branch of the loop for the class of the device.
unfoldable pub expect_device : NodePlan → TopologyPlan → DevicePlan → Result ExpectedInterface
expect_device node plan (vlan d) =
    let e = expected_interface "vlan" (node_interface_master node d.name) none d.addresses in
    ok (record e { parent = some d.link; vlan_id = some d.vlan_id })
expect_device node plan (vrf d) =
    let e = expected_interface "vrf" none none [] in ok (record e { vrf_table = some d.table })
expect_device node plan (bond d) = do
  mtu ← bond_device_mtu node plan d
  let e = expected_interface "bond" (node_interface_master node d.name) (some (pos mtu)) d.addresses
  ok (record e {
    bond_mode = some d.mode;
    bond_miimon_ms = some d.miimon_ms;
    bond_primary = d.primary;
    bond_lacp_rate = d.lacp_rate;
    bond_xmit_hash_policy = d.xmit_hash_policy;
    bond_min_links = d.min_links;
  })
expect_device node plan (gre d) = do
  mtu ← gre_device_mtu node plan d
  let e = expected_interface "gre" (node_interface_master node d.name) (some mtu) d.addresses
  ok (record e {
    gre_link = some d.link;
    gre_local = some d.local;
    gre_remote = some d.remote;
    gre_key = d.key;
    gre_ttl = some d.ttl;
  })
expect_device node plan (ipip d) = do
  mtu ← ipip_device_mtu node plan d
  let e = expected_interface "ipip" (node_interface_master node d.name) (some mtu) d.addresses
  ok (record e {
    ipip_link = some d.link;
    ipip_local = some d.local;
    ipip_remote = some d.remote;
    ipip_ttl = some d.ttl;
  })
expect_device node plan (dummy d) = ok (
    expected_interface "dummy" (node_interface_master node d.name) (some (pos (dummy_device_mtu d)))
      d.addresses)
expect_device node plan (geneve d) = do
  mtu ← geneve_device_mtu node plan d
  let e = expected_interface "geneve" (node_interface_master node d.name) (some mtu) d.addresses
  let controlled = with_controls node d.name e
  ok (record controlled {
    geneve_vni = some d.vni;
    geneve_link = some d.link;
    geneve_remote = some d.remote;
    geneve_dst_port = some d.dst_port;
  })
expect_device node plan (macvlan d) = do
  mtu ← macvlan_device_mtu node plan d
  let e = expected_interface "macvlan" (node_interface_master node d.name) (some mtu) d.addresses
  ok (record e { parent = some d.link; macvlan_mode = some d.mode })
expect_device node plan (ipvlan d) = do
  mtu ← ipvlan_device_mtu node plan d
  let e = expected_interface "ipvlan" (node_interface_master node d.name) (some mtu) d.addresses
  ok (record e { parent = some d.link; ipvlan_mode = some d.mode })
expect_device node plan (vxlan d) = do
  mtu ← vxlan_device_mtu node plan d
  let e = expected_interface "vxlan" (node_interface_master node d.name) (some mtu) d.addresses
  let controlled = with_controls node d.name e
  ok (record controlled {
    vxlan_vni = some d.vni;
    vxlan_link = some d.link;
    vxlan_local = some d.local;
    vxlan_remote = some d.remote;
    vxlan_dst_port = some d.dst_port;
    vxlan_learning = some d.learning;
  })

abbrev expect_devices :
    NodePlan
    → TopologyPlan
    → List DevicePlan
    → Dict ExpectedInterface
    → Result (Dict ExpectedInterface)
expect_devices node plan [] expected = ok expected
expect_devices node plan (d ∷ ds) expected = do
  e ← expect_device node plan d
  expect_devices node plan ds (insert (device_name d) e expected)

-- 127.0.0.1/8
abbrev pub loopback_address : IpInterface
loopback_address = record { ip = ipv4 2130706433; prefixlen = 8 }

-- `assert node.bridge_name is not None`
abbrev expect_bridge :
    NodePlan → Option String → Dict ExpectedInterface → Result (Dict ExpectedInterface)
expect_bridge node none expected = err (exception "AssertionError" "" [])
expect_bridge node (some name) expected =
    let e = expected_interface "bridge" none none (addresses_of name node) in
    ok (
      insert name
        (record e {
          stp = node.stp;
          vlan_filtering = node.vlan_filtering;
          bridge_priority = node.bridge_priority;
        })
        expected)

abbrev expect_kind : NodePlan → NodeKind → Dict ExpectedInterface → Result (Dict ExpectedInterface)
expect_kind node linux expected = ok expected
expect_kind node bridge expected = expect_bridge node node.bridge_name expected

abbrev with_mac : NodePlan → String × ExpectedInterface → String × ExpectedInterface
with_mac node (name, e) = (name, record e { mac = lookup name node.mac_addresses })

unfoldable pub expected_interfaces : NodePlan → TopologyPlan → Result (Dict ExpectedInterface)
expected_interfaces node plan = do
  based ←
      expect_kind node node.kind
        (("lo", expected_interface "loopback" none none (loopback_address ∷ [])) ∷ [])
  complete ← expect_devices node plan (values node.devices) (expect_links node plan.links based)
  ok (map (with_mac node) complete)
