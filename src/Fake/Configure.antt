-- ===== src/Fake/Configure.antt =====
-- backend/fake.py, `configure_node`: the devices of a node, one class after the other, and the controls of
-- its interfaces. The new interfaces are a copy until the end; only the counter of indices moves before.
use nslab.Base.{String, true, none, some, List, [], ◌∷◌, ◌==◌, string_eq, if◌then◌else◌}
use nslab.Base.Dict.{Dict, lookup, insert, values}
use nslab.Base.Int.{pos}
use nslab.Error.{exception, ◌>>=◌ as ◌then◌}
use nslab.Exec.{Exec, pure, raise, lift, given, ◌>>=◌, ◌>>◌}
use nslab.Plan.Types.{
  NodePlan, NodeKind, linux, bridge, LinkPlan, EndpointPlan, TopologyPlan, DevicePlan, vrf,
}
use nslab.Plan.Interfaces.{node_interface_master}
use nslab.Inventory.Types.{InterfaceInventory}
use nslab.Inventory.Expected.{expected_routes, addresses_of}
use nslab.Fake.State.{FakeNetworkBackend, write, record_call, require_namespace}
use nslab.Fake.Devices.{
  Interfaces, missing, with_ports, add_vxlan, add_dummy, add_gre, add_ipip, add_geneve, add_macvlan,
  add_ipvlan, add_bond, add_vrf, add_vlan,
}

-- A pass of `for device in node.devices.values()`.
unfoldable pub each_device :
    (DevicePlan → Interfaces → Exec FakeNetworkBackend Interfaces)
    → List DevicePlan
    → Interfaces
    → Exec FakeNetworkBackend Interfaces
each_device step [] interfaces = pure interfaces
each_device step (d ∷ ds) interfaces = step d interfaces >>= each_device step ds

-- `interfaces[name] = replace(interfaces[name], ...)`, and the error of a name that is not there
unfoldable pub replace_interface :
    String
    → String
    → (InterfaceInventory → InterfaceInventory)
    → Interfaces
    → Exec FakeNetworkBackend Interfaces
replace_interface resource name f interfaces =
    given (lookup name interfaces) (missing resource name) λ i. pure (insert name (f i) interfaces)

unfoldable pub enslave :
    String → String → List String → Interfaces → Exec FakeNetworkBackend Interfaces
enslave resource master [] interfaces = pure interfaces
enslave resource master (member ∷ members) interfaces =
    replace_interface resource member (λ i. record i { master = some master }) interfaces
    >>= enslave resource master members

abbrev pub enslave_members : NodePlan → DevicePlan → Interfaces → Exec FakeNetworkBackend Interfaces
enslave_members node (vrf d) = enslave node.namespace d.name d.interfaces
enslave_members node _ = pure

abbrev pub configured_end : NodePlan → LinkPlan → String → InterfaceInventory → InterfaceInventory
configured_end node l name i =
    let ported = with_ports node name i in
    record ported {
      master = node_interface_master node name;
      mtu = pos l.mtu;
      up = true;
      addresses = addresses_of name node;
      netem = l.netem;
      qdisc = l.qdisc;
    }

unfoldable pub configure_end :
    NodePlan → LinkPlan → EndpointPlan → Interfaces → Exec FakeNetworkBackend Interfaces
configure_end node l endpoint interfaces =
    if endpoint.namespace == node.namespace
    then replace_interface node.namespace endpoint.interface
        (configured_end node l endpoint.interface) interfaces
    else pure interfaces

unfoldable pub configure_links :
    NodePlan → List LinkPlan → Interfaces → Exec FakeNetworkBackend Interfaces
configure_links node [] interfaces = pure interfaces
configure_links node (l ∷ ls) interfaces =
    configure_end node l l.left interfaces
    >>= configure_end node l l.right
    >>= configure_links node ls

unfoldable pub set_macs : String → Dict String → Interfaces → Exec FakeNetworkBackend Interfaces
set_macs resource [] interfaces = pure interfaces
set_macs resource ((name, mac) ∷ rest) interfaces =
    replace_interface resource name (λ i. record i { mac = some mac }) interfaces
    >>= set_macs resource rest

abbrev pub configured_bridge : NodePlan → String → InterfaceInventory → InterfaceInventory
configured_bridge node name i = record i {
  master = none;
  up = true;
  addresses = addresses_of name node;
  stp = node.stp;
  vlan_filtering = node.vlan_filtering;
  bridge_priority = node.bridge_priority;
}

unfoldable pub configure_bridge :
    NodePlan → NodeKind → Interfaces → Exec FakeNetworkBackend Interfaces
configure_bridge node linux interfaces = pure interfaces
configure_bridge node bridge interfaces =
    given node.bridge_name (raise (exception "AssertionError" "" []))
      λ name. replace_interface node.namespace name (configured_bridge node name) interfaces

unfoldable pub configure_devices :
    NodePlan → TopologyPlan → List DevicePlan → Interfaces → Exec FakeNetworkBackend Interfaces
configure_devices node plan devices interfaces =
    each_device (add_vxlan node plan) devices interfaces
    >>= each_device (add_dummy node plan) devices
    >>= each_device (add_gre node plan) devices
    >>= each_device (add_ipip node plan) devices
    >>= each_device (add_geneve node plan) devices
    >>= each_device (add_macvlan node plan) devices
    >>= each_device (add_ipvlan node plan) devices
    >>= each_device (add_bond node plan) devices
    >>= each_device (add_vrf node plan) devices
    >>= each_device (add_vlan node plan) devices
    >>= each_device (enslave_members node) devices

unfoldable pub configured :
    NodePlan → TopologyPlan → Interfaces → Exec FakeNetworkBackend Interfaces
configured node plan interfaces =
    replace_interface node.namespace "lo" (λ i. record i { up = true }) interfaces
    >>= configure_bridge node node.kind
    >>= configure_devices node plan (values node.devices)
    >>= configure_links node plan.links
    >>= set_macs node.namespace node.mac_addresses

unfoldable pub configure_node : NodePlan → TopologyPlan → Exec FakeNetworkBackend Unit
configure_node node plan = do
  record_call "configure_node" node.namespace
  state ← require_namespace node.namespace "configure_node" node.namespace
  interfaces ← configured node plan state.interfaces
  write (λ b. record b {
    namespaces = insert node.namespace (record state { interfaces = interfaces }) b.namespaces;
  })
  routes ← lift (expected_routes node)
  write (λ b. record b {
    namespaces =
        insert node.namespace
          (record state {
            interfaces = interfaces;
            routes = routes;
            sysctls = node.sysctls;
            rules = node.rules;
            neighbors = node.neighbors;
          })
          b.namespaces;
  })
