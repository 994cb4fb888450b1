-- ===== src/Fake/Devices.antt =====
-- backend/fake.py, `configure_node`: one device of a node, of each class.
use nslab.Base.{ℕ, String, true, Option, none, some, List, [], string_eq, if◌then◌else◌, ◌<>◌}
use nslab.Base.Dict.{Dict, lookup, insert, has_key}
use nslab.Base.Int.{ℤ, pos}
use nslab.Error.{exception, Result, ok, err, ◌>>=◌ as ◌then◌}
use nslab.Exec.{Exec, pure, raise, lift, given, ◌>>=◌}
use nslab.Plan.Address.{IpInterface}
use nslab.Plan.Types.{
  NodePlan, TopologyPlan, BridgePortPlan, DevicePlan, vlan, vrf, bond, gre, ipip, vxlan, dummy,
  geneve, macvlan, ipvlan,
}
use nslab.Plan.Mtu.{
  bond_device_mtu, vxlan_device_mtu, dummy_device_mtu, geneve_device_mtu, gre_device_mtu,
  ipip_device_mtu, macvlan_device_mtu, ipvlan_device_mtu,
}
use nslab.Plan.Interfaces.{node_interface_master}
use nslab.Inventory.Types.{InterfaceInventory, observed_interface}
use nslab.Inventory.Expected.{expected_bridge_port_vlans}
use nslab.Fake.State.{FakeNetworkBackend, allocate_ifindex, resource_error}

abbrev pub Interfaces : Type 0
Interfaces = Dict InterfaceInventory

abbrev pub missing : {A : Type 0} → String → String → Exec FakeNetworkBackend A
missing resource name =
    raise (resource_error "RESOURCE_MISSING" "configure_node" (resource <> ":" <> name))

abbrev pub set_ports : Option BridgePortPlan → InterfaceInventory → InterfaceInventory
set_ports none i = record i {
  path_cost = none;
  port_priority = none;
  hairpin = none;
  isolated = none;
  learning = none;
  flood = none;
  multicast_flood = none;
}
set_ports (some port) i = record i {
  path_cost = port.path_cost;
  port_priority = port.priority;
  hairpin = port.hairpin;
  isolated = port.isolated;
  learning = port.learning;
  flood = port.flood;
  multicast_flood = port.multicast_flood;
}

abbrev pub with_ports : NodePlan → String → InterfaceInventory → InterfaceInventory
with_ports node name i =
    let ported = set_ports (lookup name node.bridge_ports) i in
    record ported { bridge_vlans = expected_bridge_port_vlans node name }

-- The keywords that the devices share.
abbrev pub device : NodePlan → String → String → ℕ → ℤ → List IpInterface → InterfaceInventory
device node name kind ifindex mtu addresses =
    record (observed_interface name kind (some ifindex) mtu true) {
      master = node_interface_master node name;
      addresses = addresses;
    }

abbrev pub lacks : Option String → Interfaces → Option String
lacks none interfaces = none
lacks (some link) interfaces = if has_key link interfaces then none else some link

abbrev pub insert_device :
    String
    → String
    → (ℕ → Result InterfaceInventory)
    → Interfaces
    → Exec FakeNetworkBackend Interfaces
insert_device resource name build interfaces =
    if has_key name interfaces
    then raise (resource_error "RESOURCE_EXISTS" "configure_node" (resource <> ":" <> name))
    else (do
      ifindex ← allocate_ifindex resource
      made ← lift (build ifindex)
      pure (insert name made interfaces))

-- The checks before a device is made: the interface under it is there, and its own name is free.
unfoldable pub add_device :
    String
    → Option String
    → String
    → (ℕ → Result InterfaceInventory)
    → Interfaces
    → Exec FakeNetworkBackend Interfaces
add_device resource link name build interfaces =
    given (lacks link interfaces) (insert_device resource name build interfaces) (missing resource)

module _ (node : NodePlan) (plan : TopologyPlan) where
  abbrev pub add_vxlan : DevicePlan → Interfaces → Exec FakeNetworkBackend Interfaces
  add_vxlan (vxlan d) = add_device node.namespace (some d.link) d.name λ ifindex.
      vxlan_device_mtu node plan d then λ mtu.
      ok (record (with_ports node d.name (device node d.name "vxlan" ifindex mtu d.addresses)) {
        vxlan_vni = some d.vni;
        vxlan_link = some d.link;
        vxlan_local = some d.local;
        vxlan_remote = some d.remote;
        vxlan_dst_port = some d.dst_port;
        vxlan_learning = some d.learning;
      })
  add_vxlan _ = pure

  abbrev pub add_dummy : DevicePlan → Interfaces → Exec FakeNetworkBackend Interfaces
  add_dummy (dummy d) =
      add_device node.namespace none d.name
        λ ifindex. ok (device node d.name "dummy" ifindex (pos (dummy_device_mtu d)) d.addresses)
  add_dummy _ = pure

  abbrev pub add_gre : DevicePlan → Interfaces → Exec FakeNetworkBackend Interfaces
  add_gre (gre d) = add_device node.namespace (some d.link) d.name λ ifindex.
      gre_device_mtu node plan d then λ mtu.
      ok (record (device node d.name "gre" ifindex mtu d.addresses) {
        gre_link = some d.link;
        gre_local = some d.local;
        gre_remote = some d.remote;
        gre_key = d.key;
        gre_ttl = some d.ttl;
      })
  add_gre _ = pure

  abbrev pub add_ipip : DevicePlan → Interfaces → Exec FakeNetworkBackend Interfaces
  add_ipip (ipip d) = add_device node.namespace (some d.link) d.name λ ifindex.
      ipip_device_mtu node plan d then λ mtu.
      ok (record (device node d.name "ipip" ifindex mtu d.addresses) {
        ipip_link = some d.link;
        ipip_local = some d.local;
        ipip_remote = some d.remote;
        ipip_ttl = some d.ttl;
      })
  add_ipip _ = pure

  abbrev pub add_geneve : DevicePlan → Interfaces → Exec FakeNetworkBackend Interfaces
  add_geneve (geneve d) = add_device node.namespace (some d.link) d.name λ ifindex.
      geneve_device_mtu node plan d then λ mtu.
      ok (record (with_ports node d.name (device node d.name "geneve" ifindex mtu d.addresses)) {
        geneve_vni = some d.vni;
        geneve_link = some d.link;
        geneve_remote = some d.remote;
        geneve_dst_port = some d.dst_port;
      })
  add_geneve _ = pure

  abbrev pub add_macvlan : DevicePlan → Interfaces → Exec FakeNetworkBackend Interfaces
  add_macvlan (macvlan d) = add_device node.namespace (some d.link) d.name λ ifindex.
      macvlan_device_mtu node plan d then λ mtu.
      ok (record (device node d.name "macvlan" ifindex mtu d.addresses) {
        parent = some d.link;
        macvlan_mode = some d.mode;
      })
  add_macvlan _ = pure

  abbrev pub add_ipvlan : DevicePlan → Interfaces → Exec FakeNetworkBackend Interfaces
  add_ipvlan (ipvlan d) = add_device node.namespace (some d.link) d.name λ ifindex.
      ipvlan_device_mtu node plan d then λ mtu.
      ok (record (device node d.name "ipvlan" ifindex mtu d.addresses) {
        parent = some d.link;
        ipvlan_mode = some d.mode;
      })
  add_ipvlan _ = pure

  abbrev pub add_bond : DevicePlan → Interfaces → Exec FakeNetworkBackend Interfaces
  add_bond (bond d) = add_device node.namespace none d.name λ ifindex.
      bond_device_mtu node plan d then λ mtu.
      ok (record (device node d.name "bond" ifindex (pos mtu) d.addresses) {
        bond_mode = some d.mode;
        bond_miimon_ms = some d.miimon_ms;
        bond_primary = d.primary;
        bond_lacp_rate = d.lacp_rate;
        bond_xmit_hash_policy = d.xmit_hash_policy;
        bond_min_links = d.min_links;
      })
  add_bond _ = pure

  abbrev pub add_vrf : DevicePlan → Interfaces → Exec FakeNetworkBackend Interfaces
  add_vrf (vrf d) = add_device node.namespace none d.name λ ifindex.
      ok (record (observed_interface d.name "vrf" (some ifindex) (pos 65536) true) {
        vrf_table = some d.table;
      })
  add_vrf _ = pure

  -- `parent.mtu`; that the parent is there is checked before.
  abbrev pub vlan_on :
      String
      → String
      → ℕ
      → ℕ
      → List IpInterface
      → Option InterfaceInventory
      → Result InterfaceInventory
  vlan_on link name vlan_id ifindex addresses none = err (exception "KeyError" link [])
  vlan_on link name vlan_id ifindex addresses (some parent) =
      ok (record (device node name "vlan" ifindex parent.mtu addresses) {
        parent = some link;
        vlan_id = some vlan_id;
      })

  abbrev pub add_vlan : DevicePlan → Interfaces → Exec FakeNetworkBackend Interfaces
  add_vlan (vlan d) interfaces =
      add_device node.namespace (some d.link) d.name
        (λ ifindex. vlan_on d.link d.name d.vlan_id ifindex d.addresses (lookup d.link interfaces))
        interfaces
  add_vlan _ interfaces = pure interfaces
