-- ===== src/Plan/Interfaces.antt =====
-- planner.py: what a node says of one of its interfaces (addresses, master, routing table), and the
-- routing tables that it manages.
use nslab.Base.{
  ℕ, String, Bool, true, false, ◌&&◌, ◌||◌, Option, none, some, List, [], ◌∷◌, ◌++◌, map, ◌==◌,
  nat_eq, string_eq, option_eq, contains, any, if◌then◌else◌,
}
use nslab.Base.Dict.{Dict, lookup, insert, values}
use nslab.Error.{Result, ok, err, exception}
use nslab.Plan.Address.{IpInterface}
use nslab.Plan.Types.{
  NodeKind, DevicePlan, vlan, vrf, bond, gre, ipip, vxlan, dummy, geneve, macvlan, ipvlan, NodePlan,
  RoutePlan, VrfDevicePlan, linux, bridge,
}
pub mod Masters
pub mod Tables

-- manifest.py
abbrev pub main_route_table : ℕ
main_route_table = 254

abbrev pub device_name : DevicePlan → String
device_name (vlan d) = d.name
device_name (vrf d) = d.name
device_name (bond d) = d.name
device_name (gre d) = d.name
device_name (ipip d) = d.name
device_name (vxlan d) = d.name
device_name (dummy d) = d.name
device_name (geneve d) = d.name
device_name (macvlan d) = d.name
device_name (ipvlan d) = d.name

-- The addresses of the devices that can have some: all but a VRF.
abbrev pub device_addresses : DevicePlan → Option (List IpInterface)
device_addresses (vlan d) = some d.addresses
device_addresses (vrf d) = none
device_addresses (bond d) = some d.addresses
device_addresses (gre d) = some d.addresses
device_addresses (ipip d) = some d.addresses
device_addresses (vxlan d) = some d.addresses
device_addresses (dummy d) = some d.addresses
device_addresses (geneve d) = some d.addresses
device_addresses (macvlan d) = some d.addresses
device_addresses (ipvlan d) = some d.addresses

abbrev insert_if :
    String → Option (List IpInterface) → Dict (List IpInterface) → Dict (List IpInterface)
insert_if k none d = d
insert_if k (some v) d = insert k v d

-- `{**base, **{name: device.addresses ...}}`
abbrev pub merge_addresses : Dict (List IpInterface) → Dict DevicePlan → Dict (List IpInterface)
merge_addresses base [] = base
merge_addresses base ((name, d) ∷ devices) =
    merge_addresses (insert_if name (device_addresses d) base) devices

unfoldable pub node_interface_addresses : NodePlan → Dict (List IpInterface)
node_interface_addresses node = merge_addresses node.interfaces node.devices

abbrev pub vrf_owns : String → DevicePlan → Bool
vrf_owns interface (vrf d) = contains d.interfaces interface
vrf_owns interface _ = false

abbrev pub bond_owns : String → DevicePlan → Bool
bond_owns interface (bond d) = contains d.interfaces interface
bond_owns interface _ = false

-- `isinstance(device, (VxlanDevicePlan, GeneveDevicePlan)) and device.link == interface`
abbrev pub overlay_on : String → DevicePlan → Bool
overlay_on interface (vxlan d) = d.link == interface
overlay_on interface (geneve d) = d.link == interface
overlay_on interface _ = false

-- `next((device.name for device in devices if owns(device)), None)`
unfoldable pub first_owner : (DevicePlan → Bool) → List DevicePlan → Option String
first_owner owns [] = none
first_owner owns (d ∷ ds) = if owns d then some (device_name d) else first_owner owns ds

unfoldable pub node_interface_vrf_master : NodePlan → String → Option String
node_interface_vrf_master node interface = first_owner (vrf_owns interface) (values node.devices)

abbrev bridge_master : NodePlan → String → NodeKind → Option String
bridge_master node interface linux = none
bridge_master node interface bridge =
    if some interface == node.bridge_name
    then none
    else if any (overlay_on interface) (values node.devices)
    then none
    else node.bridge_name

abbrev or_else : Option String → Option String → Option String
or_else none r = r
or_else (some m) r = some m

unfoldable pub node_interface_master : NodePlan → String → Option String
node_interface_master node interface =
    or_else (first_owner (bond_owns interface) (values node.devices))
      (or_else (node_interface_vrf_master node interface) (bridge_master node interface node.kind))

-- `assert isinstance(device, VrfDevicePlan)`
abbrev vrf_table : DevicePlan → Result ℕ
vrf_table (vrf d) = ok d.table
vrf_table _ = err (exception "AssertionError" "" [])

-- `node.devices[master]`
abbrev device_table : String → Option DevicePlan → Result ℕ
device_table master none = err (exception "KeyError" master [])
device_table master (some d) = vrf_table d

unfoldable pub node_interface_route_table : NodePlan → String → Result ℕ
node_interface_route_table node interface = elim (node_interface_vrf_master node interface) [
  | none ↦ ok main_route_table
  | some master ↦ device_table master (lookup master node.devices)
]

-- `dict.fromkeys`: the first of equal numbers stays.
abbrev pub dedup_from : List ℕ → List ℕ → List ℕ
dedup_from seen [] = []
dedup_from seen (x ∷ xs) =
    let rest = dedup_from (x ∷ seen) xs in
    let skipped = dedup_from seen xs in if contains seen x then skipped else x ∷ rest

abbrev pub vrf_tables : List DevicePlan → List ℕ
vrf_tables [] = []
vrf_tables (vrf d ∷ ds) = d.table ∷ vrf_tables ds
vrf_tables (_ ∷ ds) = vrf_tables ds

unfoldable pub node_route_tables : NodePlan → List ℕ
node_route_tables node = dedup_from [] (
    main_route_table
    ∷ (vrf_tables (values node.devices) ++ map (λ (r : RoutePlan). r.table) node.routes))
