-- ===== src/Inventory/Types.antt =====
-- backend/base.py: what a backend observes, and what the plan expects of an interface.
use nslab.Base.{ℕ, String, Bool, true, Option, none, List, []}
use nslab.Base.Dict.{Dict}
use nslab.Base.Int.{ℤ}
use nslab.Plan.Address.{IpAddress, IpInterface}
use nslab.Plan.Types.{
  BridgeVlanPlan, NetemPlan, QdiscPlan, NodeKind, RoutePlan, PolicyRulePlan, NeighborPlan,
}

pub record InterfaceInventory : Type 0 where
  pub name : String
  pub kind : String
  pub ifindex : Option ℕ
  pub mtu : ℤ
  pub up : Bool
  pub addresses : List IpInterface
  pub link_id : Option String
  pub master : Option String
  pub mac : Option String
  pub stp : Option Bool
  pub vlan_filtering : Option Bool
  pub bridge_priority : Option ℕ
  pub path_cost : Option ℕ
  pub port_priority : Option ℕ
  pub hairpin : Option Bool
  pub isolated : Option Bool
  pub learning : Option Bool
  pub flood : Option Bool
  pub multicast_flood : Option Bool
  pub bridge_vlans : List BridgeVlanPlan
  pub netem : Option NetemPlan
  pub qdisc : Option QdiscPlan
  pub parent : Option String
  pub vlan_id : Option ℕ
  pub vrf_table : Option ℕ
  pub bond_mode : Option String
  pub bond_miimon_ms : Option ℕ
  pub bond_primary : Option String
  pub bond_lacp_rate : Option String
  pub bond_xmit_hash_policy : Option String
  pub bond_min_links : Option ℕ
  pub vxlan_vni : Option ℕ
  pub vxlan_link : Option String
  pub vxlan_local : Option IpAddress
  pub vxlan_remote : Option IpAddress
  pub vxlan_dst_port : Option ℕ
  pub vxlan_learning : Option Bool
  pub geneve_vni : Option ℕ
  pub geneve_link : Option String
  pub geneve_remote : Option IpAddress
  pub geneve_dst_port : Option ℕ
  pub gre_link : Option String
  pub gre_local : Option IpAddress
  pub gre_remote : Option IpAddress
  pub gre_key : Option ℕ
  pub gre_ttl : Option ℕ
  pub ipip_link : Option String
  pub ipip_local : Option IpAddress
  pub ipip_remote : Option IpAddress
  pub ipip_ttl : Option ℕ
  pub macvlan_mode : Option String
  pub ipvlan_mode : Option String

-- `_ExpectedInterface`
pub record ExpectedInterface : Type 0 where
  pub kind : String
  pub mtu : Option ℤ
  pub up : Bool
  pub addresses : List IpInterface
  pub master : Option String
  pub mac : Option String
  pub stp : Option Bool
  pub vlan_filtering : Option Bool
  pub bridge_priority : Option ℕ
  pub path_cost : Option ℕ
  pub port_priority : Option ℕ
  pub hairpin : Option Bool
  pub isolated : Option Bool
  pub learning : Option Bool
  pub flood : Option Bool
  pub multicast_flood : Option Bool
  pub bridge_vlans : List BridgeVlanPlan
  pub netem : Option NetemPlan
  pub qdisc : Option QdiscPlan
  pub parent : Option String
  pub vlan_id : Option ℕ
  pub vrf_table : Option ℕ
  pub bond_mode : Option String
  pub bond_miimon_ms : Option ℕ
  pub bond_primary : Option String
  pub bond_lacp_rate : Option String
  pub bond_xmit_hash_policy : Option String
  pub bond_min_links : Option ℕ
  pub vxlan_vni : Option ℕ
  pub vxlan_link : Option String
  pub vxlan_local : Option IpAddress
  pub vxlan_remote : Option IpAddress
  pub vxlan_dst_port : Option ℕ
  pub vxlan_learning : Option Bool
  pub geneve_vni : Option ℕ
  pub geneve_link : Option String
  pub geneve_remote : Option IpAddress
  pub geneve_dst_port : Option ℕ
  pub gre_link : Option String
  pub gre_local : Option IpAddress
  pub gre_remote : Option IpAddress
  pub gre_key : Option ℕ
  pub gre_ttl : Option ℕ
  pub ipip_link : Option String
  pub ipip_local : Option IpAddress
  pub ipip_remote : Option IpAddress
  pub ipip_ttl : Option ℕ
  pub macvlan_mode : Option String
  pub ipvlan_mode : Option String

pub record NamespaceInventory : Type 0 where
  pub node : String
  pub kind : NodeKind
  pub namespace : String
  pub exists : Bool
  pub interfaces : Dict InterfaceInventory
  pub routes : List RoutePlan
  pub sysctls : Dict ℕ
  pub rules : List PolicyRulePlan
  pub neighbors : List NeighborPlan

pub record LiveInventory : Type 0 where
  pub namespaces : Dict NamespaceInventory
  pub root_interfaces : Dict InterfaceInventory

pub record ExecResult : Type 0 where
  pub argv : List String
  pub returncode : ℤ
  pub stdout : String
  pub stderr : String

-- The keyword defaults of the two classes.
abbrev pub observed_interface : String → String → Option ℕ → ℤ → Bool → InterfaceInventory
observed_interface name kind ifindex mtu up = record {
  name = name;
  kind = kind;
  ifindex = ifindex;
  mtu = mtu;
  up = up;
  addresses = [];
  link_id = none;
  master = none;
  mac = none;
  stp = none;
  vlan_filtering = none;
  bridge_priority = none;
  path_cost = none;
  port_priority = none;
  hairpin = none;
  isolated = none;
  learning = none;
  flood = none;
  multicast_flood = none;
  bridge_vlans = [];
  netem = none;
  qdisc = none;
  parent = none;
  vlan_id = none;
  vrf_table = none;
  bond_mode = none;
  bond_miimon_ms = none;
  bond_primary = none;
  bond_lacp_rate = none;
  bond_xmit_hash_policy = none;
  bond_min_links = none;
  vxlan_vni = none;
  vxlan_link = none;
  vxlan_local = none;
  vxlan_remote = none;
  vxlan_dst_port = none;
  vxlan_learning = none;
  geneve_vni = none;
  geneve_link = none;
  geneve_remote = none;
  geneve_dst_port = none;
  gre_link = none;
  gre_local = none;
  gre_remote = none;
  gre_key = none;
  gre_ttl = none;
  ipip_link = none;
  ipip_local = none;
  ipip_remote = none;
  ipip_ttl = none;
  macvlan_mode = none;
  ipvlan_mode = none;
}

abbrev pub expected_interface :
    String → Option String → Option ℤ → List IpInterface → ExpectedInterface
expected_interface kind master mtu addresses = record {
  kind = kind;
  mtu = mtu;
  up = true;
  addresses = addresses;
  master = master;
  mac = none;
  stp = none;
  vlan_filtering = none;
  bridge_priority = none;
  path_cost = none;
  port_priority = none;
  hairpin = none;
  isolated = none;
  learning = none;
  flood = none;
  multicast_flood = none;
  bridge_vlans = [];
  netem = none;
  qdisc = none;
  parent = none;
  vlan_id = none;
  vrf_table = none;
  bond_mode = none;
  bond_miimon_ms = none;
  bond_primary = none;
  bond_lacp_rate = none;
  bond_xmit_hash_policy = none;
  bond_min_links = none;
  vxlan_vni = none;
  vxlan_link = none;
  vxlan_local = none;
  vxlan_remote = none;
  vxlan_dst_port = none;
  vxlan_learning = none;
  geneve_vni = none;
  geneve_link = none;
  geneve_remote = none;
  geneve_dst_port = none;
  gre_link = none;
  gre_local = none;
  gre_remote = none;
  gre_key = none;
  gre_ttl = none;
  ipip_link = none;
  ipip_local = none;
  ipip_remote = none;
  ipip_ttl = none;
  macvlan_mode = none;
  ipvlan_mode = none;
}
