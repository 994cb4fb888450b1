-- ===== src/Tests/Plans.antt =====
-- The theorems on plans, at a node with a tunnel, a bond and a VRF on two links.
use nslab.Base.{◌≡◌, ◌↔◌, refl, ◌⊎◌, true, none, some, [], ◌∷◌, In, ℕ}
use nslab.Base.Int.{pos}
use nslab.Error.{ok}
use nslab.Plan.Address.{ipv4}
use nslab.Plan.Types.{
  NodePlan, EndpointPlan, LinkPlan, TopologyPlan, VxlanDevicePlan, GeneveDevicePlan, GreDevicePlan,
  IpipDevicePlan, BondDevicePlan, VrfDevicePlan, vrf,
}
use nslab.Plan.Mtu.{
  first_mtu, link_ends, parent_device_mtu, vxlan_device_mtu, geneve_device_mtu, gre_device_mtu,
  ipip_device_mtu, bond_device_mtu,
}
use nslab.Plan.Mtu.Laws.{
  FitsLink, HasMember, vxlan_device_mtu-FitsLink, geneve_device_mtu-FitsLink,
  gre_device_mtu-FitsLink, ipip_device_mtu-FitsLink, bond_device_mtu_iff,
}
use nslab.Plan.Interfaces.{node_interface_master, node_interface_route_table, node_route_tables}
use nslab.Plan.Interfaces.Tables.{
  IsDistinct, IsManaged, MainTable, VrfTable, node_route_tables_lem, node_interface_route_table_lem,
}
use nslab.Plan.Interfaces.Masters.{IsMaster, node_interface_master_iff}
use nslab.Tests.Simulation.{host}

abbrev endpoint : EndpointPlan
endpoint = record { node = "h1"; interface = "eth0"; namespace = "lab-h1"; temporary_name = "t0" }

abbrev peer : EndpointPlan
peer = record { node = "h2"; interface = "eth0"; namespace = "lab-h2"; temporary_name = "t1" }

abbrev link : LinkPlan
link = record { index = 0; left = endpoint; right = peer; mtu = 1500; netem = none; qdisc = none }

abbrev blue : VrfDevicePlan
blue = record { name = "blue"; table = 100; interfaces = "eth0" ∷ [] }

abbrev node : NodePlan
node = record host { devices = ("blue", vrf blue) ∷ [] }

abbrev plan : TopologyPlan
plan = record { name = "lab"; fingerprint = "f1"; nodes = ("h1", node) ∷ []; links = link ∷ [] }

abbrev vxlan_device : VxlanDevicePlan
vxlan_device = record {
  name = "vx0";
  vni = 10;
  link = "eth0";
  local = ipv4 1;
  remote = ipv4 2;
  dst_port = 4789;
  learning = true;
  mtu = none;
  addresses = [];
}

abbrev geneve_device : GeneveDevicePlan
geneve_device = record {
  name = "gen0";
  vni = 10;
  link = "eth0";
  remote = ipv4 2;
  dst_port = 6081;
  mtu = none;
  addresses = [];
}

abbrev gre_device : GreDevicePlan
gre_device = record {
  name = "gre0";
  link = "eth0";
  local = ipv4 1;
  remote = ipv4 2;
  key = some 7;
  ttl = 64;
  mtu = none;
  addresses = [];
}

abbrev ipip_device : IpipDevicePlan
ipip_device = record {
  name = "ipip0";
  link = "eth0";
  local = ipv4 1;
  remote = ipv4 2;
  ttl = 64;
  mtu = none;
  addresses = [];
}

abbrev bond_device : BondDevicePlan
bond_device = record {
  name = "bond0";
  mode = "active-backup";
  interfaces = "eth0" ∷ [];
  addresses = [];
  miimon_ms = 100;
  primary = none;
  lacp_rate = none;
  xmit_hash_policy = none;
  min_links = none;
}

vxlan_mtu : vxlan_device_mtu node plan vxlan_device ≡ ok (pos 1450)
unfolding vxlan_device_mtu first_mtu link_ends
vxlan_mtu = refl

geneve_mtu : geneve_device_mtu node plan geneve_device ≡ ok (pos 1450)
unfolding geneve_device_mtu parent_device_mtu first_mtu link_ends
geneve_mtu = refl

gre_mtu : gre_device_mtu node plan gre_device ≡ ok (pos 1472)
unfolding gre_device_mtu parent_device_mtu first_mtu link_ends
gre_mtu = refl

ipip_mtu : ipip_device_mtu node plan ipip_device ≡ ok (pos 1480)
unfolding ipip_device_mtu parent_device_mtu first_mtu link_ends
ipip_mtu = refl

vxlan_device_mtu-FitsLink_example : FitsLink plan "h1" "eth0" 50 (pos 1450)
vxlan_device_mtu-FitsLink_example = vxlan_device_mtu-FitsLink node plan vxlan_device refl vxlan_mtu

geneve_device_mtu-FitsLink_example : FitsLink plan "h1" "eth0" 50 (pos 1450)
geneve_device_mtu-FitsLink_example =
    geneve_device_mtu-FitsLink node plan geneve_device refl geneve_mtu

gre_device_mtu-FitsLink_example : FitsLink plan "h1" "eth0" 28 (pos 1472)
gre_device_mtu-FitsLink_example = gre_device_mtu-FitsLink node plan gre_device refl gre_mtu

ipip_device_mtu-FitsLink_example : FitsLink plan "h1" "eth0" 20 (pos 1480)
ipip_device_mtu-FitsLink_example = ipip_device_mtu-FitsLink node plan ipip_device refl ipip_mtu

bond_device_mtu_iff_example : (bond_device_mtu node plan bond_device ≡ ok 1500) ↔ (
    HasMember plan "h1" ("eth0" ∷ []) 1500
    × ((n : ℕ) → HasMember plan "h1" ("eth0" ∷ []) n → n ≡ 1500))
bond_device_mtu_iff_example = bond_device_mtu_iff node plan bond_device 1500

node_route_tables_lem_example :
    IsDistinct (node_route_tables node)
    × ((t : ℕ) → In t (node_route_tables node) ↔ IsManaged t node)
node_route_tables_lem_example = node_route_tables_lem node

node_interface_route_table_lem_example :
    (t : ℕ) × (node_interface_route_table node "eth0" ≡ ok t)
    × In t (node_route_tables node)
    × (MainTable node "eth0" t ⊎ VrfTable node "eth0" t)
node_interface_route_table_lem_example = node_interface_route_table_lem node "eth0" (refl, refl, tt)

node_interface_master_iff_example :
    (node_interface_master node "eth0" ≡ some "blue") ↔ IsMaster node "eth0" "blue"
node_interface_master_iff_example = node_interface_master_iff node "eth0" "blue"
