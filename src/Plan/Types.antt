-- ===== src/Plan/Types.antt =====
-- planner.py: the plan records. Python's `Literal` texts stay texts, except for the kind of a node.
use nslab.Base.{ℕ, String, Bool, Option, List, ◌∷◌, [], map, none, some}
use nslab.Base.Dict.{Dict}
use nslab.Json.{Json}
use nslab.Plan.Address.{IpAddress, IpInterface, IpNetwork}

pub data NodeKind : Type 0 where
  linux bridge : NodeKind

pub record RouteNextHopPlan : Type 0 where
  pub via : Option IpAddress
  pub dev : String
  pub weight : ℕ

pub record RoutePlan : Type 0 where
  pub dst : IpNetwork
  pub via : Option IpAddress
  pub dev : Option String
  pub table : ℕ
  pub nexthops : List RouteNextHopPlan

pub record NeighborPlan : Type 0 where
  pub dst : IpAddress
  pub dev : String
  pub lladdr : Option String
  pub neighbor_state : Option String
  pub proxy : Bool

pub record PolicyRulePlan : Type 0 where
  pub priority : ℕ
  pub family : ℕ
  pub action : String
  pub table : Option ℕ
  pub goto : Option ℕ
  pub source : Option IpNetwork
  pub destination : Option IpNetwork
  pub invert : Bool
  pub tos : Option ℕ
  pub fwmark : Option ℕ
  pub fwmask : Option ℕ
  pub iif : Option String
  pub oif : Option String
  pub l3mdev : Bool
  pub uid_range : Option (ℕ × ℕ)
  pub protocol : ℕ
  pub ip_protocol : Option ℕ
  pub source_port : Option (ℕ × ℕ)
  pub destination_port : Option (ℕ × ℕ)
  pub tunnel_id : Option ℕ
  pub suppress_prefix_length : Option ℕ
  pub suppress_interface_group : Option ℕ
  pub realms : Option (ℕ × ℕ)

pub record OspfPlan : Type 0 where
  pub router_id : IpAddress
  pub area : IpAddress
  pub networks : List IpNetwork
  pub passive_interfaces : List String

pub record BgpNeighborPlan : Type 0 where
  pub address : IpAddress
  pub remote_as : ℕ

pub record BgpPlan : Type 0 where
  pub local_as : ℕ
  pub router_id : IpAddress
  pub neighbors : List BgpNeighborPlan
  pub networks : List IpNetwork

pub record PimPlan : Type 0 where
  pub rp_address : IpAddress
  pub interfaces : List String
  pub igmp_interfaces : List String

pub record RoutingPlan : Type 0 where
  pub ospf : Option OspfPlan
  pub bgp : Option BgpPlan
  pub pim : Option PimPlan

pub record BridgeVlanPlan : Type 0 where
  pub vid : ℕ
  pub pvid : Bool
  pub untagged : Bool

pub record BridgePortPlan : Type 0 where
  pub path_cost : Option ℕ
  pub priority : Option ℕ
  pub vlans : List BridgeVlanPlan
  pub hairpin : Option Bool
  pub isolated : Option Bool
  pub learning : Option Bool
  pub flood : Option Bool
  pub multicast_flood : Option Bool

pub record VlanDevicePlan : Type 0 where
  pub name : String
  pub link : String
  pub vlan_id : ℕ
  pub addresses : List IpInterface

pub record VrfDevicePlan : Type 0 where
  pub name : String
  pub table : ℕ
  pub interfaces : List String

pub record BondDevicePlan : Type 0 where
  pub name : String
  pub mode : String
  pub interfaces : List String
  pub addresses : List IpInterface
  pub miimon_ms : ℕ
  pub primary : Option String
  pub lacp_rate : Option String
  pub xmit_hash_policy : Option String
  pub min_links : Option ℕ

pub record GreDevicePlan : Type 0 where
  pub name : String
  pub link : String
  pub local : IpAddress
  pub remote : IpAddress
  pub key : Option ℕ
  pub ttl : ℕ
  pub mtu : Option ℕ
  pub addresses : List IpInterface

pub record IpipDevicePlan : Type 0 where
  pub name : String
  pub link : String
  pub local : IpAddress
  pub remote : IpAddress
  pub ttl : ℕ
  pub mtu : Option ℕ
  pub addresses : List IpInterface

pub record VxlanDevicePlan : Type 0 where
  pub name : String
  pub vni : ℕ
  pub link : String
  pub local : IpAddress
  pub remote : IpAddress
  pub dst_port : ℕ
  pub learning : Bool
  pub mtu : Option ℕ
  pub addresses : List IpInterface

pub record DummyDevicePlan : Type 0 where
  pub name : String
  pub mtu : Option ℕ
  pub addresses : List IpInterface

pub record GeneveDevicePlan : Type 0 where
  pub name : String
  pub vni : ℕ
  pub link : String
  pub remote : IpAddress
  pub dst_port : ℕ
  pub mtu : Option ℕ
  pub addresses : List IpInterface

pub record MacvlanDevicePlan : Type 0 where
  pub name : String
  pub link : String
  pub mode : String
  pub mtu : Option ℕ
  pub addresses : List IpInterface

pub record IpvlanDevicePlan : Type 0 where
  pub name : String
  pub link : String
  pub mode : String
  pub mtu : Option ℕ
  pub addresses : List IpInterface

-- The union of the device plans.
pub data DevicePlan : Type 0 where
  vlan : VlanDevicePlan → DevicePlan
  vrf : VrfDevicePlan → DevicePlan
  bond : BondDevicePlan → DevicePlan
  gre : GreDevicePlan → DevicePlan
  ipip : IpipDevicePlan → DevicePlan
  vxlan : VxlanDevicePlan → DevicePlan
  dummy : DummyDevicePlan → DevicePlan
  geneve : GeneveDevicePlan → DevicePlan
  macvlan : MacvlanDevicePlan → DevicePlan
  ipvlan : IpvlanDevicePlan → DevicePlan

pub record NodePlan : Type 0 where
  pub name : String
  pub kind : NodeKind
  pub namespace : String
  pub interfaces : Dict (List IpInterface)
  pub routes : List RoutePlan
  pub sysctls : Dict ℕ
  pub mac_addresses : Dict String
  pub neighbors : List NeighborPlan
  pub rules : List PolicyRulePlan
  pub devices : Dict DevicePlan
  pub bridge_name : Option String
  pub stp : Option Bool
  pub vlan_filtering : Option Bool
  pub bridge_priority : Option ℕ
  pub bridge_ports : Dict BridgePortPlan
  pub routing : Option RoutingPlan

pub record EndpointPlan : Type 0 where
  pub node : String
  pub interface : String
  pub namespace : String
  pub temporary_name : String

pub record NetemPlan : Type 0 where
  pub delay_ms : ℕ
  pub jitter_ms : ℕ
  pub loss_percent : ℕ
  pub rate : Option String

pub record TbfPlan : Type 0 where
  pub rate : String
  pub burst_bytes : ℕ
  pub latency_ms : ℕ

pub record FqCodelPlan : Type 0 where
  pub target_ms : ℕ
  pub interval_ms : ℕ
  pub limit : ℕ
  pub ecn : Bool

pub record SimpleQdiscPlan : Type 0 where
  pub kind : String
  pub options : Dict Json

-- The leaf of an HTB plan.
pub data HtbLeaf : Type 0 where
  fq_codel_leaf : FqCodelPlan → HtbLeaf
  simple_leaf : SimpleQdiscPlan → HtbLeaf

pub record HtbPlan : Type 0 where
  pub rate : String
  pub leaf : HtbLeaf

pub record CakePlan : Type 0 where
  pub bandwidth : String
  pub flow_mode : String
  pub diffserv_mode : String
  pub rtt_ms : ℕ
  pub nat : Bool

pub data QdiscPlan : Type 0 where
  tbf : TbfPlan → QdiscPlan
  fq_codel : FqCodelPlan → QdiscPlan
  htb : HtbPlan → QdiscPlan
  cake : CakePlan → QdiscPlan
  simple : SimpleQdiscPlan → QdiscPlan

-- The link kind is always `veth`.
pub record LinkPlan : Type 0 where
  pub index : ℕ
  pub left : EndpointPlan
  pub right : EndpointPlan
  pub mtu : ℕ
  pub netem : Option NetemPlan
  pub qdisc : Option QdiscPlan

pub record TopologyPlan : Type 0 where
  pub name : String
  pub fingerprint : String
  pub nodes : Dict NodePlan
  pub links : List LinkPlan

-- The devices of a route without next hops; the source asserts that it has one.
abbrev single_device : Option String → Option (List String)
single_device none = none
single_device (some d) = some (d ∷ [])

-- `none` is the failed assertion.
abbrev pub route_interfaces : RoutePlan → Option (List String)
route_interfaces r = elim r.nexthops [
  | [] ↦ single_device r.dev
  | h ∷ hs ↦ some (map (λ (x : RouteNextHopPlan). x.dev) (h ∷ hs))
]
