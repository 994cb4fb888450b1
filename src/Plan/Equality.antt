-- ===== src/Plan/Equality.antt =====
-- Python's `==` on whole plans: mappings are compared as dicts, in any order.
use nslab.Base.{
  Bool, true, false, ◌&&◌, List, [], ◌∷◌, ◌==◌, Eq, nat_eq, string_eq, bool_eq, option_eq, list_eq,
  discrete_of, of_discrete, Option, none, some,
}
use nslab.Base.Dict.{dict_beq}
use nslab.Json.{json_beq}
use nslab.Plan.Address.{IpInterface, IpInterface-discrete}
use nslab.Plan.Types.{
  NodeKind, RoutePlan, NeighborPlan, PolicyRulePlan, RoutingPlan, BridgePortPlan, DevicePlan,
  NodePlan, EndpointPlan, NetemPlan, TbfPlan, FqCodelPlan, SimpleQdiscPlan, HtbLeaf, fq_codel_leaf,
  simple_leaf, CakePlan, QdiscPlan, tbf, fq_codel, htb, cake, simple, LinkPlan, TopologyPlan,
}

unfoldable pub NodeKind-discrete : Discrete NodeKind
NodeKind-discrete = hlevel

RoutePlan-discrete : Discrete RoutePlan
RoutePlan-discrete = hlevel (discrete_of nat_eq, discrete_of string_eq)

NeighborPlan-discrete : Discrete NeighborPlan
NeighborPlan-discrete = hlevel (discrete_of nat_eq, discrete_of string_eq)

PolicyRulePlan-discrete : Discrete PolicyRulePlan
PolicyRulePlan-discrete = hlevel (discrete_of nat_eq, discrete_of string_eq)

RoutingPlan-discrete : Discrete RoutingPlan
RoutingPlan-discrete = hlevel (discrete_of nat_eq, discrete_of string_eq)

pub BridgePortPlan-discrete : Discrete BridgePortPlan
BridgePortPlan-discrete = hlevel (discrete_of nat_eq, discrete_of string_eq)

pub DevicePlan-discrete : Discrete DevicePlan
DevicePlan-discrete = hlevel (discrete_of nat_eq, discrete_of string_eq)

EndpointPlan-discrete : Discrete EndpointPlan
EndpointPlan-discrete = hlevel (discrete_of string_eq)

NetemPlan-discrete : Discrete NetemPlan
NetemPlan-discrete = hlevel (discrete_of nat_eq, discrete_of string_eq)

TbfPlan-discrete : Discrete TbfPlan
TbfPlan-discrete = hlevel (discrete_of nat_eq, discrete_of string_eq)

FqCodelPlan-discrete : Discrete FqCodelPlan
FqCodelPlan-discrete = hlevel (discrete_of nat_eq)

CakePlan-discrete : Discrete CakePlan
CakePlan-discrete = hlevel (discrete_of nat_eq, discrete_of string_eq)

-- `a == b` by a decision
unfoldable pub same : {A : Type 0} → Discrete A → A → A → Bool
same d a b = (of_discrete d).beq a b

simple_beq : SimpleQdiscPlan → SimpleQdiscPlan → Bool
simple_beq a b = a.kind == b.kind && dict_beq json_beq a.options b.options

leaf_beq : HtbLeaf → HtbLeaf → Bool
leaf_beq (fq_codel_leaf a) (fq_codel_leaf b) = same FqCodelPlan-discrete a b
leaf_beq (simple_leaf a) (simple_leaf b) = simple_beq a b
leaf_beq _ _ = false

qdisc_beq : Option QdiscPlan → Option QdiscPlan → Bool
qdisc_beq none none = true
qdisc_beq (some (tbf a)) (some (tbf b)) = same TbfPlan-discrete a b
qdisc_beq (some (fq_codel a)) (some (fq_codel b)) = same FqCodelPlan-discrete a b
qdisc_beq (some (htb a)) (some (htb b)) = a.rate == b.rate && leaf_beq a.leaf b.leaf
qdisc_beq (some (cake a)) (some (cake b)) = same CakePlan-discrete a b
qdisc_beq (some (simple a)) (some (simple b)) = simple_beq a b
qdisc_beq _ _ = false

instance pub routing_eq : Eq RoutingPlan
routing_eq = of_discrete RoutingPlan-discrete

instance pub netem_eq : Eq NetemPlan
netem_eq = of_discrete NetemPlan-discrete

instance pub address_eq : Eq IpInterface
address_eq = of_discrete IpInterface-discrete

instance pub route_eq : Eq RoutePlan
route_eq = of_discrete RoutePlan-discrete

instance pub neighbor_eq : Eq NeighborPlan
neighbor_eq = of_discrete NeighborPlan-discrete

instance pub rule_eq : Eq PolicyRulePlan
rule_eq = of_discrete PolicyRulePlan-discrete

unfoldable pub node_beq : NodePlan → NodePlan → Bool
node_beq a b =
    a.name == b.name
    && same NodeKind-discrete a.kind b.kind
    && a.namespace == b.namespace
    && dict_beq (λ x y. x == y) a.interfaces b.interfaces
    && a.routes == b.routes
    && dict_beq (λ x y. x == y) a.sysctls b.sysctls
    && dict_beq (λ x y. x == y) a.mac_addresses b.mac_addresses
    && a.neighbors == b.neighbors
    && a.rules == b.rules
    && dict_beq (same DevicePlan-discrete) a.devices b.devices
    && a.bridge_name == b.bridge_name
    && a.stp == b.stp
    && a.vlan_filtering == b.vlan_filtering
    && a.bridge_priority == b.bridge_priority
    && dict_beq (same BridgePortPlan-discrete) a.bridge_ports b.bridge_ports
    && a.routing == b.routing

pub link_beq : LinkPlan → LinkPlan → Bool
link_beq a b =
    a.index == b.index
    && same EndpointPlan-discrete a.left b.left
    && same EndpointPlan-discrete a.right b.right
    && a.mtu == b.mtu
    && a.netem == b.netem
    && qdisc_beq a.qdisc b.qdisc

unfoldable pub links_beq : List LinkPlan → List LinkPlan → Bool
links_beq [] [] = true
links_beq (a ∷ as') (b ∷ bs) = link_beq a b && links_beq as' bs
links_beq _ _ = false

unfoldable pub plan_beq : TopologyPlan → TopologyPlan → Bool
plan_beq a b =
    a.name == b.name
    && a.fingerprint == b.fingerprint
    && dict_beq node_beq a.nodes b.nodes
    && links_beq a.links b.links
