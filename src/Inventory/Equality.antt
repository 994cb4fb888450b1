-- ===== src/Inventory/Equality.antt =====
-- Python's `==` on the plan records that inventories are compared by.
use nslab.Base.{
  Bool, true, false, ◌&&◌, ◌≡◌, ◌↔◌, arith, ◌==◌, Eq, nat_eq, string_eq, bool_eq, option_eq,
  list_eq, beq_iff, discrete_of, of_discrete, List, contains, all,
}
use nslab.Plan.Address.{IpAddress, ipv4, ipv6, IpInterface}
use nslab.Plan.Types.{NodeKind, linux, bridge, BridgeVlanPlan, NetemPlan, RoutePlan, PolicyRulePlan}

abbrev ip_beq : IpAddress → IpAddress → Bool
ip_beq (ipv4 a) (ipv4 b) = a == b
ip_beq (ipv6 a) (ipv6 b) = a == b
ip_beq (ipv4 a) (ipv6 b) = false
ip_beq (ipv6 a) (ipv4 b) = false

pub ip_beq_iff : (a b : IpAddress) → (ip_beq a b ≡ true) ↔ (a ≡ b)
ip_beq_iff (ipv4 a) (ipv4 b) = ground arith
ip_beq_iff (ipv6 a) (ipv6 b) = ground arith
ip_beq_iff (ipv4 a) (ipv6 b) = (λ h. cc, λ h. cc)
ip_beq_iff (ipv6 a) (ipv4 b) = (λ h. cc, λ h. cc)

instance abbrev pub ip_eq : Eq IpAddress
ip_eq = record { beq = ip_beq; beq_iff = ip_beq_iff }

abbrev interface_beq : IpInterface → IpInterface → Bool
interface_beq a b = a.ip == b.ip && a.prefixlen == b.prefixlen

pub interface_beq_iff : (a b : IpInterface) → (interface_beq a b ≡ true) ↔ (a ≡ b)
interface_beq_iff a b = ground (arith, ip_beq_iff a.ip b.ip)

instance abbrev pub interface_eq : Eq IpInterface
interface_eq = record { beq = interface_beq; beq_iff = interface_beq_iff }

abbrev kind_beq : NodeKind → NodeKind → Bool
kind_beq linux linux = true
kind_beq bridge bridge = true
kind_beq linux bridge = false
kind_beq bridge linux = false

pub kind_beq_iff : (a b : NodeKind) → (kind_beq a b ≡ true) ↔ (a ≡ b)
kind_beq_iff a b = ground arith

instance abbrev pub kind_eq : Eq NodeKind
kind_eq = record { beq = kind_beq; beq_iff = kind_beq_iff }

abbrev vlan_beq : BridgeVlanPlan → BridgeVlanPlan → Bool
vlan_beq a b = a.vid == b.vid && a.pvid == b.pvid && a.untagged == b.untagged

pub vlan_beq_iff : (a b : BridgeVlanPlan) → (vlan_beq a b ≡ true) ↔ (a ≡ b)
vlan_beq_iff a b = ground (arith, beq_iff a.pvid b.pvid, beq_iff a.untagged b.untagged)

instance abbrev pub vlan_eq : Eq BridgeVlanPlan
vlan_eq = record { beq = vlan_beq; beq_iff = vlan_beq_iff }

abbrev netem_beq : NetemPlan → NetemPlan → Bool
netem_beq a b =
    a.delay_ms == b.delay_ms
    && a.jitter_ms == b.jitter_ms
    && a.loss_percent == b.loss_percent
    && a.rate == b.rate

pub netem_beq_iff : (a b : NetemPlan) → (netem_beq a b ≡ true) ↔ (a ≡ b)
netem_beq_iff a b = ground (arith, beq_iff a.rate b.rate)

instance abbrev pub netem_eq : Eq NetemPlan
netem_eq = record { beq = netem_beq; beq_iff = netem_beq_iff }

unfoldable pub RoutePlan-discrete : Discrete RoutePlan
RoutePlan-discrete = hlevel (discrete_of nat_eq, discrete_of string_eq)

instance abbrev pub route_eq : Eq RoutePlan
route_eq = of_discrete RoutePlan-discrete

unfoldable pub PolicyRulePlan-discrete : Discrete PolicyRulePlan
PolicyRulePlan-discrete = hlevel (discrete_of nat_eq, discrete_of string_eq)

instance abbrev pub rule_eq : Eq PolicyRulePlan
rule_eq = of_discrete PolicyRulePlan-discrete

-- `frozenset(a) <= frozenset(b)` and `frozenset(a) == frozenset(b)`
module _ {A : Type 0} ⦃e : Eq A⦄ where
  abbrev pub subset : List A → List A → Bool
  subset a b = all (contains b) a

  abbrev pub same_set : List A → List A → Bool
  same_set a b = subset a b && subset b a
