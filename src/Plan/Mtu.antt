-- ===== src/Plan/Mtu.antt =====
-- planner.py, the `*_device_mtu` functions: an explicit MTU, or one that follows from the link below.
-- A computed MTU is a signed integer, as in Python.
use nslab.Base.{
  ℕ, ◌+◌, String, Bool, true, false, ◌&&◌, Option, none, some, List, [], ◌∷◌, map, ◌<>◌, ◌==◌,
  nat_eq, string_eq, contains, filter, if◌then◌else◌,
}
use nslab.Base.Int.{ℤ, pos, sub_ℕ}
use nslab.Error.{Result, ok, err, exception, ◌>>=◌}
use nslab.Plan.Address.{version}
use nslab.Plan.Types.{
  NodePlan, EndpointPlan, LinkPlan, TopologyPlan, BondDevicePlan, VxlanDevicePlan, DummyDevicePlan,
  GeneveDevicePlan, GreDevicePlan, IpipDevicePlan, MacvlanDevicePlan, IpvlanDevicePlan,
}
pub mod Laws

-- `for link in links for endpoint in (link.left, link.right)`, each endpoint with its link.
unfoldable pub link_ends : List LinkPlan → List (LinkPlan × EndpointPlan)
link_ends [] = []
link_ends (l ∷ ls) = (l, l.left) ∷ (l, l.right) ∷ link_ends ls

abbrev value_error : {A : Type 0} → String → Result A
value_error m = err (exception "ValueError" m [])

-- The element of a set of numbers that has exactly one.
abbrev the_only : List ℕ → Option ℕ
the_only [] = none
the_only (m ∷ []) = some m
the_only (m ∷ n ∷ ms) = if m == n then the_only (n ∷ ms) else none

abbrev is_member_end : String → List String → LinkPlan × EndpointPlan → Bool
is_member_end node members (l, e) = e.node == node && contains members e.interface

pub bond_device_mtu : NodePlan → TopologyPlan → BondDevicePlan → Result ℕ
bond_device_mtu node plan device =
    elim (the_only (
      map (λ ((l, e) : LinkPlan × EndpointPlan). l.mtu)
        (filter (is_member_end node.name device.interfaces) (link_ends plan.links)))) [
          | none ↦
              value_error
                ("bond members do not have one planned MTU: " <> node.name <> ":" <> device.name)
          | some m ↦ ok m
        ]

-- `next((link.mtu for ... if endpoint.node == node and endpoint.interface == interface), None)`
unfoldable pub first_mtu : String → String → List (LinkPlan × EndpointPlan) → Option ℕ
first_mtu node interface [] = none
first_mtu node interface ((l, e) ∷ rest) =
    if e.node == node && e.interface == interface then some l.mtu else first_mtu node interface rest

unfoldable pub parent_device_mtu : NodePlan → TopologyPlan → String → Result ℕ
unfolding first_mtu
parent_device_mtu node plan interface =
    elim (first_mtu node.name interface (link_ends plan.links)) [
      | none ↦ value_error ("device parent is not planned: " <> node.name <> ":" <> interface)
      | some m ↦ ok m
    ]

-- `50 if address.version == 4 else 70`
abbrev pub tunnel_overhead : ℕ → ℕ
tunnel_overhead v = if v == 4 then 50 else 70

abbrev less : ℕ → Result ℕ → Result ℤ
less overhead r = r >>= λ m. ok (sub_ℕ m overhead)

unfoldable pub vxlan_device_mtu : NodePlan → TopologyPlan → VxlanDevicePlan → Result ℤ
unfolding first_mtu
vxlan_device_mtu node plan device = elim device.mtu [
  | some m ↦ ok (pos m)
  | none ↦ elim (first_mtu node.name device.link (link_ends plan.links)) [
    | none ↦ value_error ("VXLAN underlay is not planned: " <> node.name <> ":" <> device.link)
    | some m ↦ ok (sub_ℕ m (tunnel_overhead (version device.local)))
  ]
]

pub dummy_device_mtu : DummyDevicePlan → ℕ
dummy_device_mtu device = elim device.mtu [ none ↦ 1500 | some m ↦ m ]

unfoldable pub geneve_device_mtu : NodePlan → TopologyPlan → GeneveDevicePlan → Result ℤ
unfolding parent_device_mtu
geneve_device_mtu node plan device = elim device.mtu [
  | some m ↦ ok (pos m)
  | none ↦ less (tunnel_overhead (version device.remote)) (parent_device_mtu node plan device.link)
]

abbrev pub gre_overhead : Option ℕ → ℕ
gre_overhead key = 24 + elim key [ none ↦ 0 | some k ↦ 4 ]

unfoldable pub gre_device_mtu : NodePlan → TopologyPlan → GreDevicePlan → Result ℤ
unfolding parent_device_mtu
gre_device_mtu node plan device = elim device.mtu [
  | some m ↦ ok (pos m)
  | none ↦ less (gre_overhead device.key) (parent_device_mtu node plan device.link)
]

unfoldable pub ipip_device_mtu : NodePlan → TopologyPlan → IpipDevicePlan → Result ℤ
unfolding parent_device_mtu
ipip_device_mtu node plan device = elim device.mtu [
  | some m ↦ ok (pos m)
  | none ↦ less 20 (parent_device_mtu node plan device.link)
]

abbrev own_or_parent : Option ℕ → Result ℕ → Result ℤ
own_or_parent none r = less 0 r
own_or_parent (some m) r = ok (pos m)

pub macvlan_device_mtu : NodePlan → TopologyPlan → MacvlanDevicePlan → Result ℤ
unfolding parent_device_mtu
macvlan_device_mtu node plan device =
    own_or_parent device.mtu (parent_device_mtu node plan device.link)

pub ipvlan_device_mtu : NodePlan → TopologyPlan → IpvlanDevicePlan → Result ℤ
unfolding parent_device_mtu
ipvlan_device_mtu node plan device =
    own_or_parent device.mtu (parent_device_mtu node plan device.link)
