-- ===== src/Inventory/Match.antt =====
-- backend/base.py and backend/tc_qdisc.py: when an observed inventory satisfies a plan.
-- The effective options of a RED qdisc rest on floating point and on pyroute2: they are the instance
-- argument `RedOptions`.
use nslab.Base.{
  Eq, ℕ, ◌-◌, ◌/◌, max, String, Bool, true, false, not, ◌&&◌, ◌||◌, Option, none, some, List, [],
  ◌∷◌, ◌==◌, nat_eq, string_eq, bool_eq, option_eq, list_eq, pair_eq, contains, length, all, leb,
  if◌then◌else◌,
}
use nslab.Base.Dict.{Dict, lookup, keys, dict_beq, same_keys}
use nslab.Base.Int.{int_eq}
use nslab.Json.{Json, json_beq}
use nslab.Plan.Types.{
  NodePlan, RoutePlan, NeighborPlan, QdiscPlan, TbfPlan, HtbLeaf, fq_codel_leaf, simple_leaf,
  SimpleQdiscPlan, FqCodelPlan, CakePlan, RoutingPlan, tbf, fq_codel, htb, cake, simple,
}
use nslab.Inventory.Types.{ExpectedInterface, InterfaceInventory}
use nslab.Inventory.Equality.{
  ip_eq, interface_eq, kind_eq, vlan_eq, netem_eq, route_eq, rule_eq, subset, same_set,
}

pub record RedOptions : Type 0 where
  -- `_red_effective_options`; `none` stands for the errors that the caller turns into `False`.
  pub effective : Dict Json → Option (Dict Json)
  -- `math.isclose` on two numbers, with the tolerances of tc
  pub is_close : Json → Json → Bool

-- `desired.x is None or observed.x == desired.x`
module _ {A : Type 0} ⦃e : Eq A⦄ where
  abbrev pub asked : Option A → Option A → Bool
  asked none o = true
  asked (some d) o = o == some d

  -- `observed.x is None or observed.x == desired.x`
  abbrev pub reported : Option A → Option A → Bool
  reported none d = true
  reported (some o) d = some o == d

abbrev pub fq_codel_beq : FqCodelPlan → FqCodelPlan → Bool
fq_codel_beq a b =
    a.target_ms == b.target_ms
    && a.interval_ms == b.interval_ms
    && a.limit == b.limit
    && a.ecn == b.ecn

abbrev pub cake_beq : CakePlan → CakePlan → Bool
cake_beq a b =
    a.bandwidth == b.bandwidth
    && a.flow_mode == b.flow_mode
    && a.diffserv_mode == b.diffserv_mode
    && a.rtt_ms == b.rtt_ms
    && a.nat == b.nat

-- `abs(a - b) <= tolerance`
abbrev pub within : ℕ → ℕ → ℕ → Bool
within a b tolerance = leb (a - b) tolerance && leb (b - a) tolerance

-- Burst and latency are compared up to what the kernel rounds.
unfoldable pub tbf_matches : TbfPlan → TbfPlan → Bool
tbf_matches d o =
    d.rate == o.rate
    && within d.burst_bytes o.burst_bytes (max 2 (d.burst_bytes / 1000))
    && within d.latency_ms o.latency_ms 1

module _ ⦃red : RedOptions⦄ where
  -- `isinstance(actual, (int, float))` on both sides is in `is_close`.
  abbrev option_matches : Bool → String → Json → Json → Bool
  option_matches is_red name value actual =
      if is_red && name == "probability" then red.is_close value actual else json_beq value actual

  abbrev options_match : Bool → Dict Json → Dict Json → Bool
  options_match is_red [] observed = true
  options_match is_red ((name, value) ∷ rest) observed =
      elim (lookup name observed) [
        | none ↦ false
        | some actual ↦ option_matches is_red name value actual
      ]
      && options_match is_red rest observed

  unfoldable pub simple_qdisc_matches : SimpleQdiscPlan → SimpleQdiscPlan → Bool
  simple_qdisc_matches d o =
      d.kind == o.kind
      && (dict_beq json_beq d.options o.options
          || (if d.kind == "red"
              then elim (red.effective d.options) [
                | none ↦ false
                | some expected ↦ options_match true expected o.options
              ]
              else options_match false d.options o.options))

  abbrev pub leaf_matches : HtbLeaf → HtbLeaf → Bool
  leaf_matches (fq_codel_leaf d) (fq_codel_leaf o) = fq_codel_beq d o
  leaf_matches (simple_leaf d) (simple_leaf o) = simple_qdisc_matches d o
  leaf_matches (fq_codel_leaf d) (simple_leaf o) = false
  leaf_matches (simple_leaf d) (fq_codel_leaf o) = false

  abbrev pub same_qdisc : QdiscPlan → QdiscPlan → Bool
  same_qdisc (tbf d) (tbf o) = tbf_matches d o
  same_qdisc (fq_codel d) (fq_codel o) = fq_codel_beq d o
  same_qdisc (htb d) (htb o) = d.rate == o.rate && leaf_matches d.leaf o.leaf
  same_qdisc (cake d) (cake o) = cake_beq d o
  same_qdisc (simple d) (simple o) = simple_qdisc_matches d o
  same_qdisc _ _ = false

  unfoldable pub qdisc_matches : Option QdiscPlan → Option QdiscPlan → Bool
  qdisc_matches none none = true
  qdisc_matches none (some o) = false
  qdisc_matches (some d) none = false
  qdisc_matches (some d) (some o) = same_qdisc d o

  abbrev pub common_matches : ExpectedInterface → InterfaceInventory → Bool
  common_matches d o =
      o.master == d.master
      && asked d.mac o.mac
      && o.stp == d.stp
      && o.vlan_filtering == d.vlan_filtering
      && asked d.bridge_priority o.bridge_priority

  abbrev pub port_matches : ExpectedInterface → InterfaceInventory → Bool
  port_matches d o =
      asked d.path_cost o.path_cost
      && asked d.port_priority o.port_priority
      && asked d.hairpin o.hairpin
      && asked d.isolated o.isolated
      && asked d.learning o.learning
      && asked d.flood o.flood
      && asked d.multicast_flood o.multicast_flood
      && o.bridge_vlans == d.bridge_vlans

  abbrev pub link_matches : ExpectedInterface → InterfaceInventory → Bool
  link_matches d o =
      o.netem == d.netem
      && qdisc_matches d.qdisc o.qdisc
      && o.parent == d.parent
      && o.vlan_id == d.vlan_id
      && o.vrf_table == d.vrf_table

  abbrev pub bond_matches : ExpectedInterface → InterfaceInventory → Bool
  bond_matches d o =
      o.bond_mode == d.bond_mode
      && o.bond_miimon_ms == d.bond_miimon_ms
      && o.bond_primary == d.bond_primary
      && o.bond_lacp_rate == d.bond_lacp_rate
      && o.bond_xmit_hash_policy == d.bond_xmit_hash_policy
      && o.bond_min_links == d.bond_min_links

  abbrev pub vxlan_matches : ExpectedInterface → InterfaceInventory → Bool
  vxlan_matches d o =
      o.vxlan_vni == d.vxlan_vni
      && o.vxlan_link == d.vxlan_link
      && o.vxlan_local == d.vxlan_local
      && o.vxlan_remote == d.vxlan_remote
      && o.vxlan_dst_port == d.vxlan_dst_port
      && o.vxlan_learning == d.vxlan_learning

  abbrev pub geneve_matches : ExpectedInterface → InterfaceInventory → Bool
  geneve_matches d o =
      o.geneve_vni == d.geneve_vni
      && reported o.geneve_link d.geneve_link
      && o.geneve_remote == d.geneve_remote
      && o.geneve_dst_port == d.geneve_dst_port

  abbrev pub tunnel_matches : ExpectedInterface → InterfaceInventory → Bool
  tunnel_matches d o =
      o.gre_link == d.gre_link
      && o.gre_local == d.gre_local
      && o.gre_remote == d.gre_remote
      && o.gre_key == d.gre_key
      && o.gre_ttl == d.gre_ttl
      && o.ipip_link == d.ipip_link
      && o.ipip_local == d.ipip_local
      && o.ipip_remote == d.ipip_remote
      && o.ipip_ttl == d.ipip_ttl

  abbrev pub mode_matches : ExpectedInterface → InterfaceInventory → Bool
  mode_matches d o = o.macvlan_mode == d.macvlan_mode && o.ipvlan_mode == d.ipvlan_mode

  -- One round of the loop of `_interfaces_match`.
  unfoldable pub interface_matches : String → ExpectedInterface → InterfaceInventory → Bool
  interface_matches name d o =
      o.name == name
      && o.kind == d.kind
      && asked d.mtu (some o.mtu)
      && o.up == d.up
      && same_set o.addresses d.addresses
      && common_matches d o
      && port_matches d o
      && link_matches d o
      && bond_matches d o
      && vxlan_matches d o
      && geneve_matches d o
      && tunnel_matches d o
      && mode_matches d o

  unfoldable pub interfaces_match : Dict ExpectedInterface → Dict InterfaceInventory → Bool
  interfaces_match expected actual =
      same_keys (keys actual) (keys expected)
      && all
          (λ (name, d). elim (lookup name actual) [
            | none ↦ false
            | some o ↦ interface_matches name d o
          ])
          expected

-- manifest.py
abbrev pub pim_register_interface_name : String
pim_register_interface_name = "pimreg"

abbrev pub runs_pim : Option RoutingPlan → Bool
runs_pim none = false
runs_pim (some r) = elim r.pim [ none ↦ false | some p ↦ true ]

-- `name not in runtime_managed_interface_names(node)`
abbrev pub is_managed : NodePlan → String → Bool
is_managed node name = not (runs_pim node.routing && name == pim_register_interface_name)

abbrev pub managed_interfaces : NodePlan → Dict InterfaceInventory → Dict InterfaceInventory
managed_interfaces node [] = []
managed_interfaces node ((name, i) ∷ rest) =
    let others = managed_interfaces node rest in
    if is_managed node name then (name, i) ∷ others else others

-- Routing daemons add routes of their own, so a routed node needs only its expected routes.
unfoldable pub routes_match : Option RoutingPlan → List RoutePlan → List RoutePlan → Bool
routes_match (some routing) desired actual = subset desired actual
routes_match none desired actual = same_set actual desired

unfoldable pub declared_sysctls_match : Dict ℕ → Dict ℕ → Bool
declared_sysctls_match desired actual = all (λ (k, v). lookup k actual == some v) desired

abbrev pub healthy : Option String → Bool
healthy none = false
healthy (some s) = contains ("reachable" ∷ "stale" ∷ "delay" ∷ "probe" ∷ []) s

-- `expected.state in {"reachable", "stale"}`
abbrev pub is_dynamic : Option String → Bool
is_dynamic none = false
is_dynamic (some s) = contains ("reachable" ∷ "stale" ∷ []) s

abbrev pub state_matches : Option String → Option String → Bool
state_matches d o = if is_dynamic d then healthy o else o == d

abbrev pub neighbor_matches : NeighborPlan → NeighborPlan → Bool
neighbor_matches d o =
    o.lladdr == d.lladdr && o.proxy == d.proxy && state_matches d.neighbor_state o.neighbor_state

abbrev pub same_identity : NeighborPlan → NeighborPlan → Bool
same_identity a b = a.dst == b.dst && a.dev == b.dev

-- `actual_by_identity.get(...)`; the identities are distinct where it is asked.
abbrev pub find_neighbor : NeighborPlan → List NeighborPlan → Option NeighborPlan
find_neighbor d [] = none
find_neighbor d (o ∷ os) = if same_identity o d then some o else find_neighbor d os

-- `len({identity ...}) == len(actual)`
abbrev pub distinct_identities : List NeighborPlan → Bool
distinct_identities [] = true
distinct_identities (o ∷ os) =
    elim (find_neighbor o os) [ none ↦ true | some _ ↦ false ] && distinct_identities os

unfoldable pub neighbors_match : List NeighborPlan → List NeighborPlan → Bool
neighbors_match desired actual =
    length desired == length actual
    && distinct_identities actual
    && all (λ d. elim (find_neighbor d actual) [ none ↦ false | some o ↦ neighbor_matches d o ])
        desired
