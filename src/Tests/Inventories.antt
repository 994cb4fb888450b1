-- ===== src/Tests/Inventories.antt =====
-- The theorems on inventories, at two hosts with a link between them.
use nslab.Inventory.Whole.Shown.{IsShown, inventory_matches_plan-IsShown}
use nslab.Base.Equality.{discrete_of}
use nslab.Plan.Interfaces.{node_interface_addresses}
use nslab.Inventory.Equality.{RoutePlan-discrete}
use nslab.Inventory.Expected.{expected_interfaces, expected_routes}
use nslab.Base.{String, ◌≡◌, refl, ◌↔◌, true, false, none, some, [], ◌∷◌, In, All}
use nslab.Base.Dict.{keys, values}
use nslab.Base.Int.{pos}
use nslab.Error.{ok}
use nslab.Plan.Types.{linux, EndpointPlan, TopologyPlan}
use nslab.Inventory.Types.{NamespaceInventory, LiveInventory, observed_interface}
use nslab.Inventory.Links.{links_match, observed_veths, veths_of, match_links}
use nslab.Inventory.Links.Veths.{AllUsable, IsVeth}
use nslab.Inventory.Links.Pairs.{ArePairs, links_match_iff}
use nslab.Inventory.Match.{
  RedOptions, interfaces_match, interface_matches, routes_match, neighbors_match,
  declared_sysctls_match, qdisc_matches,
}
use nslab.Inventory.Whole.{
  inventory_is_absent, inventory_matches_plan, node_is_absent, namespaces_of, nodes_match,
  node_matches, contents_match,
}
use nslab.Inventory.Whole.Verdicts.{IsGone, inventory_is_absent-IsGone, absent_excludes_match}
use nslab.Tests.Simulation.{host, lab, observe}

abbrev end : String → EndpointPlan
end name = record { node = name; interface = "eth0"; namespace = name; temporary_name = name }

abbrev pair_plan : TopologyPlan
pair_plan = record {
  name = "pair";
  fingerprint = "f2";
  nodes = ("h1", host) ∷ [];
  links =
      record { index = 0; left = end "a"; right = end "b"; mtu = 1500; netem = none; qdisc = none }
      ∷ [];
}

abbrev with_veth : String → NamespaceInventory
with_veth name = record {
  node = name;
  kind = linux;
  namespace = name;
  exists = true;
  interfaces =
      (
        "eth0",
        record (observed_interface "eth0" "veth" (some 2) (pos 1500) true) { link_id = some "x1" },
      )
      ∷ [];
  routes = [];
  sysctls = [];
  rules = [];
  neighbors = [];
}

abbrev pair_inventory : LiveInventory
pair_inventory = record {
  namespaces = ("a", with_veth "a") ∷ ("b", with_veth "b") ∷ [];
  root_interfaces = [];
}

links_match_iff_example : (links_match pair_plan pair_inventory ≡ true) ↔ (
    AllUsable pair_inventory.namespaces
    × ArePairs pair_inventory (IsVeth pair_inventory.namespaces) [] pair_plan.links)
links_match_iff_example = links_match_iff pair_plan pair_inventory

lab_is_absent : inventory_is_absent lab (observe false) ≡ true
unfolding inventory_is_absent node_is_absent
lab_is_absent = refl

inventory_is_absent-IsGone_example :
    ((observe false).root_interfaces ≡ [])
    × ((n : String)
        → In n (keys (observe false).namespaces) ↔ In n (namespaces_of (values lab.nodes)))
    × All (IsGone (observe false).namespaces) (values lab.nodes)
inventory_is_absent-IsGone_example = inventory_is_absent-IsGone lab (observe false) lab_is_absent

abbrev no_red : RedOptions
no_red = record { effective = λ o. none; is_close = λ a b. false }

absent_excludes_match_example : inventory_matches_plan ⦃red = no_red⦄ lab (observe false) ≡ ok false
absent_excludes_match_example =
    absent_excludes_match ⦃red = no_red⦄ lab (observe false) "h1" host [] refl lab_is_absent

lab_matches : inventory_matches_plan ⦃red = no_red⦄ lab (observe true) ≡ ok true
unfolding inventory_matches_plan nodes_match node_matches contents_match expected_interfaces
    expected_routes interfaces_match interface_matches routes_match RoutePlan-discrete
    neighbors_match declared_sysctls_match links_match observed_veths veths_of match_links
    node_interface_addresses qdisc_matches discrete_of
lab_matches = refl

inventory_matches_plan-IsShown_example :
    ((observe true).root_interfaces ≡ [])
    × ((n : String)
        → In n (keys (observe true).namespaces) ↔ In n (namespaces_of (values lab.nodes)))
    × (AllUsable (observe true).namespaces
        × ArePairs (observe true) (IsVeth (observe true).namespaces) [] lab.links)
    × All (IsShown ⦃red = no_red⦄ lab (observe true).namespaces) (values lab.nodes)
inventory_matches_plan-IsShown_example =
    inventory_matches_plan-IsShown ⦃red = no_red⦄ lab (observe true) lab_matches
