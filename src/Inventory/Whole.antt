-- ===== src/Inventory/Whole.antt =====
-- `inventory_matches_plan` of backend/base.py and `LifecycleService._inventory_is_absent` of
-- lifecycle.py: the two verdicts on an observed inventory.
use nslab.Base.{
  String, Bool, true, false, not, ◌&&◌, Option, none, some, List, [], ◌∷◌, map, ◌==◌, string_eq,
  if◌then◌else◌,
}
use nslab.Base.Dict.{Dict, lookup, values, keys, same_keys}
use nslab.Error.{Result, ok, err, exception, ◌>>=◌}
use nslab.Plan.Types.{NodePlan, TopologyPlan}
use nslab.Inventory.Types.{NamespaceInventory, LiveInventory}
use nslab.Inventory.Equality.{kind_eq, rule_eq, same_set}
use nslab.Inventory.Expected.{expected_interfaces, expected_routes}
use nslab.Inventory.Match.{
  RedOptions, interfaces_match, managed_interfaces, routes_match, neighbors_match,
  declared_sysctls_match,
}
use nslab.Inventory.Links.{links_match}
pub mod Verdicts
pub mod Interfaces
pub mod Neighbors
pub mod Shown

abbrev pub is_empty {ℓ} : {A : Type ℓ} → List A → Bool
is_empty [] = true
is_empty (x ∷ xs) = false

abbrev pub namespaces_of : List NodePlan → List String
namespaces_of = map (λ (n : NodePlan). n.namespace)

-- The identity of an observed namespace.
abbrev pub same_identity : NodePlan → NamespaceInventory → Bool
same_identity node o = o.node == node.name && o.kind == node.kind && o.namespace == node.namespace

-- Routes, rules, neighbors and sysctls.
abbrev rest_matches : NodePlan → NamespaceInventory → Result Bool
rest_matches node o = do
  routes ← expected_routes node
  ok (
      routes_match node.routing routes o.routes
      && same_set o.rules node.rules
      && neighbors_match node.neighbors o.neighbors
      && declared_sysctls_match node.sysctls o.sysctls)

-- The tests of the contents; what the plan expects may fail to compute.
unfoldable pub contents_match :
    ⦃red : RedOptions⦄ → TopologyPlan → NodePlan → NamespaceInventory → Result Bool
contents_match plan node o = do
  interfaces ← expected_interfaces node plan
  let rest = rest_matches node o
  if interfaces_match interfaces (managed_interfaces node o.interfaces) then rest else ok false

-- `observed = inventory.namespaces[node.namespace]`
unfoldable pub node_matches :
    ⦃red : RedOptions⦄ → TopologyPlan → NodePlan → Option NamespaceInventory → Result Bool
node_matches plan node none = err (exception "KeyError" node.namespace [])
node_matches plan node (some o) =
    let contents = contents_match plan node o in
    if o.exists && same_identity node o then contents else ok false

unfoldable pub nodes_match :
    ⦃red : RedOptions⦄ → TopologyPlan → Dict NamespaceInventory → List NodePlan → Result Bool
nodes_match plan observed [] = ok true
nodes_match plan observed (node ∷ nodes) = do
  matches ← node_matches plan node (lookup node.namespace observed)
  let rest = nodes_match plan observed nodes
  if matches then rest else ok false

unfoldable pub inventory_matches_plan :
    ⦃red : RedOptions⦄ → TopologyPlan → LiveInventory → Result Bool
inventory_matches_plan plan inventory =
    let nodes = values plan.nodes in
    let verdict = (do
      matches ← nodes_match plan inventory.namespaces nodes
      ok (matches && links_match plan inventory)) in
    if is_empty inventory.root_interfaces
      && same_keys (keys inventory.namespaces) (namespaces_of nodes)
    then verdict
    else ok false

-- An observed namespace that is that of the node, and holds nothing.
unfoldable pub node_is_absent : NodePlan → Option NamespaceInventory → Bool
node_is_absent node none = false
node_is_absent node (some o) =
    same_identity node o
    && not o.exists
    && is_empty o.interfaces
    && is_empty o.routes
    && is_empty o.rules
    && is_empty o.neighbors
    && is_empty o.sysctls

abbrev pub nodes_are_absent : Dict NamespaceInventory → List NodePlan → Bool
nodes_are_absent observed [] = true
nodes_are_absent observed (node ∷ nodes) =
    node_is_absent node (lookup node.namespace observed) && nodes_are_absent observed nodes

unfoldable pub inventory_is_absent : TopologyPlan → LiveInventory → Bool
inventory_is_absent plan inventory =
    is_empty inventory.root_interfaces
    && same_keys (keys inventory.namespaces) (namespaces_of (values plan.nodes))
    && nodes_are_absent inventory.namespaces (values plan.nodes)
