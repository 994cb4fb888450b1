-- ===== src/Inventory/Whole/Verdicts.antt =====
-- The two verdicts on an inventory, that it shows the plan and that it shows nothing of it.
use nslab.Base.{
  String, ◌≡◌, refl, sym, subst, ◌↔◌, inl, inr, Bool, true, false, ◌&&◌, Option, none, some, List,
  [], ◌∷◌, In, All, arith, string_eq, beq_iff, Option-cases, if◌then◌else◌,
}
use nslab.Base.Dict.{Dict, lookup, values, keys}
use nslab.Base.Membership.{all-contains_iff}
use nslab.Error.{Result, ok, ◌>>=◌}
use nslab.Plan.Types.{NodePlan, TopologyPlan}
use nslab.Inventory.Types.{NamespaceInventory, LiveInventory}
use nslab.Inventory.Match.{RedOptions}
use nslab.Inventory.Whole.{
  is_empty, namespaces_of, node_is_absent, nodes_are_absent, inventory_is_absent, node_matches,
  nodes_match, inventory_matches_plan,
}

-- The node's namespace was looked for, and is not there: it exists no more and holds nothing.
abbrev pub IsGone : Dict NamespaceInventory → NodePlan → Type 0
IsGone observed node =
    (o : NamespaceInventory) × (lookup node.namespace observed ≡ some o)
    × (o.node ≡ node.name)
    × (o.namespace ≡ node.namespace)
    × (o.exists ≡ false)
    × (o.interfaces ≡ [])
    × (o.routes ≡ [])
    × (o.rules ≡ [])
    × (o.neighbors ≡ [])
    × (o.sysctls ≡ [])

pub is_empty_lem : {A : Type 0} (xs : List A) → is_empty xs ≡ true → xs ≡ []
is_empty_lem [] h = refl
is_empty_lem (x ∷ xs) h = cc

node_is_absent-IsGone :
    (observed : Dict NamespaceInventory) (node : NodePlan)
    → node_is_absent node (lookup node.namespace observed) ≡ true
    → IsGone observed node
unfolding node_is_absent
node_is_absent-IsGone observed node h = elim (Option-cases (lookup node.namespace observed)) [
  | inl missing ↦ absurd (ground arith)
  | inr (o, found) ↦ (
    o,
    found,
    ground (arith, beq_iff o.node node.name),
    ground (arith, beq_iff o.namespace node.namespace),
    ground arith,
    is_empty_lem o.interfaces (ground arith),
    is_empty_lem o.routes (ground arith),
    is_empty_lem o.rules (ground arith),
    is_empty_lem o.neighbors (ground arith),
    is_empty_lem o.sysctls (ground arith),
  )
]

nodes_are_absent-IsGone :
    (observed : Dict NamespaceInventory) (nodes : List NodePlan)
    → nodes_are_absent observed nodes ≡ true
    → All (IsGone observed) nodes
nodes_are_absent-IsGone observed [] h = tt
nodes_are_absent-IsGone observed (n ∷ nodes) h = (
  node_is_absent-IsGone observed n (ground arith),
  nodes_are_absent-IsGone observed nodes (ground arith),
)

-- Where the service takes the resources of a plan to be absent, the inventory has no interface in the
-- root namespace, looked at the namespaces of the plan's nodes and at no others, and found of each
-- node, under its own name, that its namespace does not exist and holds no interface, route, rule,
-- neighbor or sysctl.
pub inventory_is_absent-IsGone :
    (plan : TopologyPlan) (inventory : LiveInventory)
    → inventory_is_absent plan inventory ≡ true
    → (inventory.root_interfaces ≡ [])
      × ((n : String) → In n (keys inventory.namespaces) ↔ In n (namespaces_of (values plan.nodes)))
      × All (IsGone inventory.namespaces) (values plan.nodes)
unfolding inventory_is_absent
inventory_is_absent-IsGone plan inventory h =
    let seen = keys inventory.namespaces in
    let planned = namespaces_of (values plan.nodes) in
    (
      is_empty_lem inventory.root_interfaces (ground arith),
      λ n. (
        (all-contains_iff planned seen).0 (ground arith) n,
        (all-contains_iff seen planned).0 (ground arith) n,
      ),
      nodes_are_absent-IsGone inventory.namespaces (values plan.nodes) (ground arith),
    )

absent_node :
    ⦃red : RedOptions⦄ (plan : TopologyPlan) (node : NodePlan) (o : Option NamespaceInventory)
    → node_is_absent node o ≡ true
    → node_matches plan node o ≡ ok false
unfolding node_is_absent node_matches
absent_node plan node none h = ground arith
absent_node plan node (some o) h = ground arith

absent_nodes :
    ⦃red : RedOptions⦄ (plan : TopologyPlan) (observed : Dict NamespaceInventory) (node : NodePlan)
    (nodes : List NodePlan)
    → nodes_are_absent observed (node ∷ nodes) ≡ true
    → nodes_match plan observed (node ∷ nodes) ≡ ok false
unfolding nodes_match
absent_nodes plan observed node nodes h =
    rw (absent_node plan node (lookup node.namespace observed) (ground arith))

refused :
    (b c : Bool) (r : Result Bool)
    → r ≡ ok false
    → (if b then (r >>= λ m. ok (m && c)) else ok false) ≡ ok false
refused true c r q = rw q
refused false c r q = refl

-- No inventory both shows a plan that has a node and shows that its resources are absent: where the
-- service takes them to be absent, the comparison with the plan says no, and does not fail.
pub absent_excludes_match :
    ⦃red : RedOptions⦄ (plan : TopologyPlan) (inventory : LiveInventory) (name : String)
    (node : NodePlan) (more : Dict NodePlan)
    → plan.nodes ≡ (name, node) ∷ more
    → inventory_is_absent plan inventory ≡ true
    → inventory_matches_plan plan inventory ≡ ok false
unfolding inventory_is_absent inventory_matches_plan
absent_excludes_match plan inventory name node more q h =
    let absent : nodes_are_absent inventory.namespaces (values plan.nodes) ≡ true = ground arith in
    refused _ _ _ (
      subst (λ ns. nodes_match plan inventory.namespaces (values ns) ≡ ok false) (sym q)
        (absent_nodes plan inventory.namespaces node (values more)
          (subst (λ ns. nodes_are_absent inventory.namespaces (values ns) ≡ true) q absent)))
