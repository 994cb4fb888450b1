-- ===== src/Inventory/Whole/Shown.antt =====
-- backend/base.py, `inventory_matches_plan`: what a positive verdict says.
use nslab.Inventory.Whole.Verdicts.{is_empty_lem}
use nslab.Base.{
  String, ◌≡◌, refl, sym, subst, ◌↔◌, ◌⊎◌, inl, inr, ◌==◌, Bool-cases, Bool, true, false, ◌&&◌,
  Option, none, some, List, [], ◌∷◌, In, All, arith, string_eq, beq_iff, Option-cases,
  if◌then◌else◌,
}
use nslab.Base.Dict.{Dict, lookup, values, keys, same_keys}
use nslab.Base.Membership.{all-contains_iff}
use nslab.Error.{Result, ok, err, ◌>>=◌}
use nslab.Plan.Types.{NodePlan, TopologyPlan, RoutePlan, PolicyRulePlan, RoutingPlan, PimPlan}
use nslab.Inventory.Types.{NamespaceInventory, LiveInventory, ExpectedInterface, InterfaceInventory}
use nslab.Inventory.Equality.{route_eq, rule_eq, kind_eq}
use nslab.Inventory.Expected.{expected_interfaces, expected_routes}
use nslab.Inventory.Match.{
  RedOptions, interfaces_match, managed_interfaces, is_managed, runs_pim,
  pim_register_interface_name, routes_match,
}
use nslab.Inventory.Links.{links_match}
use nslab.Inventory.Links.Veths.{IsVeth, AllUsable}
use nslab.Inventory.Links.Pairs.{ArePairs, links_match_iff}
use nslab.Inventory.Whole.Interfaces.{
  AllShown, interfaces_match-AllShown, same_set_iff, both, equal,
}
use nslab.Inventory.Whole.Neighbors.{
  ShowsNeighbors, neighbors_match-ShowsNeighbors, ShowsSysctls, declared_sysctls_match-ShowsSysctls,
}
use nslab.Inventory.Whole.{
  is_empty, namespaces_of, contents_match, node_matches, nodes_match, inventory_matches_plan,
}

bind_ok :
    {A B : Type 0} (r : Result A) (f : A → Result B) {b : B}
    → (r >>= f) ≡ ok b
    → (a : A) × (r ≡ ok a) × (f a ≡ ok b)
bind_ok (ok a) f h = (a, refl, h)
bind_ok (err x) f h = cc

ok-injective : {A : Type 0} {a b : A} → ok a ≡ ok b → a ≡ b
ok-injective h = cc h

-- A test of which only one side computes.
tested :
    (b : Bool) (r : Result Bool)
    → (if b then r else ok false) ≡ ok true
    → (b ≡ true) × (r ≡ ok true)
tested true r h = (refl, h)
tested false r h = cc

-- The routes of a namespace are those expected; where routing daemons run there may be more.
abbrev pub ShowsRoutes : Option RoutingPlan → List RoutePlan → List RoutePlan → Type 0
ShowsRoutes none expected actual = (r : RoutePlan) → In r actual ↔ In r expected
ShowsRoutes (some routing) expected actual = (r : RoutePlan) → In r expected → In r actual

routes_match-ShowsRoutes :
    (o : Option RoutingPlan) (expected actual : List RoutePlan)
    → routes_match o expected actual ≡ true
    → ShowsRoutes o expected actual
unfolding routes_match
routes_match-ShowsRoutes none expected actual h = same_set_iff actual expected h
routes_match-ShowsRoutes (some routing) expected actual h = (all-contains_iff actual expected).0 h

-- The interface that the routing daemon of PIM makes, on a node that runs PIM.
abbrev pub IsPimRegister : NodePlan → String → Type 0
IsPimRegister node name =
    (name ≡ "pimreg")
    × ((routing : RoutingPlan) × (pim : PimPlan) × (node.routing ≡ some routing)
        × (routing.pim ≡ some pim))

runs_pim_lem :
    (o : Option RoutingPlan)
    → runs_pim o ≡ true
    → (routing : RoutingPlan) × (pim : PimPlan) × (o ≡ some routing) × (routing.pim ≡ some pim)
runs_pim_lem none h = absurd (cc h)
runs_pim_lem (some r) h = elim (Option-cases r.pim) [
  | inl no_pim ↦ absurd (ground (arith, no_pim, h))
  | inr (p, runs) ↦ (r, p, refl, runs)
]

-- A name that is found is managed.
found_managed :
    (node : NodePlan) (name : String) (d : Dict InterfaceInventory) {o : InterfaceInventory}
    → lookup name (managed_interfaces node d) ≡ some o
    → is_managed node name ≡ true
found_managed node name [] h = absurd (cc h)
found_managed node name ((k, i) ∷ d) {o} h = elim (Bool-cases (is_managed node k)) [
  | inl managed ↦ elim (Bool-cases (name == k)) [
    | inl same ↦ subst (λ n. is_managed node n ≡ true) (sym ((beq_iff name k).0 same)) managed
    | inr other ↦
        let rest : lookup name (managed_interfaces node d) ≡ some o =
          rw other at (rw managed at h) in
        found_managed node name d {o = o} rest
  ]
  | inr not_managed ↦ found_managed node name d {o = o} (rw not_managed at h)
]

managed_lookup :
    (node : NodePlan) (name : String) (d : Dict InterfaceInventory) {o : InterfaceInventory}
    → lookup name (managed_interfaces node d) ≡ some o
    → lookup name d ≡ some o
managed_lookup node name [] h = h
managed_lookup node name ((k, i) ∷ d) {o} h = elim (Bool-cases (name == k)) [
  | inl same ↦
      let managed : is_managed node k ≡ true =
        subst (λ n. is_managed node n ≡ true) ((beq_iff name k).0 same)
          (found_managed node name ((k, i) ∷ d) {o = o} h) in
      rw same (rw same at (rw managed at h))
  | inr other ↦ rw other (elim (Bool-cases (is_managed node k)) [
    | inl managed ↦ managed_lookup node name d {o = o} (rw other at (rw managed at h))
    | inr not_managed ↦ managed_lookup node name d {o = o} (rw not_managed at h)
  ])
]

not_managed_lem :
    (node : NodePlan) (name : String) → is_managed node name ≡ false → IsPimRegister node name
not_managed_lem node name h =
    let (runs, named) =
      both (runs_pim node.routing) (name == pim_register_interface_name) (ground (arith, h)) in
    (equal named, runs_pim_lem node.routing runs)

managed_keys :
    (node : NodePlan) (name : String) (d : Dict InterfaceInventory)
    → In name (keys d)
    → In name (keys (managed_interfaces node d)) ⊎ IsPimRegister node name
managed_keys node name [] at = absurd at
managed_keys node name ((k, i) ∷ d) at = elim (Bool-cases (is_managed node k)) [
  | inl managed ↦ rw managed (elim at [
    | inl here ↦ inl (inl here)
    | inr rest ↦ elim (managed_keys node name d rest) [
      | inl found ↦ inl (inr found)
      | inr pim ↦ inr pim
    ]
  ])
  | inr not_managed ↦ rw not_managed (elim at [
    | inl here ↦ inr (subst (IsPimRegister node) (sym here) (not_managed_lem node k not_managed))
    | inr rest ↦ managed_keys node name d rest
  ])
]

module _ ⦃red : RedOptions⦄ (plan : TopologyPlan) where
  -- Every expected interface is there as expected, and no other one but that of PIM.
  abbrev pub ShowsInterfaces : NodePlan → Dict InterfaceInventory → Type 0
  ShowsInterfaces node actual =
      (expected : Dict ExpectedInterface) × (expected_interfaces node plan ≡ ok expected)
      × AllShown actual expected
      × ((n : String) → In n (keys actual) → In n (keys expected) ⊎ IsPimRegister node n)

  -- The namespace holds what is expected of it.
  pub record ShowsContents (node : NodePlan) (o : NamespaceInventory) : Type 0 where
    pub interfaces : ShowsInterfaces node o.interfaces
    pub routes :
        (routes : List RoutePlan) × (expected_routes node ≡ ok routes)
        × ShowsRoutes node.routing routes o.routes
    pub rules : (r : PolicyRulePlan) → In r o.rules ↔ In r node.rules
    pub neighbors : ShowsNeighbors node.neighbors o.neighbors
    pub sysctls : ShowsSysctls node.sysctls o.sysctls

  -- The namespace of the node is there, under the node's name, with these contents.
  pub record IsShown (observed : Dict NamespaceInventory) (node : NodePlan) : Type 0 where
    pub seen : NamespaceInventory
    pub found : lookup node.namespace observed ≡ some seen
    pub exists : seen.exists ≡ true
    pub same_node : seen.node ≡ node.name
    pub same_kind : seen.kind ≡ node.kind
    pub same_namespace : seen.namespace ≡ node.namespace
    pub contents : ShowsContents node seen

  AllShown-in :
      (node : NodePlan) (actual : Dict InterfaceInventory) (expected : Dict ExpectedInterface)
      → AllShown (managed_interfaces node actual) expected
      → AllShown actual expected
  AllShown-in node actual [] a = tt
  AllShown-in node actual ((name, d) ∷ rest) ((o, found, shown), more) =
      ((o, managed_lookup node name actual {o = o} found, shown), AllShown-in node actual rest more)

  shows_interfaces :
      (node : NodePlan) (actual : Dict InterfaceInventory) (expected : Dict ExpectedInterface)
      → expected_interfaces node plan ≡ ok expected
      → interfaces_match expected (managed_interfaces node actual) ≡ true
      → ShowsInterfaces node actual
  shows_interfaces node actual expected computed h =
      let (names, shown) = interfaces_match-AllShown expected (managed_interfaces node actual) h in
      (
        expected,
        computed,
        AllShown-in node actual expected shown,
        λ n at. elim (managed_keys node n actual at) [
          | inl managed ↦ inl ((names n).0 managed)
          | inr pim ↦ inr pim
        ],
      )

  contents_match-ShowsContents :
      (node : NodePlan) (o : NamespaceInventory)
      → contents_match plan node o ≡ ok true
      → ShowsContents node o
  unfolding contents_match
  contents_match-ShowsContents node o h =
      let (interfaces, computed, verdict) = bind_ok (expected_interfaces node plan) _ h in
      let (matching, rest) = tested _ _ verdict in
      let (routes, expected, tests) = bind_ok (expected_routes node) _ rest in
      let (three, sysctls) = both _ _ (ok-injective tests) in
      let (two, neighbors) = both _ _ three in
      let (same_routes, rules) = both _ _ two in
      record {
        interfaces = shows_interfaces node o.interfaces interfaces computed matching;
        routes =
            (routes, expected, routes_match-ShowsRoutes node.routing routes o.routes same_routes);
        rules = same_set_iff o.rules node.rules rules;
        neighbors = neighbors_match-ShowsNeighbors node.neighbors o.neighbors neighbors;
        sysctls = declared_sysctls_match-ShowsSysctls node.sysctls o.sysctls sysctls;
      }

  node_matches-IsShown :
      (observed : Dict NamespaceInventory) (node : NodePlan)
      → node_matches plan node (lookup node.namespace observed) ≡ ok true
      → IsShown observed node
  unfolding node_matches
  node_matches-IsShown observed node h = elim (Option-cases (lookup node.namespace observed)) [
    | inl missing ↦ absurd (ground arith)
    | inr (o, found) ↦
        let (there, contents) =
          tested _ _ (subst (λ x. node_matches plan node x ≡ ok true) found h) in
        let (exists, identity) = both _ _ there in
        let (pair, same_namespace) = both _ _ identity in
        let (same_node, same_kind) = both _ _ pair in
        record {
          seen = o;
          found = found;
          exists = exists;
          same_node = equal same_node;
          same_kind = equal same_kind;
          same_namespace = equal same_namespace;
          contents = contents_match-ShowsContents node o contents;
        }
  ]

  nodes_match-IsShown :
      (observed : Dict NamespaceInventory) (nodes : List NodePlan)
      → nodes_match plan observed nodes ≡ ok true
      → All (IsShown observed) nodes
  unfolding nodes_match
  nodes_match-IsShown observed [] h = tt
  nodes_match-IsShown observed (node ∷ nodes) h =
      let (matches, computed, verdict) =
        bind_ok (node_matches plan node (lookup node.namespace observed)) _ h in
      let (yes', rest) = tested matches _ verdict in
      (
        node_matches-IsShown observed node (cc (computed, yes')),
        nodes_match-IsShown observed nodes rest,
      )

verdict_parts :
    (b c : Bool) (r : Result Bool)
    → (if b then (r >>= λ m. ok (m && c)) else ok false) ≡ ok true
    → (b ≡ true) × (r ≡ ok true) × (c ≡ true)
verdict_parts true c (ok m) h = (refl, ground arith, ground arith)
verdict_parts true c (err x) h = cc
verdict_parts false c r h = cc

-- Where an inventory matches a plan, it has no interface in the root namespace and looked at the namespaces
-- of the plan's nodes and at no others. Every veth has an identity, and the links of the plan have
-- identities, no two the same, each shown by the two ends of its link and by no other veth. The namespace
-- of each node exists, under the name and the kind of the node. Its interfaces are the expected ones, field
-- by field, and on a node that runs PIM the interface of the routing daemon; its routes are the expected
-- ones, or where routing daemons run at least those; its rules are the planned ones; it has as many
-- neighbors as planned, one for each, with the planned address, device, link address, proxy flag and
-- state, where an entry planned as reachable or stale may be in any healthy state; and each planned sysctl
-- has its value. The options of a classless queueing discipline are those that simple_qdisc_matches accepts.
pub inventory_matches_plan-IsShown :
    ⦃red : RedOptions⦄ (plan : TopologyPlan) (inventory : LiveInventory)
    → inventory_matches_plan plan inventory ≡ ok true
    → (inventory.root_interfaces ≡ [])
      × ((n : String) → In n (keys inventory.namespaces) ↔ In n (namespaces_of (values plan.nodes)))
      × (AllUsable inventory.namespaces
          × ArePairs inventory (IsVeth inventory.namespaces) [] plan.links)
      × All (IsShown plan inventory.namespaces) (values plan.nodes)
unfolding inventory_matches_plan
inventory_matches_plan-IsShown plan inventory h =
    let looked =
      is_empty inventory.root_interfaces
      && same_keys (keys inventory.namespaces) (namespaces_of (values plan.nodes)) in
    let nodes = nodes_match plan inventory.namespaces (values plan.nodes) in
    let (whole, matching, linked) = verdict_parts looked (links_match plan inventory) nodes h in
    (
      is_empty_lem inventory.root_interfaces (ground arith),
      same_set_iff (keys inventory.namespaces) (namespaces_of (values plan.nodes)) (ground arith),
      (links_match_iff plan inventory).0 linked,
      nodes_match-IsShown plan inventory.namespaces (values plan.nodes) matching,
    )
