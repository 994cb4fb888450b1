-- ===== src/Plan/Interfaces/Tables.antt =====
-- The routing table of an interface, and the tables that a node manages.
use nslab.Base.Membership.{contains_iff, In-append_iff}
use nslab.Base.{
  ℕ, String, ◌≡◌, refl, ◌↔◌, ◌⊎◌, inl, inr, true, none, some, List, [], ◌∷◌, ◌++◌, map, arith,
  nat_eq, string_eq, beq_iff, contains, In, Bool-cases, Option-cases,
}
use nslab.Base.Dict.{Dict, lookup, values}
use nslab.Error.{ok}
use nslab.Plan.Types.{VrfDevicePlan}
use nslab.Plan.Types.{DevicePlan, vrf, NodePlan, RoutePlan}
use nslab.Plan.Interfaces.{
  main_route_table, device_name, vrf_owns, first_owner, node_interface_vrf_master,
  node_interface_route_table, dedup_from, vrf_tables, node_route_tables,
}

-- Every device stands under its own name, and no name is used twice.
abbrev pub IsNamed : Dict DevicePlan → Type 0
IsNamed [] = Unit
IsNamed ((k, d) ∷ ds) = (k ≡ device_name d) × (lookup k ds ≡ none) × IsNamed ds

-- No element stands twice.
abbrev pub IsDistinct : List ℕ → Type 0
IsDistinct [] = Unit
IsDistinct (x ∷ xs) = ¬ In x xs × IsDistinct xs

-- The elements of the result are those of the list that were not seen before.
dedup_from_iff : (x : ℕ) (seen xs : List ℕ) → In x (dedup_from seen xs) ↔ (In x xs × ¬ In x seen)
dedup_from_iff x seen [] = (λ h. elim h [ ], λ h. elim h.0 [ ])
dedup_from_iff x seen (y ∷ ys) =
    grind (arith, contains_iff seen y, dedup_from_iff x seen ys, dedup_from_iff x (y ∷ seen) ys)

dedup_from-IsDistinct : (seen xs : List ℕ) → IsDistinct (dedup_from seen xs)
dedup_from-IsDistinct seen [] = tt
dedup_from-IsDistinct seen (y ∷ ys) = ground (
  arith,
  dedup_from-IsDistinct seen ys,
  dedup_from-IsDistinct (y ∷ seen) ys,
  dedup_from_iff y (y ∷ seen) ys,
)

-- A managed table is the main one, that of a VRF of the node, or that of a declared route.
abbrev pub IsManaged : ℕ → NodePlan → Type 0
IsManaged t node =
    (t ≡ main_route_table)
    ⊎ In t (vrf_tables (values node.devices))
    ⊎ In t (map (λ (r : RoutePlan). r.table) node.routes)

-- The managed tables of a node are the main one, those of its VRFs and those of its declared
-- routes, all of them and no others, each once.
pub node_route_tables_lem :
    (node : NodePlan)
    → IsDistinct (node_route_tables node)
      × ((t : ℕ) → In t (node_route_tables node) ↔ IsManaged t node)
unfolding node_route_tables
node_route_tables_lem node =
    let vrfs = vrf_tables (values node.devices) in
    let routes = map (λ (r : RoutePlan). r.table) node.routes in
    (
      dedup_from-IsDistinct [] (main_route_table ∷ (vrfs ++ routes)),
      λ t. grind (
        arith,
        dedup_from_iff t [] (main_route_table ∷ (vrfs ++ routes)),
        In-append_iff t vrfs routes,
      ),
    )

-- The owner that the search finds stands under its name, and is a VRF with the interface.
vrf_owner_lem :
    (i : String) (ds : Dict DevicePlan) {m : String}
    → IsNamed ds
    → first_owner (vrf_owns i) (values ds) ≡ some m
    → (d : VrfDevicePlan) × (lookup m ds ≡ some (vrf d))
      × (contains d.interfaces i ≡ true)
      × In d.table (vrf_tables (values ds))
unfolding first_owner
vrf_owner_lem i [] named h = cc
vrf_owner_lem i ((k, vrf d) ∷ ds) {m} named h = elim (Bool-cases (contains d.interfaces i)) [
  | inl own ↦ (d, ground (arith, beq_iff m k), own, inl refl)
  | inr other ↦
      let (d', found, own, at) = vrf_owner_lem i ds {m = m} named.2 (ground arith) in
      (d', ground (arith, beq_iff m k), own, inr at)
]
vrf_owner_lem i ((k, _) ∷ ds) {m} named h =
    let (d', found, own, at) = vrf_owner_lem i ds {m = m} named.2 h in
    (d', ground (arith, beq_iff m k), own, at)

-- The table of a VRF that is the master of the interface and lists it.
abbrev pub VrfTable : NodePlan → String → ℕ → Type 0
VrfTable node i t =
    (d : VrfDevicePlan) × (m : String) × (node_interface_vrf_master node i ≡ some m)
    × (lookup m node.devices ≡ some (vrf d))
    × (contains d.interfaces i ≡ true)
    × (t ≡ d.table)

-- The main table, for an interface that no VRF owns.
abbrev pub MainTable : NodePlan → String → ℕ → Type 0
MainTable node i t = (node_interface_vrf_master node i ≡ none) × (t ≡ main_route_table)

-- Where the devices of a node stand under their own names, each once, every interface has a routing
-- table: the main one if no VRF owns it, and otherwise that of the VRF that is its master, which
-- lists it. It is one of the tables that the node manages.
pub node_interface_route_table_lem :
    (node : NodePlan) (i : String)
    → IsNamed node.devices
    → (t : ℕ) × (node_interface_route_table node i ≡ ok t)
      × In t (node_route_tables node)
      × (MainTable node i t ⊎ VrfTable node i t)
unfolding node_interface_route_table node_interface_vrf_master
node_interface_route_table_lem node i named =
    elim (Option-cases (first_owner (vrf_owns i) (values node.devices))) [
      | inl free ↦ (
        main_route_table,
        ground arith,
        ((node_route_tables_lem node).1 _).1 (inl refl),
        inl (free, refl),
      )
      | inr (m, owned) ↦
          let (d, found, own, at) = vrf_owner_lem i node.devices {m = m} named owned in
          (
            d.table,
            ground arith,
            ((node_route_tables_lem node).1 _).1 (inr (inl at)),
            inr (d, m, owned, found, own, refl),
          )
    ]
