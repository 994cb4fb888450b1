-- ===== src/Plan/Interfaces/Masters.antt =====
-- Which master an interface has: a bond before a VRF before the bridge of the node.
use nslab.Base.{
  String, ◌≡◌, ◌≢◌, refl, sym, ◌∙◌, ◌↔◌, inl, inr, Bool, true, false, none, some, List, [], ◌∷◌, In,
  All, arith, string_eq, option_eq, beq_iff, any, Bool-cases, Option-cases,
}
use nslab.Base.Dict.{values}
use nslab.Base.Membership.{contains_iff}
use mathlib.Core.Option.{some-injective}
use nslab.Plan.Types.{DevicePlan, vrf, bond, vxlan, geneve, NodePlan, bridge}
use nslab.Plan.Interfaces.{
  device_name, vrf_owns, bond_owns, overlay_on, first_owner, node_interface_vrf_master,
  node_interface_master,
}

-- The device is a bond with the name `m` that lists the interface.
abbrev pub BondLists : String → DevicePlan → String → Type 0
BondLists i (bond b) m = In i b.interfaces × (m ≡ b.name)
BondLists i _ m = ⊥

-- The device is a VRF with the name `m` that lists the interface.
abbrev pub VrfLists : String → DevicePlan → String → Type 0
VrfLists i (vrf v) m = In i v.interfaces × (m ≡ v.name)
VrfLists i _ m = ⊥

-- The device is a VXLAN or a Geneve device whose link is the interface.
abbrev pub StandsOn : String → DevicePlan → Type 0
StandsOn i (vxlan d) = d.link ≡ i
StandsOn i (geneve d) = d.link ≡ i
StandsOn i _ = ⊥

-- No device of the list owns, under any name.
abbrev pub NoOwner : (DevicePlan → String → Type 0) → List DevicePlan → Type 0
NoOwner Owns ds = All (λ d. (m : String) → Owns d m → ⊥) ds

-- The first device of the list that owns does so under the name `m`.
pub data FirstOwner (Owns : DevicePlan → String → Type 0) (m : String)
    : List DevicePlan → Type 0 where
  here : (d : DevicePlan) (ds : List DevicePlan) → Owns d m → FirstOwner Owns m (d ∷ ds)
  later :
      (d : DevicePlan) {ds : List DevicePlan}
      → ((n : String) → Owns d n → ⊥)
      → FirstOwner Owns m ds
      → FirstOwner Owns m (d ∷ ds)

-- The test of the planner and the description agree.
abbrev Agrees : (DevicePlan → Bool) → (DevicePlan → String → Type 0) → Type 0
Agrees owns Owns =
    (d : DevicePlan) (m : String) → ((owns d ≡ true) × (m ≡ device_name d)) ↔ Owns d m

bond_owns-Agrees : (i : String) → Agrees (bond_owns i) (BondLists i)
bond_owns-Agrees i (bond b) m = (
  λ (h, e). ((contains_iff b.interfaces i).0 h, e),
  λ (h, e). ((contains_iff b.interfaces i).1 h, e),
)
bond_owns-Agrees i _ m = (λ (h, e). cc, λ h. absurd h)

vrf_owns-Agrees : (i : String) → Agrees (vrf_owns i) (VrfLists i)
vrf_owns-Agrees i (vrf v) m = (
  λ (h, e). ((contains_iff v.interfaces i).0 h, e),
  λ (h, e). ((contains_iff v.interfaces i).1 h, e),
)
vrf_owns-Agrees i _ m = (λ (h, e). cc, λ h. absurd h)

overlay_on-StandsOn : (i : String) (d : DevicePlan) → (overlay_on i d ≡ true) ↔ StandsOn i d
overlay_on-StandsOn i (vxlan d) = beq_iff d.link i
overlay_on-StandsOn i (geneve d) = beq_iff d.link i
overlay_on-StandsOn i _ = (λ h. cc, λ h. absurd h)

any-StandsOn :
    (i : String) (ds : List DevicePlan)
    → (any (overlay_on i) ds ≡ false) ↔ All (λ d. StandsOn i d → ⊥) ds
any-StandsOn i [] = (λ h. tt, λ h. refl)
any-StandsOn i (d ∷ ds) = (
  λ h. (
    λ on. absurd (ground (arith, (overlay_on-StandsOn i d).1 on)),
    (any-StandsOn i ds).0 (ground arith),
  ),
  λ h. elim (Bool-cases (overlay_on i d)) [
    | inl on ↦ absurd (h.0 ((overlay_on-StandsOn i d).0 on))
    | inr off ↦ rw (off) ((any-StandsOn i ds).1 h.1)
  ],
)

module _ (owns : DevicePlan → Bool) (Owns : DevicePlan → String → Type 0)
    (agrees : Agrees owns Owns) where
  other : (d : DevicePlan) → owns d ≡ false → (n : String) → Owns d n → ⊥
  other d h n own = absurd (cc (((agrees d n).1 own).0, h))

  first_owner-NoOwner : (ds : List DevicePlan) → (first_owner owns ds ≡ none) ↔ NoOwner Owns ds
  unfolding first_owner
  first_owner-NoOwner [] = (λ h. tt, λ h. refl)
  first_owner-NoOwner (d ∷ ds) = elim (Bool-cases (owns d)) [
    | inl own ↦ (
      λ h. absurd (ground arith),
      λ h. absurd (h.0 (device_name d) ((agrees d (device_name d)).0 (own, refl))),
    )
    | inr off ↦ (
      λ h. (other d off, (first_owner-NoOwner ds).0 (ground arith)),
      λ h. rw off ((first_owner-NoOwner ds).1 h.1),
    )
  ]

  first_owner-FirstOwner :
      (m : String) (ds : List DevicePlan) → first_owner owns ds ≡ some m → FirstOwner Owns m ds
  unfolding first_owner
  first_owner-FirstOwner m [] h = absurd (cc h)
  first_owner-FirstOwner m (d ∷ ds) h = elim (Bool-cases (owns d)) [
    | inl own ↦ here d ds ((agrees d m).0 (own, sym (some-injective _ _ (sym (rw own refl) ∙ h))))
    | inr off ↦ later d (other d off) (first_owner-FirstOwner m ds (ground arith))
  ]

  FirstOwner-first_owner :
      {m : String} {ds : List DevicePlan} → FirstOwner Owns m ds → first_owner owns ds ≡ some m
  unfolding first_owner
  FirstOwner-first_owner {m} (here d ds own) =
      let (yes', e) = (agrees d m).1 own in rw (yes', e) refl
  FirstOwner-first_owner (later d apart rest) = elim (Bool-cases (owns d)) [
    | inl own ↦ absurd (apart (device_name d) ((agrees d (device_name d)).0 (own, refl)))
    | inr off ↦ rw off (FirstOwner-first_owner rest)
  ]

-- The bridge of a bridge node is the master of an interface that is not the bridge itself and on
-- which no VXLAN or Geneve device of the node stands.
pub record IsBridged (node : NodePlan) (i m : String) : Type 0 where
  pub bridge_node : node.kind ≡ bridge
  pub named : node.bridge_name ≡ some m
  pub not_itself : i ≢ m
  pub no_overlay : All (λ d. StandsOn i d → ⊥) (values node.devices)

-- The master that an interface of a node has.
pub data IsMaster (node : NodePlan) (i m : String) : Type 0 where
  by_bond : FirstOwner (BondLists i) m (values node.devices) → IsMaster node i m
  by_vrf :
      NoOwner (BondLists i) (values node.devices)
      → FirstOwner (VrfLists i) m (values node.devices)
      → IsMaster node i m
  by_bridge :
      NoOwner (BondLists i) (values node.devices)
      → NoOwner (VrfLists i) (values node.devices)
      → IsBridged node i m
      → IsMaster node i m

module _ (node : NodePlan) (i : String) where
  node_interface_master-IsMaster :
      {m : String} → node_interface_master node i ≡ some m → IsMaster node i m
  unfolding node_interface_master node_interface_vrf_master
  node_interface_master-IsMaster {m} h =
      elim (Option-cases (first_owner (bond_owns i) (values node.devices))) [
        | inr (b, bonded) ↦
            by_bond (first_owner-FirstOwner _ _ (bond_owns-Agrees i) m _ (ground arith))
        | inl free ↦ elim (Option-cases (first_owner (vrf_owns i) (values node.devices))) [
          | inr (v, in_vrf) ↦
              by_vrf ((first_owner-NoOwner _ _ (bond_owns-Agrees i) _).0 free)
                (first_owner-FirstOwner _ _ (vrf_owns-Agrees i) m _ (ground arith))
          | inl no_vrf ↦
              by_bridge ((first_owner-NoOwner _ _ (bond_owns-Agrees i) _).0 free)
                ((first_owner-NoOwner _ _ (vrf_owns-Agrees i) _).0 no_vrf)
                (record {
                  bridge_node = ground arith;
                  named = ground arith;
                  not_itself = λ e. absurd (ground (arith, beq_iff (some i) node.bridge_name));
                  no_overlay = (any-StandsOn i (values node.devices)).0 (ground arith);
                })
        ]
      ]

  IsMaster-node_interface_master :
      {m : String} → IsMaster node i m → node_interface_master node i ≡ some m
  unfolding node_interface_master node_interface_vrf_master
  IsMaster-node_interface_master (by_bond b) =
      ground (arith, FirstOwner-first_owner _ _ (bond_owns-Agrees i) b)
  IsMaster-node_interface_master (by_vrf b v) = ground (
    arith,
    (first_owner-NoOwner _ _ (bond_owns-Agrees i) _).1 b,
    FirstOwner-first_owner _ _ (vrf_owns-Agrees i) v,
  )
  IsMaster-node_interface_master {m} (by_bridge b v r) = ground (
    arith,
    (first_owner-NoOwner _ _ (bond_owns-Agrees i) _).1 b,
    (first_owner-NoOwner _ _ (vrf_owns-Agrees i) _).1 v,
    r.bridge_node,
    r.named,
    r.not_itself,
    (any-StandsOn i (values node.devices)).1 r.no_overlay,
    beq_iff (some i) node.bridge_name,
  )

-- An interface has the master `m` exactly when the first bond of the node that lists it has the name
-- `m`; or no bond lists it and the first VRF that lists it has the name `m`; or no bond and no VRF
-- lists it, the node is a bridge node whose bridge is `m` and is not the interface itself, and no VXLAN
-- or Geneve device of the node has the interface as its link.
pub node_interface_master_iff :
    (node : NodePlan) (i m : String) → (node_interface_master node i ≡ some m) ↔ IsMaster node i m
node_interface_master_iff node i m =
    (node_interface_master-IsMaster node i, IsMaster-node_interface_master node i)
