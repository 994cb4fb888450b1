-- ===== src/Inventory/Whole/Interfaces.antt =====
-- backend/base.py, `_interfaces_match`: what it says of an observed interface, field by field.
use nslab.Base.{
  ℕ, ◌-◌, ◌/◌, ◌≤◌, max, String, ◌≡◌, refl, sym, ◌∙◌, ◌↔◌, inl, inr, Bool, true, false, ◌&&◌,
  Option, none, some, List, [], ◌∷◌, In, All, arith, Eq, ◌==◌, nat_eq, string_eq, bool_eq,
  option_eq, list_eq, beq_iff, all, Option-cases,
}
use nslab.Base.Dict.{Dict, lookup, keys}
use nslab.Base.Int.{int_eq}
use nslab.Base.Membership.{all-contains_iff}
use nslab.Plan.Types.{
  QdiscPlan, HtbLeaf, fq_codel_leaf, simple_leaf, FqCodelPlan, CakePlan, tbf, fq_codel, htb, cake,
  simple,
}
use nslab.Inventory.Types.{ExpectedInterface, InterfaceInventory}
use nslab.Inventory.Equality.{ip_eq, interface_eq, vlan_eq, netem_eq, same_set}
use nslab.Inventory.Match.{
  RedOptions, asked, reported, within, fq_codel_beq, cake_beq, tbf_matches, simple_qdisc_matches,
  leaf_matches, qdisc_matches, common_matches, port_matches, link_matches, bond_matches,
  vxlan_matches, geneve_matches, tunnel_matches, mode_matches, interface_matches, interfaces_match,
}

-- Where the first value is given, it is the second one.
abbrev pub Agrees : {A : Type 0} → Option A → Option A → Type 0
Agrees {A} a b = (x : A) → a ≡ some x → b ≡ some x

pub both : (a b : Bool) → (a && b) ≡ true → (a ≡ true) × (b ≡ true)
both true b h = (refl, h)
both false b h = absurd (cc h)

module _ {A : Type 0} ⦃e : Eq A⦄ where
  pub equal : {a b : A} → (a == b) ≡ true → a ≡ b
  equal {a} {b} h = (beq_iff a b).0 h

module _ {A : Type 0} ⦃e : Eq A⦄ where
  asked-Agrees : (d o : Option A) → asked d o ≡ true → Agrees d o
  asked-Agrees none o h x q = absurd (cc q)
  asked-Agrees (some d) o h x q = equal {a = o} {b = some d} h ∙ q

  reported-Agrees : (o d : Option A) → reported o d ≡ true → Agrees o d
  reported-Agrees none d h x q = absurd (cc q)
  reported-Agrees (some o) d h x q = sym (equal {a = some o} {b = d} h) ∙ q

pub same_set_iff :
    {A : Type 0} ⦃e : Eq A⦄ (a b : List A) → same_set a b ≡ true → (x : A) → In x a ↔ In x b
same_set_iff a b h x =
    ((all-contains_iff b a).0 (ground arith) x, (all-contains_iff a b).0 (ground arith) x)

-- The numbers differ by the tolerance at most.
abbrev pub IsNear : ℕ → ℕ → ℕ → Type 0
IsNear a b tolerance = (a - b ≤ tolerance) × (b - a ≤ tolerance)

within-IsNear : (a b tolerance : ℕ) → within a b tolerance ≡ true → IsNear a b tolerance
within-IsNear a b tolerance h = ground arith

module _ ⦃red : RedOptions⦄ where
  abbrev pub ShowsLeaf : HtbLeaf → HtbLeaf → Type 0
  ShowsLeaf (fq_codel_leaf d) (fq_codel_leaf o) = d ≡ o
  ShowsLeaf (simple_leaf d) (simple_leaf o) = simple_qdisc_matches d o ≡ true
  ShowsLeaf _ _ = ⊥

  -- The observed discipline is of the planned class and equal to it, but for what the kernel rounds in a
  -- token bucket and for a classless discipline, whose options `simple_qdisc_matches` compares.
  abbrev pub ShowsQdisc : Option QdiscPlan → Option QdiscPlan → Type 0
  ShowsQdisc none none = Unit
  ShowsQdisc (some (tbf d)) (some (tbf o)) =
      (d.rate ≡ o.rate)
      × IsNear d.burst_bytes o.burst_bytes (max 2 (d.burst_bytes / 1000))
      × IsNear d.latency_ms o.latency_ms 1
  ShowsQdisc (some (fq_codel d)) (some (fq_codel o)) = d ≡ o
  ShowsQdisc (some (htb d)) (some (htb o)) = (d.rate ≡ o.rate) × ShowsLeaf d.leaf o.leaf
  ShowsQdisc (some (cake d)) (some (cake o)) = d ≡ o
  ShowsQdisc (some (simple d)) (some (simple o)) = simple_qdisc_matches d o ≡ true
  ShowsQdisc _ _ = ⊥

  fq_codel_same : (d o : FqCodelPlan) → fq_codel_beq d o ≡ true → d ≡ o
  fq_codel_same d o h =
      let (h2, ecn) = both _ _ h in
      let (h1, limit) = both _ _ h2 in
      let (target, interval) = both _ _ h1 in
      let e0 : d.target_ms ≡ o.target_ms = equal target in
      let e1 : d.interval_ms ≡ o.interval_ms = equal interval in
      let e2 : d.limit ≡ o.limit = equal limit in
      let e3 : d.ecn ≡ o.ecn = equal ecn in cc (e0, e1, e2, e3)

  cake_same : (d o : CakePlan) → cake_beq d o ≡ true → d ≡ o
  cake_same d o h =
      let (h3, nat) = both _ _ h in
      let (h2, rtt) = both _ _ h3 in
      let (h1, diffserv) = both _ _ h2 in
      let (bandwidth, flow) = both _ _ h1 in
      let e0 : d.bandwidth ≡ o.bandwidth = equal bandwidth in
      let e1 : d.flow_mode ≡ o.flow_mode = equal flow in
      let e2 : d.diffserv_mode ≡ o.diffserv_mode = equal diffserv in
      let e3 : d.rtt_ms ≡ o.rtt_ms = equal rtt in
      let e4 : d.nat ≡ o.nat = equal nat in cc (e0, e1, e2, e3, e4)

  leaf_matches-ShowsLeaf : (d o : HtbLeaf) → leaf_matches d o ≡ true → ShowsLeaf d o
  leaf_matches-ShowsLeaf (fq_codel_leaf d) (fq_codel_leaf o) h = fq_codel_same d o h
  leaf_matches-ShowsLeaf (simple_leaf d) (simple_leaf o) h = h
  leaf_matches-ShowsLeaf (fq_codel_leaf d) (simple_leaf o) h = absurd (cc h)
  leaf_matches-ShowsLeaf (simple_leaf d) (fq_codel_leaf o) h = absurd (cc h)

  qdisc_matches-ShowsQdisc : (d o : Option QdiscPlan) → qdisc_matches d o ≡ true → ShowsQdisc d o
  unfolding qdisc_matches tbf_matches
  qdisc_matches-ShowsQdisc none none h = tt
  qdisc_matches-ShowsQdisc (some (tbf d)) (some (tbf o)) h =
      let (hr, latency) = both _ _ h in
      let (rate, burst) = both _ _ hr in
      (equal rate, within-IsNear _ _ _ burst, within-IsNear _ _ _ latency)
  qdisc_matches-ShowsQdisc (some (fq_codel d)) (some (fq_codel o)) h = fq_codel_same d o h
  qdisc_matches-ShowsQdisc (some (htb d)) (some (htb o)) h =
      let (rate, leaf) = both _ _ h in (equal rate, leaf_matches-ShowsLeaf d.leaf o.leaf leaf)
  qdisc_matches-ShowsQdisc (some (cake d)) (some (cake o)) h = cake_same d o h
  qdisc_matches-ShowsQdisc (some (simple d)) (some (simple o)) h = h
  qdisc_matches-ShowsQdisc _ _ h = absurd (cc h)

  pub record ShowsCommon (d : ExpectedInterface) (o : InterfaceInventory) : Type 0 where
    pub same_master : o.master ≡ d.master
    pub same_mac : Agrees d.mac o.mac
    pub same_stp : o.stp ≡ d.stp
    pub same_vlan_filtering : o.vlan_filtering ≡ d.vlan_filtering
    pub same_bridge_priority : Agrees d.bridge_priority o.bridge_priority

  common_matches-ShowsCommon :
      (d : ExpectedInterface) (o : InterfaceInventory) → common_matches d o ≡ true → ShowsCommon d o
  common_matches-ShowsCommon d o h4 =
      let (h3, t4) = both _ _ h4 in
      let (h2, t3) = both _ _ h3 in
      let (h1, t2) = both _ _ h2 in
      let (t0, t1) = both _ _ h1 in
      record {
        same_master = equal t0;
        same_mac = asked-Agrees _ _ t1;
        same_stp = equal t2;
        same_vlan_filtering = equal t3;
        same_bridge_priority = asked-Agrees _ _ t4;
      }

  pub record ShowsPort (d : ExpectedInterface) (o : InterfaceInventory) : Type 0 where
    pub same_path_cost : Agrees d.path_cost o.path_cost
    pub same_port_priority : Agrees d.port_priority o.port_priority
    pub same_hairpin : Agrees d.hairpin o.hairpin
    pub same_isolated : Agrees d.isolated o.isolated
    pub same_learning : Agrees d.learning o.learning
    pub same_flood : Agrees d.flood o.flood
    pub same_multicast_flood : Agrees d.multicast_flood o.multicast_flood
    pub same_bridge_vlans : o.bridge_vlans ≡ d.bridge_vlans

  port_matches-ShowsPort :
      (d : ExpectedInterface) (o : InterfaceInventory) → port_matches d o ≡ true → ShowsPort d o
  port_matches-ShowsPort d o h7 =
      let (h6, t7) = both _ _ h7 in
      let (h5, t6) = both _ _ h6 in
      let (h4, t5) = both _ _ h5 in
      let (h3, t4) = both _ _ h4 in
      let (h2, t3) = both _ _ h3 in
      let (h1, t2) = both _ _ h2 in
      let (t0, t1) = both _ _ h1 in
      record {
        same_path_cost = asked-Agrees _ _ t0;
        same_port_priority = asked-Agrees _ _ t1;
        same_hairpin = asked-Agrees _ _ t2;
        same_isolated = asked-Agrees _ _ t3;
        same_learning = asked-Agrees _ _ t4;
        same_flood = asked-Agrees _ _ t5;
        same_multicast_flood = asked-Agrees _ _ t6;
        same_bridge_vlans = equal t7;
      }

  pub record ShowsLink (d : ExpectedInterface) (o : InterfaceInventory) : Type 0 where
    pub same_netem : o.netem ≡ d.netem
    pub same_qdisc : ShowsQdisc d.qdisc o.qdisc
    pub same_parent : o.parent ≡ d.parent
    pub same_vlan_id : o.vlan_id ≡ d.vlan_id
    pub same_vrf_table : o.vrf_table ≡ d.vrf_table

  link_matches-ShowsLink :
      (d : ExpectedInterface) (o : InterfaceInventory) → link_matches d o ≡ true → ShowsLink d o
  link_matches-ShowsLink d o h4 =
      let (h3, t4) = both _ _ h4 in
      let (h2, t3) = both _ _ h3 in
      let (h1, t2) = both _ _ h2 in
      let (t0, t1) = both _ _ h1 in
      record {
        same_netem = equal t0;
        same_qdisc = qdisc_matches-ShowsQdisc _ _ t1;
        same_parent = equal t2;
        same_vlan_id = equal t3;
        same_vrf_table = equal t4;
      }

  pub record ShowsBond (d : ExpectedInterface) (o : InterfaceInventory) : Type 0 where
    pub same_bond_mode : o.bond_mode ≡ d.bond_mode
    pub same_bond_miimon_ms : o.bond_miimon_ms ≡ d.bond_miimon_ms
    pub same_bond_primary : o.bond_primary ≡ d.bond_primary
    pub same_bond_lacp_rate : o.bond_lacp_rate ≡ d.bond_lacp_rate
    pub same_bond_xmit_hash_policy : o.bond_xmit_hash_policy ≡ d.bond_xmit_hash_policy
    pub same_bond_min_links : o.bond_min_links ≡ d.bond_min_links

  bond_matches-ShowsBond :
      (d : ExpectedInterface) (o : InterfaceInventory) → bond_matches d o ≡ true → ShowsBond d o
  bond_matches-ShowsBond d o h5 =
      let (h4, t5) = both _ _ h5 in
      let (h3, t4) = both _ _ h4 in
      let (h2, t3) = both _ _ h3 in
      let (h1, t2) = both _ _ h2 in
      let (t0, t1) = both _ _ h1 in
      record {
        same_bond_mode = equal t0;
        same_bond_miimon_ms = equal t1;
        same_bond_primary = equal t2;
        same_bond_lacp_rate = equal t3;
        same_bond_xmit_hash_policy = equal t4;
        same_bond_min_links = equal t5;
      }

  pub record ShowsVxlan (d : ExpectedInterface) (o : InterfaceInventory) : Type 0 where
    pub same_vxlan_vni : o.vxlan_vni ≡ d.vxlan_vni
    pub same_vxlan_link : o.vxlan_link ≡ d.vxlan_link
    pub same_vxlan_local : o.vxlan_local ≡ d.vxlan_local
    pub same_vxlan_remote : o.vxlan_remote ≡ d.vxlan_remote
    pub same_vxlan_dst_port : o.vxlan_dst_port ≡ d.vxlan_dst_port
    pub same_vxlan_learning : o.vxlan_learning ≡ d.vxlan_learning

  vxlan_matches-ShowsVxlan :
      (d : ExpectedInterface) (o : InterfaceInventory) → vxlan_matches d o ≡ true → ShowsVxlan d o
  vxlan_matches-ShowsVxlan d o h5 =
      let (h4, t5) = both _ _ h5 in
      let (h3, t4) = both _ _ h4 in
      let (h2, t3) = both _ _ h3 in
      let (h1, t2) = both _ _ h2 in
      let (t0, t1) = both _ _ h1 in
      record {
        same_vxlan_vni = equal t0;
        same_vxlan_link = equal t1;
        same_vxlan_local = equal t2;
        same_vxlan_remote = equal t3;
        same_vxlan_dst_port = equal t4;
        same_vxlan_learning = equal t5;
      }

  pub record ShowsGeneve (d : ExpectedInterface) (o : InterfaceInventory) : Type 0 where
    pub same_geneve_vni : o.geneve_vni ≡ d.geneve_vni
    pub same_geneve_link : Agrees o.geneve_link d.geneve_link
    pub same_geneve_remote : o.geneve_remote ≡ d.geneve_remote
    pub same_geneve_dst_port : o.geneve_dst_port ≡ d.geneve_dst_port

  geneve_matches-ShowsGeneve :
      (d : ExpectedInterface) (o : InterfaceInventory) → geneve_matches d o ≡ true → ShowsGeneve d o
  geneve_matches-ShowsGeneve d o h3 =
      let (h2, t3) = both _ _ h3 in
      let (h1, t2) = both _ _ h2 in
      let (t0, t1) = both _ _ h1 in
      record {
        same_geneve_vni = equal t0;
        same_geneve_link = reported-Agrees _ _ t1;
        same_geneve_remote = equal t2;
        same_geneve_dst_port = equal t3;
      }

  pub record ShowsTunnel (d : ExpectedInterface) (o : InterfaceInventory) : Type 0 where
    pub same_gre_link : o.gre_link ≡ d.gre_link
    pub same_gre_local : o.gre_local ≡ d.gre_local
    pub same_gre_remote : o.gre_remote ≡ d.gre_remote
    pub same_gre_key : o.gre_key ≡ d.gre_key
    pub same_gre_ttl : o.gre_ttl ≡ d.gre_ttl
    pub same_ipip_link : o.ipip_link ≡ d.ipip_link
    pub same_ipip_local : o.ipip_local ≡ d.ipip_local
    pub same_ipip_remote : o.ipip_remote ≡ d.ipip_remote
    pub same_ipip_ttl : o.ipip_ttl ≡ d.ipip_ttl

  tunnel_matches-ShowsTunnel :
      (d : ExpectedInterface) (o : InterfaceInventory) → tunnel_matches d o ≡ true → ShowsTunnel d o
  tunnel_matches-ShowsTunnel d o h8 =
      let (h7, t8) = both _ _ h8 in
      let (h6, t7) = both _ _ h7 in
      let (h5, t6) = both _ _ h6 in
      let (h4, t5) = both _ _ h5 in
      let (h3, t4) = both _ _ h4 in
      let (h2, t3) = both _ _ h3 in
      let (h1, t2) = both _ _ h2 in
      let (t0, t1) = both _ _ h1 in
      record {
        same_gre_link = equal t0;
        same_gre_local = equal t1;
        same_gre_remote = equal t2;
        same_gre_key = equal t3;
        same_gre_ttl = equal t4;
        same_ipip_link = equal t5;
        same_ipip_local = equal t6;
        same_ipip_remote = equal t7;
        same_ipip_ttl = equal t8;
      }

  pub record ShowsMode (d : ExpectedInterface) (o : InterfaceInventory) : Type 0 where
    pub same_macvlan_mode : o.macvlan_mode ≡ d.macvlan_mode
    pub same_ipvlan_mode : o.ipvlan_mode ≡ d.ipvlan_mode

  mode_matches-ShowsMode :
      (d : ExpectedInterface) (o : InterfaceInventory) → mode_matches d o ≡ true → ShowsMode d o
  mode_matches-ShowsMode d o h1 =
      let (t0, t1) = both _ _ h1 in
      record { same_macvlan_mode = equal t0; same_ipvlan_mode = equal t1 }

  -- The observed interface has the name, and every field that the comparison looks at is as expected: what
  -- the plan leaves open may be anything.
  pub record ShowsInterface (name : String) (d : ExpectedInterface) (o : InterfaceInventory)
      : Type 0 where
    pub same_name : o.name ≡ name
    pub same_kind : o.kind ≡ d.kind
    pub same_mtu : Agrees d.mtu (some o.mtu)
    pub same_up : o.up ≡ d.up
    pub same_addresses : (a : _) → In a o.addresses ↔ In a d.addresses
    pub common : ShowsCommon d o
    pub port : ShowsPort d o
    pub link : ShowsLink d o
    pub bond : ShowsBond d o
    pub vxlan : ShowsVxlan d o
    pub geneve : ShowsGeneve d o
    pub tunnel : ShowsTunnel d o
    pub mode : ShowsMode d o

  interface_matches-ShowsInterface :
      (name : String) (d : ExpectedInterface) (o : InterfaceInventory)
      → interface_matches name d o ≡ true
      → ShowsInterface name d o
  unfolding interface_matches
  interface_matches-ShowsInterface name d o h12 =
      let (h11, t12) = both _ _ h12 in
      let (h10, t11) = both _ _ h11 in
      let (h9, t10) = both _ _ h10 in
      let (h8, t9) = both _ _ h9 in
      let (h7, t8) = both _ _ h8 in
      let (h6, t7) = both _ _ h7 in
      let (h5, t6) = both _ _ h6 in
      let (h4, t5) = both _ _ h5 in
      let (h3, t4) = both _ _ h4 in
      let (h2, t3) = both _ _ h3 in
      let (h1, t2) = both _ _ h2 in
      let (t0, t1) = both _ _ h1 in
      record {
        same_name = equal t0;
        same_kind = equal t1;
        same_mtu = asked-Agrees _ _ t2;
        same_up = equal t3;
        same_addresses = same_set_iff _ _ t4;
        common = common_matches-ShowsCommon d o t5;
        port = port_matches-ShowsPort d o t6;
        link = link_matches-ShowsLink d o t7;
        bond = bond_matches-ShowsBond d o t8;
        vxlan = vxlan_matches-ShowsVxlan d o t9;
        geneve = geneve_matches-ShowsGeneve d o t10;
        tunnel = tunnel_matches-ShowsTunnel d o t11;
        mode = mode_matches-ShowsMode d o t12;
      }

  -- Each expected interface of the list is observed as expected.
  abbrev pub AllShown : Dict InterfaceInventory → Dict ExpectedInterface → Type 0
  AllShown actual expected =
      All
        (λ ((name, d) : String × ExpectedInterface).
          (o : InterfaceInventory) × (lookup name actual ≡ some o) × ShowsInterface name d o)
        expected

  abbrev one_matches : Dict InterfaceInventory → String × ExpectedInterface → Bool
  one_matches actual (name, d) = elim (lookup name actual) [
    | none ↦ false
    | some o ↦ interface_matches name d o
  ]

  one_shown :
      (name : String) (d : ExpectedInterface) (actual : Dict InterfaceInventory)
      → one_matches actual (name, d) ≡ true
      → (o : InterfaceInventory) × (lookup name actual ≡ some o) × ShowsInterface name d o
  one_shown name d actual h = elim (Option-cases (lookup name actual)) [
    | inl missing ↦ absurd (ground (arith, missing, h))
    | inr (o, found) ↦
        (o, found, interface_matches-ShowsInterface name d o (ground (arith, found, h)))
  ]

  all_shown :
      (actual : Dict InterfaceInventory) (expected : Dict ExpectedInterface)
      → all (one_matches actual) expected ≡ true
      → AllShown actual expected
  all_shown actual [] h = tt
  all_shown actual ((name, d) ∷ rest) h =
      let (here, more) = both _ _ h in (one_shown name d actual here, all_shown actual rest more)

  pub interfaces_match-AllShown :
      (expected : Dict ExpectedInterface) (actual : Dict InterfaceInventory)
      → interfaces_match expected actual ≡ true
      → ((n : String) → In n (keys actual) ↔ In n (keys expected)) × AllShown actual expected
  unfolding interfaces_match
  interfaces_match-AllShown expected actual h =
      let (names, each) = both _ _ h in
      (same_set_iff (keys actual) (keys expected) names, all_shown actual expected each)
