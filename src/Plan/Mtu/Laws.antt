-- ===== src/Plan/Mtu/Laws.antt =====
-- The MTUs that the planner derives: which link they come from, and that what a tunnel adds fits.
use nslab.Base.{◌↔◌}
use nslab.Base.{
  ℕ, String, ◌≡◌, refl, ◌&&◌, none, some, List, [], ◌∷◌, map, arith, ◌==◌, nat_eq, string_eq,
  beq_iff, filter, In, Bool-cases, Option-cases, inl, inr, ◌⊎◌, ap, sym, ◌∙◌, subst, ◌+◌, Option,
}
use nslab.Base.Membership.{contains_iff}
use nslab.Base.Int.{ℤ, sub_ℕ, FitsWith, sub_ℕ-FitsWith}
use nslab.Error.{ok}
use nslab.Plan.Address.{IpAddress, ipv4, ipv6, version}
use nslab.Plan.Types.{
  NodePlan, EndpointPlan, LinkPlan, TopologyPlan, BondDevicePlan, VxlanDevicePlan, GeneveDevicePlan,
  GreDevicePlan, IpipDevicePlan,
}
use nslab.Plan.Mtu.{
  link_ends, first_mtu, parent_device_mtu, vxlan_device_mtu, geneve_device_mtu, gre_device_mtu,
  ipip_device_mtu, bond_device_mtu, less, tunnel_overhead, gre_overhead, the_only, is_member_end,
}

-- Every number of the list is `m`.
abbrev pub AllEqual : ℕ → List ℕ → Type 0
AllEqual m [] = Unit
AllEqual m (n ∷ ns) = (n ≡ m) × AllEqual m ns

-- One of these links has the MTU, and one of its two ends is the interface of the node.
pub record IsAttached (links : List LinkPlan) (node interface : String) (m : ℕ) : Type 0 where
  pub link : LinkPlan
  pub end : EndpointPlan
  pub planned : In link links
  pub side : (end ≡ link.left) ⊎ (end ≡ link.right)
  pub at_node : end.node ≡ node
  pub at_interface : end.interface ≡ interface
  pub same_mtu : link.mtu ≡ m

-- An end with its link is among the ends of the links exactly when it is a side of one of them.
link_ends-In :
    (links : List LinkPlan) (l : LinkPlan) (e : EndpointPlan)
    → In (l, e) (link_ends links) ↔ (In l links × ((e ≡ l.left) ⊎ (e ≡ l.right)))
unfolding link_ends
link_ends-In [] l e = (λ h. absurd h, λ h. absurd h.0)
link_ends-In (k ∷ links) l e = (
  λ h. elim h [
    | inl q ↦ (inl (ap (λ x. x.0) q), inl (ap (λ x. x.1) q ∙ sym (ap (λ x. x.0.left) q)))
    | inr (inl q) ↦ (inl (ap (λ x. x.0) q), inr (ap (λ x. x.1) q ∙ sym (ap (λ x. x.0.right) q)))
    | inr (inr rest) ↦ let (at, side) = (link_ends-In links l e).0 rest in (inr at, side)
  ],
  λ (at, side). elim at [
    | inl q ↦ elim side [
      | inl s ↦ inl (cc (q, s, ap (λ (x : LinkPlan). x.left) q))
      | inr s ↦ inr (inl (cc (q, s, ap (λ (x : LinkPlan). x.right) q)))
    ]
    | inr rest ↦ inr (inr ((link_ends-In links l e).1 (rest, side)))
  ],
)

-- An end of a link that is the interface of the node.
attached :
    (links : List LinkPlan) (node interface : String) (l : LinkPlan) (e : EndpointPlan)
    → In (l, e) (link_ends links)
    → e.node ≡ node
    → e.interface ≡ interface
    → IsAttached links node interface l.mtu
attached links node interface l e at n i =
    let (planned, side) = (link_ends-In links l e).0 at in
    record {
      link = l;
      end = e;
      planned = planned;
      side = side;
      at_node = n;
      at_interface = i;
      same_mtu = refl;
    }

first_mtu-In :
    (node interface : String) (ends : List (LinkPlan × EndpointPlan)) {m : ℕ}
    → first_mtu node interface ends ≡ some m
    → (l : LinkPlan) × (e : EndpointPlan) × In (l, e) ends
      × (e.node ≡ node)
      × (e.interface ≡ interface)
      × (l.mtu ≡ m)
unfolding first_mtu
first_mtu-In node interface [] h = cc
first_mtu-In node interface ((l, e) ∷ rest) h =
    elim (Bool-cases (e.node == node && e.interface == interface)) [
      | inl hit ↦ (
        l,
        e,
        inl refl,
        ground (arith, beq_iff e.node node),
        ground (arith, beq_iff e.node node, beq_iff e.interface interface),
        ground arith,
      )
      | inr miss ↦
          let (k, f, at, n, i, q) = first_mtu-In node interface rest (ground arith) in
          (k, f, inr at, n, i, q)
    ]

first_mtu-IsAttached :
    (node interface : String) (links : List LinkPlan) {m : ℕ}
    → first_mtu node interface (link_ends links) ≡ some m
    → IsAttached links node interface m
first_mtu-IsAttached node interface links {m} h =
    let (l, e, at, n, i, q) = first_mtu-In node interface (link_ends links) h in
    subst (IsAttached links node interface) q (attached links node interface l e at n i)

-- What a device without an MTU of its own gets: it leaves room for the overhead on its link.
abbrev pub FitsLink : TopologyPlan → String → String → ℕ → ℤ → Type 0
FitsLink plan node interface overhead m =
    (u : ℕ) × IsAttached plan.links node interface u
    × (m ≡ sub_ℕ u overhead)
    × FitsWith m overhead u

-- The sizes of the headers on the wire.
abbrev ip_header : IpAddress → ℕ
ip_header (ipv4 a) = 20
ip_header (ipv6 a) = 40

abbrev ethernet_header : ℕ
ethernet_header = 14

abbrev udp_header : ℕ
udp_header = 8

-- VXLAN and Geneve: the frame within, under eight bytes of the tunnel, UDP and IP.
abbrev pub udp_tunnel_headers : IpAddress → ℕ
udp_tunnel_headers outer = ip_header outer + udp_header + 8 + ethernet_header

-- GRE over IPv4: four bytes, and four for a key.
abbrev pub gre_headers : Option ℕ → ℕ
gre_headers none = 20 + 4
gre_headers (some key) = 20 + 4 + 4

tunnel_overhead-udp_tunnel_headers :
    (a : IpAddress) → tunnel_overhead (version a) ≡ udp_tunnel_headers a
tunnel_overhead-udp_tunnel_headers (ipv4 a) = refl
tunnel_overhead-udp_tunnel_headers (ipv6 a) = refl

gre_overhead-gre_headers : (key : Option ℕ) → gre_overhead key ≡ gre_headers key
gre_overhead-gre_headers none = refl
gre_overhead-gre_headers (some key) = refl

module _ (node : NodePlan) (plan : TopologyPlan) where
  fits_from :
      (interface : String) (overhead u : ℕ) {m : ℤ}
      → first_mtu node.name interface (link_ends plan.links) ≡ some u
      → m ≡ sub_ℕ u overhead
      → FitsLink plan node.name interface overhead m
  fits_from interface overhead u found e = (
    u,
    first_mtu-IsAttached node.name interface plan.links found,
    e,
    rw e (sub_ℕ-FitsWith u overhead),
  )

  -- A VXLAN device with no MTU of its own that gets one gets that of a link of the plan that ends at its
  -- underlay interface, less the headers of Ethernet (14 bytes), VXLAN (8), UDP (8) and IP (20 where its
  -- local address is IPv4, 40 where it is IPv6); with these headers a frame fits that link.
  pub vxlan_device_mtu-FitsLink :
      (d : VxlanDevicePlan) {m : ℤ}
      → d.mtu ≡ none
      → vxlan_device_mtu node plan d ≡ ok m
      → FitsLink plan node.name d.link (udp_tunnel_headers d.local) m
  unfolding vxlan_device_mtu
  vxlan_device_mtu-FitsLink d {m} own h =
      elim (Option-cases (first_mtu node.name d.link (link_ends plan.links))) [
        | inl absent ↦ absurd (ground arith)
        | inr (u, found) ↦
            fits_from d.link _ u found (ground (arith, tunnel_overhead-udp_tunnel_headers d.local))
      ]

  parent-FitsLink :
      (interface : String) (overhead : ℕ) {m : ℤ}
      → less overhead (parent_device_mtu node plan interface) ≡ ok m
      → FitsLink plan node.name interface overhead m
  unfolding parent_device_mtu
  parent-FitsLink interface overhead h =
      elim (Option-cases (first_mtu node.name interface (link_ends plan.links))) [
        | inl absent ↦ absurd (ground arith)
        | inr (u, found) ↦ fits_from interface overhead u found (ground arith)
      ]

  -- A Geneve device with no MTU of its own that gets one gets that of a link of the plan that ends at its
  -- underlay interface, less the headers of Ethernet (14 bytes), Geneve (8), UDP (8) and IP (20 where its
  -- remote address is IPv4, 40 where it is IPv6); with these headers a frame fits that link.
  pub geneve_device_mtu-FitsLink :
      (d : GeneveDevicePlan) {m : ℤ}
      → d.mtu ≡ none
      → geneve_device_mtu node plan d ≡ ok m
      → FitsLink plan node.name d.link (udp_tunnel_headers d.remote) m
  unfolding geneve_device_mtu
  geneve_device_mtu-FitsLink d own h =
      parent-FitsLink d.link _ (ground (arith, tunnel_overhead-udp_tunnel_headers d.remote))

  -- A GRE device with no MTU of its own that gets one gets that of a link of the plan that ends at its
  -- underlay interface, less the headers of IPv4 (20 bytes) and GRE (4, and 4 more where it has a key);
  -- with these headers a packet fits that link.
  pub gre_device_mtu-FitsLink :
      (d : GreDevicePlan) {m : ℤ}
      → d.mtu ≡ none
      → gre_device_mtu node plan d ≡ ok m
      → FitsLink plan node.name d.link (gre_headers d.key) m
  unfolding gre_device_mtu
  gre_device_mtu-FitsLink d own h =
      parent-FitsLink d.link _ (ground (arith, gre_overhead-gre_headers d.key))

  -- An IPIP device with no MTU of its own that gets one leaves 20 bytes for its header on a link at
  -- its underlay.
  pub ipip_device_mtu-FitsLink :
      (d : IpipDevicePlan) {m : ℤ}
      → d.mtu ≡ none
      → ipip_device_mtu node plan d ≡ ok m
      → FitsLink plan node.name d.link 20 m
  unfolding ipip_device_mtu
  ipip_device_mtu-FitsLink d own h = parent-FitsLink d.link _ (ground arith)

the_only_sound : (ms : List ℕ) {m : ℕ} → the_only ms ≡ some m → In m ms × AllEqual m ms
the_only_sound [] h = cc
the_only_sound (a ∷ []) h = (inl (ground arith), (ground arith, tt))
the_only_sound (a ∷ b ∷ ms) {m} h = elim (Bool-cases (a == b)) [
  | inl same ↦
      let (at, all) = the_only_sound (b ∷ ms) {m = m} (ground arith) in
      (inr at, (ground arith, all))
  | inr differ ↦ absurd (ground arith)
]

the_only_complete : (ms : List ℕ) (m : ℕ) → In m ms → AllEqual m ms → the_only ms ≡ some m
the_only_complete [] m at all = elim at [ ]
the_only_complete (a ∷ []) m at all = ground arith
the_only_complete (a ∷ b ∷ ms) m at all =
    ground (arith, the_only_complete (b ∷ ms) m (inl (ground arith)) all.1)

-- The link of one of these interfaces of the node has the MTU.
abbrev pub HasMember : TopologyPlan → String → List String → ℕ → Type 0
HasMember plan node interfaces m = (i : String) × In i interfaces × IsAttached plan.links node i m

module _ (node : String) (members : List String) where
  abbrev mtus : List (LinkPlan × EndpointPlan) → List ℕ
  mtus ends =
      map (λ ((l, e) : LinkPlan × EndpointPlan). l.mtu) (filter (is_member_end node members) ends)

  mtus-In :
      (ends : List (LinkPlan × EndpointPlan)) (m : ℕ)
      → In m (mtus ends) ↔ (
          (l : LinkPlan) × (e : EndpointPlan) × In (l, e) ends
          × (e.node ≡ node)
          × In e.interface members
          × (m ≡ l.mtu))
  mtus-In [] m = (λ h. absurd h, λ (l, e, at, n, i, q). absurd at)
  mtus-In ((k, f) ∷ ends) m = elim (Bool-cases (is_member_end node members (k, f))) [
    | inl member ↦
        let at_node : f.node ≡ node = ground (arith, beq_iff f.node node) in
        let listed : In f.interface members = (contains_iff members f.interface).0 (ground arith) in
        (
          λ h. elim (rw member at h) [
            | inl q ↦ (k, f, inl refl, at_node, listed, q)
            | inr rest ↦
                let (l, e, at, n, i, q) = (mtus-In ends m).0 rest in (l, e, inr at, n, i, q)
          ],
          λ (l, e, at, n, i, q). rw member (elim at [
            | inl here ↦ inl (q ∙ ap (λ x. x.0.mtu) here)
            | inr rest ↦ inr ((mtus-In ends m).1 (l, e, rest, n, i, q))
          ]),
        )
    | inr not_member ↦ (
      λ h.
          let (l, e, at, n, i, q) = (mtus-In ends m).0 (rw not_member at h) in
          (l, e, inr at, n, i, q),
      λ (l, e, at, n, i, q). rw not_member (elim at [
        | inl here ↦ absurd (
            ground (
              arith,
              not_member,
              ap (λ x. x.1.node) here,
              ap (λ x. x.1.interface) here,
              n,
              beq_iff f.node node,
              (contains_iff members f.interface).1
                  (subst (λ x. In x members) (ap (λ x. x.1.interface) here) i),
            ))
        | inr rest ↦ (mtus-In ends m).1 (l, e, rest, n, i, q)
      ]),
    )
  ]

AllEqual-In : (m : ℕ) (ms : List ℕ) → AllEqual m ms ↔ ((n : ℕ) → In n ms → n ≡ m)
AllEqual-In m [] = (λ h n at. absurd at, λ h. tt)
AllEqual-In m (k ∷ ms) = (
  λ h n at. elim at [ inl q ↦ q ∙ h.0 | inr rest ↦ (AllEqual-In m ms).0 h.1 n rest ],
  λ h. (h k (inl refl), (AllEqual-In m ms).1 (λ n at. h n (inr at))),
)

module _ (node : NodePlan) (plan : TopologyPlan) (d : BondDevicePlan) where
  abbrev member_mtus : List ℕ
  member_mtus = mtus node.name d.interfaces (link_ends plan.links)

  member_mtus-HasMember : (m : ℕ) → In m member_mtus ↔ HasMember plan node.name d.interfaces m
  member_mtus-HasMember m = (
    λ h.
        let (l, e, at, n, i, q) = (mtus-In node.name d.interfaces (link_ends plan.links) m).0 h in
        (
          e.interface,
          i,
          subst (IsAttached plan.links node.name e.interface) (sym q)
              (attached plan.links node.name e.interface l e at n refl),
        ),
    λ (i, listed, a). (mtus-In node.name d.interfaces (link_ends plan.links) m).1 (
      a.link,
      a.end,
      (link_ends-In plan.links a.link a.end).1 (a.planned, a.side),
      a.at_node,
      subst (λ x. In x d.interfaces) (sym a.at_interface) listed,
      sym a.same_mtu,
    ),
  )

  -- A bond of a node gets the MTU `m` exactly when one of its member interfaces is an end, at this node, of a
  -- link of the plan with the MTU `m`, and every link of the plan that ends at a member interface of this
  -- node has the MTU `m`.
  pub bond_device_mtu_iff :
      (m : ℕ)
      → (bond_device_mtu node plan d ≡ ok m) ↔ (
          HasMember plan node.name d.interfaces m
          × ((n : ℕ) → HasMember plan node.name d.interfaces n → n ≡ m))
  unfolding bond_device_mtu
  bond_device_mtu_iff m = (
    λ h.
        let (at, all) = the_only_sound member_mtus {m = m} (ground arith) in
        (
          (member_mtus-HasMember m).0 at,
          λ n other. (AllEqual-In m member_mtus).0 all n ((member_mtus-HasMember n).1 other),
        ),
    λ (has, all). ground (
      arith,
      the_only_complete member_mtus m ((member_mtus-HasMember m).1 has)
          ((AllEqual-In m member_mtus).1 (λ n at. all n ((member_mtus-HasMember n).0 at))),
    ),
  )
