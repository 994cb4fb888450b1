-- ===== src/Inventory/Whole/Neighbors.antt =====
-- backend/base.py, `_neighbors_match` and the sysctls: what they say of an observed namespace.
use nslab.Base.{
  ℕ, String, ◌≡◌, refl, sym, ◌∙◌, ap, subst, ◌⊎◌, inl, inr, Bool, true, false, Option, none, some,
  List, [], ◌∷◌, In, All, arith, ◌==◌, nat_eq, string_eq, bool_eq, option_eq, beq_iff, all, length,
  Option-cases, Bool-cases, if◌then◌else◌,
}
use nslab.Base.Dict.{Dict, lookup}
use nslab.Base.Membership.{contains_iff}
use nslab.Plan.Types.{NeighborPlan}
use nslab.Inventory.Equality.{ip_eq}
use nslab.Inventory.Whole.Interfaces.{both, equal}
use mathlib.Core.Option.{some-injective}
use nslab.Inventory.Match.{
  neighbors_match, declared_sysctls_match, healthy, is_dynamic, state_matches, neighbor_matches,
  same_identity, find_neighbor, distinct_identities,
}

-- The state is the planned one; an entry planned as reachable or stale may be in any state of a healthy one.
abbrev pub ShowsState : Option String → Option String → Type 0
ShowsState d o =
    (o ≡ d)
    ⊎ (((d ≡ some "reachable") ⊎ (d ≡ some "stale"))
        × In o (some "reachable" ∷ some "stale" ∷ some "delay" ∷ some "probe" ∷ []))

-- Some entry of the list has the address and the device of the planned one, and what is planned of it.
pub record IsNeighbor (d : NeighborPlan) (actual : List NeighborPlan) : Type 0 where
  pub entry : NeighborPlan
  pub there : In entry actual
  pub same_dst : entry.dst ≡ d.dst
  pub same_dev : entry.dev ≡ d.dev
  pub same_lladdr : entry.lladdr ≡ d.lladdr
  pub same_proxy : entry.proxy ≡ d.proxy
  pub same_state : ShowsState d.neighbor_state entry.neighbor_state

-- No two entries have the same address and device.
abbrev pub AreDistinct : List NeighborPlan → Type 0
AreDistinct [] = Unit
AreDistinct (o ∷ os) =
    ((p : NeighborPlan) → In p os → p.dst ≡ o.dst → p.dev ≡ o.dev → ⊥) × AreDistinct os

dynamic_state :
    (d : String)
    → is_dynamic (some d) ≡ true
    → (some d ≡ some "reachable") ⊎ (some d ≡ some "stale")
dynamic_state d h = elim ((contains_iff ("reachable" ∷ "stale" ∷ []) d).0 h) [
  | inl q ↦ inl (ap some q)
  | inr (inl q) ↦ inr (ap some q)
  | inr (inr none_left) ↦ absurd none_left
]

healthy_state :
    (o : Option String)
    → healthy o ≡ true
    → In o (some "reachable" ∷ some "stale" ∷ some "delay" ∷ some "probe" ∷ [])
healthy_state none h = absurd (cc h)
healthy_state (some o) h =
    elim ((contains_iff ("reachable" ∷ "stale" ∷ "delay" ∷ "probe" ∷ []) o).0 h) [
      | inl q ↦ inl (ap some q)
      | inr (inl q) ↦ inr (inl (ap some q))
      | inr (inr (inl q)) ↦ inr (inr (inl (ap some q)))
      | inr (inr (inr (inl q))) ↦ inr (inr (inr (inl (ap some q))))
      | inr (inr (inr (inr none_left))) ↦ absurd none_left
    ]

choose : (b c e : Bool) → (if b then c else e) ≡ true → ((b ≡ true) × (c ≡ true)) ⊎ (e ≡ true)
choose true c e h = inl (refl, h)
choose false c e h = inr h

state_matches-ShowsState : (d o : Option String) → state_matches d o ≡ true → ShowsState d o
state_matches-ShowsState none o h = inl ((beq_iff o none).0 h)
state_matches-ShowsState (some d) o h =
    elim (choose (is_dynamic (some d)) (healthy o) (o == some d) h) [
      | inl (dynamic, well) ↦ inr (dynamic_state d dynamic, healthy_state o well)
      | inr same ↦ inl ((beq_iff o (some d)).0 same)
    ]

same_identity_iff :
    (a b : NeighborPlan) → same_identity a b ≡ true → (a.dst ≡ b.dst) × (a.dev ≡ b.dev)
same_identity_iff a b h = (
  ground (arith, beq_iff a.dst b.dst, h),
  ground (arith, beq_iff a.dev b.dev, beq_iff a.dst b.dst, h),
)

find_neighbor-In :
    (d : NeighborPlan) (os : List NeighborPlan) {o : NeighborPlan}
    → find_neighbor d os ≡ some o
    → In o os × ((o.dst ≡ d.dst) × (o.dev ≡ d.dev))
find_neighbor-In d [] h = absurd (cc h)
find_neighbor-In d (p ∷ os) {o} h = elim (Bool-cases (same_identity p d)) [
  | inl same ↦
      let is_p : p ≡ o = some-injective _ _ (sym (rw same refl) ∙ h) in
      (
        inl (sym is_p),
        subst (λ x. (x.dst ≡ d.dst) × (x.dev ≡ d.dev)) is_p (same_identity_iff p d same),
      )
  | inr other ↦
      let (at, q) = find_neighbor-In d os {o = o} (ground (arith, other, h)) in (inr at, q)
]

absent_identity :
    (d : NeighborPlan) (os : List NeighborPlan)
    → find_neighbor d os ≡ none
    → (p : NeighborPlan) → In p os
    → p.dst ≡ d.dst
    → p.dev ≡ d.dev
    → ⊥
absent_identity d [] h p at q r = absurd at
absent_identity d (o ∷ os) h p at q r = elim (Bool-cases (same_identity o d)) [
  | inl same ↦ absurd (ground (arith, same, h))
  | inr other ↦ elim at [
    | inl e ↦ absurd (
        ground (
          arith,
          other,
          beq_iff o.dst d.dst,
          beq_iff o.dev d.dev,
          sym (ap (λ (x : NeighborPlan). x.dst) e) ∙ q,
          sym (ap (λ (x : NeighborPlan). x.dev) e) ∙ r,
        ))
    | inr rest ↦ absent_identity d os (ground (arith, other, h)) p rest q r
  ]
]

distinct_identities-AreDistinct :
    (os : List NeighborPlan) → distinct_identities os ≡ true → AreDistinct os
distinct_identities-AreDistinct [] h = tt
distinct_identities-AreDistinct (o ∷ os) h = elim (Option-cases (find_neighbor o os)) [
  | inl free ↦
      (absent_identity o os free, distinct_identities-AreDistinct os (ground (arith, free, h)))
  | inr (p, found) ↦ absurd (ground (arith, found, h))
]

one-IsNeighbor :
    (d : NeighborPlan) (actual : List NeighborPlan)
    → (elim (find_neighbor d actual) [ none ↦ false | some o ↦ neighbor_matches d o ]) ≡ true
    → IsNeighbor d actual
one-IsNeighbor d actual h = elim (Option-cases (find_neighbor d actual)) [
  | inl missing ↦ absurd (ground (arith, missing, h))
  | inr (o, found) ↦
      let (at, (dst, dev)) = find_neighbor-In d actual {o = o} found in
      let matches : neighbor_matches d o ≡ true = ground (arith, found, h) in
      let (pair, in_state) = both _ _ matches in
      let (lladdr, proxy) = both _ _ pair in
      record {
        entry = o;
        there = at;
        same_dst = dst;
        same_dev = dev;
        same_lladdr = equal lladdr;
        same_proxy = equal proxy;
        same_state = state_matches-ShowsState d.neighbor_state o.neighbor_state in_state;
      }
]

all_neighbors :
    (actual desired : List NeighborPlan)
    → all
        (λ d. elim (find_neighbor d actual) [ none ↦ false | some o ↦ neighbor_matches d o ])
        desired
      ≡ true
    → All (λ d. IsNeighbor d actual) desired
all_neighbors actual [] h = tt
all_neighbors actual (d ∷ ds) h =
    let (here, more) = both _ _ h in (one-IsNeighbor d actual here, all_neighbors actual ds more)

-- As many entries as are planned, no two of the same address and device, and one for each planned.
pub record ShowsNeighbors (desired actual : List NeighborPlan) : Type 0 where
  pub as_many : length desired ≡ length actual
  pub distinct : AreDistinct actual
  pub each : All (λ d. IsNeighbor d actual) desired

pub neighbors_match-ShowsNeighbors :
    (desired actual : List NeighborPlan)
    → neighbors_match desired actual ≡ true
    → ShowsNeighbors desired actual
unfolding neighbors_match
neighbors_match-ShowsNeighbors desired actual h =
    let (pair, each) = both _ _ h in
    let (as_many, distinct) = both _ _ pair in
    record {
      as_many = equal as_many;
      distinct = distinct_identities-AreDistinct actual distinct;
      each = all_neighbors actual desired each;
    }

-- Each planned sysctl has its value.
abbrev pub ShowsSysctls : Dict ℕ → Dict ℕ → Type 0
ShowsSysctls desired actual = All (λ ((k, v) : String × ℕ). lookup k actual ≡ some v) desired

pub declared_sysctls_match-ShowsSysctls :
    (desired actual : Dict ℕ)
    → declared_sysctls_match desired actual ≡ true
    → ShowsSysctls desired actual
unfolding declared_sysctls_match
declared_sysctls_match-ShowsSysctls [] actual h = tt
declared_sysctls_match-ShowsSysctls ((k, v) ∷ rest) actual h =
    let (here, more) = both _ _ h in
    (equal here, declared_sysctls_match-ShowsSysctls rest actual more)
