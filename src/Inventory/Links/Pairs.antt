-- ===== src/Inventory/Links/Pairs.antt =====
-- What it means that the veth pairs of an inventory match the links of a plan.
use nslab.Inventory.Links.Veths.{IsVeth, AllUsable, AllCollected, observed_veths-AllCollected}
use nslab.Base.{
  String, ◌≡◌, refl, ◌↔◌, ◌⊎◌, inl, inr, true, false, Option, none, some, List, [], ◌∷◌, In, arith,
  string_eq, pair_eq, beq_iff, Option-cases,
}
use nslab.Base.Membership.{contains_iff, all-contains_iff}
use nslab.Plan.Types.{LinkPlan, TopologyPlan}
use nslab.Inventory.Types.{LiveInventory}
use nslab.Inventory.Equality.{same_set}
use nslab.Inventory.Links.{
  Place, group, observed_id, place, pair_of, observed_veths, match_links, links_match,
}

-- The link has the identity: both of its ends show it, and the places that have it are the two.
abbrev pub IsPair : LiveInventory → (String → Place → Type 0) → LinkPlan → String → Type 0
IsPair inventory has l id =
    (observed_id inventory l.left ≡ some id)
    × (observed_id inventory l.right ≡ some id)
    × ((p : Place) → has id p ↔ (p ≡ place l.left ⊎ p ≡ place l.right))

-- The links have identities, which differ from each other and from those of the list.
abbrev pub ArePairs :
    LiveInventory → (String → Place → Type 0) → List String → List LinkPlan → Type 0
ArePairs inventory has seen [] = Unit
ArePairs inventory has seen (l ∷ ls) =
    (id : String) × IsPair inventory has l id × ¬ In id seen × ArePairs inventory has (id ∷ seen) ls

group_iff :
    (id : String) (veths : List (String × Place)) (p : Place)
    → In p (group id veths) ↔ In (id, p) veths
group_iff id [] p = (λ h. h, λ h. h)
group_iff id ((j, q) ∷ rest) p = ground (arith, beq_iff id j, group_iff id rest p)

In-pair : (p a b : Place) → In p (a ∷ b ∷ []) ↔ (p ≡ a ⊎ p ≡ b)
In-pair p a b = ground arith

-- Both tests of a group say that it has exactly the two places.
same_places :
    (xs : List Place) (a b : Place)
    → (same_set xs (a ∷ b ∷ []) ≡ true) ↔ ((p : Place) → In p xs ↔ (p ≡ a ⊎ p ≡ b))
same_places xs a b =
    let there = all-contains_iff (a ∷ b ∷ []) xs in
    let back = all-contains_iff xs (a ∷ b ∷ []) in
    (
      λ h p. (
        λ at. (In-pair p a b).0 (there.0 (ground arith) p at),
        λ e. back.0 (ground arith) p ((In-pair p a b).1 e),
      ),
      λ h. ground (
        arith,
        there.1 (λ p at. (In-pair p a b).1 ((h p).0 at)),
        back.1 (λ p at. (h p).1 ((In-pair p a b).0 at)),
      ),
    )

pair_of_iff :
    (l r : Option String) (id : String) → (pair_of l r ≡ some id) ↔ ((l ≡ some id) × (r ≡ some id))
pair_of_iff none r id = ground arith
pair_of_iff (some x) none id = ground arith
pair_of_iff (some x) (some y) id = ground (arith, beq_iff y x)

module _ (inventory : LiveInventory) (veths : List (String × Place)) where
  group_lem :
      (id : String) (a b : Place)
      → (same_set (group id veths) (a ∷ b ∷ []) ≡ true)
        ↔ ((p : Place) → In (id, p) veths ↔ (p ≡ a ⊎ p ≡ b))
  group_lem id a b =
      let same = same_places (group id veths) a b in
      let at = group_iff id veths in
      (
        λ h p. (λ i. (same.0 h p).0 ((at p).1 i), λ e. (at p).0 ((same.0 h p).1 e)),
        λ h. same.1 (λ p. (λ i. (h p).0 ((at p).0 i), λ e. (at p).1 ((h p).1 e))),
      )

  match_links_sound :
      (seen : List String) (ls : List LinkPlan)
      → match_links inventory veths seen ls ≡ true
      → ArePairs inventory (λ id p. In (id, p) veths) seen ls
  unfolding match_links
  match_links_sound seen [] h = tt
  match_links_sound seen (l ∷ ls) h =
      elim (Option-cases (pair_of (observed_id inventory l.left) (observed_id inventory l.right))) [
        | inl absent ↦ absurd (ground arith)
        | inr (id, found) ↦
            let ids = (pair_of_iff _ _ id).0 found in
            (
              id,
              (ids.0, ids.1, (group_lem id _ _).0 (ground arith)),
              λ at. ground (arith, (contains_iff seen id).1 at),
              match_links_sound (id ∷ seen) ls (ground arith),
            )
      ]

  match_links_complete :
      (seen : List String) (ls : List LinkPlan)
      → ArePairs inventory (λ id p. In (id, p) veths) seen ls
      → match_links inventory veths seen ls ≡ true
  unfolding match_links
  match_links_complete seen [] h = refl
  match_links_complete seen (l ∷ ls) (id, pair, fresh, rest) = ground (
    arith,
    (pair_of_iff (observed_id inventory l.left) (observed_id inventory l.right) id).1
        (pair.0, pair.1),
    (contains_iff seen id).0,
    fresh,
    (group_lem id (place l.left) (place l.right)).1 pair.2,
    match_links_complete (id ∷ seen) ls rest,
  )

-- Only what has an identity matters.
ArePairs-same :
    (inventory : LiveInventory) (has own : String → Place → Type 0) (seen : List String)
    (ls : List LinkPlan)
    → ((id : String) (p : Place) → has id p ↔ own id p)
    → ArePairs inventory has seen ls
    → ArePairs inventory own seen ls
ArePairs-same inventory has own seen [] e h = tt
ArePairs-same inventory has own seen (l ∷ ls) e (id, pair, fresh, rest) = (
  id,
  (pair.0, pair.1, λ p. (λ o. (pair.2 p).0 ((e id p).1 o), λ q. (e id p).0 ((pair.2 p).1 q))),
  fresh,
  ArePairs-same inventory has own (id ∷ seen) ls e rest,
)

collected_pairs :
    (inventory : LiveInventory) (o : Option (List (String × Place))) (ls : List LinkPlan)
    → AllCollected inventory.namespaces o
    → ((elim o [ none ↦ false | some veths ↦ match_links inventory veths [] ls ]) ≡ true)
      ↔ (AllUsable inventory.namespaces × ArePairs inventory (IsVeth inventory.namespaces) [] ls)
collected_pairs inventory none ls c = (λ h. cc, λ h. absurd (c h.0))
collected_pairs inventory (some veths) ls c = (
  λ h. (c.0, ArePairs-same inventory _ _ [] ls c.1 (match_links_sound inventory veths [] ls h)),
  λ h.
      match_links_complete inventory veths [] ls
        (ArePairs-same inventory _ _ [] ls (λ id p. ((c.1 id p).1, (c.1 id p).0)) h.1),
)

-- The veth pairs of an inventory match the links of a plan exactly when every veth of the inventory
-- has an identity, and the links of the plan have identities, no two the same, such that both ends
-- of a link show its identity and the veths of the inventory that have it are those two ends.
pub links_match_iff :
    (plan : TopologyPlan) (inventory : LiveInventory)
    → (links_match plan inventory ≡ true) ↔ (
        AllUsable inventory.namespaces
        × ArePairs inventory (IsVeth inventory.namespaces) [] plan.links)
unfolding links_match
links_match_iff plan inventory =
    collected_pairs inventory (observed_veths inventory.namespaces) plan.links
      (observed_veths-AllCollected inventory.namespaces)
