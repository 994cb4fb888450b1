-- ===== src/Fake/Observed.antt =====
-- backend/fake.py, `inventory`, and the service's test that the resources of a plan are absent.
use nslab.Base.{
  String, ◌≡◌, refl, sym, ◌∙◌, true, false, Option, none, some, List, [], ◌∷◌, All, ◌==◌, string_eq,
  if◌then◌else◌, inl, inr, Bool-cases, beq_iff, arith, ap,
}
use mathlib.Core.Option.{some-injective}
use nslab.Base.Dict.{Dict, lookup, insert, has_key, values, lookup-insert, has_key-lookup}
use nslab.Error.{ok}
use nslab.Exec.Hoare.{Hoare, OnOk, on_ok, Hoare-skip}
use nslab.Plan.Types.{NodePlan, TopologyPlan}
use nslab.Inventory.Types.{NamespaceInventory, LiveInventory}
use nslab.Inventory.Whole.{inventory_is_absent}
use nslab.Inventory.Whole.Verdicts.{IsGone, inventory_is_absent-IsGone}
use nslab.Fake.{inventory, observed, namespace_inventory}
use nslab.Fake.State.{FakeNamespaceState, FakeNetworkBackend, read}

-- What was seen of a namespace says whether it is there.
abbrev Seen : Dict FakeNamespaceState → Dict NamespaceInventory → Type 0
Seen namespaces seen =
    (n : String) (o : NamespaceInventory) → lookup n seen ≡ some o → o.exists ≡ has_key n namespaces

has_key-none : (n : String) (d : Dict FakeNamespaceState) → lookup n d ≡ none → has_key n d ≡ false
has_key-none n [] h = refl
has_key-none n ((k, s) ∷ d) h = ground (arith, has_key-none n d)

namespace_inventory_lem :
    (node : NodePlan) (d : Dict FakeNamespaceState) (o : Option FakeNamespaceState)
    → lookup node.namespace d ≡ o
    → (namespace_inventory node o).exists ≡ has_key node.namespace d
namespace_inventory_lem node d none h = sym (has_key-none node.namespace d h)
namespace_inventory_lem node d (some s) h = sym (has_key-lookup node.namespace d h)

insert-Seen :
    (node : NodePlan) (d : Dict FakeNamespaceState) (seen : Dict NamespaceInventory)
    → Seen d seen
    → Seen d (insert node.namespace (namespace_inventory node (lookup node.namespace d)) seen)
insert-Seen node d seen h n o q =
    let new : NamespaceInventory = namespace_inventory node (lookup node.namespace d) in
    let after : lookup n (insert node.namespace new seen)
        ≡ (if n == node.namespace then some new else lookup n seen) =
      lookup-insert node.namespace n new seen in
    elim (Bool-cases (n == node.namespace)) [
      | inl same ↦
          let found : lookup n (insert node.namespace new seen) ≡ some new = after ∙ rw same refl in
          let is_new : new ≡ o = some-injective _ _ (sym found ∙ q) in
          sym (ap (λ x. x.exists) is_new)
          ∙ namespace_inventory_lem node d _ refl
          ∙ ap (λ m. has_key m d) (sym ((beq_iff n node.namespace).0 same))
      | inr other ↦
          let kept : lookup n (insert node.namespace new seen) ≡ lookup n seen =
            after ∙ rw other refl in
          h n o (sym kept ∙ q)
    ]

observed-Seen :
    (nodes : List NodePlan) (d : Dict FakeNamespaceState) (seen : Dict NamespaceInventory)
    → Seen d seen
    → Seen d (observed nodes d seen)
observed-Seen [] d seen h = h
observed-Seen (node ∷ nodes) d seen h = observed-Seen nodes d _ (insert-Seen node d seen h)

missing_nodes :
    (d : Dict FakeNamespaceState) (seen : Dict NamespaceInventory) (nodes : List NodePlan)
    → Seen d seen
    → All (IsGone seen) nodes
    → All (λ node. has_key node.namespace d ≡ false) nodes
missing_nodes d seen [] h a = tt
missing_nodes d seen (n ∷ nodes) h ((o, found, _, _, gone, _, _, _, _, _), a) =
    (sym (h n.namespace o found) ∙ gone, missing_nodes d seen nodes h a)

module _ (plan : TopologyPlan) where
  -- No interface in the root namespace and none of the namespaces of the plan's nodes.
  abbrev pub Vacant : FakeNetworkBackend → Type 0
  Vacant b =
      (b.root_interfaces ≡ [])
      × All (λ node. has_key node.namespace b.namespaces ≡ false) (values plan.nodes)

  -- What an inventory that the test takes for absent says of the state that was read.
  abbrev pub Told : LiveInventory → FakeNetworkBackend → Type 0
  Told i b = inventory_is_absent plan i ≡ true → Vacant b

  read-Told :
      Hoare
        (λ _. Unit)
        (read (λ b. record {
          namespaces = observed (values plan.nodes) b.namespaces [];
          root_interfaces = b.root_interfaces;
        }))
        (OnOk Told)
  unfolding read
  read-Told = record {
    at = λ b h absent.
        let (root, keys, gone) = inventory_is_absent-IsGone plan _ absent in
        (
          root,
          missing_nodes b.namespaces _ (values plan.nodes)
              (observed-Seen (values plan.nodes) b.namespaces [] (λ n o q. absurd (cc q))) gone,
        );
  }

  pub inventory-Told : Hoare (λ _. Unit) (inventory plan) (OnOk Told)
  unfolding inventory
  inventory-Told = Hoare-skip _ _ (λ a. read-Told)

  -- Where the inventory of the backend in memory is read and the service takes it to show the resources of
  -- the plan as absent, the backend has no interface in the root namespace and none of the namespaces of the
  -- plan's nodes.
  pub inventory-IsAbsent :
      (b : FakeNetworkBackend) (i : LiveInventory)
      → (inventory plan b).0 ≡ ok i
      → inventory_is_absent plan i ≡ true
      → ((inventory plan b).1.root_interfaces ≡ [])
        × All
            (λ node. has_key node.namespace (inventory plan b).1.namespaces ≡ false)
            (values plan.nodes)
  inventory-IsAbsent b i q absent = on_ok Told _ _ q (inventory-Told.at b tt) absent
