-- ===== src/Inventory/Links/Veths.antt =====
-- The veths that the comparison of links collects are those of the inventory.
use nslab.Base.Membership.{In-append_iff}
use nslab.Base.{
  String, ◌≡◌, sym, subst, ap, ◌↔◌, inl, inr, Option, none, some, List, [], ◌∷◌, ◌++◌, In, arith,
  ◌==◌, string_eq, beq_iff, Option-cases, Bool-cases, ◌∙◌,
}
use mathlib.Core.Option
use nslab.Base.Dict.{Dict}
use nslab.Inventory.Types.{InterfaceInventory, NamespaceInventory}
use nslab.Inventory.Links.{Place, usable, veths_of, observed_veths}

-- The interface is a veth with the link identity.
abbrev pub HasId : String → InterfaceInventory → Type 0
HasId id i = (i.kind ≡ "veth") × (usable i.link_id ≡ some id)

-- An interface of the namespace with the name is one.
abbrev pub InNamespace : Dict InterfaceInventory → String → String → Type 0
InNamespace interfaces id name = (i : InterfaceInventory) × In (name, i) interfaces × HasId id i

-- The inventory has such an interface at the place.
abbrev pub IsVeth : Dict NamespaceInventory → String → Place → Type 0
IsVeth observed id (namespace, name) =
    (n : NamespaceInventory) × In (namespace, n) observed × InNamespace n.interfaces id name

-- Every veth of the namespace has an identity.
abbrev pub AreUsable : Dict InterfaceInventory → Type 0
AreUsable [] = Unit
AreUsable ((name, i) ∷ rest) =
    (i.kind ≡ "veth" → (id : String) × (usable i.link_id ≡ some id)) × AreUsable rest

abbrev pub AllUsable : Dict NamespaceInventory → Type 0
AllUsable [] = Unit
AllUsable ((namespace, n) ∷ rest) = AreUsable n.interfaces × AllUsable rest

-- What `veths_of` collects.
record Collects (ns : String) (interfaces : Dict InterfaceInventory) (vs : List (String × Place))
    : Type 0 where
  pub sound :
      (id m name : String) → In (id, (m, name)) vs → (m ≡ ns) × InNamespace interfaces id name
  pub complete : (id name : String) → InNamespace interfaces id name → In (id, (ns, name)) vs

Collects-kept :
    (ns name id : String) (i : InterfaceInventory) (rest : Dict InterfaceInventory)
    (vs : List (String × Place))
    → HasId id i
    → Collects ns rest vs
    → Collects ns ((name, i) ∷ rest) ((id, (ns, name)) ∷ vs)
Collects-kept ns name id i rest vs has c = record {
  sound = λ id' m name' at. elim at [
    | inl same ↦ (
      ap (λ p. p.1.0) same,
      (i, inl (ap (λ p. (p.1.1, i)) same), (has.0, has.1 ∙ ap some (sym (ap (λ p. p.0) same)))),
    )
    | inr there ↦ let (e, (j, listed, h)) = c.sound id' m name' there in (e, (j, inr listed, h))
  ];
  complete = λ id' name' (j, listed, h). elim listed [
    | inl same ↦ let there = subst (HasId id') (ap (λ p. p.1) same) h in inl cc
    | inr there ↦ inr (c.complete id' name' (j, there, h))
  ];
}

Collects-skipped :
    (ns name : String) (i : InterfaceInventory) (rest : Dict InterfaceInventory)
    (vs : List (String × Place))
    → (i.kind ≡ "veth" → ⊥)
    → Collects ns rest vs
    → Collects ns ((name, i) ∷ rest) vs
Collects-skipped ns name i rest vs other c = record {
  sound =
      λ id m name' at. let (e, (j, listed, h)) = c.sound id m name' at in (e, (j, inr listed, h));
  complete = λ id name' (j, listed, h). elim listed [
    | inl same ↦ absurd (other (subst (HasId id) (ap (λ p. p.1) same) h).0)
    | inr there ↦ c.complete id name' (j, there, h)
  ];
}

-- What is known of the collection, by whether it succeeds.
Collected : String → Dict InterfaceInventory → Option (List (String × Place)) → Type 0
Collected ns interfaces none = ¬ AreUsable interfaces
Collected ns interfaces (some vs) = AreUsable interfaces × Collects ns interfaces vs

Collected-kept :
    (ns name id : String) (i : InterfaceInventory) (rest : Dict InterfaceInventory)
    (o : Option (List (String × Place)))
    → HasId id i
    → Collected ns rest o
    → Collected ns ((name, i) ∷ rest) (Option.map (λ vs. (id, (ns, name)) ∷ vs) o)
unfolding Collected
Collected-kept ns name id i rest none has c = λ u. c u.1
Collected-kept ns name id i rest (some vs) has c =
    (((λ k. (id, has.1)), c.0), Collects-kept ns name id i rest vs has c.1)

Collected-skipped :
    (ns name : String) (i : InterfaceInventory) (rest : Dict InterfaceInventory)
    (o : Option (List (String × Place)))
    → (i.kind ≡ "veth" → ⊥)
    → Collected ns rest o
    → Collected ns ((name, i) ∷ rest) o
unfolding Collected
Collected-skipped ns name i rest none other c = λ u. c u.1
Collected-skipped ns name i rest (some vs) other c =
    (((λ k. absurd (other k)), c.0), Collects-skipped ns name i rest vs other c.1)

veths_of-Collected :
    (ns : String) (interfaces : Dict InterfaceInventory)
    → Collected ns interfaces (veths_of ns interfaces)
unfolding veths_of Collected
veths_of-Collected ns [] = (
  tt,
  record { sound = λ id m name at. elim at [ ]; complete = λ id name (i, at, h). elim at [ ] },
)
veths_of-Collected ns ((name, i) ∷ rest) = elim (Bool-cases (i.kind == "veth")) [
  | inl veth ↦ elim (Option-cases (usable i.link_id)) [
    | inl unusable ↦
        rw (veth, unusable)
          (λ u. let (id, found) = u.0 (ground (arith, beq_iff i.kind "veth")) in ground arith)
    | inr (id, found) ↦
        rw (veth, found)
          (Collected-kept ns name id i rest _ (ground (arith, beq_iff i.kind "veth"), found)
            (veths_of-Collected ns rest))
  ]
  | inr other ↦ rw other (
      Collected-skipped ns name i rest _ (λ k. ground (arith, beq_iff i.kind "veth"))
        (veths_of-Collected ns rest))
]

-- The same of a whole inventory.
abbrev pub AllCollected : Dict NamespaceInventory → Option (List (String × Place)) → Type 0
AllCollected observed none = ¬ AllUsable observed
AllCollected observed (some veths) =
    AllUsable observed × ((id : String) (p : Place) → In (id, p) veths ↔ IsVeth observed id p)

AllCollected-append :
    (ns : String) (n : NamespaceInventory) (rest : Dict NamespaceInventory)
    (here : Option (List (String × Place))) (others : Option (List (String × Place)))
    → Collected ns n.interfaces here
    → AllCollected rest others
    → AllCollected
        ((ns, n) ∷ rest)
        (elim here [ none ↦ none | some vs ↦ Option.map (λ more. vs ++ more) others ])
unfolding Collected
AllCollected-append ns n rest none others c a = λ u. c u.0
AllCollected-append ns n rest (some vs) none c a = λ u. a u.1
AllCollected-append ns n rest (some vs) (some more) c a = (
  (c.0, a.0),
  λ id (m, name). (
    λ at. elim ((In-append_iff (id, (m, name)) vs more).0 at) [
      | inl here ↦ let (e, found) = c.1.sound id m name here in (n, inl (ap (λ x. (x, n)) e), found)
      | inr there ↦ let (k, listed, found) = (a.1 id (m, name)).0 there in (k, inr listed, found)
    ],
    λ (k, listed, found). (In-append_iff (id, (m, name)) vs more).1 elim listed [
      | inl same ↦ inl (
          subst (λ x. In (id, (x, name)) vs) (sym (ap (λ x. x.0) same))
            (c.1.complete id name
              (subst (λ j. InNamespace j.interfaces id name) (ap (λ x. x.1) same) found)))
      | inr there ↦ inr ((a.1 id (m, name)).1 (k, there, found))
    ],
  ),
)

pub observed_veths-AllCollected :
    (observed : Dict NamespaceInventory) → AllCollected observed (observed_veths observed)
unfolding observed_veths
observed_veths-AllCollected [] = (tt, λ id p. (λ at. elim at [ ], λ (n, at, h). elim at [ ]))
observed_veths-AllCollected ((ns, n) ∷ rest) =
    AllCollected-append ns n rest _ _ (veths_of-Collected ns n.interfaces)
      (observed_veths-AllCollected rest)
