-- ===== src/Fake/Kept.antt =====
-- The operations of the backend in memory that add to it keep its veth pairs in order.
use nslab.Base.{
  ℕ, String, ◌≡◌, refl, sym, ◌∙◌, subst, Bool, true, false, Option, none, some, [], ◌∷◌, ◌==◌,
  string_eq, beq_iff, arith, if◌then◌else◌, inl, inr, Option-cases, Bool-cases,
}
use nslab.Base.Dict.{Dict, lookup, insert, has_key, lookup-insert, has_key-lookup}
use nslab.Error.{Error, exception, Result, ok, err}
use nslab.Exec.{pure, raise, given, ◌>>=◌}
use nslab.Exec.Keeps.{Keeps, Keeps-pure, Keeps-raise, Keeps-lift, Keeps-bind, Keeps-if, Keeps-given}
use nslab.Exec.Hoare.{Hoare, Hoare-Keeps, Hoare-bind}
use nslab.Plan.Types.{NodePlan}
use nslab.Inventory.Types.{InterfaceInventory}
use nslab.Inventory.Expected.{expected_routes}
use nslab.Fake.{
  create_namespace, add_namespace, named_bridge, bridge_required, insert_bridge, create_bridge,
  new_namespace,
}
use nslab.Fake.State.{
  FakeNamespaceState, FakeNetworkBackend, EndpointKey, read, write, record_call, allocate_ifindex,
  require_namespace, insert_interface, resource_error,
}
use nslab.Fake.Paired.{IsPaired, holds, has_end, has_end-lookup, lookup-has_end}

pub Keeps-write :
    {P : FakeNetworkBackend → Type 0} (f : FakeNetworkBackend → FakeNetworkBackend)
    → ((b : FakeNetworkBackend) → P b → P (f b))
    → Keeps P (write f)
unfolding write
Keeps-write f h = record { at = h }

pub Keeps-read :
    {P : FakeNetworkBackend → Type 0} {A : Type 0} (f : FakeNetworkBackend → A) → Keeps P (read f)
unfolding read
Keeps-read f = record { at = λ b h. h }

-- What the veth pairs and the namespaces alone decide.
pub record Local (P : FakeNetworkBackend → Type 0) : Type 0 where
  pub counted :
      (b : FakeNetworkBackend) {n : ℕ} {c : _} → P b → P (record b { call_count = n; calls = c })
  pub indexed : (b : FakeNetworkBackend) {d : _} → P b → P (record b { next_ifindex = d })

module _ {P : FakeNetworkBackend → Type 0} (local : Local P) where
  pub Keeps-record_call : (operation resource : String) → Keeps P (record_call operation resource)
  unfolding record_call
  Keeps-record_call operation resource =
      Keeps-bind _ _ (Keeps-write _ λ b h. local.counted b h) λ a.
        Keeps-bind _ _ (Keeps-read _)
          λ n. Keeps-bind _ _ (Keeps-read _) λ f. Keeps-if _ _ _ (Keeps-raise _) (Keeps-pure tt)

  pub Keeps-allocate_ifindex : (namespace : String) → Keeps P (allocate_ifindex namespace)
  unfolding allocate_ifindex
  Keeps-allocate_ifindex namespace =
      Keeps-bind _ _ (Keeps-read _)
        λ n. Keeps-bind _ _ (Keeps-write _ λ b h. local.indexed b h) λ a. Keeps-pure n

  pub Keeps-require_namespace :
      (namespace operation resource : String)
      → Keeps P (require_namespace namespace operation resource)
  unfolding require_namespace
  Keeps-require_namespace namespace operation resource =
      Keeps-bind _ _ (Keeps-read _) λ s. Keeps-given s _ _ (Keeps-raise _) λ a. Keeps-pure a

pub Local-IsPaired : Local IsPaired
Local-IsPaired = record {
  counted = λ b h. record { symmetric = h.symmetric; there = h.there };
  indexed = λ b h. record { symmetric = h.symmetric; there = h.there };
}

-- A namespace that must be there is the one found.
abbrev pub Found :
    (FakeNetworkBackend → Type 0) → String → Result FakeNamespaceState → FakeNetworkBackend → Type 0
Found P namespace (ok s) b = P b × (lookup namespace b.namespaces ≡ some s)
Found P namespace (err x) b = P b

found :
    (P : FakeNetworkBackend → Type 0) (namespace : String) (x : Error) (b : FakeNetworkBackend)
    (o : Option FakeNamespaceState)
    → P b
    → lookup namespace b.namespaces ≡ o
    → let m = given o (raise x) pure in Found P namespace (m b).0 (m b).1
unfolding ◌>>=◌
found P namespace x b none h q = h
found P namespace x b (some s) h q = (h, q)

pub require-Found :
    {P : FakeNetworkBackend → Type 0} (namespace operation resource : String)
    → Hoare P (require_namespace namespace operation resource) (Found P namespace)
unfolding require_namespace read ◌>>=◌
require-Found namespace operation resource = record { at = λ b h. found _ namespace _ b _ h refl }

-- More interfaces do no harm.
pub IsPaired-grown :
    (b : FakeNetworkBackend) (namespaces : Dict FakeNamespaceState)
    → ((k : EndpointKey) → has_end k b.namespaces ≡ true → has_end k namespaces ≡ true)
    → IsPaired b
    → IsPaired (record b { namespaces = namespaces })
IsPaired-grown b namespaces more h = record {
  symmetric = h.symmetric;
  there = λ k j q. more k (h.there k j q);
}

-- The ends of a namespace that is put in the place of one with fewer interfaces, or of none.
pub has_end-insert :
    (k : EndpointKey) (namespace : String) (s : FakeNamespaceState) (d : Dict FakeNamespaceState)
    → ((old : FakeNamespaceState)
        → lookup namespace d ≡ some old
        → has_key k.1 old.interfaces ≡ true
        → has_key k.1 s.interfaces ≡ true)
    → has_end k d ≡ true
    → has_end k (insert namespace s d) ≡ true
has_end-insert (n, i) namespace s d more h =
    let (old, (q, r)) = has_end-lookup n i d h in
    elim (Bool-cases (n == namespace)) [
      | inl same ↦
          let here : n ≡ namespace = (beq_iff n namespace).0 same in
          lookup-has_end n i s _ (lookup-insert namespace n s d ∙ rw same refl)
            (more old (subst (λ m. lookup m d ≡ some old) here q) r)
      | inr apart ↦ lookup-has_end n i old _ (lookup-insert namespace n s d ∙ rw apart q) r
    ]

pub has_key-insert :
    (i j : String) (v : InterfaceInventory) (d : Dict InterfaceInventory)
    → has_key i d ≡ true
    → has_key i (insert j v d) ≡ true
has_key-insert i j v [] h = absurd (cc h)
has_key-insert i j v ((k, w) ∷ d) h =
    ground (arith, beq_iff i j, beq_iff j k, beq_iff i k, has_key-insert i j v d)

pub has_key-insert_same :
    (i : String) (v : InterfaceInventory) (d : Dict InterfaceInventory)
    → has_key i (insert i v d) ≡ true
has_key-insert_same i v [] = ground (arith, beq_iff i i)
has_key-insert_same i v ((k, w) ∷ d) =
    ground (arith, beq_iff i i, beq_iff i k, has_key-insert_same i v d)

call_kept : (operation resource : String) → Keeps IsPaired (record_call operation resource)
call_kept = Keeps-record_call Local-IsPaired

pub grown_by :
    (namespace : String) (i : InterfaceInventory) (s : FakeNamespaceState)
    (d : Dict FakeNamespaceState)
    → lookup namespace d ≡ some s
    → (k : EndpointKey) → has_end k d ≡ true
    → has_end k (insert namespace (record s { interfaces = insert i.name i s.interfaces }) d) ≡ true
grown_by namespace i s d q k = has_end-insert k namespace _ d λ old r e.
    has_key-insert k.1 i.name i s.interfaces (subst (λ o. holds k.1 o ≡ true) (sym r ∙ q) e)

pub Keeps-insert_interface :
    (namespace : String) (i : InterfaceInventory) → Keeps IsPaired (insert_interface namespace i)
unfolding insert_interface read write ◌>>=◌
Keeps-insert_interface namespace i = record {
  at = λ b h. go b h (lookup namespace b.namespaces) refl;
}
  where
    go :
        (b : FakeNetworkBackend)
        → IsPaired b
        → (o : Option FakeNamespaceState) → lookup namespace b.namespaces ≡ o
        → IsPaired
            ((given o (raise (exception "KeyError" namespace [])) λ s. write λ b. record b {
              namespaces =
                  insert namespace
                    (record s { interfaces = insert i.name i s.interfaces })
                    b.namespaces;
            })
              b).1
    go b h none q = h
    go b h (some s) q = IsPaired-grown b _ (grown_by namespace i s b.namespaces q) h

-- What is known while the namespace is not there yet.
record Missing (namespace : String) (b : FakeNetworkBackend) : Type 0 where
  paired : IsPaired b
  absent : lookup namespace b.namespaces ≡ none

Local-Missing : (namespace : String) → Local (Missing namespace)
Local-Missing namespace = record {
  counted = λ b h. record { paired = Local-IsPaired.counted b h.paired; absent = h.absent };
  indexed = λ b h. record { paired = Local-IsPaired.indexed b h.paired; absent = h.absent };
}

module _ (node : NodePlan) where
  add_namespace-IsPaired : Hoare (Missing node.namespace) (add_namespace node) (λ _. IsPaired)
  unfolding write
  add_namespace-IsPaired =
      Hoare-bind _ _ (Hoare-Keeps (Keeps-write _ λ b h. (Local-Missing node.namespace).indexed b h))
        (λ a.
          Hoare-bind _ _
            (Hoare-Keeps (Keeps-allocate_ifindex (Local-Missing node.namespace) node.namespace))
            (λ ifindex.
              Hoare-bind _ _ (Hoare-Keeps (Keeps-lift (expected_routes node)))
                (λ routes. record {
                  at = λ b h.
                      IsPaired-grown b _
                        (λ k.
                          has_end-insert k node.namespace (new_namespace node ifindex routes)
                            b.namespaces λ old q r. absurd (cc (h.absent, q)))
                        h.paired;
                })
                (λ x b h. h.paired))
            (λ x b h. h.paired))
        (λ x b h. h.paired)

  absent_key :
      (b : FakeNetworkBackend)
      → has_key node.namespace b.namespaces ≡ false
      → lookup node.namespace b.namespaces ≡ none
  absent_key b q = elim (Option-cases (lookup node.namespace b.namespaces)) [
    | inl absent ↦ absent
    | inr (s, r) ↦ absurd (cc (has_key-lookup node.namespace b.namespaces r, q))
  ]

  checked :
      (b : FakeNetworkBackend) (t : Bool)
      → IsPaired b
      → has_key node.namespace b.namespaces ≡ t
      → IsPaired
          ((if t
              then raise (resource_error "RESOURCE_EXISTS" "create_namespace" node.namespace)
              else add_namespace node)
            b).1
  unfolding ◌>>=◌
  checked b true h q = h
  checked b false h q = add_namespace-IsPaired.at b (record { paired = h; absent = absent_key b q })

  -- A namespace that is new takes nothing away.
  pub Keeps-create_namespace : Keeps IsPaired (create_namespace node)
  unfolding create_namespace read ◌>>=◌
  Keeps-create_namespace =
      Keeps-bind _ _ (call_kept "create_namespace" node.namespace)
        λ a. record { at = λ b h. checked b _ h refl }

  pub Keeps-create_bridge : Keeps IsPaired (create_bridge node)
  unfolding create_bridge
  Keeps-create_bridge = Keeps-bind _ _ (call_kept _ _) λ a.
      Keeps-bind _ _ (Keeps-require_namespace Local-IsPaired _ _ _) λ s.
        Keeps-given (named_bridge node.kind node.bridge_name) (raise (bridge_required node)) _
          (Keeps-raise _)
          λ name.
            Keeps-if (has_key name s.interfaces) (raise _) (insert_bridge node name) (Keeps-raise _)
              (Keeps-bind _ _ (Keeps-allocate_ifindex Local-IsPaired node.namespace)
                λ n. Keeps-insert_interface node.namespace _)
