-- ===== src/Fake/Veths.antt =====
-- backend/fake.py, `create_veth`: a new pair, whose ends had no peers before.
use nslab.Base.{
  ℕ, String, ◌≡◌, refl, sym, ap, ◌∙◌, subst, Bool, true, false, ◌||◌, Option, none, some, [],
  if◌then◌else◌, string_eq, inl, inr, Option-cases, arith, beq_iff,
}
use nslab.Base.Dict.{Dict, lookup, insert, has_key, lookup-insert}
use nslab.Error.{Result, ok, err, exception}
use nslab.Exec.{Exec, raise, given, ◌>>=◌}
use nslab.Exec.Keeps.{Keeps, Keeps-bind}
use nslab.Exec.Hoare.{Hoare, Hoare-Keeps, Keeps-Hoare, Hoare-bind, Hoare-weaken}
use nslab.Plan.Types.{LinkPlan, EndpointPlan}
use nslab.Inventory.Types.{InterfaceInventory}
use nslab.Fake.{connect, insert_veth_endpoint, key_of, link_resource, create_veth}
use nslab.Fake.State.{
  FakeNamespaceState, FakeNetworkBackend, EndpointKey, peer_of, set_peer, read, write,
  insert_interface, resource_error,
}
use nslab.Fake.Paired.{IsPaired, holds, has_end, has_end-holds, lookup-has_end}
use nslab.Fake.Kept.{
  Local, Local-IsPaired, Keeps-write, Keeps-read, Keeps-allocate_ifindex, Keeps-record_call,
  IsPaired-grown, grown_by, has_key-insert_same, require-Found,
}
use nslab.Fake.Pairs.{pair_cases, pair_symmetric}

-- What stays as interfaces are added.
record Growing (P : FakeNetworkBackend → Type 0) : Type 0 where
  local : Local P
  grown :
      (b : FakeNetworkBackend) (namespaces : Dict FakeNamespaceState)
      → ((k : EndpointKey) → has_end k b.namespaces ≡ true → has_end k namespaces ≡ true)
      → P b
      → P (record b { namespaces = namespaces })
  numbered : (b : FakeNetworkBackend) {n : ℕ} → P b → P (record b { next_link_id = n })

abbrev Inserted :
    (FakeNetworkBackend → Type 0) → EndpointKey → Result (Unit {0}) → FakeNetworkBackend → Type 0
Inserted P k (ok a) b = P b × (has_end k b.namespaces ≡ true)
Inserted P k (err x) b = P b

abbrev grown_state : InterfaceInventory → FakeNamespaceState → FakeNamespaceState
grown_state i s = record s { interfaces = insert i.name i s.interfaces }

module _ {P : FakeNetworkBackend → Type 0} (g : Growing P) (namespace : String) where
  added :
      (i : InterfaceInventory) (b : FakeNetworkBackend) (o : Option FakeNamespaceState)
      → P b
      → lookup namespace b.namespaces ≡ o
      → let m = given o (raise (exception "KeyError" namespace [])) λ s. write λ b. record b {
        namespaces =
            insert namespace (record s { interfaces = insert i.name i s.interfaces }) b.namespaces;
      } in
        Inserted P (namespace, i.name) (m b).0 (m b).1
  unfolding write ◌>>=◌
  added i b none h q = h
  added i b (some s) h q = (
    g.grown b _ (grown_by namespace i s b.namespaces q) h,
    lookup-has_end namespace i.name (grown_state i s) _
        (lookup-insert namespace namespace (grown_state i s) b.namespaces
          ∙ rw ((beq_iff namespace namespace).1 refl) refl)
        (has_key-insert_same i.name i s.interfaces),
  )

  insert_interface-Inserted :
      (i : InterfaceInventory)
      → Hoare P (insert_interface namespace i) (Inserted P (namespace, i.name))
  unfolding insert_interface read ◌>>=◌
  insert_interface-Inserted i = record { at = λ b h. added i b _ h refl }

module _ (l : LinkPlan) where
  -- Neither end has a peer.
  record Free (b : FakeNetworkBackend) : Type 0 where
    paired : IsPaired b
    left_free : peer_of (key_of l.left) b.veth_peers ≡ none
    right_free : peer_of (key_of l.right) b.veth_peers ≡ none

  Growing-Free : Growing Free
  Growing-Free = record {
    local = record {
      counted = λ b h. record {
        paired = Local-IsPaired.counted b h.paired;
        left_free = h.left_free;
        right_free = h.right_free;
      };
      indexed = λ b h. record {
        paired = Local-IsPaired.indexed b h.paired;
        left_free = h.left_free;
        right_free = h.right_free;
      };
    };
    grown = λ b namespaces more h. record {
      paired = IsPaired-grown b namespaces more h.paired;
      left_free = h.left_free;
      right_free = h.right_free;
    };
    numbered = λ b h. record {
      paired = record { symmetric = h.paired.symmetric; there = h.paired.there };
      left_free = h.left_free;
      right_free = h.right_free;
    };
  }

  -- The left end is there by now.
  record Half (b : FakeNetworkBackend) : Type 0 where
    free : Free b
    left_there : has_end (key_of l.left) b.namespaces ≡ true

  Growing-Half : Growing Half
  Growing-Half = record {
    local = record {
      counted =
          λ b h. record { free = Growing-Free.local.counted b h.free; left_there = h.left_there };
      indexed =
          λ b h. record { free = Growing-Free.local.indexed b h.free; left_there = h.left_there };
    };
    grown = λ b namespaces more h. record {
      free = Growing-Free.grown b namespaces more h.free;
      left_there = more (key_of l.left) h.left_there;
    };
    numbered = λ b h. record { free = Growing-Free.numbered b h.free; left_there = h.left_there };
  }

  linked : FakeNetworkBackend → FakeNetworkBackend
  linked b = record b {
    veth_peers =
        set_peer (key_of l.right) (key_of l.left)
          (set_peer (key_of l.left) (key_of l.right) b.veth_peers);
  }

  linked-IsPaired :
      (b : FakeNetworkBackend)
      → Half b
      → has_end (key_of l.right) b.namespaces ≡ true
      → IsPaired (linked b)
  unfolding linked
  linked-IsPaired b h right_there = record {
    symmetric =
        pair_symmetric (key_of l.left) (key_of l.right) b.veth_peers h.free.left_free
          h.free.right_free h.free.paired.symmetric;
    there = λ k j q. elim (pair_cases (key_of l.left) (key_of l.right) b.veth_peers k) [
      | inl (is_right, _) ↦ subst (λ e. has_end e b.namespaces ≡ true) (sym is_right) right_there
      | inr (inl (is_left, _)) ↦
          subst (λ e. has_end e b.namespaces ≡ true) (sym is_left) h.left_there
      | inr (inr same) ↦ h.free.paired.there k j (sym same ∙ q)
    ];
  }

  module _ {P : FakeNetworkBackend → Type 0} (g : Growing P) (e : EndpointPlan)
      (link_id : String) where
    insert_veth-Inserted : Hoare P (insert_veth_endpoint l link_id e) (Inserted P (key_of e))
    insert_veth-Inserted =
        Hoare-bind _ _ (Hoare-Keeps (Keeps-allocate_ifindex g.local e.namespace))
          (λ ifindex. insert_interface-Inserted g e.namespace _) (λ x b h. h)

  connect-IsPaired : Hoare Free (connect l) (λ _. IsPaired)
  unfolding linked write
  connect-IsPaired =
      Hoare-bind _ _ (Hoare-Keeps (Keeps-read (λ b. b.next_link_id)))
        (λ number.
          Hoare-bind _ _ (Hoare-Keeps (Keeps-write _ λ b h. Growing-Free.numbered b h))
            (λ a.
              Hoare-bind _ _ (insert_veth-Inserted Growing-Free l.left _)
                (λ a'.
                  Hoare-bind {Q = Inserted Half (key_of l.right)} _ _
                    (Hoare-weaken (λ b (h, there). record { free = h; left_there = there })
                      (insert_veth-Inserted Growing-Half l.right _))
                    (λ a''. linking) (λ x b h. h.free.paired))
                (λ x b h. h.paired))
            (λ x b h. h.paired))
        (λ x b h. h.paired)
    where
      linking :
          Hoare
            (λ b. Half b × (has_end (key_of l.right) b.namespaces ≡ true))
            (write linked)
            (λ _. IsPaired)
      linking = record { at = λ b (h, there). linked-IsPaired b h there }

  end_free :
      (e : EndpointPlan) (s : FakeNamespaceState) (b : FakeNetworkBackend)
      → IsPaired b
      → lookup e.namespace b.namespaces ≡ some s
      → has_key e.interface s.interfaces ≡ false
      → peer_of (key_of e) b.veth_peers ≡ none
  end_free e s b h q r = elim (Option-cases (peer_of (key_of e) b.veth_peers)) [
    | inl free ↦ free
    | inr (j, found) ↦ absurd (
        cc (
          ap (λ o. holds e.interface o) q,
          has_end-holds e.namespace e.interface b.namespaces (h.there (key_of e) j found),
          r,
        ))
  ]

  either_false : (a c : Bool) → (a || c) ≡ false → (a ≡ false) × (c ≡ false)
  either_false a c h = ground arith

  guarded : FakeNamespaceState → FakeNamespaceState → Exec FakeNetworkBackend Unit
  guarded left right =
      if has_key l.left.interface left.interfaces || has_key l.right.interface right.interfaces
      then raise (resource_error "RESOURCE_EXISTS" "create_veth" (link_resource l))
      else connect l

  guarded-IsPaired :
      (left right : FakeNamespaceState) (b : FakeNetworkBackend)
      → IsPaired b
      → lookup l.left.namespace b.namespaces ≡ some left
      → lookup l.right.namespace b.namespaces ≡ some right
      → (t : Bool)
      → (has_key l.left.interface left.interfaces || has_key l.right.interface right.interfaces) ≡ t
      → IsPaired
          ((if t
              then raise (resource_error "RESOURCE_EXISTS" "create_veth" (link_resource l))
              else connect l)
            b).1
  unfolding ◌>>=◌
  guarded-IsPaired left right b h q r true t = h
  guarded-IsPaired left right b h q r false t =
      let (no_left, no_right) = either_false _ _ t in
      connect-IsPaired.at b (record {
        paired = h;
        left_free = end_free l.left left b h q no_left;
        right_free = end_free l.right right b h r no_right;
      })

  pub Keeps-create_veth : Keeps IsPaired (create_veth l)
  unfolding create_veth
  Keeps-create_veth =
      Keeps-bind _ _ (Keeps-record_call Local-IsPaired "create_veth" (link_resource l)) λ a.
        Keeps-Hoare (
          Hoare-bind _ _ (require-Found l.left.namespace _ _)
            (λ left.
              Hoare-bind _ _ (require-Found l.right.namespace _ _)
                (λ right. record {
                  at = λ b ((h, q), r). guarded-IsPaired left right b h q r _ refl;
                })
                (λ x b h. h.0))
            (λ x b h. h))
