-- ===== src/Fake/Configured.antt =====
-- backend/fake.py, `configure_node`: no step of it takes an interface away.
use nslab.Base.{
  ℕ, String, ◌≡◌, refl, sym, ◌∙◌, subst, true, Option, none, some, List, [], ◌∷◌, ◌==◌, string_eq,
  beq_iff,
}
use nslab.Base.Dict.{Dict, lookup, insert, has_key, values, lookup-insert}
use nslab.Error.{Error, Result, ok, err}
use nslab.Exec.{Exec, pure, raise, lift, ◌>>=◌}
use nslab.Exec.Keeps.{Keeps, Keeps-lift, Keeps-bind}
use nslab.Exec.Hoare.{
  Hoare, Hoare-Keeps, Keeps-Hoare, Hoare-bind, Hoare-if, Hoare-given, Hoare-weaken,
}
use nslab.Plan.Types.{
  NodePlan, NodeKind, linux, bridge, LinkPlan, EndpointPlan, TopologyPlan, DevicePlan, vlan, vrf,
  bond, gre, ipip, vxlan, dummy, geneve, macvlan, ipvlan,
}
use nslab.Inventory.Types.{InterfaceInventory}
use nslab.Inventory.Expected.{expected_routes}
use nslab.Fake.State.{FakeNamespaceState, FakeNetworkBackend, write}
use nslab.Fake.Devices.{
  Interfaces, missing, insert_device, add_device, add_vxlan, add_dummy, add_gre, add_ipip,
  add_geneve, add_macvlan, add_ipvlan, add_bond, add_vrf, add_vlan,
}
use nslab.Fake.Configure.{
  each_device, replace_interface, enslave, enslave_members, configure_end, configure_links,
  set_macs, configure_bridge, configure_devices, configured, configure_node, configured_end,
}
use nslab.Fake.Paired.{IsPaired, holds}
use nslab.Fake.Kept.{
  Local, Local-IsPaired, Keeps-record_call, Keeps-allocate_ifindex, IsPaired-grown, has_end-insert,
  has_key-insert, require-Found,
}

-- Every interface of the one is an interface of the other.
abbrev Covers : Interfaces → Interfaces → Type 0
Covers i j = (k : String) → has_key k i ≡ true → has_key k j ≡ true

abbrev Grows :
    (FakeNetworkBackend → Type 0) → Interfaces → Result Interfaces → FakeNetworkBackend → Type 0
Grows P i (ok j) b = P b × Covers i j
Grows P i (err x) b = P b

carried :
    (P : FakeNetworkBackend → Type 0) (i j : Interfaces) (r : Result Interfaces)
    (b : FakeNetworkBackend)
    → Covers i j
    → Grows P j r b
    → Grows P i r b
carried P i j (ok k) b c (h, d) = (h, λ n q. d n (c n q))
carried P i j (err x) b c h = h

module _ {P : FakeNetworkBackend → Type 0} where
  Grows-pure : (i : Interfaces) → Hoare P (pure i) (Grows P i)
  unfolding ◌>>=◌
  Grows-pure i = record { at = λ b h. (h, λ k q. q) }

  Grows-raise : (i : Interfaces) (x : Error) → Hoare P (raise x) (Grows P i)
  unfolding ◌>>=◌
  Grows-raise i x = record { at = λ b h. h }

  Grows-bind :
      (i : Interfaces) (m : Exec FakeNetworkBackend Interfaces)
      (f : Interfaces → Exec FakeNetworkBackend Interfaces)
      → Hoare P m (Grows P i)
      → ((j : Interfaces) → Hoare P (f j) (Grows P j))
      → Hoare P (m >>= f) (Grows P i)
  Grows-bind i m f hm hf =
      Hoare-bind m f hm (λ j. record { at = λ b (h, c). carried P i j _ _ c ((hf j).at b h) })
        (λ x b h. h)

  Grows-insert :
      (i : Interfaces) (name : String) (v : InterfaceInventory)
      → Hoare P (pure (insert name v i)) (Grows P i)
  unfolding ◌>>=◌
  Grows-insert i name v = record { at = λ b h. (h, λ k q. has_key-insert k name v i q) }

  Grows-missing :
      (i : Interfaces) (resource name : String) → Hoare P (missing resource name) (Grows P i)
  Grows-missing i resource name = Grows-raise i _

  Grows-replace :
      (resource name : String) (f : InterfaceInventory → InterfaceInventory) (i : Interfaces)
      → Hoare P (replace_interface resource name f i) (Grows P i)
  unfolding replace_interface
  Grows-replace resource name f i =
      Hoare-given (lookup name i) (missing resource name) _ (λ q. Grows-missing i resource name)
        (λ v. Grows-insert i name (f v))

  Grows-enslave :
      (resource master : String) (members : List String) (i : Interfaces)
      → Hoare P (enslave resource master members i) (Grows P i)
  unfolding enslave
  Grows-enslave resource master [] i = Grows-pure i
  Grows-enslave resource master (m ∷ ms) i =
      Grows-bind i _ _ (Grows-replace resource m _ i) (λ j. Grows-enslave resource master ms j)

  Grows-set_macs :
      (resource : String) (macs : Dict String) (i : Interfaces)
      → Hoare P (set_macs resource macs i) (Grows P i)
  unfolding set_macs
  Grows-set_macs resource [] i = Grows-pure i
  Grows-set_macs resource ((name, mac) ∷ rest) i =
      Grows-bind i _ _ (Grows-replace resource name _ i) (λ j. Grows-set_macs resource rest j)

  Grows-each :
      (step : DevicePlan → Interfaces → Exec FakeNetworkBackend Interfaces)
      → ((d : DevicePlan) (i : Interfaces) → Hoare P (step d i) (Grows P i))
      → (ds : List DevicePlan) (i : Interfaces) → Hoare P (each_device step ds i) (Grows P i)
  unfolding each_device
  Grows-each step h [] i = Grows-pure i
  Grows-each step h (d ∷ ds) i = Grows-bind i _ _ (h d i) (λ j. Grows-each step h ds j)

  module _ (node : NodePlan) where
    Grows-configure_end :
        (l : LinkPlan) (e : EndpointPlan) (i : Interfaces)
        → Hoare P (configure_end node l e i) (Grows P i)
    unfolding configure_end
    Grows-configure_end l e i =
        Hoare-if (e.namespace == node.namespace)
          (replace_interface node.namespace e.interface (configured_end node l e.interface) i)
          (pure i) (λ q. Grows-replace node.namespace e.interface _ i) (λ q. Grows-pure i)

    Grows-configure_links :
        (ls : List LinkPlan) (i : Interfaces) → Hoare P (configure_links node ls i) (Grows P i)
    unfolding configure_links
    Grows-configure_links [] i = Grows-pure i
    Grows-configure_links (l ∷ ls) i =
        Grows-bind i _ _
          (Grows-bind i _ _ (Grows-configure_end l l.left i) (λ j. Grows-configure_end l l.right j))
          (λ j. Grows-configure_links ls j)

    Grows-configure_bridge :
        (kind : NodeKind) (i : Interfaces) → Hoare P (configure_bridge node kind i) (Grows P i)
    unfolding configure_bridge
    Grows-configure_bridge linux i = Grows-pure i
    Grows-configure_bridge bridge i =
        Hoare-given node.bridge_name (raise _) _ (λ q. Grows-raise i _)
          (λ name. Grows-replace node.namespace name _ i)

  module _ (local : Local P) where
    Grows-add_device :
        (resource : String) (link : Option String) (name : String)
        (build : ℕ → Result InterfaceInventory) (i : Interfaces)
        → Hoare P (add_device resource link name build i) (Grows P i)
    unfolding add_device
    Grows-add_device resource link name build i =
        Hoare-given _ (insert_device resource name build i) (missing resource)
          (λ q.
            Hoare-if (has_key name i) _ _ (λ there. Grows-raise i _)
              (λ free.
                Hoare-bind _ _ (Hoare-Keeps (Keeps-allocate_ifindex local resource))
                  (λ n.
                    Hoare-bind _ _ (Hoare-Keeps (Keeps-lift (build n)))
                      (λ made. Grows-insert i name made) (λ x b h. h))
                  (λ x b h. h)))
          (λ absent. Grows-missing i resource absent)

    module _ (node : NodePlan) (plan : TopologyPlan) where
      Grows-vxlan :
          (d : DevicePlan) (i : Interfaces) → Hoare P (add_vxlan node plan d i) (Grows P i)
      Grows-vxlan (vxlan d) i = Grows-add_device node.namespace (some d.link) d.name _ i
      Grows-vxlan _ i = Grows-pure i

      Grows-dummy :
          (d : DevicePlan) (i : Interfaces) → Hoare P (add_dummy node plan d i) (Grows P i)
      Grows-dummy (dummy d) i = Grows-add_device node.namespace none d.name _ i
      Grows-dummy _ i = Grows-pure i

      Grows-gre : (d : DevicePlan) (i : Interfaces) → Hoare P (add_gre node plan d i) (Grows P i)
      Grows-gre (gre d) i = Grows-add_device node.namespace (some d.link) d.name _ i
      Grows-gre _ i = Grows-pure i

      Grows-ipip : (d : DevicePlan) (i : Interfaces) → Hoare P (add_ipip node plan d i) (Grows P i)
      Grows-ipip (ipip d) i = Grows-add_device node.namespace (some d.link) d.name _ i
      Grows-ipip _ i = Grows-pure i

      Grows-geneve :
          (d : DevicePlan) (i : Interfaces) → Hoare P (add_geneve node plan d i) (Grows P i)
      Grows-geneve (geneve d) i = Grows-add_device node.namespace (some d.link) d.name _ i
      Grows-geneve _ i = Grows-pure i

      Grows-macvlan :
          (d : DevicePlan) (i : Interfaces) → Hoare P (add_macvlan node plan d i) (Grows P i)
      Grows-macvlan (macvlan d) i = Grows-add_device node.namespace (some d.link) d.name _ i
      Grows-macvlan _ i = Grows-pure i

      Grows-ipvlan :
          (d : DevicePlan) (i : Interfaces) → Hoare P (add_ipvlan node plan d i) (Grows P i)
      Grows-ipvlan (ipvlan d) i = Grows-add_device node.namespace (some d.link) d.name _ i
      Grows-ipvlan _ i = Grows-pure i

      Grows-bond : (d : DevicePlan) (i : Interfaces) → Hoare P (add_bond node plan d i) (Grows P i)
      Grows-bond (bond d) i = Grows-add_device node.namespace none d.name _ i
      Grows-bond _ i = Grows-pure i

      Grows-vrf : (d : DevicePlan) (i : Interfaces) → Hoare P (add_vrf node plan d i) (Grows P i)
      Grows-vrf (vrf d) i = Grows-add_device node.namespace none d.name _ i
      Grows-vrf _ i = Grows-pure i

      Grows-vlan : (d : DevicePlan) (i : Interfaces) → Hoare P (add_vlan node plan d i) (Grows P i)
      Grows-vlan (vlan d) i = Grows-add_device node.namespace (some d.link) d.name _ i
      Grows-vlan _ i = Grows-pure i

      Grows-members :
          (d : DevicePlan) (i : Interfaces) → Hoare P (enslave_members node d i) (Grows P i)
      Grows-members (vrf d) i = Grows-enslave node.namespace d.name d.interfaces i
      Grows-members _ i = Grows-pure i

      Grows-configure_devices :
          (ds : List DevicePlan) (i : Interfaces)
          → Hoare P (configure_devices node plan ds i) (Grows P i)
      unfolding configure_devices
      Grows-configure_devices ds i =
          Grows-bind i _ _
            (Grows-bind i _ _
              (Grows-bind i _ _
                (Grows-bind i _ _
                  (Grows-bind i _ _
                    (Grows-bind i _ _
                      (Grows-bind i _ _
                        (Grows-bind i _ _
                          (Grows-bind i _ _
                            (Grows-bind i _ _ (Grows-each (add_vxlan node plan) Grows-vxlan ds i)
                              (Grows-each (add_dummy node plan) Grows-dummy ds))
                            (Grows-each (add_gre node plan) Grows-gre ds))
                          (Grows-each (add_ipip node plan) Grows-ipip ds))
                        (Grows-each (add_geneve node plan) Grows-geneve ds))
                      (Grows-each (add_macvlan node plan) Grows-macvlan ds))
                    (Grows-each (add_ipvlan node plan) Grows-ipvlan ds))
                  (Grows-each (add_bond node plan) Grows-bond ds))
                (Grows-each (add_vrf node plan) Grows-vrf ds))
              (Grows-each (add_vlan node plan) Grows-vlan ds))
            (Grows-each (enslave_members node) Grows-members ds)

      Grows-configured : (i : Interfaces) → Hoare P (configured node plan i) (Grows P i)
      unfolding configured
      Grows-configured i =
          Grows-bind i _ _
            (Grows-bind i _ _
              (Grows-bind i _ _
                (Grows-bind i _ _ (Grows-replace node.namespace "lo" _ i)
                  (Grows-configure_bridge node node.kind))
                (Grows-configure_devices (values node.devices)))
              (Grows-configure_links node plan.links))
            (Grows-set_macs node.namespace node.mac_addresses)

-- The namespace is the one that was found.
record Ready (namespace : String) (s : FakeNamespaceState) (b : FakeNetworkBackend) : Type 0 where
  paired : IsPaired b
  found : lookup namespace b.namespaces ≡ some s

Local-Ready : (namespace : String) (s : FakeNamespaceState) → Local (Ready namespace s)
Local-Ready namespace s = record {
  counted = λ b h. record { paired = Local-IsPaired.counted b h.paired; found = h.found };
  indexed = λ b h. record { paired = Local-IsPaired.indexed b h.paired; found = h.found };
}

module _ (namespace : String) (s t : FakeNamespaceState)
    (c : Covers s.interfaces t.interfaces) where
  replaced :
      (b : FakeNetworkBackend)
      → Ready namespace s b
      → Ready namespace t (record b { namespaces = insert namespace t b.namespaces })
  replaced b h = record {
    paired =
        IsPaired-grown b _
          (λ k.
            has_end-insert k namespace t b.namespaces
              λ old q r. c k.1 (subst (λ o. holds k.1 o ≡ true) (sym q ∙ h.found) r))
          h.paired;
    found =
        lookup-insert namespace namespace t b.namespaces
        ∙ rw ((beq_iff namespace namespace).1 refl) refl;
  }

module _ (node : NodePlan) (plan : TopologyPlan) where
  -- The end of `configure_node`, with the interfaces that the steps before give.
  finished : (s : FakeNamespaceState) (out : Interfaces) → Exec FakeNetworkBackend Unit
  finished s out =
      write (λ b. record b {
        namespaces = insert node.namespace (record s { interfaces = out }) b.namespaces;
      })
      >>= λ a.
          (lift (expected_routes node) >>= λ routes. write (λ b. record b {
            namespaces =
                insert node.namespace
                  (record s {
                    interfaces = out;
                    routes = routes;
                    sysctls = node.sysctls;
                    rules = node.rules;
                    neighbors = node.neighbors;
                  })
                  b.namespaces;
          }))

  finished-IsPaired :
      (s : FakeNamespaceState) (out : Interfaces)
      → Hoare
          (λ b. Ready node.namespace s b × Covers s.interfaces out)
          (finished s out)
          (λ _. IsPaired)
  unfolding finished write
  finished-IsPaired s out =
      Hoare-bind {Q = λ _. Ready node.namespace (record s { interfaces = out })} _ _
        (record { at = λ b (h, c). replaced node.namespace s _ c b h })
        (λ a.
          Hoare-bind _ _ (Hoare-Keeps (Keeps-lift (expected_routes node)))
            (λ routes. record {
              at = λ b h.
                  Ready.paired
                    (replaced node.namespace (record s { interfaces = out }) _ (λ k q. q) b h);
            })
            (λ x b h. h.paired))
        (λ x b h. h.paired)

  pub Keeps-configure_node : Keeps IsPaired (configure_node node plan)
  unfolding configure_node finished
  Keeps-configure_node =
      Keeps-bind _ _ (Keeps-record_call Local-IsPaired "configure_node" node.namespace) λ a.
        Keeps-Hoare (
          Hoare-bind _ _ (require-Found node.namespace _ _)
            (λ s.
              Hoare-bind _ _
                (Hoare-weaken (λ b (h, q). record { paired = h; found = q })
                  (Grows-configured {P = Ready node.namespace s} (Local-Ready node.namespace s) node
                    plan s.interfaces))
                (λ out. finished-IsPaired s out) (λ x b h. h.paired))
            (λ x b h. h))
