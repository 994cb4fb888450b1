-- ===== src/Fake/Calls.antt =====
-- backend/fake.py: sequences of calls of the backend in memory, each of which may raise.
use nslab.Base.{ℕ, String, Bool, true, Option, List, [], ◌∷◌}
use nslab.Exec.Keeps.{Keeps, Keeps-pure, Keeps-bind, Keeps-if}
use nslab.Plan.Types.{NodePlan, LinkPlan, TopologyPlan}
use nslab.Inventory.Types.{ExecResult}
use nslab.Fake.{
  create_namespace, delete_namespace, create_bridge, create_veth, start_routing, stop_routing,
  routing_ready, inventory, execute,
}
use nslab.Fake.Configure.{configure_node}
use nslab.Fake.State.{FakeNetworkBackend, new_backend}
use nslab.Fake.Paired.{IsPaired}
use nslab.Fake.Kept.{
  Local-IsPaired, Keeps-write, Keeps-read, Keeps-record_call, Keeps-require_namespace,
  Keeps-create_namespace, Keeps-create_bridge,
}
use nslab.Fake.Veths.{Keeps-create_veth}
use nslab.Fake.Configured.{Keeps-configure_node}
use nslab.Fake.Removal.{delete_namespace-Gone}

pub data BackendCall : Type 0 where
  create_namespace_call : NodePlan → BackendCall
  configure_node_call : NodePlan → TopologyPlan → BackendCall
  delete_namespace_call : String → BackendCall
  create_bridge_call : NodePlan → BackendCall
  create_veth_call : LinkPlan → BackendCall
  start_routing_call : TopologyPlan → BackendCall
  stop_routing_call : TopologyPlan → BackendCall
  routing_ready_call : TopologyPlan → BackendCall
  inventory_call : TopologyPlan → BackendCall
  execute_call : String → List String → Bool → BackendCall

-- The state after a call, also where it raises.
abbrev pub after_call : BackendCall → FakeNetworkBackend → FakeNetworkBackend
after_call (create_namespace_call node) b = (create_namespace node b).1
after_call (configure_node_call node plan) b = (configure_node node plan b).1
after_call (delete_namespace_call namespace) b = (delete_namespace namespace b).1
after_call (create_bridge_call node) b = (create_bridge node b).1
after_call (create_veth_call l) b = (create_veth l b).1
after_call (start_routing_call plan) b = (start_routing plan b).1
after_call (stop_routing_call plan) b = (stop_routing plan b).1
after_call (routing_ready_call plan) b = (routing_ready plan b).1
after_call (inventory_call plan) b = (inventory plan b).1
after_call (execute_call namespace argv capture_output) b =
    (execute namespace argv capture_output b).1

abbrev pub after_calls : List BackendCall → FakeNetworkBackend → FakeNetworkBackend
after_calls [] b = b
after_calls (c ∷ cs) b = after_calls cs (after_call c b)

module _ (plan : TopologyPlan) where
  pub Keeps-start_routing : Keeps IsPaired (start_routing plan)
  unfolding start_routing
  Keeps-start_routing =
      Keeps-if _ _ _
        (Keeps-bind _ _ (Keeps-record_call Local-IsPaired _ _)
          λ a. Keeps-write _ λ b h. record { symmetric = h.symmetric; there = h.there })
        (Keeps-pure tt)

  pub Keeps-stop_routing : Keeps IsPaired (stop_routing plan)
  unfolding stop_routing
  Keeps-stop_routing =
      Keeps-if _ _ _
        (Keeps-bind _ _ (Keeps-record_call Local-IsPaired _ _)
          λ a. Keeps-write _ λ b h. record { symmetric = h.symmetric; there = h.there })
        (Keeps-pure tt)

  pub Keeps-routing_ready : Keeps IsPaired (routing_ready plan)
  unfolding routing_ready
  Keeps-routing_ready = Keeps-if _ _ _ (Keeps-read _) (Keeps-pure true)

  pub Keeps-inventory : Keeps IsPaired (inventory plan)
  unfolding inventory
  Keeps-inventory = Keeps-bind _ _ (Keeps-record_call Local-IsPaired _ _) λ a. Keeps-read _

Keeps-execute :
    (namespace : String) (argv : List String) (capture_output : Bool)
    → Keeps IsPaired (execute namespace argv capture_output)
unfolding execute
Keeps-execute namespace argv capture_output =
    Keeps-bind _ _ (Keeps-record_call Local-IsPaired _ _) λ a.
      Keeps-bind _ _ (Keeps-require_namespace Local-IsPaired _ _ _) λ s.
        Keeps-bind _ _ (Keeps-write _ λ b h. record { symmetric = h.symmetric; there = h.there })
          λ a'. Keeps-read _

after_call-IsPaired :
    (c : BackendCall) (b : FakeNetworkBackend) → IsPaired b → IsPaired (after_call c b)
after_call-IsPaired (create_namespace_call node) b h = (Keeps-create_namespace node).at b h
after_call-IsPaired (configure_node_call node plan) b h = (Keeps-configure_node node plan).at b h
after_call-IsPaired (delete_namespace_call namespace) b h = (delete_namespace-Gone namespace b h).0
after_call-IsPaired (create_bridge_call node) b h = (Keeps-create_bridge node).at b h
after_call-IsPaired (create_veth_call l) b h = (Keeps-create_veth l).at b h
after_call-IsPaired (start_routing_call plan) b h = (Keeps-start_routing plan).at b h
after_call-IsPaired (stop_routing_call plan) b h = (Keeps-stop_routing plan).at b h
after_call-IsPaired (routing_ready_call plan) b h = (Keeps-routing_ready plan).at b h
after_call-IsPaired (inventory_call plan) b h = (Keeps-inventory plan).at b h
after_call-IsPaired (execute_call namespace argv capture_output) b h =
    (Keeps-execute namespace argv capture_output).at b h

calls-IsPaired :
    (calls : List BackendCall) (b : FakeNetworkBackend)
    → IsPaired b
    → IsPaired (after_calls calls b)
calls-IsPaired [] b h = h
calls-IsPaired (c ∷ cs) b h = calls-IsPaired cs (after_call c b) (after_call-IsPaired c b h)

-- After any sequence of calls of a new backend, each of which may return or raise, also the one that is
-- made to fail, the peer of an end's peer is the end itself, and each end that has a peer is an interface of
-- a namespace that is there.
pub after_calls-IsPaired :
    (fail_on_call : Option ℕ) (execute_result : Option ExecResult) (calls : List BackendCall)
    → IsPaired (after_calls calls (new_backend fail_on_call execute_result))
after_calls-IsPaired fail_on_call execute_result calls =
    calls-IsPaired calls _
      (record { symmetric = λ k j q. absurd (cc q); there = λ k j q. absurd (cc q) })
