-- ===== src/Lifecycle/Frame.antt =====
-- What the parts of the service keep, given what the calls of its backend and its store keep.
use nslab.Inventory.Types.{LiveInventory}
use nslab.Base.{String, List, [], ◌∷◌}
use nslab.Error.{Error}
use nslab.Exec.Keeps.{Keeps, keeps_rules, Keeps-pure, Keeps-bind}
use nslab.Plan.Types.{NodePlan, NodeKind, linux, bridge, LinkPlan, TopologyPlan}
use nslab.State.Snapshot.{StateSnapshot}
use nslab.Lifecycle.Services.{Services}
use nslab.Lifecycle.Reconcile.{DeleteGate, reconcile, delete_gate, raise_delete_retry_interrupt}
use nslab.Lifecycle.Reads.{ReadsKeep, reconciled-Keeps, gate-Keeps, interrupt-Keeps}
use nslab.Lifecycle.Rollback.{chosen, start_routing, stop_routing, routing_ready}
use nslab.Lifecycle.Deploy.{
  save_initial_transition, is_in_place, deploy_existing, create_bridge_of, create_bridges,
  create_veths, configure_nodes, verify, build_up, validate_plan_manifest,
}

-- Every call but the two deletions and the creation of a namespace keeps `P`.
pub record CallsKeep {E M : Type 0} (S : Services E M) (P : E → Type 0) : Type 0 where
  pub keep_bridge : (n : NodePlan) → Keeps P (S.create_bridge n)
  pub keep_veth : (l : LinkPlan) → Keeps P (S.create_veth l)
  pub keep_configure : (n : NodePlan) (p : TopologyPlan) → Keeps P (S.configure_node n p)
  pub keep_start : (p : TopologyPlan) → Keeps P (chosen S S.start_routing p)
  pub keep_stop : (p : TopologyPlan) → Keeps P (chosen S S.stop_routing p)
  pub keep_ready : (p : TopologyPlan) → Keeps P (chosen S S.routing_ready p)
  pub keep_inventory : (p : TopologyPlan) → Keeps P (S.inventory p)
  pub keep_load : (n : String) → Keeps P (S.load n)
  pub keep_save : (s : StateSnapshot) → Keeps P (S.save s)
  pub keep_timestamp : Keeps P S.timestamp

module _ {E M : Type 0} (S : Services E M) (P : E → Type 0) (calls : CallsKeep S P) where
  reads : ReadsKeep S P
  reads = record { keep_load = calls.keep_load; keep_inventory = calls.keep_inventory }

  pub reconcile-Keeps : (p : TopologyPlan) → Keeps P (reconcile S p)
  reconcile-Keeps = reconciled-Keeps S P reads

  pub delete_gate-Keeps : (p : TopologyPlan) (s : StateSnapshot) → Keeps P (delete_gate S p s)
  delete_gate-Keeps = gate-Keeps S P reads

  pub raise_delete_retry_interrupt-Keeps :
      {A : Type 0} (a b c : Error) (g : DeleteGate) (p : TopologyPlan) (s : StateSnapshot)
      → Keeps P (raise_delete_retry_interrupt S {A = A} a b c g p s)
  raise_delete_retry_interrupt-Keeps = interrupt-Keeps S P reads

  pub start_routing-Keeps : (p : TopologyPlan) → Keeps P (start_routing S p)
  unfolding start_routing
  start_routing-Keeps p = search (keeps_rules, calls.keep_start)

  pub stop_routing-Keeps : (p : TopologyPlan) → Keeps P (stop_routing S p)
  unfolding stop_routing
  stop_routing-Keeps p = search (keeps_rules, calls.keep_stop)

  pub routing_ready-Keeps : (p : TopologyPlan) → Keeps P (routing_ready S p)
  unfolding routing_ready
  routing_ready-Keeps p = search (keeps_rules, calls.keep_ready)

  pub save_initial_transition-Keeps :
      (s : StateSnapshot) (p : TopologyPlan) → Keeps P (save_initial_transition S s p)
  unfolding save_initial_transition
  save_initial_transition-Keeps s p = search (keeps_rules, calls.keep_save, reconcile-Keeps)

  pub is_in_place-Keeps :
      (p : TopologyPlan) (s : StateSnapshot) (i : LiveInventory) → Keeps P (is_in_place S p s i)
  unfolding is_in_place
  is_in_place-Keeps p s i = search (keeps_rules, routing_ready-Keeps)

  pub deploy_existing-Keeps :
      (p : TopologyPlan) (s : StateSnapshot) → Keeps P (deploy_existing S p s)
  unfolding deploy_existing
  deploy_existing-Keeps p s = search (keeps_rules, calls.keep_inventory, is_in_place-Keeps) depth 9

  create_bridge_of-Keeps : (n : NodePlan) (k : NodeKind) → Keeps P (create_bridge_of S n k)
  create_bridge_of-Keeps n linux = Keeps-pure tt
  create_bridge_of-Keeps n bridge = calls.keep_bridge n

  create_bridges-Keeps : (ns : List NodePlan) → Keeps P (create_bridges S ns)
  unfolding create_bridges
  create_bridges-Keeps [] = Keeps-pure tt
  create_bridges-Keeps (n ∷ ns) =
      Keeps-bind _ _ (create_bridge_of-Keeps n n.kind) (λ _. create_bridges-Keeps ns)

  create_veths-Keeps : (ls : List LinkPlan) → Keeps P (create_veths S ls)
  unfolding create_veths
  create_veths-Keeps [] = Keeps-pure tt
  create_veths-Keeps (l ∷ ls) = Keeps-bind _ _ (calls.keep_veth l) (λ _. create_veths-Keeps ls)

  configure_nodes-Keeps : (p : TopologyPlan) (ns : List NodePlan) → Keeps P (configure_nodes S p ns)
  unfolding configure_nodes
  configure_nodes-Keeps p [] = Keeps-pure tt
  configure_nodes-Keeps p (n ∷ ns) =
      Keeps-bind _ _ (calls.keep_configure n p) (λ _. configure_nodes-Keeps p ns)

  verify-Keeps : (p : TopologyPlan) → Keeps P (verify S p)
  unfolding verify
  verify-Keeps p = search (keeps_rules, calls.keep_inventory, routing_ready-Keeps)

  pub build_up-Keeps : (p : TopologyPlan) → Keeps P (build_up S p)
  unfolding build_up
  build_up-Keeps p =
      search
        (
          keeps_rules, create_bridges-Keeps, create_veths-Keeps, configure_nodes-Keeps,
          start_routing-Keeps, verify-Keeps,
        )
        depth 9

  pub validate_plan_manifest-Keeps :
      (p : TopologyPlan) (m : M) → Keeps P (validate_plan_manifest S p m)
  unfolding validate_plan_manifest
  validate_plan_manifest-Keeps p m = search keeps_rules
