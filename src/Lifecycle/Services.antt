-- ===== src/Lifecycle/Services.antt =====
-- What `LifecycleService` is given: the network backend (the protocol of backend/base.py), the state
-- store, the lock, the clock, and the functions of planner.py, manifest.py and snapshot.py that it
-- calls. `E` is the world that all of these act on, and `M` the type of manifests.
use nslab.Plan.Address.{IpAddress}
use nslab.Base.{String, Bool, Option}
use nslab.Base.Dict.{Dict}
use nslab.Json.{Json}
use nslab.Error.{Result}
use nslab.Exec.{Exec}
use nslab.Plan.Types.{NodePlan, LinkPlan, TopologyPlan}
use nslab.Inventory.Types.{LiveInventory}
use nslab.Inventory.Match.{RedOptions}
use nslab.State.Snapshot.{StateSnapshot}

pub record NetworkBackend (E : Type 0) : Type 0 where
  pub create_namespace : NodePlan → Exec E Unit
  pub delete_namespace : String → Exec E Unit
  pub create_bridge : NodePlan → Exec E Unit
  pub create_veth : LinkPlan → Exec E Unit
  pub configure_node : NodePlan → TopologyPlan → Exec E Unit
  -- `getattr(self.backend, ..., None)`: an older backend may lack the routing methods.
  pub start_routing : Option (TopologyPlan → Exec E Unit)
  pub stop_routing : Option (TopologyPlan → Exec E Unit)
  pub routing_ready : Option (TopologyPlan → Exec E Bool)
  pub inventory : TopologyPlan → Exec E LiveInventory

pub record StateStore (E : Type 0) : Type 0 where
  pub load : String → Exec E (Option StateSnapshot)
  pub save : StateSnapshot → Exec E Unit
  pub delete : String → Exec E Unit

-- `compile_plan(manifest, name_override=...)`, `manifest_fingerprint`, `normalized_manifest`
pub record Manifests (M : Type 0) : Type 0 where
  pub compile_plan : M → String → Result TopologyPlan
  pub manifest_fingerprint : M → String
  pub normalized_manifest : M → Dict Json

pub record Services (E M : Type 0) : Type 0 where
  pub backend : NetworkBackend E
  pub open backend use *
  pub store : StateStore E
  pub open store use *
  pub manifests : Manifests M
  pub open manifests use *
  -- `__enter__` and `__exit__` of the lock; the flag says whether the body raised.
  pub acquire : String → Exec E Unit
  pub release : String → Bool → Exec E Unit
  pub timestamp : Exec E String
  -- `validate_snapshot(snapshot).plan`
  pub plan_from_snapshot : StateSnapshot → Result TopologyPlan
  pub red : RedOptions
  -- `str(address)`
  pub address_text : IpAddress → String
