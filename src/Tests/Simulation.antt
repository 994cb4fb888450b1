-- ===== src/Tests/Simulation.antt =====
-- A small world for the examples: the namespace of the one node of a topology is there or not, and
-- the state store holds one snapshot or none.
use nslab.Base.{Bool, true, false, Option, none, some, [], ◌∷◌, if◌then◌else◌}
use nslab.Base.Int.{pos}
use nslab.Error.{exception, Result, ok, err}
use nslab.Plan.Types.{NodePlan, linux, TopologyPlan}
use nslab.Inventory.Types.{NamespaceInventory, LiveInventory, observed_interface}
use nslab.Inventory.Expected.{loopback_route, loopback_address}
use nslab.State.Snapshot.{StateSnapshot, SnapshotStatus, deployed, deploying}
use nslab.Lifecycle.Services.{Services}

pub record World : Type 0 where
  pub live : Bool
  pub stored : Option StateSnapshot

abbrev pub host : NodePlan
host = record {
  name = "h1";
  kind = linux;
  namespace = "lab-h1";
  interfaces = [];
  routes = [];
  sysctls = [];
  mac_addresses = [];
  neighbors = [];
  rules = [];
  devices = [];
  bridge_name = none;
  stp = none;
  vlan_filtering = none;
  bridge_priority = none;
  bridge_ports = [];
  routing = none;
}

abbrev pub lab : TopologyPlan
lab = record { name = "lab"; fingerprint = "f1"; nodes = ("h1", host) ∷ []; links = [] }

abbrev namespace_of : Bool → NamespaceInventory
namespace_of live = record {
  node = "h1";
  kind = linux;
  namespace = "lab-h1";
  exists = live;
  interfaces =
      if live
      then (
        "lo",
        record (observed_interface "lo" "loopback" (some 1) (pos 65536) true) {
          addresses = loopback_address ∷ [];
        },
      )
        ∷ []
      else [];
  routes = if live then loopback_route ∷ [] else [];
  sysctls = [];
  rules = [];
  neighbors = [];
}

abbrev pub observe : Bool → LiveInventory
observe live = record { namespaces = ("lab-h1", namespace_of live) ∷ []; root_interfaces = [] }

abbrev configured : Bool → Result (Unit {0})
configured true = err (exception "OSError" "no device" [])
configured false = ok tt

-- The services; with the flag, the configuration of a node fails.
abbrev pub services : Bool → Services World Unit
services broken = record {
  backend = record {
    create_namespace = λ n w. (ok tt, record w { live = true });
    delete_namespace = λ n w. (ok tt, record w { live = false });
    create_bridge = λ n w. (ok tt, w);
    create_veth = λ l w. (ok tt, w);
    configure_node = λ n p w. (configured broken, w);
    start_routing = none;
    stop_routing = none;
    routing_ready = none;
    inventory = λ p w. (ok (observe w.live), w);
  };
  store = record {
    load = λ n w. (ok w.stored, w);
    save = λ s w. (ok tt, record w { stored = some s });
    delete = λ n w. (ok tt, record w { stored = none });
  };
  manifests = record {
    compile_plan = λ m n. ok lab;
    manifest_fingerprint = λ m. "f1";
    normalized_manifest = λ m. [];
  };
  acquire = λ n w. (ok tt, w);
  release = λ n b w. (ok tt, w);
  timestamp = λ w. (ok "2026-01-01T00:00:00Z", w);
  plan_from_snapshot = λ s. ok lab;
  red = record { effective = λ o. none; is_close = λ a b. false };
  address_text = λ a. "";
}

abbrev pub empty_world : World
empty_world = record { live = false; stored = none }

abbrev pub snapshot : SnapshotStatus → StateSnapshot
snapshot status = record {
  schema = 1;
  name = "lab";
  fingerprint = "f1";
  manifest = [];
  namespaces = ("h1", "lab-h1") ∷ [];
  interfaces = [];
  created_at = "2026-01-01T00:00:00Z";
  status = status;
}

abbrev pub deployed_world : World
deployed_world = record { live = true; stored = some (snapshot deployed) }

abbrev pub interrupted_world : World
interrupted_world = record { live = true; stored = some (snapshot deploying) }
