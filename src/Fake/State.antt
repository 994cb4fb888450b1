-- ===== src/Fake/State.antt =====
-- backend/fake.py: the state of the backend in memory and the helpers of its operations.
use nslab.Base.{
  ℕ, suc, String, Bool, ◌&&◌, Option, none, some, List, [], ◌∷◌, ◌++◌, ◌==◌, nat_eq, string_eq,
  option_eq, if◌then◌else◌, ◌<>◌,
}
use nslab.Base.Dict.{Dict, lookup, insert}
use nslab.Base.Int.{pos}
use nslab.Json.{str, int}
use nslab.Error.{Error, nslab_error, exception, ok}
use nslab.Exec.{Exec, pure, raise, given, ◌>>=◌, ◌>>◌}
use nslab.Plan.Types.{NodeKind, RoutePlan, PolicyRulePlan, NeighborPlan}
use nslab.Inventory.Types.{InterfaceInventory, ExecResult}

pub record FakeNamespaceState : Type 0 where
  pub node : String
  pub kind : NodeKind
  pub namespace : String
  pub interfaces : Dict InterfaceInventory
  pub routes : List RoutePlan
  pub sysctls : Dict ℕ
  pub rules : List PolicyRulePlan
  pub neighbors : List NeighborPlan

-- A namespace and an interface.
abbrev pub EndpointKey : Type 0
EndpointKey = String × String

pub record FakeNetworkBackend : Type 0 where
  pub fail_on_call : Option ℕ
  pub execute_result : Option ExecResult
  pub calls : List (String × String)
  pub execute_requests : List (String × List String × Bool)
  pub namespaces : Dict FakeNamespaceState
  pub root_interfaces : Dict InterfaceInventory
  pub call_count : ℕ
  pub next_link_id : ℕ
  pub next_ifindex : Dict ℕ
  pub veth_peers : List (EndpointKey × EndpointKey)
  pub routing_deployments : List String

abbrev pub new_backend : Option ℕ → Option ExecResult → FakeNetworkBackend
new_backend fail_on_call execute_result = record {
  fail_on_call = fail_on_call;
  execute_result = execute_result;
  calls = [];
  execute_requests = [];
  namespaces = [];
  root_interfaces = [];
  call_count = 0;
  next_link_id = 1;
  next_ifindex = [];
  veth_peers = [];
  routing_deployments = [];
}

abbrev pub key_beq : EndpointKey → EndpointKey → Bool
key_beq a b = a.0 == b.0 && a.1 == b.1

abbrev pub peer_of : EndpointKey → List (EndpointKey × EndpointKey) → Option EndpointKey
peer_of k [] = none
peer_of k ((j, v) ∷ d) = let rest = peer_of k d in if key_beq k j then some v else rest

abbrev pub set_peer :
    EndpointKey → EndpointKey → List (EndpointKey × EndpointKey) → List (EndpointKey × EndpointKey)
set_peer k v [] = (k, v) ∷ []
set_peer k v ((j, w) ∷ d) =
    let rest = set_peer k v d in if key_beq k j then (j, v) ∷ d else (j, w) ∷ rest

-- `pop(k, None)`
abbrev pub drop_peer :
    EndpointKey → List (EndpointKey × EndpointKey) → List (EndpointKey × EndpointKey)
drop_peer k [] = []
drop_peer k ((j, w) ∷ d) = let rest = drop_peer k d in if key_beq k j then rest else (j, w) ∷ rest

unfoldable pub read : {A : Type 0} → (FakeNetworkBackend → A) → Exec FakeNetworkBackend A
read f b = (ok (f b), b)

unfoldable pub write : (FakeNetworkBackend → FakeNetworkBackend) → Exec FakeNetworkBackend Unit
write f b = (ok tt, f b)

abbrev pub resource_error : String → String → String → Error
resource_error code operation resource =
    nslab_error code
      ((if code == "RESOURCE_EXISTS"
          then "network resource already exists: "
          else "network resource is missing: ")
        <> resource)
      (("operation", str operation) ∷ ("resource", str resource) ∷ [])

abbrev backend_failure : ℕ → String → String → Error
backend_failure count operation resource =
    nslab_error "BACKEND_FAILURE"
      ("injected backend failure during " <> operation <> ": " <> resource)
      (("call", int (pos count)) ∷ ("operation", str operation) ∷ ("resource", str resource) ∷ [])

-- `_record`
unfoldable pub record_call : String → String → Exec FakeNetworkBackend Unit
record_call operation resource = do
  write (λ b. record b {
    call_count = suc b.call_count;
    calls = b.calls ++ (operation, resource) ∷ [];
  })
  count ← read (λ b. b.call_count)
  failing ← read (λ b. b.fail_on_call)
  if some count == failing then raise (backend_failure count operation resource) else pure tt

abbrev or_one : Option ℕ → ℕ
or_one none = 1
or_one (some n) = n

unfoldable pub allocate_ifindex : String → Exec FakeNetworkBackend ℕ
allocate_ifindex namespace = do
  ifindex ← read (λ b. or_one (lookup namespace b.next_ifindex))
  write (λ b. record b { next_ifindex = insert namespace (suc ifindex) b.next_ifindex })
  pure ifindex

unfoldable pub require_namespace :
    String → String → String → Exec FakeNetworkBackend FakeNamespaceState
require_namespace namespace operation resource = do
  state ← read (λ b. lookup namespace b.namespaces)
  given state (raise (resource_error "RESOURCE_MISSING" operation resource)) pure

-- `self.namespaces[namespace]`
unfoldable pub insert_interface : String → InterfaceInventory → Exec FakeNetworkBackend Unit
insert_interface namespace interface = do
  state ← read (λ b. lookup namespace b.namespaces)
  given state (raise (exception "KeyError" namespace [])) λ s. write λ b. record b {
    namespaces =
        insert namespace (record s { interfaces = insert interface.name interface s.interfaces })
          b.namespaces;
  }
