-- ===== src/Lifecycle/Guards.antt =====
-- lifecycle.py: the results and errors of the service, and the guards on a snapshot.
use nslab.Base.{String, Bool, [], ◌∷◌, ◌<>◌, ◌==◌, string_eq, if◌then◌else◌}
use nslab.Json.{str}
use nslab.Error.{Error, nslab_error, Result, ok, err}
use nslab.Plan.Types.{TopologyPlan}
use nslab.State.Snapshot.{
  StateSnapshot, SnapshotStatus, deploying, deployed, destroying, status_text,
}

pub record LifecycleResult : Type 0 where
  pub action : String
  pub name : String
  pub changed : Bool
  pub status : String
  pub message : String

abbrev pub outcome : String → String → Bool → String → String → LifecycleResult
outcome action name changed status message = record {
  action = action;
  name = name;
  changed = changed;
  status = status;
  message = message;
}

abbrev named : String → String → String → Error
named code message name = nslab_error code (message <> name) (("name", str name) ∷ [])

-- `_ownership_unknown`
abbrev pub ownership_unknown : String → Error
ownership_unknown = named "OWNERSHIP_UNKNOWN" "cannot prove ownership of live resources: "

abbrev with_fingerprint : String → String → TopologyPlan → Error
with_fingerprint code message plan =
    nslab_error code (message <> plan.name)
      (("name", str plan.name) ∷ ("fingerprint", str plan.fingerprint) ∷ [])

abbrev pub deployment_conflict : TopologyPlan → StateSnapshot → Error
deployment_conflict plan current =
    nslab_error "DEPLOYMENT_CONFLICT"
      ("deployment already exists with different topology: " <> plan.name)
      (("name", str plan.name)
        ∷ ("expected_fingerprint", str plan.fingerprint)
        ∷ ("actual_fingerprint", str current.fingerprint)
        ∷ [])

abbrev pub deployment_drift : TopologyPlan → Error
deployment_drift =
    with_fingerprint "DEPLOYMENT_DRIFT" "deployed topology does not match live resources: "

abbrev pub verification_failed : TopologyPlan → Error
verification_failed =
    with_fingerprint "DEPLOYMENT_VERIFICATION_FAILED" "deployed topology failed live verification: "

abbrev pub destroy_incomplete : String → Error
destroy_incomplete = named "DESTROY_INCOMPLETE" "topology resources remain after destroy: "

abbrev pub interrupted_state : StateSnapshot → Error
interrupted_state s =
    nslab_error "DEPLOYMENT_INTERRUPTED"
      ("deployment has interrupted " <> status_text s.status <> " state: " <> s.name)
      (("name", str s.name) ∷ ("status", str (status_text s.status)) ∷ [])

abbrev pub foreign_state : StateSnapshot → String → Error
foreign_state s requested =
    nslab_error "STATE_INVALID"
      ("deployment state identity does not match its requested path: " <> requested)
      (("requested_name", str requested) ∷ ("snapshot_name", str s.name) ∷ [])

abbrev pub plan_name_mismatch : String → TopologyPlan → Error
plan_name_mismatch name plan =
    nslab_error "PLAN_NAME_MISMATCH"
      ("destroy plan name does not match requested deployment: " <> name)
      (("name", str name) ∷ ("plan_name", str plan.name) ∷ [])

-- `_require_snapshot_identity`
abbrev pub require_snapshot_identity : StateSnapshot → String → Result (Unit {0})
require_snapshot_identity s requested =
    if s.name == requested then ok tt else err (foreign_state s requested)

abbrev pub require_status : StateSnapshot → SnapshotStatus → Result (Unit {0})
require_status s deployed = ok tt
require_status s deploying = err (interrupted_state s)
require_status s destroying = err (interrupted_state s)

-- `_require_stable_snapshot`
abbrev pub require_stable_snapshot : StateSnapshot → Result (Unit {0})
require_stable_snapshot s = require_status s s.status
