-- ===== src/State/Snapshot.antt =====
-- state.py, `StateSnapshot`. A snapshot holds frozen JSON: a list and a tuple are one `arr`.
use nslab.Base.{ℕ, String, Bool, true, false, ◌&&◌, ◌==◌, nat_eq, string_eq}
use nslab.Base.Dict.{Dict, dict_beq}
use nslab.Json.{Json, json_beq}

pub data SnapshotStatus : Type 0 where
  deploying deployed destroying : SnapshotStatus

pub record StateSnapshot : Type 0 where
  pub schema : ℕ
  pub name : String
  pub fingerprint : String
  pub manifest : Dict Json
  pub namespaces : Dict String
  pub interfaces : Dict Json
  pub created_at : String
  pub status : SnapshotStatus

abbrev pub status_text : SnapshotStatus → String
status_text deploying = "deploying"
status_text deployed = "deployed"
status_text destroying = "destroying"

abbrev pub status_beq : SnapshotStatus → SnapshotStatus → Bool
status_beq deploying deploying = true
status_beq deployed deployed = true
status_beq destroying destroying = true
status_beq _ _ = false

-- The `==` of the dataclass.
unfoldable pub snapshot_beq : StateSnapshot → StateSnapshot → Bool
snapshot_beq a b =
    a.schema == b.schema
    && a.name == b.name
    && a.fingerprint == b.fingerprint
    && dict_beq json_beq a.manifest b.manifest
    && dict_beq (λ x y. x == y) a.namespaces b.namespaces
    && dict_beq json_beq a.interfaces b.interfaces
    && a.created_at == b.created_at
    && status_beq a.status b.status
