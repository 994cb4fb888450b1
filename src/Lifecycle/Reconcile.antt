-- ===== src/Lifecycle/Reconcile.antt =====
-- lifecycle.py: what the service finds out after an operation whose outcome is uncertain, and how it
-- takes a snapshot away.
use nslab.Base.{
  String, Bool, false, not, ◌&&◌, ◌||◌, Option, none, some, [], ◌∷◌, string_eq, option_eq, contains,
  if◌then◌else◌, ◌++◌,
}
use nslab.Base.Dict.{Dict, has_key}
use nslab.Json.{Json, null, bool, str, object}
use nslab.Error.{Error, Result, ok, err, code, is_raw_interrupt, error_payload, attach}
use nslab.Exec.{Exec, pure, raise, attempt, ◌>>=◌, try_except}
use nslab.Plan.Types.{TopologyPlan}
use nslab.Inventory.Types.{LiveInventory}
use nslab.Inventory.Whole.{inventory_matches_plan, inventory_is_absent}
use nslab.State.Snapshot.{StateSnapshot, status_text, snapshot_beq}
use nslab.Lifecycle.Services.{Services}

pub record Reconciliation : Type 0 where
  pub snapshot : Option StateSnapshot
  pub inventory : Option LiveInventory
  pub diagnostics : Dict Json

pub record DeleteGate : Type 0 where
  pub reconciliation : Reconciliation
  pub conclusive : Bool
  pub live_absent : Bool
  pub expected_snapshot : Bool

abbrev pub retry_safe : DeleteGate → Bool
retry_safe g = g.conclusive && g.expected_snapshot && g.live_absent

abbrev uncertain_code : Option String → Bool
uncertain_code none = false
uncertain_code (some c) =
    contains ("STATE_COMMIT_OUTCOME_UNKNOWN" ∷ "STATE_DURABILITY_UNCERTAIN" ∷ []) c

-- `_requires_reconciliation`
unfoldable pub requires_reconciliation : Error → Bool
requires_reconciliation e = is_raw_interrupt e || uncertain_code (code e)

abbrev state_diagnostic : Option StateSnapshot → Json
state_diagnostic none = null
state_diagnostic (some s) = object (
    ("name", str s.name)
    ∷ ("fingerprint", str s.fingerprint)
    ∷ ("status", str (status_text s.status))
    ∷ [])

abbrev is_conclusive : Dict Json → Bool
is_conclusive d = not (has_key "state_error" d) && not (has_key "inventory_error" d)

module _ {E M : Type 0} (S : Services E M) where
  -- The first `try` of `_reconcile`.
  abbrev pub reconciled_state : Result (Option StateSnapshot) → Option StateSnapshot × Dict Json
  reconciled_state (ok s) = (s, ("state", state_diagnostic s) ∷ [])
  reconciled_state (err x) = (none, ("state_error", error_payload x) ∷ [])

  abbrev inventory_diagnostic : TopologyPlan → LiveInventory → Result Bool → String × Json
  inventory_diagnostic plan i (ok m) = (
    "inventory",
    object (("absent", bool (inventory_is_absent plan i)) ∷ ("matches", bool m) ∷ []),
  )
  inventory_diagnostic plan i (err x) = ("inventory_error", error_payload x)

  -- The second one: the inventory stays known where only its comparison fails.
  abbrev pub reconciled_inventory :
      TopologyPlan → Result LiveInventory → Option LiveInventory × (String × Json)
  reconciled_inventory plan (ok i) =
      (some i, inventory_diagnostic plan i (inventory_matches_plan ⦃red = S.red⦄ plan i))
  reconciled_inventory plan (err x) = (none, ("inventory_error", error_payload x))

  unfoldable pub reconcile : TopologyPlan → Exec E Reconciliation
  reconcile plan = do
    loaded ← attempt (S.load plan.name)
    observed ← attempt (S.inventory plan)
    let (snapshot, first) = reconciled_state loaded
    let (inventory, second) = reconciled_inventory plan observed
    pure (record {
      snapshot = snapshot;
      inventory = inventory;
      diagnostics = first ++ (second ∷ []);
    })

  abbrev pub absent_in : TopologyPlan → Option LiveInventory → Bool
  absent_in plan none = false
  absent_in plan (some i) = inventory_is_absent plan i

  abbrev pub gate_of : TopologyPlan → StateSnapshot → Reconciliation → DeleteGate
  gate_of plan expected r = record {
    reconciliation = r;
    conclusive = is_conclusive r.diagnostics;
    live_absent = absent_in plan r.inventory;
    expected_snapshot = elim r.snapshot [ none ↦ false | some s ↦ snapshot_beq s expected ];
  }

  -- `_delete_gate`
  unfoldable pub delete_gate : TopologyPlan → StateSnapshot → Exec E DeleteGate
  delete_gate plan expected = do r ← reconcile plan; pure (gate_of plan expected r)

  -- `_raise_delete_retry_interrupt`
  unfoldable pub raise_delete_retry_interrupt :
      {A : Type 0} → Error → Error → Error → DeleteGate → TopologyPlan → StateSnapshot → Exec E A
  raise_delete_retry_interrupt interrupt operation state_error gate plan expected = do
    retry_gate ← delete_gate plan expected
    raise (
        attach
          (attach
            (attach
              (attach interrupt "reconciliation" (object retry_gate.reconciliation.diagnostics))
              "previous_operation_error" (error_payload operation))
            "previous_state_delete_error" (error_payload state_error))
          "previous_state_delete_reconciliation" (object gate.reconciliation.diagnostics))

  -- What follows a retry of the final delete that failed with `retry_error`.
  unfoldable pub final_retry_failed :
      Error → Error → DeleteGate → TopologyPlan → StateSnapshot → Exec E Unit
  final_retry_failed error retry_error gate plan destroying =
      let failed = attach error "state_delete_retry" (error_payload retry_error) in
      let reconciled = (do
        retry_gate ← delete_gate plan destroying
        raise (
            attach failed "state_delete_retry_reconciliation"
              (object retry_gate.reconciliation.diagnostics))) in
      let interrupted = raise_delete_retry_interrupt retry_error error error gate plan destroying in
      if is_raw_interrupt retry_error
      then interrupted
      else if requires_reconciliation retry_error
      then reconciled
      else raise failed

  -- The retry of the final delete.
  abbrev pub final_retry : Error → DeleteGate → TopologyPlan → StateSnapshot → Exec E Unit
  final_retry error gate plan destroying =
      try_except (S.delete plan.name) (λ _. pure tt)
        λ retry_error. final_retry_failed error retry_error gate plan destroying

  -- `_handle_final_delete_failure`
  unfoldable pub handle_final_delete_failure : Error → TopologyPlan → StateSnapshot → Exec E Unit
  handle_final_delete_failure error plan destroying =
      let recover = (do
        gate ← delete_gate plan destroying
        let annotated = attach error "reconciliation" (object gate.reconciliation.diagnostics)
        let retry = final_retry annotated gate plan destroying
        if not (is_raw_interrupt error) && retry_safe gate then retry else raise annotated) in
      if requires_reconciliation error then recover else raise error

  -- `_delete_final_state`
  unfoldable pub delete_final_state : TopologyPlan → StateSnapshot → Exec E Unit
  delete_final_state plan destroying =
      try_except (S.delete plan.name) (λ _. pure tt)
        λ error. handle_final_delete_failure error plan destroying
