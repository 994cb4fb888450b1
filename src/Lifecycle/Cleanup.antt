-- ===== src/Lifecycle/Cleanup.antt =====
-- lifecycle.py, `destroy`: the loop over the namespaces.
use nslab.Base.{String, ◌≡◌, inl, inr, false, Option, none, List, [], ◌∷◌, In, arith, ap}
use nslab.Base.Dict.{values}
use nslab.Error.{Error, Result, ok, err}
use nslab.Exec.{attempt, ◌>>=◌}
use nslab.Exec.Keeps.{Keeps, keeps_rules, Keeps-pure, Keeps-bind, Keeps-if, Keeps-attempt}
use nslab.Exec.Hoare.{
  Hoare, Hoare-weaken, Hoare-if, Hoare-given, OnOk, Hoare-pure, Hoare-raise, Hoare-skip, Hoare-keep,
  Hoare-seq, Hoare-bind_ok, Hoare-kept,
}
use nslab.Plan.Types.{TopologyPlan}
use nslab.Inventory.Types.{LiveInventory}
use nslab.Inventory.Whole.{namespaces_of}
use nslab.State.Snapshot.{StateSnapshot}
use nslab.Lifecycle.Services.{Services}
use nslab.Lifecycle.Reconcile.{
  absent_in, delete_final_state, handle_final_delete_failure, final_retry_failed, DeleteGate,
}
use nslab.Lifecycle.Rollback.{reversed}
use nslab.Lifecycle.Destroy.{
  Cleanup, cleanup_namespaces, namespace_cleanup, inventory_cleanup, finish_destroy, tear_down,
  destroy_existing,
}
use nslab.Lifecycle.Frame.{CallsKeep, delete_gate-Keeps, raise_delete_retry_interrupt-Keeps}
use nslab.Lifecycle.Trace.{Event, deleted, World, note, traced, OnLog, traced-CallsKeep, Keeps-note}

module _ (n : String) {E M : Type 0} (S : Services E M) where
  -- `delete_namespace` was called with the name.
  abbrev pub Attempted : List Event → Type 0
  Attempted log = In (deleted n) log

  abbrev pub T : Services (World E) M
  T = traced S

  abbrev pub At : World E → Type 0
  At = OnLog Attempted

  calls : CallsKeep T At
  calls = traced-CallsKeep S Attempted (λ e ne log h. inr h)

  delete_state-Keeps : (m : String) → Keeps At (T.delete m)
  unfolding traced
  delete_state-Keeps m = Keeps-note Attempted _ _ (λ r log h. inr h)

  delete_namespace-Keeps : (m : String) → Keeps At (T.delete_namespace m)
  unfolding traced
  delete_namespace-Keeps m = Keeps-note Attempted _ _ (λ r log h. inr h)

  cleanup_namespaces-Keeps : (ns : List String) (c : Cleanup) → Keeps At (cleanup_namespaces T ns c)
  unfolding cleanup_namespaces
  cleanup_namespaces-Keeps [] c = Keeps-pure c
  cleanup_namespaces-Keeps (m ∷ ns) c =
      Keeps-bind _ _ (Keeps-attempt _ (delete_namespace-Keeps m))
        λ r. Keeps-if _ _ _ (cleanup_namespaces-Keeps ns (namespace_cleanup m r c).0) (Keeps-pure _)

  final_retry_failed-Keeps :
      (x y : Error) (g : DeleteGate) (p : TopologyPlan) (s : StateSnapshot)
      → Keeps At (final_retry_failed T x y g p s)
  unfolding final_retry_failed
  final_retry_failed-Keeps x y g p s =
      search
        (keeps_rules, delete_gate-Keeps T At calls, raise_delete_retry_interrupt-Keeps T At calls)
        depth 9

  final_delete_failure-Keeps :
      (x : Error) (p : TopologyPlan) (s : StateSnapshot)
      → Keeps At (handle_final_delete_failure T x p s)
  unfolding handle_final_delete_failure
  final_delete_failure-Keeps x p s =
      search
        (keeps_rules, delete_gate-Keeps T At calls, delete_state-Keeps, final_retry_failed-Keeps)
        depth 9

  delete_final_state-Keeps :
      (p : TopologyPlan) (s : StateSnapshot) → Keeps At (delete_final_state T p s)
  unfolding delete_final_state
  delete_final_state-Keeps p s =
      search (keeps_rules, delete_state-Keeps, final_delete_failure-Keeps)

  -- The loop ends early only with an error to report.
  IsDone : Cleanup → World E → Type 0
  IsDone c w = c.first_error ≡ none → At w

  stops_with_error :
      (m : String) (r : Result (Unit {0})) (c : Cleanup)
      → (namespace_cleanup m r c).1 ≡ false
      → (namespace_cleanup m r c).0.first_error ≡ none
      → ⊥
  stops_with_error m (ok u) c q z = ground arith
  stops_with_error m (err x) c q z = ground arith

  attempted :
      (m : String) → n ≡ m → Hoare (λ _. Unit) (attempt (T.delete_namespace m)) (OnOk (λ _. At))
  unfolding traced note ◌>>=◌
  attempted m e = record { at = λ w h. inl (ap deleted e) }

  cleanup_namespaces-IsDone :
      (ns : List String) (c : Cleanup)
      → In n ns
      → Hoare (λ _. Unit) (cleanup_namespaces T ns c) (OnOk IsDone)
  unfolding cleanup_namespaces IsDone
  cleanup_namespaces-IsDone [] c at = elim at [ ]
  cleanup_namespaces-IsDone (m ∷ ns) c (inl e) = Hoare-seq _ _ (attempted m e) λ r.
      Hoare-kept
        (Keeps-if _ _ _ (cleanup_namespaces-Keeps ns (namespace_cleanup m r c).0) (Keeps-pure _))
        (λ c' w h z. h)
  cleanup_namespaces-IsDone (m ∷ ns) c (inr at) = Hoare-skip _ _ λ r.
      Hoare-if (namespace_cleanup m r c).1 _ _
        (λ _. cleanup_namespaces-IsDone ns (namespace_cleanup m r c).0 at)
        (λ q. Hoare-pure _ (λ w h z. elim (stops_with_error m r c q z) [ ]))

  first_error-inventory :
      (r : Result LiveInventory) (c : Cleanup)
      → (inventory_cleanup r c).1.first_error ≡ none
      → c.first_error ≡ none
  first_error-inventory (ok i) c z = z
  first_error-inventory (err x) c z = ground arith

  -- A removal that returns had no error to report.
  finish_destroy-At :
      (p : TopologyPlan) (name : String) (s : StateSnapshot) (o : Option LiveInventory)
      (c : Cleanup)
      → Hoare (IsDone c) (finish_destroy T p name s o c) (OnOk (λ _. At))
  unfolding IsDone
  finish_destroy-At p name s o c =
      Hoare-given c.first_error _ _
        (λ z.
          Hoare-weaken (λ w h. h z)
            (Hoare-if (absent_in T p o) _ _
              (λ _. Hoare-keep _ _ (delete_final_state-Keeps p s) (λ _. Hoare-pure _ (λ w h. h)))
              (λ _. Hoare-raise _)))
        (λ x. Hoare-raise _)

  inventory-IsDone : (p : TopologyPlan) (c : Cleanup) → Keeps (IsDone c) (attempt (T.inventory p))
  unfolding IsDone
  inventory-IsDone p c = record {
    at = λ w h z. (Keeps-attempt _ (calls.keep_inventory p)).at w (h z);
  }

  IsDone-inventory_cleanup :
      (r : Result LiveInventory) (c : Cleanup) (w : World E)
      → IsDone c w
      → IsDone (inventory_cleanup r c).1 w
  unfolding IsDone
  IsDone-inventory_cleanup r c w h z = h (first_error-inventory r c z)

  tear_down-At :
      (p : TopologyPlan) (name : String) (s : StateSnapshot)
      → In n (reversed (namespaces_of (values p.nodes)))
      → Hoare (λ _. Unit) (tear_down T p name s) (OnOk (λ _. At))
  unfolding tear_down
  tear_down-At p name s at = Hoare-skip _ _ λ routed.
      Hoare-seq _ _ (cleanup_namespaces-IsDone _ routed at) λ c.
        Hoare-keep _ _ (inventory-IsDone p c)
          (λ r. Hoare-weaken (IsDone-inventory_cleanup r c) (finish_destroy-At p name s _ _))

  pub destroy_existing-At :
      (p : TopologyPlan) (name : String) (s : StateSnapshot)
      → S.plan_from_snapshot s ≡ ok p
      → In n (reversed (namespaces_of (values p.nodes)))
      → Hoare (λ _. Unit) (destroy_existing T name s) (OnOk (λ _. At))
  unfolding destroy_existing traced
  destroy_existing-At p name s q at = Hoare-skip _ _ λ _.
      Hoare-skip _ _ λ _. Hoare-bind_ok _ p _ q (Hoare-skip _ _ (λ _. tear_down-At p name _ at))
