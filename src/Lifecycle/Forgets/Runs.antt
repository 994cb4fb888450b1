-- ===== src/Lifecycle/Forgets/Runs.antt =====
-- lifecycle.py: whole deployments and removals take the snapshot away only at such a time.
use nslab.Base.{String, ◌≡◌, Bool, true, not, ◌&&◌, ◌||◌, List, [], ◌∷◌, ◌++◌, arith}
use nslab.Base.Dict.{values}
use nslab.Json.{Json}
use nslab.Error.{Error, Result, ok, err}
use nslab.Exec.{attempt, ◌>>=◌}
use nslab.Exec.Keeps.{
  Keeps, keeps_rules, Keeps-pure, Keeps-raise, Keeps-bind, Keeps-if, Keeps-attempt, Keeps-lift,
  Keeps-bind_ok,
}
use nslab.Exec.Hoare.{
  Hoare, Hoare-Keeps, Keeps-Hoare, Hoare-weaken, Hoare-if, Hoare-bind, Hoare-given,
}
use nslab.Plan.Types.{NodePlan, TopologyPlan}
use nslab.Inventory.Types.{LiveInventory}
use nslab.Inventory.Whole.{inventory_is_absent, namespaces_of}
use nslab.State.Snapshot.{StateSnapshot}
use nslab.Lifecycle.Services.{Services}
use nslab.Lifecycle.Reconcile.{absent_in}
use nslab.Lifecycle.Rollback.{
  rollback_inventory, rollback_routing, rollback_step, rollback_namespaces, rollback_and_attach,
  is_none, handle_final_deploy_save_failure, reversed,
}
use nslab.Lifecycle.Deploy.{
  create_namespaces, then_build, build, commit_deployment, conclude, build_and_conclude, deploy_new,
  deploy_validated, deploy_locked, created_then, Building,
}
use nslab.Lifecycle.Destroy.{
  Cleanup, cleanup_routing, cleanup_namespaces, namespace_cleanup, inventory_cleanup,
  finish_destroy, tear_down, destroy_existing,
}
use nslab.Lifecycle.Frame.{
  CallsKeep, reconcile-Keeps, stop_routing-Keeps, save_initial_transition-Keeps,
  deploy_existing-Keeps, build_up-Keeps, validate_plan_manifest-Keeps,
}
use nslab.Lifecycle.Trace.{Event, World, note, traced, Keeps-note, creation, observation}
use nslab.Lifecycle.Forgets.{
  LastAbsent, ForgetsAbsent, T, F, G, calls, remove_rollback_state-Hoare, delete_final_state-Hoare,
}

module _ (plan : TopologyPlan) {E M : Type 0} (S : Services E M) where
  abbrev pub R : Services (World E) M
  R = T plan S

  abbrev pub Ok : World E → Type 0
  Ok = F plan S

  pub held : CallsKeep R Ok
  held = calls plan S

  -- What an inventory that was just read says.
  pub InventorySays : Result (Result LiveInventory) → World E → Type 0
  InventorySays (ok (ok i)) w = Ok w × (inventory_is_absent plan i ≡ true → LastAbsent plan w.1)
  InventorySays (ok (err x)) w = Ok w
  InventorySays (err x) w = Ok w

  read_step :
      (r : Result LiveInventory) (e : E) (log : List Event)
      → ForgetsAbsent plan log
      → InventorySays (ok r) (e, observation r ∷ log)
  unfolding InventorySays F
  read_step (ok i) e log h = (h, λ a. a)
  read_step (err x) e log h = h

  pub read_says : Hoare Ok (attempt (R.inventory plan)) InventorySays
  unfolding T F traced note ◌>>=◌
  read_says = record { at = λ (e, log) h. read_step (S.inventory plan e).0 _ log h }

  pub read_failed : (x : Error) (w : World E) → InventorySays (err x) w → Ok w
  unfolding InventorySays
  read_failed x w h = h

  -- An inventory is there, and shows that nothing is left.
  pub read_absent :
      (r : Result LiveInventory) (a : Error) (b : Bool) (w : World E)
      → (not (b || is_none R (rollback_inventory R a r).0)
          && absent_in R plan (rollback_inventory R a r).0)
        ≡ true
      → InventorySays (ok r) w
      → G plan S w
  unfolding InventorySays F G
  read_absent (ok i) a b w q h = (h.0, h.1 (ground arith))
  read_absent (err x) a b w q h = ground arith

  read_ok : (r : Result LiveInventory) (w : World E) → InventorySays (ok r) w → Ok w
  unfolding InventorySays
  read_ok (ok i) w h = h.0
  read_ok (err x) w h = h

  delete_namespace-Keeps : (n : String) → Keeps Ok (R.delete_namespace n)
  unfolding T F traced
  delete_namespace-Keeps n = Keeps-note (ForgetsAbsent plan) _ _ (λ r log h. h)

  create_step :
      (n : String) (r : Result (Unit {0})) (log : List Event)
      → ForgetsAbsent plan log
      → ForgetsAbsent plan (creation n r ∷ log)
  create_step n (ok u) log h = h
  create_step n (err x) log h = h

  pub rollback_namespaces-Keeps :
      (ns : List String) (acc : List Json × Bool) → Keeps Ok (rollback_namespaces R ns acc)
  unfolding rollback_namespaces
  rollback_namespaces-Keeps [] acc = Keeps-pure acc
  rollback_namespaces-Keeps (n ∷ ns) acc =
      Keeps-bind _ _ (Keeps-attempt _ (delete_namespace-Keeps n))
        (λ outcome. rollback_namespaces-Keeps ns (rollback_step R n acc outcome))

  pub rollback_routing-Keeps : Keeps Ok (rollback_routing R plan)
  rollback_routing-Keeps = search (keeps_rules, stop_routing-Keeps R Ok held)

  rollback_and_attach-Keeps :
      (a : Error) (cs : List String) (s : StateSnapshot)
      → Keeps Ok (rollback_and_attach R a plan cs s)
  unfolding rollback_and_attach
  rollback_and_attach-Keeps a cs s = Keeps-bind _ _ rollback_routing-Keeps λ routing.
      Keeps-bind _ _ (rollback_namespaces-Keeps (reversed cs) routing) λ acc. Keeps-Hoare (
        Hoare-bind _ _ read_says
          (λ r.
            Hoare-if
              (not (acc.1 || is_none R (rollback_inventory R a r).0)
                && absent_in R plan (rollback_inventory R a r).0)
              _ _
              (λ q.
                Hoare-weaken (λ w h. read_absent r a acc.1 w q h)
                  (Hoare-bind _ _ (remove_rollback_state-Hoare plan S _ s)
                    (λ removed. Hoare-Keeps (Keeps-pure _)) (λ x w h. h)))
              (λ _. Hoare-weaken (read_ok r) (Hoare-Keeps (Keeps-pure _))))
          read_failed)

  save_failure-Keeps :
      (a : Error) (cs : List String) (s : StateSnapshot)
      → Keeps Ok (handle_final_deploy_save_failure R a plan cs s)
  unfolding handle_final_deploy_save_failure
  save_failure-Keeps a cs s =
      search (keeps_rules, rollback_and_attach-Keeps, reconcile-Keeps R Ok held) depth 9

  conclude-Keeps :
      (m : M) (t : String) (s : StateSnapshot) (r : Result LiveInventory) (cs : List String)
      → Keeps Ok (conclude R plan m t s r cs)
  unfolding conclude commit_deployment
  conclude-Keeps m t s (err x) cs = search (keeps_rules, rollback_and_attach-Keeps)
  conclude-Keeps m t s (ok i) cs = search (keeps_rules, save_failure-Keeps, held.keep_save) depth 9

  created_then-Keeps :
      (n : NodePlan) (rest : List String → Building (World E) Unit)
      → ((cs : List String) (w : World E) → Ok w → Ok (rest cs w).1)
      → (cs : List String) (r : Result (Unit {0})) (e : E) (log : List Event)
      → ForgetsAbsent plan log
      → Ok (created_then R n rest cs (r, (e, creation n.namespace r ∷ log))).1
  unfolding F
  created_then-Keeps n rest ih cs (ok u) e log h = ih (cs ++ (n.namespace ∷ [])) (e, _) h
  created_then-Keeps n rest ih cs (err x) e log h = h

  create_namespaces-Keeps :
      (ns : List NodePlan) (cs : List String) (w : World E)
      → Ok w
      → Ok (create_namespaces R ns cs w).1
  unfolding create_namespaces T traced note F
  create_namespaces-Keeps [] cs w h = h
  create_namespaces-Keeps (n ∷ ns) cs (e, log) h =
      created_then-Keeps n (create_namespaces R ns) (create_namespaces-Keeps ns) cs
        (S.create_namespace n e).0 (S.create_namespace n e).1 log h

  then_build-Keeps :
      (x : (Result (Unit {0}) × List String) × World E) → Ok x.1 → Ok (then_build R plan x).1
  then_build-Keeps ((err x, cs), w) h = h
  then_build-Keeps ((ok u, cs), w) h = (build_up-Keeps R Ok held plan).at w h

  build_and_conclude-Keeps :
      (m : M) (t : String) (s : StateSnapshot) → Keeps Ok (build_and_conclude R plan m t s)
  unfolding build_and_conclude build
  build_and_conclude-Keeps m t s = record {
    at = λ w h.
        let ((r, cs), w') = build R plan w in
        (conclude-Keeps m t s r cs).at w'
          (then_build-Keeps _ (create_namespaces-Keeps (values plan.nodes) [] w h));
  }

  deploy_new-Keeps : (m : M) → Keeps Ok (deploy_new R plan m)
  unfolding deploy_new
  deploy_new-Keeps m = Keeps-bind _ _ (held.keep_inventory plan) λ i.
      Keeps-if _ _ _
        (Keeps-bind _ _ held.keep_timestamp λ t.
          search (keeps_rules, save_initial_transition-Keeps R Ok held, build_and_conclude-Keeps)
            depth 9)
        (Keeps-raise _)

  deploy_validated-Keeps : (m : M) → Keeps Ok (deploy_validated R plan m)
  unfolding deploy_validated
  deploy_validated-Keeps m =
      search (keeps_rules, deploy_existing-Keeps R Ok held, held.keep_load, deploy_new-Keeps) depth
        9

  deploy_locked-Keeps : (m : M) → Keeps Ok (deploy_locked R plan m)
  unfolding deploy_locked
  deploy_locked-Keeps m =
      search (keeps_rules, validate_plan_manifest-Keeps R Ok held, deploy_validated-Keeps)

  pub cleanup_routing-Keeps : Keeps Ok (cleanup_routing R plan)
  unfolding cleanup_routing
  cleanup_routing-Keeps = search (keeps_rules, stop_routing-Keeps R Ok held)

  pub cleanup_namespaces-Keeps :
      (ns : List String) (c : Cleanup) → Keeps Ok (cleanup_namespaces R ns c)
  unfolding cleanup_namespaces
  cleanup_namespaces-Keeps [] c = Keeps-pure c
  cleanup_namespaces-Keeps (n ∷ ns) c =
      Keeps-bind _ _ (Keeps-attempt _ (delete_namespace-Keeps n))
        λ r. Keeps-if _ _ _ (cleanup_namespaces-Keeps ns (namespace_cleanup n r c).0) (Keeps-pure _)

  pub gone :
      (r : Result LiveInventory) (c : Cleanup) (w : World E)
      → absent_in R plan (inventory_cleanup r c).0 ≡ true
      → InventorySays (ok r) w
      → G plan S w
  unfolding InventorySays F G
  gone (ok i) c w q h = (h.0, h.1 q)
  gone (err x) c w q h = ground arith

  finish_destroy-Hoare :
      (name : String) (s : StateSnapshot) (r : Result LiveInventory) (c : Cleanup)
      → Hoare
          (InventorySays (ok r))
          (finish_destroy R plan name s (inventory_cleanup r c).0 (inventory_cleanup r c).1)
          (λ _. Ok)
  finish_destroy-Hoare name s r c =
      Hoare-given (inventory_cleanup r c).1.first_error _ _
        (λ _.
          Hoare-if (absent_in R plan (inventory_cleanup r c).0) _ _
            (λ q.
              Hoare-weaken (λ w h. gone r c w q h)
                (Hoare-bind _ _ (delete_final_state-Hoare plan S s)
                  (λ _. Hoare-Keeps (Keeps-pure _)) (λ x w h. h)))
            (λ _. Hoare-weaken (read_ok r) (Hoare-Keeps (Keeps-raise _))))
        (λ x. Hoare-weaken (read_ok r) (Hoare-Keeps (Keeps-raise _)))

  tear_down-Keeps : (name : String) (s : StateSnapshot) → Keeps Ok (tear_down R plan name s)
  unfolding tear_down
  tear_down-Keeps name s = Keeps-bind _ _ cleanup_routing-Keeps λ routed.
      Keeps-bind _ _
        (cleanup_namespaces-Keeps (reversed (namespaces_of (values plan.nodes))) routed)
        λ cleaned.
          Keeps-Hoare
            (Hoare-bind _ _ read_says (λ r. finish_destroy-Hoare name s r cleaned) read_failed)

  -- `destroy_existing` once the plan of the snapshot is known.
  destroy_existing-Keeps :
      (name : String) (s : StateSnapshot)
      → S.plan_from_snapshot s ≡ ok plan
      → Keeps Ok (destroy_existing R name s)
  unfolding destroy_existing T traced
  destroy_existing-Keeps name s q = Keeps-bind _ _ (Keeps-lift _) λ _.
      Keeps-bind _ _ (Keeps-lift _) λ _. Keeps-bind_ok _ plan _ q (
        Keeps-bind _ _ (save_initial_transition-Keeps R Ok held _ plan)
          (λ _. tear_down-Keeps name _))

-- Whatever the backend and the store answer, a deployment calls `delete` of the state store only for
-- its own name, and only where the latest inventory it read shows no resource of the plan and no call
-- that changes the kernel came after that reading.
pub deploy_locked-ForgetsAbsent :
    {E M : Type 0} (S : Services E M) (plan : TopologyPlan) (manifest : M) (e : E)
    → ForgetsAbsent plan (deploy_locked (traced S) plan manifest (e, [])).1.1
unfolding T F
deploy_locked-ForgetsAbsent S plan manifest e = (deploy_locked-Keeps plan S manifest).at (e, []) tt

-- Whatever the backend and the store answer, the removal of a deployment that has a snapshot calls
-- `delete` of the state store only with the name of the plan in that snapshot, and only where the
-- latest inventory it read shows no resource of that plan and no call that changes the kernel came
-- after that reading.
pub destroy_existing-ForgetsAbsent :
    {E M : Type 0} (S : Services E M) (plan : TopologyPlan) (name : String)
    (current : StateSnapshot) (e : E)
    → S.plan_from_snapshot current ≡ ok plan
    → ForgetsAbsent plan (destroy_existing (traced S) name current (e, [])).1.1
unfolding T F
destroy_existing-ForgetsAbsent S plan name current e q =
    (destroy_existing-Keeps plan S name current q).at (e, []) tt
