-- ===== src/Lifecycle/Deployed.antt =====
-- lifecycle.py, `deploy`: what a deployment that reports a change has done.
use nslab.Json.{Json}
use nslab.Inventory.Match.{RedOptions}
use nslab.Base.{
  String, ◌≡◌, refl, Bool, true, Option, some, List, [], ◌∷◌, arith, ap, ◌==◌, string_eq,
}
use nslab.Base.Dict.{Dict}
use nslab.Error.{Result, ok, err}
use nslab.Exec.{lift, ◌>>=◌}
use nslab.Exec.Keeps.{Keeps, keeps_rules}
use nslab.Exec.Hoare.{
  Hoare, Hoare-weaken, Hoare-if, Hoare-given, OnOk, Hoare-pure, Hoare-raise, Hoare-seq, Hoare-skip,
  Hoare-try_skip, on_ok,
}
use nslab.Plan.Types.{TopologyPlan}
use nslab.Inventory.Types.{LiveInventory}
use nslab.Inventory.Whole.{inventory_matches_plan, inventory_is_absent}
use nslab.State.Snapshot.{StateSnapshot, deployed}
use nslab.Lifecycle.Services.{Services}
use nslab.Lifecycle.Guards.{LifecycleResult}
use nslab.Lifecycle.Rollback.{routing_ready, chosen}
use nslab.Lifecycle.Deploy.{
  snapshot_for_plan, deploy_existing, verify, build_up, then_build, build, commit_deployment,
  conclude, build_and_conclude, deploy_new, deploy_validated, deploy_locked, map_result,
}
use nslab.Lifecycle.Trace.{
  Event, created, deleted, saved, removed, observed, changed, consulted, World, note, observation,
  traced, chosen-Keeps,
}

module _ (red : RedOptions) (plan : TopologyPlan) where
  -- The latest events read an inventory that matches the plan, and changed nothing since.
  abbrev pub Confirmed : List Event → Type 0
  Confirmed [] = ⊥
  Confirmed (observed i ∷ before) = inventory_matches_plan ⦃red = red⦄ plan i ≡ ok true
  Confirmed (consulted ∷ before) = Confirmed before
  Confirmed (created n ∷ before) = ⊥
  Confirmed (deleted n ∷ before) = ⊥
  Confirmed (saved s ∷ before) = ⊥
  Confirmed (removed n ∷ before) = ⊥
  Confirmed (changed ∷ before) = ⊥

  -- The snapshot of a deployment of the plan that is complete.
  abbrev pub IsSnapshotOf : StateSnapshot → Type 0
  IsSnapshotOf s = (s.name ≡ plan.name) × (s.fingerprint ≡ plan.fingerprint) × (s.status ≡ deployed)

  -- The last call saved such a snapshot, after the live resources were confirmed.
  abbrev pub Committed : List Event → Type 0
  Committed [] = ⊥
  Committed (saved s ∷ before) = IsSnapshotOf s × Confirmed before
  Committed (observed i ∷ before) = ⊥
  Committed (consulted ∷ before) = ⊥
  Committed (created n ∷ before) = ⊥
  Committed (deleted n ∷ before) = ⊥
  Committed (removed n ∷ before) = ⊥
  Committed (changed ∷ before) = ⊥

module _ (plan : TopologyPlan) {E M : Type 0} (S : Services E M) where
  T : Services (World E) M
  T = traced S

  Ready : World E → Type 0
  Ready w = Confirmed S.red plan w.1

  Done : LifecycleResult → World E → Type 0
  Done r w = r.changed ≡ true → Committed S.red plan w.1

  Read : LiveInventory → World E → Type 0
  Read i w = inventory_matches_plan ⦃red = S.red⦄ plan i ≡ ok true → Ready w

  observation-Read :
      (r : Result LiveInventory) (e : E) (log : List Event) → OnOk Read r (e, observation r ∷ log)
  unfolding Read Ready
  observation-Read (ok i) e log = λ q. q
  observation-Read (err x) e log = tt

  inventory-Read : Hoare (λ _. Unit) (T.inventory plan) (OnOk Read)
  unfolding T traced note
  inventory-Read = record { at = λ (e, log) h. observation-Read (S.inventory plan e).0 _ log }

  chosen_method-Keeps : Keeps Ready (chosen T T.routing_ready plan)
  unfolding T Ready traced
  chosen_method-Keeps =
      chosen-Keeps S (Confirmed S.red plan) consulted S.routing_ready plan (λ log h. h)

  routing_ready-Keeps : Keeps Ready (routing_ready T plan)
  unfolding routing_ready
  routing_ready-Keeps = search (keeps_rules, chosen_method-Keeps)

  outcome-Ready :
      (r : Result Bool) (w : World E) → Ready w → OnOk (λ ready w. ready ≡ true → Ready w) r w
  outcome-Ready (ok ready) w h = λ q. h
  outcome-Ready (err x) w h = tt

  routing_ready-Ready :
      Hoare Ready (routing_ready T plan) (OnOk (λ (ready : Bool) w. ready ≡ true → Ready w))
  routing_ready-Ready = record { at = λ w h. outcome-Ready _ _ (routing_ready-Keeps.at w h) }

  matches_step :
      (r : Result Bool) (w : World E)
      → (r ≡ ok true → Ready w)
      → OnOk (λ live w. live ≡ true → Ready w) r w
  matches_step (ok live) w h = λ q. h (ap ok q)
  matches_step (err x) w h = tt

  matches-Ready :
      (i : LiveInventory)
      → Hoare
          (Read i)
          (lift (inventory_matches_plan ⦃red = S.red⦄ plan i))
          (OnOk (λ live w. live ≡ true → Ready w))
  unfolding ◌>>=◌ Read
  matches-Ready i = record { at = λ w h. matches_step _ w h }

  verify-Ready : Hoare (λ _. Unit) (verify T plan) (OnOk (λ i w. Ready w))
  unfolding verify T traced
  verify-Ready = Hoare-seq _ _ inventory-Read λ i. Hoare-seq _ _ (matches-Ready i) λ live.
      Hoare-seq {Q = λ ready w. ready ≡ true → Ready w} _ _
        (Hoare-if live _ _ (λ q. Hoare-weaken (λ w h. h q) routing_ready-Ready)
          (λ q. Hoare-pure _ (λ w h. cc)))
        λ ready. Hoare-if ready _ _ (λ q. Hoare-pure _ (λ w h. h q)) (λ q. Hoare-raise _)

  build_up-Ready : Hoare (λ _. Unit) (build_up T plan) (OnOk (λ i w. Ready w))
  unfolding build_up
  build_up-Ready =
      Hoare-skip _ _ λ _. Hoare-skip _ _ λ _. Hoare-skip _ _ λ _. Hoare-skip _ _ λ _. verify-Ready

  -- The outcome of the `try` of a deployment.
  Built : (Result LiveInventory × List String) × World E → Type 0
  Built ((r, cs), w) = OnOk (λ i w. Ready w) r w

  then_build-Built : (x : (Result (Unit {0}) × List String) × World E) → Built (then_build T plan x)
  unfolding Built
  then_build-Built ((err x, cs), w) = tt
  then_build-Built ((ok u, cs), w) = build_up-Ready.at w tt

  snapshot_step :
      (r : Result StateSnapshot) (w : World E)
      → OnOk (λ s w. IsSnapshotOf S.red plan s) r w
      → Ready w
      → OnOk (λ s w. IsSnapshotOf S.red plan s × Ready w) r w
  snapshot_step (ok s) w h k = (h, k)
  snapshot_step (err x) w h k = tt

  snapshot_built :
      (f : Dict Json → StateSnapshot) (r : Result (Dict Json)) (w : World E)
      → ((owned : Dict Json) → IsSnapshotOf S.red plan (f owned))
      → OnOk (λ s w. IsSnapshotOf S.red plan s) (map_result f r) w
  snapshot_built f (ok owned) w h = h owned
  snapshot_built f (err x) w h = tt

  snapshot_for_plan-IsSnapshotOf :
      (m : M) (t : String) (o : Option LiveInventory) (w : World E)
      → OnOk (λ s w. IsSnapshotOf S.red plan s) (snapshot_for_plan T plan m t deployed o) w
  unfolding snapshot_for_plan
  snapshot_for_plan-IsSnapshotOf m t o w = snapshot_built _ _ w (λ owned. (refl, refl, refl))

  save_logged :
      (r : Result (Unit {0})) (e : E) (s : StateSnapshot) (log : List Event)
      → IsSnapshotOf S.red plan s × Confirmed S.red plan log
      → OnOk (λ _ (w : World E). Committed S.red plan w.1) r (e, saved s ∷ log)
  save_logged (ok u) e s log h = h
  save_logged (err x) e s log h = tt

  save_step :
      (s : StateSnapshot)
      → Hoare
          (λ w. IsSnapshotOf S.red plan s × Ready w)
          (T.save s)
          (OnOk (λ _ w. Committed S.red plan w.1))
  unfolding T Ready traced note
  save_step s = record { at = λ (e, log) h. save_logged (S.save s e).0 _ s log h }

  commit-Done :
      (cs : List String) (first final : StateSnapshot)
      → Hoare
          (λ w. IsSnapshotOf S.red plan final × Ready w)
          (commit_deployment T plan cs first final)
          (OnOk Done)
  unfolding commit_deployment Done
  commit-Done cs first final =
      Hoare-try_skip {Q = λ _ w. Committed S.red plan w.1} _ _ _ (save_step final)
        (λ _. Hoare-pure _ (λ w h q. h)) (λ x. Hoare-skip _ _ (λ y. Hoare-raise y))

  conclude-Done :
      (m : M) (t : String) (s : StateSnapshot) (r : Result LiveInventory) (cs : List String)
      → Hoare (λ w. Built ((r, cs), w)) (conclude T plan m t s r cs) (OnOk Done)
  unfolding conclude Built ◌>>=◌
  conclude-Done m t s (err x) cs = Hoare-skip _ _ (λ y. Hoare-raise y)
  conclude-Done m t s (ok i) cs =
      Hoare-seq {Q = λ final w. IsSnapshotOf S.red plan final × Ready w} _ _
        (record { at = λ w h. snapshot_step _ w (snapshot_for_plan-IsSnapshotOf m t (some i) w) h })
        (λ final. commit-Done cs s final)

  build_and_conclude-Done :
      (m : M) (t : String) (s : StateSnapshot)
      → Hoare (λ _. Unit) (build_and_conclude T plan m t s) (OnOk Done)
  unfolding build_and_conclude build
  build_and_conclude-Done m t s = record {
    at = λ w h.
        let ((r, cs), w') = build T plan w in (conclude-Done m t s r cs).at w' (then_build-Built _);
  }

  deploy_new-Done : (m : M) → Hoare (λ _. Unit) (deploy_new T plan m) (OnOk Done)
  unfolding deploy_new
  deploy_new-Done m = Hoare-skip _ _ λ i.
      Hoare-if (inventory_is_absent plan i) _ _
        (λ _.
          Hoare-skip _ _ λ t. Hoare-skip _ _ λ s. Hoare-skip _ _ λ _. build_and_conclude-Done m t s)
        (λ _. Hoare-raise _)

  deploy_existing-Done :
      (s : StateSnapshot) → Hoare (λ _. Unit) (deploy_existing T plan s) (OnOk Done)
  unfolding deploy_existing Done
  deploy_existing-Done s = Hoare-skip _ _ λ _. Hoare-skip _ _ λ _.
      Hoare-if (s.fingerprint == plan.fingerprint) _ _
        (λ _. Hoare-skip _ _ λ p. Hoare-skip _ _ λ i.
          Hoare-skip _ _
            λ b. Hoare-if b _ _ (λ _. Hoare-pure _ (λ w h q. ground arith)) (λ _. Hoare-raise _))
        (λ _. Hoare-raise _)

  deploy_locked-Done : (m : M) → Hoare (λ _. Unit) (deploy_locked T plan m) (OnOk Done)
  unfolding deploy_locked deploy_validated
  deploy_locked-Done m =
      Hoare-skip _ _
        λ _. Hoare-skip _ _ λ o. Hoare-given o _ _ (λ _. deploy_new-Done m) deploy_existing-Done

-- Whatever the backend and the store answer, where a deployment returns and says that it changed
-- something, its last call handed the state store a snapshot that has the name and the fingerprint of
-- the plan and the status `deployed`; the inventory read before that matches the plan, and between
-- the two only calls were made that read.
pub deploy_locked-Committed :
    {E M : Type 0} (S : Services E M) (plan : TopologyPlan) (manifest : M) (e : E)
    (result : LifecycleResult)
    → (deploy_locked (traced S) plan manifest (e, [])).0 ≡ ok result
    → result.changed ≡ true
    → Committed S.red plan (deploy_locked (traced S) plan manifest (e, [])).1.1
unfolding T Done
deploy_locked-Committed S plan manifest e result q =
    on_ok _ _ _ q ((deploy_locked-Done plan S manifest).at (e, []) tt)
