-- ===== src/Lifecycle/Quiet.antt =====
-- lifecycle.py: the runs that change nothing.
use nslab.Exec.Hoare.{Hoare, Hoare-bind, Hoare-Keeps}
use nslab.Base.{String, ◌≡◌, refl, Option, none, some, List, [], ◌∷◌, ◌==◌, string_eq, subst, sym}
use nslab.Error.{Error, Result, ok, err}
use nslab.Exec.{Exec, lift, ◌>>=◌, given}
use nslab.Exec.Keeps.{Keeps, keeps_rules, Keeps-pure, Keeps-raise, Keeps-if, Keeps-lift}
use nslab.Plan.Types.{TopologyPlan}
use nslab.Inventory.Types.{LiveInventory}
use nslab.State.Snapshot.{StateSnapshot, deployed, SnapshotStatus, deploying, destroying}
use nslab.Lifecycle.Services.{Services}
use nslab.Lifecycle.Guards.{LifecycleResult, require_status}
use nslab.Lifecycle.Rollback.{routing_ready, chosen}
use nslab.Lifecycle.Deploy.{
  is_in_place, deploy_existing, deploy_validated, deploy_locked, validate_plan_manifest,
}
use nslab.Lifecycle.Destroy.{destroy_existing, destroy_locked, redeploy_locked, check_plan_name}
use nslab.Lifecycle.Trace.{
  Event, created, deleted, saved, removed, observed, changed, consulted, World, note, observation,
  traced, OnLog, Keeps-note, chosen-Keeps,
}

-- Only calls that read were made.
abbrev pub Quiet : List Event → Type 0
Quiet [] = Unit
Quiet (observed i ∷ before) = Quiet before
Quiet (consulted ∷ before) = Quiet before
Quiet (created n ∷ before) = ⊥
Quiet (deleted n ∷ before) = ⊥
Quiet (saved s ∷ before) = ⊥
Quiet (removed n ∷ before) = ⊥
Quiet (changed ∷ before) = ⊥

abbrev pub Failed : {A : Type 0} → Result A → Type 0
Failed (ok a) = ⊥
Failed (err x) = Unit

-- An error, after calls that only read.
abbrev pub Refused : {E A : Type 0} → Result A × World E → Type 0
Refused (r, (e, log)) = Failed r × Quiet log

unstable-Failed :
    (s : StateSnapshot) (st : SnapshotStatus) → (st ≡ deployed → ⊥) → Failed (require_status s st)
unstable-Failed s deploying h = tt
unstable-Failed s deployed h = h refl
unstable-Failed s destroying h = tt

module _ {E M : Type 0} (S : Services E M) where
  abbrev T : Services (World E) M
  T = traced S

  abbrev Still : World E → Type 0
  Still = OnLog Quiet

  inventory_step :
      (r : Result LiveInventory) (log : List Event) → Quiet log → Quiet (observation r ∷ log)
  inventory_step (ok i) log h = h
  inventory_step (err x) log h = h

  inventory-Still : (p : TopologyPlan) → Keeps Still (T.inventory p)
  unfolding traced
  inventory-Still p = Keeps-note Quiet _ _ inventory_step

  load-Still : (n : String) → Keeps Still (T.load n)
  unfolding traced
  load-Still n = Keeps-note Quiet _ _ (λ r log h. h)

  chosen_ready-Still : (p : TopologyPlan) → Keeps Still (chosen T T.routing_ready p)
  unfolding traced
  chosen_ready-Still p = chosen-Keeps S Quiet consulted S.routing_ready p (λ log h. h)

  routing_ready-Still : (p : TopologyPlan) → Keeps Still (routing_ready T p)
  unfolding routing_ready
  routing_ready-Still p = search (keeps_rules, chosen_ready-Still)

  deploy_existing-Still :
      (p : TopologyPlan) (s : StateSnapshot) → Keeps Still (deploy_existing T p s)
  unfolding deploy_existing is_in_place
  deploy_existing-Still p s = search (keeps_rules, inventory-Still, routing_ready-Still) depth 12

  validate-Still : (p : TopologyPlan) (m : M) → Keeps Still (validate_plan_manifest T p m)
  unfolding validate_plan_manifest
  validate-Still p m = search keeps_rules

  -- An error, after calls that only read.
  abbrev pub Refusal : {A : Type 0} → Result A → World E → Type 0
  Refusal r w = Failed r × Quiet w.1

  stopped :
      {A B : Type 0} (r : Result A) (f : A → Exec (World E) B)
      → Failed r
      → Hoare Still (lift r >>= f) Refusal
  unfolding ◌>>=◌
  stopped (ok a) f h = elim h [ ]
  stopped (err x) f h = record { at = λ w q. (tt, q) }

  Still-Refusal : (A : Type 0) (x : Error) (w : World E) → Still w → Refusal {A = A} (err x) w
  Still-Refusal A x w h = (tt, h)

  -- A run that starts in a world where the store has the snapshot.
  module _ (e : E) (name : String) (current : StateSnapshot)
      (there : (S.load name e).0 ≡ ok (some current)) where
    Start : World E → Type 0
    Start w = w ≡ (e, [])

    Loaded : Result (Option StateSnapshot) → World E → Type 0
    Loaded (ok o) w = (o ≡ some current) × Quiet w.1
    Loaded (err x) w = Quiet w.1

    load_outcome-Loaded :
        (r : Result (Option StateSnapshot)) (e' : E)
        → r ≡ ok (some current)
        → Loaded r (e', consulted ∷ [])
    unfolding Loaded
    load_outcome-Loaded (ok o) e' q = (cc, tt)
    load_outcome-Loaded (err x) e' q = tt

    load-Loaded : Hoare Start (T.load name) Loaded
    unfolding Start traced note
    load-Loaded = record {
      at = λ w h.
          subst (λ w. Loaded (T.load name w).0 (T.load name w).1) (sym h)
            (load_outcome-Loaded _ _ there);
    }

    Start-Refusal : (A : Type 0) (x : Error) (w : World E) → Start w → Refusal {A = A} (err x) w
    unfolding Start
    Start-Refusal A x w h = (tt, subst Still (sym h) tt)

    given-Loaded :
        {A : Type 0} (o : Option StateSnapshot) (n : Exec (World E) A)
        (f : StateSnapshot → Exec (World E) A) (Q : Result A → World E → Type 0)
        → Hoare Still (f current) Q
        → Hoare (Loaded (ok o)) (given o n f) Q
    unfolding Loaded
    given-Loaded o n f Q h = record {
      at = λ w l. subst (λ o. Q (given o n f w).0 (given o n f w).1) (sym l.0) (h.at w l.1);
    }

    validate-Start : (p : TopologyPlan) (m : M) → Keeps Start (validate_plan_manifest T p m)
    unfolding validate_plan_manifest
    validate-Start p m = search keeps_rules

    load_failed-Still : (x : Error) (w : World E) → Loaded (err x) w → Still w
    unfolding Loaded
    load_failed-Still x w h = h

    Start-Still : (w : World E) → Start w → Still w
    unfolding Start
    Start-Still w h = subst Still (sym h) tt

    -- A snapshot that is there is loaded, and the run goes on with it.
    with_snapshot :
        {A : Type 0} (n : Exec (World E) A) (f : StateSnapshot → Exec (World E) A)
        (Q : Result A → World E → Type 0)
        → Hoare Still (f current) Q
        → ((x : Error) (w : World E) → Still w → Q (err x) w)
        → Hoare Start (T.load name >>= λ o. given o n f) Q
    with_snapshot n f Q h hx =
        Hoare-bind _ _ load-Loaded (λ o. given-Loaded o n f Q h)
          (λ x w l. hx x w (load_failed-Still x w l))

    check_plan_name-Start : (p : Option TopologyPlan) → Keeps Start (check_plan_name T p name)
    check_plan_name-Start none = Keeps-pure tt
    check_plan_name-Start (some p) = Keeps-if (p.name == name) _ _ (Keeps-pure tt) (Keeps-raise _)

    -- A snapshot that is not stable stops the removal.
    destroy_existing-Refusal :
        (current.status ≡ deployed → ⊥)
        → (requested : String) → Hoare Still (destroy_existing T requested current) Refusal
    unfolding destroy_existing
    destroy_existing-Refusal unstable requested =
        Hoare-bind {Q = λ _. Still} _ _ (Hoare-Keeps (Keeps-lift _))
          (λ _. stopped _ _ (unstable-Failed current current.status unstable))
          (Still-Refusal LifecycleResult)

    destroy_locked-Refusal :
        (current.status ≡ deployed → ⊥)
        → (p : Option TopologyPlan) → Hoare Start (destroy_locked T p name) Refusal
    unfolding destroy_locked
    destroy_locked-Refusal unstable p =
        Hoare-bind _ _ (Hoare-Keeps (check_plan_name-Start p))
          (λ _.
            with_snapshot _ _ Refusal (destroy_existing-Refusal unstable name)
              (Still-Refusal LifecycleResult))
          (Start-Refusal LifecycleResult)

-- The three operations by the name of the plan.
module _ {E M : Type 0} (S : Services E M) (plan : TopologyPlan) (e : E) (current : StateSnapshot)
    (there : (S.load plan.name e).0 ≡ ok (some current)) where
  Begin : World E → Type 0
  Begin = Start S e plan.name current there

  validate-Begin : (m : M) → Keeps Begin (validate_plan_manifest (traced S) plan m)
  unfolding Begin
  validate-Begin m = validate-Start S e plan.name current there plan m

  deploy_locked-Still : (m : M) → Hoare Begin (deploy_locked (traced S) plan m) (λ _. Still S)
  unfolding deploy_locked deploy_validated Begin
  deploy_locked-Still m =
      Hoare-bind _ _ (Hoare-Keeps (validate-Begin m))
        (λ _.
          with_snapshot S e plan.name current there _ _ (λ _. Still S)
            (Hoare-Keeps (deploy_existing-Still S plan current)) (λ x w h. h))
        (λ x w h. Start-Still S e plan.name current there w h)

  module _ (unstable : current.status ≡ deployed → ⊥) where
    deploy_existing-Refusal : Hoare (Still S) (deploy_existing (traced S) plan current) (Refusal S)
    unfolding deploy_existing
    deploy_existing-Refusal =
        Hoare-bind {Q = λ _. Still S} _ _ (Hoare-Keeps (Keeps-lift _))
          (λ _. stopped S _ _ (unstable-Failed current current.status unstable))
          (Still-Refusal S LifecycleResult)

    deploy_locked-Refusal : (m : M) → Hoare Begin (deploy_locked (traced S) plan m) (Refusal S)
    unfolding deploy_locked deploy_validated Begin
    deploy_locked-Refusal m =
        Hoare-bind _ _ (Hoare-Keeps (validate-Begin m))
          (λ _.
            with_snapshot S e plan.name current there _ _ (Refusal S) deploy_existing-Refusal
              (Still-Refusal S LifecycleResult))
          (Start-Refusal S e plan.name current there LifecycleResult)

    redeploy_locked-Refusal : (m : M) → Hoare Begin (redeploy_locked (traced S) plan m) (Refusal S)
    unfolding redeploy_locked Begin
    redeploy_locked-Refusal m =
        Hoare-bind _ _ (Hoare-Keeps (validate-Begin m))
          (λ _.
            Hoare-bind _ _ (destroy_locked-Refusal S e plan.name current there unstable (some plan))
              (λ r. record { at = λ w h. elim h.0 [ ] }) (λ x w h. h))
          (Start-Refusal S e plan.name current there LifecycleResult)

-- Where the store has a snapshot with the name of the plan, a deployment makes no call that changes
-- the kernel or the store, whatever it finds and however it ends.
pub deploy_locked-Quiet :
    {E M : Type 0} (S : Services E M) (plan : TopologyPlan) (manifest : M) (e : E)
    (current : StateSnapshot)
    → (S.load plan.name e).0 ≡ ok (some current)
    → Quiet (deploy_locked (traced S) plan manifest (e, [])).1.1
unfolding Begin Start
deploy_locked-Quiet S plan manifest e current there =
    (deploy_locked-Still S plan e current there manifest).at (e, []) refl

-- Where the store has a snapshot with the name of the plan whose status is not `deployed`, a
-- deployment, a removal and a redeployment each end with an error, and make no call that changes the
-- kernel or the store.
pub interrupted-Refusal :
    {E M : Type 0} (S : Services E M) (plan : TopologyPlan) (manifest : M) (e : E)
    (current : StateSnapshot)
    → (S.load plan.name e).0 ≡ ok (some current)
    → (current.status ≡ deployed → ⊥)
    → Refused (deploy_locked (traced S) plan manifest (e, []))
      × Refused (destroy_locked (traced S) (some plan) plan.name (e, []))
      × Refused (redeploy_locked (traced S) plan manifest (e, []))
unfolding Begin Start
interrupted-Refusal S plan manifest e current there unstable = (
  (deploy_locked-Refusal S plan e current there unstable manifest).at (e, []) refl,
  (destroy_locked-Refusal S e plan.name current there unstable (some plan)).at (e, []) refl,
  (redeploy_locked-Refusal S plan e current there unstable manifest).at (e, []) refl,
)
