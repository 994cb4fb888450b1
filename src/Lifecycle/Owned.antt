-- ===== src/Lifecycle/Owned.antt =====
-- A deployment deletes only what it has created: its rollback never touches a namespace that was
-- there before, whatever the backend and the store do.
use nslab.Inventory.Types.{LiveInventory}
use nslab.Base.{String, refl, inl, inr, Bool, List, [], ◌∷◌, ◌++◌, In, All, subst, sym}
use nslab.Base.Dict.{values}
use nslab.Json.{Json}
use nslab.Error.{Error, Result, ok, err}
use nslab.Exec.Keeps.{
  Keeps, keeps_rules, Keeps-pure, Keeps-bind, Keeps-attempt, Keeps-if, Keeps-raise,
}
use nslab.Plan.Types.{NodePlan, TopologyPlan}
use nslab.State.Snapshot.{StateSnapshot}
use nslab.Lifecycle.Services.{Services}
use nslab.Lifecycle.Rollback.{
  reversed, reversed_onto, rollback_step, reconcile_rollback_state_delete, remove_rollback_state,
  rollback_namespaces, rollback_and_attach, handle_final_deploy_save_failure, rollback_retry_failed,
  remove_own,
}
use nslab.Lifecycle.Deploy.{
  create_namespaces, then_build, build, commit_deployment, conclude, build_and_conclude, deploy_new,
  deploy_validated, deploy_locked, created_then, Building,
}
use nslab.Lifecycle.Frame.{
  CallsKeep, reconcile-Keeps, delete_gate-Keeps, raise_delete_retry_interrupt-Keeps,
  stop_routing-Keeps, save_initial_transition-Keeps, deploy_existing-Keeps, build_up-Keeps,
  validate_plan_manifest-Keeps,
}
use nslab.Lifecycle.Trace.{
  Event, created, deleted, saved, removed, observed, changed, consulted, World, note, traced, OnLog,
  Keeps-note, IsNeutral, traced-CallsKeep, creation,
}

-- Every deletion of a namespace comes after a creation of it that returned.
abbrev pub DeletesOwn : List Event → Type 0
DeletesOwn [] = Unit
DeletesOwn (deleted n ∷ before) = In (created n) before × DeletesOwn before
DeletesOwn (created n ∷ before) = DeletesOwn before
DeletesOwn (saved s ∷ before) = DeletesOwn before
DeletesOwn (removed n ∷ before) = DeletesOwn before
DeletesOwn (observed i ∷ before) = DeletesOwn before
DeletesOwn (changed ∷ before) = DeletesOwn before
DeletesOwn (consulted ∷ before) = DeletesOwn before

-- Beside that, the namespaces of the list were created.
abbrev Owning : List String → List Event → Type 0
Owning cs log = DeletesOwn log × All (λ n. In (created n) log) cs

later :
    (e : Event) (cs : List String) (log : List Event)
    → All (λ n. In (created n) log) cs
    → All (λ n. In (created n) (e ∷ log)) cs
later e [] log h = tt
later e (c ∷ cs) log h = (inr h.0, later e cs log h.1)

Owning-stable :
    (cs : List String) (e : Event)
    → IsNeutral e
    → (log : List Event) → Owning cs log
    → Owning cs (e ∷ log)
Owning-stable cs (created n) ne log h = (h.0, later _ cs log h.1)
Owning-stable cs (deleted n) ne log h = elim ne [ ]
Owning-stable cs (saved s) ne log h = (h.0, later _ cs log h.1)
Owning-stable cs (removed n) ne log h = elim ne [ ]
Owning-stable cs (observed i) ne log h = (h.0, later _ cs log h.1)
Owning-stable cs changed ne log h = (h.0, later _ cs log h.1)
Owning-stable cs consulted ne log h = (h.0, later _ cs log h.1)

All-In : (P : String → Type 0) (cs : List String) {n : String} → All P cs → In n cs → P n
All-In P [] h at = elim at [ ]
All-In P (c ∷ cs) h (inl e) = subst P (sym e) h.0
All-In P (c ∷ cs) h (inr at) = All-In P cs h.1 at

All-reversed_onto :
    (P : String → Type 0) (xs out : List String)
    → All P xs
    → All P out
    → All P (reversed_onto xs out)
All-reversed_onto P [] out hx ho = ho
All-reversed_onto P (x ∷ xs) out hx ho = All-reversed_onto P xs (x ∷ out) hx.1 (hx.0, ho)

All-append_one :
    (P : String → Type 0) (xs : List String) (x : String) → All P xs → P x → All P (xs ++ (x ∷ []))
All-append_one P [] x hx p = (p, tt)
All-append_one P (y ∷ xs) x hx p = (hx.0, All-append_one P xs x hx.1 p)

All-weaken :
    (c : String) (cs xs : List String) → All (λ n. In n cs) xs → All (λ n. In n (c ∷ cs)) xs
All-weaken c cs [] h = tt
All-weaken c cs (x ∷ xs) h = (inr h.0, All-weaken c cs xs h.1)

All-self : (cs : List String) → All (λ n. In n cs) cs
All-self [] = tt
All-self (c ∷ cs) = (inl refl, All-weaken c cs cs (All-self cs))

module _ {E M : Type 0} (S : Services E M) where
  T : Services (World E) M
  T = traced S

  module _ (cs : List String) where
    P : World E → Type 0
    P = OnLog (Owning cs)

    calls : CallsKeep T P
    unfolding T P
    calls = traced-CallsKeep S (Owning cs) (Owning-stable cs)

    delete_state-Keeps : (n : String) → Keeps P (T.delete n)
    unfolding T P traced
    delete_state-Keeps n = Keeps-note (Owning cs) _ _ (λ r log h. (h.0, later _ cs log h.1))

    delete_namespace-Keeps : (n : String) → In n cs → Keeps P (T.delete_namespace n)
    unfolding T P traced
    delete_namespace-Keeps n at =
        Keeps-note (Owning cs) _ _
          λ r log h. ((All-In (λ c. In (created c) log) cs h.1 at, h.0), later _ cs log h.1)

    reconcile_rollback_state_delete-Keeps :
        (a b : Error) (p : TopologyPlan) (s : StateSnapshot)
        → Keeps P (reconcile_rollback_state_delete T a b p s)
    unfolding reconcile_rollback_state_delete rollback_retry_failed
    reconcile_rollback_state_delete-Keeps a b p s =
        search
          (
            keeps_rules,
            delete_state-Keeps,
            delete_gate-Keeps T P calls,
            raise_delete_retry_interrupt-Keeps T P calls,
          )
          depth 9

    remove_rollback_state-Keeps :
        (a : Error) (p : TopologyPlan) (s : StateSnapshot) → Keeps P (remove_rollback_state T a p s)
    unfolding remove_rollback_state remove_own
    remove_rollback_state-Keeps a p s =
        search
          (keeps_rules, delete_state-Keeps, calls.keep_load, reconcile_rollback_state_delete-Keeps)
          depth 9

    rollback_namespaces-Keeps :
        (ns : List String) (acc : List Json × Bool)
        → All (λ n. In n cs) ns
        → Keeps P (rollback_namespaces T ns acc)
    unfolding rollback_namespaces
    rollback_namespaces-Keeps [] acc h = Keeps-pure acc
    rollback_namespaces-Keeps (n ∷ ns) acc h =
        Keeps-bind _ _ (Keeps-attempt _ (delete_namespace-Keeps n h.0))
          (λ outcome. rollback_namespaces-Keeps ns (rollback_step T n acc outcome) h.1)

    rollback-Keeps : (acc : List Json × Bool) → Keeps P (rollback_namespaces T (reversed cs) acc)
    rollback-Keeps acc =
        rollback_namespaces-Keeps (reversed cs) acc
          (All-reversed_onto (λ n. In n cs) cs [] (All-self cs) tt)

    rollback_and_attach-Keeps :
        (a : Error) (p : TopologyPlan) (s : StateSnapshot)
        → Keeps P (rollback_and_attach T a p cs s)
    unfolding rollback_and_attach
    rollback_and_attach-Keeps a p s =
        search
          (
            keeps_rules,
            rollback-Keeps,
            remove_rollback_state-Keeps,
            stop_routing-Keeps T P calls,
            calls.keep_inventory,
          )
          depth 9

    save_failure-Keeps :
        (a : Error) (p : TopologyPlan) (s : StateSnapshot)
        → Keeps P (handle_final_deploy_save_failure T a p cs s)
    unfolding handle_final_deploy_save_failure
    save_failure-Keeps a p s =
        search (keeps_rules, rollback_and_attach-Keeps, reconcile-Keeps T P calls) depth 9

  -- The list that is handed on names only namespaces that were created.
  abbrev IsOwning : {A : Type 0} → (Result A × List String) × World E → Type 0
  IsOwning ((r, cs), w) = Owning cs w.1

  created_then-IsOwning :
      (n : NodePlan) (rest : List String → Building (World E) Unit)
      → ((cs : List String) (w : World E) → Owning cs w.1 → IsOwning (rest cs w))
      → (cs : List String) (r : Result (Unit {0})) (e : E) (log : List Event) → Owning cs log
      → IsOwning (created_then T n rest cs (r, (e, creation n.namespace r ∷ log)))
  created_then-IsOwning n rest ih cs (ok u) e log h =
      ih (cs ++ (n.namespace ∷ [])) (e, created n.namespace ∷ log)
        (
          h.0,
          All-append_one (λ c. In (created c) (created n.namespace ∷ log)) cs n.namespace
              (later (created n.namespace) cs log h.1) (inl refl),
        )
  created_then-IsOwning n rest ih cs (err x) e log h = (h.0, later consulted cs log h.1)

  create_namespaces-IsOwning :
      (ns : List NodePlan) (cs : List String) (w : World E)
      → Owning cs w.1
      → IsOwning (create_namespaces T ns cs w)
  unfolding create_namespaces T traced note
  create_namespaces-IsOwning [] cs w h = h
  create_namespaces-IsOwning (n ∷ ns) cs (e, log) h =
      created_then-IsOwning n (create_namespaces T ns) (create_namespaces-IsOwning ns) cs
        (S.create_namespace n e).0 (S.create_namespace n e).1 log h

  then_build-IsOwning :
      (p : TopologyPlan) (x : (Result (Unit {0}) × List String) × World E)
      → IsOwning x
      → IsOwning (then_build T p x)
  unfolding P
  then_build-IsOwning p ((err x, cs), w) h = h
  then_build-IsOwning p ((ok u, cs), w) h = (build_up-Keeps T (P cs) (calls cs) p).at w h

  build-IsOwning : (p : TopologyPlan) (w : World E) → DeletesOwn w.1 → IsOwning (build T p w)
  unfolding build
  build-IsOwning p w h =
      then_build-IsOwning p (create_namespaces T (values p.nodes) [] w)
        (create_namespaces-IsOwning (values p.nodes) [] w (h, tt))

  conclude-Owning :
      (p : TopologyPlan) (m : M) (t : String) (s : StateSnapshot) (r : Result LiveInventory)
      (cs : List String)
      → Keeps (P cs) (conclude T p m t s r cs)
  unfolding conclude commit_deployment
  conclude-Owning p m t s (err x) cs = search (keeps_rules, rollback_and_attach-Keeps)
  conclude-Owning p m t s (ok i) cs =
      search (keeps_rules, save_failure-Keeps, (calls cs).keep_save) depth 9

  build_and_conclude-Keeps :
      (p : TopologyPlan) (m : M) (t : String) (s : StateSnapshot)
      → Keeps (P []) (build_and_conclude T p m t s)
  unfolding build_and_conclude P
  build_and_conclude-Keeps p m t s = record {
    at = λ w h.
        let ((r, cs), w') = build T p w in
        (((conclude-Owning p m t s r cs).at w' (build-IsOwning p w h.0)).0, tt);
  }

  deploy_new-Keeps : (p : TopologyPlan) (m : M) → Keeps (P []) (deploy_new T p m)
  unfolding deploy_new
  deploy_new-Keeps p m = Keeps-bind _ _ ((calls []).keep_inventory p) λ i.
      Keeps-if _ _ _
        (Keeps-bind _ _ (calls []).keep_timestamp λ t.
          search
            (
              keeps_rules,
              save_initial_transition-Keeps T (P []) (calls []),
              build_and_conclude-Keeps,
            )
            depth 9)
        (Keeps-raise _)

  deploy_validated-Keeps : (p : TopologyPlan) (m : M) → Keeps (P []) (deploy_validated T p m)
  unfolding deploy_validated
  deploy_validated-Keeps p m =
      search
        (
          keeps_rules,
          deploy_existing-Keeps T (P []) (calls []),
          (calls []).keep_load,
          deploy_new-Keeps,
        )
        depth 9

  deploy_locked-Keeps : (p : TopologyPlan) (m : M) → Keeps (P []) (deploy_locked T p m)
  unfolding deploy_locked
  deploy_locked-Keeps p m =
      search (keeps_rules, validate_plan_manifest-Keeps T (P []) (calls []), deploy_validated-Keeps)

-- In every deployment, whatever the backend and the store answer, each call that deletes a namespace
-- names one whose creation returned earlier in the same deployment.
pub deploy_locked-DeletesOwn :
    {E M : Type 0} (S : Services E M) (plan : TopologyPlan) (manifest : M) (e : E)
    → DeletesOwn (deploy_locked (traced S) plan manifest (e, [])).1.1
unfolding T P
deploy_locked-DeletesOwn S plan manifest e =
    ((deploy_locked-Keeps S plan manifest).at (e, []) (tt, tt)).0
