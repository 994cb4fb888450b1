-- ===== src/Lifecycle/Forgets.antt =====
-- A snapshot is taken away only while the resources that it owns are known to be gone.
pub mod Runs
pub mod Cleared
pub mod Complete
use nslab.Base.{
  String, ◌≡◌, refl, Bool, true, false, not, ◌&&◌, Option, none, some, List, [], ◌∷◌, ◌++◌, arith,
}
use nslab.Base.Dict.{Dict}
use nslab.Json.{Json}
use nslab.Error.{Error, Result, ok, err, is_raw_interrupt}
use nslab.Exec.{Exec, pure, raise, lift, attempt, ◌>>=◌, try_except, given}
use nslab.Exec.Keeps.{
  Keeps, keeps_rules, Keeps-pure, Keeps-raise, Keeps-bind, Keeps-if, Keeps-attempt,
}
use nslab.Exec.Hoare.{
  Hoare, Hoare-Keeps, Keeps-Hoare, Hoare-weaken, Hoare-if, Hoare-bind, Hoare-try,
}
use nslab.Plan.Types.{TopologyPlan}
use nslab.Inventory.Types.{LiveInventory}
use nslab.Inventory.Whole.{inventory_is_absent}
use nslab.State.Snapshot.{StateSnapshot, snapshot_beq}
use nslab.Lifecycle.Services.{Services}
use nslab.Lifecycle.Reconcile.{
  DeleteGate, retry_safe, absent_in, gate_of, reconciled_state, reconciled_inventory, reconcile,
  delete_gate, handle_final_delete_failure, delete_final_state, requires_reconciliation,
  final_retry_failed, final_retry,
}
use nslab.Lifecycle.Rollback.{
  reconcile_rollback_state_delete, remove_rollback_state, remove_own, rollback_retry_failed,
}
use nslab.Lifecycle.Frame.{CallsKeep, delete_gate-Keeps, raise_delete_retry_interrupt-Keeps}
use nslab.Lifecycle.Trace.{
  Event, created, deleted, saved, removed, observed, changed, consulted, World, note, observation,
  traced, OnLog, Keeps-note, IsNeutral, traced-CallsKeep,
}

module _ (plan : TopologyPlan) where
  -- The last inventory that was read shows that nothing of the plan is left, and no call has changed
  -- the kernel since.
  abbrev pub LastAbsent : List Event → Type 0
  LastAbsent [] = ⊥
  LastAbsent (observed i ∷ before) = inventory_is_absent plan i ≡ true
  LastAbsent (created n ∷ before) = ⊥
  LastAbsent (deleted n ∷ before) = ⊥
  LastAbsent (changed ∷ before) = ⊥
  LastAbsent (saved s ∷ before) = LastAbsent before
  LastAbsent (removed n ∷ before) = LastAbsent before
  LastAbsent (consulted ∷ before) = LastAbsent before

  -- Each call that removes a snapshot removes that of the plan, and comes at such a time.
  abbrev pub ForgetsAbsent : List Event → Type 0
  ForgetsAbsent [] = Unit
  ForgetsAbsent (removed n ∷ before) = (n ≡ plan.name) × LastAbsent before × ForgetsAbsent before
  ForgetsAbsent (deleted n ∷ before) = ForgetsAbsent before
  ForgetsAbsent (created n ∷ before) = ForgetsAbsent before
  ForgetsAbsent (saved s ∷ before) = ForgetsAbsent before
  ForgetsAbsent (observed i ∷ before) = ForgetsAbsent before
  ForgetsAbsent (changed ∷ before) = ForgetsAbsent before
  ForgetsAbsent (consulted ∷ before) = ForgetsAbsent before

  ForgetsAbsent-stable :
      (e : Event) → IsNeutral e → (log : List Event) → ForgetsAbsent log → ForgetsAbsent (e ∷ log)
  ForgetsAbsent-stable (created n) ne log h = h
  ForgetsAbsent-stable (deleted n) ne log h = h
  ForgetsAbsent-stable (saved s) ne log h = h
  ForgetsAbsent-stable (removed n) ne log h = elim ne [ ]
  ForgetsAbsent-stable (observed i) ne log h = h
  ForgetsAbsent-stable changed ne log h = h
  ForgetsAbsent-stable consulted ne log h = h

  module _ {E M : Type 0} (S : Services E M) where
    pub T : Services (World E) M
    T = traced S

    pub F : World E → Type 0
    F = OnLog ForgetsAbsent

    -- The resources are known to be gone.
    pub G : World E → Type 0
    G w = ForgetsAbsent w.1 × LastAbsent w.1

    pub calls : CallsKeep T F
    unfolding T F
    calls = traced-CallsKeep S ForgetsAbsent ForgetsAbsent-stable

    -- Removing the snapshot at such a time, and whatever comes of it.
    pub delete_at_absent : Hoare G (T.delete plan.name) (λ _. G)
    unfolding T F G traced note
    delete_at_absent = record { at = λ w h. ((refl, h.1, h.0), h.1) }

    pub load_at_absent : (n : String) → Hoare G (T.load n) (λ _. G)
    unfolding T F G traced note
    load_at_absent n = record { at = λ w h. h }

    pub forget : (w : World E) → G w → F w
    unfolding F G
    forget w h = h.0

    -- After a reconciliation that found the resources gone, they are known to be.
    pub GateSays : Result DeleteGate → World E → Type 0
    GateSays (ok g) w = F w × (g.live_absent ≡ true → LastAbsent w.1)
    GateSays (err x) w = F w

    gate_step :
        (r : Result (Option StateSnapshot)) (i : Result LiveInventory) (s : StateSnapshot) (e : E)
        (log : List Event)
        → ForgetsAbsent log
        → GateSays
            (ok (
              gate_of T plan s (record {
                snapshot = (reconciled_state T r).0;
                inventory = (reconciled_inventory T plan i).0;
                diagnostics = (reconciled_state T r).1 ++ ((reconciled_inventory T plan i).1 ∷ []);
              })))
            (e, observation i ∷ consulted ∷ log)
    unfolding GateSays F
    gate_step r (ok i) s e log h = (h, λ a. a)
    gate_step r (err x) s e log h = (h, λ a. cc)

    pub delete_gate_says : (s : StateSnapshot) → Hoare F (delete_gate T plan s) GateSays
    unfolding delete_gate reconcile T F traced note ◌>>=◌
    delete_gate_says s = record {
      at = λ (e, log) h.
          gate_step (S.load plan.name e).0 (S.inventory plan (S.load plan.name e).1).0 s _ log h;
    }

    -- A gate that lets a retry through says that the resources are gone.
    pub gate_opens :
        (g : DeleteGate) (b : Bool) (w : World E)
        → (b && retry_safe g) ≡ true
        → GateSays (ok g) w
        → G w
    unfolding GateSays F G
    gate_opens g b w safe (f, says) = (f, says (ground arith))

    pub pass :
        {A : Type 0} (g : DeleteGate) {m : Exec (World E) A}
        → Keeps F m
        → Hoare (GateSays (ok g)) m (λ _. F)
    unfolding GateSays
    pass g k = record { at = λ w h. k.at w h.0 }

    pub after : {A : Type 0} {m : Exec (World E) A} → Keeps F m → Hoare G m (λ _. F)
    after k = Hoare-weaken forget (Hoare-Keeps k)

    pub gate_failed : (x : Error) (w : World E) → GateSays (err x) w → F w
    unfolding GateSays
    gate_failed x w h = h

    final_retry_failed-Keeps :
        (x y : Error) (g : DeleteGate) (s : StateSnapshot)
        → Keeps F (final_retry_failed T x y g plan s)
    unfolding final_retry_failed
    final_retry_failed-Keeps x y g s =
        search
          (keeps_rules, delete_gate-Keeps T F calls, raise_delete_retry_interrupt-Keeps T F calls)
          depth 9

    rollback_retry_failed-Keeps :
        (a x y : Error) (g : DeleteGate) (s : StateSnapshot)
        → Keeps F (rollback_retry_failed T a x y g plan s)
    unfolding rollback_retry_failed
    rollback_retry_failed-Keeps a x y g s =
        search
          (keeps_rules, delete_gate-Keeps T F calls, raise_delete_retry_interrupt-Keeps T F calls)
          depth 9

    final_delete_failure-Keeps :
        (x : Error) (s : StateSnapshot) → Keeps F (handle_final_delete_failure T x plan s)
    unfolding handle_final_delete_failure
    final_delete_failure-Keeps x s =
        Keeps-if _ _ _
          (Keeps-Hoare (
            Hoare-bind _ _ (delete_gate_says s)
              (λ g.
                Hoare-if (not (is_raw_interrupt x) && retry_safe g) _ _
                  (λ safe.
                    Hoare-weaken (λ w h. gate_opens g _ w safe h)
                      (Hoare-try _ _ _ delete_at_absent (λ _. after (Keeps-pure tt))
                        (λ y. after (final_retry_failed-Keeps _ y g s))))
                  (λ _. pass g (Keeps-raise _)))
              gate_failed))
          (Keeps-raise _)

    pub delete_final_state-Hoare :
        (s : StateSnapshot) → Hoare G (delete_final_state T plan s) (λ _. F)
    unfolding delete_final_state
    delete_final_state-Hoare s =
        Hoare-try _ _ _ delete_at_absent (λ _. after (Keeps-pure tt))
          (λ x. after (final_delete_failure-Keeps x s))

    rollback_delete-Keeps :
        (a x : Error) (s : StateSnapshot) → Keeps F (reconcile_rollback_state_delete T a x plan s)
    unfolding reconcile_rollback_state_delete
    rollback_delete-Keeps a x s =
        Keeps-if _ _ _
          (Keeps-Hoare (
            Hoare-bind _ _ (delete_gate_says s)
              (λ g.
                Hoare-if (not (is_raw_interrupt x) && retry_safe g) _ _
                  (λ safe.
                    Hoare-weaken (λ w h. gate_opens g _ w safe h)
                      (Hoare-try _ _ _ delete_at_absent (λ _. after (Keeps-pure _))
                        (λ y. after (rollback_retry_failed-Keeps _ x y g s))))
                  (λ _. pass g (Keeps-pure _)))
              gate_failed))
          (Keeps-pure _)

    remove_own-Hoare :
        (o : Option StateSnapshot) (a : Error) (s : StateSnapshot)
        → Hoare G (given o (pure (true, a)) (remove_own T a plan s)) (λ _. F)
    unfolding remove_own
    remove_own-Hoare none a s = after (Keeps-pure _)
    remove_own-Hoare (some c) a s =
        Hoare-if (snapshot_beq c s) _ _
          (λ _.
            Hoare-try _ _ _ delete_at_absent (λ _. after (Keeps-pure _))
              (λ x. after (rollback_delete-Keeps a x s)))
          (λ _. after (Keeps-pure _))

    pub remove_rollback_state-Hoare :
        (a : Error) (s : StateSnapshot) → Hoare G (remove_rollback_state T a plan s) (λ _. F)
    unfolding remove_rollback_state
    remove_rollback_state-Hoare a s =
        Hoare-try _ _ _ (load_at_absent plan.name) (λ o. remove_own-Hoare o a s)
          (λ x. after (Keeps-pure _))
