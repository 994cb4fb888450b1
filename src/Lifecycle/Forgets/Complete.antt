-- ===== src/Lifecycle/Forgets/Complete.antt =====
-- lifecycle.py, `_rollback_and_attach`: what the annotation `rollback_complete` tells.
use nslab.Base.{
  String, ◌≡◌, Bool, true, false, not, ◌&&◌, ◌||◌, Option, none, some, List, [], ◌∷◌, ◌++◌, arith,
  if◌then◌else◌, ◌==◌, string_eq, beq_iff,
}
use nslab.Base.Dict.{Dict, lookup, lookup-insert}
use nslab.Json.{Json, bool, arr}
use nslab.Error.{
  Error, nslab_error, operation_cancelled, os_error, exception, keyboard_interrupt, ok,
  is_raw_interrupt, attach,
}
use nslab.Exec.{pure}
use nslab.Exec.Hoare.{
  Hoare, Hoare-weaken, Hoare-if, Hoare-given, Hoare-bind, Hoare-try, OnOk, on_ok, Hoare-pure,
  Hoare-raise, Hoare-seq, Hoare-skip, Hoare-keep,
}
use nslab.Plan.Types.{TopologyPlan}
use nslab.State.Snapshot.{StateSnapshot, snapshot_beq}
use nslab.Lifecycle.Services.{Services}
use nslab.Lifecycle.Reconcile.{
  absent_in, retry_safe, requires_reconciliation, raise_delete_retry_interrupt, DeleteGate,
}
use nslab.Lifecycle.Rollback.{
  to_items, reversed, rollback_inventory, rollback_and_attach, attach_rollback, is_none,
  remove_rollback_state, remove_own, reconcile_rollback_state_delete, rollback_retry_failed,
}
use nslab.Lifecycle.Trace.{World, traced}
use nslab.Lifecycle.Forgets.{
  LastAbsent, T, F, G, forget, delete_gate_says, gate_opens, delete_at_absent, load_at_absent,
}
use nslab.Lifecycle.Forgets.Runs.{
  Ok, read_says, read_absent, rollback_routing-Keeps, rollback_namespaces-Keeps,
}

-- The last note with the key.
abbrev last_note : String → Dict Json → Option Json
last_note k [] = none
last_note k ((j, v) ∷ notes) = elim (last_note k notes) [
  | none ↦ if k == j then some v else none
  | some w ↦ some w
]

-- What an error carries under a key: a detail of the program's errors, a note of any other.
abbrev pub annotation : String → Error → Option Json
annotation k (nslab_error c m d) = lookup k d
annotation k (operation_cancelled m d) = lookup k d
annotation k (os_error t m number notes) = last_note k notes
annotation k (exception t m notes) = last_note k notes
annotation k (keyboard_interrupt m notes) = last_note k notes

last_note-append :
    (k : String) (v : Json) (notes : Dict Json) → last_note k (notes ++ (k, v) ∷ []) ≡ some v
last_note-append k v [] = ground (arith, beq_iff k k)
last_note-append k v ((j, w) ∷ notes) = rw (last_note-append k v notes)

annotation-attach : (k : String) (v : Json) (x : Error) → annotation k (attach x k v) ≡ some v
annotation-attach k v (nslab_error c m d) = ground (arith, lookup-insert k k v d, beq_iff k k)
annotation-attach k v (operation_cancelled m d) = ground (arith, lookup-insert k k v d, beq_iff k k)
annotation-attach k v (os_error t m number notes) = last_note-append k v notes
annotation-attach k v (exception t m notes) = last_note-append k v notes
annotation-attach k v (keyboard_interrupt m notes) = last_note-append k v notes

module _ (plan : TopologyPlan) {E M : Type 0} (S : Services E M) where
  abbrev U : Services (World E) M
  U = T plan S

  -- A flag that says that the state is gone is right.
  IsTrue : Bool × Error → World E → Type 0
  IsTrue (gone, x) w = gone ≡ true → LastAbsent plan w.1

  gone : (x : Error) (w : World E) → G plan S w → IsTrue (true, x) w
  unfolding IsTrue G
  gone x w h q = h.1

  not_gone : {P : World E → Type 0} (x : Error) → Hoare P (pure (false, x)) (OnOk IsTrue)
  unfolding IsTrue
  not_gone x = Hoare-pure _ (λ w h q. ground arith)

  rollback_retry_failed-IsTrue :
      {P : World E → Type 0} (a x y : Error) (g : DeleteGate) (s : StateSnapshot)
      → Hoare P (rollback_retry_failed U a x y g plan s) (OnOk IsTrue)
  unfolding rollback_retry_failed raise_delete_retry_interrupt
  rollback_retry_failed-IsTrue a x y g s =
      Hoare-if (is_raw_interrupt y) _ _ (λ _. Hoare-skip _ _ (λ _. Hoare-raise _))
        (λ _.
          Hoare-if (requires_reconciliation y) _ _ (λ _. Hoare-skip _ _ (λ _. not_gone _))
            (λ _. not_gone _))

  reconcile_delete-IsTrue :
      (a x : Error) (s : StateSnapshot)
      → Hoare (G plan S) (reconcile_rollback_state_delete U a x plan s) (OnOk IsTrue)
  unfolding reconcile_rollback_state_delete
  reconcile_delete-IsTrue a x s =
      Hoare-if (requires_reconciliation x) _ _
        (λ _. Hoare-weaken (forget plan S) (
          Hoare-bind _ _ (delete_gate_says plan S s)
            (λ g.
              Hoare-if (not (is_raw_interrupt x) && retry_safe g) _ _
                (λ safe.
                  Hoare-weaken (λ w h. gate_opens plan S g _ w safe h)
                    (Hoare-try _ _ _ (delete_at_absent plan S) (λ _. Hoare-pure _ (gone _))
                      (λ y. rollback_retry_failed-IsTrue _ x y g s)))
                (λ _. not_gone _))
            (λ y w h. tt)))
        (λ _. not_gone _)

  remove_own-IsTrue :
      (a : Error) (s c : StateSnapshot) → Hoare (G plan S) (remove_own U a plan s c) (OnOk IsTrue)
  unfolding remove_own
  remove_own-IsTrue a s c =
      Hoare-if (snapshot_beq c s) _ _
        (λ _.
          Hoare-try _ _ _ (delete_at_absent plan S) (λ _. Hoare-pure _ (gone _))
            (λ x. reconcile_delete-IsTrue a x s))
        (λ _. not_gone _)

  remove_rollback_state-IsTrue :
      (a : Error) (s : StateSnapshot)
      → Hoare (G plan S) (remove_rollback_state U a plan s) (OnOk IsTrue)
  unfolding remove_rollback_state
  remove_rollback_state-IsTrue a s =
      Hoare-try _ _ _ (load_at_absent plan S plan.name)
        (λ o. Hoare-given o _ _ (λ _. Hoare-pure _ (gone _)) (λ c. remove_own-IsTrue a s c))
        (λ x. not_gone _)

  -- The annotation of the error is right.
  IsRight : Error → World E → Type 0
  IsRight x w = annotation "rollback_complete" x ≡ some (bool true) → LastAbsent plan w.1

  annotated :
      (x : Error) (results : List Json) (complete : Bool) (w : World E)
      → (complete ≡ true → LastAbsent plan w.1)
      → IsRight (attach_rollback U x results complete) w
  unfolding IsRight
  annotated x results complete w h q = h (
      cc (
        q,
        annotation-attach "rollback_complete" (bool complete)
            (attach x "rollback" (arr (to_items results))),
      ))

  rollback_and_attach-IsRight :
      (a : Error) (cs : List String) (s : StateSnapshot)
      → Hoare (Ok plan S) (rollback_and_attach U a plan cs s) (OnOk IsRight)
  unfolding rollback_and_attach IsTrue
  rollback_and_attach-IsRight a cs s = Hoare-keep _ _ (rollback_routing-Keeps plan S) λ routing.
      Hoare-keep _ _ (rollback_namespaces-Keeps plan S (reversed cs) routing) λ acc.
        Hoare-bind _ _ (read_says plan S)
          (λ r.
            Hoare-if
              (not (acc.1 || is_none U (rollback_inventory U a r).0)
                && absent_in U plan (rollback_inventory U a r).0)
              _ _
              (λ q.
                Hoare-weaken (λ w h. read_absent plan S r a acc.1 w q h)
                  (Hoare-seq _ _ (remove_rollback_state-IsTrue _ s)
                    (λ removed. Hoare-pure _ (λ w h. annotated _ _ _ w h))))
              (λ q. Hoare-pure _ (λ w h. annotated _ _ _ w (λ e. ground arith))))
          (λ x w h. tt)

-- Whatever the backend and the store answer, where a rollback hands on an error that is annotated as
-- completely rolled back, the latest inventory it read shows no resource of the plan, and no call has
-- changed the kernel since.
pub rollback_complete_lem :
    {E M : Type 0} (S : Services E M) (plan : TopologyPlan) (error : Error) (created : List String)
    (deploying : StateSnapshot) (e : E) (raised : Error)
    → (rollback_and_attach (traced S) error plan created deploying (e, [])).0 ≡ ok raised
    → annotation "rollback_complete" raised ≡ some (bool true)
    → LastAbsent plan (rollback_and_attach (traced S) error plan created deploying (e, [])).1.1
unfolding T F IsRight
rollback_complete_lem S plan error created deploying e raised q =
    on_ok _ _ _ q ((rollback_and_attach-IsRight plan S error created deploying).at (e, []) tt)
