-- ===== src/Lifecycle/Undone.antt =====
-- lifecycle.py, `deploy`: a deployment whose build fails gives back every namespace that it created.
use nslab.Lifecycle.Kept.{IsOther, calls, removals}
use nslab.Lifecycle.Removals.{
  remove_state-Keeps, rollback_namespaces-Keeps, rollback_and_attach-Keeps,
}
use nslab.Base.{String, ◌≡◌, inl, inr, Bool, List, [], ◌∷◌, ◌++◌, In, ap}
use nslab.Base.Dict.{values}
use nslab.Base.Membership.{In-append_iff}
use nslab.Json.{Json}
use nslab.Error.{Error, Result, ok, err}
use nslab.Exec.{Exec, pure, attempt, ◌>>=◌}
use nslab.Exec.Keeps.{Keeps, keeps_rules, Keeps-bind, Keeps-raise}
use nslab.Exec.Hoare.{Hoare, Hoare-Keeps, Hoare-if, Hoare-bind, Hoare-try}
use nslab.Plan.Types.{NodePlan, TopologyPlan}
use nslab.Inventory.Types.{LiveInventory}
use nslab.State.Snapshot.{StateSnapshot}
use nslab.Lifecycle.Services.{Services}
use nslab.Lifecycle.Rollback.{
  reversed, rollback_routing, rollback_namespaces, rollback_and_attach, has_routing,
}
use nslab.Lifecycle.Deploy.{
  create_namespaces, created_then, Building, then_build, build, conclude, build_and_conclude,
}
use nslab.Lifecycle.Frame.{build_up-Keeps}
use nslab.Lifecycle.Destroyed.{In-reversed_onto}
use nslab.Lifecycle.Trace.{
  Event, created, deleted, saved, removed, observed, changed, consulted, World, note, traced, OnLog,
  creation,
}

-- One namespace that was created.
module _ (n : String) where
  -- It was created only if it is in the list.
  abbrev Listed : List String → List Event → Type 0
  Listed cs log = In (created n) log → In n cs

  abbrev Attempted : List Event → Type 0
  Attempted log = In (deleted n) log

  Listed-step :
      (cs : List String) (e : Event)
      → IsOther e
      → (log : List Event) → Listed cs log
      → Listed cs (e ∷ log)
  Listed-step cs (created m) o log h at = elim o [ ]
  Listed-step cs (deleted m) o log h at = elim at [ inl e ↦ cc | inr there ↦ h there ]
  Listed-step cs (saved s) o log h at = elim at [ inl e ↦ cc | inr there ↦ h there ]
  Listed-step cs (removed m) o log h at = elim at [ inl e ↦ cc | inr there ↦ h there ]
  Listed-step cs (observed i) o log h at = elim at [ inl e ↦ cc | inr there ↦ h there ]
  Listed-step cs changed o log h at = elim at [ inl e ↦ cc | inr there ↦ h there ]
  Listed-step cs consulted o log h at = elim at [ inl e ↦ cc | inr there ↦ h there ]

  Attempted-step :
      (e : Event) → IsOther e → (log : List Event) → Attempted log → Attempted (e ∷ log)
  Attempted-step e o log h = inr h

  abbrev IsOk : {A W : Type 0} → Result A → W → Type 0
  IsOk (ok a) w = Unit
  IsOk (err x) w = ⊥

  pure-IsOk : {A W : Type 0} {P : W → Type 0} (a : A) → Hoare P (pure a) IsOk
  unfolding ◌>>=◌
  pure-IsOk a = record { at = λ w h. tt }

  module _ {E M : Type 0} (S : Services E M) where
    abbrev U : Services (World E) M
    U = traced S

    abbrev Gone : World E → Type 0
    Gone = OnLog Attempted

    rollback_routing-IsOk : (p : TopologyPlan) → Hoare (λ _. Unit) (rollback_routing U p) IsOk
    rollback_routing-IsOk p =
        Hoare-if (has_routing p) _ _
          (λ _.
            Hoare-try {Q = λ _ _. Unit} _ _ _ (record { at = λ w h. tt }) (λ a. pure-IsOk _)
              (λ x. pure-IsOk _))
          (λ _. pure-IsOk _)

    attempt-IsOk : {A : Type 0} (m : Exec (World E) A) → Hoare (λ _. Unit) (attempt m) IsOk
    unfolding ◌>>=◌
    attempt-IsOk m = record { at = λ w h. tt }

    delete-Gone :
        (m : String) → n ≡ m → Hoare (λ _. Unit) (attempt (U.delete_namespace m)) (λ _. Gone)
    unfolding traced note ◌>>=◌
    delete-Gone m e = record { at = λ w h. inl (ap deleted e) }

    rollback_namespaces-Gone :
        (ns : List String) (acc : List Json × Bool)
        → In n ns
        → Hoare (λ _. Unit) (rollback_namespaces U ns acc) (λ _. Gone)
    unfolding rollback_namespaces
    rollback_namespaces-Gone [] acc at = elim at [ ]
    rollback_namespaces-Gone (m ∷ ns) acc (inl e) =
        Hoare-bind _ _ (delete-Gone m e)
          (λ outcome. Hoare-Keeps (
            rollback_namespaces-Keeps (traced S) (OnLog Attempted)
              (removals S Attempted Attempted-step) ns _))
          (λ x w h. h)
    rollback_namespaces-Gone (m ∷ ns) acc (inr at) =
        Hoare-bind _ _ (attempt-IsOk _) (λ outcome. rollback_namespaces-Gone ns _ at)
          (λ x w h. elim h [ ])

    rollback_and_attach-Gone :
        (a : Error) (p : TopologyPlan) (cs : List String) (s : StateSnapshot)
        → In n cs
        → Hoare (λ _. Unit) (rollback_and_attach U a p cs s) (λ _. Gone)
    unfolding rollback_and_attach
    rollback_and_attach-Gone a p cs s at =
        Hoare-bind _ _ (rollback_routing-IsOk p)
          (λ routing.
            Hoare-bind _ _
              (rollback_namespaces-Gone (reversed cs) routing (In-reversed_onto n cs [] at))
              (λ acc. Hoare-Keeps (
                search
                  (
                    keeps_rules,
                    remove_state-Keeps (traced S) (OnLog Attempted)
                        (removals S Attempted Attempted-step),
                    (calls S Attempted Attempted-step).keep_inventory,
                  )
                  depth 9))
              (λ x w h. h))
          (λ x w h. elim h [ ])

    rollback_and_attach-Listed :
        (a : Error) (p : TopologyPlan) (cs : List String) (s : StateSnapshot)
        → Keeps (OnLog (Listed cs)) (rollback_and_attach U a p cs s)
    rollback_and_attach-Listed a p cs s =
        rollback_and_attach-Keeps (traced S) (OnLog (Listed cs))
          (removals S (Listed cs) (Listed-step cs)) a p cs s

    -- The list that is handed on names the namespace, if it was created.
    abbrev IsListed : {A : Type 0} → (Result A × List String) × World E → Type 0
    IsListed ((r, cs), w) = Listed cs w.1

    created_then-IsListed :
        (m : NodePlan) (rest : List String → Building (World E) Unit)
        → ((cs : List String) (w : World E) → Listed cs w.1 → IsListed (rest cs w))
        → (cs : List String) (r : Result (Unit {0})) (e : E) (log : List Event) → Listed cs log
        → IsListed (created_then U m rest cs (r, (e, creation m.namespace r ∷ log)))
    created_then-IsListed m rest ih cs (ok u) e log h =
        ih (cs ++ (m.namespace ∷ [])) (e, _)
          λ at.
            (In-append_iff n cs (m.namespace ∷ [])).1
              elim at [ inl same ↦ inr (inl cc) | inr there ↦ inl (h there) ]
    created_then-IsListed m rest ih cs (err x) e log h = Listed-step cs consulted tt log h

    create_namespaces-IsListed :
        (ns : List NodePlan) (cs : List String) (w : World E)
        → Listed cs w.1
        → IsListed (create_namespaces U ns cs w)
    unfolding create_namespaces traced note
    create_namespaces-IsListed [] cs w h = h
    create_namespaces-IsListed (m ∷ ns) cs (e, log) h =
        created_then-IsListed m (create_namespaces U ns) (create_namespaces-IsListed ns) cs
          (S.create_namespace m e).0 (S.create_namespace m e).1 log h

    then_build-IsListed :
        (p : TopologyPlan) (x : (Result (Unit {0}) × List String) × World E)
        → IsListed x
        → IsListed (then_build U p x)
    then_build-IsListed p ((err x, cs), w) h = h
    then_build-IsListed p ((ok u, cs), w) h =
        (build_up-Keeps U (OnLog (Listed cs)) (calls S (Listed cs) (Listed-step cs)) p).at w h

    build-IsListed : (p : TopologyPlan) (e : E) → IsListed (build U p (e, []))
    unfolding build
    build-IsListed p e =
        then_build-IsListed p (create_namespaces U (values p.nodes) [] (e, []))
          (create_namespaces-IsListed (values p.nodes) [] (e, []) (λ at. at))

    conclude-Gone :
        (p : TopologyPlan) (m : M) (t : String) (s : StateSnapshot) (r : Result LiveInventory)
        (cs : List String) (w : World E) {x : Error}
        → r ≡ err x
        → Listed cs w.1
        → In (created n) (conclude U p m t s r cs w).1.1
        → In (deleted n) (conclude U p m t s r cs w).1.1
    unfolding conclude
    conclude-Gone p m t s (ok i) cs w q h at = cc
    conclude-Gone p m t s (err y) cs w q h at =
        let listed =
          (Keeps-bind {P = OnLog (Listed cs)} _ _ (rollback_and_attach-Listed y p cs s)
              (λ a. Keeps-raise a)).at
            w h at in
        (Hoare-bind _ _ (rollback_and_attach-Gone y p cs s listed)
            (λ a. Hoare-Keeps (Keeps-raise a)) (λ x w g. g)).at
          w tt

-- Whatever the backend and the store answer, where the part of a deployment that creates and verifies
-- the resources fails, `delete_namespace` was called, by the end of the deployment, for each
-- namespace whose creation had returned.
pub build_and_conclude-Undone :
    {E M : Type 0} (S : Services E M) (plan : TopologyPlan) (manifest : M) (created_at : String)
    (first : StateSnapshot) (e : E) (x : Error) (n : String)
    → (build (traced S) plan (e, [])).0.0 ≡ err x
    → In (created n) (build_and_conclude (traced S) plan manifest created_at first (e, [])).1.1
    → In (deleted n) (build_and_conclude (traced S) plan manifest created_at first (e, [])).1.1
unfolding build_and_conclude
build_and_conclude-Undone S plan manifest created_at first e x n q at =
    let ((r, cs), w) = build (traced S) plan (e, []) in
    conclude-Gone n S plan manifest created_at first r cs w {x = x} q (build-IsListed n S plan e) at
