-- ===== src/Lifecycle/Trace.antt =====
-- The history of a run of the service: `traced` hands every call on and writes down that it was made,
-- the latest call first. The proofs about what the service does to the world are about this history.
use nslab.Base.{String, Option, none, some, List, ◌∷◌}
use nslab.Error.{Result, ok, err}
use nslab.Exec.{Exec}
use nslab.Exec.Keeps.{Keeps, Keeps-raise}
use nslab.Plan.Types.{TopologyPlan}
use nslab.Inventory.Types.{LiveInventory}
use nslab.State.Snapshot.{StateSnapshot}
use nslab.Lifecycle.Services.{Services}
use nslab.Lifecycle.Rollback.{chosen}
use nslab.Lifecycle.Frame.{CallsKeep}

pub data Event : Type 0 where
  -- `create_namespace` returned
  created : String → Event
  -- `delete_namespace` was called
  deleted : String → Event
  -- a snapshot was handed to `save`
  saved : StateSnapshot → Event
  -- `delete` of the state store was called
  removed : String → Event
  -- an inventory was read
  observed : LiveInventory → Event
  -- another call that changes the kernel: bridges, veths, configuration, routing
  changed : Event
  -- a call that only reads, or a failed `create_namespace`
  consulted : Event

abbrev pub World : Type 0 → Type 0
World E = E × List Event

unfoldable pub note : {E A : Type 0} → (Result A → Event) → Exec E A → Exec (World E) A
note event m (e, log) = let (r, e') = m e in (r, (e', event r ∷ log))

abbrev pub creation : String → Result (Unit {0}) → Event
creation n (ok _) = created n
creation n (err x) = consulted

abbrev pub observation : Result LiveInventory → Event
observation (ok i) = observed i
observation (err x) = consulted

abbrev pub noted_method :
    {E A : Type 0}
    → Event
    → Option (TopologyPlan → Exec E A)
    → Option (TopologyPlan → Exec (World E) A)
noted_method event none = none
noted_method event (some m) = some (λ p. note (λ _. event) (m p))

unfoldable pub traced : {E M : Type 0} → Services E M → Services (World E) M
traced S = record {
  backend = record {
    create_namespace = λ n. note (creation n.namespace) (S.create_namespace n);
    delete_namespace = λ n. note (λ _. deleted n) (S.delete_namespace n);
    create_bridge = λ n. note (λ _. changed) (S.create_bridge n);
    create_veth = λ l. note (λ _. changed) (S.create_veth l);
    configure_node = λ n p. note (λ _. changed) (S.configure_node n p);
    start_routing = noted_method changed S.start_routing;
    stop_routing = noted_method changed S.stop_routing;
    routing_ready = noted_method consulted S.routing_ready;
    inventory = λ p. note observation (S.inventory p);
  };
  store = record {
    load = λ n. note (λ _. consulted) (S.load n);
    save = λ s. note (λ _. saved s) (S.save s);
    delete = λ n. note (λ _. removed n) (S.delete n);
  };
  manifests = S.manifests;
  acquire = λ n. note (λ _. consulted) (S.acquire n);
  release = λ n b. note (λ _. consulted) (S.release n b);
  timestamp = note (λ _. consulted) S.timestamp;
  plan_from_snapshot = S.plan_from_snapshot;
  red = S.red;
  address_text = S.address_text;
}

-- A predicate on the history.
abbrev pub OnLog : {E : Type 0} → (List Event → Type 0) → World E → Type 0
OnLog Q w = Q w.1

pub Keeps-note :
    {E A : Type 0} (Q : List Event → Type 0) (event : Result A → Event) (m : Exec E A)
    → ((r : Result A) (log : List Event) → Q log → Q (event r ∷ log))
    → Keeps (OnLog Q) (note event m)
unfolding note
Keeps-note Q event m step = record { at = λ w h. step _ _ h }

-- The events of the other calls: all but creations, deletions and removals.
abbrev pub IsNeutral : Event → Type 0
IsNeutral (created n) = ⊥
IsNeutral (deleted n) = ⊥
IsNeutral (saved s) = Unit
IsNeutral (removed n) = ⊥
IsNeutral (observed i) = Unit
IsNeutral changed = Unit
IsNeutral consulted = Unit

abbrev pub Stable : (List Event → Type 0) → Type 0
Stable Q = (e : Event) → IsNeutral e → (log : List Event) → Q log → Q (e ∷ log)

-- A routing method of a backend that may lack it.
pub chosen-Keeps :
    {E M A : Type 0} (S : Services E M) (Q : List Event → Type 0) (e : Event)
    (m : Option (TopologyPlan → Exec E A)) (p : TopologyPlan)
    → ((log : List Event) → Q log → Q (e ∷ log))
    → Keeps (OnLog Q) (chosen (traced S) (noted_method e m) p)
chosen-Keeps S Q e none p step = Keeps-raise _
chosen-Keeps S Q e (some m) p step = Keeps-note Q (λ _. e) (m p) (λ r. step)

module _ {E M : Type 0} (S : Services E M) (Q : List Event → Type 0) (stable : Stable Q) where
  observation-stable :
      (r : Result LiveInventory) (log : List Event) → Q log → Q (observation r ∷ log)
  observation-stable (ok i) log h = stable (observed i) tt log h
  observation-stable (err x) log h = stable consulted tt log h

  pub traced-CallsKeep : CallsKeep (traced S) (OnLog Q)
  unfolding traced
  traced-CallsKeep = record {
    keep_bridge = λ n. Keeps-note Q _ _ (λ _. stable changed tt);
    keep_veth = λ l. Keeps-note Q _ _ (λ _. stable changed tt);
    keep_configure = λ n p. Keeps-note Q _ _ (λ _. stable changed tt);
    keep_start = λ p. chosen-Keeps S Q changed S.start_routing p (stable changed tt);
    keep_stop = λ p. chosen-Keeps S Q changed S.stop_routing p (stable changed tt);
    keep_ready = λ p. chosen-Keeps S Q consulted S.routing_ready p (stable consulted tt);
    keep_inventory = λ p. Keeps-note Q _ _ observation-stable;
    keep_load = λ n. Keeps-note Q _ _ (λ _. stable consulted tt);
    keep_save = λ s. Keeps-note Q _ _ (λ _. stable (saved s) tt);
    keep_timestamp = Keeps-note Q _ _ (λ _. stable consulted tt);
  }
