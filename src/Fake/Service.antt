-- ===== src/Fake/Service.antt =====
-- The service of lifecycle.py on the backend of backend/fake.py, beside a store, a lock and a clock that act
-- on a state of their own.
use nslab.Base.{String, ◌≡◌, some, true}
use nslab.Error.{Result, ok, err}
use nslab.Exec.{Exec, attempt, ◌>>=◌}
use nslab.Exec.Keeps.{Keeps, Keeps-pure, Keeps-bind, Keeps-if}
use nslab.Exec.Hoare.{
  Hoare, Hoare-weaken, Hoare-if, Hoare-given, OnOk, Hoare-pure, Hoare-raise, Hoare-skip, Hoare-keep,
  Hoare-seq, Hoare-bind_ok,
}
use nslab.Plan.Types.{TopologyPlan}
use nslab.Inventory.Types.{LiveInventory}
use nslab.Inventory.Whole.{inventory_is_absent}
use nslab.State.Snapshot.{StateSnapshot}
use nslab.Lifecycle.Services.{Services}
use nslab.Lifecycle.Reconcile.{absent_in}
use nslab.Lifecycle.Rollback
use nslab.Lifecycle.Destroy.{
  Cleanup, inventory_cleanup, finish_destroy, tear_down, destroy_existing, destroy_absent,
}
use nslab.Lifecycle.Reads.{ReadsKeep, final_state-Keeps}
use nslab.Fake.{
  create_namespace, delete_namespace, create_bridge, create_veth, start_routing, stop_routing,
  routing_ready, inventory,
}
use nslab.Fake.Configure.{configure_node}
use nslab.Fake.State.{FakeNetworkBackend}
use nslab.Fake.Kept.{Local, Keeps-write, Keeps-read, Keeps-record_call}
use nslab.Fake.Observed.{Vacant, Told, inventory-Told}

module _ {F : Type 0} where
  unfoldable pub on_backend :
      {A : Type 0} → Exec FakeNetworkBackend A → Exec (FakeNetworkBackend × F) A
  on_backend m (b, f) = let (r, b') = m b in (r, (b', f))

  unfoldable pub on_rest : {A : Type 0} → Exec F A → Exec (FakeNetworkBackend × F) A
  on_rest m (b, f) = let (r, f') = m f in (r, (b, f'))

  on_backend-Keeps :
      {A : Type 0} (P : FakeNetworkBackend → Type 0) (m : Exec FakeNetworkBackend A)
      → Keeps P m
      → Keeps (λ w. P w.0) (on_backend m)
  unfolding on_backend
  on_backend-Keeps P m k = record { at = λ (b, f) h. k.at b h }

  on_rest-Keeps :
      {A : Type 0} (P : FakeNetworkBackend → Type 0) (m : Exec F A) → Keeps (λ w. P w.0) (on_rest m)
  unfolding on_rest
  on_rest-Keeps P m = record { at = λ w h. h }

-- Services whose backend is the one in memory; the store, the lock and the clock are those given.
unfoldable pub on_fake : {F M : Type 0} → Services F M → Services (FakeNetworkBackend × F) M
on_fake S = record {
  backend = record {
    create_namespace = λ n. on_backend (create_namespace n);
    delete_namespace = λ n. on_backend (delete_namespace n);
    create_bridge = λ n. on_backend (create_bridge n);
    create_veth = λ l. on_backend (create_veth l);
    configure_node = λ n p. on_backend (configure_node n p);
    start_routing = some (λ p. on_backend (start_routing p));
    stop_routing = some (λ p. on_backend (stop_routing p));
    routing_ready = some (λ p. on_backend (routing_ready p));
    inventory = λ p. on_backend (inventory p);
  };
  store = record {
    load = λ n. on_rest (S.load n);
    save = λ s. on_rest (S.save s);
    delete = λ n. on_rest (S.delete n);
  };
  manifests = S.manifests;
  acquire = λ n. on_rest (S.acquire n);
  release = λ n b. on_rest (S.release n b);
  timestamp = on_rest S.timestamp;
  plan_from_snapshot = S.plan_from_snapshot;
  red = S.red;
  address_text = S.address_text;
}

module _ {F M : Type 0} (S : Services F M) (plan : TopologyPlan) where
  abbrev T : Services (FakeNetworkBackend × F) M
  T = on_fake S

  abbrev Left : FakeNetworkBackend × F → Type 0
  Left w = Vacant plan w.0

  Local-Vacant : Local (Vacant plan)
  Local-Vacant = record { counted = λ b h. h; indexed = λ b h. h }

  inventory-Vacant : (p : TopologyPlan) → Keeps (Vacant plan) (inventory p)
  unfolding inventory
  inventory-Vacant p = Keeps-bind _ _ (Keeps-record_call Local-Vacant _ _) λ a. Keeps-read _

  stop_routing-Vacant : (p : TopologyPlan) → Keeps (Vacant plan) (stop_routing p)
  unfolding stop_routing
  stop_routing-Vacant p =
      Keeps-if _ _ _
        (Keeps-bind _ _ (Keeps-record_call Local-Vacant _ _) λ a. Keeps-write _ λ b h. h)
        (Keeps-pure tt)

  reads : ReadsKeep T Left
  unfolding on_fake
  reads = record {
    keep_load = λ n. on_rest-Keeps (Vacant plan) _;
    keep_inventory = λ p. on_backend-Keeps (Vacant plan) _ (inventory-Vacant p);
  }

  state_delete-Keeps : (n : String) → Keeps Left (T.delete n)
  unfolding on_fake
  state_delete-Keeps n = on_rest-Keeps (Vacant plan) _

  stopping-Keeps : (p : TopologyPlan) → Keeps Left (Rollback.stop_routing T p)
  unfolding on_fake Rollback.stop_routing
  stopping-Keeps p =
      Keeps-if _ _ _ (on_backend-Keeps (Vacant plan) _ (stop_routing-Vacant p)) (Keeps-pure tt)

  told :
      (r : Result LiveInventory) (b : FakeNetworkBackend) (f : F)
      → OnOk (Told plan) r b
      → OnOk (λ (i : LiveInventory) (w : FakeNetworkBackend × F). Told plan i w.0) r (b, f)
  told (ok i) b f h = h
  told (err x) b f h = tt

  -- What an inventory shows as absent is not there.
  observed :
      Hoare
        (λ _. Unit)
        (T.inventory plan)
        (OnOk (λ (i : LiveInventory) (w : FakeNetworkBackend × F). Told plan i w.0))
  unfolding on_fake on_backend
  observed = record {
    at = λ (b, f) h.
        told (inventory plan b).0 (inventory plan b).1 f ((inventory-Told plan).at b tt);
  }

  attempted : Hoare (λ _. Unit) (attempt (T.inventory plan)) (OnOk (λ r w. OnOk (Told plan) r w.0))
  unfolding on_fake on_backend ◌>>=◌
  attempted = record { at = λ (b, f) h. (inventory-Told plan).at b tt }

  absent_tells :
      (r : Result LiveInventory) (c : Cleanup) (b : FakeNetworkBackend)
      → OnOk (Told plan) r b
      → absent_in T plan (inventory_cleanup r c).0 ≡ true
      → Vacant plan b
  absent_tells (ok i) c b h q = h q
  absent_tells (err x) c b h q = absurd (cc q)

  finish_destroy-Vacant :
      (name : String) (s : StateSnapshot) (r : Result LiveInventory) (c : Cleanup)
      → Hoare
          (λ w. OnOk (Told plan) r w.0)
          (finish_destroy T plan name s (inventory_cleanup r c).0 (inventory_cleanup r c).1)
          (OnOk (λ _. Left))
  finish_destroy-Vacant name s r c =
      Hoare-given (inventory_cleanup r c).1.first_error _ _
        (λ z.
          Hoare-if (absent_in T plan (inventory_cleanup r c).0) _ _
            (λ q.
              Hoare-weaken {P = Left} (λ w h. absent_tells r c w.0 h q)
                (Hoare-keep _ _ (final_state-Keeps T Left reads state_delete-Keeps plan s)
                  (λ _. Hoare-pure _ (λ w h. h))))
            (λ _. Hoare-raise _))
        (λ x. Hoare-raise _)

  tear_down-Vacant :
      (name : String) (s : StateSnapshot)
      → Hoare (λ _. Unit) (tear_down T plan name s) (OnOk (λ _. Left))
  unfolding tear_down
  tear_down-Vacant name s =
      Hoare-skip _ _ λ routed.
        Hoare-skip _ _ λ c. Hoare-seq _ _ attempted (λ r. finish_destroy-Vacant name s r c)

  existing-Vacant :
      (name : String) (s : StateSnapshot)
      → S.plan_from_snapshot s ≡ ok plan
      → Hoare (λ _. Unit) (destroy_existing T name s) (OnOk (λ _. Left))
  unfolding destroy_existing on_fake
  existing-Vacant name s q = Hoare-skip _ _ λ _.
      Hoare-skip _ _ λ _. Hoare-bind_ok _ plan _ q (Hoare-skip _ _ (λ _. tear_down-Vacant name _))

  absent-Vacant :
      (name : String) → Hoare (λ _. Unit) (destroy_absent T (some plan) name) (OnOk (λ _. Left))
  unfolding destroy_absent
  absent-Vacant name = Hoare-seq _ _ observed λ i.
      Hoare-if (inventory_is_absent plan i) _ _
        (λ q.
          Hoare-weaken {P = Left} (λ w h. h q)
            (Hoare-keep _ _ (stopping-Keeps plan) (λ _. Hoare-pure _ (λ w h. h))))
        (λ _. Hoare-raise _)

  -- The backend is the one in memory; the store, the lock, the clock and the reading of snapshots are any. Let
  -- the plan be the one that is read from the snapshot. Where a removal returns, over the snapshot or, with
  -- the plan given, without one, the backend has no interface in the root namespace and none of the namespaces
  -- of the plan's nodes.
  pub destroy-Vacant :
      (name : String) (current : StateSnapshot) (b : FakeNetworkBackend) (f : F)
      → S.plan_from_snapshot current ≡ ok plan
      → OnOk
          (λ _ w. Vacant plan w.0)
          (destroy_existing (on_fake S) name current (b, f)).0
          (destroy_existing (on_fake S) name current (b, f)).1
        × OnOk
            (λ _ w. Vacant plan w.0)
            (destroy_absent (on_fake S) (some plan) name (b, f)).0
            (destroy_absent (on_fake S) (some plan) name (b, f)).1
  destroy-Vacant name current b f q =
      ((existing-Vacant name current q).at (b, f) tt, (absent-Vacant name).at (b, f) tt)
