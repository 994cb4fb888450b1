-- ===== src/Lib.antt =====
-- nslab builds network laboratories from Linux network namespaces: a manifest is compiled to a plan,
-- and a service deploys the plan, removes it, and keeps a snapshot of what it owns. This library
-- models the plan, the comparison of a plan with an observed inventory, and the service.
--
-- Parts and files
--   Base        shared names: Boolean tests, equality as an instance, dictionaries as association
--               lists with Python's order of insertion, signed integers.
--   Json        the JSON values of error details and snapshots.
--   Error       src/nslab/errors.py, and the payload functions of src/nslab/lifecycle.py: errors
--               are values, with one constructor for each class that the service tells apart.
--   Exec        methods as functions from the state of the world to a result and a new state; the
--               state comes back with an error too. Exec/Keeps and Exec/Hoare are rules for
--               invariants and for what holds afterwards.
--   Plan        src/nslab/planner.py: Types has the plan records, Address the values of Python's
--               ipaddress, Mtu the *_device_mtu functions, Interfaces the node_interface_* functions
--               and node_route_tables, Equality the == of the dataclasses.
--   Inventory   src/nslab/backend/base.py: Types has the inventory records, Expected
--               expected_routes and _expected_interfaces, Match the comparison of interfaces, queueing
--               disciplines (with src/nslab/backend/tc_qdisc.py), routes, neighbors and sysctls, Links
--               _links_match and recorded_link_ids_match_inventory, Whole inventory_matches_plan and
--               the _inventory_is_absent of src/nslab/lifecycle.py. Whole/Interfaces, Whole/Neighbors and
--               Whole/Shown describe what a plan asks of an inventory.
--   State       src/nslab/state.py: Snapshot the snapshot, Codec its JSON document (to_dict, from_dict),
--               Files the calls of os and tempfile on a disk, Store save, load and delete, Lock the
--               class DeploymentLock. Store/Cleanup, Store/Stages and Store/Atomic prove what save
--               does to its file, Store/Removal what delete does, Store/Others that other files stay,
--               Store/Reload that load reads what save wrote; Lock/Polling and Lock/Entering are on
--               the loop that asks for the lock.
--   Tc          src/nslab/tc.py: rates and sizes as text. Decimal prints and reads numbers, RoundTrip,
--               Sizes and Rates prove what is read back.
--   Lifecycle   src/nslab/lifecycle.py: Services is what the service is given; Guards the errors and
--               guards; Ownership _interface_ownership; Reconcile what follows an uncertain outcome;
--               Rollback, Deploy and Destroy the operations. Trace writes down the calls of a run;
--               Reads, Frame, Removals, Kept, Owned, Undone, Forgets, Deployed, Cleanup, Destroyed
--               and Quiet prove what holds of them.
--   Fake        src/nslab/backend/fake.py: Fake/State the state of FakeNetworkBackend and its helpers, Fake
--               the operations, Fake/Devices and Fake/Configure configure_node, Fake/Calls sequences of
--               calls. Paired has the invariant of the veth pairs; Kept, Veths,
--               Configured, Dropped and Removal are on the operations and it, Pairs and Unlinked on
--               the table of peers; Observed is on inventory.
--               Fake/Service puts the backend under the service of Lifecycle, as one world with the state
--               of the store.
--   Executor    src/nslab/executor.py: the guard on a command, and its call.
--   Tests       runs on small topologies.
--
-- How they interact: the service calls the backend and the state store through the record Services,
-- whose fields act on an arbitrary world; the theorems on the service hold for every such record,
-- so for every answer and every error of the kernel and the file system. `traced` adds to the world
-- the list of the calls made, the latest first, and the theorems speak of this list. A deployment
-- compares the observed inventory with the plan by inventory_matches_plan, and a rollback and a
-- removal ask _inventory_is_absent of it.
--
-- The backend of src/nslab/backend/fake.py is one such world: Fake.Service.on_fake gives the service its
-- operations, and a store, a lock and a clock beside it. Fake.Observed connects its inventory with its state.
--
-- The files of the store and the lock act on a disk of their own (State.Files.Disk), which says for each
-- call in turn whether it goes well or is stopped by a fault, before or after its effect: an OSError,
-- another exception, or one that a signal raises. A theorem about every disk is one about every order
-- of faults.
--
-- Bounds: every loop of the source goes through a list, but for that of DeploymentLock.__enter__, which
-- runs on fuel. It is given two rounds more than the time-out has milliseconds: a round that does not
-- end the loop sleeps for at least one. Times are whole milliseconds. Numbers are unbounded, as in
-- Python; a computed MTU is a signed integer.
--
-- Not modelled: exceptions other than Exception and KeyboardInterrupt, which no handler of the service
-- catches; the identity of exception objects, and the JSON text of a note; floats, which occur only in
-- the RED options, through the parameter RedOptions; str() of an address, the clock, the lock,
-- compile_plan, manifest_fingerprint, normalized_manifest and validate_snapshot, which are fields of
-- Services. The text of a JSON document (json.dumps and json.load) is a pair of parameters of the store.
-- Of src/nslab, manifest.py, snapshot.py, routing.py, naming.py and the compilation of planner.py have no
-- model here; backend/pyroute2.py, inspector.py, graph.py, completion.py and cli.py are input and output.
pub mod Base
pub mod Json
pub mod Tc
pub mod Error
pub mod Plan
pub mod Inventory
pub mod State
pub mod Exec
pub mod Executor
pub mod Fake
pub mod Lifecycle
pub mod Tests
