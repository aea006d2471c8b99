-- ===== src/Lib.antt =====
-- A cluster-api infrastructure provider for VMware Cloud Director: two Kubernetes controllers
-- that build and remove the parts of a cluster (firewall group, load balancer pool, virtual
-- service, vApp) and its virtual machines, with the helpers that they share.
--
-- The parts and their files:
-- - Api, Api/Conditions: the resources of api/v1alpha1 (clouddirectortenantcluster_types.go,
--   clouddirectortenantmachine_types.go, clouddirectortenantmachinetemplate_types.go,
--   condition_consts.go), and what the controllers read of cluster-api's resources.
-- - World: Kubernetes, Cloud Director and the libraries. None of it is code of the repository, so
--   it is a parameter: World/Calls has one constructor for each call that the code makes, and
--   `World.answer` gives the result of a call after any trace of earlier calls.
-- - Flow: a handler as a state monad on the object in memory and the trace of calls, which goes
--   on, returns (ctrl.Result, error) or crashes on a nil pointer. `defer` is Go's defer of the
--   patch. Flow/Rules and Flow/Triples carry invariants and postconditions through do blocks,
--   Flow/Steady total correctness in a world that grants what is asked for.
-- - Vcdutil: util/vcdutil/vcdutil.go (`IgnoreNotFound`) and the two look-up idioms around it.
-- - Names: util/nameutil/nameutil.go (`ResourceName`, `ResourceNameWithUse`).
-- - ClientCache: util/clientcache/clientcache.go (`GetVCDClient`, `getTokenRemainingTTL`) as one
--   handler. ClientCache/Concurrent has its part under the mutex again, as the moves of any number
--   of goroutines over the shared cache, in any order.
--   ClientCache/Metrics: util/clientcache/metrics.go, `CollectMetrics` over any gauge vector and
--   in Metrics/Setup the options and `NewPrometheusMetrics`.
-- - CloudInit: util/cloudinit/cloudinit.go (`ExecuteCloudInitTemplate` and its template).
-- - Disks: `diskSectionFromTenantMachine` of controllers/clouddirectortenantmachine_controller.go.
-- - Cluster: controllers/clouddirectortenantcluster_controller.go. Reconcile has `Reconcile` and
--   `patchTenantCluster`, Parts the four parts, Delete `reconcileDelete`; the other files hold
--   proofs, one file for each subject. Cooperation and Delete/Granted say what a world grants;
--   Progress has the runs one after the other, each on the object that the last one patched.
-- - Machine: controllers/clouddirectortenantmachine_controller.go. Reconcile has `Reconcile` and
--   `patchTenantMachine`, Provision and Vm the building of a virtual machine, Properties its user
--   data and metadata, LoadBalancer its membership, Delete `reconcileDelete`; the other files hold
--   proofs. Equipped and Delete/Granted say what a world grants.
-- - Controllers: both controllers on one trace, request after request. Inventory reads off a trace
--   what has been made in Cloud Director; Inventory/Rules and Inventory/Seek carry it through do
--   blocks, Cluster/Made and Machine/Made through the two controllers.
-- - Startup: main.go (`main`) and `SetupWithManager` of both controllers, as steps of a process that
--   goes on, exits with a status or panics; Startup/Steps has the process and the libraries that it
--   calls, Startup/Ticker the goroutine of `main` that collects the metrics.
-- - DeepCopy: api/v1alpha1/zz_generated.deepcopy.go on a memory with pointers. Memory, Parts and
--   Slices say what a deep copy of a pointer, of a slice and of one part after the other is; Objects
--   has the types as they lie in memory, Reads how they stand for the resources of Api, Copy the
--   functions `DeepCopyInto`, All `DeepCopy` of each type; Exact and Lists hold proofs.
-- - Base: shared names, tests and list lemmas. Examples: concrete runs.
--
-- Bounds: every loop is over a list and is recursion on it; no handler needs fuel. A number of
-- the template is printed with as many steps as its value plus one, more than it has digits. The
-- sums of unit numbers and of the hash wrap at their widths, and so do the seconds of a token's
-- expiration, while the duration until then stops at the bounds of 64 bits. Three runs are as many
-- as a cluster needs (finalizer, endpoint, parts). Eleven steps are those of a holder of the mutex
-- (five) and of the goroutine behind it (six).
--
-- Not modelled: logging, but for the errors that main.go logs; signals, and the wait for the caches
-- before the first collection; the registration with the scheme in init; the methods that get and set
-- conditions; and the nil children of a response beyond those that the files mention.
pub mod Base
pub mod Api
pub mod World
pub mod Flow
pub mod Inventory
pub mod Controllers
pub mod Startup
pub mod DeepCopy
pub mod Vcdutil
pub mod Names
pub mod ClientCache
pub mod Disks
pub mod CloudInit
pub mod Cluster
pub mod Machine
pub mod Examples
