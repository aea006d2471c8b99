-- ===== src/Cluster.antt =====
-- The cluster controller, controllers/clouddirectortenantcluster_controller.go.
pub mod Object
pub mod Parts
pub mod Delete
pub mod Reconcile
pub mod Kinds
pub mod Calls
pub mod Gone
pub mod Finalizer
pub mod Ready
pub mod Made
pub mod Patch
pub mod Converge
pub mod Crashes
pub mod Cooperation
pub mod Progress
pub mod Endpoint
pub mod Network
