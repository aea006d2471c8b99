-- ===== src/Machine.antt =====
-- controllers/clouddirectortenantmachine_controller.go: the reconciliation of a machine.
pub mod Object
pub mod Properties
pub mod Vm
pub mod Provision
pub mod LoadBalancer
pub mod Delete
pub mod Reconcile
pub mod Kinds
pub mod Calls
pub mod Finalizer
pub mod Gates
pub mod Made
pub mod Patch
pub mod Sizing
pub mod Settled
pub mod Answered
pub mod Build
pub mod Finished
pub mod Equipped
pub mod Configured
pub mod Completed
pub mod Sent
pub mod Order
