-- ===== src/Examples.antt =====
-- Concrete runs of the program.
pub mod Data
mod ClusterRuns
mod MachineRuns
mod UtilRuns
mod Granting
mod GrantedRuns
mod CacheRuns
mod HostedRuns
mod Recalling
mod StartRuns
mod CopyRuns
