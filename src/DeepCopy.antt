-- ===== src/DeepCopy.antt =====
-- api/v1alpha1/zz_generated.deepcopy.go: copies of the resources in memory.
pub mod Memory
pub mod Parts
pub mod Slices
pub mod Objects
pub mod Copy
pub mod Reads
pub mod Exact
pub mod Lists
pub mod All
