-- ===== src/Names.antt =====
-- util/nameutil/nameutil.go: the names under which a cluster's resources are created and found.
pub mod Injective
use cluster_api_provider_clo.Base.{String, ◌<>◌, if◌then◌else◌}
use cluster_api_provider_clo.Api.{TenantCluster}

abbrev pub Use : Type 0
Use = String

abbrev pub use_control_plane : Use
use_control_plane = "controlplane"

unfoldable pub resource_name : TenantCluster → String
resource_name c = if c.spec.use_uid_for_names then c.metadata.uid else c.metadata.name

unfoldable pub resource_name_with_use : TenantCluster → Use → String
resource_name_with_use c suffix =
    if c.spec.use_uid_for_names
    then (c.metadata.uid <> "-") <> suffix
    else (c.metadata.name <> "-") <> suffix
