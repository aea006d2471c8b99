-- ===== src/Examples/CopyRuns.antt =====
-- The deep copy of a list of one cluster, whose status refers to a vApp.
use cluster_api_provider_clo.Api.{ObjectMeta, ListMeta, TenantCluster, ResourceList}
use cluster_api_provider_clo.Base.{
  ◌<◌, ◌≤◌, ℕ, some, none, ◌∷◌, [], refl, arith, if◌then◌else◌, ltb, false, ◌≡◌,
}
use cluster_api_provider_clo.DeepCopy.All.{
  tenant_cluster_list, deep_copy_of, deep_copy-reads, reads_of,
}
use cluster_api_provider_clo.DeepCopy.Lists.{reads_nilable}
use cluster_api_provider_clo.DeepCopy.Memory.{Memory, give}
use cluster_api_provider_clo.DeepCopy.Objects.{Cell, ClusterObject, Items, reference, clusters}
use cluster_api_provider_clo.DeepCopy.Parts.{reads_pointer, reads_value, Framed-value, Copies-value}
use cluster_api_provider_clo.DeepCopy.Reads.{DeepCopies}
use cluster_api_provider_clo.DeepCopy.Slices.{reads_slice, reads_items}
use cluster_api_provider_clo.Examples.Data.{new_cluster}

abbrev library : DeepCopies {Meta = ObjectMeta} {L = ListMeta} {X = Unit {0}} give give give
library = record {
  reads_meta = reads_value;
  reads_list_meta = reads_value;
  meta = Copies-value;
  meta_framed = Framed-value;
  list_meta = Copies-value;
  list_meta_framed = Framed-value;
  condition = Copies-value;
}

abbrev stored : ClusterObject ObjectMeta
stored = record {
  metadata = new_cluster.metadata;
  spec = record {
    control_plane_endpoint = new_cluster.spec.control_plane_endpoint;
    organization = "org";
    virtual_data_center = "vdc";
    edge_gateway = "gateway";
    network = "network";
    service_engine_group = "engines";
    identity_ref = none;
    use_uid_for_names = false;
  };
  status = record {
    ready = false;
    virtual_service = none;
    v_app = some 0;
    ip_set = none;
    pool = none;
    conditions = none;
  };
}

abbrev memory : Memory (Cell ObjectMeta (Unit {0}))
memory = record {
  next = 2;
  cell = λ p.
      if ltb p 1
      then some (reference (record { id = "v-app-id"; name = "v-app" }))
      else some (clusters (stored ∷ []));
}

abbrev list_meta : ListMeta
list_meta = record { resource_version = "7"; continue_token = ""; remaining_item_count = none }

abbrev stored_list : Items ListMeta
stored_list = record { metadata = list_meta; items = some 1 }

abbrev read_list : ResourceList TenantCluster
read_list = record {
  metadata = list_meta;
  items =
      (record new_cluster {
        spec = record new_cluster.spec { identity_ref = none };
        status = record new_cluster.status {
          v_app = some (record { id = "v-app-id"; name = "v-app" });
        };
      })
      ∷ [];
}

stored_list_reads :
    reads_nilable
      (reads_of library tenant_cluster_list)
      0
      2
      memory
      (some stored_list)
      (some read_list)
unfolding reads_nilable reads_slice reads_items reads_pointer
stored_list_reads = (
  refl,
  (
    stored ∷ [],
    ground arith,
    ground arith,
    refl,
    (
      (
        refl,
        (
          (refl, refl, refl, refl, refl, refl, refl, tt),
          (refl, (tt, ((ground arith, ground arith, refl), (tt, (tt, tt))))),
        ),
      ),
      tt,
    ),
  ),
)

-- Memory whose new addresses, or whose old ones, are lost.
kept_below :
    {C : Type 0} (m : Memory C) (p : ℕ) → p < 2 → (if ltb p 2 then m.cell p else none) ≡ m.cell p
kept_below m p b = ground arith

kept_above :
    {C : Type 0} (m : Memory C) (p : ℕ) → 2 ≤ p → (if ltb p 2 then none else m.cell p) ≡ m.cell p
kept_above m p b = ground arith

-- The memory after the copy; then the old addresses are lost, or the new ones.
abbrev after : Memory (Cell ObjectMeta (Unit {0}))
after = (deep_copy_of give give give tenant_cluster_list (some stored_list) memory).1

abbrev old_only : Memory (Cell ObjectMeta (Unit {0}))
old_only = record after { cell = λ p. if ltb p 2 then after.cell p else none }

abbrev new_only : Memory (Cell ObjectMeta (Unit {0}))
new_only = record after { cell = λ p. if ltb p 2 then none else after.cell p }

deep_copy-reads_example :
    let copy = (deep_copy_of give give give tenant_cluster_list (some stored_list) memory).0 in
    reads_nilable (reads_of library tenant_cluster_list) 2 after.next after copy (some read_list)
    × (reads_nilable
          (reads_of library tenant_cluster_list)
          0
          2
          old_only
          (some stored_list)
          (some read_list)
        × reads_nilable
            (reads_of library tenant_cluster_list)
            2
            after.next
            new_only
            copy
            (some read_list))
deep_copy-reads_example =
    deep_copy-reads library tenant_cluster_list (some stored_list) (some read_list) memory old_only
      new_only stored_list_reads (λ p a b. kept_below after p b) (λ p a b. kept_above after p a)
