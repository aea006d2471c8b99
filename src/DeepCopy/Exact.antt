-- ===== src/DeepCopy/Exact.antt =====
-- The copies of clusters and machines, put together from those of their parts.
use cluster_api_provider_clo.Api.Conditions.{Condition}
use cluster_api_provider_clo.DeepCopy.Memory.{Act}
use cluster_api_provider_clo.DeepCopy.Copy.{
  copy_cluster_spec, copy_cluster_status, copy_cluster, copy_machine_spec, copy_machine_status,
  copy_machine,
}
use cluster_api_provider_clo.DeepCopy.Objects.{
  Cell, reference, identity, condition_arrays, address_arrays, disk_arrays,
}
use cluster_api_provider_clo.DeepCopy.Parts.{
  reads_value, Framed-value, Exact, Exact-pointer, Exact-value, Exact-pair,
}
use cluster_api_provider_clo.DeepCopy.Reads.{
  DeepCopies, reads_cluster_spec, reads_cluster_status, reads_cluster, reads_machine_spec,
  reads_machine_status, reads_machine,
}
use cluster_api_provider_clo.DeepCopy.Slices.{Exact-slice, reads_slice, copy_slice}

module _ {Meta L X : Type 0} {copy_meta : Meta → Act (Cell Meta X) Meta}
    {copy_list_meta : L → Act (Cell Meta X) L}
    {copy_condition : Condition → Act (Cell Meta X) Condition}
    (library : DeepCopies copy_meta copy_list_meta copy_condition) where
  pub Exact-cluster_spec : Exact (reads_cluster_spec library) copy_cluster_spec
  unfolding copy_cluster_spec
  Exact-cluster_spec =
      let identity_exact = Exact-pointer identity in
      record {
        copies = record {
          grows = λ s h. identity_exact.copies.grows s.identity_ref h;
          copied = λ s a lo hi h w (c1, c2, c3, c4, c5, c6, c7, r). (
            c1,
            c2,
            c3,
            c4,
            c5,
            c6,
            c7,
            identity_exact.copies.copied s.identity_ref a.identity_ref lo hi h w r,
          );
        };
        framed = record {
          frame = λ lo hi lo' hi' h h' s a l u e (c1, c2, c3, c4, c5, c6, c7, r). (
            c1,
            c2,
            c3,
            c4,
            c5,
            c6,
            c7,
            identity_exact.framed.frame lo hi lo' hi' h h' _ _ l u e r,
          );
        };
      }

  pub Exact-machine_spec : Exact (reads_machine_spec library) copy_machine_spec
  unfolding copy_machine_spec
  Exact-machine_spec =
      let disks_exact = Exact-slice disk_arrays Exact-value in
      record {
        copies = record {
          grows = λ s h. disks_exact.copies.grows s.additional_disks h;
          copied = λ s a lo hi h w (c1, c2, c3, c4, c5, c6, c7, r). (
            c1,
            c2,
            c3,
            c4,
            c5,
            c6,
            c7,
            disks_exact.copies.copied s.additional_disks a.additional_disks lo hi h w r,
          );
        };
        framed = record {
          frame = λ lo hi lo' hi' h h' s a l u e (c1, c2, c3, c4, c5, c6, c7, r).
              (c1, c2, c3, c4, c5, c6, c7, disks_exact.framed.frame lo hi lo' hi' h h' _ _ l u e r);
        };
      }

  Exact-conditions :
      Exact (reads_slice condition_arrays reads_value) (copy_slice condition_arrays copy_condition)
  Exact-conditions =
      Exact-slice condition_arrays (record { copies = library.condition; framed = Framed-value })

  pub Exact-cluster_status :
      Exact (reads_cluster_status library) (copy_cluster_status copy_condition)
  unfolding copy_cluster_status
  Exact-cluster_status =
      let ref = Exact-pointer reference in
      let parts =
        Exact-pair ref (Exact-pair ref (Exact-pair ref (Exact-pair ref Exact-conditions))) in
      record {
        copies = record {
          grows = λ s h.
              parts.copies.grows (s.virtual_service, (s.v_app, (s.ip_set, (s.pool, s.conditions))))
                h;
          copied = λ s a lo hi h w (c, r). (
            c,
            parts.copies.copied (s.virtual_service, (s.v_app, (s.ip_set, (s.pool, s.conditions))))
                (a.virtual_service, (a.v_app, (a.ip_set, (a.pool, a.conditions)))) lo hi h w r,
          );
        };
        framed = record {
          frame = λ lo hi lo' hi' h h' s a l u e (c, r). (
            c,
            parts.framed.frame lo hi lo' hi' h h'
                (s.virtual_service, (s.v_app, (s.ip_set, (s.pool, s.conditions))))
                (a.virtual_service, (a.v_app, (a.ip_set, (a.pool, a.conditions)))) l u e r,
          );
        };
      }

  pub Exact-machine_status :
      Exact (reads_machine_status library) (copy_machine_status copy_condition)
  unfolding copy_machine_status
  Exact-machine_status =
      let parts = Exact-pair (Exact-slice address_arrays Exact-value) Exact-conditions in
      record {
        copies = record {
          grows = λ s h. parts.copies.grows (s.addresses, s.conditions) h;
          copied = λ s a lo hi h w (c, r). (
            c,
            parts.copies.copied (s.addresses, s.conditions) (a.addresses, a.conditions) lo hi h w r,
          );
        };
        framed = record {
          frame = λ lo hi lo' hi' h h' s a l u e (c, r). (
            c,
            parts.framed.frame lo hi lo' hi' h h' (s.addresses, s.conditions)
                (a.addresses, a.conditions) l u e r,
          );
        };
      }

  pub Exact-meta : Exact library.reads_meta copy_meta
  Exact-meta = record { copies = library.meta; framed = library.meta_framed }

  pub Exact-cluster : Exact (reads_cluster library) (copy_cluster copy_meta copy_condition)
  unfolding copy_cluster
  Exact-cluster =
      let parts = Exact-pair Exact-meta (Exact-pair Exact-cluster_spec Exact-cluster_status) in
      record {
        copies = record {
          grows = λ s h. parts.copies.grows (s.metadata, (s.spec, s.status)) h;
          copied = λ s a.
              parts.copies.copied (s.metadata, (s.spec, s.status)) (a.metadata, (a.spec, a.status));
        };
        framed = record {
          frame = λ lo hi lo' hi' h h' s a.
              parts.framed.frame lo hi lo' hi' h h' (s.metadata, (s.spec, s.status))
                (a.metadata, (a.spec, a.status));
        };
      }

  pub Exact-machine : Exact (reads_machine library) (copy_machine copy_meta copy_condition)
  unfolding copy_machine
  Exact-machine =
      let parts = Exact-pair Exact-meta (Exact-pair Exact-machine_spec Exact-machine_status) in
      record {
        copies = record {
          grows = λ s h. parts.copies.grows (s.metadata, (s.spec, s.status)) h;
          copied = λ s a.
              parts.copies.copied (s.metadata, (s.spec, s.status)) (a.metadata, (a.spec, a.status));
        };
        framed = record {
          frame = λ lo hi lo' hi' h h' s a.
              parts.framed.frame lo hi lo' hi' h h' (s.metadata, (s.spec, s.status))
                (a.metadata, (a.spec, a.status));
        };
      }
