-- ===== src/Names/Injective.antt =====
-- Names with a suffix and names without one, as keys of a cluster.
use text.Mathlib.TextLemmas.{append_cancel_right}
use cluster_api_provider_clo.Base.{◌≡◌, ◌↔◌, ◌<>◌, sym, arith, ◌∙◌, ap, String}
use cluster_api_provider_clo.Api.{TenantCluster}
use cluster_api_provider_clo.Names.{resource_name, resource_name_with_use, Use}

with_suffix :
    (c : TenantCluster) (suffix : Use)
    → resource_name_with_use c suffix ≡ (resource_name c <> "-") <> suffix
unfolding resource_name resource_name_with_use
with_suffix c suffix = ground arith

-- Two clusters share the name of a resource with a use exactly if they share the plain name: the
-- uid of the one that uses uids, the name of the one that does not.
pub resource_name_with_use_iff :
    (c d : TenantCluster) (suffix : Use)
    → (resource_name_with_use c suffix ≡ resource_name_with_use d suffix)
      ↔ (resource_name c ≡ resource_name d)
resource_name_with_use_iff c d suffix = (
  (λ e.
      append_cancel_right (resource_name c) (resource_name d) "-"
        (append_cancel_right _ _ suffix (sym (with_suffix c suffix) ∙ e ∙ with_suffix d suffix))),
  (λ e.
      with_suffix c suffix
      ∙ ap (λ (name : String). (name <> "-") <> suffix) e
      ∙ sym (with_suffix d suffix)),
)
