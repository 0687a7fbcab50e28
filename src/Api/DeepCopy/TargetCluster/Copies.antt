-- ===== src/Api/DeepCopy/TargetCluster/Copies.antt =====
-- The copies of the types of api/v1alpha1/targetcluster_types.go are deep.
use rancher_operator.Common.{refl}
use rancher_operator.Api.DeepCopy.{Apimachinery, return, flat}
use rancher_operator.Api.DeepCopy.Laws.{
  Rising-append, IsDeep, flat-IsDeep, copy_pointer-IsDeep, copy_slice-IsDeep, CopiesDeeply,
}
use rancher_operator.Api.DeepCopy.TargetCluster.{
  spec_layout, status_layout, target_cluster_layout, list_layout, target_cluster_spec_into,
  target_cluster_status_into, target_cluster_into, target_cluster_list_into,
}

target_cluster_spec_into-IsDeep : IsDeep spec_layout target_cluster_spec_into
target_cluster_spec_into-IsDeep given n =
    let byo = copy_pointer-IsDeep flat return flat-IsDeep given.byo n in
    record { same = rw byo.same refl; fresh = byo.fresh }

module _ (api : Apimachinery) (laws : CopiesDeeply api) where
  target_cluster_status_into-IsDeep : IsDeep (status_layout api) (target_cluster_status_into api)
  target_cluster_status_into-IsDeep given n =
      let conditions =
        copy_slice-IsDeep api.condition api.condition_into laws.condition given.conditions n in
      record { same = rw conditions.same refl; fresh = conditions.fresh }

  pub target_cluster_into-IsDeep : IsDeep (target_cluster_layout api) (target_cluster_into api)
  target_cluster_into-IsDeep given n =
      let meta = laws.object_meta given.meta n in
      let spec = target_cluster_spec_into-IsDeep given.spec _ in
      let status = target_cluster_status_into-IsDeep given.status _ in
      record {
        same = rw (meta.same, spec.same, status.same) refl;
        fresh =
            Rising-append n _ _ _ _ meta.fresh (Rising-append _ _ _ _ _ spec.fresh status.fresh);
      }

  pub target_cluster_list_into-IsDeep : IsDeep (list_layout api) (target_cluster_list_into api)
  target_cluster_list_into-IsDeep given n =
      let meta = laws.list_meta given.meta n in
      let items =
        copy_slice-IsDeep (target_cluster_layout api) (target_cluster_into api)
          target_cluster_into-IsDeep given.items _ in
      record {
        same = rw (meta.same, items.same) refl;
        fresh = Rising-append n _ _ _ _ meta.fresh items.fresh;
      }
