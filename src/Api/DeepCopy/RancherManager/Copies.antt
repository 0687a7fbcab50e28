-- ===== src/Api/DeepCopy/RancherManager/Copies.antt =====
-- The copies of the types of api/v1alpha1/ranchermanager_types.go are deep.
use rancher_operator.Common.{refl}
use rancher_operator.Api.DeepCopy.{Apimachinery, return, flat}
use rancher_operator.Api.DeepCopy.Laws.{
  Rising-append, IsDeep, flat-IsDeep, copy_pointer-IsDeep, copy_slice-IsDeep, CopiesDeeply,
}
use rancher_operator.Api.DeepCopy.RancherManager.{
  tls_layout, rancher_tls_into, spec_layout, status_layout, rancher_manager_layout, list_layout,
  rancher_manager_spec_into, rancher_manager_status_into, rancher_manager_into,
  rancher_manager_list_into,
}

rancher_tls_into-IsDeep : IsDeep tls_layout rancher_tls_into
rancher_tls_into-IsDeep given n =
    let lets_encrypt = copy_pointer-IsDeep flat return flat-IsDeep given.lets_encrypt n in
    let secret = copy_pointer-IsDeep flat return flat-IsDeep given.secret _ in
    record {
      same = rw (lets_encrypt.same, secret.same) refl;
      fresh = Rising-append n _ _ _ _ lets_encrypt.fresh secret.fresh;
    }

rancher_manager_spec_into-IsDeep : IsDeep spec_layout rancher_manager_spec_into
rancher_manager_spec_into-IsDeep given n =
    let prerequisites = copy_pointer-IsDeep flat return flat-IsDeep given.prerequisites_ref n in
    let tls = rancher_tls_into-IsDeep given.tls _ in
    record {
      same = rw (prerequisites.same, tls.same) refl;
      fresh = Rising-append n _ _ _ _ prerequisites.fresh tls.fresh;
    }

module _ (api : Apimachinery) (laws : CopiesDeeply api) where
  rancher_manager_status_into-IsDeep : IsDeep (status_layout api) (rancher_manager_status_into api)
  rancher_manager_status_into-IsDeep given n =
      let upgrades = copy_slice-IsDeep flat return flat-IsDeep given.available_upgrades n in
      let conditions =
        copy_slice-IsDeep api.condition api.condition_into laws.condition given.conditions _ in
      record {
        same = rw (upgrades.same, conditions.same) refl;
        fresh = Rising-append n _ _ _ _ upgrades.fresh conditions.fresh;
      }

  pub rancher_manager_into-IsDeep : IsDeep (rancher_manager_layout api) (rancher_manager_into api)
  rancher_manager_into-IsDeep given n =
      let meta = laws.object_meta given.meta n in
      let spec = rancher_manager_spec_into-IsDeep given.spec _ in
      let status = rancher_manager_status_into-IsDeep given.status _ in
      record {
        same = rw (meta.same, spec.same, status.same) refl;
        fresh =
            Rising-append n _ _ _ _ meta.fresh (Rising-append _ _ _ _ _ spec.fresh status.fresh);
      }

  pub rancher_manager_list_into-IsDeep : IsDeep (list_layout api) (rancher_manager_list_into api)
  rancher_manager_list_into-IsDeep given n =
      let meta = laws.list_meta given.meta n in
      let items =
        copy_slice-IsDeep (rancher_manager_layout api) (rancher_manager_into api)
          rancher_manager_into-IsDeep given.items _ in
      record {
        same = rw (meta.same, items.same) refl;
        fresh = Rising-append n _ _ _ _ meta.fresh items.fresh;
      }
