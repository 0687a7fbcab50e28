-- ===== src/Api/DeepCopy/ClusterPrerequisites/Copies.antt =====
-- The copies of the types of api/v1alpha1/clusterprerequisites_types.go are deep.
use rancher_operator.Common.{refl}
use rancher_operator.Api.DeepCopy.{Apimachinery, return, flat}
use rancher_operator.Api.DeepCopy.Laws.{
  Rising-append, IsDeep, flat-IsDeep, copy_pointer-IsDeep, copy_slice-IsDeep, CopiesDeeply,
}
use rancher_operator.Api.DeepCopy.ClusterPrerequisites.{
  load_balancer_layout, load_balancer_component_into, spec_layout, status_layout,
  cluster_prerequisites_layout, list_layout, cluster_prerequisites_spec_into,
  cluster_prerequisites_status_into, cluster_prerequisites_into, cluster_prerequisites_list_into,
}

load_balancer_component_into-IsDeep : IsDeep load_balancer_layout load_balancer_component_into
load_balancer_component_into-IsDeep given n =
    let metallb = copy_pointer-IsDeep flat return flat-IsDeep given.metallb n in
    record { same = rw metallb.same refl; fresh = metallb.fresh }

cluster_prerequisites_spec_into-IsDeep : IsDeep spec_layout cluster_prerequisites_spec_into
cluster_prerequisites_spec_into-IsDeep given n =
    let credentials =
      copy_pointer-IsDeep flat return flat-IsDeep
        given.application_collection_credentials_secret_ref n in
    let cert_manager = copy_pointer-IsDeep flat return flat-IsDeep given.cert_manager _ in
    let ingress = copy_pointer-IsDeep flat return flat-IsDeep given.ingress _ in
    let load_balancer =
      copy_pointer-IsDeep load_balancer_layout load_balancer_component_into
        load_balancer_component_into-IsDeep given.load_balancer _ in
    record {
      same = rw (credentials.same, cert_manager.same, ingress.same, load_balancer.same) refl;
      fresh = Rising-append n _ _ _ _ credentials.fresh (
          Rising-append _ _ _ _ _ cert_manager.fresh
            (Rising-append _ _ _ _ _ ingress.fresh load_balancer.fresh));
    }

module _ (api : Apimachinery) (laws : CopiesDeeply api) where
  cluster_prerequisites_status_into-IsDeep :
      IsDeep (status_layout api) (cluster_prerequisites_status_into api)
  cluster_prerequisites_status_into-IsDeep given n =
      let conditions =
        copy_slice-IsDeep api.condition api.condition_into laws.condition given.conditions n in
      record { same = rw conditions.same refl; fresh = conditions.fresh }

  pub cluster_prerequisites_into-IsDeep :
      IsDeep (cluster_prerequisites_layout api) (cluster_prerequisites_into api)
  cluster_prerequisites_into-IsDeep given n =
      let meta = laws.object_meta given.meta n in
      let spec = cluster_prerequisites_spec_into-IsDeep given.spec _ in
      let status = cluster_prerequisites_status_into-IsDeep given.status _ in
      record {
        same = rw (meta.same, spec.same, status.same) refl;
        fresh =
            Rising-append n _ _ _ _ meta.fresh (Rising-append _ _ _ _ _ spec.fresh status.fresh);
      }

  pub cluster_prerequisites_list_into-IsDeep :
      IsDeep (list_layout api) (cluster_prerequisites_list_into api)
  cluster_prerequisites_list_into-IsDeep given n =
      let meta = laws.list_meta given.meta n in
      let items =
        copy_slice-IsDeep (cluster_prerequisites_layout api) (cluster_prerequisites_into api)
          cluster_prerequisites_into-IsDeep given.items _ in
      record {
        same = rw (meta.same, items.same) refl;
        fresh = Rising-append n _ _ _ _ meta.fresh items.fresh;
      }
