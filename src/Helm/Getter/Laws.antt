-- ===== src/Helm/Getter/Laws.antt =====
-- How a kubeconfig that does not parse shows at each method of the getter.
use rancher_operator.Common.{◌≡◌, none, err, Error, wrap, arith}
use rancher_operator.Common.Text.{Bytes, codes}
use rancher_operator.Runtime.{Env}
use rancher_operator.Helm.Getter.{
  new_getter, to_rest_config, to_discovery_client, to_rest_mapper, to_raw_kube_config_loader,
}

-- If the kubeconfig does not parse, the three methods that can fail return one and the same error,
-- and the loader is nil.
pub new_getter_fails_alike :
    (env : Env) (kubeconfig : Bytes) (e : Error)
    → env.new_client_config_from_bytes kubeconfig ≡ err e
    → let g = new_getter env kubeconfig in
      let failure = wrap (codes "parsing kubeconfig") e in
      (to_rest_config env g ≡ err failure)
      × (to_discovery_client env g ≡ err failure)
      × (to_rest_mapper env g ≡ err failure)
      × (to_raw_kube_config_loader g ≡ none)
unfolding new_getter to_rest_config to_rest_mapper to_raw_kube_config_loader
new_getter_fails_alike env kubeconfig e h = ground arith
