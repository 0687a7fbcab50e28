-- ===== src/Helm/Getter.antt =====
-- internal/helm/getter.go
pub mod Laws
use rancher_operator.Common.{Option, none, some, Result, ok, err, wrap}
use rancher_operator.Common.Text.{Bytes, codes}
use rancher_operator.Runtime.{Env, ClientConfig, RestConfig, DiscoveryClient, RestMapper}

-- `parsed` stands for the fields `clientConfig` and `parseErr`, the two results of the parse, of which
-- `clientcmd` leaves the first nil exactly where the second is set; nothing else fills them in.
pub record KubeconfigRestClientGetter : Type 0 where
  pub parsed : Result ClientConfig

module _ (env : Env) where
  -- `NewKubeconfigRESTClientGetter`
  unfoldable pub new_getter : Bytes → KubeconfigRestClientGetter
  new_getter kubeconfig = record { parsed = env.new_client_config_from_bytes kubeconfig }

  -- `ToRESTConfig`
  unfoldable pub to_rest_config : KubeconfigRestClientGetter → Result RestConfig
  to_rest_config g = elim g.parsed [
    | err e ↦ err (wrap (codes "parsing kubeconfig") e)
    | ok config ↦ env.client_config config
  ]

  -- The client of a configuration; `NewMemCacheClient` only adds a cache.
  unfoldable pub discovery_client_of : Result RestConfig → Result DiscoveryClient
  discovery_client_of (err e) = err e
  discovery_client_of (ok config) = elim (env.new_discovery_client config) [
    | err e ↦ err (wrap (codes "building discovery client") e)
    | ok client ↦ ok client
  ]

  -- `ToDiscoveryClient`
  unfoldable pub to_discovery_client : KubeconfigRestClientGetter → Result DiscoveryClient
  unfolding to_rest_config discovery_client_of
  to_discovery_client g = discovery_client_of (to_rest_config g)

  -- `ToRESTMapper`
  unfoldable pub to_rest_mapper : KubeconfigRestClientGetter → Result RestMapper
  unfolding to_discovery_client
  to_rest_mapper g = elim (to_discovery_client g) [
    | err e ↦ err e
    | ok client ↦ ok (record { discovery = client })
  ]

-- `ToRawKubeConfigLoader`; a failed parse leaves nil.
unfoldable pub to_raw_kube_config_loader : KubeconfigRestClientGetter → Option ClientConfig
to_raw_kube_config_loader g = elim g.parsed [ err e ↦ none | ok config ↦ some config ]
