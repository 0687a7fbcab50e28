-- ===== src/Manager/Protocols.antt =====
-- The protocols that the servers offer.
use rancher_operator.Common.{◌≡◌, refl, false, List, [], ◌∷◌}
use rancher_operator.Common.Text.{codes}
use rancher_operator.Manager.{
  Flags, TlsConfig, tls_opts, webhook_server_options, metrics_server_options, manager_options,
}

-- The configuration of a server behind all its options, as controller-runtime applies them.
abbrev pub configured : List (TlsConfig → TlsConfig) → TlsConfig → TlsConfig
configured [] c = c
configured (f ∷ fs) c = configured fs (f c)

-- Unless HTTP/2 is asked for, both servers of the manager, whatever their configuration was, offer
-- HTTP/1.1 alone, with or without certificates of their own.
pub manager_options_without_http2 :
    (flags : Flags) (c : TlsConfig)
    → flags.enable_http2 ≡ false
    → let options = manager_options flags in
      ((configured options.webhook_server.tls_opts c).next_protos ≡ codes "http/1.1" ∷ [])
      × ((configured options.metrics.tls_opts c).next_protos ≡ codes "http/1.1" ∷ [])
unfolding manager_options webhook_server_options metrics_server_options tls_opts
manager_options_without_http2 flags c off = rw off (refl, refl)
