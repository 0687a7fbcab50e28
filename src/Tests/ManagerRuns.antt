-- ===== src/Tests/ManagerRuns.antt =====
-- Starts of the process.
use rancher_operator.Common.{◌≡◌, refl, List, [], ◌∷◌, length, Option, some, none, Error, new_error}
use rancher_operator.Common.Text.{codes}
use rancher_operator.Manager.{
  SetupStep, TlsConfig, default_flags, main, manager_options, add_healthz_check,
}
use rancher_operator.Manager.Protocols.{configured, manager_options_without_http2}
use rancher_operator.Manager.Startup.{all_steps, Ends, main-Ends}

abbrev http2 : TlsConfig
http2 = record { next_protos = codes "h2" ∷ [] }

manager_options_without_http2_example :
    ((configured (manager_options default_flags).webhook_server.tls_opts http2).next_protos
      ≡ codes "http/1.1" ∷ [])
    × ((configured (manager_options default_flags).metrics.tls_opts http2).next_protos
        ≡ codes "http/1.1" ∷ [])
manager_options_without_http2_example = manager_options_without_http2 default_flags http2 refl

-- The health check cannot be added.
abbrev without_health : List SetupStep → SetupStep → Option Error
without_health taken (add_healthz_check _) = some (new_error (codes "taken"))
without_health taken _ = none

main-Ends_example :
    Ends without_health (all_steps default_flags) (main without_health default_flags)
main-Ends_example = main-Ends without_health default_flags

stops_early : (main without_health default_flags).exit_code ≡ 1
unfolding main
stops_early = refl

takes_six : length (main without_health default_flags).taken ≡ 6
unfolding main
takes_six = refl
