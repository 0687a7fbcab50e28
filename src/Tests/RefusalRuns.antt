-- ===== src/Tests/RefusalRuns.antt =====
-- Runs over an image-pull Secret that is there already.
use rancher_operator.Common.{◌≡◌, refl, false, none, some, [], ◌∷◌, ok, if◌then◌else◌}
use rancher_operator.Common.Text.{codes, text_eq}
use rancher_operator.Api.Meta.{Secret}
use rancher_operator.Runtime.{Log, got_namespace, got_remote_secret}
use rancher_operator.Helm.PullSecret.{secret_type_docker_config_json, ensure_image_pull_secret}
use rancher_operator.Helm.Server.{Cluster, behind}
use rancher_operator.Helm.Server.Published.{Published}
use rancher_operator.Helm.Server.Repetition.{ensure_image_pull_secret-repeats}
use rancher_operator.Controller.Components.{
  pull_secret_name, cert_manager_package, application_collection_registry, is_component_done,
  install_component,
}
use rancher_operator.Controller.Components.Refusal.{after_runs, install_component_stuck}
use rancher_operator.Tests.ServerRuns.{
  server, serving, half_done, half_done-IsUsable, getter, creds, connection, clientset, desired,
  connected, printed,
}
use rancher_operator.Tests.World.{ready_cluster}

ensure_image_pull_secret-repeats_example :
    (after : Log) × (secret : Secret) × (ensure_image_pull_secret
        (server ready_cluster half_done)
        getter
        (pull_secret_name cert_manager_package)
        application_collection_registry
        creds.username
        creds.password
        []
      ≡ (ok tt, after))
    × Published (pull_secret_name cert_manager_package) desired half_done (behind half_done after)
    × (ensure_image_pull_secret
          (server ready_cluster half_done)
          getter
          (pull_secret_name cert_manager_package)
          application_collection_registry
          creds.username
          creds.password
          after
        ≡ (
          ok tt,
          got_remote_secret clientset (pull_secret_name cert_manager_package) (ok secret)
              ∷ got_namespace clientset (codes "cert-manager") (ok tt)
              ∷ after,
        ))
ensure_image_pull_secret-repeats_example =
    ensure_image_pull_secret-repeats (server ready_cluster half_done) half_done getter connection
      clientset (pull_secret_name cert_manager_package) application_collection_registry
      creds.username creds.password desired (serving ready_cluster half_done) (connected half_done)
      refl printed refl [] half_done-IsUsable

-- A Secret of another type is in the way.
abbrev opaque_secret : Secret
opaque_secret = record { type = codes "Opaque"; contents = some ((codes "note", codes "n") ∷ []) }

abbrev obstructed : Cluster
obstructed = record half_done {
  secrets =
      λ n. if text_eq n.name (codes "application-collection") then some opaque_secret else none;
}

other_type : text_eq opaque_secret.type secret_type_docker_config_json ≡ false
unfolding text_eq
other_type = refl

install_component_stuck_example :
    (is_component_done
        (install_component
          (server ready_cluster obstructed)
          getter
          cert_manager_package
          (codes "v1.18.0")
          creds
          (after_runs
            (server ready_cluster obstructed)
            getter
            cert_manager_package
            (codes "v1.18.0")
            creds
            3
            [])).0
      ≡ false)
    × ((behind obstructed (
            after_runs
              (server ready_cluster obstructed)
              getter
              cert_manager_package
              (codes "v1.18.0")
              creds
              3
              [])).secrets
          (pull_secret_name cert_manager_package)
        ≡ some opaque_secret)
unfolding text_eq
install_component_stuck_example =
    install_component_stuck (server ready_cluster obstructed) obstructed getter cert_manager_package
      (codes "v1.18.0") creds connection clientset desired (serving ready_cluster obstructed)
      (connected obstructed) refl refl printed refl opaque_secret other_type [] 3 refl
