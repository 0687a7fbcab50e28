-- ===== src/Manager.antt =====
-- cmd/main.go, behind the parsing of the flags
pub mod Protocols
pub mod Startup
use rancher_operator.Common.{
  ℕ, Bool, true, false, Option, none, some, List, [], ◌∷◌, ◌++◌, Error, if◌then◌else◌, not,
}
use rancher_operator.Common.Text.{Text, codes, is_empty}

pub record Flags : Type 0 where
  pub metrics_addr : Text
  pub metrics_cert_path : Text
  pub metrics_cert_name : Text
  pub metrics_cert_key : Text
  pub webhook_cert_path : Text
  pub webhook_cert_name : Text
  pub webhook_cert_key : Text
  pub enable_leader_election : Bool
  pub probe_addr : Text
  pub secure_metrics : Bool
  pub enable_http2 : Bool

-- What a run without arguments parses.
abbrev pub default_flags : Flags
default_flags = record {
  metrics_addr = codes "0";
  metrics_cert_path = [];
  metrics_cert_name = codes "tls.crt";
  metrics_cert_key = codes "tls.key";
  webhook_cert_path = [];
  webhook_cert_name = codes "tls.crt";
  webhook_cert_key = codes "tls.key";
  enable_leader_election = false;
  probe_addr = codes ":8081";
  secure_metrics = true;
  enable_http2 = false;
}

-- A `*tls.Config`, by its `NextProtos`.
pub record TlsConfig : Type 0 where
  pub next_protos : List Text

-- `disableHTTP2`
unfoldable pub disable_http2 : TlsConfig → TlsConfig
disable_http2 c = record c { next_protos = codes "http/1.1" ∷ [] }

-- `tlsOpts`
unfoldable pub tls_opts : Flags → List (TlsConfig → TlsConfig)
unfolding disable_http2
tls_opts flags = if not flags.enable_http2 then disable_http2 ∷ [] else []

-- The directory of a certificate and the names of its two files.
pub record CertFiles : Type 0 where
  pub cert_dir : Text
  pub cert_name : Text
  pub key_name : Text

-- The fields of a server's options for its certificate: unset without a directory.
unfoldable pub cert_files : (path name key : Text) → CertFiles
cert_files path name key =
    if not (is_empty path)
    then record { cert_dir = path; cert_name = name; key_name = key }
    else record { cert_dir = []; cert_name = []; key_name = [] }

-- `webhook.Options`
pub record WebhookOptions : Type 0 where
  pub tls_opts : List (TlsConfig → TlsConfig)
  pub cert : CertFiles

-- `metricsserver.Options`; `authenticated` says that `FilterProvider` is set to
-- `filters.WithAuthenticationAndAuthorization`.
pub record MetricsOptions : Type 0 where
  pub bind_address : Text
  pub secure_serving : Bool
  pub tls_opts : List (TlsConfig → TlsConfig)
  pub authenticated : Bool
  pub cert : CertFiles

-- `ctrl.Options`, without the scheme
pub record ManagerOptions : Type 0 where
  pub metrics : MetricsOptions
  pub webhook_server : WebhookOptions
  pub health_probe_bind_address : Text
  pub leader_election : Bool
  pub leader_election_id : Text

-- `webhookServerOptions`
unfoldable pub webhook_server_options : Flags → WebhookOptions
webhook_server_options flags = record {
  tls_opts = tls_opts flags;
  cert = cert_files flags.webhook_cert_path flags.webhook_cert_name flags.webhook_cert_key;
}

-- `metricsServerOptions`
unfoldable pub metrics_server_options : Flags → MetricsOptions
metrics_server_options flags = record {
  bind_address = flags.metrics_addr;
  secure_serving = flags.secure_metrics;
  tls_opts = tls_opts flags;
  authenticated = if flags.secure_metrics then true else false;
  cert = cert_files flags.metrics_cert_path flags.metrics_cert_name flags.metrics_cert_key;
}

-- The options of `ctrl.NewManager`.
unfoldable pub manager_options : Flags → ManagerOptions
manager_options flags = record {
  metrics = metrics_server_options flags;
  webhook_server = webhook_server_options flags;
  health_probe_bind_address = flags.probe_addr;
  leader_election = flags.enable_leader_election;
  leader_election_id = codes "bc73659a.rancher-operator.io";
}

-- The calls into controller-runtime that can fail. `GetConfigOrDie` ends the process itself.
pub data SetupStep : Type 0 where
  get_config_or_die : SetupStep
  new_manager : ManagerOptions → SetupStep
  setup_with_manager : Text → SetupStep
  add_healthz_check : Text → SetupStep
  add_readyz_check : Text → SetupStep
  start : SetupStep

-- How the process ends: the steps that it took, newest first, and its exit code.
pub record Ending : Type 0 where
  pub taken : List SetupStep
  pub exit_code : ℕ

-- `os.Exit(1)`
abbrev pub exit_1 : List SetupStep → Ending
exit_1 taken = record { taken = taken; exit_code = 1 }

-- `if err != nil`, with what follows if it is and if it is not.
abbrev pub if_err : Option Error → (failed going : Ending) → Ending
if_err (some e) failed going = failed
if_err none failed going = going

-- `main`, where a step is answered in view of the steps before it.
unfoldable pub main : (List SetupStep → SetupStep → Option Error) → Flags → Ending
main answer flags =
    let config = get_config_or_die in
    let mgr = new_manager (manager_options flags) in
    let target_cluster = setup_with_manager (codes "targetcluster") in
    let cluster_prerequisites = setup_with_manager (codes "clusterprerequisites") in
    let rancher_manager = setup_with_manager (codes "ranchermanager") in
    let healthz = add_healthz_check (codes "healthz") in
    let readyz = add_readyz_check (codes "readyz") in
    let got = config ∷ [] in
    if_err (answer [] config) (exit_1 got) (
      let made = mgr ∷ got in
      if_err (answer got mgr) (exit_1 made) (
        let first = target_cluster ∷ made in
        if_err (answer made target_cluster) (exit_1 first) (
          let second = cluster_prerequisites ∷ first in
          if_err (answer first cluster_prerequisites) (exit_1 second) (
            let third = rancher_manager ∷ second in
            if_err (answer second rancher_manager) (exit_1 third) (
              let live = healthz ∷ third in
              if_err (answer third healthz) (exit_1 live) (
                let set_up = readyz ∷ live in
                if_err (answer live readyz) (exit_1 set_up) (
                  if_err (answer set_up start) (exit_1 (start ∷ set_up))
                    (record { taken = start ∷ set_up; exit_code = 0 }))))))))
