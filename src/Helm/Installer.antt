-- ===== src/Helm/Installer.antt =====
-- internal/helm/installer.go, without the classic chart repositories
pub mod Oci
pub mod Releases
use rancher_operator.Common.{
  ℕ, ◌*◌, ◌==◌, Bool, not, ◌&&◌, Option, none, some, ◌∷◌, ◌++◌, Error, Result, ok, err, new_error,
  wrap, if◌then◌else◌,
}
use rancher_operator.Common.Text.{
  Text, Bytes, codes, is_empty, has_prefix, trim_prefix, contains, before,
}
use rancher_operator.Runtime.{
  Env, M, return, call, ◌>>=◌, ◌>>◌, attempt, attempt_pure, require, unless_ok, exit_if, perform,
  body, Chart, InstallRequest, UpgradeRequest, LoadedChart, chart_v2, other_chart, PullResult,
  Release, Releaser, release_v1, other_release, Configuration, Fields, logged_in, pulled,
  got_release, installed, upgraded,
}
use rancher_operator.Helm.Getter.{KubeconfigRestClientGetter}

-- in nanoseconds
abbrev pub default_install_timeout : ℕ
default_install_timeout = 10 * (60 * 1000000000)

pub record OciCredentials : Type 0 where
  pub username : Text
  pub password : Text

abbrev pub oci_scheme : Text
oci_scheme = codes "oci://"

-- The bytes of the chart that a pull carries, if there are any.
abbrev pub chart_data : PullResult → Option Bytes
chart_data result = elim result.chart [
  | none ↦ none
  | some bytes ↦ if is_empty bytes then none else some bytes
]

-- The type assertion behind `loader.LoadArchive`.
unfoldable pub as_chart_v2 : Text → LoadedChart → Result (Option Chart)
as_chart_v2 ref (chart_v2 chart) = ok chart
as_chart_v2 ref (other_chart type_name) = err (
    new_error (
      codes "chart "
      ++ (ref ++ (codes " is not an apiVersion v1/v2 chart (got " ++ (type_name ++ codes ")")))))

pub record InstallOrUpgradeOptions : Type 0 where
  pub release_name : Text
  pub namespace : Text
  pub create_namespace : Bool
  pub chart : Option Chart
  pub values : Fields
  pub timeout : ℕ

-- `asReleaseV1`
unfoldable pub as_release_v1 : Releaser → Result (Option Release)
as_release_v1 (release_v1 release) = ok release
as_release_v1 (other_release type_name) =
    err (new_error (codes "unexpected release type " ++ type_name))

-- `isReleaseNotFound`, at an error that is not nil
unfoldable pub is_release_not_found : Error → Bool
is_release_not_found e = contains e.message (codes "release: not found")

module _ (env : Env) where
  open env use {quote}

  -- The `Login` of `LoadChartFromOCI`, if there are credentials.
  unfoldable pub log_in : Text → OciCredentials → M (Result (Unit {0}))
  log_in host creds = body do
    exit_if (is_empty creds.username && is_empty creds.password) (return (ok tt))
    attempt
        (call (λ log. env.login log host creds.username creds.password)
          (logged_in host creds.username creds.password))
        (λ e. return (err (wrap (codes "logging into " ++ host) e)))
    perform (return (ok tt))

  -- `LoadChartFromOCI`
  unfoldable pub load_chart_from_oci : Text → Text → OciCredentials → M (Result (Option Chart))
  load_chart_from_oci oci_ref version creds = body do
    exit_if (not (has_prefix oci_ref oci_scheme))
        (return (err (new_error (codes "expected oci:// URL, got " ++ quote oci_ref))))
    let stripped = trim_prefix oci_ref oci_scheme
    let host = before b'/' stripped
    attempt_pure env.new_registry_client
        λ e. return (err (wrap (codes "creating registry client") e))
    attempt (log_in host creds) (λ e. return (err e))
    let ref = stripped ++ (b':' ∷ version)
    result ←
        attempt (call (λ log. env.pull log ref) (pulled ref))
          λ e. return (err (wrap (codes "pulling " ++ ref) e))
    archive ← require (chart_data result) (
        return
          (err (new_error (codes "pull result for " ++ (ref ++ codes " carries no chart data")))))
    loaded ←
        attempt_pure (env.load_archive archive)
          λ e. return (err (wrap (codes "loading chart " ++ ref) e))
    perform (return (as_chart_v2 ref loaded))

  -- `runInstall`
  unfoldable pub run_install :
      Configuration → InstallOrUpgradeOptions → Chart → M (Result (Option Release))
  run_install config opts chart = body do
    let request : InstallRequest = record {
      release_name = opts.release_name;
      namespace = opts.namespace;
      create_namespace = opts.create_namespace;
      timeout = opts.timeout;
      chart = chart;
      values = opts.values;
    }
    release ←
        attempt (call (λ log. env.install log config request) (installed config request))
          λ e. return (err (wrap (codes "installing release " ++ quote opts.release_name) e))
    perform (return (as_release_v1 release))

  -- `runUpgrade`
  unfoldable pub run_upgrade :
      Configuration → InstallOrUpgradeOptions → Chart → M (Result (Option Release))
  run_upgrade config opts chart = body do
    let request : UpgradeRequest = record {
      release_name = opts.release_name;
      namespace = opts.namespace;
      timeout = opts.timeout;
      chart = chart;
      values = opts.values;
    }
    release ←
        attempt (call (λ log. env.upgrade log config request) (upgraded config request))
          λ e. return (err (wrap (codes "upgrading release " ++ quote opts.release_name) e))
    perform (return (as_release_v1 release))

  -- `opts` with the default for a time limit of 0
  abbrev pub with_timeout : InstallOrUpgradeOptions → InstallOrUpgradeOptions
  with_timeout opts = record opts {
    timeout = if opts.timeout == 0 then default_install_timeout else opts.timeout;
  }

  -- `InstallOrUpgrade`
  unfoldable pub install_or_upgrade :
      KubeconfigRestClientGetter → InstallOrUpgradeOptions → M (Result (Option Release))
  install_or_upgrade getter given = body do
    chart ← require given.chart (return (err (new_error (codes "chart must not be nil"))))
    let opts = with_timeout given
    config ←
        attempt_pure (env.init_configuration getter.parsed opts.namespace)
          λ e. return (err (wrap (codes "initialising helm configuration") e))
    lookup_error ←
        unless_ok
          (call (λ log. env.get_release log config opts.release_name)
            (got_release config opts.release_name))
          (λ _. run_upgrade config opts chart)
    exit_if (is_release_not_found lookup_error) (run_install config opts chart)
    perform
        (return (err (wrap (codes "looking up release " ++ quote opts.release_name) lookup_error)))
