-- ===== src/Helm/Installer/Releases.antt =====
-- What `InstallOrUpgrade` asks of Helm.
use rancher_operator.Common.{ℕ, ◌≡◌, ◌≢◌, ◌⊎◌, true, false, some, ◌∷◌, ok, err, is_ok, arith}
use rancher_operator.Runtime.{Env, Log, got_release, installed, upgraded}
use rancher_operator.Helm.Getter.{KubeconfigRestClientGetter}
use rancher_operator.Helm.Installer.{
  default_install_timeout, InstallOrUpgradeOptions, is_release_not_found, run_install, run_upgrade,
  install_or_upgrade,
}

-- The time limit is the given one, or the default for 0.
abbrev pub IsTimeLimit : ℕ → ℕ → Type 0
IsTimeLimit given limit =
    ((given ≡ 0) × (limit ≡ default_install_timeout)) ⊎ ((given ≢ 0) × (limit ≡ given))

-- The release was looked up first, and by the answer: a release that exists is upgraded and never
-- installed; one whose lookup failed with Helm's message is installed and never upgraded; any other
-- failure changes nothing. All is done once, under the name asked for.
abbrev pub Decides : InstallOrUpgradeOptions → Log → Log → Type 0
Decides opts before (upgraded c request _ ∷ got_release c' name (ok _) ∷ log) =
    (c ≡ c')
    × (name ≡ opts.release_name)
    × (request.release_name ≡ name)
    × (request.namespace ≡ opts.namespace)
    × (some request.chart ≡ opts.chart)
    × (request.values ≡ opts.values)
    × IsTimeLimit opts.timeout request.timeout
    × (log ≡ before)
Decides opts before (installed c request _ ∷ got_release c' name (err e) ∷ log) =
    (is_release_not_found e ≡ true)
    × (c ≡ c')
    × (name ≡ opts.release_name)
    × (request.release_name ≡ name)
    × (request.namespace ≡ opts.namespace)
    × (some request.chart ≡ opts.chart)
    × (request.values ≡ opts.values)
    × IsTimeLimit opts.timeout request.timeout
    × (request.create_namespace ≡ opts.create_namespace)
    × (log ≡ before)
Decides opts before (got_release c name (err e) ∷ log) =
    (is_release_not_found e ≡ false) × (name ≡ opts.release_name) × (log ≡ before)
Decides opts before _ = ⊥

module _ (env : Env) (getter : KubeconfigRestClientGetter) where
  -- A run either fails before any call, or looks the release up and decides by the answer.
  pub install_or_upgrade-Decides :
      (opts : InstallOrUpgradeOptions) (log : Log)
      → let p = install_or_upgrade env getter opts log in
        ((is_ok p.0 ≡ false) × (p.1 ≡ log)) ⊎ Decides opts log p.1
  unfolding install_or_upgrade run_install run_upgrade
  install_or_upgrade-Decides opts log = ground arith
