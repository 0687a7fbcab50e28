-- ===== src/Api/RancherManager.antt =====
-- api/v1alpha1/ranchermanager_types.go
use rancher_operator.Common.{ℕ, ℤ, Option, List}
use rancher_operator.Common.Text.{Text, codes}
use rancher_operator.Api.Meta.{ObjectMeta, Condition, LocalObjectReference}

abbrev pub TlsSource : Type 0
TlsSource = Text

abbrev pub tls_source_rancher : TlsSource
tls_source_rancher = codes "rancher"

abbrev pub tls_source_lets_encrypt : TlsSource
tls_source_lets_encrypt = codes "letsEncrypt"

abbrev pub tls_source_secret : TlsSource
tls_source_secret = codes "secret"

abbrev pub LetsEncryptEnv : Type 0
LetsEncryptEnv = Text

abbrev pub lets_encrypt_env_production : LetsEncryptEnv
lets_encrypt_env_production = codes "production"

abbrev pub lets_encrypt_env_staging : LetsEncryptEnv
lets_encrypt_env_staging = codes "staging"

abbrev pub RancherManagerPhase : Type 0
RancherManagerPhase = Text

abbrev pub phase_pending : RancherManagerPhase
phase_pending = codes "Pending"

abbrev pub phase_installing : RancherManagerPhase
phase_installing = codes "Installing"

abbrev pub phase_available : RancherManagerPhase
phase_available = codes "Available"

abbrev pub phase_upgrading : RancherManagerPhase
phase_upgrading = codes "Upgrading"

abbrev pub phase_degraded : RancherManagerPhase
phase_degraded = codes "Degraded"

pub record LetsEncryptConfig : Type 0 where
  pub email : Text
  pub environment : LetsEncryptEnv

pub record RancherTls : Type 0 where
  pub source : TlsSource
  pub lets_encrypt : Option LetsEncryptConfig
  pub secret : Option LocalObjectReference

pub record BootstrapPasswordSecretRef : Type 0 where
  pub name : Text
  pub key : Text

pub record RancherManagerSpec : Type 0 where
  pub target_cluster_ref : LocalObjectReference
  pub prerequisites_ref : Option LocalObjectReference
  pub version : Text
  pub hostname : Text
  pub tls : RancherTls
  pub bootstrap_password_secret_ref : BootstrapPasswordSecretRef
  pub ingress_class : Text
  pub replicas : ℤ

pub record RancherManagerStatus : Type 0 where
  pub phase : RancherManagerPhase
  pub installed_version : Text
  pub available_upgrades : List Text
  pub url : Text
  pub observed_generation : ℕ
  pub conditions : List Condition

pub record RancherManager : Type 0 where
  pub meta : ObjectMeta
  pub spec : RancherManagerSpec
  pub status : RancherManagerStatus

pub record RancherManagerList : Type 0 where
  pub items : List RancherManager
