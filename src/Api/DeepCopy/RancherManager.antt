-- ===== src/Api/DeepCopy/RancherManager.antt =====
-- The deep copies of the types of api/v1alpha1/ranchermanager_types.go.
pub mod Copies
use rancher_operator.Common.{ℕ, ℤ, ◌++◌}
use rancher_operator.Common.Text.{Text}
use rancher_operator.Api.Meta.{LocalObjectReference}
use rancher_operator.Api.RancherManager.{
  TlsSource, RancherManagerPhase, LetsEncryptConfig, BootstrapPasswordSecretRef,
}
use rancher_operator.Api.DeepCopy.{
  Ptr, Slice, Object, Alloc, return, ◌>>=◌, copy_pointer, copy_slice, as_object, Layout, flat,
  pointer, slice, Apimachinery, TypeMeta,
}

abbrev pub lets_encrypt_config_into : LetsEncryptConfig → Alloc LetsEncryptConfig
lets_encrypt_config_into given = return given

abbrev pub copy_lets_encrypt_config : Ptr LetsEncryptConfig → Alloc (Ptr LetsEncryptConfig)
copy_lets_encrypt_config = copy_pointer lets_encrypt_config_into

abbrev pub bootstrap_password_secret_ref_into :
    BootstrapPasswordSecretRef → Alloc BootstrapPasswordSecretRef
bootstrap_password_secret_ref_into given = return given

abbrev pub copy_bootstrap_password_secret_ref :
    Ptr BootstrapPasswordSecretRef → Alloc (Ptr BootstrapPasswordSecretRef)
copy_bootstrap_password_secret_ref = copy_pointer bootstrap_password_secret_ref_into

pub record StoredRancherTls : Type 0 where
  pub source : TlsSource
  pub lets_encrypt : Ptr LetsEncryptConfig
  pub secret : Ptr LocalObjectReference

abbrev pub tls_layout : Layout StoredRancherTls
tls_layout = record {
  addresses = λ t. (pointer flat).addresses t.lets_encrypt ++ (pointer flat).addresses t.secret;
  erase = λ t. record t {
    lets_encrypt = (pointer flat).erase t.lets_encrypt;
    secret = (pointer flat).erase t.secret;
  };
}

abbrev pub rancher_tls_into : StoredRancherTls → Alloc StoredRancherTls
rancher_tls_into given = do
  lets_encrypt ← copy_pointer return given.lets_encrypt
  secret ← copy_pointer return given.secret
  return (record given { lets_encrypt = lets_encrypt; secret = secret })

abbrev pub copy_rancher_tls : Ptr StoredRancherTls → Alloc (Ptr StoredRancherTls)
copy_rancher_tls = copy_pointer rancher_tls_into

pub record StoredRancherManagerSpec : Type 0 where
  pub target_cluster_ref : LocalObjectReference
  pub prerequisites_ref : Ptr LocalObjectReference
  pub version : Text
  pub hostname : Text
  pub tls : StoredRancherTls
  pub bootstrap_password_secret_ref : BootstrapPasswordSecretRef
  pub ingress_class : Text
  pub replicas : ℤ

abbrev pub spec_layout : Layout StoredRancherManagerSpec
spec_layout = record {
  addresses = λ s. (pointer flat).addresses s.prerequisites_ref ++ tls_layout.addresses s.tls;
  erase = λ s. record s {
    prerequisites_ref = (pointer flat).erase s.prerequisites_ref;
    tls = tls_layout.erase s.tls;
  };
}

abbrev pub rancher_manager_spec_into : StoredRancherManagerSpec → Alloc StoredRancherManagerSpec
rancher_manager_spec_into given = do
  prerequisites_ref ← copy_pointer return given.prerequisites_ref
  tls ← rancher_tls_into given.tls
  return (record given {
    target_cluster_ref = given.target_cluster_ref;
    prerequisites_ref = prerequisites_ref;
    tls = tls;
    bootstrap_password_secret_ref = given.bootstrap_password_secret_ref;
  })

abbrev pub copy_rancher_manager_spec :
    Ptr StoredRancherManagerSpec → Alloc (Ptr StoredRancherManagerSpec)
copy_rancher_manager_spec = copy_pointer rancher_manager_spec_into

pub record StoredRancherManagerStatus (api : Apimachinery) : Type 0 where
  pub phase : RancherManagerPhase
  pub installed_version : Text
  pub available_upgrades : Slice Text
  pub url : Text
  pub observed_generation : ℕ
  pub conditions : Slice api.Condition

pub record StoredRancherManager (api : Apimachinery) : Type 0 where
  pub type_meta : TypeMeta
  pub meta : api.ObjectMeta
  pub spec : StoredRancherManagerSpec
  pub status : StoredRancherManagerStatus api

pub record StoredRancherManagerList (api : Apimachinery) : Type 0 where
  pub type_meta : TypeMeta
  pub meta : api.ListMeta
  pub items : Slice (StoredRancherManager api)

module _ (api : Apimachinery) where
  abbrev pub status_layout : Layout (StoredRancherManagerStatus api)
  status_layout = record {
    addresses = λ s.
        (slice flat).addresses s.available_upgrades ++ (slice api.condition).addresses s.conditions;
    erase = λ s. record s {
      available_upgrades = (slice flat).erase s.available_upgrades;
      conditions = (slice api.condition).erase s.conditions;
    };
  }

  -- The strings are copied as they are: `copy(*out, *in)`.
  abbrev pub rancher_manager_status_into :
      StoredRancherManagerStatus api → Alloc (StoredRancherManagerStatus api)
  rancher_manager_status_into given = do
    available_upgrades ← copy_slice return given.available_upgrades
    conditions ← copy_slice api.condition_into given.conditions
    return (record given { available_upgrades = available_upgrades; conditions = conditions })

  abbrev pub copy_rancher_manager_status :
      Ptr (StoredRancherManagerStatus api) → Alloc (Ptr (StoredRancherManagerStatus api))
  copy_rancher_manager_status = copy_pointer rancher_manager_status_into

  abbrev pub rancher_manager_layout : Layout (StoredRancherManager api)
  rancher_manager_layout = record {
    addresses = λ x.
        api.object_meta.addresses x.meta
        ++ (spec_layout.addresses x.spec ++ status_layout.addresses x.status);
    erase = λ x. record {
      type_meta = x.type_meta;
      meta = api.object_meta.erase x.meta;
      spec = spec_layout.erase x.spec;
      status = status_layout.erase x.status;
    };
  }

  abbrev pub rancher_manager_into : StoredRancherManager api → Alloc (StoredRancherManager api)
  rancher_manager_into given = do
    meta ← api.object_meta_into given.meta
    spec ← rancher_manager_spec_into given.spec
    status ← rancher_manager_status_into given.status
    return (record given { type_meta = given.type_meta; meta = meta; spec = spec; status = status })

  abbrev pub copy_rancher_manager :
      Ptr (StoredRancherManager api) → Alloc (Ptr (StoredRancherManager api))
  copy_rancher_manager = copy_pointer rancher_manager_into

  abbrev pub copy_rancher_manager_object :
      Ptr (StoredRancherManager api) → Alloc (Object (StoredRancherManager api))
  copy_rancher_manager_object given = do c ← copy_rancher_manager given; as_object c

  abbrev pub list_layout : Layout (StoredRancherManagerList api)
  list_layout = record {
    addresses =
        λ l. api.list_meta.addresses l.meta ++ (slice rancher_manager_layout).addresses l.items;
    erase = λ l. record {
      type_meta = l.type_meta;
      meta = api.list_meta.erase l.meta;
      items = (slice rancher_manager_layout).erase l.items;
    };
  }

  abbrev pub rancher_manager_list_into :
      StoredRancherManagerList api → Alloc (StoredRancherManagerList api)
  rancher_manager_list_into given = do
    meta ← api.list_meta_into given.meta
    items ← copy_slice rancher_manager_into given.items
    return (record given { type_meta = given.type_meta; meta = meta; items = items })

  abbrev pub copy_rancher_manager_list :
      Ptr (StoredRancherManagerList api) → Alloc (Ptr (StoredRancherManagerList api))
  copy_rancher_manager_list = copy_pointer rancher_manager_list_into

  abbrev pub copy_rancher_manager_list_object :
      Ptr (StoredRancherManagerList api) → Alloc (Object (StoredRancherManagerList api))
  copy_rancher_manager_list_object given = do c ← copy_rancher_manager_list given; as_object c
