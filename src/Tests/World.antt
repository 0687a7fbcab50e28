-- ===== src/Tests/World.antt =====
-- A small world that answers the operator's calls: one target cluster that can be reached, whose
-- namespaces and releases are still missing.
use rancher_operator.Common.{
  ℕ, ◌≡◌, refl, inl, inr, ◌++◌, Bool, true, false, Bool-cases, none, some, List, [], ◌∷◌, length,
  int32, Error, ok, err, Reason, new_error, if◌then◌else◌, arith,
}
use rancher_operator.Common.Text.{has_prefix, Text, codes, text_eq}
use rancher_operator.Common.Text.Laws.{text_eq_iff, text_eq_refl}
use rancher_operator.Api.Meta.{
  NamespacedName, Condition, ConditionStatus, condition_true, condition_false, condition_unknown,
  Secret,
}
use rancher_operator.Api.TargetCluster.{TargetCluster, target_cluster_type_byo}
use rancher_operator.Api.ClusterPrerequisites.{
  ClusterPrerequisites, ComponentStatus, load_balancer_type_cloud, ingress_type_traefik,
}
use rancher_operator.Runtime.{Env, Chart, chart_v2, release_v1}
use rancher_operator.Controller.Conditions.{SetsConditions, find_condition, content}

abbrev same_status : ConditionStatus → ConditionStatus → Bool
same_status condition_true condition_true = true
same_status condition_false condition_false = true
same_status condition_unknown condition_unknown = true
same_status _ _ = false

-- The condition that replaces `d`: the time stays unless the status changes.
abbrev replacing : ℕ → Condition → Condition → Condition
replacing now d c = record c {
  last_transition_time = if same_status d.status c.status then d.last_transition_time else now;
}

abbrev pub set_condition : ℕ → List Condition → Condition → List Condition
set_condition now [] c = record c { last_transition_time = now } ∷ []
set_condition now (d ∷ cs) c =
    if text_eq d.type c.type then replacing now d c ∷ cs else d ∷ set_condition now cs c

found_lem :
    (now : ℕ) (cs : List Condition) (c : Condition)
    → content (find_condition c.type (set_condition now cs c)) ≡ content (some c)
unfolding find_condition
found_lem now [] c = rw (text_eq_refl c.type) refl
found_lem now (d ∷ cs) c = ground (arith, text_eq_refl c.type, found_lem now cs c)

kept_lem :
    (now : ℕ) (cs : List Condition) (c : Condition) (t : Text)
    → text_eq c.type t ≡ false
    → find_condition t (set_condition now cs c) ≡ find_condition t cs
unfolding find_condition
kept_lem now [] c t h = ground arith
kept_lem now (d ∷ cs) c t h = ground (arith, kept_lem now cs c t h, text_eq_iff d.type c.type)

same_status_refl : (s : ConditionStatus) → same_status s s ≡ true
same_status_refl condition_true = refl
same_status_refl condition_false = refl
same_status_refl condition_unknown = refl

settled_lem :
    (now later : ℕ) (cs : List Condition) (c : Condition)
    → set_condition later (set_condition now cs c) c ≡ set_condition now cs c
settled_lem now later [] c = rw (text_eq_refl c.type, same_status_refl c.status) refl
settled_lem now later (d ∷ cs) c = elim (Bool-cases (text_eq d.type c.type)) [
  | inl same ↦ rw (same, text_eq_refl c.type, same_status_refl c.status) refl
  | inr different ↦ rw (different, different, settled_lem now later cs c) refl
]

-- The answer for a resource that is gone.
abbrev pub gone : Error
gone = record { reason = Reason.not_found; message = codes "gone" }

abbrev not_found_error : Error
not_found_error = record { reason = Reason.not_found; message = codes "not found" }

abbrev pub kubeconfig_secret : Secret
kubeconfig_secret = record {
  type = codes "Opaque";
  contents = some ((codes "kubeconfig", codes "k") ∷ []);
}

abbrev pub credentials_secret : Secret
credentials_secret = record {
  type = codes "Opaque";
  contents = some ((codes "username", codes "u") ∷ (codes "password", codes "p") ∷ []);
}

abbrev pub cluster_name : NamespacedName
cluster_name = record { namespace = codes "ops"; name = codes "edge" }

-- A target cluster that no run has looked at.
abbrev pub fresh_cluster : TargetCluster
fresh_cluster = record {
  meta = record { name = codes "edge"; namespace = codes "ops"; generation = 3 };
  spec = record {
    type = target_cluster_type_byo;
    byo = some (record { kubeconfig_secret_ref = record { name = codes "kc"; key = [] } });
  };
  status = record {
    ready = false;
    kubernetes_version = [];
    node_count = int32 0;
    observed_generation = 0;
    conditions = [];
  };
}

-- One that a run has found ready.
abbrev pub ready_cluster : TargetCluster
ready_cluster = record fresh_cluster {
  status = record fresh_cluster.status { ready = true; kubernetes_version = codes "v1.31.4+k3s1" };
}

abbrev pub no_status : ComponentStatus
no_status = record { ready = false; skipped = false; installed_version = []; message = [] }

abbrev pub fresh_prerequisites : ClusterPrerequisites
fresh_prerequisites = record {
  meta = record { name = codes "edge"; namespace = codes "ops"; generation = 5 };
  spec = record {
    target_cluster_ref = record { name = codes "edge" };
    application_collection_credentials_secret_ref = some (record { name = codes "ac" });
    cert_manager = some (record { enabled = true; version = [] });
    ingress =
        some
          (record { enabled = true; type = ingress_type_traefik; use_bundled = []; version = [] });
    load_balancer = some (record { type = load_balancer_type_cloud; metallb = none });
  };
  status = record {
    ready = false;
    components = record {
      cert_manager = no_status;
      ingress = no_status;
      load_balancer = no_status;
    };
    observed_generation = 0;
    conditions = [];
  };
}

abbrev pub chart : Chart
chart = record { metadata = some (record { version = codes "v1.18.2" }); archive = codes "tgz" }

abbrev pub world : Env
world = record {
  quote = λ s. codes "\"" ++ (s ++ codes "\"");
  set_status_condition = λ log cs c. set_condition (length log) cs c;
  get_target_cluster = λ log name. ok ready_cluster;
  get_cluster_prerequisites = λ log name. ok fresh_prerequisites;
  get_secret = λ log name.
      if text_eq name.name (codes "kc") then ok kubeconfig_secret else ok credentials_secret;
  update_target_cluster_status = λ log tc. ok tt;
  update_cluster_prerequisites_status = λ log cp. ok tt;
  rest_config_from_kubeconfig = λ kubeconfig. ok (record { connection = kubeconfig; timeout = 0 });
  new_client_config_from_bytes = λ kubeconfig. ok (record { kubeconfig = kubeconfig });
  client_config = λ config. ok (record { connection = config.kubeconfig; timeout = 0 });
  new_discovery_client = λ config. ok (record { config = config });
  new_clientset = λ config. ok (record { config = config });
  server_version = λ log c. ok (codes "v1.31.4+k3s1");
  list_nodes = λ log c. ok (codes "n1" ∷ codes "n2" ∷ []);
  get_namespace = λ log c name. err not_found_error;
  create_namespace = λ log c name. ok tt;
  get_remote_secret = λ log c name. err not_found_error;
  create_remote_secret = λ log c name secret. ok tt;
  update_remote_secret = λ log c name secret. ok tt;
  new_registry_client = ok tt;
  login = λ log host username password. ok tt;
  pull = λ log ref. ok (record { chart = some (codes "tgz") });
  parse_url = λ s. ok (record { text = s });
  is_abs = λ u. has_prefix u.text (codes "https://");
  join_path = λ base name. record { text = base.text ++ name };
  resolve_reference = λ base u. record { text = base.text ++ u.text };
  new_get_request = λ target. ok tt;
  fetch = λ log target limit. ok (record { status_code = 200; body = ok (codes "tgz") });
  unmarshal_index = λ yaml. ok (record { source = yaml });
  index_get = λ index name version. ok (record { urls = codes "c-1.tgz" ∷ [] });
  load_archive = λ archive. ok (chart_v2 (some chart));
  init_configuration =
      λ cluster namespace. ok (record { cluster = cluster; namespace = namespace });
  get_release = λ log config name. err (new_error (codes "release: not found"));
  install = λ log config request. ok (release_v1 (some (record { chart = some request.chart })));
  upgrade = λ log config request. ok (release_v1 (some (record { chart = some request.chart })));
}

pub world-SetsConditions : SetsConditions world
world-SetsConditions = record {
  found = λ log cs c. found_lem (length log) cs c;
  kept = λ log cs c t different. kept_lem (length log) cs c t different;
  settled = λ log later cs c. settled_lem (length log) (length later) cs c;
}
