-- ===== src/Tests/HelmRuns.antt =====
-- Runs of the code in internal/helm.
use rancher_operator.Helm.Json.Reader.{to_utf8}
use rancher_operator.Helm.PullSecret.Reader.{read_dockerconfigjson}
use rancher_operator.Helm.PullSecret.RoundTrip.{read-dockerconfigjson}
use rancher_operator.Common.{
  Result, Option, ◌≡◌, ◌↔◌, ◌⊎◌, refl, none, some, [], ◌∷◌, ok, err, Error, new_error, arith,
  is_not_found, is_already_exists, is_ok, true, false, ◌++◌, wrap,
}
use rancher_operator.Common.Text.{Bytes, trim_right, codes, text_eq, contains, has_prefix}
use rancher_operator.Api.Meta.{NamespacedName, secret_value, lookup}
use rancher_operator.Runtime.{Chart, Env, Log, Clientset, got_remote_secret, got_namespace, Fields}
use rancher_operator.Helm.Getter.{
  KubeconfigRestClientGetter, new_getter, to_rest_config, to_discovery_client, to_rest_mapper,
  to_raw_kube_config_loader,
}
use rancher_operator.Helm.Getter.Laws.{new_getter_fails_alike}
use rancher_operator.Helm.Base64.{digit, encode}
use rancher_operator.Helm.Json.{
  hex, escape_ascii, rune_length, at_line_separator, separator_digit, escape_from, marshal_string,
}
use rancher_operator.Helm.PullSecret.{
  auth_entry, dockerconfigjson, ensure_namespace, create_if_missing, ensure_secret,
  ensure_image_pull_secret,
}
use rancher_operator.Helm.PullSecret.Laws.{
  Provides, created, ensure_secret_of_Provides, ensure_namespace_iff,
}
use rancher_operator.Helm.PullSecret.Ensured.{IsEnsured, ensure_image_pull_secret-IsEnsured}
use rancher_operator.Helm.Installer.{
  OciCredentials, InstallOrUpgradeOptions, log_in, as_chart_v2, as_release_v1, is_release_not_found,
  load_chart_from_oci, run_install, install_or_upgrade,
}
use rancher_operator.Helm.Installer.Oci.{Pulls, load_chart_from_oci-Pulls}
use rancher_operator.Helm.Installer.Releases.{Decides, install_or_upgrade-Decides}
use rancher_operator.Helm.Repository.{
  http_get, absolute, as_repo_chart, resolve_chart_url, load_chart_from_repo,
}
use rancher_operator.Helm.Repository.Fetches.{fetch_of, Fetches, load_chart_from_repo-Fetches}
use rancher_operator.Tests.World.{world, chart}

abbrev clientset : Clientset
clientset = record { config = record { connection = codes "k"; timeout = 0 } }

abbrev getter : KubeconfigRestClientGetter
getter = record { parsed = ok (record { kubeconfig = codes "k" }) }

-- As `base64` prints them.
encodes : encode (codes "user:pa") ≡ codes "dXNlcjpwYQ=="
unfolding encode digit
encodes = refl

-- A quote, an ampersand, a byte that is no UTF-8, and U+2028.
escapes :
    marshal_string (b'"' ∷ b'&' ∷ 0xff ∷ 0xe2 ∷ 0x80 ∷ 0xa8 ∷ 0xc3 ∷ 0xa9 ∷ [])
    ≡ b'"' ∷ (codes "\\\"\\u0026\\ufffd\\u2028" ++ (0xc3 ∷ 0xa9 ∷ b'"' ∷ []))
unfolding marshal_string escape_from hex escape_ascii rune_length at_line_separator separator_digit
escapes = refl

prints :
    dockerconfigjson (codes "r.io") (codes "u") (codes "p")
    ≡ ok (codes "{\"auths\":{\"r.io\":{\"username\":\"u\",\"password\":\"p\",\"auth\":\"dTpw\"}}}")
unfolding dockerconfigjson auth_entry encode digit marshal_string escape_from hex escape_ascii
    rune_length at_line_separator separator_digit
prints = refl

-- The world in which no kubeconfig parses.
abbrev bad : Error
bad = new_error (codes "bad")

abbrev garbled_world : Env
garbled_world = record world { new_client_config_from_bytes = λ kubeconfig. err bad }

new_getter_fails_alike_example :
    (to_rest_config garbled_world (new_getter garbled_world (codes "k"))
      ≡ err (wrap (codes "parsing kubeconfig") bad))
    × (to_discovery_client garbled_world (new_getter garbled_world (codes "k"))
        ≡ err (wrap (codes "parsing kubeconfig") bad))
    × (to_rest_mapper garbled_world (new_getter garbled_world (codes "k"))
        ≡ err (wrap (codes "parsing kubeconfig") bad))
    × (to_raw_kube_config_loader (new_getter garbled_world (codes "k")) ≡ none)
new_getter_fails_alike_example = new_getter_fails_alike garbled_world (codes "k") bad refl

abbrev name : NamespacedName
name = record { namespace = codes "traefik"; name = codes "application-collection" }

creates :
    ensure_secret world clientset name (codes "d") []
    ≡ (ok tt, (ensure_secret world clientset name (codes "d") []).1)
unfolding ensure_secret create_if_missing
creates = refl

-- The world that has the wanted Secret.
abbrev settled_world : Env
settled_world = record world { get_remote_secret = λ log c n. ok (created (codes "d")) }

created-Provides : Provides (codes "d") (created (codes "d"))
unfolding secret_value lookup text_eq
created-Provides = record { right_type = refl; right_data = refl }

ensure_secret_of_Provides_example :
    ensure_secret settled_world clientset name (codes "d") []
    ≡ (ok tt, got_remote_secret clientset name (ok (created (codes "d"))) ∷ [])
ensure_secret_of_Provides_example =
    ensure_secret_of_Provides settled_world clientset name (codes "d") [] (created (codes "d")) refl
      created-Provides

ensures : ensure_image_pull_secret world getter name (codes "r.io") (codes "u") (codes "p") [] ≡ (
  ok tt,
  (ensure_image_pull_secret world getter name (codes "r.io") (codes "u") (codes "p") []).1,
)
unfolding ensure_image_pull_secret ensure_namespace ensure_secret create_if_missing to_rest_config
    dockerconfigjson
ensures = refl

ensure_image_pull_secret-IsEnsured_example :
    IsEnsured world getter name
      (codes "r.io")
      (codes "u")
      (codes "p")
      []
      (ensure_image_pull_secret world getter name (codes "r.io") (codes "u") (codes "p") []).1
ensure_image_pull_secret-IsEnsured_example =
    ensure_image_pull_secret-IsEnsured world getter name (codes "r.io") (codes "u") (codes "p") [] _
      ensures

abbrev creds : OciCredentials
creds = record { username = codes "u"; password = codes "p" }

loads :
    load_chart_from_oci world (codes "oci://h/c") (codes "1") creds []
    ≡ (ok (some chart), (load_chart_from_oci world (codes "oci://h/c") (codes "1") creds []).1)
unfolding load_chart_from_oci log_in as_chart_v2 has_prefix
loads = refl

load_chart_from_oci-Pulls_example :
    Pulls world
      (codes "oci://h/c")
      (codes "1")
      creds
      (some chart)
      []
      (load_chart_from_oci world (codes "oci://h/c") (codes "1") creds []).1
load_chart_from_oci-Pulls_example =
    load_chart_from_oci-Pulls world (codes "oci://h/c") (codes "1") creds [] (some chart) _ loads

abbrev options : InstallOrUpgradeOptions
options = record {
  release_name = codes "r";
  namespace = codes "n";
  create_namespace = true;
  chart = some chart;
  values = Fields.end;
  timeout = 0;
}

install_or_upgrade-Decides_example :
    ((is_ok (install_or_upgrade world getter options []).0 ≡ false)
      × ((install_or_upgrade world getter options []).1 ≡ []))
    ⊎ Decides options [] (install_or_upgrade world getter options []).1
install_or_upgrade-Decides_example = install_or_upgrade-Decides world getter options []

installs :
    (install_or_upgrade world getter options []).0 ≡ ok (some (record { chart = some chart }))
unfolding install_or_upgrade run_install is_release_not_found contains has_prefix as_release_v1
installs = refl

abbrev looked_up : Log
looked_up = got_namespace clientset (codes "n") (world.get_namespace [] clientset (codes "n")) ∷ []

ensure_namespace_iff_example : ((ensure_namespace world clientset (codes "n") []).0 ≡ ok tt) ↔ (
    (is_ok (world.get_namespace [] clientset (codes "n")) ≡ true)
    ⊎ ((e : Error) × (world.get_namespace [] clientset (codes "n") ≡ err e)
        × (is_not_found e ≡ true)
        × ((world.create_namespace looked_up clientset (codes "n") ≡ ok tt)
            ⊎ ((e' : Error) × (world.create_namespace looked_up clientset (codes "n") ≡ err e')
                × (is_already_exists e' ≡ true)))))
ensure_namespace_iff_example = ensure_namespace_iff world clientset (codes "n") []

abbrev repo_run : Result (Option Chart) × Log
repo_run = load_chart_from_repo world (codes "https://r.io//") (codes "c") (codes "1") []

-- The index, and an archive beside it.
fetches : repo_run ≡ (
  ok (some chart),
  fetch_of
      (codes "https://r.io/c-1.tgz")
      (codes "tgz")
      (fetch_of (codes "https://r.io/index.yaml") (codes "tgz") []),
)
unfolding load_chart_from_repo resolve_chart_url http_get absolute as_repo_chart trim_right
    has_prefix
fetches = refl

load_chart_from_repo-Fetches_example :
    Fetches world (codes "https://r.io//") (codes "c") (codes "1") (some chart) [] (
      fetch_of
        (codes "https://r.io/c-1.tgz")
        (codes "tgz")
        (fetch_of (codes "https://r.io/index.yaml") (codes "tgz") []))
load_chart_from_repo-Fetches_example =
    load_chart_from_repo-Fetches world (codes "https://r.io//") (codes "c") (codes "1") []
      (some chart) _ fetches

-- A password that is not UTF-8.
abbrev odd_password : Bytes
odd_password = b'p' ∷ 0xff ∷ []

read-dockerconfigjson_example :
    (text : Bytes) × (dockerconfigjson (codes "r.io") (codes "u<1>") odd_password ≡ ok text)
    × (read_dockerconfigjson text
        ≡ some (record {
          registry = to_utf8 (codes "r.io");
          username = to_utf8 (codes "u<1>");
          password = to_utf8 odd_password;
          auth = codes "u<1>" ++ (b':' ∷ odd_password);
        }))
read-dockerconfigjson_example =
    read-dockerconfigjson (codes "r.io") (codes "u<1>") odd_password (omega arith) (omega arith)
