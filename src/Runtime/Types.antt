-- ===== src/Runtime/Types.antt =====
-- What the operator sees of the third-party types that it passes around.
use rancher_operator.Common.{ℕ, Bool, Option, List, Result}
use rancher_operator.Common.Text.{Text, Bytes}

-- A `*rest.Config`: `Timeout`, in nanoseconds, and all else.
pub record RestConfig : Type 0 where
  pub connection : Bytes
  pub timeout : ℕ

-- A `*kubernetes.Clientset` for the cluster of a configuration.
pub record Clientset : Type 0 where
  pub config : RestConfig

-- A `discovery.CachedDiscoveryInterface` and a `meta.RESTMapper`, by the cluster that they ask.
pub record DiscoveryClient : Type 0 where
  pub config : RestConfig

pub record RestMapper : Type 0 where
  pub discovery : DiscoveryClient

-- A `clientcmd.ClientConfig`, by what it was parsed from.
pub record ClientConfig : Type 0 where
  pub kubeconfig : Bytes

-- `chart.Metadata` and a `*chartv2.Chart`
pub record Metadata : Type 0 where
  pub version : Text

pub record Chart : Type 0 where
  pub metadata : Option Metadata
  pub archive : Bytes

-- What `loader.LoadArchive` returns: a `*chartv2.Chart`, or a value of the type named.
pub data LoadedChart : Type 0 where
  chart_v2 : Option Chart → LoadedChart
  other_chart : Text → LoadedChart

-- A `*registry.PullResult`: the bytes of `Chart.Data`, `none` for a nil `Chart`.
pub record PullResult : Type 0 where
  pub chart : Option Bytes

-- A `*releasev1.Release`
pub record Release : Type 0 where
  pub chart : Option Chart

-- A `release.Releaser`: a `*releasev1.Release`, or a value of the type named.
pub data Releaser : Type 0 where
  release_v1 : Option Release → Releaser
  other_release : Text → Releaser

-- A `*url.URL`, by what its `String` prints.
pub record Url : Type 0 where
  pub text : Text

-- A `*repo.ChartVersion`, by its download URLs, and a `repo.IndexFile`, by its YAML.
pub record ChartVersion : Type 0 where
  pub urls : List Text

pub record IndexFile : Type 0 where
  pub source : Bytes

-- An `*http.Response`: the status code, and what reading the body to its end gives.
pub record Response : Type 0 where
  pub status_code : ℕ
  pub body : Result Bytes

-- A chart value, and the map `map[string]any`.
mutual
  pub data Value : Type 0 where
    text : Text → Value
    boolean : Bool → Value
    list : Values → Value
    object : Fields → Value

  pub data Values : Type 0 where
    nil : Values
    cons : Value → Values → Values

  pub data Fields : Type 0 where
    end : Fields
    field : Text → Value → Fields → Fields

-- The `*action.Configuration` that `Init` fills: the cluster and the release namespace.
pub record Configuration : Type 0 where
  pub cluster : Result ClientConfig
  pub namespace : Text

-- The fields of `action.Install` or `action.Upgrade` that the operator sets, and the arguments
-- of `RunWithContext`. Both wait by the status watcher.
pub record InstallRequest : Type 0 where
  pub release_name : Text
  pub namespace : Text
  pub create_namespace : Bool
  pub timeout : ℕ
  pub chart : Chart
  pub values : Fields

pub record UpgradeRequest : Type 0 where
  pub release_name : Text
  pub namespace : Text
  pub timeout : ℕ
  pub chart : Chart
  pub values : Fields
