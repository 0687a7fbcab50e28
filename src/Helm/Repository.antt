-- ===== src/Helm/Repository.antt =====
-- The classic chart repositories of internal/helm/installer.go
pub mod Fetches
use rancher_operator.Common.{
  ℕ, ◌*◌, ◌==◌, not, Option, none, some, List, [], ◌∷◌, ◌++◌, Error, Result, ok, err, new_error,
  wrap, if◌then◌else◌,
}
use rancher_operator.Common.Text.{Text, Bytes, codes, trim_right, decimal}
use rancher_operator.Runtime.{
  Env, M, return, call, ◌>>=◌, ◌>>◌, attempt, attempt_pure, require, exit_if, perform, body, Chart,
  LoadedChart, chart_v2, other_chart, Url, fetched,
}

-- in nanoseconds
abbrev pub default_index_timeout : ℕ
default_index_timeout = 30 * 1000000000

-- `name@version`
abbrev at_version : Text → Text → Text
at_version name version = name ++ (b'@' ∷ version)

-- The type assertion of `LoadChartFromRepo`.
unfoldable pub as_repo_chart : Text → LoadedChart → Result (Option Chart)
as_repo_chart chart_name (chart_v2 chart) = ok chart
as_repo_chart chart_name (other_chart type_name) = err (
    new_error (
      codes "chart "
      ++ (chart_name
          ++ (codes " is not an apiVersion v1/v2 chart (got " ++ (type_name ++ codes ")")))))

-- The first element, if there is one.
abbrev pub first_of : List Text → Option Text
first_of [] = none
first_of (x ∷ _) = some x

module _ (env : Env) where
  open env use {quote}

  -- `httpGet`
  unfoldable pub http_get : Text → M (Result Bytes)
  http_get target = body do
    attempt_pure (env.new_get_request target) (λ e. return (err e))
    response ←
        attempt
          (call (λ log. env.fetch log target default_index_timeout)
            (fetched target default_index_timeout))
          (λ e. return (err e))
    exit_if (not (response.status_code == 200)) (
        return (
          err (
            new_error
              (codes "GET " ++ (target ++ (codes ": status " ++ decimal response.status_code))))))
    perform (return response.body)

  -- The URL of a chart: an absolute one as it is, another by reference to the repository.
  unfoldable pub absolute : Url → Url → Text
  absolute base parsed =
      if not (env.is_abs parsed) then (env.resolve_reference base parsed).text else parsed.text

  -- `resolveChartURL`
  unfoldable pub resolve_chart_url : (repo_url name version : Text) → M (Result Text)
  resolve_chart_url repo_url name version = body do
    base ←
        attempt_pure (env.parse_url (trim_right b'/' repo_url ++ codes "/"))
          λ e. return (err (wrap (codes "parsing repo URL " ++ quote repo_url) e))
    let index_url = (env.join_path base (codes "index.yaml")).text
    index_bytes ←
        attempt (http_get index_url) λ e. return (err (wrap (codes "fetching " ++ index_url) e))
    index ←
        attempt_pure (env.unmarshal_index index_bytes)
          λ e. return (err (wrap (codes "parsing index.yaml") e))
    entry ← attempt_pure (env.index_get index name version) λ e. return (
        err (
          wrap (codes "chart " ++ (at_version name version ++ (codes " not found in " ++ repo_url)))
            e))
    raw ← require (first_of entry.urls) (
        return (
          err (
            new_error (
              codes "chart "
              ++ (at_version name version ++ codes " has no download URLs in index")))))
    parsed ←
        attempt_pure (env.parse_url raw)
          λ e. return (err (wrap (codes "parsing chart URL " ++ quote raw) e))
    perform (return (ok (absolute base parsed)))

  -- `LoadChartFromRepo`
  unfoldable pub load_chart_from_repo : (repo_url name version : Text) → M (Result (Option Chart))
  load_chart_from_repo repo_url name version = body do
    chart_url ← attempt (resolve_chart_url repo_url name version) λ e. return (err e)
    contents ←
        attempt (http_get chart_url)
          λ e. return (err (wrap (codes "downloading chart " ++ at_version name version) e))
    loaded ←
        attempt_pure (env.load_archive contents)
          λ e. return (err (wrap (codes "loading chart " ++ at_version name version) e))
    perform (return (as_repo_chart (at_version name version) loaded))
