-- ===== src/Helm/Repository/Fetches.antt =====
-- What `LoadChartFromRepo` fetches.
use rancher_operator.Common.{
  ◌⊎◌, true, false, ◌≡◌, refl, subst, ap, Option, some, ◌∷◌, ◌++◌, Result, ok, arith,
}
use rancher_operator.Common.Text.{Text, Bytes, codes, trim_right}
use rancher_operator.Runtime.{
  Env, Log, Chart, chart_v2, other_chart, LoadedChart, Url, ChartVersion, IndexFile, fetched,
  attempt-rule, or_exit-rule, some_or_exit-rule,
}
use rancher_operator.Helm.Repository.{
  default_index_timeout, as_repo_chart, first_of, http_get, absolute, resolve_chart_url,
  load_chart_from_repo,
}

-- The call of a request that was answered with the status 200 and this body.
abbrev pub fetch_of : Text → Bytes → Log → Log
fetch_of target contents log =
    fetched target default_index_timeout (ok (record { status_code = 200; body = ok contents }))
    ∷ log

-- The URL of the chart comes from the first entry that the index of the repository has for this
-- name and version: as it is if it is absolute, by reference to the repository if not. The only call
-- gets that index, from below the repository's URL with its slashes at the end made one.
pub record Resolves (env : Env) (repo_url name version url : Text) (before after : Log)
    : Type 0 where
  pub base : Url
  pub index_contents : Bytes
  pub index : IndexFile
  pub entry : ChartVersion
  pub raw : Text
  pub parsed : Url
  pub repository : env.parse_url (trim_right b'/' repo_url ++ codes "/") ≡ ok base
  pub calls : after ≡ fetch_of (env.join_path base (codes "index.yaml")).text index_contents before
  pub read : env.unmarshal_index index_contents ≡ ok index
  pub listed : env.index_get index name version ≡ ok entry
  pub first : first_of entry.urls ≡ some raw
  pub location : env.parse_url raw ≡ ok parsed
  pub made_absolute :
      ((env.is_abs parsed ≡ true) × (url ≡ parsed.text))
      ⊎ ((env.is_abs parsed ≡ false) × (url ≡ (env.resolve_reference base parsed).text))

-- The chart is what the archive at that URL holds; one more call gets it.
pub record Fetches (env : Env) (repo_url name version : Text) (chart : Option Chart)
    (before after : Log) : Type 0 where
  pub url : Text
  pub contents : Bytes
  pub resolved_log : Log
  pub resolved : Resolves env repo_url name version url before resolved_log
  pub calls : after ≡ fetch_of url contents resolved_log
  pub loaded : env.load_archive contents ≡ ok (chart_v2 chart)

as_repo_chart-eq-ok :
    (name : Text) (loaded : LoadedChart) (chart : Option Chart)
    → as_repo_chart name loaded ≡ ok chart
    → loaded ≡ chart_v2 chart
unfolding as_repo_chart
as_repo_chart-eq-ok name (chart_v2 c) chart h = ground arith
as_repo_chart-eq-ok name (other_chart t) chart h = absurd (ground arith)

module _ (env : Env) where
  absolute-cases :
      (base parsed : Url)
      → ((env.is_abs parsed ≡ true) × (absolute env base parsed ≡ parsed.text))
        ⊎ ((env.is_abs parsed ≡ false)
            × (absolute env base parsed ≡ (env.resolve_reference base parsed).text))
  unfolding absolute
  absolute-cases base parsed = ground arith

  http_get_calls :
      (target : Text) (log after : Log) (contents : Bytes)
      → http_get env target log ≡ (ok contents, after)
      → after ≡ fetch_of target contents log
  unfolding http_get
  http_get_calls target log after contents h = ground arith

  Resolves-when_ok :
      (repo_url name version url : Text) (before : Log)
      → let p = resolve_chart_url env repo_url name version before in
        p.0 ≡ ok url → Resolves env repo_url name version url before p.1
  unfolding resolve_chart_url
  Resolves-when_ok repo_url name version url before =
      let P : Result Text × Log → Type 0 =
        λ p. p.0 ≡ ok url → Resolves env repo_url name version url before p.1 in
      or_exit-rule P (env.parse_url (trim_right b'/' repo_url ++ codes "/")) before _ _
        (λ _ _ h. absurd (ground arith))
        λ base repository.
          attempt-rule P (http_get env (env.join_path base (codes "index.yaml")).text before) _ _
            (λ _ _ _ h. absurd (ground arith))
            λ index_contents fetched_log got.
              or_exit-rule P (env.unmarshal_index index_contents) fetched_log _ _
                (λ _ _ h. absurd (ground arith))
                λ index read.
                  or_exit-rule P (env.index_get index name version) fetched_log _ _
                    (λ _ _ h. absurd (ground arith))
                    λ entry listed.
                      some_or_exit-rule P (first_of entry.urls) fetched_log _ _
                        (λ _ h. absurd (ground arith))
                        λ raw first.
                          or_exit-rule P (env.parse_url raw) fetched_log _ _
                            (λ _ _ h. absurd (ground arith))
                            λ parsed location h.
                              let same : absolute env base parsed ≡ url = ground arith in
                              record {
                                base = base;
                                index_contents = index_contents;
                                index = index;
                                entry = entry;
                                raw = raw;
                                parsed = parsed;
                                repository = repository;
                                calls = http_get_calls _ before fetched_log index_contents got;
                                read = read;
                                listed = listed;
                                first = first;
                                location = location;
                                made_absolute = rw (← same) (absolute-cases base parsed);
                              }

  resolve_chart_url-Resolves :
      (repo_url name version url : Text) (before after : Log)
      → resolve_chart_url env repo_url name version before ≡ (ok url, after)
      → Resolves env repo_url name version url before after
  resolve_chart_url-Resolves repo_url name version url before after h =
      subst (λ p. p.0 ≡ ok url → Resolves env repo_url name version url before p.1) h
        (Resolves-when_ok repo_url name version url before) refl

  Fetches-when_ok :
      (repo_url name version : Text) (before : Log) (chart : Option Chart)
      → let p = load_chart_from_repo env repo_url name version before in
        p.0 ≡ ok chart → Fetches env repo_url name version chart before p.1
  unfolding load_chart_from_repo
  Fetches-when_ok repo_url name version before chart =
      let P : Result (Option Chart) × Log → Type 0 =
        λ p. p.0 ≡ ok chart → Fetches env repo_url name version chart before p.1 in
      attempt-rule P (resolve_chart_url env repo_url name version before) _ _
        (λ _ _ _ h. absurd (ground arith))
        λ url resolved_log resolved.
          attempt-rule P (http_get env url resolved_log) _ _ (λ _ _ _ h. absurd (ground arith))
            λ contents after got.
              or_exit-rule P (env.load_archive contents) after _ _ (λ _ _ h. absurd (ground arith))
                λ loaded opened h. record {
                  url = url;
                  contents = contents;
                  resolved_log = resolved_log;
                  resolved =
                      resolve_chart_url-Resolves repo_url name version url before resolved_log
                        resolved;
                  calls = http_get_calls url resolved_log after contents got;
                  loaded = rw opened (ap ok (as_repo_chart-eq-ok _ loaded chart h));
                }

  -- A chart that a run returned was got in two requests, both answered with the status 200: the
  -- index of the repository, and then the archive at the first URL that it has for the chart.
  pub load_chart_from_repo-Fetches :
      (repo_url name version : Text) (before : Log) (chart : Option Chart) (after : Log)
      → load_chart_from_repo env repo_url name version before ≡ (ok chart, after)
      → Fetches env repo_url name version chart before after
  load_chart_from_repo-Fetches repo_url name version before chart after h =
      subst (λ p. p.0 ≡ ok chart → Fetches env repo_url name version chart before p.1) h
        (Fetches-when_ok repo_url name version before chart) refl
