-- ===== src/Helm/Installer/Oci.antt =====
-- What `LoadChartFromOCI` asks of the registry.
use rancher_operator.Common.{
  ◌≡◌, ◌≢◌, refl, subst, ap, not, ◌&&◌, Option, none, some, [], ◌∷◌, ◌++◌, Result, ok, arith,
  if◌then◌else◌,
}
use rancher_operator.Common.Text.{Text, Bytes, is_empty, has_prefix, trim_prefix, before}
use rancher_operator.Common.Text.Laws.{append-trim_prefix}
use rancher_operator.Runtime.{
  Env, Log, Chart, LoadedChart, chart_v2, other_chart, PullResult, pulled, logged_in, exit_if-rule,
  or_exit-rule, attempt-rule, some_or_exit-rule,
}
use rancher_operator.Helm.Installer.{
  OciCredentials, oci_scheme, chart_data, as_chart_v2, log_in, load_chart_from_oci,
}

-- The calls of a login that succeeded: none for anonymous registries.
abbrev pub login_calls : Text → OciCredentials → Log → Log
login_calls host creds log =
    if is_empty creds.username && is_empty creds.password
    then log
    else logged_in host creds.username creds.password (ok tt) ∷ log

-- The reference is an OCI reference, with the calls, in this order: a login at its host, if there
-- are credentials, and a pull of its rest with the version as the tag. The archive that the pull
-- carried is not empty, and is the chart.
pub record Pulls (env : Env) (oci_ref version : Text) (creds : OciCredentials)
    (chart : Option Chart) (log after : Log) : Type 0 where
  pub rest : Text
  pub archive : Bytes
  pub reference : oci_ref ≡ oci_scheme ++ rest
  pub calls :
      after
      ≡ pulled (rest ++ (b':' ∷ version)) (ok (record { chart = some archive }))
        ∷ login_calls (before b'/' rest) creds log
  pub filled : archive ≢ []
  pub loaded : env.load_archive archive ≡ ok (chart_v2 chart)

chart_data-eq-some :
    (result : PullResult) (archive : Bytes)
    → chart_data result ≡ some archive
    → (result ≡ record { chart = some archive }) × (archive ≢ [])
chart_data-eq-some r archive h = by_chart r.chart h
  where
    by_chart :
        (c : Option Bytes)
        → chart_data (record { chart = c }) ≡ some archive
        → ◌≡◌ {A = PullResult} (record { chart = c }) (record { chart = some archive })
          × (archive ≢ [])
    by_chart none e = absurd (ground arith)
    by_chart (some []) e = absurd (ground arith)
    by_chart (some (b ∷ bs)) e = ground arith

as_chart_v2-eq-ok :
    (ref : Text) (loaded : LoadedChart) (chart : Option Chart)
    → as_chart_v2 ref loaded ≡ ok chart
    → loaded ≡ chart_v2 chart
unfolding as_chart_v2
as_chart_v2-eq-ok ref (chart_v2 c) chart h = ground arith
as_chart_v2-eq-ok ref (other_chart t) chart h = absurd (ground arith)

module _ (env : Env) where
  log_in_calls :
      (host : Text) (creds : OciCredentials) (log after : Log)
      → log_in env host creds log ≡ (ok tt, after)
      → after ≡ login_calls host creds log
  unfolding log_in
  log_in_calls host creds log after h = ground arith

  Pulls-when_ok :
      (oci_ref version : Text) (creds : OciCredentials) (log : Log) (chart : Option Chart)
      → let p = load_chart_from_oci env oci_ref version creds log in
        p.0 ≡ ok chart → Pulls env oci_ref version creds chart log p.1
  unfolding load_chart_from_oci
  Pulls-when_ok oci_ref version creds log chart =
      let P : Result (Option Chart) × Log → Type 0 =
        λ p. p.0 ≡ ok chart → Pulls env oci_ref version creds chart log p.1 in
      exit_if-rule P (not (has_prefix oci_ref oci_scheme)) log _ _ (λ _ h. absurd (ground arith))
        λ oci.
          or_exit-rule P env.new_registry_client log _ _ (λ _ _ h. absurd (ground arith))
            λ _ _.
              attempt-rule P (log_in env _ creds log) _ _ (λ _ _ _ h. absurd (ground arith))
                λ _ entered entry.
                  or_exit-rule P (env.pull entered _) _ _ _ (λ _ _ h. absurd (ground arith))
                    λ result got.
                      some_or_exit-rule P (chart_data result) _ _ _ (λ _ h. absurd (ground arith))
                        λ archive carried.
                          or_exit-rule P (env.load_archive archive) _ _ _
                            (λ _ _ h. absurd (ground arith))
                            λ loaded opened h.
                              let (whole, filled) = chart_data-eq-some result archive carried in
                              record {
                                rest = trim_prefix oci_ref oci_scheme;
                                archive = archive;
                                reference = append-trim_prefix oci_ref oci_scheme (ground arith);
                                calls = rw (got, whole, log_in_calls _ creds log entered entry);
                                filled = filled;
                                loaded = rw opened (ap ok (as_chart_v2-eq-ok _ loaded chart h));
                              }

  -- A chart that a run returned is of an OCI reference: the run logged in at its host first, if there
  -- are credentials, and then pulled the version; the archive that came is not empty and is the chart.
  pub load_chart_from_oci-Pulls :
      (oci_ref version : Text) (creds : OciCredentials) (log : Log) (chart : Option Chart)
      (after : Log)
      → load_chart_from_oci env oci_ref version creds log ≡ (ok chart, after)
      → Pulls env oci_ref version creds chart log after
  load_chart_from_oci-Pulls oci_ref version creds log chart after h =
      subst (λ p. p.0 ≡ ok chart → Pulls env oci_ref version creds chart log p.1) h
        (Pulls-when_ok oci_ref version creds log chart) refl
