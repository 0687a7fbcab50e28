-- ===== src/Tests/RepetitionRuns.antt =====
-- Several runs of the ClusterPrerequisites reconciler on one cluster.
use rancher_operator.Common.{refl, []}
use rancher_operator.Common.Text.{codes}
use rancher_operator.Controller.ClusterPrerequisites.{reconcile_found}
use rancher_operator.Controller.ClusterPrerequisites.Rollout.{RollsOut}
use rancher_operator.Controller.ClusterPrerequisites.Repetition.{
  rerun, reconcile_found-keeps_rolling,
}
use rancher_operator.Tests.RolloutRuns.{
  plain_cluster, plain_server, prepared, credited, targeted, supplied_charts, supplied_traefik,
  balanced, empty-AreUsable,
}
use rancher_operator.Tests.ServerRuns.{creds, empty}
use rancher_operator.Tests.World.{chart, fresh_prerequisites}

reconcile_found-keeps_rolling_example :
    RollsOut plain_server empty
      (rerun plain_server 2 (fresh_prerequisites, [])).0
      plain_cluster
      (codes "k")
      creds
      (prepared plain_cluster)
      chart
      chart
      (rerun plain_server 2 (fresh_prerequisites, [])).1
      (reconcile_found plain_server
        (rerun plain_server 2 (fresh_prerequisites, [])).0
        (rerun plain_server 2 (fresh_prerequisites, [])).1).1
unfolding prepared
reconcile_found-keeps_rolling_example =
    reconcile_found-keeps_rolling plain_server empty fresh_prerequisites plain_cluster (codes "k")
      creds chart chart (prepared plain_cluster) (credited plain_cluster) targeted
      (supplied_charts plain_cluster) (supplied_traefik plain_cluster) refl refl balanced 2 []
      empty-AreUsable
