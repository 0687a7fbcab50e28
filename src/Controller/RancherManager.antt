-- ===== src/Controller/RancherManager.antt =====
-- internal/controller/ranchermanager_controller.go
use rancher_operator.Api.Meta.{NamespacedName}
use rancher_operator.Runtime.{M, return}
use rancher_operator.Controller.Outcome.{Outcome, done}

-- `Reconcile`, which does nothing yet.
unfoldable pub reconcile : NamespacedName → M Outcome
reconcile req = return done
