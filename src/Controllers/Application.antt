-- ===== src/Controllers/Application.antt =====
-- controllers/application_controller.go: nothing is done for an application yet.
use cloudrun.Types.{NamespacedName}
use cloudrun.Cluster.Outcome.{Outcome, ok}
use cloudrun.Cluster.Client.{Cluster}
use cloudrun.Controllers.Reconcile.{Result, no_requeue}

unfoldable pub reconcile : (K : Cluster) → NamespacedName → K.World → Outcome Result × K.World
reconcile K req w = (ok no_requeue, w)
