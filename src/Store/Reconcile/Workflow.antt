-- ===== src/Store/Reconcile/Workflow.antt =====
-- `Reconcile` of a workflow (controllers/workflow_controller.go) as a whole, over a store.
use cloudrun.Api.Workflow.{Workflow}
use cloudrun.Cluster.Client.{Cluster}
use cloudrun.Finalize
use cloudrun.Workflow.Workload as Work
use cloudrun.Controllers.Workflow as WorkflowController
use cloudrun.Core.Context as Core
use cloudrun.Store.Worked as Worked
