-- ===== src/Deploy/Handle.antt =====
-- controllers/deploy/deployer.go, `Handle` and `CleanupForNextRound`: by type, job or service.
use cloudrun.Base.{String, ◌<>◌, Bool, none}
use cloudrun.Api.Deployer.{Deployer, DeployType, type_text}
use cloudrun.Api.Deployer as D
use cloudrun.Cluster.Outcome.{fail, gets, modify, new_error, ◌>>=◌, ◌>>◌}
use cloudrun.Cluster.Client.{Cluster, deployer}
use cloudrun.Cluster.Crd.{deployer_crd}
use cloudrun.Core.Context.{Context}
use cloudrun.Core.History
use cloudrun.Core.Job.{create_and_watch_job, delete_job}
use cloudrun.Deploy.Names.{current_round}
use cloudrun.Deploy.Resources.{Deploying, release_resource}
use cloudrun.Deploy.Template.{new_job}
use cloudrun.Deploy.Service.{delete_deployment, handle_service}

module _ (K : Cluster) (ctx : Context) where
  unfoldable pub handle_job : Deploying K (Unit {0})
  handle_job = create_and_watch_job K deployer deployer_crd ctx (new_job K ctx) Bool.false none

  abbrev unknown_type : String → Deploying K (Unit {0})
  unknown_type t = fail (new_error ("unknown deployer type: " <> t))

  unfoldable pub handle_type : DeployType → Deploying K (Unit {0})
  handle_type D.job = handle_job
  handle_type D.service = handle_service K ctx
  handle_type (D.other t) = unknown_type t

  unfoldable pub handle : Deploying K (Unit {0})
  handle = do handle_type (← gets (λ s. s.self.spec.type))

  unfoldable pub delete_workload : DeployType → Deploying K (Unit {0})
  delete_workload D.job = do delete_job K ctx (← current_round)
  delete_workload D.service = delete_deployment K ctx
  delete_workload (D.other t) = unknown_type t

  unfoldable pub cleanup_for_next_round : Deploying K (Unit {0})
  cleanup_for_next_round = do
    delete_workload (← gets (λ s. s.self.spec.type))
    release_resource K
    modify λ s. record s {
      self = record s.self { status = record s.self.status { resource_pool = "" } };
    }

  unfoldable pub backup_state : Deploying K (Unit {0})
  backup_state = do d ← gets (λ s. s.self); History.backup_state K deployer deployer_crd d.spec
