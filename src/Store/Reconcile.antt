-- ===== src/Store/Reconcile.antt =====
-- The reconcilers with rounds (controllers/*_controller.go) as wholes, over a store: where they come to
-- the comparison of the rounds.
pub mod Builder
pub mod Deployer
pub mod Workflow
pub mod Twice
use cloudrun.Base.{◌≡◌, true, false, is_some, some, arith}
use cloudrun.Types.{CommonStatus, NamespacedName}
use cloudrun.Cluster.Outcome.{ok}
use cloudrun.Cluster.Client.{Cluster, Obj, builder, deployer, workflow}
use cloudrun.Cluster.Crd.{Run}
use cloudrun.Finalize
use cloudrun.Build.Names as Build
use cloudrun.Deploy.Names as Deploy
use cloudrun.Workflow.Workload as Work
use cloudrun.Controllers.Reconcile.{Result, ensure_finalizer, reconcile_with, recovered}
use cloudrun.Controllers.Builder as BuilderController
use cloudrun.Controllers.Deployer as DeployerController
use cloudrun.Controllers.Workflow as WorkflowController
use cloudrun.Store.{IsStore}
use cloudrun.Store.Worked as Worked

module _ (K : Cluster) (S : IsStore K) (n : NamespacedName) (w : K.World) (r : Result) where
  -- A builder that is there, is not to be deleted and has the finalizer.
  pub builder-by_round :
      (o : Obj builder) (t : Run K.World (Obj builder))
      → S.objects w builder n ≡ some o
      → is_some o.meta.deletion_timestamp ≡ false
      → Finalize.contains K o ≡ true
      → BuilderController.by_round K (Build.new_context o) (record { world = w; self = o })
        ≡ (ok r, t)
      → BuilderController.reconcile K n w ≡ (ok r, t.world)
  unfolding BuilderController.reconcile BuilderController.reconcile_found reconcile_with recovered
      ensure_finalizer
  builder-by_round o t there stays held ran =
      let looked = S.get-some builder n w o there in ground arith

  -- The same of a deployer, and of a workflow that has a status.
  pub deployer-by_round :
      (o : Obj deployer) (t : Run K.World (Obj deployer))
      → S.objects w deployer n ≡ some o
      → is_some o.meta.deletion_timestamp ≡ false
      → Finalize.contains K o ≡ true
      → DeployerController.by_round K (Deploy.new_context o) (record { world = w; self = o })
        ≡ (ok r, t)
      → DeployerController.reconcile K n w ≡ (ok r, t.world)
  unfolding DeployerController.reconcile DeployerController.reconcile_found reconcile_with recovered
      ensure_finalizer
  deployer-by_round o t there stays held ran =
      let looked = S.get-some deployer n w o there in ground arith

  pub workflow-by_round :
      (o : Obj workflow) (base : CommonStatus) (t : Run K.World (Obj workflow))
      → S.objects w workflow n ≡ some (Worked.with_base o base)
      → is_some o.meta.deletion_timestamp ≡ false
      → Finalize.contains K o ≡ true
      → WorkflowController.by_round K
          (Work.new_context o)
          (record { world = w; self = Worked.with_base o base })
        ≡ (ok r, t)
      → WorkflowController.reconcile K n w ≡ (ok r, t.world)
  unfolding WorkflowController.reconcile WorkflowController.reconcile_found reconcile_with recovered
      ensure_finalizer Work.new_context
  workflow-by_round o base t there stays held ran =
      let looked = S.get-some workflow n w (Worked.with_base o base) there in ground arith
