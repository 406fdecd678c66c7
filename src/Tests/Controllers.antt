-- ===== src/Tests/Controllers.antt =====
-- The theorems on the reconcilers and the workflow's workload at concrete inputs.
use cloudrun.Base.{◌≡◌, refl, ◌⊎◌, inl, pos, ltb_ℤ, true, false, some, [], ◌∷◌, arith}
use cloudrun.Types.{CommonStatus, Status, hash_done, is_doing, doing, done}
use cloudrun.Types as T
use cloudrun.Api.Builder.{Builder}
use cloudrun.Api.Deployer.{Deployer}
use cloudrun.Api.Workflow.{Workflow}
use cloudrun.Api.ResourcePool.{ResourcePool}
use cloudrun.Cluster.Outcome.{pure, ◌>>◌}
use cloudrun.Cluster.Client.{builder, deployer, workflow, resource_pool}
use cloudrun.Cluster.Crd.{Run, builder_crd, deployer_crd, workflow_crd, update_self_status}
use cloudrun.Cluster.Keeps.{round_of}
use cloudrun.Controllers.Builder.{by_round}
use cloudrun.Controllers.Builder.Rounds.{by_round-upward}
use cloudrun.Controllers.Deployer as DeployerController
use cloudrun.Controllers.Deployer.Rounds.{by_round-climbs}
use cloudrun.Controllers.Workflow as WorkflowController
use cloudrun.Controllers.Workflow.Rounds.{by_round-rises}
use cloudrun.Controllers.Pool.{account}
use cloudrun.Controllers.Pool.Account.{IsError, account_fits, account_over, amount}
use cloudrun.Controllers.Reconcile.{no_requeue}
use cloudrun.Controllers.Workflow.{overall}
use cloudrun.Controllers.Workflow.Overall.{overall-done}
use cloudrun.Tests.Memory.{memory, memory-IsLawful, memory-KeepsStatus, Store}
use cloudrun.Tests.Samples.{
  a_builder, a_pool, a_deployer, a_workflow, amounts, ctx, empty, in_round, run, usage_of,
  with_pool,
}

abbrev old : Run Store Builder
old = run empty (a_builder 3 (in_round 2 done))

by_round-upward_example :
    let before = round_of memory builder builder_crd old in
    let after = round_of memory builder builder_crd (by_round memory ctx old).1 in
    (after ≡ before) ⊎ ((after ≡ pos 3) × (ltb_ℤ before (pos 3) ≡ true))
by_round-upward_example = by_round-upward memory memory-KeepsStatus ctx old

abbrev old_deployer : Run Store Deployer
old_deployer = run empty (record a_deployer { spec = record a_deployer.spec { round = pos 2 } })

by_round-climbs_example :
    let before = round_of memory deployer deployer_crd old_deployer in
    let after =
      round_of memory deployer deployer_crd
        (DeployerController.by_round memory ctx old_deployer).1 in
    (after ≡ before) ⊎ ((after ≡ pos 2) × (ltb_ℤ before (pos 2) ≡ true))
by_round-climbs_example = by_round-climbs memory memory-KeepsStatus memory-IsLawful ctx old_deployer

abbrev old_workflow : Run Store Workflow
old_workflow = run empty (record a_workflow { spec = record a_workflow.spec { round = pos 4 } })

by_round-rises_example :
    let before = round_of memory workflow workflow_crd old_workflow in
    let after =
      round_of memory workflow workflow_crd
        (WorkflowController.by_round memory ctx old_workflow).1 in
    (after ≡ before) ⊎ ((after ≡ pos 4) × (ltb_ℤ before (pos 4) ≡ true))
by_round-rises_example = by_round-rises memory memory-KeepsStatus ctx old_workflow

abbrev pool : ResourcePool
pool = a_pool (usage_of "a" ∷ usage_of "b" ∷ []) (amounts 0 0)

account_fits_example :
    account memory (run (with_pool pool) pool)
    ≡ (update_self_status memory resource_pool >> pure no_requeue) (
        run
          (with_pool pool)
          (record pool { status = record pool.status { free = some (amount 600 800) } }))
account_fits_example =
    account_fits memory (run (with_pool pool) pool) 1000 1000 refl (omega arith) (omega arith)
      (200, 100, refl, (200, 100, refl, tt)) (omega arith) (omega arith)

abbrev small : ResourcePool
small = record pool { spec = record { capacity = some (amounts 300 1000) } }

account_over_example :
    (IsError (account memory (run (with_pool small) small)).0)
    × ((account memory (run (with_pool small) small)).1.world ≡ with_pool small)
account_over_example =
    account_over memory (run (with_pool small) small) 300 1000 refl (omega arith) (omega arith)
      (200, 100, refl, (200, 100, refl, tt)) (omega arith) (omega arith) (inl (omega arith))

overall-done_example :
    ((hash_done (in_round 1 done) ≡ true) × ((in_round 1 done).status ≡ done))
    ⊎ ((doing ≡ done)
        × (hash_done (in_round 1 done) ≡ false)
        × (is_doing (in_round 1 done).status ≡ false))
unfolding overall hash_done T.has_started
overall-done_example = overall-done doing (in_round 1 done) (in_round 1 done) refl
