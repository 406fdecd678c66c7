-- ===== src/Tests/Reconciled.antt =====
-- The theorems on whole reconciliations over a store, applied to the cluster in memory.
use cloudrun.Base.{i32, ◌+ℤ◌, ◌≡◌, refl, false, inr, some, List, [], ◌∷◌}
use cloudrun.Types.{CommonStatus, done}
use cloudrun.Api.Meta.{ObjectMeta, new_meta}
use cloudrun.Api.Builder.{Builder}
use cloudrun.Api.Deployer.{Deployer}
use cloudrun.Api.ResourcePool.{ResourcePool}
use cloudrun.Api.Workflow.{Workflow}
use cloudrun.Cluster.Outcome.{ok}
use cloudrun.Cluster.Client.{Kind, Obj, builder, deployer, resource_pool, workflow}
use cloudrun.Cluster.Crd.{Run}
use cloudrun.Build.Names as Build
use cloudrun.Controllers.Builder as BuilderController
use cloudrun.Controllers.Deployer as DeployerController
use cloudrun.Controllers.Reconcile.{requeue}
use cloudrun.Controllers.Workflow as WorkflowController
use cloudrun.Core.Context.{object_key}
use cloudrun.Deploy.Grant.{pool_key}
use cloudrun.Deploy.Names as Deploy
use cloudrun.Deploy.Resources.{is_short, no_resource, requested}
use cloudrun.Workflow.Workload as Work
use cloudrun.Store.Cleanup as Cleanup
use cloudrun.Store.Restart.{Restarted}
use cloudrun.Store.Round as Round
use cloudrun.Store.Worked as Worked
use cloudrun.Store.Reconcile.Deployer.{reconcile-Restarted}
use cloudrun.Tests.Memory.{Store, memory, memory-IsLawful}
use cloudrun.Tests.Stored.{memory-IsStore}
use cloudrun.Tests.Stores.{ended}
use cloudrun.Tests.Samples.{
  a_builder, a_holder, a_pool, a_workflow, amounts, empty, in_round, no_objects, usage_of,
}

abbrev pub with_finalizer : ObjectMeta
with_finalizer = record (new_meta "site" "team") {
  finalizers = "finalizer.cloudapi.scs.buaa.edu.cn" ∷ [];
}

abbrev site_builder : Builder
site_builder = record (a_builder 3 ended) { meta = with_finalizer }

abbrev site_workflow : Workflow
site_workflow = record a_workflow { meta = with_finalizer }

abbrev pub site_deployer : Deployer
site_deployer = record a_holder { meta = with_finalizer }

abbrev the_pool : ResourcePool
the_pool = a_pool (usage_of "other" ∷ usage_of "site" ∷ []) (amounts 600 800)

-- The status that a deployer has before its first round.
abbrev first : CommonStatus
first = in_round 0 done

-- The server with all of them, each in a round that has ended.
abbrev waiting : Store
waiting = record empty { shelf = shelf }
  where
    shelf : (k : Kind) → List (Obj k)
    shelf builder = Round.with_base site_builder ended ∷ []
    shelf deployer = Cleanup.with_base site_deployer first ∷ []
    shelf workflow = Worked.with_base site_workflow ended ∷ []
    shelf resource_pool = the_pool ∷ []
    shelf k = no_objects k

deployer-there :
    memory-IsStore.objects waiting deployer (object_key site_deployer)
    ≡ some (Cleanup.with_base site_deployer first)
unfolding memory-IsStore
deployer-there = refl

pool-there : memory-IsStore.objects waiting resource_pool (pool_key "pool") ≡ some the_pool
unfolding memory-IsStore
pool-there = refl

enough : is_short (amounts 600 800) (requested site_deployer.spec.containers no_resource) ≡ false
unfolding requested i32 ◌+ℤ◌
enough = refl

reconcile-Restarted_example :
    (t : Run Store Deployer) × (DeployerController.reconcile memory
        (object_key site_deployer)
        waiting
      ≡ (ok (requeue 5), t.world))
    × Restarted memory memory-IsLawful
        (Deploy.new_context site_deployer)
        site_deployer
        first
        "history"
        refl
        refl
        memory-IsStore
        waiting
        the_pool
        (amounts 600 800)
        tt
        deployer-there
        pool-there
        (refl, (refl, tt))
        (inr refl)
        refl
        enough
        t
reconcile-Restarted_example =
    reconcile-Restarted memory memory-IsLawful memory-IsStore waiting site_deployer first "history"
      refl refl the_pool (amounts 600 800) tt deployer-there pool-there (refl, (refl, tt))
      (inr refl) refl enough refl refl refl
