-- ===== src/Tests/Stores.antt =====
-- The theorems on a store, applied to the cluster in memory.
use cloudrun.Base.{◌≡◌, refl, String, true, false, some, List, [], ◌∷◌}
use cloudrun.Types.{CommonStatus, done}
use cloudrun.Api.Meta.{OwnerReference}
use cloudrun.Api.Builder.{Builder}
use cloudrun.Api.Deployer.{Deployer}
use cloudrun.Api.Schema.{default_builder, default_deployer}
use cloudrun.Cluster.Outcome.{ok}
use cloudrun.Cluster.Client.{Kind, Obj, builder, deployer}
use cloudrun.Core.Context.{create_resource, object_key}
use cloudrun.Build.Trigger.{trigger_deployer}
use cloudrun.Workflow.Dockerfile.{compile_stage, first_stage, get_dockerfile, second_stage}
use cloudrun.Workflow.Workload.{generate_workload}
use cloudrun.Store.{Wrote}
use cloudrun.Store.Create.{create_resource-Wrote, settled}
use cloudrun.Store.Delivery.{delivered, generate_workload-trigger_deployer}
use cloudrun.Tests.Memory.{Store, memory, memory-IsLawful}
use cloudrun.Tests.Stored.{memory-IsStore, stored}
use cloudrun.Tests.Samples.{
  a_build, a_builder, a_deploy, a_deployer, a_workflow, ctx, empty, in_round, no_objects, run,
}

abbrev pub holder : OwnerReference
holder = record {
  api_version = "v1";
  kind = "Builder";
  name = "site";
  uid = "u";
  block_owner_deletion = some true;
}

abbrev pub ended : CommonStatus
ended = in_round 2 done

abbrev of_round : Builder
of_round = a_builder 3 ended

-- The server with a builder and a deployer.
abbrev served : Store
served = record empty { shelf = shelf }
  where
    shelf : (k : Kind) → List (Obj k)
    shelf builder = of_round ∷ []
    shelf deployer = a_deployer ∷ []
    shelf k = no_objects k

create_resource-Wrote_example :
    (v : Store) × (create_resource memory ctx builder of_round false true (run served tt)
      ≡ (ok tt, run v tt))
    × Wrote (stored served) (stored v) builder (object_key of_round) (
        settled builder false true
          (default_builder of_round.spec)
          (stored served builder (object_key of_round)))
unfolding memory-IsStore
create_resource-Wrote_example =
    create_resource-Wrote memory memory-IsLawful memory-IsStore ctx builder of_round holder false
      true (run served tt) refl refl

abbrev pub text : String
text = "\nFROM golang\nWORKDIR /workspace\nCOPY . .\nRUN true\n\n\n"

generate_workload-trigger_deployer_example :
    (v : Store) × (b : Builder) × (u : Store) × (q : Deployer) × (generate_workload memory ctx
        (run empty a_workflow)
      ≡ (ok tt, run v a_workflow))
    × (stored v builder ctx.namespaced_name ≡ some b)
    × (trigger_deployer memory (run v b) ≡ (ok tt, run u b))
    × (stored u deployer ctx.namespaced_name ≡ some q)
    × (q.spec ≡ default_deployer (delivered a_workflow a_deploy b.spec.destination))
unfolding memory-IsStore get_dockerfile second_stage first_stage compile_stage
generate_workload-trigger_deployer_example =
    generate_workload-trigger_deployer memory memory-IsLawful memory-IsStore ctx
      (run empty a_workflow) a_build a_deploy text refl refl "registry" holder refl refl refl
      (λ b t e. refl, λ d w e. refl)
