-- ===== src/Workflow/Handoff.antt =====
-- The builder and the deployer that a workflow makes (controllers/workflow/workflow.go) fit together:
-- the finished build starts the deployer's round (controllers/build/builder.go).
use cloudrun.Base.{◌≡◌, true, some, [], ◌∷◌, pos, arith}
use cloudrun.Api.Builder.{Builder, DeployerHook}
use cloudrun.Api.Builder as B
use cloudrun.Api.Deployer.{Deployer}
use cloudrun.Api.Workflow.{BuildSpec, DeploySpec, Workflow}
use cloudrun.Cluster.Outcome.{ok}
use cloudrun.Cluster.Client.{Cluster}
use cloudrun.Cluster.Crd.{Run}
use cloudrun.Core.Context.{Context, name}
use cloudrun.Build.Trigger.{hook_round, triggered}
use cloudrun.Workflow.Workload.{main_container, new_builder, new_deployer}

module _ (K : Cluster) (ctx : Context) (s : Run K.World Workflow) (build : BuildSpec)
    (deploy : DeploySpec) (has_build : s.self.spec.build ≡ some build)
    (has_deploy : s.self.spec.deploy ≡ some deploy) where
  -- The hook of the builder that a workflow makes.
  abbrev pub handoff : DeployerHook
  handoff = record {
    deployer_name = name ctx;
    resource_pool = deploy.resource_pool;
    image = "";
    dynamic_image = true;
    force_round = true;
  }

  pub new_deployer-waits :
      (d : Deployer) (t : Run K.World Workflow)
      → new_deployer K ctx s ≡ (ok d, t)
      → (d.spec.round ≡ pos 0)
        × (d.spec.containers ≡ main_container deploy "fake-image" ∷ deploy.sidecar_list)
        × (d.spec.type ≡ deploy.type)
  unfolding new_deployer
  new_deployer-waits d t made = ground arith

  pub new_builder-hooks :
      (b : Builder) (t : Run K.World Workflow)
      → new_builder K ctx s ≡ (ok b, t)
      → (b.spec.deployer_hooks ≡ handoff ∷ []) × (b.spec.round ≡ s.self.spec.round)
  unfolding new_builder
  new_builder-hooks b t made = ground arith

  -- For a workflow with a build: the deployer that it makes stands at round 0 with an image that is
  -- never pulled, and the builder that it makes has one hook; when that hook meets a deployer whose
  -- spec is still the made one, then it sends it to the workflow's round, with the image that the
  -- builder built in its first container, the sidecars as they were, and the workflow's pool.
  pub new_builder-new_deployer :
      (b : Builder) (d at_work : Deployer) (t u : Run K.World Workflow) (v : Run K.World Builder)
      → new_builder K ctx s ≡ (ok b, t)
      → new_deployer K ctx s ≡ (ok d, u)
      → at_work.spec ≡ d.spec
      → (d.spec.round ≡ pos 0)
        × (b.spec.deployer_hooks ≡ handoff ∷ [])
        × (triggered handoff b at_work v ≡ (
          ok (record at_work {
            spec = record {
              type = deploy.type;
              containers = main_container deploy b.spec.destination ∷ deploy.sidecar_list;
              round = s.self.spec.round;
              resource_pool = deploy.resource_pool;
            };
          }),
          v,
        ))
  unfolding triggered hook_round B.get_round
  new_builder-new_deployer b d at_work t u v built made same =
      ground (arith, new_deployer-waits d u made, new_builder-hooks b t built)
