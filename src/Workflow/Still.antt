-- ===== src/Workflow/Still.antt =====
-- Making a workflow's builder and deployer (controllers/workflow) leaves the workflow as it is.
use cloudrun.Base.{◌≡◌, refl, Bool, true, false, Option, none, some, arith}
use cloudrun.Api.Workflow.{BuildSpec, DeploySpec, Workflow, WorkflowSpec}
use cloudrun.Cluster.Outcome.{deref}
use cloudrun.Cluster.Client.{Cluster}
use cloudrun.Cluster.Client as Client
use cloudrun.Cluster.Crd.{Run}
use cloudrun.Cluster.Still.{Still, bind-Still, deref-Still}
use cloudrun.Core.Context.{Context}
use cloudrun.Core.Still.{create_resource-Still}
use cloudrun.Workflow.Dockerfile.{get_dockerfile, second_stage}
use cloudrun.Workflow.Workload.{
  generate_builder, generate_deployer, generate_workload, image_name, new_builder, new_deployer,
}

module _ (K : Cluster) where
  second_stage-Still :
      (d : DeploySpec) (change : Bool) (s : Run K.World Workflow)
      → (second_stage d change s).1.self ≡ s.self
  unfolding second_stage
  second_stage-Still d change s = ground arith

  get_dockerfile-Still :
      (spec : WorkflowSpec) (s : Run K.World Workflow) → (get_dockerfile K spec s).1.self ≡ s.self
  unfolding get_dockerfile
  get_dockerfile-Still spec = bind-Still (deref spec.build) _ (deref-Still spec.build) λ b.
      bind-Still (deref spec.deploy) _ (deref-Still spec.deploy) λ d.
        bind-Still (second_stage d d.change_env) _ (second_stage-Still d d.change_env)
          λ second s. refl

  image_name-Still :
      (spec : WorkflowSpec) (d : DeploySpec) (s : Run K.World Workflow)
      → (image_name spec d s).1.self ≡ s.self
  image_name-Still spec d s = ground arith

  module _ (ctx : Context) where
    new_builder-Still : Still (new_builder K ctx)
    unfolding new_builder
    new_builder-Still s =
        let w = s.self in
        bind-Still (deref w.spec.build) _ (deref-Still w.spec.build)
          (λ b. bind-Still (get_dockerfile K w.spec) _ (get_dockerfile-Still w.spec) λ raw.
            bind-Still (deref b.registry_location) _ (deref-Still b.registry_location) λ location t.
              bind-Still (deref w.spec.deploy) _ (deref-Still w.spec.deploy) (λ d v. refl)
                (record t { world = (K.new_uuid t.world).1 }))
          s

    new_deployer-Still : Still (new_deployer K ctx)
    unfolding new_deployer
    new_deployer-Still s =
        let w = s.self in
        bind-Still (deref w.spec.deploy) _ (deref-Still w.spec.deploy)
          (λ d. bind-Still (image_name w.spec d) _ (image_name-Still w.spec d) λ image t. refl) s

    generate_builder-Still : (b : Option BuildSpec) → Still (generate_builder K ctx b)
    generate_builder-Still none = λ s. refl
    generate_builder-Still (some _) =
        bind-Still (new_builder K ctx) _ new_builder-Still
          λ b. create_resource-Still K ctx Client.builder b false true

    generate_deployer-Still : (d : Option DeploySpec) → Still (generate_deployer K ctx d)
    generate_deployer-Still none = λ s. refl
    generate_deployer-Still (some _) =
        bind-Still (new_deployer K ctx) _ new_deployer-Still
          λ d. create_resource-Still K ctx Client.deployer d false true

    pub generate_workload-Still : Still (generate_workload K ctx)
    unfolding generate_workload
    generate_workload-Still s =
        bind-Still (generate_builder K ctx s.self.spec.build) _
          (generate_builder-Still s.self.spec.build)
          (λ _. generate_deployer-Still s.self.spec.deploy) s
