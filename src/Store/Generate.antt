-- ===== src/Store/Generate.antt =====
-- The calls of `GenerateWorkload` (controllers/workflow/workflow.go), one after the other, and what their
-- writes touch of a store.
use cloudrun.Base.{
  ◌≡◌, ◌⊎◌, refl, ◌∙◌, inl, inr, String, ◌<>◌, true, false, Option, none, some, [], ◌∷◌, arith,
}
use cloudrun.Types.{NamespacedName}
use cloudrun.Api.Meta.{no_type}
use cloudrun.Api.Builder.{Builder}
use cloudrun.Api.Deployer.{Deployer}
use cloudrun.Api.Workflow.{BuildSpec, DeploySpec, Workflow}
use cloudrun.Cluster.Outcome.{ok}
use cloudrun.Cluster.Client.{Cluster, Kind, Obj, Spec, builder, deployer}
use cloudrun.Cluster.Crd.{Run}
use cloudrun.Core.Context.{Context, create_resource, object_key}
use cloudrun.Workflow.Dockerfile.{get_dockerfile, or_default}
use cloudrun.Workflow.Handoff.{handoff}
use cloudrun.Workflow.Workload.{generate_workload, made_meta, new_builder, new_deployer}
use cloudrun.Store.{KeepsOthers, Objects}
use cloudrun.Store.Create.{settled}

-- With an update asked for, the given spec is there behind the call.
pub settled-update :
    (k : Kind) (given : Spec k) (q : Option (Obj k)) → settled k false true given q ≡ given
settled-update k given none = refl
settled-update k given (some old) = refl

module _ (K : Cluster) (ctx : Context) (s : Run K.World Workflow) where
  pub new_builder-made :
      (build : BuildSpec) (deploy : DeploySpec) (text location : String)
      → s.self.spec.build ≡ some build
      → s.self.spec.deploy ≡ some deploy
      → get_dockerfile K s.self.spec s ≡ (ok text, s)
      → build.registry_location ≡ some location
      → (b : Builder) × (new_builder K ctx s ≡ (ok b, record s { world = (K.new_uuid s.world).1 }))
        × (object_key b ≡ ctx.namespaced_name)
        × (b.spec.context.raw ≡ some text)
  unfolding new_builder made_meta
  new_builder-made build deploy text location has_build has_deploy dockerfile registry =
      let u = (K.new_uuid s.world).0 in
      let b : Builder = record {
        type_meta = no_type;
        meta = made_meta ctx "的镜像构建任务" s.self;
        spec = record {
          context = record build.context { raw = some text };
          workspace_path = or_default "" build.working_dir;
          dockerfile_path = "";
          destination =
              location
              <> ("/" <> (s.self.meta.namespace <> ("/" <> (s.self.meta.name <> (":" <> u)))));
          push_secret_name = or_default "" build.push_secret_name;
          round = s.self.spec.round;
          deployer_hooks = handoff K ctx s build deploy has_build has_deploy ∷ [];
        };
        status = record { base = none };
      } in
      (b, ground arith, refl, refl)

  pub new_deployer-made :
      (build : BuildSpec) (deploy : DeploySpec)
      → s.self.spec.build ≡ some build
      → s.self.spec.deploy ≡ some deploy
      → (d : Deployer) × (new_deployer K ctx s ≡ (ok d, s)) × (object_key d ≡ ctx.namespaced_name)
  unfolding new_deployer made_meta
  new_deployer-made build deploy has_build has_deploy = rw (has_build, has_deploy) (_, refl, refl)

  pub generate_workload-steps :
      (build : BuildSpec) (deploy : DeploySpec) (b : Builder) (d : Deployer)
      (t u v : Run K.World Workflow)
      → s.self.spec.build ≡ some build
      → s.self.spec.deploy ≡ some deploy
      → new_builder K ctx s ≡ (ok b, t)
      → create_resource K ctx builder b false true t ≡ (ok tt, u)
      → new_deployer K ctx u ≡ (ok d, u)
      → create_resource K ctx deployer d false true u ≡ (ok tt, v)
      → generate_workload K ctx s ≡ (ok tt, v)
  unfolding generate_workload
  generate_workload-steps build deploy b d t u v has_build has_deploy built created made created' =
      ground arith

-- A write to a builder, and then one to a deployer of the same name.
pub untouched :
    (before mid after : Objects) (n : NamespacedName)
    → KeepsOthers before mid builder n
    → KeepsOthers mid after deployer n
    → (j : Kind) (m : NamespacedName)
    → (after j m ≡ before j m) ⊎ (((j ≡ builder) ⊎ (j ≡ deployer)) × (m ≡ n))
untouched before mid after n first then_ j m = elim (then_ j m) [
  | inl same' ↦ elim (first j m) [
    | inl same ↦ inl (same' ∙ same)
    | inr (kind, name) ↦ inr (inl kind, name)
  ]
  | inr (kind, name) ↦ inr (inr kind, name)
]
