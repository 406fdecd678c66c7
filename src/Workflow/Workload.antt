-- ===== src/Workflow/Workload.antt =====
-- controllers/workflow/workflow.go: `newBuilder`, `newDeployer`, `GenerateWorkload`.
use cloudrun.Base.{
  pos, String, ◌<>◌, is_empty, index, Bool, true, false, Option, none, some, [], ◌∷◌, ◌++◌, Dict,
  if◌then◌else◌,
}
use cloudrun.Api.Meta.{ObjectMeta, new_meta, no_type}
use cloudrun.Api.Builder.{Builder}
use cloudrun.Api.Deployer.{ContainerSpec, Deployer}
use cloudrun.Api.Workflow.{BuildSpec, DeploySpec, Workflow, WorkflowSpec}
use cloudrun.Cluster.Outcome.{Action, deref, done, gets, pure, ◌>>=◌, ◌>>◌}
use cloudrun.Cluster.Client.{Cluster}
use cloudrun.Cluster.Client as Client
use cloudrun.Cluster.Crd.{Run, sample}
use cloudrun.Core.Context.{Context, create_resource, name, namespace}
use cloudrun.Core.Context as Core
use cloudrun.Workflow.Dockerfile.{get_dockerfile, or_default}

-- `workflow.NewContext`
unfoldable pub new_context : Workflow → Context
new_context w = Core.new_context w.type_meta w.meta

-- The annotation of a made object, where the workflow has a name to show.
abbrev pub display_annotation : String → Workflow → Dict
display_annotation suffix w =
    let shown = index w.meta.annotations "displayName" in
    if is_empty shown then [] else ("displayName", "“" <> (shown <> ("”" <> suffix))) ∷ []

-- The header of a made object.
unfoldable pub made_meta : Context → String → Workflow → ObjectMeta
made_meta ctx suffix w = record (new_meta (name ctx) (namespace ctx)) {
  labels = some (("workflow", w.meta.name) ∷ []);
  annotations = some (display_annotation suffix w);
}

abbrev pub is_nil {ℓ} : {A : Type ℓ} → Option A → Bool
is_nil none = true
is_nil (some _) = false

-- The deployer's image: one that is never pulled, until a build names the true one.
abbrev pub image_name : {S : Type 0} → WorkflowSpec → DeploySpec → Action S String
image_name spec d = if is_nil spec.build then deref d.base_image else pure "fake-image"

abbrev pub main_container : DeploySpec → String → ContainerSpec
main_container d image = record {
  name = "main";
  image = image;
  resource = d.resource;
  initial = false;
  working_dir = or_default "" d.working_dir;
  command = [];
  args = [];
  envs = d.envs;
  ports = d.ports;
}

module _ (K : Cluster) (ctx : Context) where
  abbrev pub Working : Type 0 → Type 0
  Working A = Action (Run K.World Workflow) A

  unfoldable pub new_builder : Working Builder
  new_builder = do
    w ← gets (λ s. s.self)
    b ← deref w.spec.build
    raw ← get_dockerfile K w.spec
    location ← deref b.registry_location
    u ← sample K.new_uuid
    d ← deref w.spec.deploy
    pure (record {
      type_meta = no_type;
      meta = made_meta ctx "的镜像构建任务" w;
      spec = record {
        context = record b.context { raw = some raw };
        workspace_path = or_default "" b.working_dir;
        dockerfile_path = "";
        destination =
            location <> ("/" <> (w.meta.namespace <> ("/" <> (w.meta.name <> (":" <> u)))));
        push_secret_name = or_default "" b.push_secret_name;
        round = w.spec.round;
        deployer_hooks =
            record {
              deployer_name = name ctx;
              resource_pool = d.resource_pool;
              image = "";
              dynamic_image = true;
              force_round = true;
            }
            ∷ [];
      };
      status = record { base = none };
    })

  unfoldable pub new_deployer : Working Deployer
  new_deployer = do
    w ← gets (λ s. s.self)
    d ← deref w.spec.deploy
    image ← image_name w.spec d
    pure (record {
      type_meta = no_type;
      meta = made_meta ctx "的部署任务" w;
      spec = record {
        type = d.type;
        containers = (main_container d image ∷ []) ++ d.sidecar_list;
        round = if is_nil w.spec.build then w.spec.round else pos 0;
        resource_pool = d.resource_pool;
      };
      status = record { base = none; resource_pool = "" };
    })

  abbrev pub generate_builder : Option BuildSpec → Working (Unit {0})
  generate_builder none = done
  generate_builder (some _) = do b ← new_builder; create_resource K ctx Client.builder b false true

  abbrev pub generate_deployer : Option DeploySpec → Working (Unit {0})
  generate_deployer none = done
  generate_deployer (some _) = do
    d ← new_deployer
    create_resource K ctx Client.deployer d false true

  unfoldable pub generate_workload : Working (Unit {0})
  generate_workload = do
    w ← gets (λ s. s.self)
    generate_builder w.spec.build
    generate_deployer w.spec.deploy
