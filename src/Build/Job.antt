-- ===== src/Build/Job.antt =====
-- controllers/build/builder.go, `NewJob`: the job that builds a builder's image.
use cloudrun.Base.{String, ◌<>◌, is_empty, pos, true, Option, none, some, [], ◌∷◌, if◌then◌else◌}
use cloudrun.Api.Meta.{no_type}
use cloudrun.Api.Builder.{Builder, BuilderContext, BuilderSpec}
use cloudrun.Cluster.Outcome.{Action, gets, pure, lift, or_wrap, ◌>>=◌}
use cloudrun.Cluster.Workloads.{Container, Job, PodSpec, Volume, empty_dir, secret, new_container}
use cloudrun.Cluster.Client.{Cluster}
use cloudrun.Cluster.Crd.{Run, sample}
use cloudrun.Core.Context.{Context, new_object_meta}
use cloudrun.Build.Names.{
  builder_image_name, current_round, default_push_secret_name, push_secret_volume_mount_path,
  workspace_mount, workspace_volume_name,
}
use cloudrun.Build.Fetch.{add_git_init_containers, add_http_init_containers, add_s3_init_containers}
use cloudrun.Build.Raw.{add_raw_dockerfile_init_containers}

abbrev pub push_secret_volume : String → Volume
push_secret_volume name = record {
  name = "push-secret";
  source =
      secret (if is_empty name then default_push_secret_name else name)
        ((".dockerconfigjson", "config.json") ∷ []);
}

module _ (K : Cluster) where
  abbrev pub main_container : BuilderSpec → String → Container
  main_container spec dockerfile_path = record (new_container "main" builder_image_name) {
    env =
        record { name = "BUILDKITD_FLAGS"; value = "--oci-worker-no-process-sandbox" }
        ∷ record { name = "DOCKER_CONFIG"; value = push_secret_volume_mount_path }
        ∷ [];
    command = "buildctl-daemonless.sh" ∷ [];
    args =
        "build"
        ∷ "--frontend"
        ∷ "dockerfile.v0"
        ∷ "--local"
        ∷ ("context=" <> K.join "/workspace" spec.workspace_path)
        ∷ "--local"
        ∷ ("dockerfile=" <> K.join "/workspace" spec.workspace_path)
        ∷ "--output"
        ∷ ("type=image,name=" <> (spec.destination <> ",push=true"))
        ∷ "--opt"
        ∷ ("filename=" <> dockerfile_path)
        ∷ [];
    privileged = some true;
    volume_mounts =
        workspace_mount
        ∷ record { name = "push-secret"; mount_path = push_secret_volume_mount_path; sub_path = "" }
        ∷ [];
  }

  -- The pod before the context's containers are added.
  unfoldable pub base_pod_spec : BuilderSpec → String → PodSpec
  base_pod_spec spec dockerfile_path = record {
    volumes =
        record { name = workspace_volume_name; source = empty_dir }
        ∷ push_secret_volume spec.push_secret_name
        ∷ [];
    init_containers = [];
    containers = main_container spec dockerfile_path ∷ [];
    restart_policy = "Never";
  }

  abbrev pub fetch_http : BuilderContext → PodSpec → PodSpec
  fetch_http c p = elim c.http [ some h ↦ add_http_init_containers K h p | none ↦ p ]

  abbrev pub fetch_git : {S : Type 0} → BuilderContext → PodSpec → Action S PodSpec
  fetch_git c p = elim c.git [
    | some g ↦ or_wrap "add git init containers" (lift (add_git_init_containers K g p))
    | none ↦ pure (fetch_http c p)
  ]

  -- The `switch`: S3 goes before Git, and Git before HTTP; their other errors cannot occur.
  unfoldable pub add_context : {S : Type 0} → BuilderContext → PodSpec → Action S PodSpec
  add_context c p = elim c.s3 [
    | some s ↦ pure (add_s3_init_containers K s p)
    | none ↦ fetch_git c p
  ]

  module _ (ctx : Context) where
    abbrev pub choose_path : BuilderSpec → Option String → Action (Run K.World Builder) String
    choose_path spec none = pure spec.dockerfile_path
    choose_path spec (some _) = do u ← sample K.new_uuid; pure (u <> ".Dockerfile")

    abbrev pub add_raw : Option String → PodSpec → String → Action (Run K.World Builder) PodSpec
    add_raw none p path = pure p
    add_raw (some dockerfile) p path =
        or_wrap "add raw init containers"
          (add_raw_dockerfile_init_containers K ctx dockerfile p path)

    unfoldable pub new_job : Action (Run K.World Builder) Job
    new_job = do
      b ← gets (λ s. s.self)
      path ← choose_path b.spec b.spec.context.raw
      fetched ← add_context b.spec.context (base_pod_spec b.spec path)
      pod ← add_raw b.spec.context.raw fetched path
      round ← current_round
      pure (record {
        type_meta = no_type;
        meta = new_object_meta ctx round;
        spec = record {
          selector = none;
          template = record { meta = new_object_meta ctx round; spec = pod };
          backoff_limit = some (pos 0);
        };
        status = tt;
      })
