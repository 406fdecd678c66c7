-- ===== src/Build/Still.antt =====
-- The job of a build and the trigger behind it (controllers/build) leave the builder as it is.
use cloudrun.Base.{refl, true, false, Option, none, some, String, List, [], ◌∷◌, arith}
use cloudrun.Api.Builder.{Builder, BuilderContext, BuilderSpec, DeployerHook}
use cloudrun.Api.Deployer.{ContainerSpec, Deployer}
use cloudrun.Cluster.Outcome.{attempt, deref, gets, or_wrap, ◌>>=◌}
use cloudrun.Cluster.Workloads.{Container, PodSpec, VolumeMount}
use cloudrun.Cluster.Client.{Cluster, config_map, deployer}
use cloudrun.Cluster.Crd.{on_world}
use cloudrun.Cluster.Still.{Still, bind-Still, deref-Still}
use cloudrun.Core.Context.{Context, unless_missing}
use cloudrun.Core.Context.{create_resource}
use cloudrun.Core.Still.{create_resource-Still, unless_missing-Still}
use cloudrun.Build.Job.{add_context, add_raw, base_pod_spec, choose_path, new_job}
use cloudrun.Build.Names.{current_round}
use cloudrun.Build.Raw.{dockerfile_configmap, mount_in_first, add_raw_dockerfile_init_containers}
use cloudrun.Build.Trigger.{
  hook_image, set_image, trigger_all, trigger_deployer, trigger_found, trigger_one, triggered,
}

module _ (K : Cluster) where
  set_image-Still :
      (image : String) (cs : List ContainerSpec)
      → Still {W = K.World} {M = Builder} (set_image image cs)
  set_image-Still image [] s = refl
  set_image-Still image (c ∷ cs) s = refl

  triggered-Still :
      (hook : DeployerHook) (b : Builder) (d : Deployer)
      → Still {W = K.World} {M = Builder} (triggered hook b d)
  unfolding triggered
  triggered-Still hook b d =
      bind-Still (set_image (hook_image hook b) d.spec.containers) _
        (set_image-Still (hook_image hook b) d.spec.containers) λ cs s. refl

  trigger_found-Still :
      (hook : DeployerHook) (b : Builder) (o : Option Deployer) → Still (trigger_found K hook b o)
  unfolding trigger_found
  trigger_found-Still hook b none = λ s. refl
  trigger_found-Still hook b (some d) =
      bind-Still (triggered hook b d) _ (triggered-Still hook b d)
        λ d'. bind-Still (or_wrap _ (on_world (K.update deployer d'))) _ (λ s. refl) λ o s. refl

  trigger_one-Still : (hook : DeployerHook) → Still (trigger_one K hook)
  unfolding trigger_one
  trigger_one-Still hook s =
      bind-Still
        (attempt (
          on_world (
            K.get deployer
              (record { name = hook.deployer_name; namespace = s.self.meta.namespace }))))
        _ (λ t. refl)
        (λ reply.
          bind-Still (unless_missing _ reply) _ (unless_missing-Still _ reply)
            λ found. trigger_found-Still hook s.self found)
        s

  trigger_all-Still : (hooks : List DeployerHook) → Still (trigger_all K hooks)
  unfolding trigger_all
  trigger_all-Still [] = λ s. refl
  trigger_all-Still (hook ∷ hooks) =
      bind-Still (trigger_one K hook) _ (trigger_one-Still hook) λ _. trigger_all-Still hooks

  -- A finished build's trigger leaves the builder itself alone.
  pub trigger_deployer-Still : Still (trigger_deployer K)
  unfolding trigger_deployer
  trigger_deployer-Still =
      bind-Still (gets (λ s. s.self)) (λ b. trigger_all K b.spec.deployer_hooks) (λ s. refl)
        λ b. trigger_all-Still b.spec.deployer_hooks

  add_context-Still :
      (c : BuilderContext) (p : PodSpec) → Still {W = K.World} {M = Builder} (add_context K c p)
  unfolding add_context
  add_context-Still c p s = ground arith

  module _ (ctx : Context) where
    mount-Still :
        (m : VolumeMount) (cs : List Container)
        → Still {W = K.World} {M = Builder} (mount_in_first m cs)
    mount-Still m [] s = refl
    mount-Still m (c ∷ cs) s = refl

    raw-Still :
        (text : String) (p : PodSpec) (path : String)
        → Still {W = K.World} {M = Builder} (add_raw_dockerfile_init_containers K ctx text p path)
    unfolding add_raw_dockerfile_init_containers
    raw-Still text p path =
        bind-Still
          (or_wrap "create configmap for dockerfile"
            (create_resource K ctx config_map (dockerfile_configmap ctx text path) true false))
          _ (create_resource-Still K ctx config_map (dockerfile_configmap ctx text path) true false)
          λ _.
            bind-Still (mount_in_first _ p.containers) _ (mount-Still _ p.containers) λ cs s. refl

    choose_path-Still :
        (spec : BuilderSpec) (raw : Option String) → Still (choose_path K ctx spec raw)
    choose_path-Still spec none = λ s. refl
    choose_path-Still spec (some r) = λ s. refl

    add_raw-Still :
        (raw : Option String) (p : PodSpec) (path : String) → Still (add_raw K ctx raw p path)
    add_raw-Still none p path = λ s. refl
    add_raw-Still (some r) p path = raw-Still r p path

    pub current_round-Still : Still {W = K.World} current_round
    unfolding current_round
    current_round-Still =
        bind-Still (gets (λ s. s.self.status.base) >>= deref) _
          (bind-Still (gets (λ s. s.self.status.base)) deref (λ s. refl) deref-Still) λ base s. refl

    pub new_job-Still : Still (new_job K ctx)
    unfolding new_job
    new_job-Still s =
        let b = s.self in
        bind-Still (choose_path K ctx b.spec b.spec.context.raw) _
          (choose_path-Still b.spec b.spec.context.raw)
          (λ path.
            bind-Still (add_context K b.spec.context (base_pod_spec K b.spec path)) _
              (add_context-Still b.spec.context (base_pod_spec K b.spec path))
              λ fetched.
                bind-Still (add_raw K ctx b.spec.context.raw fetched path) _
                  (add_raw-Still b.spec.context.raw fetched path)
                  λ pod. bind-Still current_round _ current_round-Still λ round t. refl)
          s
