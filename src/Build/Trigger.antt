-- ===== src/Build/Trigger.antt =====
-- controllers/build/builder.go, `TriggerDeployer`: a finished build starts a round of each deployer
-- that its hooks name.
use cloudrun.Base.{
  ℤ, pos, ◌+ℤ◌, i64, String, ◌<>◌, Option, none, some, List, [], ◌∷◌, if◌then◌else◌,
}
use cloudrun.Api.Builder.{Builder, DeployerHook}
use cloudrun.Api.Builder as B
use cloudrun.Api.Deployer.{ContainerSpec, Deployer}
use cloudrun.Api.Deployer as D
use cloudrun.Cluster.Outcome.{
  Action, gets, pure, panics, out_of_range, attempt, done, or_wrap, ◌>>=◌, ◌>>◌,
}
use cloudrun.Cluster.Client.{Cluster, deployer}
use cloudrun.Cluster.Crd.{Run, on_world}
use cloudrun.Core.Context.{unless_missing}

-- `deployer.Spec.Containers[0].Image = image`
abbrev pub set_image : {S : Type 0} → String → List ContainerSpec → Action S (List ContainerSpec)
set_image image [] = panics out_of_range
set_image image (c ∷ cs) = pure (record c { image = image } ∷ cs)

-- The round that the deployer is sent to.
unfoldable pub hook_round : DeployerHook → Builder → Deployer → ℤ
hook_round hook b d =
    if hook.force_round
    then B.get_round b.spec
    else i64 ((D.common_status d.status).1.current_round +ℤ pos 1)

abbrev pub hook_image : DeployerHook → Builder → String
hook_image hook b = if hook.dynamic_image then b.spec.destination else hook.image

-- The body of the loop behind the lookup. Reading the status makes one where there is none.
unfoldable pub triggered : {S : Type 0} → DeployerHook → Builder → Deployer → Action S Deployer
triggered hook b d = do
  containers ← set_image (hook_image hook b) d.spec.containers
  pure (record d {
    spec = record d.spec {
      round = hook_round hook b d;
      containers = containers;
      resource_pool = hook.resource_pool;
    };
    status = if hook.force_round then d.status else (D.common_status d.status).0;
  })

module _ (K : Cluster) where
  unfoldable pub trigger_found :
      DeployerHook → Builder → Option Deployer → Action (Run K.World Builder) (Unit {0})
  trigger_found hook b none = done
  trigger_found hook b (some d) = do
    d' ← triggered hook b d
    or_wrap ("update deployer " <> (hook.deployer_name <> " when try to trigger it"))
        (on_world (K.update deployer d'))
    done

  unfoldable pub trigger_one : DeployerHook → Action (Run K.World Builder) (Unit {0})
  trigger_one hook = do
    b ← gets (λ s. s.self)
    reply ← attempt (
        on_world
          (K.get deployer (record { name = hook.deployer_name; namespace = b.meta.namespace })))
    found ←
        unless_missing ("get deployer " <> (hook.deployer_name <> " when try to trigger it")) reply
    trigger_found hook b found

  unfoldable pub trigger_all : List DeployerHook → Action (Run K.World Builder) (Unit {0})
  trigger_all [] = done
  trigger_all (hook ∷ hooks) = do trigger_one hook; trigger_all hooks

  unfoldable pub trigger_deployer : Action (Run K.World Builder) (Unit {0})
  trigger_deployer = do b ← gets (λ s. s.self); trigger_all b.spec.deployer_hooks
