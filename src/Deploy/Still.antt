-- ===== src/Deploy/Still.antt =====
-- The calls of controllers/deploy that leave the deployer as it is.
use cloudrun.Base.{
  ℤ, ◌≡◌, refl, ◌∙◌, String, Bool, true, false, Option, none, some, List, [], ◌∷◌, arith,
}
use cloudrun.Api.Deployer.{ContainerSpec, Deployer, DeployType}
use cloudrun.Api.Deployer as D
use cloudrun.Api.ResourcePool.{ResourcePool}
use cloudrun.Cluster.Outcome.{attempt, deref, gets, ◌>>=◌}
use cloudrun.Cluster.Workloads.{Container, Service}
use cloudrun.Cluster.Client.{Cluster, IsLawful}
use cloudrun.Cluster.Client as Client
use cloudrun.Cluster.Crd.{Run, on_world}
use cloudrun.Cluster.Retry.{retry-keeps}
use cloudrun.Cluster.Still.{Still, bind-Still, deref-Still}
use cloudrun.Core.Context.{Context, get_sub_resource, unless_missing}
use cloudrun.Core.Job.{delete_job}
use cloudrun.Core.Still.{
  create_resource-Still, delete_job-Still, get_sub_resource-Still, unless_missing-Still,
}
use cloudrun.Deploy.Names.{current_round}
use cloudrun.Deploy.Handle.{delete_workload}
use cloudrun.Deploy.Resources.{
  get_current_resource_pool, get_pool, release_from, release_once, release_resource,
}
use cloudrun.Deploy.Service.{
  aim_service, create_or_update_service, create_stateful_set, delete_deployment, put_service,
}
use cloudrun.Deploy.Template.{new_job, new_pod_spec, requirements, split_containers, to_container}

module _ (K : Cluster) where
  pub current_round-Still : Still {W = K.World} current_round
  unfolding current_round
  current_round-Still =
      bind-Still (gets (λ s. s.self.status.base) >>= deref) _
        (bind-Still (gets (λ s. s.self.status.base)) deref (λ s. refl) deref-Still) λ base s. refl

  requirements-Still :
      (r : D.ContainerResource) → Still {W = K.World} {M = Deployer} (requirements K r)
  unfolding requirements
  requirements-Still r s = ground arith

  to_container-Still : (c : ContainerSpec) → Still (to_container K c)
  unfolding to_container
  to_container-Still c s =
      bind-Still (requirements K c.resource) _ (requirements-Still c.resource) (λ r t. refl)
        (record s { world = (K.range_map c.envs s.world).1 })

  split_containers-Still :
      (cs : List ContainerSpec) (inits mains : List Container)
      → Still (split_containers K cs inits mains)
  unfolding split_containers
  split_containers-Still [] inits mains = λ s. refl
  split_containers-Still (c ∷ cs) inits mains =
      bind-Still (to_container K c) _ (to_container-Still c) λ made. split_containers-Still cs _ _

  release_from-Still : (p : Option ResourcePool) → Still (release_from K p)
  unfolding release_from
  release_from-Still none s = refl
  release_from-Still (some p) s = ground arith

  pub get_pool-Still : (name : String) → Still (get_pool K name)
  unfolding get_pool
  get_pool-Still name = λ s. refl

  get_current_resource_pool-Still : Still (get_current_resource_pool K)
  unfolding get_current_resource_pool get_pool
  get_current_resource_pool-Still s = ground arith

  pub release_resource-Still : IsLawful K → Still (release_resource K)
  unfolding release_resource release_once
  release_resource-Still L s =
      retry-keeps K L (Run K.World Deployer) (release_once K) (λ t. t.self ≡ s.self)
        (λ t e.
          bind-Still (get_current_resource_pool K) (release_from K) get_current_resource_pool-Still
            release_from-Still t
          ∙ e)
        s refl

  module _ (ctx : Context) where
    new_pod_spec-Still : (is_service : Bool) → Still (new_pod_spec K ctx is_service)
    unfolding new_pod_spec
    new_pod_spec-Still is_service s =
        bind-Still (split_containers K s.self.spec.containers [] []) _
          (split_containers-Still s.self.spec.containers [] [])
          (λ made. bind-Still current_round _ current_round-Still λ round t. refl) s

    pub new_job-Still : Still (new_job K ctx)
    unfolding new_job
    new_job-Still = bind-Still current_round _ current_round-Still λ round.
        bind-Still (new_pod_spec K ctx false) _ (new_pod_spec-Still false) λ template t. refl

    pub create_stateful_set-Still : Still (create_stateful_set K ctx)
    unfolding create_stateful_set
    create_stateful_set-Still = bind-Still current_round _ current_round-Still λ round.
        bind-Still (new_pod_spec K ctx true) _ (new_pod_spec-Still true)
          λ template. create_resource-Still K ctx Client.stateful_set _ true false

    aim_service-Still :
        (round : ℤ) (cs : List ContainerSpec) (svc : Service)
        → Still {W = K.World} {M = Deployer} (aim_service K ctx round cs svc)
    unfolding aim_service
    aim_service-Still round cs svc s = ground arith

    put_service-Still :
        (found : Option Service) (svc : Service) → Still (put_service K ctx found svc)
    put_service-Still none svc = create_resource-Still K ctx Client.service svc true false
    put_service-Still (some _) svc = λ s. ground arith

    pub create_or_update_service-Still : Still (create_or_update_service K ctx)
    unfolding create_or_update_service
    create_or_update_service-Still =
        bind-Still (attempt (on_world (K.get Client.service ctx.namespaced_name))) _ (λ s. refl)
          λ reply.
            bind-Still (unless_missing "failed to get service for service type" reply) _
              (unless_missing-Still "failed to get service for service type" reply)
              λ found. bind-Still current_round _ current_round-Still λ round s.
                bind-Still (aim_service K ctx round s.self.spec.containers _) _
                  (aim_service-Still round s.self.spec.containers _)
                  (λ svc. put_service-Still found svc) s

    delete_deployment-Still : Still (delete_deployment K ctx)
    unfolding delete_deployment
    delete_deployment-Still = bind-Still current_round _ current_round-Still λ round.
        bind-Still (get_sub_resource K ctx Client.deployment round) _
          (get_sub_resource-Still K ctx Client.deployment round) λ found s. ground arith

    pub delete_workload-Still : (t : DeployType) → Still (delete_workload K ctx t)
    unfolding delete_workload
    delete_workload-Still D.job =
        bind-Still current_round (λ r. delete_job K ctx r) current_round-Still
          λ r. delete_job-Still K ctx r
    delete_workload-Still D.service = delete_deployment-Still
    delete_workload-Still (D.other t) = λ s. refl
