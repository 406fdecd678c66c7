-- ===== src/Deploy/Keeps.antt =====
-- The calls of controllers/deploy that keep a deployer's current round.
use cloudrun.Base.{String, ◌≡◌, refl, ap, ◌∙◌, false, Option, none, some, arith}
use cloudrun.Types.{pending}
use cloudrun.Api.Deployer.{Deployer, DeployerStatus, DeployType}
use cloudrun.Api.Deployer as D
use cloudrun.Api.ResourcePool.{ResourcePool}
use cloudrun.Types.{Resource}
use cloudrun.Cluster.Outcome.{deref, done, modify, or_wrap}
use cloudrun.Cluster.Workloads.{StatefulSet}
use cloudrun.Cluster.Client.{Cluster, IsLawful, KeepsStatus, Obj, deployer}
use cloudrun.Cluster.Client as Client
use cloudrun.Cluster.Crd.{Run, deployer_crd, set_status}
use cloudrun.Cluster.CrdLaws.{deployer_crd-IsPointer}
use cloudrun.Cluster.Keeps.{
  Keeps, round_of, Still-Keeps, bind-Keeps, if-Keeps, pure-Keeps, set_status-Keeps, or_wrap-Keeps,
}
use cloudrun.Cluster.Still.{deref-Still}
use cloudrun.Cluster.Retry.{retry-keeps}
use cloudrun.Core.Context.{Context, get_sub_resource}
use cloudrun.Core.Job.{note_end, note_pod}
use cloudrun.Core.Job.Hook.{get_status_from_pod-self}
use cloudrun.Core.Keeps.{
  create_and_watch_job-Keeps, note_end-Keeps, note_pod-Keeps, publish_status-Keeps,
}
use cloudrun.Core.Pod.{get_status_from_pod}
use cloudrun.Core.Status.{publish_status}
use cloudrun.Core.Still.{get_sub_resource-Still}
use cloudrun.Deploy.Handle.{handle, handle_job, handle_type}
use cloudrun.Deploy.Names.{current_round}
use cloudrun.Deploy.Resources.{beg_once, beg_resource, get_pool, grant, no_resource, requested}
use cloudrun.Deploy.Service.{
  create_or_update_service, create_stateful_set, ends_watch, handle_service, start_or_watch,
  start_service, watch_service,
}
use cloudrun.Deploy.Still.{
  get_pool-Still, create_or_update_service-Still, create_stateful_set-Still, current_round-Still,
  new_job-Still,
}
use cloudrun.Deploy.Template.{new_job}

-- The status does not read the pool.
pub set_pool-base :
    (name : String) (t : DeployerStatus)
    → (D.common_status (record t { resource_pool = name })).1 ≡ (D.common_status t).1
unfolding D.common_status
set_pool-base name t = ground arith

module _ (K : Cluster) where
  grant-Keeps :
      (p : ResourcePool) (free want : Resource)
      → Keeps K deployer deployer_crd (grant K p free want)
  unfolding grant Keeps D.common_status
  grant-Keeps p free want s = ground arith

  beg_once-Keeps : Keeps K deployer deployer_crd (beg_once K)
  unfolding beg_once Keeps
  beg_once-Keeps s =
      bind-Keeps K deployer deployer_crd (get_pool K s.self.spec.resource_pool) _
        (Still-Keeps K deployer deployer_crd (get_pool K s.self.spec.resource_pool)
          (get_pool-Still K s.self.spec.resource_pool))
        (λ p.
          bind-Keeps K deployer deployer_crd (deref p.status.free) _
            (Still-Keeps K deployer deployer_crd (deref p.status.free) (deref-Still p.status.free))
            λ free. grant-Keeps p free (requested s.self.spec.containers no_resource))
        s

  hold-Keeps : Keeps K deployer deployer_crd (
      modify λ s. record s {
        self = record s.self {
          status = record s.self.status { resource_pool = s.self.spec.resource_pool };
        };
      })
  unfolding Keeps
  hold-Keeps s = ap (λ b. b.current_round) (set_pool-base s.self.spec.resource_pool s.self.status)

  retried-Keeps :
      IsLawful K
      → Keeps K deployer deployer_crd
          (or_wrap "beg resource" (K.retry_on_conflict (Run K.World Deployer) (beg_once K)))
  unfolding Keeps
  retried-Keeps L s =
      retry-keeps K L (Run K.World Deployer) (beg_once K)
        (λ t. round_of K deployer deployer_crd t ≡ round_of K deployer deployer_crd s)
        (λ t e. beg_once-Keeps t ∙ e) s refl

  -- Asking for resources keeps the round.
  pub beg_resource-Keeps : IsLawful K → Keeps K deployer deployer_crd (beg_resource K)
  unfolding beg_resource
  beg_resource-Keeps L =
      bind-Keeps K deployer deployer_crd
        (or_wrap "beg resource" (K.retry_on_conflict (Run K.World Deployer) (beg_once K))) _
        (retried-Keeps L) λ _. hold-Keeps

  module _ (F : KeepsStatus K) (ctx : Context) where
    start_service-Keeps : Keeps K deployer deployer_crd (start_service K ctx)
    unfolding start_service
    start_service-Keeps =
        bind-Keeps K deployer deployer_crd
          (set_status K deployer deployer_crd (λ s. record s { status = pending })) _
          (set_status-Keeps K deployer deployer_crd deployer_crd-IsPointer
            (λ s. record s { status = pending }) (λ b. refl))
          λ _.
            bind-Keeps K deployer deployer_crd (publish_status K deployer deployer_crd none) _
              (publish_status-Keeps K deployer deployer_crd deployer_crd-IsPointer F none)
              λ _.
                or_wrap-Keeps K deployer deployer_crd "failed to create deployment for service type"
                  (create_stateful_set K ctx)
                  (Still-Keeps K deployer deployer_crd (create_stateful_set K ctx)
                    (create_stateful_set-Still K ctx))

    watch_service-Keeps :
        (set : StatefulSet) → Keeps K deployer deployer_crd (watch_service K ctx set)
    unfolding watch_service
    watch_service-Keeps set =
        bind-Keeps K deployer deployer_crd
          (or_wrap "failed to create or update service for service type"
            (create_or_update_service K ctx))
          _
          (Still-Keeps K deployer deployer_crd
            (or_wrap "failed to create or update service for service type"
              (create_or_update_service K ctx))
            (create_or_update_service-Still K ctx))
          λ _.
            bind-Keeps K deployer deployer_crd
              (or_wrap "failed to get status from pod for service type"
                (get_status_from_pod K set.spec.selector))
              _
              (Still-Keeps K deployer deployer_crd
                (or_wrap "failed to get status from pod for service type"
                  (get_status_from_pod K set.spec.selector))
                (get_status_from_pod-self K ctx set.spec.selector))
              λ report.
                bind-Keeps K deployer deployer_crd (note_pod K deployer deployer_crd ctx report.pod)
                  _ (note_pod-Keeps K deployer deployer_crd deployer_crd-IsPointer ctx report.pod)
                  λ _.
                    bind-Keeps K deployer deployer_crd
                      (set_status K deployer deployer_crd
                        (λ s. record s { status = report.status; message = report.message }))
                      _
                      (set_status-Keeps K deployer deployer_crd deployer_crd-IsPointer
                        (λ s. record s { status = report.status; message = report.message })
                        (λ b. refl))
                      λ _.
                        if-Keeps K deployer deployer_crd (ends_watch K ctx report.status)
                          (note_end K deployer deployer_crd ctx) done
                          (note_end-Keeps K deployer deployer_crd deployer_crd-IsPointer ctx)
                          (pure-Keeps K deployer deployer_crd tt)

    start_or_watch-Keeps :
        (found : Option StatefulSet) → Keeps K deployer deployer_crd (start_or_watch K ctx found)
    start_or_watch-Keeps none = start_service-Keeps
    start_or_watch-Keeps (some set) = watch_service-Keeps set

    handle_service-Keeps : Keeps K deployer deployer_crd (handle_service K ctx)
    unfolding handle_service
    handle_service-Keeps =
        bind-Keeps K deployer deployer_crd current_round _
          (Still-Keeps K deployer deployer_crd current_round (current_round-Still K))
          λ round.
            bind-Keeps K deployer deployer_crd
              (or_wrap "failed to get deployment for service type"
                (get_sub_resource K ctx Client.stateful_set round))
              _
              (Still-Keeps K deployer deployer_crd
                (or_wrap "failed to get deployment for service type"
                  (get_sub_resource K ctx Client.stateful_set round))
                (get_sub_resource-Still K ctx Client.stateful_set round))
              start_or_watch-Keeps

    handle_type-Keeps : (t : DeployType) → Keeps K deployer deployer_crd (handle_type K ctx t)
    unfolding handle_type handle_job
    handle_type-Keeps D.job =
        create_and_watch_job-Keeps K deployer deployer_crd deployer_crd-IsPointer ctx F
          (new_job K ctx) (new_job-Still K ctx) false none tt
    handle_type-Keeps D.service = handle_service-Keeps
    handle_type-Keeps (D.other t) =
        Still-Keeps K deployer deployer_crd (handle_type K ctx (D.other t)) (λ s. refl)

    pub handle-Keeps : Keeps K deployer deployer_crd (handle K ctx)
    unfolding handle Keeps
    handle-Keeps s = handle_type-Keeps s.self.spec.type s
