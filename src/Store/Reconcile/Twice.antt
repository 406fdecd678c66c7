-- ===== src/Store/Reconcile/Twice.antt =====
-- Two runs of `Reconcile` of a builder (controllers/builder_controller.go) over a store: from the new
-- round in its spec to the job.
use cloudrun.Base.{◌≡◌, ◌⊎◌, true, some}
use cloudrun.Types.{CommonStatus, NamespacedName, pending}
use cloudrun.Api.Builder.{Builder}
use cloudrun.Cluster.Workloads.{Job, JobSpec}
use cloudrun.Cluster.Client.{Cluster, IsLawful, Kind, builder, config_map, job}
use cloudrun.Finalize
use cloudrun.Build.Mounts.{has_volumes}
use cloudrun.Build.Names as Build
use cloudrun.Controllers.Builder as BuilderController
use cloudrun.Core.Context as Core
use cloudrun.Core.Context.{Context, object_key}
use cloudrun.Store.{IsStore}
use cloudrun.Store.Cleanup.{round_key}
use cloudrun.Store.Made.{configmap_key}
use cloudrun.Store.Round as Round

module _ (K : Cluster) (L : IsLawful K) (S : IsStore K) (w : K.World) (o : Builder) where
  abbrev own : Context
  own = Build.new_context o

  -- What a builder in its round has made, and the store then.
  pub record Running (before v : K.World) : Type 0 where
    pub running : Builder
    pub stored : S.objects v builder (object_key o) ≡ some running
    pub status :
        (b : CommonStatus) × (running.status.base ≡ some b)
        × (b.status ≡ pending)
        × (b.current_round ≡ o.spec.round)
    pub spec : running.spec ≡ o.spec
    pub made : Job
    pub made_there : S.objects v job (round_key own o.spec.round) ≡ some made
    -- The spec that was sent.
    pub given : JobSpec
    pub filled : made.spec ≡ S.fill job given
    pub volumes : has_volumes given.template.spec ≡ true
    pub others :
        (j : Kind) (m : NamespacedName)
        → (S.objects v j m ≡ S.objects before j m)
          ⊎ ((j ≡ builder) × (m ≡ object_key o))
          ⊎ ((j ≡ config_map) × (m ≡ configmap_key own))
          ⊎ ((j ≡ job) × (m ≡ round_key own o.spec.round))
