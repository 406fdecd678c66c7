-- ===== src/Core/Pod.antt =====
-- controllers/core/pod.go: the status of a job or service is that of its first pod.
use cloudrun.Base.{String, Option, none, some, List, [], ◌∷◌, Dict, map}
use cloudrun.Types.{Status, PodWorker, pending, doing, unset}
use cloudrun.Types as T
use cloudrun.Cluster.Outcome.{Action, pure, deref, or_wrap, ◌>>=◌}
use cloudrun.Cluster.Workloads.{
  Container, Pod, PodPhase, PodStatus, pod_pending, pod_running, pod_failed, pod_succeeded, other,
}
use cloudrun.Cluster.Client.{Cluster}
use cloudrun.Cluster.Crd.{Run, on_world}

pub record PodReport : Type 0 where
  pub status : Status
  pub message : String
  pub pod : Option Pod

-- The `switch` on the phase: there is no default, so any other phase leaves the empty status.
unfoldable pub phase_status : PodPhase → Status
phase_status pod_pending = pending
phase_status pod_running = doing
phase_status pod_failed = T.failed
phase_status pod_succeeded = T.done
phase_status other = unset

-- The message is set for a failed pod only.
abbrev pub phase_message : PodStatus → String
phase_message s = elim s.phase [ pod_failed ↦ s.message | _ ↦ "" ]

unfoldable pub report_pods : List Pod → PodReport
report_pods [] = record { status = pending; message = ""; pod = none }
report_pods (p ∷ _) = record {
  status = phase_status p.status.phase;
  message = phase_message p.status;
  pod = some p;
}

module _ (K : Cluster) {M : Type 0} where
  unfoldable pub get_status_from_pod : Option Dict → Action (Run K.World M) PodReport
  get_status_from_pod selector = do
    labels ← deref selector
    pods ← or_wrap "failed to list pod" (on_world (K.list_pods labels))
    pure (report_pods pods)

abbrev names : List Container → List String
names = map (λ c. c.name)

-- The names of a pod and of its containers, which the job and the service loop copy.
unfoldable pub new_pod_worker : Pod → PodWorker
new_pod_worker p = record {
  name = p.meta.name;
  container_list = names p.spec.containers;
  init_container_list = names p.spec.init_containers;
}
