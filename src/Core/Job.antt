-- ===== src/Core/Job.antt =====
-- controllers/core/job.go: the job of a round is created once, watched, and deleted at the end.
pub mod Hook
pub mod Failure
pub mod Progress
use cloudrun.Base.{ℤ, Bool, true, false, ◌&&◌, ◌||◌, not, Option, none, some, if◌then◌else◌}
use cloudrun.Types.{is_done, is_failed, pending, doing}
use cloudrun.Cluster.Outcome.{Action, Reply, got, failed, ok, attempt, done, or_wrap, ◌>>=◌, ◌>>◌}
use cloudrun.Cluster.Workloads.{Job, Pod}
use cloudrun.Cluster.Client.{Kind, job, Cluster}
use cloudrun.Cluster.Crd.{Crd, Run, Reconciling, common_status, set_status, sample, on_world}
use cloudrun.Core.Context.{Context, get_sub_resource, create_resource}
use cloudrun.Core.Status.{publish_status, is_done_or_failed}
use cloudrun.Core.Pod.{PodReport, get_status_from_pod, new_pod_worker}

module _ (K : Cluster) {M : Type 0} (ctx : Context) where
  unfoldable pub get_job : ℤ → Action (Run K.World M) (Option Job)
  get_job round = get_sub_resource K ctx job round

  abbrev delete_found : Option Job → Action (Run K.World M) (Unit {0})
  delete_found none = done
  delete_found (some j) = or_wrap "delete job" (on_world (K.delete job j))

  unfoldable pub delete_job : ℤ → Action (Run K.World M) (Unit {0})
  delete_job round = do
    found ← or_wrap "get job when cleanup builder" (get_job round)
    delete_found found

module _ (K : Cluster) (k : Kind) (C : Crd k) (ctx : Context) where
  -- Step 2: there is no job yet.
  unfoldable pub create_job : Reconciling K k Job → Reconciling K k (Unit {0})
  create_job new_job = do
    set_status K k C (λ s. record s { status = pending })
    publish_status K k C none
    j ← new_job
    create_resource K ctx job j false false

  -- `obj.CommonStatus().PodWorker`, where there is a pod.
  unfoldable pub note_pod : Option Pod → Reconciling K k (Unit {0})
  note_pod none = done
  note_pod (some p) = set_status K k C (λ s. record s { pod_worker = some (new_pod_worker p) })

  -- `obj.CommonStatus().EndTime = time.Now().Unix()`
  unfoldable pub note_end : Reconciling K k (Unit {0})
  note_end = do t ← sample K.now; set_status K k C (λ s. record s { end_time = t })

  -- The last lines: the status of the pod becomes the object's, and the job may go.
  unfoldable pub finish_watch : ℤ → PodReport → Bool → Reconciling K k (Unit {0})
  finish_watch round report delete_after = do
    set_status K k C (λ s. record s { status = report.status; message = report.message })
    finished ← is_done_or_failed K k C
    if finished && delete_after
        then or_wrap "failed to cleanup the old job" (delete_job K ctx round)
        else done

  -- A hook that fails leaves the object at work, to be tried again, and drops the error.
  unfoldable pub after_hook : ℤ → PodReport → Bool → Reply (Unit {0}) → Reconciling K k (Unit {0})
  after_hook round report delete_after (got _) = finish_watch round report delete_after
  after_hook round report delete_after (failed _) =
      set_status K k C (λ s. record s { status = doing })

  unfoldable pub run_hook :
      ℤ → PodReport → Bool → Bool → Option (Reconciling K k (Unit {0})) → Reconciling K k (Unit {0})
  run_hook round report delete_after true (some hook) = do
    reply ← attempt hook
    after_hook round report delete_after reply
  run_hook round report delete_after true none = finish_watch round report delete_after
  run_hook round report delete_after false hook = finish_watch round report delete_after

  -- The pod has ended: the hook is for a first success.
  unfoldable pub end_watch :
      ℤ → PodReport → Bool → Option (Reconciling K k (Unit {0})) → Reconciling K k (Unit {0})
  end_watch round report delete_after hook = do
    note_end
    before ← common_status K k C
    run_hook round report delete_after (is_done report.status && not (is_done before.status)) hook

  -- Step 3: the job is there.
  unfoldable pub watch_job :
      ℤ → Job → Bool → Option (Reconciling K k (Unit {0})) → Reconciling K k (Unit {0})
  watch_job round j delete_after hook = do
    report ← or_wrap "failed to get status from pod" (get_status_from_pod K j.spec.selector)
    note_pod report.pod
    if is_failed report.status || is_done report.status
        then end_watch round report delete_after hook
        else finish_watch round report delete_after

  abbrev pub create_or_watch :
      ℤ
      → Reconciling K k Job
      → Bool
      → Option (Reconciling K k (Unit {0}))
      → Option Job
      → Reconciling K k (Unit {0})
  create_or_watch round new_job delete_after hook none = create_job new_job
  create_or_watch round new_job delete_after hook (some j) = watch_job round j delete_after hook

  unfoldable pub create_and_watch_job :
      Reconciling K k Job → Bool → Option (Reconciling K k (Unit {0})) → Reconciling K k (Unit {0})
  create_and_watch_job new_job delete_after hook = do
    round ← (λ s. (ok (C.get_round s.self.spec), s))
    finished ← is_done_or_failed K k C
    if finished && delete_after
        then delete_job K ctx round
        else (do found ← get_job K ctx round; create_or_watch round new_job delete_after hook found)
