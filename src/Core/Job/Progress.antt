-- ===== src/Core/Job/Progress.antt =====
-- What one run of `CreateAndWatchJob` (controllers/core/job.go) does when the pod has succeeded.
use cloudrun.Base.{
  ℤ, ◌≡◌, refl, ap, ◌∙◌, Bool, true, false, ◌&&◌, ◌||◌, some, List, ◌∷◌, Dict, arith,
}
use cloudrun.Types.{CommonStatus, Status, is_done, is_failed}
use cloudrun.Types as T
use cloudrun.Cluster.Outcome.{ok}
use cloudrun.Cluster.Workloads.{Job, Pod, pod_succeeded}
use cloudrun.Cluster.Client.{Kind, Obj, Cluster}
use cloudrun.Cluster.Client as Client
use cloudrun.Cluster.Crd.{Crd, Run, Reconciling, common_status, set_status}
use cloudrun.Cluster.CrdLaws.{IsPointer, base_of, base_of-common_status, base_of-set_status}
use cloudrun.Core.Context.{Context, get_sub_resource, namespace, sub_name}
use cloudrun.Core.Pod.{PodReport, get_status_from_pod, new_pod_worker, phase_status, report_pods}
use cloudrun.Core.Status.{is_done_or_failed}
use cloudrun.Core.Job.{
  after_hook, create_and_watch_job, end_watch, finish_watch, get_job, note_end, note_pod, run_hook,
  watch_job,
}
use cloudrun.Core.Job.Failure.{at_hook, note_end-status}

pub and-false : (b : Bool) → (b && false) ≡ false
and-false true = refl
and-false false = refl

module _ (K : Cluster) (k : Kind) (C : Crd k) (P : IsPointer C) (ctx : Context) where
  -- What a succeeded pod reports.
  abbrev success : Pod → PodReport
  success p = record { status = T.done; message = ""; pod = some p }

  report_pods-success :
      (p : Pod) (ps : List Pod) → p.status.phase ≡ pod_succeeded → report_pods (p ∷ ps) ≡ success p
  unfolding report_pods phase_status
  report_pods-success p ps h = ground arith

  -- The end of a successful run leaves the object done.
  finish_watch-done :
      (round : ℤ) (p : Pod) (s : Run K.World (Obj k))
      → (t : Run K.World (Obj k)) × (finish_watch K k C ctx round (success p) false s ≡ (ok tt, t))
        × ((base_of K k C P t).status ≡ T.done)
        × (t.world ≡ s.world)
  unfolding finish_watch is_done_or_failed
  finish_watch-done round p s =
      let f = λ (b : CommonStatus). record b { status = T.done; message = "" } in
      let u = (set_status K k C f s).1 in
      rw (and-false (is_done (base_of K k C P u).status || is_failed (base_of K k C P u).status)) (
        _,
        refl,
        ap (λ b. b.status) (base_of-common_status K k C P u ∙ base_of-set_status K k C P f s),
        refl,
      )

  note_pod-status :
      (p : Pod) (s : Run K.World (Obj k))
      → (base_of K k C P (note_pod K k C ctx (some p) s).1).status ≡ (base_of K k C P s).status
  unfolding note_pod
  note_pod-status p s =
      ap (λ b. b.status)
        (base_of-set_status K k C P (λ b. record b { pod_worker = some (new_pod_worker p) }) s)

  module _ (hook : Reconciling K k (Unit {0})) where
    end_watch-done :
        (round : ℤ) (p : Pod) (s t : Run K.World (Obj k))
        → is_done (base_of K k C P s).status ≡ false
        → hook (at_hook K k C P ctx s) ≡ (ok tt, t)
        → (u : Run K.World (Obj k)) × (end_watch K k C ctx round (success p) false (some hook) s
            ≡ (ok tt, u))
          × ((base_of K k C P u).status ≡ T.done)
          × (u.world ≡ t.world)
    unfolding end_watch run_hook after_hook note_end
    end_watch-done round p s t fresh works =
        rw (note_end-status K k C P ctx s, fresh, works) (finish_watch-done round p t)

    watch_job-done :
        (round : ℤ) (j : Job) (labels : Dict) (p : Pod) (ps : List Pod) (w : K.World)
        (s t : Run K.World (Obj k))
        → j.spec.selector ≡ some labels
        → K.list_pods labels s.world ≡ (ok (p ∷ ps), w)
        → p.status.phase ≡ pod_succeeded
        → is_done (base_of K k C P s).status ≡ false
        → hook (at_hook K k C P ctx (note_pod K k C ctx (some p) (record s { world = w })).1)
          ≡ (ok tt, t)
        → (u : Run K.World (Obj k)) × (watch_job K k C ctx round j false (some hook) s ≡ (ok tt, u))
          × ((base_of K k C P u).status ≡ T.done)
          × (u.world ≡ t.world)
    unfolding watch_job note_pod get_status_from_pod
    watch_job-done round j labels p ps w s t has listed ended fresh works =
        let s' : Run K.World (Obj k) = record s { world = w } in
        rw (has, listed, report_pods-success p ps ended)
          (end_watch-done round p (note_pod K k C ctx (some p) s').1 t
            (rw (note_pod-status p s') fresh) works)

    -- One run is enough: where the server has the round's job, the first of its pods has succeeded,
    -- the object is not done, and the hook succeeds from the state in which it is called, the run
    -- returns without an error and leaves the object done.
    pub create_and_watch_job-done :
        (new_job : Reconciling K k Job) (j : Job) (labels : Dict) (p : Pod) (ps : List Pod)
        (v w : K.World) (s t : Run K.World (Obj k))
        → K.get Client.job
            (record { name = sub_name ctx (C.get_round s.self.spec); namespace = namespace ctx })
            s.world
          ≡ (ok j, v)
        → j.spec.selector ≡ some labels
        → K.list_pods labels v ≡ (ok (p ∷ ps), w)
        → p.status.phase ≡ pod_succeeded
        → is_done (base_of K k C P s).status ≡ false
        → hook (
            at_hook K k C P ctx
              (note_pod K k C ctx (some p) (record (common_status K k C s).1 { world = w })).1)
          ≡ (ok tt, t)
        → (u : Run K.World (Obj k)) × (create_and_watch_job K k C ctx new_job false (some hook) s
            ≡ (ok tt, u))
          × ((base_of K k C P u).status ≡ T.done)
          × (u.world ≡ t.world)
    unfolding create_and_watch_job is_done_or_failed get_job get_sub_resource
    create_and_watch_job-done new_job j labels p ps v w s t found has listed ended fresh works =
        rw
          (
            and-false (is_done (base_of K k C P s).status || is_failed (base_of K k C P s).status),
            found,
          )
          (watch_job-done (C.get_round s.self.spec) j labels p ps w
            (record (common_status K k C s).1 { world = v }) t has listed ended
            (rw (ap (λ b. b.status) (base_of-common_status K k C P s)) fresh) works)
