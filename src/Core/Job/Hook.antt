-- ===== src/Core/Job/Hook.antt =====
-- When the hook of `CreateAndWatchJob` (controllers/core/job.go) is called.
use cloudrun.Base.{
  Dict, ℤ, ◌≡◌, refl, ap, ◌∙◌, subst, sym, Bool, true, ◌&&◌, ◌||◌, not, Option, none, some, arith,
}
use cloudrun.Types.{CommonStatus, is_done, is_failed}
use cloudrun.Cluster.Outcome.{Outcome, ok, or_wrap, ◌>>=◌}
use cloudrun.Cluster.Workloads.{Job, Pod}
use cloudrun.Cluster.Client.{Kind, Obj, Cluster}
use cloudrun.Cluster.Crd.{Crd, Run, Reconciling, common_status}
use cloudrun.Cluster.CrdLaws.{IsPointer, base_of, base_of-common_status, base_of-set_status}
use cloudrun.Cluster.Bind.{bind-cong, else-cong, then-cong}
use cloudrun.Core.Context.{Context, get_sub_resource}
use cloudrun.Core.Status.{is_done_or_failed}
use cloudrun.Core.Pod.{PodReport, get_status_from_pod, new_pod_worker}
use cloudrun.Core.Job.{
  create_and_watch_job, create_or_watch, delete_job, end_watch, finish_watch, get_job, note_end,
  note_pod, run_hook, watch_job,
}

module _ (K : Cluster) {M : Type 0} (ctx : Context) where
  get_job-self : (round : ℤ) (s : Run K.World M) → (get_job K ctx round s).1.self ≡ s.self
  unfolding get_job get_sub_resource
  get_job-self round s = ground arith

  pub get_status_from_pod-self :
      (selector : Option Dict) (s : Run K.World M)
      → (get_status_from_pod K selector s).1.self ≡ s.self
  unfolding get_status_from_pod
  get_status_from_pod-self selector s = ground arith

module _ (K : Cluster) (k : Kind) (C : Crd k) (P : IsPointer C) (ctx : Context) where
  abbrev IsDone : Run K.World (Obj k) → Type 0
  IsDone s = is_done (base_of K k C P s).status ≡ true

  note_pod-IsDone :
      (p : Option Pod) (s : Run K.World (Obj k)) → IsDone s → IsDone (note_pod K k C ctx p s).1
  unfolding note_pod
  note_pod-IsDone none s h = h
  note_pod-IsDone (some p) s h =
      subst (λ b. is_done b.status ≡ true)
        (sym
          (base_of-set_status K k C P (λ b. record b { pod_worker = some (new_pod_worker p) }) s))
        h

  note_end-IsDone : (s : Run K.World (Obj k)) → IsDone s → IsDone (note_end K k C ctx s).1
  unfolding note_end
  note_end-IsDone s h =
      let (t, w) = K.now s.world in
      subst (λ b. is_done b.status ≡ true)
        (sym (base_of-set_status K k C P (λ b. record b { end_time = t }) (record s { world = w })))
        h

  -- A call that leaves the object alone leaves it done.
  same-IsDone :
      {A : Type 0} (s t : Run K.World (Obj k)) (q : Outcome A × Run K.World (Obj k)) (a : A)
      → q.1.self ≡ s.self
      → q ≡ (ok a, t)
      → IsDone s
      → IsDone t
  same-IsDone s t q a same e h =
      subst (λ o. is_done (C.common_status o.status).1.status ≡ true)
        (sym same ∙ ap (λ p. p.1.self) e) h

  module _ (hook : Reconciling K k (Unit {0})) where
    run_hook-idle :
        (round : ℤ) (report : PodReport) (delete_after : Bool) (now : Bool) (b : CommonStatus)
        (s : Run K.World (Obj k))
        → is_done b.status ≡ true
        → run_hook K k C ctx round report delete_after (now && not (is_done b.status)) (some hook) s
          ≡ run_hook K k C ctx round report delete_after (now && not (is_done b.status)) none s
    unfolding run_hook
    run_hook-idle round report delete_after now b s h = ground arith

    end_watch-idle :
        (round : ℤ) (report : PodReport) (delete_after : Bool) (s : Run K.World (Obj k))
        → IsDone s
        → end_watch K k C ctx round report delete_after (some hook) s
          ≡ end_watch K k C ctx round report delete_after none s
    unfolding end_watch
    end_watch-idle round report delete_after s h = bind-cong (note_end K k C ctx) _ _ s λ _ t e.
        let at_t : IsDone t = (let n = note_end-IsDone s h in rw e at n) in
        run_hook-idle round report delete_after (is_done report.status) (base_of K k C P t)
          (common_status K k C t).1 at_t

    watch_job-idle :
        (round : ℤ) (j : Job) (delete_after : Bool) (s : Run K.World (Obj k))
        → IsDone s
        → watch_job K k C ctx round j delete_after (some hook) s
          ≡ watch_job K k C ctx round j delete_after none s
    unfolding watch_job
    watch_job-idle round j delete_after s h =
        let watched =
          or_wrap "failed to get status from pod" (get_status_from_pod K j.spec.selector) in
        bind-cong watched _ _ s λ report t e.
          let at_t : IsDone t =
            same-IsDone s t (watched s) report (get_status_from_pod-self K ctx j.spec.selector s) e
              h in
          bind-cong (note_pod K k C ctx report.pod) _ _ t λ _ u e'.
            then-cong (is_failed report.status || is_done report.status)
              (finish_watch K k C ctx round report delete_after)
              (end_watch K k C ctx round report delete_after (some hook))
              (end_watch K k C ctx round report delete_after none) u
              (end_watch-idle round report delete_after u
                (let n = note_pod-IsDone report.pod t at_t in rw e' at n))

    create_or_watch-idle :
        (round : ℤ) (new_job : Reconciling K k Job) (delete_after : Bool) (found : Option Job)
        (s : Run K.World (Obj k))
        → IsDone s
        → create_or_watch K k C ctx round new_job delete_after (some hook) found s
          ≡ create_or_watch K k C ctx round new_job delete_after none found s
    create_or_watch-idle round new_job delete_after none s h = refl
    create_or_watch-idle round new_job delete_after (some j) s h =
        watch_job-idle round j delete_after s h

    -- While an object is done, the hook is not called: watching its job with the hook is watching it
    -- without one, whatever the cluster answers.
    pub create_and_watch_job-idle :
        (new_job : Reconciling K k Job) (delete_after : Bool) (s : Run K.World (Obj k))
        → is_done (base_of K k C P s).status ≡ true
        → create_and_watch_job K k C ctx new_job delete_after (some hook) s
          ≡ create_and_watch_job K k C ctx new_job delete_after none s
    unfolding create_and_watch_job is_done_or_failed
    create_and_watch_job-idle new_job delete_after s h =
        else-cong _ (delete_job K ctx round) (watch_with (some hook)) (watch_with none) now (
          bind-cong (get_job K ctx round) _ _ now λ found t e.
            create_or_watch-idle round new_job delete_after found t (
              same-IsDone now t (get_job K ctx round now) found (get_job-self K ctx round now) e
                (subst (λ b. is_done b.status ≡ true) (sym (base_of-common_status K k C P s)) h)))
      where
        round : ℤ
        round = C.get_round s.self.spec

        now : Run K.World (Obj k)
        now = (common_status K k C s).1

        watch_with : Option (Reconciling K k (Unit {0})) → Reconciling K k (Unit {0})
        watch_with h =
            get_job K ctx round >>= create_or_watch K k C ctx round new_job delete_after h
