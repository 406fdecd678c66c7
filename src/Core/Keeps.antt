-- ===== src/Core/Keeps.antt =====
-- The calls of controllers/core that leave an object's current round as it is.
use cloudrun.Base.{ℤ, ◌≡◌, refl, Bool, ◌&&◌, ◌||◌, not, Option, none, some, ◌∷◌, [], ◌++◌, is_empty}
use cloudrun.Types.{is_done, is_failed, pending, doing}
use cloudrun.Cluster.Outcome.{
  Error, gets, Reply, got, failed, attempt, done, lift, or_wrap, pure, ◌>>=◌,
}
use cloudrun.Cluster.Workloads.{Job, Pod}
use cloudrun.Cluster.Client.{Cluster, History, KeepsStatus, Kind, Spec}
use cloudrun.Cluster.Crd.{Crd, Reconciling, common_status, sample, set_status, update_self_status}
use cloudrun.Cluster.CrdLaws.{IsPointer}
use cloudrun.Cluster.Still.{Still}
use cloudrun.Cluster.Keeps.{
  Keeps, pure-Keeps, lift-Keeps, gets-Keeps, sample-Keeps, attempt-Keeps, or_wrap-Keeps,
  Still-Keeps, bind-Keeps, common_status-Keeps, if-Keeps, set_status-Keeps,
  update_self_status-Keeps,
}
use cloudrun.Core.Context.{Context}
use cloudrun.Core.Status.{is_done_or_failed, note_error, publish_status}
use cloudrun.Core.History.{backup_state, common_history, is_zero}
use cloudrun.Core.Pod.{PodReport, get_status_from_pod, new_pod_worker}
use cloudrun.Core.Job.{
  after_hook, create_and_watch_job, create_job, create_or_watch, delete_job, end_watch,
  finish_watch, get_job, note_end, note_pod, run_hook, watch_job,
}
use cloudrun.Core.Job.Hook.{get_status_from_pod-self}
use cloudrun.Core.Still.{create_resource-Still, delete_job-Still, get_job-Still}
use cloudrun.Cluster.Client as Client
use cloudrun.Core.Context as Context

module _ (K : Cluster) (k : Kind) (C : Crd k) (P : IsPointer C) where
  pub is_done_or_failed-Keeps : Keeps K k C (is_done_or_failed K k C)
  unfolding is_done_or_failed
  is_done_or_failed-Keeps =
      bind-Keeps K k C (common_status K k C) _ (common_status-Keeps K k C P)
        λ s. pure-Keeps K k C (is_done s.status || is_failed s.status)

  history_of-Keeps : (spec : Spec k) → Keeps K k C (common_history K k C spec)
  unfolding common_history
  history_of-Keeps spec =
      bind-Keeps K k C (common_status K k C) _ (common_status-Keeps K k C P) λ s.
        if-Keeps K k C (is_zero s.current_round) (pure "")
          (or_wrap "marshal history" (
            lift (
              K.marshal k (record {
                round = s.current_round;
                status = s.status;
                spec = spec;
                start_time = s.start_time;
                end_time = s.end_time;
              }))))
          (pure-Keeps K k C "") (or_wrap-Keeps K k C "marshal history" _ (lift-Keeps K k C _))

  pub backup_state-Keeps : (spec : Spec k) → Keeps K k C (backup_state K k C spec)
  unfolding backup_state
  backup_state-Keeps spec =
      bind-Keeps K k C (common_history K k C spec) _ (history_of-Keeps spec) λ history.
        if-Keeps K k C (is_empty history) done
          (set_status K k C (λ s. record s { history_list = s.history_list ++ (history ∷ []) }))
          (pure-Keeps K k C tt)
          (set_status-Keeps K k C P
            (λ s. record s { history_list = s.history_list ++ (history ∷ []) }) (λ b. refl))

  note_error-round : (e : Option Error) (b : _) → (note_error e b).current_round ≡ b.current_round
  note_error-round none b = refl
  note_error-round (some e) b = refl

  module _ (F : KeepsStatus K) where
    pub publish_status-Keeps : (e : Option Error) → Keeps K k C (publish_status K k C e)
    unfolding publish_status
    publish_status-Keeps e =
        bind-Keeps K k C (set_status K k C (note_error e)) _
          (set_status-Keeps K k C P (note_error e) (note_error-round e))
          λ _.
            bind-Keeps K k C (attempt (update_self_status K k)) _
              (attempt-Keeps K k C _ (update_self_status-Keeps K k C F)) λ _. pure-Keeps K k C tt

  module _ (ctx : Context) where
    pub note_pod-Keeps : (p : Option Pod) → Keeps K k C (note_pod K k C ctx p)
    unfolding note_pod
    note_pod-Keeps none = pure-Keeps K k C tt
    note_pod-Keeps (some p) =
        set_status-Keeps K k C P (λ s. record s { pod_worker = some (new_pod_worker p) })
          (λ b. refl)

    pub note_end-Keeps : Keeps K k C (note_end K k C ctx)
    unfolding note_end
    note_end-Keeps =
        bind-Keeps K k C (sample K.now) _ (sample-Keeps K k C K.now)
          λ t. set_status-Keeps K k C P (λ s. record s { end_time = t }) (λ b. refl)

    finish_watch-Keeps :
        (round : ℤ) (report : PodReport) (delete_after : Bool)
        → Keeps K k C (finish_watch K k C ctx round report delete_after)
    unfolding finish_watch
    finish_watch-Keeps round report delete_after =
        bind-Keeps K k C
          (set_status K k C (λ s. record s { status = report.status; message = report.message })) _
          (set_status-Keeps K k C P
            (λ s. record s { status = report.status; message = report.message }) (λ b. refl))
          λ _. bind-Keeps K k C (is_done_or_failed K k C) _ is_done_or_failed-Keeps λ finished.
            if-Keeps K k C (finished && delete_after)
              (or_wrap "failed to cleanup the old job" (delete_job K ctx round)) done
              (or_wrap-Keeps K k C "failed to cleanup the old job" (delete_job K ctx round)
                (Still-Keeps K k C (delete_job K ctx round) (delete_job-Still K ctx round)))
              (pure-Keeps K k C tt)

    after_hook-Keeps :
        (round : ℤ) (report : PodReport) (delete_after : Bool) (reply : Reply (Unit {0}))
        → Keeps K k C (after_hook K k C ctx round report delete_after reply)
    unfolding after_hook
    after_hook-Keeps round report delete_after (got _) =
        finish_watch-Keeps round report delete_after
    after_hook-Keeps round report delete_after (failed _) =
        set_status-Keeps K k C P (λ s. record s { status = doing }) (λ b. refl)

    -- What is assumed of a hook, where there is one.
    abbrev pub HookKeeps : Option (Reconciling K k (Unit {0})) → Type 0
    HookKeeps none = Unit
    HookKeeps (some hook) = Keeps K k C hook

    run_hook-Keeps :
        (round : ℤ) (report : PodReport) (delete_after first : Bool)
        (hook : Option (Reconciling K k (Unit {0})))
        → HookKeeps hook
        → Keeps K k C (run_hook K k C ctx round report delete_after first hook)
    unfolding run_hook
    run_hook-Keeps round report delete_after Bool.true (some hook) h =
        bind-Keeps K k C (attempt hook) _ (attempt-Keeps K k C hook h)
          (after_hook-Keeps round report delete_after)
    run_hook-Keeps round report delete_after Bool.true none h =
        finish_watch-Keeps round report delete_after
    run_hook-Keeps round report delete_after Bool.false hook h =
        finish_watch-Keeps round report delete_after

    end_watch-Keeps :
        (round : ℤ) (report : PodReport) (delete_after : Bool)
        (hook : Option (Reconciling K k (Unit {0})))
        → HookKeeps hook
        → Keeps K k C (end_watch K k C ctx round report delete_after hook)
    unfolding end_watch
    end_watch-Keeps round report delete_after hook h =
        bind-Keeps K k C (note_end K k C ctx) _ note_end-Keeps λ _.
          bind-Keeps K k C (common_status K k C) _ (common_status-Keeps K k C P) λ before.
            run_hook-Keeps round report delete_after
              (is_done report.status && not (is_done before.status)) hook h

    watch_job-Keeps :
        (round : ℤ) (j : Job) (delete_after : Bool) (hook : Option (Reconciling K k (Unit {0})))
        → HookKeeps hook
        → Keeps K k C (watch_job K k C ctx round j delete_after hook)
    unfolding watch_job
    watch_job-Keeps round j delete_after hook h =
        bind-Keeps K k C
          (or_wrap "failed to get status from pod" (get_status_from_pod K j.spec.selector)) _
          (or_wrap-Keeps K k C "failed to get status from pod"
            (get_status_from_pod K j.spec.selector)
            (Still-Keeps K k C (get_status_from_pod K j.spec.selector)
              (get_status_from_pod-self K ctx j.spec.selector)))
          λ report.
            bind-Keeps K k C (note_pod K k C ctx report.pod) _ (note_pod-Keeps report.pod) λ _.
              if-Keeps K k C (is_failed report.status || is_done report.status)
                (end_watch K k C ctx round report delete_after hook)
                (finish_watch K k C ctx round report delete_after)
                (end_watch-Keeps round report delete_after hook h)
                (finish_watch-Keeps round report delete_after)

    module _ (F : KeepsStatus K) (new_job : Reconciling K k Job) (still : Still new_job) where
      create_job-Keeps : Keeps K k C (create_job K k C ctx new_job)
      unfolding create_job
      create_job-Keeps =
          bind-Keeps K k C (set_status K k C (λ s. record s { status = pending })) _
            (set_status-Keeps K k C P (λ s. record s { status = pending }) (λ b. refl))
            λ _. bind-Keeps K k C (publish_status K k C none) _ (publish_status-Keeps F none) λ _.
              bind-Keeps K k C new_job _ (Still-Keeps K k C new_job still) λ j.
                Still-Keeps K k C (Context.create_resource K ctx Client.job j Bool.false Bool.false)
                  (create_resource-Still K ctx Client.job j Bool.false Bool.false)

      create_or_watch-Keeps :
          (round : ℤ) (delete_after : Bool) (hook : Option (Reconciling K k (Unit {0})))
          (found : Option Job)
          → HookKeeps hook
          → Keeps K k C (create_or_watch K k C ctx round new_job delete_after hook found)
      create_or_watch-Keeps round delete_after hook none h = create_job-Keeps
      create_or_watch-Keeps round delete_after hook (some j) h =
          watch_job-Keeps round j delete_after hook h

      -- Watching a job never changes the current round, if the job's maker and the hook do not.
      pub create_and_watch_job-Keeps :
          (delete_after : Bool) (hook : Option (Reconciling K k (Unit {0})))
          → HookKeeps hook
          → Keeps K k C (create_and_watch_job K k C ctx new_job delete_after hook)
      unfolding create_and_watch_job
      create_and_watch_job-Keeps delete_after hook h =
          bind-Keeps K k C (gets (λ s. C.get_round s.self.spec)) _
            (gets-Keeps K k C (λ s. C.get_round s.self.spec))
            λ round.
              bind-Keeps K k C (is_done_or_failed K k C) _ is_done_or_failed-Keeps λ finished.
                if-Keeps K k C (finished && delete_after) (delete_job K ctx round)
                  (get_job K ctx round
                    >>= create_or_watch K k C ctx round new_job delete_after hook)
                  (Still-Keeps K k C (delete_job K ctx round) (delete_job-Still K ctx round))
                  (bind-Keeps K k C (get_job K ctx round) _
                    (Still-Keeps K k C (get_job K ctx round) (get_job-Still K ctx round))
                    λ found. create_or_watch-Keeps round delete_after hook found h)
