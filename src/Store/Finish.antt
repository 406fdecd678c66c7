-- ===== src/Store/Finish.antt =====
-- The end of a build (controllers/core/job.go, controllers/builder_controller.go) over a store: the job
-- has succeeded, and the deployers that the hooks name get their round.
use cloudrun.Base.{
  ◌≡◌, ◌≢◌, ◌⊎◌, refl, sym, ap, subst, ◌∙◌, inl, inr, ◌||◌, false, some, none, List, [], ◌∷◌, ◌++◌,
  Dict, arith,
}
use cloudrun.Types.{CommonStatus, NamespacedName, is_done, is_failed}
use cloudrun.Types as T
use cloudrun.Api.Builder.{Builder, DeployerHook, common_status, get_round}
use cloudrun.Api.Deployer.{ContainerSpec, Deployer}
use cloudrun.Api.Schema.{default_deployer}
use cloudrun.Cluster.Outcome.{ok}
use cloudrun.Cluster.Workloads.{Job, Pod, pod_succeeded}
use cloudrun.Cluster.Client.{Cluster, Kind, builder, deployer, job}
use cloudrun.Cluster.Crd.{Run, builder_crd}
use cloudrun.Core.Context.{Context, get_sub_resource, object_key}
use cloudrun.Core.Job.{
  after_hook, create_and_watch_job, end_watch, finish_watch, get_job, note_end, note_pod, run_hook,
  watch_job,
}
use cloudrun.Core.Job.Progress.{and-false}
use cloudrun.Core.Pod.{get_status_from_pod, new_pod_worker, phase_status, report_pods}
use cloudrun.Core.Status.{is_done_or_failed, publish_status}
use cloudrun.Build.Trigger.{hook_round, trigger_deployer}
use cloudrun.Controllers.Builder.{by_round, this_round, watch}
use cloudrun.Controllers.Builder.Finish.{same-ltb}
use cloudrun.Controllers.Reconcile.{no_requeue}
use cloudrun.Store.{IsStore, KeepsOthers, Objects}
use cloudrun.Store.Cleanup.{round_key}
use cloudrun.Store.Hooks.{trigger_deployer-hooked}
use cloudrun.Store.Unhooked.{IsHooked, KeepsUnhooked}
use cloudrun.Store.Made.{at, publish_status-stored}
use cloudrun.Store.Others.{others_at}
use cloudrun.Store.Round.{with_base}
use cloudrun.Store.Trigger.{HasContainers, IsUnhooked, hook_key, hooked}

builder-ne-deployer : builder ≢ deployer
builder-ne-deployer h = cc

-- What the hooks of a builder name does not depend on its status.
module _ (o : Builder) (b : CommonStatus) where
  IsUnhooked-status :
      (n : NamespacedName) (hs : List DeployerHook)
      → IsUnhooked o n hs
      → IsUnhooked (with_base o b) n hs
  IsUnhooked-status n [] it = it
  IsUnhooked-status n (h ∷ hs) (other, rest) = (other, IsUnhooked-status n hs rest)

  IsHooked-status :
      (n : NamespacedName) (hs : List DeployerHook)
      → IsHooked (with_base o b) n hs
      → IsHooked o n hs
  IsHooked-status n [] it = it
  IsHooked-status n (h ∷ hs) (inl same) = inl same
  IsHooked-status n (h ∷ hs) (inr later) = inr (IsHooked-status n hs later)

  hooked-status :
      (h : DeployerHook) (d : Deployer) (c : ContainerSpec) (cs : List ContainerSpec)
      → hooked h (with_base o b) d c cs ≡ hooked h o d c cs
  unfolding hook_round
  hooked-status h d c cs = refl

  -- Writes to the hooked deployers, and then one to the builder.
  touched :
      (before mid after : Objects) (hs : List DeployerHook)
      → KeepsUnhooked (with_base o b) hs before mid
      → KeepsOthers mid after builder (object_key o)
      → (k : Kind) (m : NamespacedName)
      → (after k m ≡ before k m)
        ⊎ ((k ≡ builder) × (m ≡ object_key o))
        ⊎ ((k ≡ deployer) × IsHooked o m hs)
  touched before mid after hs first second k m = elim (second k m) [
    | inl same' ↦ elim (first k m) [
      | inl same ↦ inl (same' ∙ same)
      | inr (kind, it) ↦ inr (inr (kind, IsHooked-status m hs it))
    ]
    | inr it ↦ inr (inl it)
  ]

-- A builder is no hooked deployer.
builder_kept :
    (b : Builder) (hs : List DeployerHook) (before after : Objects) (n : NamespacedName)
    → KeepsUnhooked b hs before after
    → after builder n ≡ before builder n
builder_kept b hs before after n keeps = elim (keeps builder n) [
  | inl same ↦ same
  | inr (kind, _) ↦ absurd (builder-ne-deployer kind)
]

module _ (K : Cluster) (S : IsStore K) (ctx : Context) (o : Builder) (base : CommonStatus)
    (w : K.World) (j : Job) (labels : Dict) (p : Pod) (ps : List Pod)
    (has : j.spec.selector ≡ some labels) (listed : K.list_pods labels w ≡ (ok (p ∷ ps), w))
    (ended : p.status.phase ≡ pod_succeeded) (fresh : is_done base.status ≡ false) where
  -- The status when the hooks run, and behind them.
  abbrev noted : CommonStatus
  noted = record base { pod_worker = some (new_pod_worker p); end_time = (K.now w).0 }

  abbrev pub finished : CommonStatus
  finished = record noted { status = T.done; message = "" }

  watch-steps :
      (v : K.World)
      → K.get job (round_key ctx o.spec.round) w ≡ (ok j, w)
      → trigger_deployer K (at K S (K.now w).1 o noted) ≡ (ok tt, at K S v o noted)
      → watch K ctx (at K S w o base) ≡ (ok tt, at K S v o finished)
  unfolding watch create_and_watch_job watch_job end_watch run_hook after_hook note_end note_pod
      finish_watch get_job get_sub_resource get_status_from_pod report_pods phase_status
      is_done_or_failed common_status get_round trigger_deployer new_pod_worker
  watch-steps v looked triggered =
      rw
        (
          and-false (is_done base.status || is_failed base.status),
          looked,
          has,
          listed,
          ended,
          fresh,
          triggered,
        )
        refl

  this_round-steps :
      (r : Builder) (v y : K.World)
      → watch K ctx (at K S w o base) ≡ (ok tt, at K S v o finished)
      → publish_status K builder builder_crd none (at K S v o finished)
        ≡ (ok tt, at K S y r finished)
      → this_round K ctx (at K S w o base) ≡ (ok no_requeue, at K S y r finished)
  unfolding this_round is_done_or_failed common_status
  this_round-steps r v y watched published = rw (watched, published) refl

  module _ (hs hs' : List DeployerHook) (h : DeployerHook) (d : Deployer) (c : ContainerSpec)
      (cs : List ContainerSpec)
      (there : S.objects w builder (object_key o) ≡ some (with_base o base))
      (round : base.current_round ≡ o.spec.round)
      (job_there : S.objects w job (round_key ctx o.spec.round) ≡ some j)
      (hooks : o.spec.deployer_hooks ≡ hs ++ (h ∷ hs')) (apart : IsUnhooked o (hook_key o h) hs)
      (apart' : IsUnhooked o (hook_key o h) hs') (ready : HasContainers (S.objects w))
      (waiting : S.objects w deployer (hook_key o h) ≡ some d)
      (contains : d.spec.containers ≡ c ∷ cs) where
    -- What a builder is, and what the store has, when its build has ended.
    pub record Finished (t : Run K.World Builder) : Type 0 where
      pub stored : S.objects t.world builder (object_key o) ≡ some t.self
      pub status : t.self.status.base ≡ some finished
      pub spec : t.self.spec ≡ o.spec
      -- The deployer of the hook, and what it is to run.
      pub sent : Deployer
      pub sent_there : S.objects t.world deployer (hook_key o h) ≡ some sent
      pub sent_spec : sent.spec ≡ default_deployer (hooked h o d c cs)
      pub others :
          (k : Kind) (m : NamespacedName)
          → (S.objects t.world k m ≡ S.objects w k m)
            ⊎ ((k ≡ builder) × (m ≡ object_key o))
            ⊎ ((k ≡ deployer) × IsHooked o m (hs ++ (h ∷ hs')))

    this_round-Finished :
        (t : Run K.World Builder) × (this_round K ctx (at K S w o base) ≡ (ok no_requeue, t))
        × Finished t
    this_round-Finished =
        let x = (K.now w).1 in
        let now = S.objects-now w in
        let (v, triggered, (sent, sent_there, sent_spec), keeps) =
          trigger_deployer-hooked K S hs hs' h (at K S x o noted) d c cs hooks
            (IsUnhooked-status o noted (hook_key o h) hs apart)
            (IsUnhooked-status o noted (hook_key o h) hs' apart')
            (subst HasContainers (sym now) ready)
            (ap (λ f. f deployer (hook_key o h)) now ∙ waiting) contains in
        let kept : KeepsUnhooked (with_base o noted) (hs ++ (h ∷ hs')) (S.objects w) (S.objects v) =
          subst (λ f. KeepsUnhooked (with_base o noted) (hs ++ (h ∷ hs')) f (S.objects v)) now
            keeps in
        let there_v : S.objects v builder (object_key o) ≡ some (with_base o base) =
          builder_kept (with_base o noted) (hs ++ (h ∷ hs')) (S.objects w) (S.objects v)
            (object_key o) kept
          ∙ there in
        let (r, y, published, stored, spec, others) =
          publish_status-stored K S o (with_base o base) finished v there_v refl refl in
        let looked = S.get-some job (round_key ctx o.spec.round) w j job_there in
        (
          at K S y r finished,
          this_round-steps r v y (watch-steps v looked triggered) published,
          record {
            stored = stored;
            status = refl;
            spec = spec;
            sent = sent;
            sent_there =
                others_at (S.objects v) (S.objects y) builder (object_key o) deployer (hook_key o h)
                  others (inl (λ e. builder-ne-deployer (sym e)))
                ∙ sent_there;
            sent_spec = sent_spec ∙ ap default_deployer (hooked-status o noted h d c cs);
            others =
                touched o noted (S.objects w) (S.objects v) (S.objects y) (hs ++ (h ∷ hs')) kept
                  others;
          },
        )

    pub by_round-Finished :
        (t : Run K.World Builder) × (by_round K ctx (at K S w o base) ≡ (ok no_requeue, t))
        × Finished t
    unfolding by_round common_status
    by_round-Finished =
        let (t, done, ended') = this_round-Finished in
        let before = same-ltb base.current_round o.spec.round round in
        let behind = same-ltb o.spec.round base.current_round (sym round) in
        (t, ground arith, ended')
