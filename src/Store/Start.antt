-- ===== src/Store/Start.antt =====
-- A builder in its round makes its job (controllers/builder_controller.go, controllers/core/job.go)
-- over a store.
use cloudrun.Base.{
  pos, ◌≡◌, ◌≢◌, ◌⊎◌, refl, sym, ap, subst, inl, inr, ◌∙◌, ◌||◌, true, false, none, some, arith,
}
use cloudrun.Types.{CommonStatus, NamespacedName, is_done, is_failed, pending}
use cloudrun.Api.Meta.{OwnerReference}
use cloudrun.Api.Builder.{Builder, common_status, get_round}
use cloudrun.Cluster.Outcome.{Error, ok, err, is_not_found}
use cloudrun.Cluster.Workloads.{Job, JobSpec}
use cloudrun.Cluster.Client.{Cluster, IsLawful, Kind, builder, config_map, job}
use cloudrun.Cluster.Crd.{Run, builder_crd}
use cloudrun.Core.Context.{
  Context, create_resource, get_sub_resource, object_key, set_owner_reference,
}
use cloudrun.Core.Job.{create_and_watch_job, create_job, get_job}
use cloudrun.Core.Job.Progress.{and-false}
use cloudrun.Core.Status.{is_done_or_failed, publish_status}
use cloudrun.Build.Job.{new_job}
use cloudrun.Build.Mounts.{IsParsed, has_volumes}
use cloudrun.Controllers.Builder.{by_round, this_round, watch}
use cloudrun.Controllers.Builder.Finish.{same-ltb}
use cloudrun.Controllers.Reconcile.{requeue}
use cloudrun.Store.{IsStore, KeepsOthers, Objects}
use cloudrun.Store.Cleanup.{round_key}
use cloudrun.Store.Create.{IsAdmitted, create_resource-Wrote, settled}
use cloudrun.Store.Made.{AdmitsBuild, at, configmap_key, new_job-Made, publish_status-stored}
use cloudrun.Store.Others.{others_at}
use cloudrun.Store.Round.{with_base}

module _ (K : Cluster) (S : IsStore K) (ctx : Context) (o : Builder) (base : CommonStatus)
    (w : K.World) where
  -- The status of a builder whose job waits.
  abbrev pub waits : CommonStatus
  waits = record base { status = pending }

  watch-steps :
      (e : Error) (q : Builder) (v u x : K.World) (j : Job)
      → K.get job (round_key ctx o.spec.round) w ≡ (err e, w)
      → is_not_found e ≡ true
      → publish_status K builder builder_crd none (at K S w o waits) ≡ (ok tt, at K S v q waits)
      → new_job K ctx (at K S v q waits) ≡ (ok j, at K S u q waits)
      → create_resource K ctx job j false false (at K S u q waits) ≡ (ok tt, at K S x q waits)
      → watch K ctx (at K S w o base) ≡ (ok tt, at K S x q waits)
  unfolding watch create_and_watch_job create_job get_job get_sub_resource is_done_or_failed
      common_status get_round
  watch-steps e q v u x j looked missing published made created =
      rw
        (
          and-false (is_done base.status || is_failed base.status),
          looked,
          missing,
          published,
          made,
          created,
        )
        refl

  this_round-steps :
      (q r : Builder) (x y : K.World)
      → watch K ctx (at K S w o base) ≡ (ok tt, at K S x q waits)
      → publish_status K builder builder_crd none (at K S x q waits) ≡ (ok tt, at K S y r waits)
      → this_round K ctx (at K S w o base) ≡ (ok (requeue 5), at K S y r waits)
  unfolding this_round is_done_or_failed common_status
  this_round-steps q r x y watched published = rw (watched, published) refl

-- Writes to a builder, a config map, a job, and the builder again.
touched :
    (a b c d e : Objects) (n n' n'' : NamespacedName)
    → KeepsOthers a b builder n
    → KeepsOthers b c config_map n'
    → KeepsOthers c d job n''
    → KeepsOthers d e builder n
    → (j : Kind) (m : NamespacedName)
    → (e j m ≡ a j m)
      ⊎ ((j ≡ builder) × (m ≡ n))
      ⊎ ((j ≡ config_map) × (m ≡ n'))
      ⊎ ((j ≡ job) × (m ≡ n''))
touched a b c d e n n' n'' first second third fourth j m = elim (fourth j m) [
  | inl same''' ↦ elim (third j m) [
    | inl same'' ↦ elim (second j m) [
      | inl same' ↦ elim (first j m) [
        | inl same ↦ inl (same''' ∙ same'' ∙ same' ∙ same)
        | inr it ↦ inr (inl it)
      ]
      | inr it ↦ inr (inr (inl it))
    ]
    | inr it ↦ inr (inr (inr it))
  ]
  | inr it ↦ inr (inl it)
]

builder-ne-job : builder ≢ job
builder-ne-job h = cc

builder-ne-config_map : builder ≢ config_map
builder-ne-config_map h = cc

job-ne-config_map : job ≢ config_map
job-ne-config_map h = cc

module _ (K : Cluster) (L : IsLawful K) (S : IsStore K) (ctx : Context) (owner : OwnerReference)
    (owned : ctx.get_owner_references ≡ ok owner) (o : Builder)
    (parsed : IsParsed K o.spec.context.git) (base : CommonStatus) (w : K.World)
    (there : S.objects w builder (object_key o) ≡ some (with_base o base))
    (round : base.current_round ≡ o.spec.round)
    (no_job : S.objects w job (round_key ctx o.spec.round) ≡ none)
    (admitted : AdmitsBuild K L S ctx owner owned o.spec) where
  -- What a builder is, and what the store has, when its job has been made.
  pub record Started (t : Run K.World Builder) : Type 0 where
    pub stored : S.objects t.world builder (object_key o) ≡ some t.self
    pub status : t.self.status.base ≡ some (record base { status = pending })
    pub spec : t.self.spec ≡ o.spec
    pub made : Job
    pub made_there : S.objects t.world job (round_key ctx o.spec.round) ≡ some made
    -- The spec that was sent.
    pub given : JobSpec
    pub filled : made.spec ≡ S.fill job given
    pub volumes : has_volumes given.template.spec ≡ true
    pub tries : given.backoff_limit ≡ some (pos 0)
    pub others :
        (j : Kind) (m : NamespacedName)
        → (S.objects t.world j m ≡ S.objects w j m)
          ⊎ ((j ≡ builder) × (m ≡ object_key o))
          ⊎ ((j ≡ config_map) × (m ≡ configmap_key ctx))
          ⊎ ((j ≡ job) × (m ≡ round_key ctx o.spec.round))

  this_round-Started :
      (t : Run K.World Builder) × (this_round K ctx (at K S w o base) ≡ (ok (requeue 5), t))
      × Started t
  this_round-Started =
      let b = record base { status = pending } in
      let key = object_key o in
      let rkey = round_key ctx o.spec.round in
      let (e, missing, looked) = S.get-none job rkey w no_job in
      let (q, v, published, there_v, spec, first) =
        publish_status-stored K S o (with_base o base) b w there refl refl in
      let (j, u, made, made_key, volumes, tries, second) =
        new_job-Made K L S ctx owner owned q b v
          (subst (λ sp. IsParsed K sp.context.git) (sym spec) parsed)
          (subst (λ sp. AdmitsBuild K L S ctx owner owned sp) (sym spec) admitted) in
      let job_key : object_key j ≡ rkey = made_key ∙ ap (λ r. round_key ctx r) round in
      let none_u : S.objects u job (object_key j) ≡ none =
        ap (λ n. S.objects u job n) job_key
        ∙ others_at (S.objects v) (S.objects u) config_map (configmap_key ctx) job rkey second
            (inl job-ne-config_map)
        ∙ others_at (S.objects w) (S.objects v) builder key job rkey first
            (inl (λ h. builder-ne-job (sym h)))
        ∙ no_job in
      let (x, created, wrote) =
        create_resource-Wrote K L S ctx job j owner false false (at K S u q b) owned (
          subst (λ p. IsAdmitted S job false false (set_owner_reference j owner) p) (sym none_u)
            (admitted.of_job j (at K S v q b) (at K S u q b) spec made)) in
      let third : KeepsOthers (S.objects u) (S.objects x) job rkey =
        subst (λ n. KeepsOthers (S.objects u) (S.objects x) job n) job_key wrote.others in
      let same : wrote.stored.spec ≡ S.fill job j.spec =
        wrote.same_spec ∙ ap (λ p. settled job false false (S.fill job j.spec) p) none_u in
      let there_x : S.objects x builder key ≡ some (with_base q b) =
        others_at (S.objects u) (S.objects x) job rkey builder key third (inl builder-ne-job)
        ∙ others_at (S.objects v) (S.objects u) config_map (configmap_key ctx) builder key second
            (inl builder-ne-config_map)
        ∙ there_v in
      let q_key : object_key q ≡ key = S.objects-key builder key v (with_base q b) there_v in
      let (r, y, published', there_y, spec', fourth) =
        publish_status-stored K S q (with_base q b) b x
          (ap (λ n. S.objects x builder n) q_key ∙ there_x) refl refl in
      let last : KeepsOthers (S.objects x) (S.objects y) builder key =
        subst (λ n. KeepsOthers (S.objects x) (S.objects y) builder n) q_key fourth in
      (
        at K S y r b,
        this_round-steps K S ctx o base w q r x y
            (watch-steps K S ctx o base w e q v u x j looked missing published made created)
            published',
        record {
          stored = ap (λ n. S.objects y builder n) (sym q_key) ∙ there_y;
          status = refl;
          spec = spec' ∙ spec;
          made = wrote.stored;
          made_there =
              others_at (S.objects x) (S.objects y) builder key job rkey last
                (inl (λ h. builder-ne-job (sym h)))
              ∙ ap (λ n. S.objects x job n) (sym job_key)
              ∙ wrote.there;
          given = j.spec;
          filled = same;
          volumes = volumes;
          tries = tries;
          others =
              touched (S.objects w) (S.objects v) (S.objects u) (S.objects x) (S.objects y) key
                (configmap_key ctx) rkey first second third last;
        },
      )

  pub by_round-Started :
      (t : Run K.World Builder) × (by_round K ctx (at K S w o base) ≡ (ok (requeue 5), t))
      × Started t
  unfolding by_round common_status
  by_round-Started =
      let (t, done, started) = this_round-Started in
      let before = same-ltb base.current_round o.spec.round round in
      let behind = same-ltb o.spec.round base.current_round (sym round) in
      (t, ground arith, started)
