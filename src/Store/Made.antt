-- ===== src/Store/Made.antt =====
-- The status of a builder, and the job that it makes (controllers/core/status.go, controllers/build)
-- over a store.
use cloudrun.Base.{
  pos, ◌≡◌, refl, sym, ap, subst, inl, ◌∙◌, String, Option, true, false, none, some,
}
use cloudrun.Types.{CommonStatus, NamespacedName}
use cloudrun.Api.Meta.{OwnerReference, no_type}
use cloudrun.Api.Builder.{Builder, BuilderSpec, common_status}
use cloudrun.Cluster.Outcome.{ok}
use cloudrun.Cluster.Workloads.{Job, PodSpec}
use cloudrun.Cluster.Client.{Cluster, IsLawful, builder}
use cloudrun.Cluster.Client as Client
use cloudrun.Cluster.Crd.{Run, builder_crd}
use cloudrun.Core.Context.{Context, namespace, new_object_meta, object_key, set_owner_reference}
use cloudrun.Core.Status.{publish_status}
use cloudrun.Build.Job.{add_raw, choose_path, new_job}
use cloudrun.Build.Mounts.{Fetched, IsParsed, add_context-Fetched, has_volumes, with_dockerfile}
use cloudrun.Build.Names.{current_round}
use cloudrun.Build.Raw.{
  add_raw_dockerfile_init_containers, dockerfile_configmap, dockerfile_configmap_name,
}
use cloudrun.Store.{IsStore, KeepsOthers}
use cloudrun.Store.Cleanup.{round_key}
use cloudrun.Store.Create.{IsAdmitted-force, create_resource-Wrote}
use cloudrun.Store.Round.{with_base}

-- The name of the config map for a Dockerfile.
abbrev pub configmap_key : Context → NamespacedName
configmap_key ctx = record { name = dockerfile_configmap_name ctx; namespace = namespace ctx }

module _ (K : Cluster) (S : IsStore K) where
  abbrev pub at : K.World → Builder → CommonStatus → Run K.World Builder
  at w o b = record { world = w; self = with_base o b }

  -- A builder with any status, of which the store has the spec and the resource version, is stored
  -- with that status.
  pub publish_status-stored :
      (o p : Builder) (b : CommonStatus) (w : K.World)
      → S.objects w builder (object_key o) ≡ some p
      → o.meta.resource_version ≡ p.meta.resource_version
      → o.spec ≡ p.spec
      → (q : Builder) × (v : K.World) × (publish_status K builder builder_crd none (at w o b)
          ≡ (ok tt, at v q b))
        × (S.objects v builder (object_key o) ≡ some (with_base q b))
        × (q.spec ≡ o.spec)
        × KeepsOthers (S.objects w) (S.objects v) builder (object_key o)
  unfolding publish_status common_status
  publish_status-stored o p b w there same_version same_spec =
      let (q, v, written, stored, status, spec, others) =
        S.update_status-some builder (with_base o b) p w there same_version same_spec in
      let same : q ≡ with_base q b = λ i. record q { status = status i } in
      let done : publish_status K builder builder_crd none (at w o b)
          ≡ (ok tt, record { world = v; self = q }) =
        rw written refl in
      (
        q,
        v,
        done ∙ ap (λ d. (ok tt, record { world = v; self = d })) same,
        stored ∙ ap some same,
        spec,
        others,
      )

module _ (K : Cluster) (L : IsLawful K) (S : IsStore K) (ctx : Context) (owner : OwnerReference)
    (owned : ctx.get_owner_references ≡ ok owner) where
  -- The server admits what the code makes for a build: the config map of its Dockerfile, and its job.
  pub record AdmitsBuild (spec : BuilderSpec) : Type 0 where
    pub of_config_map :
        (text path : String) (r t : Run K.World Builder)
        → spec.context.raw ≡ some text
        → choose_path K ctx spec (some text) r ≡ (ok path, t)
        → S.admits Client.config_map none
            (set_owner_reference (dockerfile_configmap ctx text path) owner)
          ≡ true
    pub of_job :
        (j : Job) (r t : Run K.World Builder)
        → r.self.spec ≡ spec
        → new_job K ctx r ≡ (ok j, t)
        → S.admits Client.job none (set_owner_reference j owner) ≡ true

  -- The job that a builder makes, and the store behind that.
  abbrev pub Made : Builder → CommonStatus → K.World → Type 0
  Made o b w =
      (j : Job) × (v : K.World) × (new_job K ctx (at K S w o b) ≡ (ok j, at K S v o b))
      × (object_key j ≡ round_key ctx b.current_round)
      × (has_volumes j.spec.template.spec ≡ true)
      × (j.spec.backoff_limit ≡ some (pos 0))
      × KeepsOthers (S.objects w) (S.objects v) Client.config_map (configmap_key ctx)

  abbrev job_of : CommonStatus → PodSpec → Job
  job_of b p = record {
    type_meta = no_type;
    meta = new_object_meta ctx b.current_round;
    spec = record {
      selector = none;
      template = record { meta = new_object_meta ctx b.current_round; spec = p };
      backoff_limit = some (pos 0);
    };
    status = tt;
  }

  job_of-key :
      (b : CommonStatus) (p : PodSpec) → object_key (job_of b p) ≡ round_key ctx b.current_round
  unfolding new_object_meta
  job_of-key b p = refl

  chosen :
      (o : Builder) (b : CommonStatus) (w : K.World) (spec : BuilderSpec) (raw : Option String)
      → (path : String) × (v : K.World) × (choose_path K ctx spec raw (at K S w o b)
          ≡ (ok path, at K S v o b))
        × (S.objects v ≡ S.objects w)
  chosen o b w spec none = (spec.dockerfile_path, w, refl, refl)
  chosen o b w spec (some text) = (_, _, refl, S.objects-new_uuid w)

  added :
      (o : Builder) (b : CommonStatus) (w : K.World) (spec : BuilderSpec) (raw : Option String)
      (p : PodSpec) (path : String)
      → Fetched K ctx spec path p
      → ((text : String)
          → raw ≡ some text
          → S.admits Client.config_map none
              (set_owner_reference (dockerfile_configmap ctx text path) owner)
            ≡ true)
      → (q : PodSpec) × (v : K.World) × (add_raw K ctx raw p path (at K S w o b)
          ≡ (ok q, at K S v o b))
        × (has_volumes q ≡ true)
        × KeepsOthers (S.objects w) (S.objects v) Client.config_map (configmap_key ctx)
  unfolding add_raw_dockerfile_init_containers
  added o b w spec none p path f admitted = (p, w, refl, f.mounted, λ j m. inl refl)
  added o b w spec (some text) p path f admitted =
      let (u, created, wrote) =
        create_resource-Wrote K L S ctx Client.config_map (dockerfile_configmap ctx text path) owner
          true false (at K S w o b) owned
          (IsAdmitted-force S Client.config_map
            (set_owner_reference (dockerfile_configmap ctx text path) owner)
            (S.objects w Client.config_map (object_key (dockerfile_configmap ctx text path)))
            (admitted text refl)) in
      (with_dockerfile K ctx spec path p, u, rw (created, f.main) refl, f.mounted_raw, wrote.others)

  pub new_job-Made :
      (o : Builder) (b : CommonStatus) (w : K.World)
      → IsParsed K o.spec.context.git
      → AdmitsBuild o.spec
      → Made o b w
  unfolding new_job current_round
  new_job-Made o b w parsed admitted =
      let spec = o.spec in
      let (path, v, chose, same) = chosen o b w spec spec.context.raw in
      let (p, fetched, f) = add_context-Fetched K ctx spec path (at K S v o b) parsed in
      let (q, u, did, valid, keeps) = added o b v spec spec.context.raw p path f (λ text has.
        admitted.of_config_map text path (at K S w o b) (at K S v o b) has
          (ap (λ raw. choose_path K ctx spec raw (at K S w o b)) (sym has) ∙ chose)) in
      (
        job_of b q,
        u,
        rw (chose, fetched, did) refl,
        job_of-key b q,
        valid,
        refl,
        subst (λ g. KeepsOthers g (S.objects u) Client.config_map (configmap_key ctx)) same keeps,
      )
