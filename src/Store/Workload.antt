-- ===== src/Store/Workload.antt =====
-- `GenerateWorkload` (controllers/workflow/workflow.go) over a store.
use cloudrun.Base.{
  ◌≡◌, ◌≢◌, ◌⊎◌, sym, ap, subst, ◌∙◌, inl, negsuc, String, true, false, some, [], ◌∷◌,
}
use cloudrun.Types.{NamespacedName}
use cloudrun.Api.Meta.{OwnerReference}
use cloudrun.Api.Builder.{Builder}
use cloudrun.Api.Deployer.{Deployer}
use cloudrun.Api.Workflow.{BuildSpec, DeploySpec, Workflow}
use cloudrun.Cluster.Outcome.{ok}
use cloudrun.Cluster.Client.{Cluster, IsLawful, Kind, builder, deployer}
use cloudrun.Cluster.Crd.{Run}
use cloudrun.Core.Context.{Context, object_key}
use cloudrun.Workflow.Dockerfile.{get_dockerfile}
use cloudrun.Workflow.Handoff.{handoff, new_builder-hooks, new_deployer-waits}
use cloudrun.Workflow.Workload.{generate_workload, main_container, new_builder, new_deployer}
use cloudrun.Store.{IsStore, KeepsOthers}
use cloudrun.Store.Others.{others_at}
use cloudrun.Store.Create.{IsAdmitted, create_resource-Wrote}
use cloudrun.Api.Schema.{default_builder, default_containers, default_deployer, default_round}
use cloudrun.Core.Context.{set_owner_reference}
use cloudrun.Store.Generate.{
  generate_workload-steps, new_builder-made, new_deployer-made, settled-update, untouched,
}

module _ (K : Cluster) (L : IsLawful K) (S : IsStore K) (ctx : Context) where
  -- What the store has of a workflow that has been worked: the builder and the deployer of its name.
  pub record Generated (s : Run K.World Workflow) (build : BuildSpec) (deploy : DeploySpec)
      (has_build : s.self.spec.build ≡ some build) (has_deploy : s.self.spec.deploy ≡ some deploy)
      (text : String) (v : K.World) : Type 0 where
    pub made_builder : Builder
    pub made_deployer : Deployer
    pub builder_there : S.objects v builder ctx.namespaced_name ≡ some made_builder
    pub deployer_there : S.objects v deployer ctx.namespaced_name ≡ some made_deployer
    pub raw : made_builder.spec.context.raw ≡ some text
    pub builder_round : made_builder.spec.round ≡ default_round s.self.spec.round
    pub hooks :
        made_builder.spec.deployer_hooks ≡ handoff K ctx s build deploy has_build has_deploy ∷ []
    pub deployer_round : made_deployer.spec.round ≡ negsuc 0
    pub containers :
        made_deployer.spec.containers
        ≡ default_containers (main_container deploy "fake-image" ∷ deploy.sidecar_list)
    pub type : made_deployer.spec.type ≡ deploy.type
    pub others :
        (j : Kind) (m : NamespacedName)
        → (S.objects v j m ≡ S.objects s.world j m)
          ⊎ (((j ≡ builder) ⊎ (j ≡ deployer)) × (m ≡ ctx.namespaced_name))

  -- The server admits the builder and the deployer that the code makes for the workflow, each with its
  -- owner, and in place of the stored one, if there is one.
  abbrev pub AdmitsWorkload : Run K.World Workflow → OwnerReference → Type 0
  AdmitsWorkload s owner =
      ((b : Builder) (t : Run K.World Workflow)
        → new_builder K ctx s ≡ (ok b, t)
        → IsAdmitted S builder false true (set_owner_reference b owner)
            (S.objects s.world builder ctx.namespaced_name))
      × ((d : Deployer) (w : K.World)
          → new_deployer K ctx (record s { world = w }) ≡ (ok d, record s { world = w })
          → IsAdmitted S deployer false true (set_owner_reference d owner)
              (S.objects s.world deployer ctx.namespaced_name))

  builder-ne-deployer : builder ≢ deployer
  builder-ne-deployer h = cc

  -- Over a store, with retries as documented: for a workflow with a build and a deploy part, whose
  -- Dockerfile can be made and whose registry is given, and where the server admits its builder and its
  -- deployer, GenerateWorkload succeeds; behind it the store
  -- has the workflow's builder, with the Dockerfile, the workflow's round and one hook, and its deployer,
  -- with an image that is never pulled and the round -1, the schema's default for the 0 that is sent, whether they were there before or not; and
  -- no other object is touched.
  pub generate_workload-Generated :
      (s : Run K.World Workflow) (build : BuildSpec) (deploy : DeploySpec) (text location : String)
      (owner : OwnerReference) (has_build : s.self.spec.build ≡ some build)
      (has_deploy : s.self.spec.deploy ≡ some deploy)
      → get_dockerfile K s.self.spec s ≡ (ok text, s)
      → build.registry_location ≡ some location
      → ctx.get_owner_references ≡ ok owner
      → AdmitsWorkload s owner
      → (v : K.World) × (generate_workload K ctx s ≡ (ok tt, record s { world = v }))
        × Generated s build deploy has_build has_deploy text v
  generate_workload-Generated s build deploy text location owner has_build has_deploy dockerfile
        registry owned (admits_builder, admits_deployer) =
      let (b, built, key, raw) =
        new_builder-made K ctx s build deploy text location has_build has_deploy dockerfile
          registry in
      let w = (K.new_uuid s.world).1 in
      let (x, created, wrote) =
        create_resource-Wrote K L S ctx builder b owner false true (record s { world = w }) owned
          (subst
            (λ n.
              IsAdmitted S builder false true (set_owner_reference b owner) (S.objects w builder n))
            (sym key)
            (subst
              (λ f.
                IsAdmitted S builder false true (set_owner_reference b owner)
                  (f builder ctx.namespaced_name))
              (sym (S.objects-new_uuid s.world))
              (admits_builder b (record s { world = w }) built))) in
      let (d, made, key') =
        new_deployer-made K ctx (record s { world = x }) build deploy has_build has_deploy in
      let (v, created', wrote') =
        create_resource-Wrote K L S ctx deployer d owner false true (record s { world = x }) owned
          (subst (λ q. IsAdmitted S deployer false true (set_owner_reference d owner) q)
            (sym (
              ap (λ n. S.objects x deployer n) key'
              ∙ others_at (S.objects w) (S.objects x) builder (object_key b) deployer
                  ctx.namespaced_name wrote.others (inl (λ h. builder-ne-deployer (sym h)))
              ∙ ap (λ f. f deployer ctx.namespaced_name) (S.objects-new_uuid s.world)))
            (admits_deployer d x made)) in
      let (hooks, round) =
        new_builder-hooks K ctx s build deploy has_build has_deploy b (record s { world = w })
          built in
      let (waits, containers, type) =
        new_deployer-waits K ctx (record s { world = x }) build deploy has_build has_deploy d
          (record s { world = x }) made in
      let same : wrote.stored.spec ≡ default_builder b.spec =
        wrote.same_spec
        ∙ settled-update builder (S.fill builder b.spec) _
        ∙ S.fill-builder b.spec in
      let same' : wrote'.stored.spec ≡ default_deployer d.spec =
        wrote'.same_spec
        ∙ settled-update deployer (S.fill deployer d.spec) _
        ∙ S.fill-deployer d.spec in
      (
        v,
        generate_workload-steps K ctx s build deploy b d (record s { world = w })
            (record s { world = x }) (record s { world = v }) has_build has_deploy built created
            made created',
        record {
          made_builder = wrote.stored;
          made_deployer = wrote'.stored;
          builder_there =
              others_at (S.objects x) (S.objects v) deployer (object_key d) builder
                ctx.namespaced_name wrote'.others (inl builder-ne-deployer)
              ∙ ap (λ n. S.objects x builder n) (sym key)
              ∙ wrote.there;
          deployer_there = ap (λ n. S.objects v deployer n) (sym key') ∙ wrote'.there;
          raw = ap (λ o. o.context.raw) same ∙ raw;
          builder_round = ap (λ o. o.round) same ∙ ap default_round round;
          hooks = ap (λ o. o.deployer_hooks) same ∙ hooks;
          deployer_round = ap (λ o. o.round) same' ∙ ap default_round waits;
          containers = ap (λ o. o.containers) same' ∙ ap default_containers containers;
          type = ap (λ o. o.type) same' ∙ type;
          others =
              untouched (S.objects s.world) (S.objects x) (S.objects v) ctx.namespaced_name
                (λ j m.
                  subst
                    (λ f. (S.objects x j m ≡ f j m) ⊎ ((j ≡ builder) × (m ≡ ctx.namespaced_name)))
                    (S.objects-new_uuid s.world)
                    (subst (λ n. KeepsOthers (S.objects w) (S.objects x) builder n) key wrote.others
                      j m))
                (subst (λ n. KeepsOthers (S.objects x) (S.objects v) deployer n) key'
                  wrote'.others);
        },
      )
