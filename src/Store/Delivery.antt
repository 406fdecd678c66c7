-- ===== src/Store/Delivery.antt =====
-- From a workflow to the round of its deployer (controllers/workflow/workflow.go, `GenerateWorkload`,
-- and controllers/build/builder.go, `TriggerDeployer`) over a store.
use cloudrun.Base.{◌≡◌, refl, sym, ap, ◌∙◌, String, some, [], ◌∷◌}
use cloudrun.Api.Meta.{OwnerReference}
use cloudrun.Api.Builder.{Builder}
use cloudrun.Api.Builder as B
use cloudrun.Api.Deployer.{Deployer, DeployerSpec}
use cloudrun.Api.Workflow.{BuildSpec, DeploySpec, Workflow}
use cloudrun.Api.Schema.{
  default_container, default_containers, default_containers-again, default_deployer, default_round,
  default_round-again,
}
use cloudrun.Cluster.Outcome.{ok}
use cloudrun.Cluster.Client.{Cluster, IsLawful, builder, deployer}
use cloudrun.Cluster.Crd.{Run}
use cloudrun.Core.Context.{Context, name, object_key}
use cloudrun.Build.Trigger.{hook_round, trigger_all, trigger_deployer}
use cloudrun.Workflow.Dockerfile.{get_dockerfile}
use cloudrun.Workflow.Handoff.{handoff}
use cloudrun.Workflow.Workload.{generate_workload, main_container}
use cloudrun.Store.{IsStore}
use cloudrun.Store.Trigger.{hook_key, hooked, trigger_one-Wrote}
use cloudrun.Store.Workload.{AdmitsWorkload, Generated, generate_workload-Generated}

-- What a deployer is to run when the workflow's image is built.
abbrev pub delivered : Workflow → DeploySpec → String → DeployerSpec
delivered w deploy image = record {
  type = deploy.type;
  containers = main_container deploy image ∷ deploy.sidecar_list;
  round = w.spec.round;
  resource_pool = deploy.resource_pool;
}

module _ (K : Cluster) (L : IsLawful K) (S : IsStore K) (ctx : Context) (s : Run K.World Workflow)
    (build : BuildSpec) (deploy : DeploySpec) (text : String)
    (has_build : s.self.spec.build ≡ some build)
    (has_deploy : s.self.spec.deploy ≡ some deploy) where
  -- The builder at the end of its build, and the store as the workflow left it.
  delivery :
      (v : K.World) (g : Generated K L S ctx s build deploy has_build has_deploy text v)
      → (u : K.World) × (q : Deployer) × (trigger_deployer K
            (record { world = v; self = g.made_builder })
          ≡ (ok tt, record { world = u; self = g.made_builder }))
        × (S.objects u deployer ctx.namespaced_name ≡ some q)
        × (q.spec ≡ default_deployer (delivered s.self deploy g.made_builder.spec.destination))
  unfolding trigger_deployer trigger_all hook_round B.get_round
  delivery v g =
      let b = g.made_builder in
      let h = handoff K ctx s build deploy has_build has_deploy in
      let owned : object_key b ≡ ctx.namespaced_name =
        S.objects-key builder ctx.namespaced_name v b g.builder_there in
      let key : hook_key b h ≡ ctx.namespaced_name =
        ap (λ n. record { name = name ctx; namespace = n }) (ap (λ n. n.namespace) owned) in
      let (u, one, wrote) =
        trigger_one-Wrote K S h (record { world = v; self = b }) g.made_deployer
          (default_container (main_container deploy "fake-image"))
          (default_containers deploy.sidecar_list)
          (ap (λ n. S.objects v deployer n) key ∙ g.deployer_there) g.containers in
      let after : trigger_all K (h ∷ []) (record { world = v; self = b })
          ≡ (ok tt, record { world = u; self = b }) =
        rw one refl in
      let same : default_deployer (
            hooked h b g.made_deployer (default_container (main_container deploy "fake-image"))
              (default_containers deploy.sidecar_list))
          ≡ default_deployer (delivered s.self deploy b.spec.destination) =
        λ i. record {
          type = g.type i;
          containers =
              default_containers-again
                (main_container deploy b.spec.destination ∷ deploy.sidecar_list) i;
          round = (ap default_round g.builder_round ∙ default_round-again s.self.spec.round) i;
          resource_pool = deploy.resource_pool;
        } in
      (
        u,
        wrote.stored,
        ap (λ l. trigger_all K l (record { world = v; self = b })) g.hooks ∙ after,
        ap (λ n. S.objects u deployer n) (sym key) ∙ wrote.there,
        wrote.same_spec ∙ same,
      )

  -- Over a store, with retries as documented: for a workflow with a build and a deploy part, whose
  -- Dockerfile can be made and whose registry is given, and where the server admits the builder and
  -- the deployer that are made for it, GenerateWorkload succeeds and leaves its builder and its
  -- deployer; and when that builder triggers its deployers, then this succeeds too, and the deployer of
  -- the workflow's name is to run the image that the builder was to build, with the workflow's
  -- sidecars, type and pool, in the workflow's round, all with the schema's defaults for what is left
  -- out (a round 0 is stored as -1).
  pub generate_workload-trigger_deployer :
      (location : String) (owner : OwnerReference)
      → get_dockerfile K s.self.spec s ≡ (ok text, s)
      → build.registry_location ≡ some location
      → ctx.get_owner_references ≡ ok owner
      → AdmitsWorkload K L S ctx s owner
      → (v : K.World) × (b : Builder) × (u : K.World) × (q : Deployer) × (generate_workload K ctx s
          ≡ (ok tt, record s { world = v }))
        × (S.objects v builder ctx.namespaced_name ≡ some b)
        × (trigger_deployer K (record { world = v; self = b })
            ≡ (ok tt, record { world = u; self = b }))
        × (S.objects u deployer ctx.namespaced_name ≡ some q)
        × (q.spec ≡ default_deployer (delivered s.self deploy b.spec.destination))
  generate_workload-trigger_deployer location owner dockerfile registry owned admitted =
      let (v, done, g) =
        generate_workload-Generated K L S ctx s build deploy text location owner has_build
          has_deploy dockerfile registry owned admitted in
      let (u, q, triggered, there, same) = delivery v g in
      (v, g.made_builder, u, q, done, g.builder_there, triggered, there, same)
