-- ===== src/Store/Worked.antt =====
-- The next round of a workflow (controllers/workflow_controller.go) over a store.
use cloudrun.Base.{
  ltb_ℤ, ◌≡◌, ◌≢◌, ◌⊎◌, refl, ap, subst, ◌∙◌, ℤ, Bool-cases, inl, inr, String, is_empty, true,
  false, some, arith,
}
use cloudrun.Types.{CommonStatus, NamespacedName}
use cloudrun.Api.Meta.{OwnerReference}
use cloudrun.Api.Workflow.{BuildSpec, DeploySpec, Workflow, WorkflowStage, common_status}
use cloudrun.Cluster.Outcome.{ok}
use cloudrun.Cluster.Client.{Cluster, IsLawful, builder, deployer, workflow}
use cloudrun.Cluster.Crd.{Run, workflow_crd}
use cloudrun.Core.Archive.{history_of}
use cloudrun.Core.Context.{Context, object_key}
use cloudrun.Core.History.{backup_state, common_history, is_zero}
use cloudrun.Controllers.Workflow.{by_round, next_round, start_round}
use cloudrun.Controllers.Reconcile.{requeue}
use cloudrun.Workflow.Dockerfile.{get_dockerfile}
use cloudrun.Workflow.Workload.{generate_workload}
use cloudrun.Store.{IsStore, KeepsOthers}
use cloudrun.Store.Round.{archived}
use cloudrun.Store.Workload.{AdmitsWorkload, Generated, generate_workload-Generated}

workflow-ne-builder : workflow ≢ builder
workflow-ne-builder h = cc

workflow-ne-deployer : workflow ≢ deployer
workflow-ne-deployer h = cc

-- A workflow is none of what is made for it.
not_made : {n m : NamespacedName} → ((workflow ≡ builder) ⊎ (workflow ≡ deployer)) × (n ≡ m) → ⊥
not_made (inl h, _) = workflow-ne-builder h
not_made (inr h, _) = workflow-ne-deployer h

-- The workflow with a status.
abbrev pub with_base : Workflow → CommonStatus → Workflow
with_base o base = record o { status = record o.status { base = some base } }

module _ (K : Cluster) (o : Workflow) (base : CommonStatus) (text : String)
    (marshalled : K.marshal workflow (history_of o.spec base) ≡ ok text)
    (full : is_empty text ≡ false) where
  abbrev pub kept_in : K.World → Run K.World Workflow
  kept_in v = record { world = v; self = with_base o (archived base text) }

  backup_state-archived :
      (v : K.World)
      → backup_state K workflow workflow_crd o.spec (record { world = v; self = with_base o base })
        ≡ (ok tt, kept_in v)
  unfolding backup_state common_history common_status
  backup_state-archived v = elim (Bool-cases (is_zero base.current_round)) [
    | inl first ↦ rw first refl
    | inr later ↦ rw (later, marshalled, full) refl
  ]

  -- The workflow at the start of its spec's round.
  abbrev pub begun : ℤ → Workflow
  begun clock = record o {
    status = record {
      stage = WorkflowStage.pending;
      base = some (start_round o.spec.round clock (archived base text));
    };
  }

  module _ (ctx : Context) (w : K.World) where
    next_round-steps :
        (v u : K.World) (q : Workflow)
        → generate_workload K ctx (kept_in w) ≡ (ok tt, kept_in v)
        → K.update_status workflow (begun (K.now v).0) (K.now v).1 ≡ (ok q, u)
        → next_round K ctx (record { world = w; self = with_base o base })
          ≡ (ok (requeue 5), record { world = u; self = q })
    unfolding next_round common_status
    next_round-steps v u q generated written = rw (backup_state-archived w, generated, written) refl

    module _ (L : IsLawful K) (S : IsStore K) (build : BuildSpec) (deploy : DeploySpec)
        (raw : String) (has_build : o.spec.build ≡ some build)
        (has_deploy : o.spec.deploy ≡ some deploy) where
      -- What a workflow is, and what the store has, when its next round has begun.
      pub record Worked (t : Run K.World Workflow) : Type 0 where
        pub clock : ℤ
        pub stored : S.objects t.world workflow (object_key o) ≡ some t.self
        pub status : t.self.status ≡ (begun clock).status
        pub spec : t.self.spec ≡ o.spec
        -- The store as GenerateWorkload leaves it.
        pub made : K.World
        pub generated : Generated K L S ctx (kept_in w) build deploy has_build has_deploy raw made
        pub others : KeepsOthers (S.objects made) (S.objects t.world) workflow (object_key o)

      next_round-Worked :
          (location : String) (owner : OwnerReference)
          → get_dockerfile K o.spec (kept_in w) ≡ (ok raw, kept_in w)
          → build.registry_location ≡ some location
          → ctx.get_owner_references ≡ ok owner
          → AdmitsWorkload K L S ctx (kept_in w) owner
          → S.objects w workflow (object_key o) ≡ some (with_base o base)
          → (t : Run K.World Workflow) × (next_round K ctx
                (record { world = w; self = with_base o base })
              ≡ (ok (requeue 5), t))
            × Worked t
      next_round-Worked location owner dockerfile registry owned admitted there =
          let (v, done, g) =
            generate_workload-Generated K L S ctx (kept_in w) build deploy raw location owner
              has_build has_deploy dockerfile registry owned admitted in
          let same : S.objects v workflow (object_key o) ≡ some (with_base o base) =
            elim (g.others workflow (object_key o)) [
              | inl kept ↦ kept ∙ there
              | inr made ↦ absurd (not_made made)
            ] in
          let (q, u, written, stored, status, spec, others) =
            S.update_status-some workflow (begun (K.now v).0) (with_base o base) (K.now v).1
              (ap (λ f. f workflow (object_key o)) (S.objects-now v) ∙ same) refl refl in
          (
            record { world = u; self = q },
            next_round-steps v u q done written,
            record {
              clock = (K.now v).0;
              stored = stored;
              status = status;
              spec = spec;
              made = v;
              generated = g;
              others =
                  subst (λ f. KeepsOthers f (S.objects u) workflow (object_key o)) (S.objects-now v)
                    others;
            },
          )

      -- Over a store that has the workflow under reconciliation, whose round is older than its spec's,
      -- with retries as documented: where the workflow has a build and a deploy part, its Dockerfile can
      -- be made, its registry is given, the server admits its builder and its deployer, and the marshalling of the old round's history gives a text that
      -- is not empty, the reconciliation (behind the finalizer and the first status) succeeds and asks
      -- for another; the store has the builder and the deployer of the workflow as GenerateWorkload
      -- leaves them, and the workflow with the spec as it was, the stage and the status pending, the
      -- spec's round, and that text behind its history, or none if the old round was 0; no other object
      -- is touched.
      pub by_round-Worked :
          (location : String) (owner : OwnerReference)
          → get_dockerfile K o.spec (kept_in w) ≡ (ok raw, kept_in w)
          → build.registry_location ≡ some location
          → ctx.get_owner_references ≡ ok owner
          → AdmitsWorkload K L S ctx (kept_in w) owner
          → S.objects w workflow (object_key o) ≡ some (with_base o base)
          → ltb_ℤ base.current_round o.spec.round ≡ true
          → (t : Run K.World Workflow) × (by_round K ctx
                (record { world = w; self = with_base o base })
              ≡ (ok (requeue 5), t))
            × Worked t
      unfolding by_round common_status
      by_round-Worked location owner dockerfile registry owned admitted there ahead =
          let (t, done, worked) =
            next_round-Worked location owner dockerfile registry owned admitted there in
          (t, ground arith, worked)
