-- ===== src/Controllers/Workflow/Rounds.antt =====
-- The round of a workflow (controllers/workflow_controller.go) only goes up, and only to the one
-- that its spec asks for.
use cloudrun.Base.{◌≡◌, refl, ap, ◌∙◌, ◌⊎◌, inl, inr, true, Bool-cases, ltb_ℤ, Option, none, arith}
use cloudrun.Types.{undo}
use cloudrun.Api.Builder.{Builder}
use cloudrun.Api.Deployer.{Deployer}
use cloudrun.Api.Deployer as D
use cloudrun.Api.Workflow.{WorkflowStage}
use cloudrun.Api.Workflow as W
use cloudrun.Cluster.Outcome.{attempt, or_wrap, pure, ◌>>◌}
use cloudrun.Cluster.Client.{Cluster, KeepsStatus, Obj, workflow}
use cloudrun.Cluster.Client as Client
use cloudrun.Cluster.Crd.{
  Run, common_status, on_world, set_status, update_self_status, workflow_crd,
}
use cloudrun.Cluster.CrdLaws.{base_of-common_status, workflow_crd-IsPointer}
use cloudrun.Cluster.Bind.{bind-leads}
use cloudrun.Cluster.Keeps.{
  Keeps, round_of, Still-Keeps, bind-Keeps, pure-Keeps, set_status-Keeps, update_self_status-Keeps,
  or_wrap-Keeps,
}
use cloudrun.Core.Begin.{begin_with-round}
use cloudrun.Core.Context.{Context, unless_missing}
use cloudrun.Core.History.{backup_state}
use cloudrun.Core.Keeps.{backup_state-Keeps, publish_status-Keeps}
use cloudrun.Core.Status.{publish_status}
use cloudrun.Core.Still.{unless_missing-Still}
use cloudrun.Workflow.Still.{generate_workload-Still}
use cloudrun.Workflow.Workload.{generate_workload}
use cloudrun.Controllers.Reconcile.{no_requeue, requeue}
use cloudrun.Controllers.Workflow.{
  builder_status, by_round, next_round, not_ready, overall, set_stage, start_round, this_round,
}

module _ (K : Cluster) where
  set_stage-Keeps : (stage : WorkflowStage) → Keeps K workflow workflow_crd (set_stage K stage)
  unfolding Keeps W.common_status
  set_stage-Keeps stage s = ground arith

  module _ (F : KeepsStatus K) (ctx : Context) where
    generate_workload-Keeps : Keeps K workflow workflow_crd (generate_workload K ctx)
    generate_workload-Keeps =
        Still-Keeps K workflow workflow_crd (generate_workload K ctx)
          (generate_workload-Still K ctx)

    not_ready-Keeps : Keeps K workflow workflow_crd (not_ready K ctx)
    unfolding not_ready
    not_ready-Keeps =
        bind-Keeps K workflow workflow_crd
          (or_wrap "failed to generate workload" (generate_workload K ctx)) _
          (or_wrap-Keeps K workflow workflow_crd "failed to generate workload" _
            generate_workload-Keeps)
          λ _.
            bind-Keeps K workflow workflow_crd
              (set_status K workflow workflow_crd (λ s. record s { status = undo })) _
              (set_status-Keeps K workflow workflow_crd workflow_crd-IsPointer
                (λ s. record s { status = undo }) (λ b. refl))
              λ _.
                bind-Keeps K workflow workflow_crd (set_stage K WorkflowStage.pending) _
                  (set_stage-Keeps WorkflowStage.pending)
                  λ _.
                    bind-Keeps K workflow workflow_crd (update_self_status K workflow) _
                      (update_self_status-Keeps K workflow workflow_crd F)
                      λ _. pure-Keeps K workflow workflow_crd no_requeue

    publish-Keeps :
        (b : Option Builder) (d : Deployer)
        → Keeps K workflow workflow_crd (do
          set_status K workflow workflow_crd (λ s. record s {
            status = overall s.status (builder_status K b) (D.common_status d.status).1;
          })
          publish_status K workflow workflow_crd none
          pure (requeue 5))
    publish-Keeps b d =
        bind-Keeps K workflow workflow_crd
          (set_status K workflow workflow_crd (λ s. record s {
            status = overall s.status (builder_status K b) (D.common_status d.status).1;
          }))
          _
          (set_status-Keeps K workflow workflow_crd workflow_crd-IsPointer
            (λ s. record s {
              status = overall s.status (builder_status K b) (D.common_status d.status).1;
            })
            (λ c. refl))
          λ _.
            bind-Keeps K workflow workflow_crd (publish_status K workflow workflow_crd none) _
              (publish_status-Keeps K workflow workflow_crd workflow_crd-IsPointer F none)
              λ _. pure-Keeps K workflow workflow_crd (requeue 5)

    this_round-Keeps : Keeps K workflow workflow_crd (this_round K ctx)
    unfolding this_round
    this_round-Keeps =
        bind-Keeps K workflow workflow_crd
          (attempt (on_world (K.get Client.builder ctx.namespaced_name))) _
          (Still-Keeps K workflow workflow_crd _ (λ t. refl))
          λ reply.
            bind-Keeps K workflow workflow_crd (unless_missing "failed to get builder" reply) _
              (Still-Keeps K workflow workflow_crd (unless_missing "failed to get builder" reply)
                (unless_missing-Still "failed to get builder" reply))
              λ b.
                bind-Keeps K workflow workflow_crd
                  (or_wrap "failed to get deployer"
                    (on_world (K.get Client.deployer ctx.namespaced_name)))
                  _
                  (Still-Keeps K workflow workflow_crd
                    (or_wrap "failed to get deployer"
                      (on_world (K.get Client.deployer ctx.namespaced_name)))
                    (λ t. refl))
                  λ d. publish-Keeps b d

    -- A call to `next_round` leaves the round as it is, or sets it to the one of the spec.
    next_round-round :
        (s : Run K.World (Obj workflow))
        → (round_of K workflow workflow_crd (next_round K ctx s).1
            ≡ round_of K workflow workflow_crd s)
          ⊎ (round_of K workflow workflow_crd (next_round K ctx s).1 ≡ s.self.spec.round)
    unfolding next_round Keeps
    next_round-round s =
        bind-leads IsOld IsAt
          (or_wrap "failed to backup state" (backup_state K workflow workflow_crd s.self.spec)) _ s
          (backup_state-Keeps K workflow workflow_crd workflow_crd-IsPointer s.self.spec s)
          (λ t h. inl h)
          λ _ t h.
            bind-leads IsOld IsAt (or_wrap "failed to generate workload" (generate_workload K ctx))
              _ t (generate_workload-Keeps t ∙ h) (λ u h'. inl h')
              λ _ u h'. inr (
                begin_with-round K workflow workflow_crd workflow_crd-IsPointer F
                  (start_round s.self.spec.round) (requeue 5) s.self.spec.round (λ now b. refl)
                  (set_stage K WorkflowStage.pending u).1)
      where
        IsOld : Run K.World (Obj workflow) → Type 0
        IsOld t = round_of K workflow workflow_crd t ≡ round_of K workflow workflow_crd s

        IsAt : Run K.World (Obj workflow) → Type 0
        IsAt t =
            (round_of K workflow workflow_crd t ≡ round_of K workflow workflow_crd s)
            ⊎ (round_of K workflow workflow_crd t ≡ s.self.spec.round)

    -- Over a server that answers a write of a status with that status: one run of the round's part
    -- of a workflow's `Reconcile` leaves the current round as it is, or sets it to the round of the
    -- spec, and this only where that one is higher.
    pub by_round-rises :
        (s : Run K.World (Obj workflow))
        → let before = round_of K workflow workflow_crd s in
          let after = round_of K workflow workflow_crd (by_round K ctx s).1 in
          (after ≡ before) ⊎ ((after ≡ s.self.spec.round) × (ltb_ℤ before s.self.spec.round ≡ true))
    unfolding by_round Keeps
    by_round-rises s =
        let t = (common_status K workflow workflow_crd s).1 in
        let same : round_of K workflow workflow_crd t ≡ round_of K workflow workflow_crd s =
          ap (λ b. b.current_round)
            (base_of-common_status K workflow workflow_crd workflow_crd-IsPointer s) in
        elim (Bool-cases (ltb_ℤ s.self.spec.round (round_of K workflow workflow_crd s))) [
          | inl behind ↦ inl (rw behind (not_ready-Keeps t ∙ same))
          | inr up ↦
              elim (Bool-cases (ltb_ℤ (round_of K workflow workflow_crd s) s.self.spec.round)) [
                | inl ahead ↦
                    rw (up, ahead)
                      (elim (next_round-round t) [
                        | inl kept ↦ inl (kept ∙ same)
                        | inr moved ↦ inr (moved, refl)
                      ])
                | inr level ↦ inl (rw (up, level) (this_round-Keeps t ∙ same))
              ]
        ]
