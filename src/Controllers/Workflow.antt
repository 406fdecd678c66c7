-- ===== src/Controllers/Workflow.antt =====
-- controllers/workflow_controller.go
pub mod Overall
pub mod Rounds
use cloudrun.Base.{ℤ, pos, ltb_ℤ, Option, none, some, if◌then◌else◌}
use cloudrun.Types.{
  CommonStatus, NamespacedName, Status, doing, has_started, hash_done, is_doing, new_status,
  pending, undo,
}
use cloudrun.Api.Builder
use cloudrun.Api.Builder.{Builder}
use cloudrun.Api.Deployer
use cloudrun.Api.Deployer.{Deployer}
use cloudrun.Api.Workflow.{WorkflowStage}
use cloudrun.Cluster.Outcome.{Outcome, attempt, done, gets, modify, or_wrap, pure, ◌>>=◌, ◌>>◌}
use cloudrun.Cluster.Client.{Cluster, Kind, workflow}
use cloudrun.Cluster.Client as Client
use cloudrun.Cluster.Crd.{
  Reconciling, common_status, on_world, sample, set_status, update_self_status, workflow_crd,
}
use cloudrun.Core.Context.{Context, unless_missing}
use cloudrun.Core.History.{backup_state}
use cloudrun.Core.Status.{publish_status}
use cloudrun.Workflow.Workload.{generate_workload, new_context}
use cloudrun.Controllers.Reconcile.{
  Result, ensure_finalizer, finalized, is_deleted, no_requeue, reconcile_with, recovered, requeue,
}

abbrev pub start_round : ℤ → ℤ → CommonStatus → CommonStatus
start_round round now s = record s {
  status = pending;
  current_round = round;
  start_time = now;
  end_time = pos 0;
}

-- The status of a workflow from its own, its builder's (if there is one) and its deployer's. Once
-- the build has ended, the deployer's counts, and a deployer that has not started yet is at work.
unfoldable pub overall : Status → Option CommonStatus → CommonStatus → Status
overall own none d = d.status
overall own (some b) d =
    if is_doing b.status
    then doing
    else if hash_done b
    then (if has_started d then d.status else doing)
    else own

module _ (K : Cluster) where
  abbrev Working : Type 0 → Type 0
  Working A = Reconciling K workflow A

  abbrev pub set_stage : WorkflowStage → Working (Unit {0})
  set_stage stage =
      modify
        λ s. record s { self = record s.self { status = record s.self.status { stage = stage } } }

  -- A workflow that has no status yet gets an empty one.
  unfoldable pub first_status : Working Result
  first_status = do
    modify λ s. record s {
      self = record s.self { status = record s.self.status { base = some new_status } };
    }
    update_self_status K workflow
    pure (requeue 5)

  -- The spec's round is behind: the workload is made and waits.
  unfoldable pub not_ready : Context → Working Result
  not_ready ctx = do
    or_wrap "failed to generate workload" (generate_workload K ctx)
    set_status K workflow workflow_crd (λ s. record s { status = undo })
    set_stage WorkflowStage.pending
    update_self_status K workflow
    pure no_requeue

  unfoldable pub next_round : Context → Working Result
  next_round ctx = do
    w ← gets (λ s. s.self)
    or_wrap "failed to backup state" (backup_state K workflow workflow_crd w.spec)
    or_wrap "failed to generate workload" (generate_workload K ctx)
    set_stage WorkflowStage.pending
    now ← sample K.now
    set_status K workflow workflow_crd (start_round w.spec.round now)
    update_self_status K workflow
    pure (requeue 5)

  abbrev pub builder_status : Option Builder → Option CommonStatus
  builder_status none = none
  builder_status (some b) = some (Builder.common_status b.status).1

  unfoldable pub this_round : Context → Working Result
  this_round ctx = do
    reply ← attempt (on_world (K.get Client.builder ctx.namespaced_name))
    b ← unless_missing "failed to get builder" reply
    d ← or_wrap "failed to get deployer" (on_world (K.get Client.deployer ctx.namespaced_name))
    set_status K workflow workflow_crd (λ s. record s {
      status = overall s.status (builder_status b) (Deployer.common_status d.status).1;
    })
    publish_status K workflow workflow_crd none
    pure (requeue 5)

  unfoldable pub by_round : Context → Working Result
  by_round ctx = do
    w ← gets (λ s. s.self)
    status ← common_status K workflow workflow_crd
    if ltb_ℤ w.spec.round status.current_round
        then not_ready ctx
        else (if ltb_ℤ status.current_round w.spec.round then next_round ctx else this_round ctx)

  abbrev with_status : Context → Option CommonStatus → Working Result
  with_status ctx none = first_status
  with_status ctx (some _) = by_round ctx

  -- `finalizeWorkflow` does nothing.
  unfoldable pub reconcile_found : Context → Working Result
  reconcile_found ctx = do
    deleted ← gets is_deleted
    if deleted
        then finalized K workflow "failed to finalize workflow" done "failed to update workflow"
        else (do
          ensure_finalizer K workflow "failed to update workflow"
          with_status ctx (← gets (λ s. s.self.status.base)))

  unfoldable pub reconcile : NamespacedName → K.World → Outcome Result × K.World
  reconcile =
      reconcile_with K workflow "failed to get workflow"
        (λ s. recovered K workflow workflow_crd (reconcile_found (new_context s.self)) s)
