-- ===== src/Controllers/Deployer.antt =====
-- controllers/deployer_controller.go
pub mod Rounds
use cloudrun.Base.{ℤ, pos, ltb_ℤ, ◌&&◌, ◌||◌, none, some, if◌then◌else◌}
use cloudrun.Types.{CommonStatus, NamespacedName, is_doing, pending, undo}
use cloudrun.Api.Deployer.{is_service}
use cloudrun.Cluster.Outcome.{
  Outcome, Reply, got, failed, Error, wrap_error, attempt, fail, gets, or_wrap, pure, ◌>>=◌, ◌>>◌,
}
use cloudrun.Cluster.Client.{Cluster, deployer}
use cloudrun.Cluster.Crd.{common_status, deployer_crd, sample, set_status, update_self_status}
use cloudrun.Core.Context.{Context}
use cloudrun.Core.Status.{is_done_or_failed, publish_status}
use cloudrun.Deploy.Names.{new_context}
use cloudrun.Deploy.Handle.{backup_state, cleanup_for_next_round, handle}
use cloudrun.Deploy.Resources.{Deploying, beg_resource, release_resource}
use cloudrun.Controllers.Reconcile.{
  Result, ensure_finalizer, finalized, is_deleted, no_requeue, reconcile_with, recovered, requeue,
}

abbrev pub start_round : ℤ → ℤ → CommonStatus → CommonStatus
start_round round now s = record s {
  status = pending;
  current_round = round;
  start_time = now;
  end_time = pos 0;
}

module _ (K : Cluster) where
  unfoldable pub next_round : Context → Deploying K Result
  next_round ctx = do
    or_wrap "failed to cleanup for next round" (cleanup_for_next_round K ctx)
    or_wrap "failed to backup state" (backup_state K ctx)
    or_wrap "failed to release resource" (release_resource K)
    now ← sample K.now
    d ← gets (λ s. s.self)
    set_status K deployer deployer_crd (start_round d.spec.round now)
    or_wrap "failed to beg resource" (beg_resource K)
    update_self_status K deployer
    pure (requeue 5)

  abbrev pub after_handle : Reply (Unit {0}) → Deploying K Result
  after_handle (failed e) = do
    let e' : Error = wrap_error "failed to handle deployer" e
    publish_status K deployer deployer_crd (some e')
    fail e'
  after_handle (got _) = do
    publish_status K deployer deployer_crd none
    finished ← is_done_or_failed K deployer deployer_crd
    d ← gets (λ s. s.self)
    status ← common_status K deployer deployer_crd
    if finished || (is_service d.spec.type && is_doing status.status)
        then pure no_requeue
        else pure (requeue 5)

  unfoldable pub this_round : Context → Deploying K Result
  this_round ctx = do reply ← attempt (handle K ctx); after_handle reply

  -- The spec's round is behind: nothing is to be done.
  unfoldable pub not_ready : Deploying K Result
  not_ready = do
    set_status K deployer deployer_crd (λ s. record s { status = undo })
    update_self_status K deployer
    pure no_requeue

  unfoldable pub by_round : Context → Deploying K Result
  by_round ctx = do
    d ← gets (λ s. s.self)
    status ← common_status K deployer deployer_crd
    if ltb_ℤ d.spec.round status.current_round
        then not_ready
        else (if ltb_ℤ status.current_round d.spec.round then next_round ctx else this_round ctx)

  -- `finalizeDeployer` gives the resources back.
  unfoldable pub reconcile_found : Context → Deploying K Result
  reconcile_found ctx = do
    deleted ← gets is_deleted
    if deleted
        then finalized K deployer "failed to finalize deployer" (release_resource K)
            "failed to update deployer"
        else (do ensure_finalizer K deployer "failed to update deployer"; by_round ctx)

  unfoldable pub reconcile : NamespacedName → K.World → Outcome Result × K.World
  reconcile =
      reconcile_with K deployer "failed to get deployer"
        (λ s. recovered K deployer deployer_crd (reconcile_found (new_context s.self)) s)
