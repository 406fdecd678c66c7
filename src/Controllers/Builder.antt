-- ===== src/Controllers/Builder.antt =====
-- controllers/builder_controller.go
pub mod Rounds
pub mod Requeue
pub mod Finish
use cloudrun.Base.{ℤ, pos, ltb_ℤ, false, none, some, if◌then◌else◌}
use cloudrun.Types.{CommonStatus, NamespacedName, pending, undo}
use cloudrun.Cluster.Outcome.{
  Outcome, Reply, got, failed, Error, wrap_error, attempt, done, fail, gets, or_wrap, pure, ◌>>=◌,
  ◌>>◌,
}
use cloudrun.Cluster.Client.{Cluster, builder}
use cloudrun.Cluster.Crd.{
  Reconciling, builder_crd, common_status, sample, set_status, update_self_status,
}
use cloudrun.Core.Context.{Context}
use cloudrun.Core.History.{backup_state}
use cloudrun.Core.Job.{create_and_watch_job, delete_job}
use cloudrun.Core.Status.{is_done_or_failed, publish_status}
use cloudrun.Build.Job.{new_job}
use cloudrun.Build.Names.{current_round, new_context}
use cloudrun.Build.Trigger.{trigger_deployer}
use cloudrun.Controllers.Reconcile.{
  Result, ensure_finalizer, finalized, is_deleted, no_requeue, reconcile_with, recovered, requeue,
}

-- The status that a new round starts from.
abbrev pub start_round : ℤ → ℤ → CommonStatus → CommonStatus
start_round round now s = record s {
  status = pending;
  current_round = round;
  start_time = now;
  end_time = pos 0;
}

module _ (K : Cluster) where
  abbrev Building : Type 0 → Type 0
  Building A = Reconciling K builder A

  -- `finalizeBuilder` and `cleanup`, which leave all to the owner references.
  abbrev finalize_builder : Building (Unit {0})
  finalize_builder = done

  unfoldable pub next_round : Context → Building Result
  next_round ctx = do
    or_wrap "failed to delete job" (do delete_job K ctx (← current_round))
    b ← gets (λ s. s.self)
    or_wrap "failed to backup state" (backup_state K builder builder_crd b.spec)
    now ← sample K.now
    set_status K builder builder_crd (start_round b.spec.round now)
    update_self_status K builder
    pure (requeue 5)

  unfoldable pub watch : Context → Building (Unit {0})
  watch ctx =
      create_and_watch_job K builder builder_crd ctx (new_job K ctx) false
        (some (trigger_deployer K))

  abbrev pub after_watch : Reply (Unit {0}) → Building Result
  after_watch (failed e) = do
    let e' : Error = wrap_error "failed to setup builder job" e
    publish_status K builder builder_crd (some e')
    fail e'
  after_watch (got _) = do
    publish_status K builder builder_crd none
    finished ← is_done_or_failed K builder builder_crd
    if finished then pure no_requeue else pure (requeue 5)

  unfoldable pub this_round : Context → Building Result
  this_round ctx = do reply ← attempt (watch ctx); after_watch reply

  -- The spec's round is behind: nothing is to be done.
  unfoldable pub not_ready : Building Result
  not_ready = do
    set_status K builder builder_crd (λ s. record s { status = undo })
    update_self_status K builder
    pure no_requeue

  unfoldable pub by_round : Context → Building Result
  by_round ctx = do
    b ← gets (λ s. s.self)
    status ← common_status K builder builder_crd
    if ltb_ℤ b.spec.round status.current_round
        then not_ready
        else (if ltb_ℤ status.current_round b.spec.round then next_round ctx else this_round ctx)

  unfoldable pub reconcile_found : Context → Building Result
  reconcile_found ctx = do
    deleted ← gets is_deleted
    if deleted
        then finalized K builder "failed to finalize builder" finalize_builder
            "failed to update builder"
        else (do ensure_finalizer K builder "failed to update builder"; by_round ctx)

  unfoldable pub reconcile : NamespacedName → K.World → Outcome Result × K.World
  reconcile =
      reconcile_with K builder "failed to get builder"
        (λ s. recovered K builder builder_crd (reconcile_found (new_context s.self)) s)
