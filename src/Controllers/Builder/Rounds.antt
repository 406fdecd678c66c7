-- ===== src/Controllers/Builder/Rounds.antt =====
-- The round of a builder (controllers/builder_controller.go) only goes up, and only to the one that
-- its spec asks for.
use cloudrun.Base.{◌≡◌, refl, ap, ◌∙◌, ◌⊎◌, inl, inr, true, false, Bool-cases, ltb_ℤ, some, none}
use cloudrun.Types.{undo}
use cloudrun.Cluster.Outcome.{
  Reply, got, failed, Error, wrap_error, attempt, fail, or_wrap, pure, ◌>>=◌,
}
use cloudrun.Cluster.Client.{Cluster, KeepsStatus, Obj, builder}
use cloudrun.Cluster.Crd.{Run, builder_crd, common_status, set_status, update_self_status}
use cloudrun.Cluster.CrdLaws.{base_of-common_status, builder_crd-IsPointer}
use cloudrun.Cluster.Bind.{bind-leads}
use cloudrun.Cluster.Still.{bind-Still}
use cloudrun.Cluster.Keeps.{
  Keeps, round_of, Still-Keeps, attempt-Keeps, bind-Keeps, if-Keeps, pure-Keeps, set_status-Keeps,
  update_self_status-Keeps,
}
use cloudrun.Core.Begin.{begin_with-round}
use cloudrun.Core.Context.{Context}
use cloudrun.Core.Job.{delete_job}
use cloudrun.Core.Keeps.{
  backup_state-Keeps, create_and_watch_job-Keeps, is_done_or_failed-Keeps, publish_status-Keeps,
}
use cloudrun.Core.History.{backup_state}
use cloudrun.Core.Status.{is_done_or_failed, publish_status}
use cloudrun.Core.Still.{delete_job-Still}
use cloudrun.Build.Still.{current_round-Still, new_job-Still, trigger_deployer-Still}
use cloudrun.Build.Names.{current_round}
use cloudrun.Build.Job.{new_job}
use cloudrun.Build.Trigger.{trigger_deployer}
use cloudrun.Controllers.Reconcile.{no_requeue, requeue}
use cloudrun.Controllers.Builder.{
  after_watch, by_round, next_round, not_ready, start_round, this_round, watch,
}

module _ (K : Cluster) (F : KeepsStatus K) where
  not_ready-Keeps : Keeps K builder builder_crd (not_ready K)
  unfolding not_ready
  not_ready-Keeps =
      bind-Keeps K builder builder_crd
        (set_status K builder builder_crd (λ s. record s { status = undo })) _
        (set_status-Keeps K builder builder_crd builder_crd-IsPointer
          (λ s. record s { status = undo }) (λ b. refl))
        λ _.
          bind-Keeps K builder builder_crd (update_self_status K builder) _
            (update_self_status-Keeps K builder builder_crd F)
            λ _. pure-Keeps K builder builder_crd no_requeue

  module _ (ctx : Context) where
    watch-Keeps : Keeps K builder builder_crd (watch K ctx)
    unfolding watch
    watch-Keeps =
        create_and_watch_job-Keeps K builder builder_crd builder_crd-IsPointer ctx F (new_job K ctx)
          (new_job-Still K ctx) false (some (trigger_deployer K))
          (Still-Keeps K builder builder_crd (trigger_deployer K) (trigger_deployer-Still K))

    after_watch-Keeps :
        (reply : Reply (Unit {0})) → Keeps K builder builder_crd (after_watch K reply)
    after_watch-Keeps (failed e) =
        let e' : Error = wrap_error "failed to setup builder job" e in
        bind-Keeps K builder builder_crd (publish_status K builder builder_crd (some e')) _
          (publish_status-Keeps K builder builder_crd builder_crd-IsPointer F (some e'))
          λ _. Still-Keeps K builder builder_crd (fail e') (λ t. refl)
    after_watch-Keeps (got _) =
        bind-Keeps K builder builder_crd (publish_status K builder builder_crd none) _
          (publish_status-Keeps K builder builder_crd builder_crd-IsPointer F none)
          λ _.
            bind-Keeps K builder builder_crd (is_done_or_failed K builder builder_crd) _
              (is_done_or_failed-Keeps K builder builder_crd builder_crd-IsPointer)
              λ finished.
                if-Keeps K builder builder_crd finished (pure no_requeue) (pure (requeue 5))
                  (pure-Keeps K builder builder_crd no_requeue)
                  (pure-Keeps K builder builder_crd (requeue 5))

    this_round-Keeps : Keeps K builder builder_crd (this_round K ctx)
    unfolding this_round
    this_round-Keeps =
        bind-Keeps K builder builder_crd (attempt (watch K ctx)) _
          (attempt-Keeps K builder builder_crd (watch K ctx) watch-Keeps) after_watch-Keeps

    -- A call to `next_round` leaves the round as it is, or sets it to the one of the spec.
    next_round-round :
        (s : Run K.World (Obj builder))
        → (round_of K builder builder_crd (next_round K ctx s).1 ≡ round_of K builder builder_crd s)
          ⊎ (round_of K builder builder_crd (next_round K ctx s).1 ≡ s.self.spec.round)
    unfolding next_round Keeps
    next_round-round s =
        bind-leads (λ t. t.self ≡ s.self) IsAt
          (or_wrap "failed to delete job" (current_round >>= λ r. delete_job K ctx r)) _ s
          (bind-Still current_round (λ r. delete_job K ctx r) (current_round-Still K ctx)
            (λ r. delete_job-Still K ctx r) s)
          (λ t e. inl (ap (λ o. (builder_crd.common_status o.status).1.current_round) e))
          λ _ t e.
            bind-leads (λ u. round_of K builder builder_crd u ≡ round_of K builder builder_crd s)
              IsAt
              (or_wrap "failed to backup state" (backup_state K builder builder_crd t.self.spec)) _
              t
              (backup_state-Keeps K builder builder_crd builder_crd-IsPointer t.self.spec t
                ∙ ap (λ o. (builder_crd.common_status o.status).1.current_round) e)
              (λ u h. inl h)
              λ _ u h. inr (
                begin_with-round K builder builder_crd builder_crd-IsPointer F
                  (start_round t.self.spec.round) (requeue 5) t.self.spec.round (λ now b. refl) u
                ∙ ap (λ o. o.spec.round) e)
      where
        IsAt : Run K.World (Obj builder) → Type 0
        IsAt t =
            (round_of K builder builder_crd t ≡ round_of K builder builder_crd s)
            ⊎ (round_of K builder builder_crd t ≡ s.self.spec.round)

    -- Over a server that answers a write of a status with that status: one run of the round's part
    -- of `Reconcile` leaves a builder's current round as it is, or sets it to the round of the spec,
    -- and this only where that one is higher.
    pub by_round-upward :
        (s : Run K.World (Obj builder))
        → let before = round_of K builder builder_crd s in
          let after = round_of K builder builder_crd (by_round K ctx s).1 in
          (after ≡ before) ⊎ ((after ≡ s.self.spec.round) × (ltb_ℤ before s.self.spec.round ≡ true))
    unfolding by_round Keeps
    by_round-upward s =
        let t = (common_status K builder builder_crd s).1 in
        let same : round_of K builder builder_crd t ≡ round_of K builder builder_crd s =
          ap (λ b. b.current_round)
            (base_of-common_status K builder builder_crd builder_crd-IsPointer s) in
        elim (Bool-cases (ltb_ℤ s.self.spec.round (round_of K builder builder_crd s))) [
          | inl behind ↦ inl (rw behind (not_ready-Keeps t ∙ same))
          | inr up ↦
              elim (Bool-cases (ltb_ℤ (round_of K builder builder_crd s) s.self.spec.round)) [
                | inl ahead ↦
                    rw (up, ahead)
                      (elim (next_round-round t) [
                        | inl kept ↦ inl (kept ∙ same)
                        | inr moved ↦ inr (moved, refl)
                      ])
                | inr level ↦ inl (rw (up, level) (this_round-Keeps t ∙ same))
              ]
        ]
