-- ===== src/Controllers/Deployer/Rounds.antt =====
-- The round of a deployer (controllers/deployer_controller.go) only goes up, and only to the one
-- that its spec asks for.
use cloudrun.Base.{
  ◌≡◌, refl, ap, ◌∙◌, ◌⊎◌, inl, inr, Bool, true, ◌&&◌, ◌||◌, Bool-cases, ltb_ℤ, some, none,
  if◌then◌else◌, arith,
}
use cloudrun.Types.{is_doing, undo}
use cloudrun.Api.Deployer.{is_service}
use cloudrun.Cluster.Outcome.{
  Reply, got, failed, Error, wrap_error, attempt, fail, gets, or_wrap, pure, ◌>>=◌, ◌>>◌,
}
use cloudrun.Cluster.Client.{Cluster, IsLawful, KeepsStatus, Obj, deployer}
use cloudrun.Cluster.Crd.{Run, common_status, deployer_crd, sample, set_status, update_self_status}
use cloudrun.Cluster.CrdLaws.{base_of-set_status, deployer_crd-IsPointer}
use cloudrun.Cluster.Bind.{bind-leads}
use cloudrun.Cluster.Keeps.{
  Keeps, round_of, Still-Keeps, attempt-Keeps, bind-Keeps, common_status-Keeps, if-Keeps,
  pure-Keeps, set_status-Keeps, update_self_status-Keeps, or_wrap-Keeps,
}
use cloudrun.Core.Context.{Context}
use cloudrun.Core.Keeps.{backup_state-Keeps, is_done_or_failed-Keeps, publish_status-Keeps}
use cloudrun.Core.History as History
use cloudrun.Core.Status.{is_done_or_failed, publish_status}
use cloudrun.Deploy.Handle.{backup_state, cleanup_for_next_round, delete_workload, handle}
use cloudrun.Deploy.Keeps.{set_pool-base, beg_resource-Keeps, handle-Keeps}
use cloudrun.Deploy.Resources.{beg_resource, release_resource}
use cloudrun.Deploy.Still.{delete_workload-Still, release_resource-Still}
use cloudrun.Controllers.Reconcile.{no_requeue, requeue}
use cloudrun.Controllers.Deployer.{
  after_handle, by_round, next_round, not_ready, start_round, this_round,
}

module _ (K : Cluster) where
  -- The round and the spec are what they were.
  abbrev Same : Run K.World (Obj deployer) → Run K.World (Obj deployer) → Type 0
  Same s t =
      (round_of K deployer deployer_crd t ≡ round_of K deployer deployer_crd s)
      × (t.self.spec ≡ s.self.spec)

  still-Same : (s t u : Run K.World (Obj deployer)) → u.self ≡ t.self → Same s t → Same s u
  still-Same s t u e (r, d) = (
    ap (λ o. (deployer_crd.common_status o.status).1.current_round) e ∙ r,
    ap (λ o. o.spec) e ∙ d,
  )

  backup_state-spec :
      (ctx : Context) (s : Run K.World (Obj deployer))
      → (backup_state K ctx s).1.self.spec ≡ s.self.spec
  unfolding backup_state History.backup_state History.common_history
  backup_state-spec ctx s = ground arith

  module _ (L : IsLawful K) (ctx : Context) where
    forget-Same :
        (s t : Run K.World (Obj deployer))
        → Same s t
        → Same s (record t {
          self = record t.self { status = record t.self.status { resource_pool = "" } };
        })
    forget-Same s t (r, d) = (ap (λ b. b.current_round) (set_pool-base "" t.self.status) ∙ r, d)

    cleanup-Same : (s : Run K.World (Obj deployer)) → Same s (cleanup_for_next_round K ctx s).1
    unfolding cleanup_for_next_round
    cleanup-Same s =
        bind-leads (Same s) (Same s) (delete_workload K ctx s.self.spec.type) _ s
          (still-Same s s (delete_workload K ctx s.self.spec.type s).1
            (delete_workload-Still K ctx s.self.spec.type s) (refl, refl))
          (λ t h. h)
          λ _ t h.
            bind-leads (Same s) (Same s) (release_resource K) _ t
              (still-Same s t (release_resource K t).1 (release_resource-Still K L t) h)
              (λ u h'. h') λ _ u h'. forget-Same s u h'

  backup_state-Same :
      (ctx : Context) (s t : Run K.World (Obj deployer))
      → Same s t
      → Same s (backup_state K ctx t).1
  unfolding backup_state Keeps
  backup_state-Same ctx s t (r, d) = (
    backup_state-Keeps K deployer deployer_crd deployer_crd-IsPointer t.self.spec t ∙ r,
    backup_state-spec ctx t ∙ d,
  )

  module _ (F : KeepsStatus K) where
    not_ready-Keeps : Keeps K deployer deployer_crd (not_ready K)
    unfolding not_ready
    not_ready-Keeps =
        bind-Keeps K deployer deployer_crd
          (set_status K deployer deployer_crd (λ s. record s { status = undo })) _
          (set_status-Keeps K deployer deployer_crd deployer_crd-IsPointer
            (λ s. record s { status = undo }) (λ b. refl))
          λ _.
            bind-Keeps K deployer deployer_crd (update_self_status K deployer) _
              (update_self_status-Keeps K deployer deployer_crd F)
              λ _. pure-Keeps K deployer deployer_crd no_requeue

    finish-Keeps :
        (finished : Bool)
        → Keeps K deployer deployer_crd (do
          d ← gets (λ s. s.self)
          status ← common_status K deployer deployer_crd
          if finished || (is_service d.spec.type && is_doing status.status)
              then pure no_requeue
              else pure (requeue 5))
    unfolding Keeps
    finish-Keeps finished s =
        let t = (common_status K deployer deployer_crd s).1 in
        let status = (deployer_crd.common_status s.self.status).1 in
        if-Keeps K deployer deployer_crd
          (finished || (is_service s.self.spec.type && is_doing status.status)) (pure no_requeue)
          (pure (requeue 5)) (pure-Keeps K deployer deployer_crd no_requeue)
          (pure-Keeps K deployer deployer_crd (requeue 5)) t
        ∙ common_status-Keeps K deployer deployer_crd deployer_crd-IsPointer s

    after_handle-Keeps :
        (reply : Reply (Unit {0})) → Keeps K deployer deployer_crd (after_handle K reply)
    after_handle-Keeps (failed e) =
        let e' : Error = wrap_error "failed to handle deployer" e in
        bind-Keeps K deployer deployer_crd (publish_status K deployer deployer_crd (some e')) _
          (publish_status-Keeps K deployer deployer_crd deployer_crd-IsPointer F (some e'))
          λ _. Still-Keeps K deployer deployer_crd (fail e') (λ t. refl)
    after_handle-Keeps (got _) =
        bind-Keeps K deployer deployer_crd (publish_status K deployer deployer_crd none) _
          (publish_status-Keeps K deployer deployer_crd deployer_crd-IsPointer F none)
          λ _.
            bind-Keeps K deployer deployer_crd (is_done_or_failed K deployer deployer_crd) _
              (is_done_or_failed-Keeps K deployer deployer_crd deployer_crd-IsPointer) finish-Keeps

    module _ (L : IsLawful K) (ctx : Context) where
      this_round-Keeps : Keeps K deployer deployer_crd (this_round K ctx)
      unfolding this_round
      this_round-Keeps =
          bind-Keeps K deployer deployer_crd (attempt (handle K ctx)) _
            (attempt-Keeps K deployer deployer_crd (handle K ctx) (handle-Keeps K F ctx))
            after_handle-Keeps

      end_round-Keeps : Keeps K deployer deployer_crd (do
        or_wrap "failed to beg resource" (beg_resource K)
        update_self_status K deployer
        pure (requeue 5))
      end_round-Keeps =
          bind-Keeps K deployer deployer_crd (or_wrap "failed to beg resource" (beg_resource K)) _
            (or_wrap-Keeps K deployer deployer_crd "failed to beg resource" (beg_resource K)
              (beg_resource-Keeps K L))
            λ _.
              bind-Keeps K deployer deployer_crd (update_self_status K deployer) _
                (update_self_status-Keeps K deployer deployer_crd F)
                λ _. pure-Keeps K deployer deployer_crd (requeue 5)

      -- From the state behind the releases: the new round is the spec's.
      begin-round :
          (t : Run K.World (Obj deployer))
          → round_of K deployer deployer_crd
              ((do
                now ← sample K.now
                d ← gets (λ s. s.self)
                set_status K deployer deployer_crd (start_round d.spec.round now)
                or_wrap "failed to beg resource" (beg_resource K)
                update_self_status K deployer
                pure (requeue 5))
                t).1
            ≡ t.self.spec.round
      unfolding Keeps
      begin-round t =
          let (now, w) = K.now t.world in
          let u : Run K.World (Obj deployer) = record t { world = w } in
          end_round-Keeps
            (set_status K deployer deployer_crd (start_round t.self.spec.round now) u).1
          ∙ ap (λ b. b.current_round)
              (base_of-set_status K deployer deployer_crd deployer_crd-IsPointer
                (start_round t.self.spec.round now) u)

      -- A call to `next_round` leaves the round as it is, or sets it to the one of the spec.
      next_round-round :
          (s : Run K.World (Obj deployer))
          → (round_of K deployer deployer_crd (next_round K ctx s).1
              ≡ round_of K deployer deployer_crd s)
            ⊎ (round_of K deployer deployer_crd (next_round K ctx s).1 ≡ s.self.spec.round)
      unfolding next_round Keeps
      next_round-round s =
          bind-leads (Same s) IsAt
            (or_wrap "failed to cleanup for next round" (cleanup_for_next_round K ctx)) _ s
            (cleanup-Same L ctx s) (λ t h. inl h.0)
            λ _ t h.
              bind-leads (Same s) IsAt (or_wrap "failed to backup state" (backup_state K ctx)) _ t
                (backup_state-Same ctx s t h) (λ u h'. inl h'.0)
                λ _ u h'.
                  bind-leads (Same s) IsAt
                    (or_wrap "failed to release resource" (release_resource K)) _ u
                    (still-Same s u (release_resource K u).1 (release_resource-Still K L u) h')
                    (λ v h''. inl h''.0) λ _ v h''. inr (begin-round v ∙ ap (λ d. d.round) h''.1)
        where
          IsAt : Run K.World (Obj deployer) → Type 0
          IsAt t =
              (round_of K deployer deployer_crd t ≡ round_of K deployer deployer_crd s)
              ⊎ (round_of K deployer deployer_crd t ≡ s.self.spec.round)

      -- Over a server that answers a write of a status with that status, and with retries as
      -- documented: one run of the round's part of a deployer's `Reconcile` leaves the current round
      -- as it is, or sets it to the round of the spec, and this only where that one is higher.
      pub by_round-climbs :
          (s : Run K.World (Obj deployer))
          → let before = round_of K deployer deployer_crd s in
            let after = round_of K deployer deployer_crd (by_round K ctx s).1 in
            (after ≡ before)
            ⊎ ((after ≡ s.self.spec.round) × (ltb_ℤ before s.self.spec.round ≡ true))
      unfolding by_round Keeps
      by_round-climbs s =
          let t = (common_status K deployer deployer_crd s).1 in
          let same : round_of K deployer deployer_crd t ≡ round_of K deployer deployer_crd s =
            common_status-Keeps K deployer deployer_crd deployer_crd-IsPointer s in
          elim (Bool-cases (ltb_ℤ s.self.spec.round (round_of K deployer deployer_crd s))) [
            | inl behind ↦ inl (rw behind (not_ready-Keeps t ∙ same))
            | inr up ↦
                elim (Bool-cases (ltb_ℤ (round_of K deployer deployer_crd s) s.self.spec.round)) [
                  | inl ahead ↦
                      rw (up, ahead)
                        (elim (next_round-round t) [
                          | inl kept ↦ inl (kept ∙ same)
                          | inr moved ↦ inr (moved, refl)
                        ])
                  | inr level ↦ inl (rw (up, level) (this_round-Keeps t ∙ same))
                ]
          ]
