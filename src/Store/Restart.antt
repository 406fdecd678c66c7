-- ===== src/Store/Restart.antt =====
-- The next round of a deployer (controllers/deployer_controller.go) over a store.
use cloudrun.Base.{
  ℤ, ltb_ℤ, ◌≡◌, ◌≢◌, ◌⊎◌, refl, sym, ap, subst, ◌∙◌, Bool-cases, inl, inr, String, is_empty, true,
  false, some, none, List, [], ◌∷◌, ◌++◌, arith,
}
use cloudrun.Types.{CommonStatus, NamespacedName, Resource}
use cloudrun.Api.Deployer.{Deployer, common_status}
use cloudrun.Store.Others.{KeepsOthers-trans, others_at}
use cloudrun.Api.ResourcePool.{ResourcePool, ResourceUsage}
use cloudrun.Cluster.Outcome.{ok}
use cloudrun.Cluster.Client.{Cluster, IsLawful, Kind, deployer, resource_pool, stateful_set}
use cloudrun.Cluster.Crd.{Run}
use cloudrun.Core.Archive.{history_of}
use cloudrun.Core.Context.{Context, object_key}
use cloudrun.Core.History as History
use cloudrun.Core.History.{common_history, is_zero}
use cloudrun.Controllers.Deployer.{by_round, next_round, start_round}
use cloudrun.Controllers.Reconcile.{requeue}
use cloudrun.Deploy.Grant.{holding, pool_key, release_resource_idle}
use cloudrun.Deploy.Handle.{backup_state, cleanup_for_next_round, delete_workload}
use cloudrun.Deploy.Resources.{beg_resource, is_short, no_resource, release_resource, requested}
use cloudrun.Deploy.Usage.{IsNamed, others, own_count}
use cloudrun.Store.{IsStore, KeepsOthers}
use cloudrun.Store.Cleanup.{IsKnown, delete_workload-none, round_key, with_base, workload_kind}
use cloudrun.Store.Round.{archived}
use cloudrun.Store.Share.{PoolAt, asked, beg_resource-PoolAt, freed, release_resource-Freed}
use cloudrun.Store.Touched.{
  asked-status, deployer-ne-pool, deployer-ne-workload, set-ne-workload, pool-ne-workload, touched,
}

deployer-ne-set : deployer ≢ stateful_set
deployer-ne-set h = cc

pool-ne-set : stateful_set ≢ resource_pool
pool-ne-set h = cc

module _ (K : Cluster) (L : IsLawful K) (ctx : Context) (o : Deployer) (base : CommonStatus)
    (text : String) (marshalled : K.marshal deployer (history_of o.spec base) ≡ ok text)
    (full : is_empty text ≡ false) where
  -- The deployer with a status, that holds no pool.
  abbrev pub bare : CommonStatus → Deployer
  bare b = record o { status = record { base = some b; resource_pool = "" } }

  abbrev at : K.World → Deployer → Run K.World Deployer
  at v d = record { world = v; self = d }

  backup_state-archived :
      (v : K.World)
      → backup_state K ctx (at v (bare base)) ≡ (ok tt, at v (bare (archived base text)))
  unfolding backup_state History.backup_state common_history common_status
  backup_state-archived v = elim (Bool-cases (is_zero base.current_round)) [
    | inl first ↦ rw first refl
    | inr later ↦ rw (later, marshalled, full) refl
  ]

  cleanup-steps :
      (w v u : K.World)
      → delete_workload K ctx o.spec.type (at w (with_base o base))
        ≡ (ok tt, at v (with_base o base))
      → release_resource K (at v (with_base o base)) ≡ (ok tt, at u (with_base o base))
      → cleanup_for_next_round K ctx (at w (with_base o base)) ≡ (ok tt, at u (bare base))
  unfolding cleanup_for_next_round
  cleanup-steps w v u deleted released = rw (deleted, released) refl

  -- The deployer at the start of its spec's round, with its share.
  abbrev pub begun : ℤ → Deployer
  begun clock = holding (bare (start_round o.spec.round clock (archived base text)))

  next_round-steps :
      (w u x y : K.World) (q : Deployer)
      → cleanup_for_next_round K ctx (at w (with_base o base)) ≡ (ok tt, at u (bare base))
      → beg_resource K
          (at (K.now u).1 (bare (start_round o.spec.round (K.now u).0 (archived base text))))
        ≡ (ok tt, at x (begun (K.now u).0))
      → K.update_status deployer (begun (K.now u).0) x ≡ (ok q, y)
      → next_round K ctx (at w (with_base o base)) ≡ (ok (requeue 5), at y q)
  unfolding next_round common_status
  next_round-steps w u x y q cleaned begged written =
      rw
        (
          cleaned,
          backup_state-archived u,
          release_resource_idle K L (at u (bare (archived base text))) refl,
          begged,
          written,
        )
        refl

  module _ (S : IsStore K) (w : K.World) (p : ResourcePool) (free : Resource)
      (known : IsKnown o.spec.type)
      (there : S.objects w deployer (object_key o) ≡ some (with_base o base))
      (pool_there : S.objects w resource_pool (pool_key o.spec.resource_pool) ≡ some p)
      (named : IsNamed p.status.usage)
      (stays : (o.status.resource_pool ≡ "") ⊎ (o.status.resource_pool ≡ o.spec.resource_pool))
      (has : p.status.free ≡ some free)
      (enough : is_short free (requested o.spec.containers no_resource) ≡ false) where
    -- What a deployer is, and what the store has, when its next round has begun.
    pub record Restarted (t : Run K.World Deployer) : Type 0 where
      pub clock : ℤ
      pub stored : S.objects t.world deployer (object_key o) ≡ some t.self
      pub status : t.self.status ≡ (begun clock).status
      pub spec : t.self.spec ≡ o.spec
      pub no_workload :
          S.objects t.world (workload_kind o.spec.type) (round_key ctx base.current_round) ≡ none
      -- No StatefulSet is deleted, also not that of a service's old round.
      pub sets_kept :
          (m : NamespacedName) → S.objects t.world stateful_set m ≡ S.objects w stateful_set m
      -- The entries of the pool but for the new one.
      pub left : List ResourceUsage
      pub pool : PoolAt K S t.world (pool_key o.spec.resource_pool) p (left ++ (asked K S o ∷ []))
      pub same : others (with_base o base) left ≡ others (with_base o base) p.status.usage
      pub count :
          own_count (with_base o base) left
          ≡ freed o.status.resource_pool (own_count (with_base o base) p.status.usage)
      pub others_kept :
          (j : Kind) (m : NamespacedName)
          → (S.objects t.world j m ≡ S.objects w j m)
            ⊎ ((j ≡ workload_kind o.spec.type) × (m ≡ round_key ctx base.current_round))
            ⊎ ((j ≡ resource_pool) × (m ≡ pool_key o.spec.resource_pool))
            ⊎ ((j ≡ deployer) × (m ≡ object_key o))

    next_round-Restarted :
        (t : Run K.World Deployer) × (next_round K ctx (at w (with_base o base))
          ≡ (ok (requeue 5), t))
        × Restarted t
    next_round-Restarted =
        let k = workload_kind o.spec.type in
        let rkey = round_key ctx base.current_round in
        let pkey = pool_key o.spec.resource_pool in
        let (v, deleted, (gone, first)) = delete_workload-none K S ctx o base w o.spec.type known in
        let pool_v : S.objects v resource_pool pkey ≡ some p =
          others_at (S.objects w) (S.objects v) k rkey resource_pool pkey first
            (inl (pool-ne-workload o.spec.type))
          ∙ pool_there in
        let (u, released, f) =
          release_resource-Freed K S L (at v (with_base o base)) p named pool_v stays in
        let clock = (K.now u).0 in
        let started = bare (start_round o.spec.round clock (archived base text)) in
        let (held, held_there, held_status, held_spec) = f.pool in
        let pool_now : PoolAt K S (K.now u).1 pkey p f.left = (
          held,
          ap (λ g. g resource_pool pkey) (S.objects-now u) ∙ held_there,
          held_status,
          held_spec,
        ) in
        let (x, begged, (r, r_there, r_status, r_spec), second) =
          beg_resource-PoolAt K S L (at (K.now u).1 started) p f.left free pool_now has enough in
        let pools : KeepsOthers (S.objects v) (S.objects x) resource_pool pkey =
          KeepsOthers-trans (S.objects v) (S.objects u) (S.objects x) resource_pool pkey f.keeps (
            subst (λ g. KeepsOthers g (S.objects x) resource_pool pkey) (S.objects-now u) second) in
        let there_x : S.objects x deployer (object_key o) ≡ some (with_base o base) =
          others_at (S.objects v) (S.objects x) resource_pool pkey deployer (object_key o) pools
            (inl deployer-ne-pool)
          ∙ others_at (S.objects w) (S.objects v) k rkey deployer (object_key o) first
              (inl (deployer-ne-workload o.spec.type))
          ∙ there in
        let (q, y, written, stored, status, spec, third) =
          S.update_status-some deployer (begun clock) (with_base o base) x there_x refl refl in
        (
          at y q,
          next_round-steps w u x y q (cleanup-steps w v u deleted released) begged written,
          record {
            clock = clock;
            stored = stored;
            status = status;
            spec = spec;
            no_workload =
                others_at (S.objects x) (S.objects y) deployer (object_key o) k rkey third
                  (inl (λ e. deployer-ne-workload o.spec.type (sym e)))
                ∙ others_at (S.objects v) (S.objects x) resource_pool pkey k rkey pools
                    (inl (λ e. pool-ne-workload o.spec.type (sym e)))
                ∙ gone;
            sets_kept = λ m.
                others_at (S.objects x) (S.objects y) deployer (object_key o) stateful_set m third
                  (inl (λ e. deployer-ne-set (sym e)))
                ∙ others_at (S.objects v) (S.objects x) resource_pool pkey stateful_set m pools
                    (inl pool-ne-set)
                ∙ others_at (S.objects w) (S.objects v) k rkey stateful_set m first
                    (inl (set-ne-workload o.spec.type));
            left = f.left;
            pool = (
              r,
              others_at (S.objects x) (S.objects y) deployer (object_key o) resource_pool pkey third
                    (inl (λ e. deployer-ne-pool (sym e)))
                  ∙ r_there,
              r_status
                  ∙ ap {A = ResourceUsage} (λ e. record p.status { usage = f.left ++ (e ∷ []) })
                      (asked-status K S o started.status),
              r_spec,
            );
            same = f.same;
            count = f.count;
            others_kept =
                touched (S.objects w) (S.objects v) (S.objects x) (S.objects y) k rkey pkey
                  (object_key o) first pools third;
          },
        )

    pub by_round-Restarted :
        ltb_ℤ base.current_round o.spec.round ≡ true
        → (t : Run K.World Deployer) × (by_round K ctx (at w (with_base o base))
            ≡ (ok (requeue 5), t))
          × Restarted t
    unfolding by_round common_status
    by_round-Restarted ahead =
        let (t, done, restarted) = next_round-Restarted in (t, ground arith, restarted)
