-- ===== src/Store/Cleanup.antt =====
-- What a round leaves is deleted (controllers/core/job.go, `DeleteJob`; controllers/deploy,
-- `CleanupForNextRound`) over a store.
use cloudrun.Base.{ℤ, ◌≡◌, ◌⊎◌, refl, ap, subst, ◌∙◌, inl, inr, Option, none, some}
use cloudrun.Types.{CommonStatus, NamespacedName}
use cloudrun.Api.Deployer.{DeployType, Deployer}
use cloudrun.Api.Deployer as D
use cloudrun.Cluster.Outcome.{ok}
use cloudrun.Cluster.Client.{Cluster, Kind, Obj, deployment, job}
use cloudrun.Cluster.Crd.{Run}
use cloudrun.Core.Context.{Context, get_sub_resource, namespace, sub_name}
use cloudrun.Core.Job.{delete_job, get_job}
use cloudrun.Deploy.Handle.{delete_workload}
use cloudrun.Deploy.Names.{current_round}
use cloudrun.Deploy.Service.{delete_deployment}
use cloudrun.Store.{IsStore, KeepsOthers}

-- The name of what a round has made.
abbrev pub round_key : Context → ℤ → NamespacedName
round_key ctx round = record { name = sub_name ctx round; namespace = namespace ctx }

module _ (K : Cluster) (S : IsStore K) (ctx : Context) where
  -- One kind of object of a round is gone, and no other object has changed.
  abbrev pub Gone : Kind → ℤ → K.World → K.World → Type 0
  Gone k round w v =
      (S.objects v k (round_key ctx round) ≡ none)
      × KeepsOthers (S.objects w) (S.objects v) k (round_key ctx round)

module _ (K : Cluster) (S : IsStore K) (ctx : Context) {M : Type 0} where
  -- An object is not there, or it is found and can be deleted.
  abbrev Clears : (k : Kind) → ℤ → Run K.World M → K.World → Type 0
  Clears k round s v =
      ((get_sub_resource K ctx k round s ≡ (ok none, s)) × (v ≡ s.world))
      ⊎ ((p : Obj k) × (get_sub_resource K ctx k round s ≡ (ok (some p), s))
          × (K.delete k p s.world ≡ (ok tt, v)))

  clears :
      (k : Kind) (round : ℤ) (s : Run K.World M)
      → (v : K.World) × Clears k round s v × Gone K S ctx k round s.world v
  unfolding get_sub_resource
  clears k round s = by_lookup (S.objects s.world k (round_key ctx round)) refl
    where
      by_lookup :
          (q : Option (Obj k))
          → S.objects s.world k (round_key ctx round) ≡ q
          → (v : K.World) × Clears k round s v × Gone K S ctx k round s.world v
      by_lookup none e =
          let (c, missing, looked) = S.get-none k (round_key ctx round) s.world e in
          (s.world, inl (rw (looked, missing) refl, refl), (e, λ j m. inl refl))
      by_lookup (some p) e =
          let looked = S.get-some k (round_key ctx round) s.world p e in
          let key = S.objects-key k (round_key ctx round) s.world p e in
          let (v, deleted, gone, others) =
            S.delete-some k p p s.world (ap (λ n. S.objects s.world k n) key ∙ e) in
          (
            v,
            inr (p, rw looked refl, deleted),
            (
              subst (λ n. S.objects v k n ≡ none) key gone,
              subst (λ n. KeepsOthers (S.objects s.world) (S.objects v) k n) key others,
            ),
          )

  -- Behind the call there is no job of the round.
  pub delete_job-none :
      (round : ℤ) (s : Run K.World M)
      → (v : K.World) × (delete_job K ctx round s ≡ (ok tt, record s { world = v }))
        × Gone K S ctx job round s.world v
  unfolding delete_job get_job
  delete_job-none round s =
      let (v, found, gone) = clears job round s in
      (
        v,
        elim found [
          | inl (looked, same) ↦ rw (looked, same) refl
          | inr (p, looked, deleted) ↦ rw (looked, deleted) refl
        ],
        gone,
      )

-- The constants of `DeployType`.
abbrev pub IsKnown : DeployType → Type 0
IsKnown (D.other t) = ⊥
IsKnown _ = Unit

-- What is deleted of a round: of a service it is a Deployment.
abbrev pub workload_kind : DeployType → Kind
workload_kind D.job = job
workload_kind _ = deployment

-- The deployer with a status.
abbrev pub with_base : Deployer → CommonStatus → Deployer
with_base o base = record o { status = record o.status { base = some base } }

module _ (K : Cluster) (S : IsStore K) (ctx : Context) (o : Deployer) (base : CommonStatus) where
  -- Behind the call there is no job, or no Deployment, of the status's round.
  pub delete_workload-none :
      (w : K.World) (t : DeployType)
      → IsKnown t
      → (v : K.World) × (delete_workload K ctx t (record { world = w; self = with_base o base })
          ≡ (ok tt, record { world = v; self = with_base o base }))
        × Gone K S ctx (workload_kind t) base.current_round w v
  unfolding delete_workload delete_deployment current_round
  delete_workload-none w D.job known =
      let (v, deleted, gone) =
        delete_job-none K S ctx base.current_round
          (record { world = w; self = with_base o base }) in
      (v, rw deleted refl, gone)
  delete_workload-none w D.service known =
      let s : Run K.World Deployer = record { world = w; self = with_base o base } in
      let (v, found, gone) = clears K S ctx deployment base.current_round s in
      (
        v,
        elim found [
          | inl (looked, same) ↦ rw (looked, same) refl
          | inr (p, looked, deleted) ↦ rw (looked, deleted) refl
        ],
        gone,
      )
  delete_workload-none w (D.other t) known = absurd known
