-- ===== src/Store/Reconcile/Deployer.antt =====
-- `Reconcile` of a deployer (controllers/deployer_controller.go) as a whole, over a store.
use cloudrun.Base.{◌≡◌, ◌⊎◌, true, false, is_empty, is_some, ltb_ℤ, String, some}
use cloudrun.Types.{CommonStatus, Resource}
use cloudrun.Api.Deployer.{Deployer}
use cloudrun.Cluster.Outcome.{ok}
use cloudrun.Cluster.Client.{Cluster, IsLawful, deployer, resource_pool}
use cloudrun.Cluster.Crd.{Run}
use cloudrun.Finalize
use cloudrun.Deploy.Names as Deploy
use cloudrun.Controllers.Reconcile.{requeue}
use cloudrun.Controllers.Deployer as DeployerController
use cloudrun.Api.ResourcePool.{ResourcePool}
use cloudrun.Core.Archive.{history_of}
use cloudrun.Core.Context.{object_key}
use cloudrun.Deploy.Grant.{pool_key}
use cloudrun.Deploy.Resources.{is_short, no_resource, requested}
use cloudrun.Deploy.Usage.{IsNamed}
use cloudrun.Store.{IsStore}
use cloudrun.Store.Cleanup as Cleanup
use cloudrun.Store.Cleanup.{IsKnown}
use cloudrun.Api.Deployer as D
use cloudrun.Core.Context as Core
use cloudrun.Store.Restart.{Restarted, by_round-Restarted}
use cloudrun.Store.Reconcile.{deployer-by_round}

module _ (K : Cluster) (L : IsLawful K) (S : IsStore K) (w : K.World) where
  -- A deployer over a store that has it, with retries as documented, where it has the finalizer and
  -- is not to be deleted, its type is a constant of the source, its round is older than its spec's, the
  -- marshalling of the old round's history gives a text that is not empty, it holds no pool or that
  -- of its spec, and that pool is there with names on all entries and enough that is free. Its
  -- Reconcile succeeds and asks for another; of a job, the Job of the old round is gone; of a
  -- service, a Deployment by that name is gone, if there was one, and every StatefulSet is as it was, that
  -- of the old round too; the pool has its own entry, made from the spec, at the end, behind the
  -- entries of all others in their order and its own ones, of which there is one fewer, if it held the
  -- pool and had any; what the pool has for free is as it was; the stored deployer has the spec as
  -- it was, its share, and the status of the spec's round, pending, with that text behind its history,
  -- or none if the old round was 0; no other object is touched.
  pub reconcile-Restarted :
      (o : Deployer) (base : CommonStatus) (text : String)
      (marshalled : K.marshal deployer (history_of o.spec base) ≡ ok text)
      (full : is_empty text ≡ false) (p : ResourcePool) (free : Resource)
      (known : IsKnown o.spec.type)
      (there : S.objects w deployer (object_key o) ≡ some (Cleanup.with_base o base))
      (pool_there : S.objects w resource_pool (pool_key o.spec.resource_pool) ≡ some p)
      (named : IsNamed p.status.usage)
      (stays : (o.status.resource_pool ≡ "") ⊎ (o.status.resource_pool ≡ o.spec.resource_pool))
      (has : p.status.free ≡ some free)
      (enough : is_short free (requested o.spec.containers no_resource) ≡ false)
      → is_some o.meta.deletion_timestamp ≡ false
      → Finalize.contains K o ≡ true
      → ltb_ℤ base.current_round o.spec.round ≡ true
      → (t : Run K.World Deployer) × (DeployerController.reconcile K (object_key o) w
          ≡ (ok (requeue 5), t.world))
        × Restarted K L
            (Deploy.new_context o)
            o
            base
            text
            marshalled
            full
            S
            w
            p
            free
            known
            there
            pool_there
            named
            stays
            has
            enough
            t
  unfolding Deploy.new_context
  reconcile-Restarted o base text marshalled full p free known there pool_there named stays has
        enough lives held ahead =
      let (t, done, restarted) =
        by_round-Restarted K L (Deploy.new_context o) o base text marshalled full S w p free known
          there pool_there named stays has enough ahead in
      (
        t,
        deployer-by_round K S (object_key o) w (requeue 5) (Cleanup.with_base o base) t there lives
            held done,
        restarted,
      )
