-- ===== src/Deploy/Grant.antt =====
-- `BegResource` and `ReleaseResource` of controllers/deploy/deployer.go as wholes, over any cluster
-- whose `RetryOnConflict` behaves as documented.
use cloudrun.Base.{eq_iff, ℕ, ◌≡◌, refl, String, is_empty, false, none, some, [], ◌∷◌, ◌++◌, arith}
use cloudrun.Types.{NamespacedName, Resource, failed}
use cloudrun.Api.Deployer.{Deployer, common_status}
use cloudrun.Api.ResourcePool.{ResourcePool}
use cloudrun.Cluster.Outcome.{ok, Error, new_error}
use cloudrun.Cluster.Client.{Cluster, IsLawful, resource_pool}
use cloudrun.Cluster.Crd.{Run}
use cloudrun.Cluster.Retry.{retry-settled}
use cloudrun.Deploy.Resources.{
  beg_once, beg_resource, get_current_resource_pool, get_pool, grant, release_from, find_usage,
  is_short, new_usage, no_resource, release_once, release_resource, remove_at, requested, set_usage,
}

abbrev pub pool_key : String → NamespacedName
pool_key name = record { name = name; namespace = "" }

-- The deployer after it was refused.
abbrev pub refused : Deployer → Deployer
refused d = record d {
  status = record d.status { base = some (record (common_status d.status).1 { status = failed }) };
}

abbrev pub refusal : Error
refusal = new_error "resource pool is not enough"

-- The pool with the deployer's entry behind the others.
abbrev pub granted : Deployer → ResourcePool → ResourcePool
granted d p =
    set_usage (p.status.usage ++ (new_usage d (requested d.spec.containers no_resource) ∷ [])) p

-- The deployer that holds its share.
abbrev pub holding : Deployer → Deployer
holding d = record d { status = record d.status { resource_pool = d.spec.resource_pool } }

module _ (K : Cluster) (L : IsLawful K) (s : Run K.World Deployer) where
  module _ (p : ResourcePool) (free : Resource) (w : K.World)
      (found : K.get resource_pool (pool_key s.self.spec.resource_pool) s.world ≡ (ok p, w))
      (has : p.status.free ≡ some free) where
    module _ (p' : ResourcePool) (w' : K.World)
        (enough : is_short free (requested s.self.spec.containers no_resource) ≡ false)
        (written : K.update_status resource_pool (granted s.self p) w ≡ (ok p', w')) where
      beg_once-granted : beg_once K s ≡ (ok tt, record s { world = w' })
      unfolding beg_once get_pool grant
      beg_once-granted = ground arith

      -- With retries as documented, and a pool on the server that says what is free, whose write is
      -- accepted: a deployer that asks for no more than is free writes the pool's status once, with
      -- its own entry of the containers' sums behind all others and what is free as it was, and
      -- then holds the pool that its spec names.
      pub beg_resource-granted :
          beg_resource K s ≡ (ok tt, record { world = w'; self = holding s.self })
      unfolding beg_resource
      beg_resource-granted = ground (
        arith,
        retry-settled K L (Run K.World Deployer) (beg_once K) s (ok tt) (record s { world = w' })
            beg_once-granted refl,
      )

module _ (K : Cluster) (L : IsLawful K) (s : Run K.World Deployer) where
  -- With retries as documented, a deployer that holds no pool releases nothing: no call is made and
  -- nothing changes.
  pub release_resource_idle : s.self.status.resource_pool ≡ "" → release_resource K s ≡ (ok tt, s)
  unfolding release_resource release_once get_current_resource_pool get_pool release_from
  release_resource_idle idle =
      retry-settled K L (Run K.World Deployer) (release_once K) s (ok tt) s
        (ground (arith, eq_iff s.self.status.resource_pool "")) refl

  module _ (p : ResourcePool) (w : K.World) (holds : is_empty s.self.status.resource_pool ≡ false)
      (found : K.get resource_pool (pool_key s.self.status.resource_pool) s.world ≡ (ok p, w)) where
    pub release_at_index :
        (i : ℕ) (q : ResourcePool) (v : K.World)
        → find_usage s.self 0 p.status.usage ≡ ok (some i)
        → K.update_status resource_pool (set_usage (remove_at i p.status.usage) p) w ≡ (ok q, v)
        → release_resource K s ≡ (ok tt, record s { world = v })
    unfolding release_resource release_once get_current_resource_pool get_pool release_from
    release_at_index i q v at written =
        retry-settled K L (Run K.World Deployer) (release_once K) s (ok tt) (record s { world = v })
          (ground arith) refl

    pub release_of_none :
        find_usage s.self 0 p.status.usage ≡ ok none
        → release_resource K s ≡ (ok tt, record s { world = w })
    unfolding release_resource release_once get_current_resource_pool get_pool release_from
    release_of_none nothing =
        retry-settled K L (Run K.World Deployer) (release_once K) s (ok tt) (record s { world = w })
          (ground arith) refl
