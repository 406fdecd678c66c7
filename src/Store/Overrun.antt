-- ===== src/Store/Overrun.antt =====
-- Two runs of `BegResource` (controllers/deploy/deployer.go) over a store, without the accounts of the
-- pool between them.
use cloudrun.Base.{
  ℕ, ◌+◌, ◌<◌, ◌≤◌, ◌≡◌, refl, sym, ap, subst, ◌∙◌, false, some, [], ◌∷◌, ◌++◌, arith,
}
use cloudrun.Api.Deployer.{Deployer}
use cloudrun.Api.ResourcePool.{ResourcePool}
use cloudrun.Cluster.Outcome.{ok}
use cloudrun.Cluster.Client.{Cluster, IsLawful, resource_pool}
use cloudrun.Controllers.Pool.Account.{amount, total_cpu}
use cloudrun.Deploy.Grant.{beg_resource-granted, granted, holding, pool_key}
use cloudrun.Deploy.Resources.{beg_resource, is_short, new_usage, no_resource, requested}
use cloudrun.Shares.Totals.{total-append}
use cloudrun.Store.{IsStore}

is_short-fits : (f g a b : ℕ) → a ≤ f → b ≤ g → is_short (amount f g) (amount a b) ≡ false
is_short-fits f g a b cpu memory = ground arith

-- What two grants leave of a pool.
used :
    (p : ResourcePool) (d d' : Deployer) (c f a b a' b' : ℕ)
    → requested d.spec.containers no_resource ≡ amount a b
    → requested d'.spec.containers no_resource ≡ amount a' b'
    → f < a + a'
    → f + total_cpu p.status.usage ≡ c
    → c < total_cpu (granted d' (granted d p)).status.usage
unfolding new_usage
used p d d' c f a b a' b' wants wants' over fits =
    let us = p.status.usage in
    let (more, _) = total-append us (new_usage d (amount a b)) in
    let (more', _) =
      total-append (us ++ (new_usage d (amount a b) ∷ [])) (new_usage d' (amount a' b')) in
    rw (wants, wants') (omega (arith, more, more'))

module _ (K : Cluster) (L : IsLawful K) (S : IsStore K) where
  -- A deployer whose request fits what the stored pool says is free is granted its share: the store
  -- has the pool with its entry, and with the same for free.
  beg_resource-stored :
      (d : Deployer) (w : K.World) (p : ResourcePool) (f g a b : ℕ)
      → S.objects w resource_pool (pool_key d.spec.resource_pool) ≡ some p
      → p.status.free ≡ some (amount f g)
      → requested d.spec.containers no_resource ≡ amount a b
      → a ≤ f
      → b ≤ g
      → (v : K.World) × (q : ResourcePool) × (beg_resource K (record { world = w; self = d })
          ≡ (ok tt, record { world = v; self = holding d }))
        × (S.objects v resource_pool (pool_key d.spec.resource_pool) ≡ some q)
        × (q.status ≡ (granted d p).status)
  beg_resource-stored d w p f g a b there has asks cpu memory =
      let key = S.objects-key resource_pool (pool_key d.spec.resource_pool) w p there in
      let looked = S.get-some resource_pool (pool_key d.spec.resource_pool) w p there in
      let (q, v, written, stored, status, _, _) =
        S.update_status-some resource_pool (granted d p) p w
          (ap (λ n. S.objects w resource_pool n) key ∙ there) refl refl in
      let enough : is_short (amount f g) (requested d.spec.containers no_resource) ≡ false =
        rw asks (is_short-fits f g a b cpu memory) in
      (
        v,
        q,
        beg_resource-granted K L (record { world = w; self = d }) p (amount f g) w looked has q v
            enough written,
        ap (λ n. S.objects v resource_pool n) (sym key) ∙ stored,
        status,
      )

  -- Over a store, with retries as documented: of two deployers of one pool, each of which asks for no
  -- more than the pool says is free, but whose requests of CPU together are more than that, both are
  -- granted their shares by BegResource, one after the other; and where what was free and what was used
  -- of CPU add up to a capacity, the entries of the stored pool are then more than that.
  pub beg_resource-overrun :
      (d d' : Deployer) (w : K.World) (p : ResourcePool) (c f g a b a' b' : ℕ)
      → S.objects w resource_pool (pool_key d.spec.resource_pool) ≡ some p
      → d'.spec.resource_pool ≡ d.spec.resource_pool
      → p.status.free ≡ some (amount f g)
      → requested d.spec.containers no_resource ≡ amount a b
      → requested d'.spec.containers no_resource ≡ amount a' b'
      → a ≤ f
      → b ≤ g
      → a' ≤ f
      → b' ≤ g
      → f < a + a'
      → f + total_cpu p.status.usage ≡ c
      → (v u : K.World) × (q : ResourcePool) × (beg_resource K (record { world = w; self = d })
          ≡ (ok tt, record { world = v; self = holding d }))
        × (beg_resource K (record { world = v; self = d' })
            ≡ (ok tt, record { world = u; self = holding d' }))
        × (S.objects u resource_pool (pool_key d.spec.resource_pool) ≡ some q)
        × (c < total_cpu q.status.usage)
  beg_resource-overrun d d' w p c f g a b a' b' there same has asks asks' cpu memory cpu' memory'
        over sums =
      let (v, q, first, there_v, status) =
        beg_resource-stored d w p f g a b there has asks cpu memory in
      let there' : S.objects v resource_pool (pool_key d'.spec.resource_pool) ≡ some q =
        ap (λ n. S.objects v resource_pool (pool_key n)) same ∙ there_v in
      let (u, r, second, there_u, status') =
        beg_resource-stored d' v q f g a' b' there' (ap (λ st. st.free) status ∙ has) asks' cpu'
          memory' in
      (
        v,
        u,
        r,
        first,
        second,
        ap (λ n. S.objects u resource_pool (pool_key n)) (sym same) ∙ there_u,
        subst (λ st. c < total_cpu st.usage) (sym status')
            (subst (λ st. c < total_cpu (granted d' (record q { status = st })).status.usage)
              (sym status) (used p d d' c f a b a' b' asks asks' over sums)),
      )
