-- ===== src/Store/Share.antt =====
-- `ReleaseResource` and `BegResource` (controllers/deploy/deployer.go) over a store.
use cloudrun.Base.{
  ℕ, ◌-◌, ◌≡◌, ◌⊎◌, refl, sym, ap, subst, ◌∙◌, inl, inr, eq_iff, String, is_empty, false,
  Bool-cases, some, List, [], ◌∷◌, ◌++◌, if◌then◌else◌,
}
use cloudrun.Types.{NamespacedName, Resource}
use cloudrun.Api.Deployer.{Deployer}
use cloudrun.Api.ResourcePool.{ResourcePool, ResourcePoolStatus, ResourceUsage}
use cloudrun.Cluster.Outcome.{ok}
use cloudrun.Cluster.Client.{Cluster, IsLawful, resource_pool}
use cloudrun.Cluster.Crd.{Run}
use cloudrun.Deploy.Grant.{beg_resource-granted, granted, holding, pool_key, release_resource_idle}
use cloudrun.Deploy.Release.{release_resource-frees}
use cloudrun.Deploy.Resources.{
  beg_resource, is_short, new_usage, no_resource, release_resource, requested, set_usage,
}
use cloudrun.Deploy.Usage.{IsNamed, others, own_count}
use cloudrun.Store.{IsStore, KeepsOthers}

-- How many of its entries a deployer that holds a pool of that name has behind a release.
abbrev pub freed : String → ℕ → ℕ
freed held n = if is_empty held then n else n - 1

module _ (K : Cluster) (S : IsStore K) where
  -- The store has a pool with a list of entries, and all else of it as it was.
  abbrev pub PoolAt : K.World → NamespacedName → ResourcePool → List ResourceUsage → Type 0
  PoolAt v n p us =
      (q : ResourcePool) × (S.objects v resource_pool n ≡ some q)
      × (q.status ≡ record p.status { usage = us })
      × (q.spec ≡ p.spec)

  -- A release has taken one of the deployer's own entries out of the pool, if it held it.
  pub record Freed (d : Deployer) (p : ResourcePool) (w v : K.World) : Type 0 where
    pub left : List ResourceUsage
    pub pool : PoolAt v (pool_key d.spec.resource_pool) p left
    pub same : others d left ≡ others d p.status.usage
    pub count : own_count d left ≡ freed d.status.resource_pool (own_count d p.status.usage)
    pub keeps :
        KeepsOthers (S.objects w) (S.objects v) resource_pool (pool_key d.spec.resource_pool)

  module _ (L : IsLawful K) (s : Run K.World Deployer) (p : ResourcePool)
      (named : IsNamed p.status.usage)
      (there : S.objects s.world resource_pool (pool_key s.self.spec.resource_pool) ≡ some p) where
    open s use {self, world}

    release-idle :
        self.status.resource_pool ≡ ""
        → (v : K.World) × (release_resource K s ≡ (ok tt, record s { world = v }))
          × Freed self p world v
    release-idle idle = (
      world,
      release_resource_idle K L s idle,
      record {
        left = p.status.usage;
        pool = (p, there, refl, refl);
        same = refl;
        count = rw idle refl;
        keeps = λ j m. inl refl;
      },
    )

    release-held :
        is_empty self.status.resource_pool ≡ false
        → self.status.resource_pool ≡ self.spec.resource_pool
        → (v : K.World) × (release_resource K s ≡ (ok tt, record s { world = v }))
          × Freed self p world v
    release-held holds same =
        let n = pool_key self.spec.resource_pool in
        let key = S.objects-key resource_pool n world p there in
        let accept = λ (us : List ResourceUsage).
          S.update_status-some resource_pool (set_usage us p) p world
            (ap (λ m. S.objects world resource_pool m) key ∙ there) refl refl in
        let looked =
          ap (λ m. K.get resource_pool (pool_key m) world) same
          ∙ S.get-some resource_pool n world p there in
        let (vs, leaves, same_others, fewer) =
          release_resource-frees K L s p world holds looked (λ us. (accept us).0)
            (λ us. (accept us).1) (λ us. (accept us).2) named in
        let count : own_count self vs
            ≡ freed self.status.resource_pool (own_count self p.status.usage) =
          fewer ∙ rw holds refl in
        elim leaves [
          | inl (kept, done) ↦ (
            world,
            done,
            record {
              left = vs;
              pool = (p, there, ap (λ us. record p.status { usage = us }) (sym kept), refl);
              same = same_others;
              count = count;
              keeps = λ j m. inl refl;
            },
          )
          | inr done ↦ (
            (accept vs).1,
            done,
            record {
              left = vs;
              pool = (
                (accept vs).0,
                ap (λ m. S.objects (accept vs).1 resource_pool m) (sym key) ∙ (accept vs).3,
                (accept vs).4,
                (accept vs).5,
              );
              same = same_others;
              count = count;
              keeps =
                  subst
                    (λ m. KeepsOthers (S.objects world) (S.objects (accept vs).1) resource_pool m)
                    key (accept vs).6;
            },
          )
        ]

    -- With the pool of its spec or none.
    pub release_resource-Freed :
        (self.status.resource_pool ≡ "") ⊎ (self.status.resource_pool ≡ self.spec.resource_pool)
        → (v : K.World) × (release_resource K s ≡ (ok tt, record s { world = v }))
          × Freed self p world v
    release_resource-Freed (inl idle) = release-idle idle
    release_resource-Freed (inr same) = elim (Bool-cases (is_empty self.status.resource_pool)) [
      | inl idle ↦ release-idle ((eq_iff self.status.resource_pool "").0 idle)
      | inr holds ↦ release-held holds same
    ]

  -- The entry that a deployer asks for.
  abbrev pub asked : Deployer → ResourceUsage
  asked d = new_usage d (requested d.spec.containers no_resource)

  pub beg_resource-PoolAt :
      (L : IsLawful K) (s : Run K.World Deployer) (p : ResourcePool) (us : List ResourceUsage)
      (free : Resource)
      → PoolAt s.world (pool_key s.self.spec.resource_pool) p us
      → p.status.free ≡ some free
      → is_short free (requested s.self.spec.containers no_resource) ≡ false
      → (v : K.World) × (beg_resource K s ≡ (ok tt, record { world = v; self = holding s.self }))
        × PoolAt v (pool_key s.self.spec.resource_pool) p (us ++ (asked s.self ∷ []))
        × KeepsOthers
            (S.objects s.world)
            (S.objects v)
            resource_pool
            (pool_key s.self.spec.resource_pool)
  beg_resource-PoolAt L s p us free (q, there, status, spec) has enough =
      let n = pool_key s.self.spec.resource_pool in
      let key = S.objects-key resource_pool n s.world q there in
      let looked = S.get-some resource_pool n s.world q there in
      let (q', v, written, stored, status', spec', others') =
        S.update_status-some resource_pool (granted s.self q) q s.world
          (ap (λ m. S.objects s.world resource_pool m) key ∙ there) refl refl in
      (
        v,
        beg_resource-granted K L s q free s.world looked (ap (λ st. st.free) status ∙ has) q' v
            enough written,
        (
          q',
          ap (λ m. S.objects v resource_pool m) (sym key) ∙ stored,
          status'
              ∙ ap {A = ResourcePoolStatus}
                  (λ st. record st { usage = st.usage ++ (asked s.self ∷ []) }) status,
          spec' ∙ spec,
        ),
        subst (λ m. KeepsOthers (S.objects s.world) (S.objects v) resource_pool m) key others',
      )
