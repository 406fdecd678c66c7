-- ===== src/Deploy/Release.antt =====
-- `ReleaseResource` of controllers/deploy/deployer.go as a whole, by its effect on the pool's list.
use cloudrun.Base.{
  ℕ, ◌-◌, ◌≡◌, refl, ap, ◌∙◌, ◌⊎◌, inl, inr, is_empty, false, Option, none, some, List, arith,
}
use cloudrun.Api.Deployer.{Deployer}
use cloudrun.Api.ResourcePool.{ResourcePool, ResourceUsage}
use cloudrun.Cluster.Outcome.{Outcome, ok, err, panic}
use cloudrun.Cluster.Client.{Cluster, IsLawful, resource_pool}
use cloudrun.Cluster.Crd.{Run}
use cloudrun.Deploy.Grant.{pool_key, release_at_index, release_of_none}
use cloudrun.Deploy.Resources.{find_usage, release_resource, remove_at, set_usage}
use cloudrun.Deploy.Usage.{IsNamed, apply_found, find_usage-remove_at, others, own_count}

module _ (K : Cluster) (L : IsLawful K) (s : Run K.World Deployer) (p : ResourcePool) (w : K.World)
    (holds : is_empty s.self.status.resource_pool ≡ false)
    (found : K.get resource_pool (pool_key s.self.status.resource_pool) s.world ≡ (ok p, w))
    (answer : List ResourceUsage → ResourcePool) (after : List ResourceUsage → K.World)
    (accepts : (us : List ResourceUsage)
      → K.update_status resource_pool (set_usage us p) w ≡ (ok (answer us), after us)) where
  open p.status use {usage}

  -- The server after a release that leaves the list `vs`.
  abbrev pub Leaves : List ResourceUsage → Type 0
  Leaves vs =
      ((vs ≡ usage) × (release_resource K s ≡ (ok tt, record s { world = w })))
      ⊎ (release_resource K s ≡ (ok tt, record s { world = after vs }))

  leaves :
      (q : Outcome (Option ℕ)) (vs : List ResourceUsage)
      → find_usage s.self 0 usage ≡ q
      → apply_found q usage ≡ some vs
      → Leaves vs
  leaves (ok none) vs e h = inl (ground arith, release_of_none K L s p w holds found e)
  leaves (ok (some i)) vs e h =
      let us = remove_at i usage in
      let same : us ≡ vs = ground arith in
      inr (
        release_at_index K L s p w holds found i (answer us) (after us) e (accepts us)
        ∙ ap (λ us. (ok tt, record s { world = after us })) same)
  leaves (err _) vs e h = ground arith
  leaves (panic _) vs e h = ground arith

  -- With retries as documented: a deployer that holds a pool which the server has, with names on
  -- all entries, and whose writes the server accepts, ends its release without an error: the pool's
  -- list is then without one of the deployer's own entries, if it had any, and with those of all
  -- others, in their order; it is written once, or not at all where it stays the same. The deployer
  -- is not changed.
  pub release_resource-frees :
      IsNamed usage
      → (vs : List ResourceUsage) × Leaves vs
        × (others s.self vs ≡ others s.self usage)
        × (own_count s.self vs ≡ own_count s.self usage - 1)
  release_resource-frees named =
      let (vs, h, same, fewer) = find_usage-remove_at s.self usage named in
      (vs, leaves (find_usage s.self 0 usage) vs refl h, same, fewer)
