-- ===== src/Controllers/Pool/Panic.antt =====
-- When the accounts of a pool panic (controllers/resourcepool_controller.go).
use cloudrun.Base.{
  ◌≡◌, refl, Bool, true, false, not, ◌&&◌, is_some, Bool-cases, inl, inr, Option, none, some, List,
  [], ◌∷◌, arith,
}
use cloudrun.Types.{Resource}
use cloudrun.Api.ResourcePool.{ResourcePool, ResourceUsage}
use cloudrun.Cluster.Outcome.{ok, panic, is_panic, nil_pointer, pure, ◌>>◌}
use cloudrun.Cluster.Client.{Cluster, IsCalm, resource_pool}
use cloudrun.Cluster.Crd.{Run, update_self_status}
use cloudrun.Controllers.Reconcile.{no_requeue}
use cloudrun.Controllers.Pool.{account, check_free, free_of, sum_usage, zero_resource}

-- Has each entry its amounts?
abbrev pub all_given : List ResourceUsage → Bool
all_given [] = true
all_given (u ∷ us) = is_some u.resource && all_given us

module _ {S : Type 0} (s : S) where
  sum_usage-ok :
      (us : List ResourceUsage) (used : Resource)
      → all_given us ≡ true
      → (r : Resource) × (sum_usage us used s ≡ (ok r, s))
  unfolding sum_usage
  sum_usage-ok [] used h = (used, refl)
  sum_usage-ok (u ∷ us) used h = by_resource u.resource refl (λ now all. sum_usage-ok us now all)
    where
      by_resource :
          (q : Option Resource)
          → u.resource ≡ q
          → ((now : Resource)
              → all_given us ≡ true
              → (r : Resource) × (sum_usage us now s ≡ (ok r, s)))
          → (r : Resource) × (sum_usage (u ∷ us) used s ≡ (ok r, s))
      by_resource none e ih = absurd (ground arith)
      by_resource (some r) e ih = rw e (ih _ (ground arith))

  sum_usage-panic :
      (us : List ResourceUsage) (used : Resource)
      → all_given us ≡ false
      → sum_usage us used s ≡ (panic nil_pointer, s)
  unfolding sum_usage
  sum_usage-panic [] used h = absurd (ground arith)
  sum_usage-panic (u ∷ us) used h =
      by_resource u.resource refl (λ now lacks. sum_usage-panic us now lacks)
    where
      by_resource :
          (q : Option Resource)
          → u.resource ≡ q
          → ((now : Resource) → all_given us ≡ false → sum_usage us now s ≡ (panic nil_pointer, s))
          → sum_usage (u ∷ us) used s ≡ (panic nil_pointer, s)
      by_resource none e ih = rw e refl
      by_resource (some r) e ih = rw e (ih _ (ground arith))

module _ (K : Cluster) (L : IsCalm K) (s : Run K.World ResourcePool) where
  -- Behind the sums only the capacity may be missing.
  account_summed :
      (used : Resource)
      → sum_usage s.self.status.usage zero_resource s ≡ (ok used, s)
      → (q : Option Resource) → s.self.spec.capacity ≡ q
      → is_panic (account K s).0 ≡ not (is_some q)
  unfolding account check_free
  account_summed used e none e' = rw (e, e') refl
  account_summed used e (some capacity) e' = rw (e, e') (checked (free_of capacity used) _)
    where
      checked :
          (free : Resource) (t : Run K.World ResourcePool)
          → is_panic
              ((check_free K free >> (update_self_status K resource_pool >> pure no_requeue)) t).0
            ≡ false
      checked free t = ground (arith, L.update_status-is_panic resource_pool t.self t.world)

  account_lacks :
      sum_usage s.self.status.usage zero_resource s ≡ (panic nil_pointer, s)
      → is_panic (account K s).0 ≡ true
  unfolding account
  account_lacks e = rw e refl

  -- Over a server whose status writes report what goes wrong as an error: the accounts of a pool
  -- panic exactly if it has no capacity or an entry of it has no amounts.
  pub account-is_panic :
      is_panic (account K s).0 ≡ not (all_given s.self.status.usage && is_some s.self.spec.capacity)
  account-is_panic = elim (Bool-cases (all_given s.self.status.usage)) [
    | inl given ↦
        let (used, e) = sum_usage-ok s s.self.status.usage zero_resource given in
        rw given (account_summed used e s.self.spec.capacity refl)
    | inr lacks ↦
        rw lacks (account_lacks (sum_usage-panic s s.self.status.usage zero_resource lacks))
  ]
