-- ===== src/Shares/Safety.antt =====
-- Over any sequence of the writes, a pool is not used beyond its capacity.
use cloudrun.Base.{ℕ, ◌+◌, ◌-◌, ◌^◌, ◌≤◌, ◌<◌, i32_sub, ◌≡◌, refl, true, false, some, List, arith}
use cloudrun.Types.{Resource}
use cloudrun.Api.Deployer.{Deployer}
use cloudrun.Api.ResourcePool.{ResourceUsage}
use cloudrun.Cluster.Outcome.{ok}
use cloudrun.Deploy.Grant.{granted}
use cloudrun.Deploy.Resources.{find_usage, is_short, new_usage, no_resource, requested, set_usage}
use cloudrun.Deploy.Usage.{apply_found}
use cloudrun.Controllers.Pool.{free_of, sum_usage, zero_resource}
use cloudrun.Controllers.Pool.Account.{IsCosted, amount, sum_usage-total, total_cpu, total_memory}
use cloudrun.Shares.System.{
  Asks, Shared, Step, grant, release, account, Reach, here, next, set_free,
}
use cloudrun.Shares.Totals.{IsCosted-append, apply_found-Less, total-append}

-- A pool of the capacity `c`, `m` whose entries fit into it, and whose free resources, as long as
-- they are not stale, fit in beside the entries.
pub record IsSafe (c m : ℕ) (s : Shared) : Type 0 where
  pub capacity : s.pool.spec.capacity ≡ some (amount c m)
  pub costed : IsCosted s.pool.status.usage
  pub fits_cpu : total_cpu s.pool.status.usage ≤ c
  pub fits_memory : total_memory s.pool.status.usage ≤ m
  pub free :
      s.stale ≡ false
      → (f : ℕ) × (g : ℕ) × (s.pool.status.free ≡ some (amount f g))
        × (f + total_cpu s.pool.status.usage ≤ c)
        × (g + total_memory s.pool.status.usage ≤ m)

within : (f g a b : ℕ) → is_short (amount f g) (amount a b) ≡ false → (a ≤ f) × (b ≤ g)
within f g a b h = ground arith

true-ne-false : true ≡ false → ⊥
true-ne-false h = cc

module _ (c m : ℕ) where
  grant-IsSafe :
      (s : Shared) (d : Deployer) (free : Resource)
      → IsSafe c m s
      → Asks d
      → s.stale ≡ false
      → s.pool.status.free ≡ some free
      → is_short free (requested d.spec.containers no_resource) ≡ false
      → IsSafe c m (record { pool = granted d s.pool; stale = true })
  unfolding new_usage
  grant-IsSafe s d free safe (a, b, wants) fresh e enough =
      let (f, g, e', fits, fits') = safe.free fresh in
      let u = new_usage d (amount a b) in
      let (more, more') = total-append s.pool.status.usage u in
      let same : free ≡ amount f g = ground arith in
      let (low, low') : (a ≤ f) × (b ≤ g) = within f g a b (rw (same, wants) at enough) in
      rw wants (record {
        capacity = safe.capacity;
        costed = IsCosted-append s.pool.status.usage _ safe.costed (a, b, refl, tt);
        fits_cpu = omega (arith, more);
        fits_memory = omega (arith, more');
        free = λ h. absurd (true-ne-false h);
      })

  release-IsSafe :
      (s : Shared) (d : Deployer) (vs : List ResourceUsage)
      → IsSafe c m s
      → apply_found (find_usage d 0 s.pool.status.usage) s.pool.status.usage ≡ some vs
      → IsSafe c m (record s { pool = set_usage vs s.pool })
  release-IsSafe s d vs safe e =
      let (less, less', costed) =
        apply_found-Less (find_usage d 0 s.pool.status.usage) s.pool.status.usage vs safe.costed
          e in
      let fits_cpu = safe.fits_cpu in
      let fits_memory = safe.fits_memory in
      record {
        capacity = safe.capacity;
        costed = costed;
        fits_cpu = omega arith;
        fits_memory = omega arith;
        free = λ fresh.
            let (f, g, e', fits, fits') = safe.free fresh in (f, g, e', omega arith, omega arith);
      }

  account-IsSafe :
      (s : Shared) (capacity used : Resource)
      → c < 2 ^ 31
      → m < 2 ^ 31
      → IsSafe c m s
      → s.pool.spec.capacity ≡ some capacity
      → sum_usage {S = Unit {0}} s.pool.status.usage zero_resource tt ≡ (ok used, tt)
      → IsSafe c m (record { pool = set_free (free_of capacity used) s.pool; stale = false })
  unfolding free_of
  account-IsSafe s capacity used low low' safe e sums =
      let us = s.pool.status.usage in
      let fits_cpu = safe.fits_cpu in
      let fits_memory = safe.fits_memory in
      let total =
        sum_usage-total {S = Unit {0}} us 0 0 tt safe.costed (omega arith) (omega arith) in
      let cap : capacity ≡ amount c m = ground (arith, safe.capacity) in
      let same : used ≡ amount (total_cpu us) (total_memory us) = ground arith in
      rw (cap, same)
        (record {
          capacity = safe.capacity;
          costed = safe.costed;
          fits_cpu = fits_cpu;
          fits_memory = fits_memory;
          free = λ _. (
            c - total_cpu us,
            m - total_memory us,
            ground (
              arith,
              i32_sub c (total_cpu us) low (omega arith),
              i32_sub m (total_memory us) low' (omega arith),
            ),
            omega arith,
            omega arith,
          );
        })

  module _ (cpu_int32 : c < 2 ^ 31) (memory_int32 : m < 2 ^ 31) where
    Step-IsSafe : {s t : Shared} → Step s t → IsSafe c m s → IsSafe c m t
    Step-IsSafe {s} (grant d free asks fresh e enough e') safe =
        rw e' (grant-IsSafe s d free safe asks fresh e enough)
    Step-IsSafe {s} (release d vs found e') safe = rw e' (release-IsSafe s d vs safe found)
    Step-IsSafe {s} (account capacity used e sums holds e') safe =
        rw e' (account-IsSafe s capacity used cpu_int32 memory_int32 safe e sums)

    -- From a pool within its capacity (below 2 ^ 31): any sequence of grants, releases and accounts,
    -- of any deployers in any order, in which the accounts run between any two grants, leads to a
    -- pool whose entries together are within the capacity, and whose free resources, if accounted
    -- since the last grant, fit in beside them.
    pub Reach-IsSafe : {s t : Shared} → Reach s t → IsSafe c m s → IsSafe c m t
    Reach-IsSafe here safe = safe
    Reach-IsSafe (next r st) safe = Step-IsSafe st (Reach-IsSafe r safe)
