-- ===== src/Tests/Shares.antt =====
-- The theorems on the writes to a pool at concrete inputs.
use cloudrun.Base.{◌<◌, ◌≡◌, refl, pos, i32, ◌+ℤ◌, true, false, some, [], ◌∷◌, arith}
use cloudrun.Api.Deployer.{Deployer}
use cloudrun.Api.ResourcePool.{ResourcePool}
use cloudrun.Cluster.Outcome.{ok}
use cloudrun.Cluster.Client.{resource_pool}
use cloudrun.Deploy.Grant.{granted, holding, pool_key}
use cloudrun.Store.Overrun.{beg_resource-overrun}
use cloudrun.Tests.Memory.{Store, memory, memory-IsLawful}
use cloudrun.Tests.Stored.{memory-IsStore}
use cloudrun.Deploy.Resources.{beg_resource, requested}
use cloudrun.Controllers.Pool.Account.{total_cpu}
use cloudrun.Shares.Safety.{IsSafe, Reach-IsSafe}
use cloudrun.Shares.System.{Shared, Step, grant, here, next}
use cloudrun.Tests.Samples.{a_container, a_deployer, a_pool, amounts, run, usage_of, with_pool}

abbrev start : Shared
start = record { pool = a_pool (usage_of "other" ∷ []) (amounts 800 900); stale = false }

abbrev after_grant : Shared
after_grant = record { pool = granted a_deployer start.pool; stale = true }

first : Step start after_grant
unfolding requested i32 ◌+ℤ◌
first = grant a_deployer (amounts 800 900) (200, 100, refl) refl refl refl refl

start-IsSafe : IsSafe 1000 1000 start
start-IsSafe = record {
  capacity = refl;
  costed = (200, 100, refl, tt);
  fits_cpu = omega arith;
  fits_memory = omega arith;
  free = λ _. (800, 900, refl, omega arith, omega arith);
}

Reach-IsSafe_example : IsSafe 1000 1000 after_grant
Reach-IsSafe_example =
    Reach-IsSafe 1000 1000 (omega arith) (omega arith) (next here first) start-IsSafe

-- A deployer that asks for more than half of the pool, and the server with the pool.
abbrev greedy : Deployer
greedy = record a_deployer {
  spec = record a_deployer.spec {
    containers = record a_container { resource = record { cpu = pos 500; memory = pos 100 } } ∷ [];
  };
}

-- Another one of its kind.
abbrev rival : Deployer
rival = record greedy { meta = record greedy.meta { name = "rival" } }

abbrev before : Store
before = with_pool start.pool

pool-there :
    memory-IsStore.objects before resource_pool (pool_key greedy.spec.resource_pool)
    ≡ some start.pool
unfolding memory-IsStore
pool-there = refl

beg_resource-overrun_example :
    (v u : Store) × (q : ResourcePool) × (beg_resource memory (run before greedy)
      ≡ (ok tt, run v (holding greedy)))
    × (beg_resource memory (run v rival) ≡ (ok tt, run u (holding rival)))
    × (memory-IsStore.objects u resource_pool (pool_key greedy.spec.resource_pool) ≡ some q)
    × (1000 < total_cpu q.status.usage)
unfolding requested i32 ◌+ℤ◌
beg_resource-overrun_example =
    beg_resource-overrun memory memory-IsLawful memory-IsStore greedy rival before start.pool 1000
      800 900 500 100 500 100 pool-there refl refl refl refl (omega arith) (omega arith)
      (omega arith) (omega arith) (omega arith) refl
