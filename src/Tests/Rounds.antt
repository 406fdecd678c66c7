-- ===== src/Tests/Rounds.antt =====
-- The theorems on how rounds begin and end at concrete inputs.
use cloudrun.Base.{◌≡◌, not, ◌&&◌, is_some, none, [], ◌∷◌}
use cloudrun.Cluster.Outcome.{is_panic}
use cloudrun.Api.ResourcePool.{ResourcePool}
use cloudrun.Controllers.Pool.{account}
use cloudrun.Controllers.Pool.Panic.{account-is_panic, all_given}
use cloudrun.Tests.Memory.{memory, memory-IsCalm}
use cloudrun.Tests.Samples.{a_pool, amounts, usage_of, with_pool, run}

-- A pool without a capacity.
abbrev bare : ResourcePool
bare = record (a_pool (usage_of "a" ∷ []) (amounts 0 0)) { spec = record { capacity = none } }

account-is_panic_example :
    is_panic (account memory (run (with_pool bare) bare)).0
    ≡ not (all_given bare.status.usage && is_some bare.spec.capacity)
account-is_panic_example = account-is_panic memory memory-IsCalm (run (with_pool bare) bare)
