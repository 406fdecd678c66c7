-- ===== src/Tests/Deploy.antt =====
-- The theorems on deployers and resource pools at concrete inputs.
use cloudrun.Base.{◌≡◌, refl, ◌-◌, i32, ◌+ℤ◌, some, List, [], ◌∷◌, ◌++◌}
use cloudrun.Api.ResourcePool.{ResourcePool, ResourceUsage}
use cloudrun.Cluster.Outcome.{ok}
use cloudrun.Cluster.Client.{resource_pool}
use cloudrun.Deploy.Grant.{beg_resource-granted, granted, holding}
use cloudrun.Deploy.Release.{Leaves, release_resource-frees}
use cloudrun.Deploy.Resources.{beg_resource, find_usage, new_usage, requested, set_usage}
use cloudrun.Deploy.Usage.{apply_found, find_usage-new_usage, others, own_count}
use cloudrun.Tests.Memory.{memory, memory-IsLawful, Store}
use cloudrun.Tests.Samples.{a_deployer, a_holder, a_pool, amounts, run, usage_of, with_pool}

abbrev roomy : ResourcePool
roomy = a_pool (usage_of "other" ∷ []) (amounts 800 900)

abbrev full : ResourcePool
full = a_pool (usage_of "other" ∷ []) (amounts 100 900)

abbrev after_grant : Store
after_grant = (memory.update_status resource_pool (granted a_deployer roomy) (with_pool roomy)).1

beg_resource-granted_example :
    beg_resource memory (run (with_pool roomy) a_deployer)
    ≡ (ok tt, record { world = after_grant; self = holding a_deployer })
unfolding new_usage requested i32 ◌+ℤ◌
beg_resource-granted_example =
    beg_resource-granted memory memory-IsLawful (run (with_pool roomy) a_deployer) roomy
      (amounts 800 900) (with_pool roomy) refl refl (granted a_deployer roomy) after_grant refl refl

find_usage-new_usage_example :
    let granted = (usage_of "other" ∷ []) ++ (new_usage a_deployer (amounts 200 100) ∷ []) in
    apply_found (find_usage a_deployer 0 granted) granted ≡ some (usage_of "other" ∷ [])
find_usage-new_usage_example =
    find_usage-new_usage a_deployer (amounts 200 100) (usage_of "other" ∷ []) (refl, tt) refl

abbrev shared : List ResourceUsage
shared = usage_of "other" ∷ usage_of "site" ∷ []

abbrev busy : ResourcePool
busy = a_pool shared (amounts 600 800)

abbrev after : List ResourceUsage → Store
after us = (memory.update_status resource_pool (set_usage us busy) (with_pool busy)).1

release_resource-frees_example :
    (vs : List ResourceUsage) × Leaves memory memory-IsLawful
      (run (with_pool busy) a_holder)
      busy
      (with_pool busy)
      refl
      refl
      (λ us. set_usage us busy)
      after
      (λ q. refl)
      vs
    × (others a_holder vs ≡ others a_holder shared)
    × (own_count a_holder vs ≡ own_count a_holder shared - 1)
release_resource-frees_example =
    release_resource-frees memory memory-IsLawful (run (with_pool busy) a_holder) busy
      (with_pool busy) refl refl (λ us. set_usage us busy) after (λ q. refl) (refl, (refl, tt))
