-- ===== src/Store/Touched.antt =====
-- What the next round of a deployer (controllers/deployer_controller.go) touches of a store.
use cloudrun.Base.{◌≡◌, ◌≢◌, ◌⊎◌, refl, ◌∙◌, inl, inr}
use cloudrun.Types.{NamespacedName}
use cloudrun.Api.Deployer.{DeployType, Deployer, DeployerStatus, common_status}
use cloudrun.Api.Deployer as D
use cloudrun.Deploy.Names.{display_name}
use cloudrun.Cluster.Client.{Cluster, Kind, deployer, resource_pool, stateful_set}
use cloudrun.Deploy.Resources.{new_usage}
use cloudrun.Store.{IsStore, KeepsOthers, Objects}
use cloudrun.Store.Cleanup.{workload_kind}
use cloudrun.Store.Share.{asked}

pub pool-ne-workload : (t : DeployType) → resource_pool ≢ workload_kind t
pool-ne-workload D.job h = cc
pool-ne-workload D.service h = cc
pool-ne-workload (D.other t) h = cc

pub deployer-ne-workload : (t : DeployType) → deployer ≢ workload_kind t
deployer-ne-workload D.job h = cc
deployer-ne-workload D.service h = cc
deployer-ne-workload (D.other t) h = cc

pub set-ne-workload : (t : DeployType) → stateful_set ≢ workload_kind t
set-ne-workload D.job h = cc
set-ne-workload D.service h = cc
set-ne-workload (D.other t) h = cc

pub deployer-ne-pool : deployer ≢ resource_pool
deployer-ne-pool h = cc

-- The entry does not depend on the status.
pub asked-status :
    (K : Cluster) (S : IsStore K) (o : Deployer) (st : DeployerStatus)
    → asked K S (record o { status = st }) ≡ asked K S o
unfolding new_usage display_name
asked-status K S o st = refl

-- Writes to a workload, to a pool, and to a deployer.
pub touched :
    (a b c d : Objects) (k : Kind) (n n' n'' : NamespacedName)
    → KeepsOthers a b k n
    → KeepsOthers b c resource_pool n'
    → KeepsOthers c d deployer n''
    → (j : Kind) (m : NamespacedName)
    → (d j m ≡ a j m)
      ⊎ ((j ≡ k) × (m ≡ n))
      ⊎ ((j ≡ resource_pool) × (m ≡ n'))
      ⊎ ((j ≡ deployer) × (m ≡ n''))
touched a b c d k n n' n'' first second third j m = elim (third j m) [
  | inl same'' ↦ elim (second j m) [
    | inl same' ↦ elim (first j m) [
      | inl same ↦ inl (same'' ∙ same' ∙ same)
      | inr it ↦ inr (inl it)
    ]
    | inr it ↦ inr (inr (inl it))
  ]
  | inr it ↦ inr (inr (inr it))
]
