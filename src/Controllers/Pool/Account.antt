-- ===== src/Controllers/Pool/Account.antt =====
-- The accounts of a resource pool (controllers/resourcepool_controller.go): capacity, what is used
-- and what is free add up, and a pool in use is not let go.
use cloudrun.Base.{
  ℕ, ◌+◌, ◌-◌, ◌^◌, ◌≤◌, ◌<◌, pos, pos_part, sub_ℕ, i32_add, i32_sub, ◌≡◌, ◌⊎◌, none, some, List,
  [], ◌∷◌, arith,
}
use cloudrun.Types.{Resource}
use cloudrun.Api.ResourcePool.{ResourcePool, ResourceUsage}
use cloudrun.Cluster.Outcome.{Outcome, ok, err, panic, pure, ◌>>◌}
use cloudrun.Cluster.Client.{Cluster, resource_pool}
use cloudrun.Cluster.Crd.{Run, update_self_status}
use cloudrun.Controllers.Reconcile.{no_requeue}
use cloudrun.Controllers.Pool.{account, check_free, free_of, sum_usage}

abbrev pub amount : ℕ → ℕ → Resource
amount c m = record { cpu = pos c; memory = pos m }

-- Every entry has an amount of both, not negative.
abbrev pub IsCosted : List ResourceUsage → Type 0
IsCosted [] = Unit
IsCosted (u ∷ us) = (c : ℕ) × (m : ℕ) × (u.resource ≡ some (amount c m)) × IsCosted us

abbrev pub cpu_cost : ResourceUsage → ℕ
cpu_cost u = elim u.resource [ none ↦ 0 | some r ↦ pos_part r.cpu ]

abbrev pub memory_cost : ResourceUsage → ℕ
memory_cost u = elim u.resource [ none ↦ 0 | some r ↦ pos_part r.memory ]

-- What the entries add up to, without bound.
abbrev pub total_cpu : List ResourceUsage → ℕ
total_cpu [] = 0
total_cpu (u ∷ us) = cpu_cost u + total_cpu us

abbrev pub total_memory : List ResourceUsage → ℕ
total_memory [] = 0
total_memory (u ∷ us) = memory_cost u + total_memory us

abbrev pub IsError : {A : Type 0} → Outcome A → Type 0
IsError (ok _) = ⊥
IsError (err _) = Unit
IsError (panic _) = ⊥

-- Below 2 ^ 31 the loop's int32 sums are the true ones.
pub sum_usage-total :
    {S : Type 0} (us : List ResourceUsage) (a b : ℕ) (s : S)
    → IsCosted us
    → a + total_cpu us < 2 ^ 31
    → b + total_memory us < 2 ^ 31
    → sum_usage us (amount a b) s ≡ (ok (amount (a + total_cpu us) (b + total_memory us)), s)
unfolding sum_usage
sum_usage-total [] a b s h fits fits' = ground arith
sum_usage-total (u ∷ us) a b s (c, m, e, h) fits fits' =
    rw (e, i32_add a c (ground arith), i32_add b m (ground arith))
      (ground (arith, sum_usage-total us (a + c) (b + m) s h))

module _ (K : Cluster) (s : Run K.World ResourcePool) (c m : ℕ)
    (capacity : s.self.spec.capacity ≡ some (amount c m)) (cpu_int32 : c < 2 ^ 31)
    (memory_int32 : m < 2 ^ 31) (costed : IsCosted s.self.status.usage) where
  open s.self.status use {usage}

  -- The state behind the sums, in which the checks are made.
  abbrev accounted : Run K.World ResourcePool
  accounted = record s {
    self = record s.self {
      status = record s.self.status {
        free =
            some
              (record { cpu = sub_ℕ c (total_cpu usage); memory = sub_ℕ m (total_memory usage) });
      };
    };
  }

  account_sums :
      total_cpu usage < 2 ^ 31
      → total_memory usage < 2 ^ 31
      → account K s
        ≡ (check_free K
                (record { cpu = sub_ℕ c (total_cpu usage); memory = sub_ℕ m (total_memory usage) })
              >> update_self_status K resource_pool
              >> pure no_requeue)
            accounted
  unfolding account free_of
  account_sums fits fits' = ground (
    arith,
    sum_usage-total usage 0 0 s costed (omega arith) (omega arith),
    i32_sub c (total_cpu usage) cpu_int32 fits,
    i32_sub m (total_memory usage) memory_int32 fits',
  )

  -- A pool of capacity below 2 ^ 31 whose entries are amounts of no more than it together writes its
  -- status once, in which what is free is the capacity less the entries' total; this is all that it
  -- does.
  pub account_fits :
      total_cpu usage ≤ c
      → total_memory usage ≤ m
      → account K s
        ≡ (update_self_status K resource_pool >> pure no_requeue) (record s {
          self = record s.self {
            status = record s.self.status {
              free = some (amount (c - total_cpu usage) (m - total_memory usage));
            };
          };
        })
  unfolding check_free
  account_fits fits fits' = ground (arith, account_sums (omega arith) (omega arith))

  -- A pool of a capacity below 2 ^ 31, whose entries have amounts, and together (below 2 ^ 31 too) more
  -- than its CPU or more than its memory, ends in an error, and nothing is written to the server.
  pub account_over :
      total_cpu usage < 2 ^ 31
      → total_memory usage < 2 ^ 31
      → (c < total_cpu usage) ⊎ (m < total_memory usage)
      → (IsError (account K s).0) × ((account K s).1.world ≡ s.world)
  unfolding check_free
  account_over fits fits' over = ground (arith, account_sums fits fits')
