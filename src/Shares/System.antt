-- ===== src/Shares/System.antt =====
-- A resource pool on the server, and the writes to it.
use cloudrun.Base.{ℕ, pos, ltb_ℤ, ◌≡◌, Bool, ◌||◌, true, false, some, List}
use cloudrun.Types.{Resource}
use cloudrun.Api.Deployer.{Deployer}
use cloudrun.Api.ResourcePool.{ResourcePool, ResourceUsage}
use cloudrun.Cluster.Outcome.{ok}
use cloudrun.Deploy.Grant.{granted}
use cloudrun.Deploy.Resources.{find_usage, is_short, no_resource, requested, set_usage}
use cloudrun.Deploy.Usage.{apply_found}
use cloudrun.Controllers.Pool.Account.{amount}
use cloudrun.Controllers.Pool.{free_of, sum_usage, zero_resource}

-- The pool, and whether a share was given since what is free was last computed.
pub record Shared : Type 0 where
  pub pool : ResourcePool
  pub stale : Bool

abbrev pub set_free : Resource → ResourcePool → ResourcePool
set_free r p = record p { status = record p.status { free = some r } }

abbrev pub is_negative : Resource → Bool
is_negative r = ltb_ℤ r.cpu (pos 0) || ltb_ℤ r.memory (pos 0)

-- What the containers of a deployer ask for together is an amount of both, not negative.
abbrev pub Asks : Deployer → Type 0
Asks d = (a : ℕ) × (b : ℕ) × (requested d.spec.containers no_resource ≡ amount a b)

-- One write: a grant to a deployer that is not short of what the pool says is free, a release by
-- the search of a deployer's entry, or the accounts, which
-- are not written where what is free would be negative. Grants are those of a scheduler that lets the
-- accounts run between any two, to deployers that ask for amounts.
pub data Step (s t : Shared) : Type 0 where
  grant :
      (d : Deployer) (free : Resource)
      → Asks d
      → s.stale ≡ false
      → s.pool.status.free ≡ some free
      → is_short free (requested d.spec.containers no_resource) ≡ false
      → t ≡ record { pool = granted d s.pool; stale = true }
      → Step s t
  release :
      (d : Deployer) (vs : List ResourceUsage)
      → apply_found (find_usage d 0 s.pool.status.usage) s.pool.status.usage ≡ some vs
      → t ≡ record s { pool = set_usage vs s.pool }
      → Step s t
  account :
      (capacity used : Resource)
      → s.pool.spec.capacity ≡ some capacity
      → sum_usage {S = Unit {0}} s.pool.status.usage zero_resource tt ≡ (ok used, tt)
      → is_negative (free_of capacity used) ≡ false
      → t ≡ record { pool = set_free (free_of capacity used) s.pool; stale = false }
      → Step s t

pub data Reach (s : Shared) : Shared → Type 0 where
  here : Reach s s
  next : {t u : Shared} → Reach s t → Step t u → Reach s u
