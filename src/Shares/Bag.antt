-- ===== src/Shares/Bag.antt =====
-- The abstract view of a resource pool: a bag of shares, in no order. Each write to the pool does to
-- the bag what its name says.
use mathlib.Core.Quot
use mathlib.Core.Quot.{Quot, Quot-set}
use mathlib.Core.List.{Perm}
use mathlib.Core.List.Perm
use cloudrun.Base.{ℕ, ◌≡◌, true, ◌⊎◌, List, ◌∷◌}
use cloudrun.Api.Deployer.{Deployer}
use cloudrun.Api.ResourcePool.{ResourceUsage}
use cloudrun.Cluster.Outcome.{Outcome}
use cloudrun.Deploy.Resources.{new_usage, no_resource, remove_at, requested}
use cloudrun.Deploy.Usage.{is_own, own_count}
use cloudrun.Shares.System.{Shared, Step, grant, release, account}

abbrev pub Bag : Type 0
Bag = Quot (Perm {A = ResourceUsage})

abbrev pub view : Shared → Bag
view s = Quot.mk s.pool.status.usage

unfoldable pub put : ResourceUsage → Bag → Bag
put u = Quot.lift Quot-set (λ us. Quot.mk (u ∷ us)) (λ us vs h. Quot.sound (Perm.cons u h))

-- A share of the deployer's is taken out, or it has none, and nothing changes.
abbrev pub Takes : Deployer → List ResourceUsage → List ResourceUsage → Type 0
Takes d us vs =
    ((u : ResourceUsage) × (is_own d u ≡ true) × (◌≡◌ {A = Bag} (Quot.mk us) (put u (Quot.mk vs))))
    ⊎ ((own_count d us ≡ 0) × (◌≡◌ {A = Bag} (Quot.mk vs) (Quot.mk us)))

-- What a step does to the bag: a grant gives its deployer a share of what it asks for, a release takes
-- back one that its deployer holds, if any, and the accounts do nothing.
abbrev pub Does : {s t : Shared} → Step s t → Type 0
Does {s} {t} (grant d _ _ _ _ _ _) =
    view t ≡ put (new_usage d (requested d.spec.containers no_resource)) (view s)
Does {s} {t} (release d _ _ _) = Takes d s.pool.status.usage t.pool.status.usage
Does {s} {t} (account _ _ _ _ _ _) = view t ≡ view s

-- An entry of the deployer's, and the list without it.
abbrev TakenOut : Deployer → ℕ → List ResourceUsage → Type 0
TakenOut d i us = (u : ResourceUsage) × (is_own d u ≡ true) × Perm us (u ∷ remove_at i us)
