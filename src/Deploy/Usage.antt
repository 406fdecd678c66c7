-- ===== src/Deploy/Usage.antt =====
-- The usage list of a pool, seen by owner: what `ReleaseResource` and `BegResource` in
-- controllers/deploy/deployer.go do to it.
use cloudrun.Base.{
  ℕ, suc, ◌+◌, ◌-◌, ◌≡◌, refl, ◌∙◌, Bool, true, false, ◌&&◌, Option, none, some, List, [], ◌∷◌,
  ◌++◌, arith, is_some, eq_refl, if◌then◌else◌,
}
use cloudrun.Types.{Resource}
use cloudrun.Api.Deployer.{Deployer}
use cloudrun.Api.ResourcePool.{ResourceUsage}
use cloudrun.Cluster.Outcome.{Outcome, ok, err, panic}
use cloudrun.Deploy.Resources.{find_usage, new_usage, remove_at, same_name, same_type}

-- Is the entry the deployer's?
abbrev pub is_own : Deployer → ResourceUsage → Bool
is_own d u =
    same_type u.type_meta d && (elim u.namespaced_name [ none ↦ false | some n ↦ same_name n d ])

-- Every entry has a name, so that no search stops at one.
abbrev pub IsNamed : List ResourceUsage → Type 0
IsNamed [] = Unit
IsNamed (u ∷ us) = (is_some u.namespaced_name ≡ true) × IsNamed us

-- The entries of all others, in order.
abbrev pub others : Deployer → List ResourceUsage → List ResourceUsage
others d [] = []
others d (u ∷ us) = if is_own d u then others d us else u ∷ others d us

-- How many entries the deployer has.
abbrev pub own_count : Deployer → List ResourceUsage → ℕ
own_count d [] = 0
own_count d (u ∷ us) = if is_own d u then suc (own_count d us) else own_count d us

-- The list that `ReleaseResource` sends to the server, from the result of its search.
abbrev pub apply_found : Outcome (Option ℕ) → List ResourceUsage → Option (List ResourceUsage)
apply_found (ok none) us = some us
apply_found (ok (some i)) us = some (remove_at i us)
apply_found (err _) us = none
apply_found (panic _) us = none

abbrev remove_first : Deployer → List ResourceUsage → List ResourceUsage
remove_first d [] = []
remove_first d (u ∷ us) = if is_own d u then us else u ∷ remove_first d us

abbrev pub bump : Outcome (Option ℕ) → Outcome (Option ℕ)
bump (ok none) = ok none
bump (ok (some i)) = ok (some (suc i))
bump (err e) = err e
bump (panic e) = panic e

-- A count that starts one higher ends one higher.
pub find_usage-add-one :
    (d : Deployer) (i : ℕ) (us : List ResourceUsage)
    → find_usage d (i + 1) us ≡ bump (find_usage d i us)
unfolding find_usage
find_usage-add-one d i [] = refl
find_usage-add-one d i (u ∷ us) = ground (arith, find_usage-add-one d (i + 1) us)

pub remove_at-suc :
    (i : ℕ) (u : ResourceUsage) (us : List ResourceUsage)
    → remove_at (suc i) (u ∷ us) ≡ u ∷ remove_at i us
unfolding remove_at
remove_at-suc i u us = let e : suc i + 1 ≡ suc (i + 1) = omega arith in rw e

apply_found-bump :
    (q : Outcome (Option ℕ)) (u : ResourceUsage) (us vs : List ResourceUsage)
    → apply_found q us ≡ some vs
    → apply_found (bump q) (u ∷ us) ≡ some (u ∷ vs)
apply_found-bump (ok none) u us vs h = cc
apply_found-bump (ok (some i)) u us vs h = cc (remove_at-suc i u us)
apply_found-bump (err _) u us vs h = cc
apply_found-bump (panic _) u us vs h = cc

-- The search and the splice together take the first own entry out.
find_usage-remove :
    (d : Deployer) (us : List ResourceUsage)
    → IsNamed us
    → apply_found (find_usage d 0 us) us ≡ some (remove_first d us)
unfolding find_usage remove_at
find_usage-remove d [] h = refl
find_usage-remove d (u ∷ us) h = ground (
  arith,
  find_usage-add-one d 0 us,
  apply_found-bump (find_usage d 0 us) u us (remove_first d us) (find_usage-remove d us h.1),
)

remove_first-others :
    (d : Deployer) (us : List ResourceUsage) → others d (remove_first d us) ≡ others d us
remove_first-others d [] = refl
remove_first-others d (u ∷ us) = ground (arith, remove_first-others d us)

own_count-remove_first :
    (d : Deployer) (us : List ResourceUsage) → own_count d (remove_first d us) ≡ own_count d us - 1
own_count-remove_first d [] = omega arith
own_count-remove_first d (u ∷ us) = ground (arith, own_count-remove_first d us)

-- In a pool whose entries all have names, the search of a release ends without a panic, and the
-- splice keeps the entries of all others in their order and takes one of the deployer's own, if it
-- has any.
pub find_usage-remove_at :
    (d : Deployer) (us : List ResourceUsage)
    → IsNamed us
    → (vs : List ResourceUsage) × (apply_found (find_usage d 0 us) us ≡ some vs)
      × (others d vs ≡ others d us)
      × (own_count d vs ≡ own_count d us - 1)
find_usage-remove_at d us h = (
  remove_first d us,
  find_usage-remove d us h,
  remove_first-others d us,
  own_count-remove_first d us,
)

new_usage-own : (d : Deployer) (r : Resource) → is_own d (new_usage d r) ≡ true
unfolding new_usage
new_usage-own d r = rw (
  eq_refl d.type_meta.api_version,
  eq_refl d.type_meta.kind,
  eq_refl d.meta.name,
  eq_refl d.meta.namespace,
)

remove_first-append :
    (d : Deployer) (u : ResourceUsage) (us : List ResourceUsage)
    → is_own d u ≡ true
    → own_count d us ≡ 0
    → remove_first d (us ++ (u ∷ [])) ≡ us
remove_first-append d u [] own h = rw own
remove_first-append d u (v ∷ us) own h = ground (arith, remove_first-append d u us own)

IsNamed-append :
    (d : Deployer) (r : Resource) (us : List ResourceUsage)
    → IsNamed us
    → IsNamed (us ++ (new_usage d r ∷ []))
unfolding new_usage
IsNamed-append d r [] h = (refl, tt)
IsNamed-append d r (u ∷ us) h = (h.0, IsNamed-append d r us h.1)

-- A release undoes a grant: where all entries have names and the deployer had none, the list with the entry that
-- `BegResource` adds is taken back to what it was.
pub find_usage-new_usage :
    (d : Deployer) (r : Resource) (us : List ResourceUsage)
    → IsNamed us
    → own_count d us ≡ 0
    → let granted = us ++ (new_usage d r ∷ []) in
      apply_found (find_usage d 0 granted) granted ≡ some us
find_usage-new_usage d r us named none_own =
    find_usage-remove d (us ++ (new_usage d r ∷ [])) (IsNamed-append d r us named)
    ∙ rw (remove_first-append d (new_usage d r) us (new_usage-own d r) none_own)
