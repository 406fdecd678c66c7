-- ===== src/Shares/Totals.antt =====
-- What the entries of a pool add up to, after a grant and after a release.
use cloudrun.Base.{
  ℕ, zero, suc, ◌+◌, ◌≤◌, ◌≡◌, sym, subst, Option, none, some, List, [], ◌∷◌, ◌++◌, arith,
}
use cloudrun.Api.ResourcePool.{ResourceUsage}
use cloudrun.Cluster.Outcome.{Outcome, ok, err, panic}
use cloudrun.Deploy.Resources.{remove_at}
use cloudrun.Deploy.Usage.{apply_found, remove_at-suc}
use cloudrun.Controllers.Pool.Account.{IsCosted, cpu_cost, memory_cost, total_cpu, total_memory}

pub total-append :
    (us : List ResourceUsage) (u : ResourceUsage)
    → (total_cpu (us ++ (u ∷ [])) ≡ total_cpu us + cpu_cost u)
      × (total_memory (us ++ (u ∷ [])) ≡ total_memory us + memory_cost u)
total-append [] u = (omega arith, omega arith)
total-append (v ∷ us) u = let (e, f) = total-append us u in (omega arith, omega arith)

pub IsCosted-append : (us vs : List ResourceUsage) → IsCosted us → IsCosted vs → IsCosted (us ++ vs)
IsCosted-append [] vs h k = k
IsCosted-append (u ∷ us) vs (c, m, e, h) k = (c, m, e, IsCosted-append us vs h k)

-- A list that costs no more, of entries with amounts.
abbrev pub Less : List ResourceUsage → List ResourceUsage → Type 0
Less vs us = (total_cpu vs ≤ total_cpu us) × (total_memory vs ≤ total_memory us) × IsCosted vs

remove_at-Less : (i : ℕ) (us : List ResourceUsage) → IsCosted us → Less (remove_at i us) us
unfolding remove_at
remove_at-Less zero [] h = (omega arith, omega arith, tt)
remove_at-Less zero (u ∷ us) (c, m, e, h) = (omega arith, omega arith, h)
remove_at-Less (suc i) [] h =
    let e : suc i + 1 ≡ suc (i + 1) = omega arith in rw e (omega arith, omega arith, tt)
remove_at-Less (suc i) (u ∷ us) (c, m, e, h) =
    let (a, b, rest) = remove_at-Less i us h in
    subst (λ l. Less l (u ∷ us)) (sym (remove_at-suc i u us))
      (omega arith, omega arith, (c, m, e, rest))

pub apply_found-Less :
    (q : Outcome (Option ℕ)) (us vs : List ResourceUsage)
    → IsCosted us
    → apply_found q us ≡ some vs
    → Less vs us
apply_found-Less (ok none) us vs h e =
    let same : us ≡ vs = ground arith in rw (sym same) (omega arith, omega arith, h)
apply_found-Less (ok (some i)) us vs h e =
    let same : remove_at i us ≡ vs = ground arith in rw (sym same) (remove_at-Less i us h)
apply_found-Less (err _) us vs h e = ground arith
apply_found-Less (panic _) us vs h e = ground arith
