-- ===== src/Cluster/Retry.antt =====
-- What the documented behaviour of `retry.RetryOnConflict` gives for one function that it runs.
use cloudrun.Base.{◌≡◌, sym, ◌∙◌, Bool, true, not, arith}
use cloudrun.Cluster.Outcome.{Outcome, ok, err, panic, is_conflict}
use cloudrun.Cluster.Client.{Cluster, IsLawful, Runs, last, again}

-- A result after which no further round is made.
abbrev pub settles : Outcome (Unit {0}) → Bool
settles (ok _) = true
settles (err e) = not (is_conflict e)
settles (panic _) = true

module _ {S : Type 0} (f : S → Outcome (Unit {0}) × S) where
  Runs-settled :
      (r q : Outcome (Unit {0})) (t u s : S)
      → Runs f r t s
      → f s ≡ (q, u)
      → settles q ≡ true
      → ◌≡◌ {A = Outcome (Unit {0}) × S} (r, t) (q, u)
  Runs-settled r q t u s (last e) h done = sym e ∙ h
  Runs-settled r q t u s (again c v e clash rest) h done = ground arith

-- A first round that settles is the only one.
pub retry-settled :
    (K : Cluster) (L : IsLawful K) (S : Type 0) (f : S → Outcome (Unit {0}) × S) (s : S)
    (q : Outcome (Unit {0})) (u : S)
    → f s ≡ (q, u)
    → settles q ≡ true
    → K.retry_on_conflict S f s ≡ (q, u)
retry-settled K L S f s q u h done = Runs-settled f _ q _ u s (L.retries S f s) h done

-- Where no round that starts in a state with `P` writes outside `P`, retrying does not.
Runs-keeps :
    {S : Type 0} (f : S → Outcome (Unit {0}) × S) (P : S → Type 0)
    → ((s : S) → P s → P (f s).1)
    → (r : Outcome (Unit {0})) (t s : S) → Runs f r t s
    → P s
    → P t
Runs-keeps f P keep r t s (last e) h = let k = keep s h in rw e at k
Runs-keeps f P keep r t s (again c v e clash rest) h =
    Runs-keeps f P keep r t v rest (let k = keep s h in rw e at k)

pub retry-keeps :
    (K : Cluster) (L : IsLawful K) (S : Type 0) (f : S → Outcome (Unit {0}) × S) (P : S → Type 0)
    → ((s : S) → P s → P (f s).1)
    → (s : S) → P s
    → P (K.retry_on_conflict S f s).1
retry-keeps K L S f P keep s h = Runs-keeps f P keep _ _ s (L.retries S f s) h
