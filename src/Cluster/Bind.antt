-- ===== src/Cluster/Bind.antt =====
-- A chain of calls, up to the first that does not return a value.
use cloudrun.Base.{◌≡◌, refl, Bool, true, false, if◌then◌else◌}
use cloudrun.Cluster.Outcome.{Outcome, ok, err, panic, Action, ◌>>=◌, proceed}

proceed-cong :
    {S A B : Type 0} (f g : A → Action S B) (q : Outcome A × S)
    → ((a : A) (t : S) → q ≡ (ok a, t) → f a t ≡ g a t)
    → proceed f q ≡ proceed g q
proceed-cong f g (ok a, t) h = h a t refl
proceed-cong f g (err c, t) h = refl
proceed-cong f g (panic c, t) h = refl

-- Two chains that begin alike agree if they agree behind each value that the first call may return.
pub bind-cong :
    {S A B : Type 0} (m : Action S A) (f g : A → Action S B) (s : S)
    → ((a : A) (t : S) → m s ≡ (ok a, t) → f a t ≡ g a t)
    → (m >>= f) s ≡ (m >>= g) s
bind-cong m f g s h = proceed-cong f g (m s) h

pub else-cong :
    {S A : Type 0} (b : Bool) (m f g : Action S A) (s : S)
    → f s ≡ g s
    → (if b then m else f) s ≡ (if b then m else g) s
else-cong true m f g s h = refl
else-cong false m f g s h = h

pub then-cong :
    {S A : Type 0} (b : Bool) (m f g : Action S A) (s : S)
    → f s ≡ g s
    → (if b then f else m) s ≡ (if b then g else m) s
then-cong true m f g s h = h
then-cong false m f g s h = refl

proceed-leads :
    {S A B : Type 0} (P Q : S → Type 0) (f : A → Action S B) (q : Outcome A × S)
    → P q.1
    → ((t : S) → P t → Q t)
    → ((a : A) (t : S) → P t → Q (f a t).1)
    → Q (proceed f q).1
proceed-leads P Q f (ok a, t) h stop go = go a t h
proceed-leads P Q f (err c, t) h stop go = stop t h
proceed-leads P Q f (panic c, t) h stop go = stop t h

-- Where the first call leaves `P`, the chain leaves `Q`, if `P` gives `Q` where it stops there, and
-- the rest leads from `P` to `Q`.
pub bind-leads :
    {S A B : Type 0} (P Q : S → Type 0) (m : Action S A) (f : A → Action S B) (s : S)
    → P (m s).1
    → ((t : S) → P t → Q t)
    → ((a : A) (t : S) → P t → Q (f a t).1)
    → Q ((m >>= f) s).1
bind-leads P Q m f s h stop go = proceed-leads P Q f (m s) h stop go

pub if-keeps :
    {S A : Type 0} (P : S → Type 0) (b : Bool) (f g : Action S A) (s : S)
    → P (f s).1
    → P (g s).1
    → P ((if b then f else g) s).1
if-keeps P true f g s h k = h
if-keeps P false f g s h k = k
