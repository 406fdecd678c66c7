-- ===== src/Cluster/Still.antt =====
-- Calls that leave the object under reconciliation as it is, and change the world only.
use cloudrun.Base.{◌≡◌, refl, ◌∙◌, Bool, Option, none, some, if◌then◌else◌}
use cloudrun.Cluster.Outcome.{Action, ◌>>=◌, deref}
use cloudrun.Cluster.Bind.{bind-leads, if-keeps}
use cloudrun.Cluster.Crd.{Run}

module _ {W M : Type 0} where
  abbrev pub Still : {A : Type 0} → Action (Run W M) A → Type 0
  Still m = (s : Run W M) → (m s).1.self ≡ s.self

  pub bind-Still :
      {A B : Type 0} (m : Action (Run W M) A) (f : A → Action (Run W M) B)
      → Still m
      → ((a : A) → Still (f a))
      → Still (m >>= f)
  bind-Still m f h k s =
      bind-leads (λ t. t.self ≡ s.self) (λ t. t.self ≡ s.self) m f s (h s) (λ t e. e)
        λ a t e. k a t ∙ e

  pub if-Still :
      {A : Type 0} (b : Bool) (f g : Action (Run W M) A)
      → Still f
      → Still g
      → Still (if b then f else g)
  if-Still b f g h k s = if-keeps (λ t. t.self ≡ s.self) b f g s (h s) (k s)

  pub deref-Still : {A : Type 0} (o : Option A) → Still (deref o)
  deref-Still none s = refl
  deref-Still (some a) s = refl
