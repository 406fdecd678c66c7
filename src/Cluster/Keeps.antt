-- ===== src/Cluster/Keeps.antt =====
-- Calls after which the object's current round is what it was.
use cloudrun.Base.{ℤ, ◌≡◌, refl, ap, ◌∙◌, Bool, String, if◌then◌else◌}
use cloudrun.Types.{CommonStatus}
use cloudrun.Cluster.Outcome.{Outcome, ok, err, panic, ◌>>=◌, attempt, or_wrap, pure, lift, gets}
use cloudrun.Cluster.Client.{Cluster, Kind, Obj, KeepsStatus}
use cloudrun.Cluster.Bind.{bind-leads, if-keeps}
use cloudrun.Cluster.Crd.{
  Crd, Run, Reconciling, sample, common_status, set_status, update_self_status,
}
use cloudrun.Cluster.CrdLaws.{IsPointer, base_of, base_of-common_status, base_of-set_status}
use cloudrun.Cluster.Still.{Still}

module _ (K : Cluster) (k : Kind) (C : Crd k) where
  abbrev pub round_of : Run K.World (Obj k) → ℤ
  round_of s = (C.common_status s.self.status).1.current_round

  unfoldable pub Keeps : {A : Type 0} → Reconciling K k A → Type 0
  Keeps m = (s : Run K.World (Obj k)) → round_of (m s).1 ≡ round_of s

  pub bind-Keeps :
      {A B : Type 0} (m : Reconciling K k A) (f : A → Reconciling K k B)
      → Keeps m
      → ((a : A) → Keeps (f a))
      → Keeps (m >>= f)
  unfolding Keeps
  bind-Keeps m f h g s =
      bind-leads (λ t. round_of t ≡ round_of s) (λ t. round_of t ≡ round_of s) m f s (h s)
        (λ t e. e) λ a t e. g a t ∙ e

  pub if-Keeps :
      {A : Type 0} (b : Bool) (f g : Reconciling K k A)
      → Keeps f
      → Keeps g
      → Keeps (if b then f else g)
  unfolding Keeps
  if-Keeps b f g h j s = if-keeps (λ t. round_of t ≡ round_of s) b f g s (h s) (j s)

  pub Still-Keeps : {A : Type 0} (m : Reconciling K k A) → Still m → Keeps m
  unfolding Keeps
  Still-Keeps m h s = ap (λ o. (C.common_status o.status).1.current_round) (h s)

  pub pure-Keeps : {A : Type 0} (a : A) → Keeps (pure a)
  pure-Keeps a = Still-Keeps (pure a) (λ s. refl)

  pub lift-Keeps : {A : Type 0} (o : Outcome A) → Keeps (lift o)
  lift-Keeps o = Still-Keeps (lift o) (λ s. refl)

  pub gets-Keeps : {A : Type 0} (f : Run K.World (Obj k) → A) → Keeps (gets f)
  gets-Keeps f = Still-Keeps (gets f) (λ s. refl)

  pub sample-Keeps : {A : Type 0} (f : K.World → A × K.World) → Keeps (sample f)
  sample-Keeps f = Still-Keeps (sample f) (λ s. refl)

  pub attempt-Keeps : {A : Type 0} (m : Reconciling K k A) → Keeps m → Keeps (attempt m)
  unfolding Keeps
  attempt-Keeps m h = h

  pub or_wrap-Keeps :
      {A : Type 0} (text : String) (m : Reconciling K k A) → Keeps m → Keeps (or_wrap text m)
  unfolding Keeps
  or_wrap-Keeps text m h = h

  module _ (P : IsPointer C) where
    pub common_status-Keeps : Keeps (common_status K k C)
    unfolding Keeps
    common_status-Keeps s = ap (λ b. b.current_round) (base_of-common_status K k C P s)

    pub set_status-Keeps :
        (f : CommonStatus → CommonStatus)
        → ((b : CommonStatus) → (f b).current_round ≡ b.current_round)
        → Keeps (set_status K k C f)
    unfolding Keeps
    set_status-Keeps f h s =
        ap (λ b. b.current_round) (base_of-set_status K k C P f s) ∙ h (base_of K k C P s)

  module _ (F : KeepsStatus K) where
    answered :
        (s : Run K.World (Obj k)) (q : Outcome (Obj k) × K.World)
        → K.update_status k s.self s.world ≡ q
        → round_of (update_self_status K k s).1 ≡ round_of s
    answered s (ok o, w) e = rw e (
        ap (λ t. (C.common_status t).1.current_round)
          (F.update_status-status k s.self o s.world w e))
    answered s (err c, w) e = rw e
    answered s (panic c, w) e = rw e

    pub update_self_status-Keeps : Keeps (update_self_status K k)
    unfolding Keeps
    update_self_status-Keeps s = answered s (K.update_status k s.self s.world) refl
