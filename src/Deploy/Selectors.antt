-- ===== src/Deploy/Selectors.antt =====
-- Which pods the service of a round leads to (controllers/deploy, controllers/core/context.go).
use cloudrun.Base.{
  ℕ, pos, ◌≡◌, refl, sym, ◌↔◌, String, ◌===◌, eq_iff, eq_refl, show_int, show_ℕ, show_ℕ-injective,
  Bool, true, false, ◌&&◌, Option, none, some, [], ◌∷◌, Dict, lookup, arith,
}
use cloudrun.Cluster.Client.{Cluster}
use cloudrun.Core.Context.{Context, get_service_labels, name, new_object_meta}
use cloudrun.Deploy.Template.{pod_meta}

abbrev pub has_label : Option Dict → String → String → Bool
has_label none k v = false
has_label (some d) k v = elim (lookup k d) [ none ↦ false | some w ↦ w === v ]

-- Does a pod with these labels fit the selector? Each of its pairs is a label.
abbrev pub selects : Dict → Option Dict → Bool
selects [] labels = true
selects ((k, v) ∷ sel) labels = has_label labels k v && selects sel labels

module _ (K : Cluster) (ctx : Context) where
  show_int-eq : (n m : ℕ) → (show_int (pos m) === show_int (pos n)) ≡ true → n ≡ m
  unfolding show_int
  show_int-eq n m h = sym (show_ℕ-injective m n ((eq_iff (show_ℕ m) (show_ℕ n)).0 h))

  -- The selector of a service in a round (not negative) fits the pods that the deployer makes for a
  -- service in that same round, and no others of its pods: neither those of other rounds nor those
  -- of a job.
  pub get_service_labels-selects :
      (n m : ℕ) (is_service : Bool)
      → (selects (get_service_labels ctx (pos n)) (pod_meta K ctx is_service (pos m)).labels ≡ true)
        ↔ ((n ≡ m) × (is_service ≡ true))
  unfolding get_service_labels new_object_meta
  get_service_labels-selects n m true = (
    (λ h. (show_int-eq n m (ground (arith, eq_refl (name ctx))), refl)),
    λ h. rw (h.0, eq_refl (name ctx), eq_refl (show_int (pos m))) refl,
  )
  get_service_labels-selects n m false = ((λ h. ground arith), λ h. ground arith)
