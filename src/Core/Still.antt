-- ===== src/Core/Still.antt =====
-- The calls of controllers/core that do not touch the object under reconciliation.
use cloudrun.Base.{ℤ, ◌≡◌, refl, Bool, String, arith, is_some}
use cloudrun.Cluster.Outcome.{Reply, got, failed, attempt, lift, or_wrap}
use cloudrun.Cluster.Client.{Cluster, Kind, Obj, job}
use cloudrun.Cluster.Crd.{Run, on_world}
use cloudrun.Cluster.Still.{bind-Still}
use cloudrun.Core.Context.{
  Context, object_key, set_owner_reference, unless_missing, create_new, create_or_replace,
  create_resource, get_sub_resource, update_existing,
}
use cloudrun.Core.Job.{delete_job, get_job}

pub unless_missing-Still :
    {W M A : Type 0} (text : String) (reply : Reply A) (s : Run W M)
    → (unless_missing text reply s).1.self ≡ s.self
unless_missing-Still text (got a) s = refl
unless_missing-Still text (failed e) s = ground arith

module _ (K : Cluster) {M : Type 0} (ctx : Context) (k : Kind) where
  pub get_sub_resource-Still :
      (round : ℤ) (s : Run K.World M) → (get_sub_resource K ctx k round s).1.self ≡ s.self
  unfolding get_sub_resource
  get_sub_resource-Still round s = ground arith

  create_or_replace-Still :
      (gvk : Kind) (obj : Obj k) (exist force update : Bool) (s : Run K.World M)
      → (create_or_replace K ctx k gvk obj exist force update s).1.self ≡ s.self
  unfolding create_or_replace create_new update_existing
  create_or_replace-Still gvk obj exist force update s = ground arith

  pub create_resource-Still :
      (obj : Obj k) (force update : Bool) (s : Run K.World M)
      → (create_resource K ctx k obj force update s).1.self ≡ s.self
  unfolding create_resource
  create_resource-Still obj force update =
      bind-Still (or_wrap "failed get shi" (lift ctx.get_owner_references)) _ (λ s. refl)
        λ owner.
          bind-Still (or_wrap _ (lift (K.gvk_for_object k))) _ (λ s. refl)
            λ gvk.
              bind-Still
                (attempt (on_world (K.get gvk (object_key (set_owner_reference obj owner))))) _
                (λ s. refl)
                λ reply.
                  bind-Still (unless_missing _ reply) _ (unless_missing-Still _ reply)
                    λ found. create_or_replace-Still gvk _ (is_some found) force update

module _ (K : Cluster) {M : Type 0} (ctx : Context) where
  pub get_job-Still : (round : ℤ) (s : Run K.World M) → (get_job K ctx round s).1.self ≡ s.self
  unfolding get_job
  get_job-Still round s = get_sub_resource-Still K ctx job round s

  pub delete_job-Still :
      (round : ℤ) (s : Run K.World M) → (delete_job K ctx round s).1.self ≡ s.self
  unfolding delete_job
  delete_job-Still round s = ground (arith, get_job-Still round s)
