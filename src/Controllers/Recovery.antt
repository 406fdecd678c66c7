-- ===== src/Controllers/Recovery.antt =====
-- The deferred recovery of the reconcilers (controllers/*_controller.go).
use cloudrun.Base.{◌≡◌, refl, String, false, Option, some, arith}
use cloudrun.Types.{NamespacedName}
use cloudrun.Cluster.Outcome.{Outcome, ok, err, panic, is_panic, Error}
use cloudrun.Cluster.Client.{Cluster, IsCalm, Kind, Obj, builder, deployer, workflow}
use cloudrun.Cluster.Crd.{
  Crd, Run, Reconciling, set_status, builder_crd, deployer_crd, workflow_crd,
}
use cloudrun.Core.Status.{note_error, publish_status}
use cloudrun.Controllers.Reconcile.{Result, on_found, reconcile_with, recovered}
use cloudrun.Controllers.Builder as BuilderController
use cloudrun.Controllers.Deployer as DeployerController
use cloudrun.Controllers.Workflow as WorkflowController

module _ (K : Cluster) (L : IsCalm K) where
  module _ (k : Kind) (C : Crd k) where
    publish_status-is_panic :
        (e : Option Error) (s : Run K.World (Obj k)) → is_panic (publish_status K k C e s).0 ≡ false
    unfolding publish_status
    publish_status-is_panic e s =
        let t = (set_status K k C (note_error e) s).1 in
        ground (arith, L.update_status-is_panic k t.self t.world)

    recovered-is_panic :
        (m : Reconciling K k Result) (s : Run K.World (Obj k))
        → is_panic (recovered K k C m s).0 ≡ false
    unfolding recovered
    recovered-is_panic m s = by_result (m s)
      where
        by_result :
            (q : Outcome Result × Run K.World (Obj k))
            → is_panic (recovered K k C (λ _. q) s).0 ≡ false
        by_result (ok a, t) = refl
        by_result (err e, t) = refl
        by_result (panic e, t) = ground (arith, publish_status-is_panic (some e) t)

    reconcile_with-is_panic :
        (text : String) (m : Reconciling K k Result) (req : NamespacedName) (w : K.World)
        → ((s : Run K.World (Obj k)) → is_panic (m s).0 ≡ false)
        → is_panic (reconcile_with K k text m req w).0 ≡ false
    unfolding reconcile_with
    reconcile_with-is_panic text m req w h = by_lookup (K.get k req w) (L.get-is_panic k req w)
      where
        by_lookup :
            (q : Outcome (Obj k) × K.World)
            → is_panic q.0 ≡ false
            → is_panic (on_found text m q).0 ≡ false
        by_lookup (ok o, v) calm = h (record { world = v; self = o })
        by_lookup (err e, v) calm = ground arith
        by_lookup (panic e, v) calm = cc

  -- Over a server whose lookups and status writes report what goes wrong as an error: whatever
  -- panics on the way with an error as its value, the `Reconcile` of a builder, of a deployer and of a
  -- workflow returns.
  pub reconcile-is_panic :
      (req : NamespacedName) (w : K.World)
      → (is_panic (BuilderController.reconcile K req w).0 ≡ false)
        × (is_panic (DeployerController.reconcile K req w).0 ≡ false)
        × (is_panic (WorkflowController.reconcile K req w).0 ≡ false)
  unfolding BuilderController.reconcile DeployerController.reconcile WorkflowController.reconcile
  reconcile-is_panic req w = (
    reconcile_with-is_panic builder builder_crd "failed to get builder" _ req w
        (λ s. recovered-is_panic builder builder_crd _ s),
    reconcile_with-is_panic deployer deployer_crd "failed to get deployer" _ req w
        (λ s. recovered-is_panic deployer deployer_crd _ s),
    reconcile_with-is_panic workflow workflow_crd "failed to get workflow" _ req w
        (λ s. recovered-is_panic workflow workflow_crd _ s),
  )
