-- ===== src/Controllers/Builder/Requeue.antt =====
-- When a builder is looked at again (controllers/builder_controller.go).
use cloudrun.Base.{◌≡◌, ap, Bool, ◌||◌, arith, if◌then◌else◌}
use cloudrun.Types.{is_done, is_failed}
use cloudrun.Cluster.Outcome.{ok, pure}
use cloudrun.Cluster.Client.{Cluster, IsCalm, KeepsStatus, Obj, builder}
use cloudrun.Cluster.Crd.{Run, builder_crd}
use cloudrun.Cluster.CrdLaws.{base_of, builder_crd-IsPointer}
use cloudrun.Core.Context.{Context}
use cloudrun.Core.Publish.{publish_status-none}
use cloudrun.Core.Status.{is_done_or_failed}
use cloudrun.Controllers.Builder.{this_round, watch}
use cloudrun.Controllers.Reconcile.{Result, no_requeue, requeue}

-- Both answers come without an error.
if-pure :
    {W : Type 0} (a b : Bool) (x y : Result) (w : W)
    → a ≡ b
    → ((if a then pure x else pure y) w).0 ≡ ok (if b then x else y)
if-pure a b x y w same = ground arith

module _ (K : Cluster) (L : IsCalm K) (F : KeepsStatus K) (ctx : Context)
    (s : Run K.World (Obj builder)) where
  -- Over a server that answers: a builder in its round whose job was watched without an error is
  -- looked at again, in five seconds, exactly as long as it is neither done nor failed.
  pub this_round-requeues :
      (t : Run K.World (Obj builder))
      → watch K ctx s ≡ (ok tt, t)
      → let status = (base_of K builder builder_crd builder_crd-IsPointer t).status in
        (this_round K ctx s).0
        ≡ ok (if is_done status || is_failed status then no_requeue else requeue 5)
  unfolding this_round is_done_or_failed
  this_round-requeues t watched =
      let (u, e, same) = publish_status-none K L F builder builder_crd builder_crd-IsPointer t in
      rw (watched, e)
        (if-pure _ _ no_requeue (requeue 5) _
          (ap (λ b. is_done b.status || is_failed b.status) same))
