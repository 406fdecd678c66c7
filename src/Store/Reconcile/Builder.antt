-- ===== src/Store/Reconcile/Builder.antt =====
-- `Reconcile` of a builder (controllers/builder_controller.go) as a whole, over a store.
use cloudrun.Base.{◌≡◌, true, false, is_empty, is_some, ltb_ℤ, String, some}
use cloudrun.Types.{CommonStatus}
use cloudrun.Api.Builder.{Builder}
use cloudrun.Cluster.Outcome.{ok}
use cloudrun.Cluster.Client.{Cluster, builder}
use cloudrun.Cluster.Crd.{Run}
use cloudrun.Finalize
use cloudrun.Build.Names as Build
use cloudrun.Controllers.Reconcile.{requeue}
use cloudrun.Controllers.Builder as BuilderController
use cloudrun.Core.Archive.{history_of}
use cloudrun.Core.Context.{object_key}
use cloudrun.Api.Deployer.{Deployer}
use cloudrun.Store.{IsStore}
use cloudrun.Store.Round as Round
use cloudrun.Store.Round.{Begun, by_round-Begun}
use cloudrun.Store.Reconcile.{builder-by_round}

-- A builder over a store that has it, where it has the finalizer and is not to be deleted, its round is
-- older than its spec's, and the marshalling of the old round's history gives a text that is not
-- empty. Its Reconcile succeeds and asks for another; the job of the old round is gone, whether it was
-- there or not; the stored builder has the spec as it was, and the status of the spec's round,
-- pending, with that text behind its history, or none if the old round was 0; no other object is
-- touched.
pub reconcile-Begun :
    (K : Cluster) (S : IsStore K) (w : K.World) (o : Builder) (base : CommonStatus) (text : String)
    (marshalled : K.marshal builder (history_of o.spec base) ≡ ok text)
    (full : is_empty text ≡ false)
    (there : S.objects w builder (object_key o) ≡ some (Round.with_base o base))
    → is_some o.meta.deletion_timestamp ≡ false
    → Finalize.contains K o ≡ true
    → ltb_ℤ base.current_round o.spec.round ≡ true
    → (t : Run K.World Builder) × (BuilderController.reconcile K (object_key o) w
        ≡ (ok (requeue 5), t.world))
      × Begun K o base text marshalled full S (Build.new_context o) w there t
unfolding Build.new_context
reconcile-Begun K S w o base text marshalled full there stays held ahead =
    let (t, done, begun) =
      by_round-Begun K o base text marshalled full S (Build.new_context o) w there ahead in
    (
      t,
      builder-by_round K S (object_key o) w (requeue 5) (Round.with_base o base) t there stays held
          done,
      begun,
    )
