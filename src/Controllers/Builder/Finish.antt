-- ===== src/Controllers/Builder/Finish.antt =====
-- How a builder's round ends (controllers/builder_controller.go).
use cloudrun.Base.{ℤ, ltb_ℤ, ◌≡◌, refl, ap, sym, ◌∙◌, false, some, List, ◌∷◌, Dict, arith}
use cloudrun.Types.{CommonStatus, is_done, is_failed}
use cloudrun.Types as T
use cloudrun.Api.Builder as B
use cloudrun.Api.Builder.{Builder}
use cloudrun.Cluster.Outcome.{ok}
use cloudrun.Cluster.Workloads.{Job, Pod, pod_succeeded}
use cloudrun.Cluster.Client.{Cluster, IsCalm, KeepsStatus, Obj, builder}
use cloudrun.Cluster.Client as Client
use cloudrun.Cluster.Crd.{Run, builder_crd}
use cloudrun.Cluster.CrdLaws.{base_of, base_of-common_status, builder_crd-IsPointer}
use cloudrun.Core.Context.{Context, namespace, sub_name}
use cloudrun.Core.Job.{note_pod}
use cloudrun.Core.Job.Failure.{at_hook}
use cloudrun.Core.Job.Progress.{create_and_watch_job-done}
use cloudrun.Core.Publish.{publish_status-none}
use cloudrun.Core.Status.{is_done_or_failed}
use cloudrun.Build.Job.{new_job}
use cloudrun.Build.Trigger.{trigger_deployer}
use cloudrun.Controllers.Builder.{by_round, this_round, watch}
use cloudrun.Controllers.Reconcile.{no_requeue}

pub same-ltb : (a b : ℤ) → a ≡ b → ltb_ℤ a b ≡ false
same-ltb a b h = ground arith

module _ (K : Cluster) (L : IsCalm K) (F : KeepsStatus K) (ctx : Context) where
  abbrev base_status : Run K.World (Obj builder) → T.Status
  base_status s = (base_of K builder builder_crd builder_crd-IsPointer s).status

  this_round-done :
      (s t : Run K.World (Obj builder))
      → watch K ctx s ≡ (ok tt, t)
      → base_status t ≡ T.done
      → (u : Run K.World (Obj builder)) × (this_round K ctx s ≡ (ok no_requeue, u))
        × (base_status u ≡ T.done)
  unfolding this_round is_done_or_failed
  this_round-done s t watched done =
      let (u, e, same) = publish_status-none K L F builder builder_crd builder_crd-IsPointer t in
      let still : base_status u ≡ T.done = ap (λ b. b.status) same ∙ done in
      rw (watched, e, still)
        (
          _,
          refl,
          ap (λ b. b.status) (base_of-common_status K builder builder_crd builder_crd-IsPointer u)
              ∙ still,
        )

  -- A builder whose round is that of its status, and which is not done: where the server answers and
  -- has the round's job, the first of the job's pods has succeeded, and the hooks trigger their
  -- deployers without an error from the state in which they run, one reconciliation behind the
  -- finalizer returns without an error, leaves the builder done, and asks for no other.
  pub by_round-done :
      (o : Builder) (base : CommonStatus) (j : Job) (labels : Dict) (p : Pod) (ps : List Pod)
      (w v x : K.World) (t : Run K.World (Obj builder))
      → base.current_round ≡ o.spec.round
      → is_done base.status ≡ false
      → K.get Client.job
          (record { name = sub_name ctx (B.get_round o.spec); namespace = namespace ctx })
          w
        ≡ (ok j, v)
      → j.spec.selector ≡ some labels
      → K.list_pods labels v ≡ (ok (p ∷ ps), x)
      → p.status.phase ≡ pod_succeeded
      → trigger_deployer K (
          at_hook K builder builder_crd builder_crd-IsPointer ctx
            (note_pod K builder builder_crd ctx
              (some p)
              (record { world = x; self = record o { status = record { base = some base } } })).1)
        ≡ (ok tt, t)
      → (u : Run K.World (Obj builder)) × (by_round K ctx
            (record { world = w; self = record o { status = record { base = some base } } })
          ≡ (ok no_requeue, u))
        × (base_status u ≡ T.done)
  unfolding by_round watch B.common_status
  by_round-done o base j labels p ps w v x t round fresh there has listed ended works =
      let s : Run K.World (Obj builder) = record {
        world = w;
        self = record o { status = record { base = some base } };
      } in
      let (t', watched, done, _) =
        create_and_watch_job-done K builder builder_crd builder_crd-IsPointer ctx
          (trigger_deployer K) (new_job K ctx) j labels p ps v x s t there has listed ended fresh
          works in
      let before = same-ltb base.current_round o.spec.round round in
      let behind = same-ltb o.spec.round base.current_round (sym round) in
      rw (before, behind) (this_round-done s t' watched done)
