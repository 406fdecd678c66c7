-- ===== src/Controllers/Reconcile.antt =====
-- The parts that the reconcilers in controllers/*_controller.go have in common: the lookup of the
-- object, the deferred recovery from a panic, and the finalizer.
use cloudrun.Base.{ℕ, String, Bool, some, is_some, if◌then◌else◌}
use cloudrun.Types.{NamespacedName}
use cloudrun.Api.Meta.{Object}
use cloudrun.Cluster.Outcome.{
  Outcome, ok, err, panic, is_not_found, wrap_error, Action, pure, done, gets, modify, or_wrap,
  ◌>>=◌, ◌>>◌,
}
use cloudrun.Cluster.Client.{Kind, Cluster}
use cloudrun.Cluster.Crd.{Crd, Run, Reconciling, update_self}
use cloudrun.Core.Status.{publish_status}
use cloudrun.Finalize

-- `ctrl.Result`, the delay in seconds. With an error the runtime does not read it, so an error
-- stands for both.
pub record Result : Type 0 where
  pub requeue_after : ℕ

abbrev pub no_requeue : Result
no_requeue = record { requeue_after = 0 }

abbrev pub requeue : ℕ → Result
requeue n = record { requeue_after = n }

-- The deferred function: a panic is published as a failure, and since the results have no names,
-- `Reconcile` returns their zero values then. The function asserts that the value of the panic is an
-- error. All panics of the model have such a value, as those of the Go runtime and of
-- `resource.MustParse` do; another value would panic again.
unfoldable pub recovered :
    (K : Cluster) (k : Kind) → Crd k → Reconciling K k Result → Reconciling K k Result
recovered K k C m s =
    let (r, s') = m s in
    elim r [
      | ok a ↦ (ok a, s')
      | err e ↦ (err e, s')
      | panic e ↦ (publish_status K k C (some e) >> pure no_requeue) s'
    ]

abbrev pub on_found :
    {W M : Type 0} → String → Action (Run W M) Result → Outcome M × W → Outcome Result × W
on_found text m (ok o, w) = let (r, s) = m (record { world = w; self = o }) in (r, s.world)
on_found text m (err e, w) =
    if is_not_found e then (ok no_requeue, w) else (err (wrap_error text e), w)
on_found text m (panic e, w) = (panic e, w)

module _ (K : Cluster) (k : Kind) where
  -- An object that is not there needs nothing.
  unfoldable pub reconcile_with :
      String → Reconciling K k Result → NamespacedName → K.World → Outcome Result × K.World
  reconcile_with text m req w = on_found text m (K.get k req w)

  -- An object that is to be deleted: what remains to be done, and then the finalizer goes.
  unfoldable pub finalized : String → Reconciling K k (Unit {0}) → String → Reconciling K k Result
  finalized finalize_text finalize update_text = do
    o ← gets (λ s. s.self)
    if Finalize.contains K o
        then (do
          or_wrap finalize_text finalize
          modify λ s. record s { self = Finalize.remove K s.self }
          or_wrap update_text (update_self K k)
          pure no_requeue)
        else pure no_requeue

  -- An object without the finalizer gets it first.
  unfoldable pub ensure_finalizer : String → Reconciling K k (Unit {0})
  ensure_finalizer update_text = do
    o ← gets (λ s. s.self)
    if Finalize.contains K o then done else (do
      modify λ s. record s { self = Finalize.add K s.self }
      or_wrap update_text (update_self K k))

abbrev pub is_deleted : {W S T : Type 0} → Run W (Object S T) → Bool
is_deleted s = is_some s.self.meta.deletion_timestamp
