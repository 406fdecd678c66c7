-- ===== src/Controllers/Pool.antt =====
-- controllers/resourcepool_controller.go
pub mod Account
pub mod Panic
use cloudrun.Base.{pos, ◌+ℤ◌, ◌-ℤ◌, i32, ltb_ℤ, Bool, some, List, [], ◌∷◌, if◌then◌else◌}
use cloudrun.Types.{NamespacedName, Resource}
use cloudrun.Api.ResourcePool.{ResourceUsage}
use cloudrun.Cluster.Outcome.{
  Outcome, Action, deref, fail, gets, modify, new_error, or_wrap, pure, ◌>>=◌, ◌>>◌,
}
use cloudrun.Cluster.Client.{Cluster, resource_pool}
use cloudrun.Cluster.Crd.{Reconciling, update_self, update_self_status}
use cloudrun.Finalize
use cloudrun.Controllers.Reconcile.{
  Result, ensure_finalizer, is_deleted, no_requeue, reconcile_with, requeue,
}

-- The loop that sums the usages, in int32.
unfoldable pub sum_usage : {S : Type 0} → List ResourceUsage → Resource → Action S Resource
sum_usage [] used = pure used
sum_usage (u ∷ us) used = do
  r ← deref u.resource
  sum_usage us (record { cpu = i32 (used.cpu +ℤ r.cpu); memory = i32 (used.memory +ℤ r.memory) })

abbrev pub is_unused : List ResourceUsage → Bool
is_unused [] = Bool.true
is_unused (_ ∷ _) = Bool.false

abbrev pub zero_resource : Resource
zero_resource = record { cpu = pos 0; memory = pos 0 }

-- `Status.Free = Spec.Capacity - used`
unfoldable pub free_of : Resource → Resource → Resource
free_of capacity used = record {
  cpu = i32 (capacity.cpu -ℤ used.cpu);
  memory = i32 (capacity.memory -ℤ used.memory);
}

module _ (K : Cluster) where
  abbrev pub Pooling : Type 0 → Type 0
  Pooling A = Reconciling K resource_pool A

  unfoldable pub finalize_pool : Pooling Result
  finalize_pool = do
    p ← gets (λ s. s.self)
    if Finalize.contains K p
        then (if is_unused p.status.usage
            then (do
              modify λ s. record s { self = Finalize.remove K s.self }
              or_wrap "failed to update resourcePool" (update_self K resource_pool)
              pure no_requeue)
            else pure (requeue 10))
        else pure no_requeue

  -- What is free must not be negative.
  unfoldable pub check_free : Resource → Pooling (Unit {0})
  check_free free =
      if ltb_ℤ free.cpu (pos 0)
      then fail (new_error "CPU usage is not enough")
      else if ltb_ℤ free.memory (pos 0)
      then fail (new_error "Memory usage is not enough")
      else pure tt

  unfoldable pub account : Pooling Result
  account = do
    p ← gets (λ s. s.self)
    used ← sum_usage p.status.usage zero_resource
    capacity ← deref p.spec.capacity
    let free = free_of capacity used
    modify λ s. record s {
      self = record s.self { status = record s.self.status { free = some free } };
    }
    check_free free
    update_self_status K resource_pool
    pure no_requeue

  unfoldable pub reconcile_found : Pooling Result
  reconcile_found = do
    deleted ← gets is_deleted
    if deleted
        then finalize_pool
        else (do ensure_finalizer K resource_pool "failed to update resourcePool"; account)

  -- There is no deferred recovery here.
  unfoldable pub reconcile : NamespacedName → K.World → Outcome Result × K.World
  reconcile = reconcile_with K resource_pool "failed to get ResourcePool" reconcile_found
