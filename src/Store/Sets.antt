-- ===== src/Store/Sets.antt =====
-- The StatefulSet of a service (controllers/deploy/service.go), and the calls that make it, one after the
-- other.
use cloudrun.Base.{ℤ, pos, ◌≡◌, ◌≢◌, ◌⊎◌, refl, ap, ◌∙◌, inl, inr, true, false, some, none}
use cloudrun.Types.{CommonStatus, NamespacedName, pending}
use cloudrun.Api.Meta.{no_type}
use cloudrun.Api.Deployer.{ContainerSpec, Deployer, common_status, is_service}
use cloudrun.Api.Deployer as D
use cloudrun.Cluster.Outcome.{Error, ok, err, is_not_found}
use cloudrun.Cluster.Workloads.{PodTemplateSpec, StatefulSet}
use cloudrun.Cluster.Client.{Cluster, Kind, deployer, stateful_set}
use cloudrun.Cluster.Crd.{deployer_crd}
use cloudrun.Core.Context.{
  Context, create_resource, get_service_labels, get_sub_resource, new_object_meta, object_key,
}
use cloudrun.Core.Job.Progress.{and-false}
use cloudrun.Core.Status.{is_done_or_failed, publish_status}
use cloudrun.Controllers.Deployer.{this_round}
use cloudrun.Controllers.Reconcile.{requeue}
use cloudrun.Deploy.Handle.{handle, handle_type}
use cloudrun.Deploy.Names.{current_round}
use cloudrun.Deploy.Service.{create_stateful_set, handle_service, start_service}
use cloudrun.Deploy.Template.{new_pod_spec}
use cloudrun.Store.{IsStore, KeepsOthers, Objects}
use cloudrun.Store.Cleanup.{round_key}
use cloudrun.Store.Pod.{at}

pub deployer-ne-stateful_set : deployer ≢ stateful_set
deployer-ne-stateful_set h = cc

-- The StatefulSet that a service sends to the server.
abbrev pub set_of : Context → ℤ → PodTemplateSpec → StatefulSet
set_of ctx round pod = record {
  type_meta = no_type;
  meta = new_object_meta ctx round;
  spec = record {
    replicas = some (pos 1);
    selector = some (get_service_labels ctx round);
    template = pod;
  };
  status = tt;
}

pub set_of-key :
    (ctx : Context) (round : ℤ) (pod : PodTemplateSpec)
    → object_key (set_of ctx round pod) ≡ round_key ctx round
unfolding new_object_meta
set_of-key ctx round pod = refl

-- Writes to a deployer, a StatefulSet, and the deployer again.
pub touched :
    (a b c d : Objects) (n n' : NamespacedName)
    → KeepsOthers a b deployer n
    → KeepsOthers b c stateful_set n'
    → KeepsOthers c d deployer n
    → (j : Kind) (m : NamespacedName)
    → (d j m ≡ a j m) ⊎ ((j ≡ deployer) × (m ≡ n)) ⊎ ((j ≡ stateful_set) × (m ≡ n'))
touched a b c d n n' first second third j m = elim (third j m) [
  | inl same'' ↦ elim (second j m) [
    | inl same' ↦ elim (first j m) [
      | inl same ↦ inl (same'' ∙ same' ∙ same)
      | inr it ↦ inr (inl it)
    ]
    | inr it ↦ inr (inr it)
  ]
  | inr it ↦ inr (inl it)
]

module _ (K : Cluster) (S : IsStore K) (ctx : Context) (o : Deployer) (base : CommonStatus)
    (w : K.World) where
  abbrev pub waits : CommonStatus
  waits = record base { status = pending }

  pub handle-steps :
      (e : Error) (q : Deployer) (v u x : K.World) (pod : PodTemplateSpec)
      → K.get stateful_set (round_key ctx base.current_round) w ≡ (err e, w)
      → is_not_found e ≡ true
      → publish_status K deployer deployer_crd none (at K S w o waits) ≡ (ok tt, at K S v q waits)
      → new_pod_spec K ctx true (at K S v q waits) ≡ (ok pod, at K S u q waits)
      → create_resource K ctx stateful_set
          (set_of ctx base.current_round pod)
          true
          false
          (at K S u q waits)
        ≡ (ok tt, at K S x q waits)
      → handle_service K ctx (at K S w o base) ≡ (ok tt, at K S x q waits)
  unfolding handle_service start_service create_stateful_set current_round get_sub_resource
      common_status
  handle-steps e q v u x pod looked missing published made created =
      rw (looked, missing, published, made, created) refl

  pub this_round-steps :
      (q r : Deployer) (x y : K.World)
      → o.spec.type ≡ D.service
      → handle_service K ctx (at K S w o base) ≡ (ok tt, at K S x q waits)
      → publish_status K deployer deployer_crd none (at K S x q waits) ≡ (ok tt, at K S y r waits)
      → this_round K ctx (at K S w o base) ≡ (ok (requeue 5), at K S y r waits)
  unfolding this_round handle handle_type is_done_or_failed common_status
  this_round-steps q r x y service handled published =
      let ran : handle K ctx (at K S w o base) ≡ (ok tt, at K S x q waits) =
        ap (λ t. handle_type K ctx t (at K S w o base)) service ∙ handled in
      rw (ran, published, and-false (is_service r.spec.type)) refl
