-- ===== src/Store.antt =====
-- The API server as a store of objects by kind and name: what the documentation says of the calls of
-- a client that reads from the server, with no other writer between the calls of one run, and with no
-- object that waits for its deletion (a deletion takes effect at once).
pub mod Others
pub mod Create
pub mod Trigger
pub mod Unhooked
pub mod Hooks
pub mod Generate
pub mod Workload
pub mod Delivery
pub mod Cleanup
pub mod Share
pub mod Overrun
pub mod Touched
pub mod Restart
pub mod Reconcile
pub mod Made
pub mod Start
pub mod Finish
pub mod Pod
pub mod Sets
pub mod Launch
pub mod Round
pub mod Service
pub mod Worked
use cloudrun.Base.{
  ◌≡◌, ◌≢◌, ◌⊎◌, inl, inr, String, Dict, Bool, true, false, Option, none, some, ℤ, List, ◌∷◌,
}
use cloudrun.Types.{NamespacedName}
use cloudrun.Api.Builder.{BuilderSpec}
use cloudrun.Api.Deployer.{ContainerSpec, Deployer, DeployerSpec, DeployerStatus}
use cloudrun.Api.Schema.{default_builder, default_deployer}
use cloudrun.Cluster.Workloads.{ServiceSpec}
use cloudrun.Cluster.Outcome.{Error, ok, err, is_not_found}
use cloudrun.Cluster.Client.{Cluster, Kind, Obj, Spec, builder, deployer, service}
use cloudrun.Core.Context.{object_key}

abbrev pub Objects : Type 0
Objects = (k : Kind) → NamespacedName → Option (Obj k)

-- All objects but that of one kind and name are as they were.
abbrev pub KeepsOthers : Objects → Objects → Kind → NamespacedName → Type 0
KeepsOthers before after k n =
    (j : Kind) (m : NamespacedName) → (after j m ≡ before j m) ⊎ ((j ≡ k) × (m ≡ n))

-- One object was written: it has a spec, and no other has changed.
pub record Wrote (before after : Objects) (k : Kind) (n : NamespacedName) (spec : Spec k)
    : Type 0 where
  pub stored : Obj k
  pub there : after k n ≡ some stored
  pub same_spec : stored.spec ≡ spec
  pub others : KeepsOthers before after k n

pub record IsStore (K : Cluster) : Type 1 where
  pub objects : K.World → Objects
  -- What the server makes of a spec: it sets some of what is left out. Of the builders and the
  -- deployers, that is what the schema says; the selector of a service is none of it.
  pub fill : (k : Kind) → Spec k → Spec k
  pub fill-builder : (spec : BuilderSpec) → fill builder spec ≡ default_builder spec
  pub fill-deployer : (spec : DeployerSpec) → fill deployer spec ≡ default_deployer spec
  pub fill-selector : (spec : ServiceSpec) → (fill service spec).selector ≡ spec.selector
  -- Whether the server admits an object, in place of the stored one, if there is one: its schema,
  -- and the checks of its kind.
  pub admits : (k : Kind) → Option (Obj k) → Obj k → Bool
  -- A deployer that is stored was admitted; the schema asks nothing of the round, of the image of a
  -- container, of the pool and of the status, and the rest may stay.
  pub admits-deployer :
      (w : K.World) (n : NamespacedName) (d : Deployer) (c : ContainerSpec)
      (cs : List ContainerSpec) (round : ℤ) (image pool : String) (status : DeployerStatus)
      → objects w deployer n ≡ some d
      → d.spec.containers ≡ c ∷ cs
      → admits deployer (some d) (record d {
        spec = record d.spec {
          round = round;
          containers = record c { image = image } ∷ cs;
          resource_pool = pool;
        };
        status = status;
      })
        ≡ true
  -- An object is stored under its own name.
  pub objects-key :
      (k : Kind) (n : NamespacedName) (w : K.World) (o : Obj k)
      → objects w k n ≡ some o
      → object_key o ≡ n
  -- A lookup answers with what is stored, or that nothing is.
  pub get-some :
      (k : Kind) (n : NamespacedName) (w : K.World) (o : Obj k)
      → objects w k n ≡ some o
      → K.get k n w ≡ (ok o, w)
  pub get-none :
      (k : Kind) (n : NamespacedName) (w : K.World)
      → objects w k n ≡ none
      → (e : Error) × (is_not_found e ≡ true) × (K.get k n w ≡ (err e, w))
  -- An object that is stored is updated, if it is admitted and the resource version is that of the
  -- stored one.
  pub update-some :
      (k : Kind) (o p : Obj k) (w : K.World)
      → objects w k (object_key o) ≡ some p
      → o.meta.resource_version ≡ p.meta.resource_version
      → admits k (some p) o ≡ true
      → (q : Obj k) × (v : K.World) × (K.update k o w ≡ (ok q, v))
        × Wrote (objects w) (objects v) k (object_key o) (fill k o.spec)
  pub create-none :
      (k : Kind) (o : Obj k) (w : K.World)
      → objects w k (object_key o) ≡ none
      → admits k none o ≡ true
      → (q : Obj k) × (v : K.World) × (K.create k o w ≡ (ok q, v))
        × Wrote (objects w) (objects v) k (object_key o) (fill k o.spec)
  pub delete-some :
      (k : Kind) (o p : Obj k) (w : K.World)
      → objects w k (object_key o) ≡ some p
      → (v : K.World) × (K.delete k o w ≡ (ok tt, v))
        × (objects v k (object_key o) ≡ none)
        × KeepsOthers (objects w) (objects v) k (object_key o)
  -- The status of an object that is stored as given but for its status is written, and answered.
  pub update_status-some :
      (k : Kind) (o p : Obj k) (w : K.World)
      → objects w k (object_key o) ≡ some p
      → o.meta.resource_version ≡ p.meta.resource_version
      → o.spec ≡ p.spec
      → (q : Obj k) × (v : K.World) × (K.update_status k o w ≡ (ok q, v))
        × (objects v k (object_key o) ≡ some q)
        × (q.status ≡ o.status)
        × (q.spec ≡ o.spec)
        × KeepsOthers (objects w) (objects v) k (object_key o)
  -- Of the header, a write of the status changes the resource version alone.
  pub update_status-meta :
      (k : Kind) (o p q : Obj k) (w v : K.World)
      → objects w k (object_key o) ≡ some p
      → o.meta ≡ p.meta
      → K.update_status k o w ≡ (ok q, v)
      → (version : String) × (q.meta ≡ record p.meta { resource_version = version })
  -- An object is registered under its own kind; a new UUID, the order of a map and the time are not the
  -- server's.
  pub gvk_for_object-self : (k : Kind) → K.gvk_for_object k ≡ ok k
  pub objects-new_uuid : (w : K.World) → objects (K.new_uuid w).1 ≡ objects w
  pub objects-range_map : (d : Dict) (w : K.World) → objects (K.range_map d w).1 ≡ objects w
  pub objects-now : (w : K.World) → objects (K.now w).1 ≡ objects w
