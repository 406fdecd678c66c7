-- ===== src/Deploy/Resources.antt =====
-- controllers/deploy/deployer.go, `ReleaseResource` and `BegResource`: a deployer's entry in the
-- usage list of a resource pool.
use cloudrun.Base.{
  Bool, ℕ, ◌+◌, pos, ◌+ℤ◌, i32, ltb_ℤ, String, ◌===◌, is_empty, ◌&&◌, ◌||◌, Option, none, some,
  List, [], ◌∷◌, ◌++◌, take, drop, if◌then◌else◌,
}
use cloudrun.Types.{NamespacedName, Resource, failed}
use cloudrun.Api.Meta.{TypeMeta}
use cloudrun.Api.Deployer.{ContainerSpec, Deployer}
use cloudrun.Api.ResourcePool.{ResourcePool, ResourceUsage}
use cloudrun.Cluster.Outcome.{
  Outcome, ok, panic, Action, new_error, nil_pointer, pure, fail, gets, modify, deref, lift, done,
  or_wrap, ◌>>=◌, ◌>>◌,
}
use cloudrun.Cluster.Client.{Cluster, deployer, resource_pool}
use cloudrun.Cluster.Crd.{Run, deployer_crd, on_world, set_status}
use cloudrun.Deploy.Names.{display_name}

abbrev pub same_type : TypeMeta → Deployer → Bool
same_type t d = t.api_version === d.type_meta.api_version && t.kind === d.type_meta.kind

abbrev pub same_name : NamespacedName → Deployer → Bool
same_name n d = n.name === d.meta.name && n.namespace === d.meta.namespace

-- The search for the deployer's entry, which reads a name only behind a type that fits; `i` counts
-- the entries before, and -1 is `none`.
unfoldable pub find_usage : Deployer → ℕ → List ResourceUsage → Outcome (Option ℕ)
find_usage d i [] = ok none
find_usage d i (u ∷ us) =
    let rest = find_usage d (i + 1) us in
    if same_type u.type_meta d
    then elim u.namespaced_name [
      | none ↦ panic nil_pointer
      | some n ↦ if same_name n d then ok (some i) else rest
    ]
    else rest

-- `append(usage[:i], usage[i+1:]...)`
unfoldable pub remove_at : ℕ → List ResourceUsage → List ResourceUsage
remove_at i us = take i us ++ drop (i + 1) us

-- The sums of the containers' requests, each an int32.
unfoldable pub requested : List ContainerSpec → Resource → Resource
requested [] sum = sum
requested (c ∷ cs) sum = requested cs (record {
  cpu = i32 (sum.cpu +ℤ c.resource.cpu);
  memory = i32 (sum.memory +ℤ c.resource.memory);
})

abbrev pub no_resource : Resource
no_resource = record { cpu = pos 0; memory = pos 0 }

-- The entry that a deployer adds.
unfoldable pub new_usage : Deployer → Resource → ResourceUsage
new_usage d r = record {
  resource = some r;
  type_meta = d.type_meta;
  namespaced_name = some (record { name = d.meta.name; namespace = d.meta.namespace });
  display_name = display_name d;
}

-- `Status.Free.CPU < cpu || Status.Free.Memory < memory`
abbrev pub is_short : Resource → Resource → Bool
is_short free want = ltb_ℤ free.cpu want.cpu || ltb_ℤ free.memory want.memory

abbrev pub set_usage : List ResourceUsage → ResourcePool → ResourcePool
set_usage us p = record p { status = record p.status { usage = us } }

module _ (K : Cluster) where
  abbrev pub Deploying : Type 0 → Type 0
  Deploying A = Action (Run K.World Deployer) A

  unfoldable pub get_pool : String → Deploying ResourcePool
  get_pool name =
      or_wrap "get resource pool"
        (on_world (K.get resource_pool (record { name = name; namespace = "" })))

  unfoldable pub get_current_resource_pool : Deploying (Option ResourcePool)
  get_current_resource_pool = do
    d ← gets (λ s. s.self)
    if is_empty d.status.resource_pool
        then pure none
        else (do p ← get_pool d.status.resource_pool; pure (some p))

  -- `ctx.Context.Status().Update(ctx, resourcePool)`
  abbrev pub put_pool : ResourcePool → Deploying (Unit {0})
  put_pool p = do on_world (K.update_status resource_pool p); done

  abbrev pub release_at : ResourcePool → Option ℕ → Deploying (Unit {0})
  release_at p none = done
  release_at p (some i) = put_pool (set_usage (remove_at i p.status.usage) p)

  unfoldable pub release_from : Option ResourcePool → Deploying (Unit {0})
  release_from none = done
  release_from (some p) = do
    d ← gets (λ s. s.self)
    found ← lift (find_usage d 0 p.status.usage)
    release_at p found

  -- The function that `ReleaseResource` retries.
  unfoldable pub release_once : Deploying (Unit {0})
  release_once = do p ← get_current_resource_pool; release_from p

  unfoldable pub release_resource : Deploying (Unit {0})
  release_resource = K.retry_on_conflict (Run K.World Deployer) release_once

  -- With the pool and its free resources at hand: refuse, or add the entry.
  unfoldable pub grant : ResourcePool → Resource → Resource → Deploying (Unit {0})
  grant p free want = do
    d ← gets (λ s. s.self)
    if is_short free want
        then (do
          set_status K deployer deployer_crd (λ s. record s { status = failed })
          fail (new_error "resource pool is not enough"))
        else put_pool (set_usage (p.status.usage ++ (new_usage d want ∷ [])) p)

  -- The function that `BegResource` retries.
  unfoldable pub beg_once : Deploying (Unit {0})
  beg_once = do
    d ← gets (λ s. s.self)
    p ← get_pool d.spec.resource_pool
    free ← deref p.status.free
    grant p free (requested d.spec.containers no_resource)

  unfoldable pub beg_resource : Deploying (Unit {0})
  beg_resource = do
    or_wrap "beg resource" (K.retry_on_conflict (Run K.World Deployer) beg_once)
    modify λ s. record s {
      self = record s.self {
        status = record s.self.status { resource_pool = s.self.spec.resource_pool };
      };
    }
