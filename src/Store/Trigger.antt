-- ===== src/Store/Trigger.antt =====
-- `TriggerDeployer` (controllers/build/builder.go) over a store: one hook.
use cloudrun.Base.{◌≡◌, ◌≢◌, refl, ap, subst, none, some, List, [], ◌∷◌, if◌then◌else◌}
use cloudrun.Types.{NamespacedName}
use cloudrun.Api.Builder.{Builder, DeployerHook}
use cloudrun.Api.Deployer.{ContainerSpec, Deployer, DeployerSpec, common_status}
use cloudrun.Api.Schema.{default_deployer}
use cloudrun.Cluster.Outcome.{Outcome, ok, pure, ◌>>=◌}
use cloudrun.Cluster.Client.{Cluster, deployer}
use cloudrun.Cluster.Crd.{Run}
use cloudrun.Build.Trigger.{
  hook_image, hook_round, set_image, trigger_found, trigger_one, triggered,
}
use cloudrun.Core.Context as Core
use cloudrun.Store.{IsStore, Objects, Wrote}

-- Where a builder's hook looks for its deployer.
abbrev pub hook_key : Builder → DeployerHook → NamespacedName
hook_key b h = record { name = h.deployer_name; namespace = b.meta.namespace }

-- The spec of a deployer with at least one container that a hook has triggered.
abbrev pub hooked :
    DeployerHook → Builder → Deployer → ContainerSpec → List ContainerSpec → DeployerSpec
hooked h b d c cs = record d.spec {
  round = hook_round h b d;
  containers = record c { image = hook_image h b } ∷ cs;
  resource_pool = h.resource_pool;
}

-- The name is that of no hook.
abbrev pub IsUnhooked : Builder → NamespacedName → List DeployerHook → Type 0
IsUnhooked b n [] = Unit
IsUnhooked b n (h ∷ hs) = (n ≢ hook_key b h) × IsUnhooked b n hs

-- Each deployer that is stored has a container.
abbrev pub HasContainers : Objects → Type 0
HasContainers objects =
    (n : NamespacedName) (d : Deployer)
    → objects deployer n ≡ some d
    → (c : ContainerSpec) × (cs : List ContainerSpec) × (d.spec.containers ≡ c ∷ cs)

module _ (K : Cluster) (S : IsStore K) (h : DeployerHook) (s : Run K.World Builder) where
  pub trigger_one-none :
      S.objects s.world deployer (hook_key s.self h) ≡ none → trigger_one K h s ≡ (ok tt, s)
  unfolding trigger_one trigger_found
  trigger_one-none there =
      let (e, missing, looked) = S.get-none deployer (hook_key s.self h) s.world there in
      rw (looked, missing) refl

  abbrev hooked_object : Deployer → ContainerSpec → List ContainerSpec → Deployer
  hooked_object d c cs = record d {
    spec = hooked h s.self d c cs;
    status = if h.force_round then d.status else (common_status d.status).0;
  }

  triggered-ok :
      {T : Type 0} (t : T) (d : Deployer) (c : ContainerSpec) (cs : List ContainerSpec)
      → d.spec.containers ≡ c ∷ cs
      → triggered h s.self d t ≡ (ok (hooked_object d c cs), t)
  unfolding triggered
  triggered-ok {T} t d c cs has =
      ap {B = Outcome Deployer × T}
        (λ l.
          (set_image (hook_image h s.self) l >>= λ containers. pure (record d {
            spec = record d.spec {
              round = hook_round h s.self d;
              containers = containers;
              resource_pool = h.resource_pool;
            };
            status = if h.force_round then d.status else (common_status d.status).0;
          }))
            t)
        has

  trigger_one-updated :
      (d d' q : Deployer) (v : K.World)
      → K.get deployer (hook_key s.self h) s.world ≡ (ok d, s.world)
      → triggered h s.self d s ≡ (ok d', s)
      → K.update deployer d' s.world ≡ (ok q, v)
      → trigger_one K h s ≡ (ok tt, record s { world = v })
  unfolding trigger_one trigger_found
  trigger_one-updated d d' q v looked made updated = rw (looked, made, updated) refl

  pub trigger_one-Wrote :
      (d : Deployer) (c : ContainerSpec) (cs : List ContainerSpec)
      → S.objects s.world deployer (hook_key s.self h) ≡ some d
      → d.spec.containers ≡ c ∷ cs
      → (v : K.World) × (trigger_one K h s ≡ (ok tt, record s { world = v }))
        × Wrote
            (S.objects s.world)
            (S.objects v)
            deployer
            (hook_key s.self h)
            (default_deployer (hooked h s.self d c cs))
  trigger_one-Wrote d c cs there has =
      let looked = S.get-some deployer (hook_key s.self h) s.world d there in
      let key = S.objects-key deployer (hook_key s.self h) s.world d there in
      let d' = hooked_object d c cs in
      let (q, v, updated, wrote) = S.update-some deployer d' d s.world (rw key there) refl (
        S.admits-deployer s.world (hook_key s.self h) d c cs (hook_round h s.self d)
          (hook_image h s.self) h.resource_pool d'.status there has) in
      (
        v,
        trigger_one-updated d d' q v looked (triggered-ok s d c cs has) updated,
        subst
            (λ n.
              Wrote (S.objects s.world) (S.objects v) deployer n
                (default_deployer (hooked h s.self d c cs)))
            key
            (subst
              (λ spec. Wrote (S.objects s.world) (S.objects v) deployer (Core.object_key d) spec)
              (S.fill-deployer d'.spec) wrote),
      )
