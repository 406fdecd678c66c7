-- ===== src/Store/Hooks.antt =====
-- `TriggerDeployer` (controllers/build/builder.go) over a store: a list of hooks.
use cloudrun.Base.{◌≡◌, refl, ap, ◌∙◌, inl, Option, none, some, List, [], ◌∷◌, ◌++◌}
use cloudrun.Api.Builder.{Builder, DeployerHook}
use cloudrun.Api.Deployer.{ContainerSpec, Deployer, DeployerSpec}
use cloudrun.Api.Schema.{default_deployer}
use cloudrun.Cluster.Outcome.{ok}
use cloudrun.Cluster.Client.{Cluster, deployer}
use cloudrun.Cluster.Crd.{Run}
use cloudrun.Build.Trigger.{trigger_all, trigger_deployer, trigger_one}
use cloudrun.Store.{IsStore}
use cloudrun.Store.Trigger.{
  HasContainers, IsUnhooked, hook_key, hooked, trigger_one-none, trigger_one-Wrote,
}
use cloudrun.Store.Unhooked.{
  HasContainers-Wrote, KeepsUnhooked, KeepsUnhooked-one, KeepsUnhooked-trans, unhooked_at,
}

module _ (K : Cluster) (S : IsStore K) where
  abbrev TriggeredAt : List DeployerHook → Run K.World Builder → K.World → Type 0
  TriggeredAt hs s v =
      (trigger_all K hs s ≡ (ok tt, record s { world = v }))
      × HasContainers (S.objects v)
      × KeepsUnhooked s.self hs (S.objects s.world) (S.objects v)

  trigger_all-step :
      (h : DeployerHook) (hs : List DeployerHook) (s : Run K.World Builder) (v u : K.World)
      → trigger_one K h s ≡ (ok tt, record s { world = v })
      → KeepsUnhooked s.self (h ∷ []) (S.objects s.world) (S.objects v)
      → TriggeredAt hs (record s { world = v }) u
      → TriggeredAt (h ∷ hs) s u
  unfolding trigger_all
  trigger_all-step h hs s v u one first (rest, ready, later) = (
    rw one rest,
    ready,
    KeepsUnhooked-trans s.self h hs (S.objects s.world) (S.objects v) (S.objects u) first later,
  )

  trigger_one-Kept :
      (h : DeployerHook) (s : Run K.World Builder)
      → HasContainers (S.objects s.world)
      → (v : K.World) × (trigger_one K h s ≡ (ok tt, record s { world = v }))
        × HasContainers (S.objects v)
        × KeepsUnhooked s.self (h ∷ []) (S.objects s.world) (S.objects v)
  trigger_one-Kept h s ready = by_lookup (S.objects s.world deployer (hook_key s.self h)) refl
    where
      by_lookup :
          (q : Option Deployer)
          → S.objects s.world deployer (hook_key s.self h) ≡ q
          → (v : K.World) × (trigger_one K h s ≡ (ok tt, record s { world = v }))
            × HasContainers (S.objects v)
            × KeepsUnhooked s.self (h ∷ []) (S.objects s.world) (S.objects v)
      by_lookup none e = (s.world, trigger_one-none K S h s e, ready, λ j m. inl refl)
      by_lookup (some d) e =
          let (c, cs, has) = ready (hook_key s.self h) d e in
          let (v, one, wrote) = trigger_one-Wrote K S h s d c cs e has in
          (
            v,
            one,
            HasContainers-Wrote (S.objects s.world) (S.objects v) (hook_key s.self h) _ _ _ ready
                wrote refl,
            (KeepsUnhooked-one s.self (S.objects s.world) (S.objects v) h wrote.others),
          )

  trigger_all-TriggeredAt :
      (hs : List DeployerHook) (s : Run K.World Builder)
      → HasContainers (S.objects s.world)
      → (v : K.World) × TriggeredAt hs s v
  unfolding trigger_all
  trigger_all-TriggeredAt [] s ready = (s.world, (refl, ready, λ j m. inl refl))
  trigger_all-TriggeredAt (h ∷ hs) s ready =
      let (v, one, now, first) = trigger_one-Kept h s ready in
      let (u, rest) = trigger_all-TriggeredAt hs (record s { world = v }) now in
      (u, trigger_all-step h hs s v u one first rest)

  -- The deployer under a name has a spec.
  abbrev pub HasSpec : Builder → DeployerHook → K.World → DeployerSpec → Type 0
  HasSpec b h v spec =
      (q : Deployer) × (S.objects v deployer (hook_key b h) ≡ some q) × (q.spec ≡ spec)

  trigger_all-HasSpec :
      (hs hs' : List DeployerHook) (h : DeployerHook) (s : Run K.World Builder) (d : Deployer)
      (c : ContainerSpec) (cs : List ContainerSpec)
      → IsUnhooked s.self (hook_key s.self h) hs
      → IsUnhooked s.self (hook_key s.self h) hs'
      → HasContainers (S.objects s.world)
      → S.objects s.world deployer (hook_key s.self h) ≡ some d
      → d.spec.containers ≡ c ∷ cs
      → (v : K.World) × TriggeredAt (hs ++ (h ∷ hs')) s v
        × HasSpec s.self h v (default_deployer (hooked h s.self d c cs))
  trigger_all-HasSpec [] hs' h s d c cs apart apart' ready e has =
      let (v, one, wrote) = trigger_one-Wrote K S h s d c cs e has in
      let now =
        HasContainers-Wrote (S.objects s.world) (S.objects v) (hook_key s.self h) _ _ _ ready wrote
          refl in
      let (u, rest) = trigger_all-TriggeredAt hs' (record s { world = v }) now in
      (
        u,
        trigger_all-step h hs' s v u one
            (KeepsUnhooked-one s.self (S.objects s.world) (S.objects v) h wrote.others) rest,
        (
          wrote.stored,
          unhooked_at s.self (S.objects v) (S.objects u) (hook_key s.self h) hs' rest.2 apart'
              ∙ wrote.there,
          wrote.same_spec,
        ),
      )
  trigger_all-HasSpec (g ∷ hs) hs' h s d c cs (other, apart) apart' ready e has =
      let (v, one, now, first) = trigger_one-Kept g s ready in
      let (u, rest, spec) =
        trigger_all-HasSpec hs hs' h (record s { world = v }) d c cs apart apart' now
          (unhooked_at s.self (S.objects s.world) (S.objects v) (hook_key s.self h) (g ∷ []) first
              (other, tt)
            ∙ e)
          has in
      (u, trigger_all-step g (hs ++ (h ∷ hs')) s v u one first rest, spec)

  pub trigger_deployer-hooked :
      (hs hs' : List DeployerHook) (h : DeployerHook) (s : Run K.World Builder) (d : Deployer)
      (c : ContainerSpec) (cs : List ContainerSpec)
      → s.self.spec.deployer_hooks ≡ hs ++ (h ∷ hs')
      → IsUnhooked s.self (hook_key s.self h) hs
      → IsUnhooked s.self (hook_key s.self h) hs'
      → HasContainers (S.objects s.world)
      → S.objects s.world deployer (hook_key s.self h) ≡ some d
      → d.spec.containers ≡ c ∷ cs
      → (v : K.World) × (trigger_deployer K s ≡ (ok tt, record s { world = v }))
        × HasSpec s.self h v (default_deployer (hooked h s.self d c cs))
        × KeepsUnhooked s.self (hs ++ (h ∷ hs')) (S.objects s.world) (S.objects v)
  unfolding trigger_deployer
  trigger_deployer-hooked hs hs' h s d c cs hooks apart apart' ready e has =
      let (v, (done, _, kept), spec) =
        trigger_all-HasSpec hs hs' h s d c cs apart apart' ready e has in
      (v, ap (λ l. trigger_all K l s) hooks ∙ done, spec, kept)
