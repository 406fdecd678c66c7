-- ===== src/Store/Unhooked.antt =====
-- What a list of hooks (controllers/build/builder.go, `TriggerDeployer`) leaves as it was in a store.
use cloudrun.Base.{◌≡◌, ◌⊎◌, sym, ap, ◌∙◌, inl, inr, some, List, [], ◌∷◌, arith}
use cloudrun.Types.{NamespacedName}
use cloudrun.Api.Builder.{Builder, DeployerHook}
use cloudrun.Api.Deployer.{ContainerSpec, DeployerSpec}
use cloudrun.Cluster.Client.{Kind, deployer}
use cloudrun.Store.{KeepsOthers, Objects, Wrote}
use cloudrun.Store.Others.{NamespacedName-cases, others_at}
use cloudrun.Store.Trigger.{HasContainers, IsUnhooked, hook_key}

-- The name is that of a hook.
abbrev pub IsHooked : Builder → NamespacedName → List DeployerHook → Type 0
IsHooked b m [] = ⊥
IsHooked b m (h ∷ hs) = (m ≡ hook_key b h) ⊎ IsHooked b m hs

-- No object but the hooked deployers has changed.
abbrev pub KeepsUnhooked : Builder → List DeployerHook → Objects → Objects → Type 0
KeepsUnhooked b hs before after =
    (j : Kind) (m : NamespacedName) → (after j m ≡ before j m) ⊎ ((j ≡ deployer) × IsHooked b m hs)

pub HasContainers-Wrote :
    (before after : Objects) (n : NamespacedName) (spec : DeployerSpec) (c : ContainerSpec)
    (cs : List ContainerSpec)
    → HasContainers before
    → Wrote before after deployer n spec
    → spec.containers ≡ c ∷ cs
    → HasContainers after
HasContainers-Wrote before after n spec c cs ready wrote has m d there =
    elim (NamespacedName-cases m n) [
      | inl same ↦
          let there' : after deployer n ≡ some d = rw same at there in
          let first : wrote.stored ≡ d = ground (arith, wrote.there) in
          (
            c,
            cs,
            ap (λ o. o.spec.containers) (sym first) ∙ ap (λ t. t.containers) wrote.same_spec ∙ has,
          )
      | inr differ ↦
          ready m d
            (sym (others_at before after deployer n deployer m wrote.others (inr differ)) ∙ there)
    ]

unhooked :
    (b : Builder) (m : NamespacedName) (hs : List DeployerHook)
    → IsUnhooked b m hs
    → IsHooked b m hs
    → ⊥
unhooked b m [] apart it = elim it [ ]
unhooked b m (h ∷ hs) (other, rest) (inl same) = other same
unhooked b m (h ∷ hs) (other, rest) (inr later) = unhooked b m hs rest later

module _ (b : Builder) (before after : Objects) where
  -- A deployer whose name is that of no hook is as it was.
  pub unhooked_at :
      (m : NamespacedName) (hs : List DeployerHook)
      → KeepsUnhooked b hs before after
      → IsUnhooked b m hs
      → after deployer m ≡ before deployer m
  unhooked_at m hs keeps apart = elim (keeps deployer m) [
    | inl same ↦ same
    | inr (_, hooked_) ↦ absurd (unhooked b m hs apart hooked_)
  ]

  pub KeepsUnhooked-one :
      (h : DeployerHook)
      → KeepsOthers before after deployer (hook_key b h)
      → KeepsUnhooked b (h ∷ []) before after
  KeepsUnhooked-one h keeps j m = elim (keeps j m) [
    | inl same ↦ inl same
    | inr (kind, name) ↦ inr (kind, inl name)
  ]

pub KeepsUnhooked-trans :
    (b : Builder) (h : DeployerHook) (hs : List DeployerHook) (before mid after : Objects)
    → KeepsUnhooked b (h ∷ []) before mid
    → KeepsUnhooked b hs mid after
    → KeepsUnhooked b (h ∷ hs) before after
KeepsUnhooked-trans b h hs before mid after first later j m = elim (later j m) [
  | inl same' ↦ elim (first j m) [
    | inl same ↦ inl (same' ∙ same)
    | inr (kind, inl name) ↦ inr (kind, inl name)
    | inr (kind, inr it) ↦ elim it [ ]
  ]
  | inr (kind, name) ↦ inr (kind, inr name)
]
