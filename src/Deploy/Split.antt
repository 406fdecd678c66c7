-- ===== src/Deploy/Split.antt =====
-- The containers of a deployer's pods (controllers/deploy/deployer.go, `newPodSpec`).
use mathlib.Core.List.{append-nil, append_assoc}
use cloudrun.Base.{
  sym, half, show_int, ◌<>◌, ◌≡◌, refl, ◌∙◌, ap, String, Bool, true, false, not, some, List, [],
  ◌∷◌, ◌++◌, if◌then◌else◌,
}
use cloudrun.Api.Deployer.{ContainerSpec, Deployer}
use cloudrun.Cluster.Outcome.{ok}
use cloudrun.Cluster.Workloads.{Container, PodTemplateSpec}
use cloudrun.Cluster.Client.{Cluster}
use cloudrun.Cluster.Crd.{Run}
use cloudrun.Core.Context.{Context}
use cloudrun.Types.{CommonStatus}
use cloudrun.Deploy.Names.{current_round}
use cloudrun.Deploy.Template.{new_pod_spec, requirements, split_containers, to_container}

-- What a pod runs, by name and image.
abbrev pub images : List Container → List (String × String)
images [] = []
images (c ∷ cs) = (c.name, c.image) ∷ images cs

-- The containers of the spec that run first (`true`), or that run then (`false`), in its order.
abbrev pub wanted : Bool → List ContainerSpec → List (String × String)
wanted first [] = []
wanted first (c ∷ cs) =
    let rest = wanted first cs in
    if (if c.initial then first else not first) then (c.name, c.image) ∷ rest else rest

images-append : (xs ys : List Container) → images (xs ++ ys) ≡ images xs ++ images ys
images-append [] ys = refl
images-append (x ∷ xs) ys = ap (λ l. (x.name, x.image) ∷ l) (images-append xs ys)

module _ (l : List Container) (made : Container) (c : ContainerSpec) (rest : List (String × String))
    (name : made.name ≡ c.name) (image : made.image ≡ c.image) where
  behind : images (l ++ (made ∷ [])) ++ rest ≡ images l ++ ((c.name, c.image) ∷ rest)
  behind = rw (
    images-append l (made ∷ []),
    append_assoc (images l) ((made.name, made.image) ∷ []) rest,
    name,
    image,
  )

  place :
      (b : Bool)
      → images (if b then l ++ (made ∷ []) else l) ++ rest
        ≡ images l ++ (if (if b then true else false) then (c.name, c.image) ∷ rest else rest)
  place true = behind
  place false = refl

  place_not :
      (b : Bool)
      → images (if b then l else l ++ (made ∷ [])) ++ rest
        ≡ images l ++ (if (if b then false else true) then (c.name, c.image) ∷ rest else rest)
  place_not true = refl
  place_not false = behind

module _ (K : Cluster) where
  abbrev pub IsQuantity : String → Type 0
  IsQuantity text = (q : String) × (K.must_parse text ≡ ok q)

  -- The four texts that the code makes of a container's resources are quantities.
  abbrev pub HasQuantities : ContainerSpec → Type 0
  HasQuantities c =
      IsQuantity (show_int c.resource.cpu <> "m")
      × IsQuantity (show_int c.resource.memory <> "Mi")
      × IsQuantity (show_int (half c.resource.cpu) <> "m")
      × IsQuantity (show_int (half c.resource.memory) <> "Mi")

  abbrev pub Parses : List ContainerSpec → Type 0
  Parses [] = Unit
  Parses (c ∷ cs) = HasQuantities c × Parses cs

  pub to_container-image :
      (c : ContainerSpec) (s : Run K.World Deployer)
      → HasQuantities c
      → (made : Container) × (t : Run K.World Deployer) × (to_container K c s ≡ (ok made, t))
        × (made.name ≡ c.name)
        × (made.image ≡ c.image)
        × (t.self ≡ s.self)
  unfolding to_container requirements
  to_container-image c s ((_, cpu), (_, memory), (_, half_cpu), (_, half_memory)) =
      rw (cpu, memory, half_cpu, half_memory) (_, _, refl, refl, refl, refl)

  pub split_containers-images :
      (cs : List ContainerSpec)
      → Parses cs
      → (inits mains : List Container) (s : Run K.World Deployer)
      → (is : List Container) × (ms : List Container) × (t : Run K.World Deployer)
        × (split_containers K cs inits mains s ≡ (ok (is, ms), t))
        × (images is ≡ images inits ++ wanted true cs)
        × (images ms ≡ images mains ++ wanted false cs)
        × (t.self ≡ s.self)
  unfolding split_containers
  split_containers-images [] h inits mains s = (
    inits,
    mains,
    s,
    refl,
    sym (append-nil (images inits)),
    sym (append-nil (images mains)),
    refl,
  )
  split_containers-images (c ∷ cs) (h, hs) inits mains s =
      let (made, t, e, same, same', still) = to_container-image c s h in
      let (is, ms, u, e', first, then_, still') =
        split_containers-images cs hs (if c.initial then inits ++ (made ∷ []) else inits)
          (if c.initial then mains else mains ++ (made ∷ [])) t in
      (
        is,
        ms,
        u,
        rw e e',
        first ∙ place inits made c (wanted true cs) same same' c.initial,
        then_ ∙ place_not mains made c (wanted false cs) same same' c.initial,
        still' ∙ still,
      )

  -- Where the texts that the code makes of the resources of the containers, in full and by half, are
  -- quantities, and the deployer has a status: the pod of a
  -- round is made, and runs each container of the spec once, by name and image, those marked as
  -- initial first, the others then, each in the spec's order, and nothing else.
  pub new_pod_spec-images :
      (ctx : Context) (is_service : Bool) (s : Run K.World Deployer) (base : CommonStatus)
      → Parses s.self.spec.containers
      → s.self.status.base ≡ some base
      → (pod : PodTemplateSpec) × (t : Run K.World Deployer) × (new_pod_spec K ctx is_service s
          ≡ (ok pod, t))
        × (images pod.spec.init_containers ≡ wanted true s.self.spec.containers)
        × (images pod.spec.containers ≡ wanted false s.self.spec.containers)
  unfolding new_pod_spec current_round
  new_pod_spec-images ctx is_service s base h there =
      let (is, ms, t, e, first, rest, still) =
        split_containers-images s.self.spec.containers h [] [] s in
      rw (e, ap (λ o. o.status.base) still ∙ there) (_, _, refl, first, rest)
