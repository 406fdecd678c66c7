-- ===== src/Store/Pod.antt =====
-- The status of a deployer, and the pod that it makes (controllers/core/status.go, controllers/deploy) over
-- a store.
use cloudrun.Base.{
  ◌++◌, if◌then◌else◌, ◌≡◌, refl, sym, ap, ◌∙◌, Bool, true, false, some, none, List, [], ◌∷◌,
}
use cloudrun.Types.{CommonStatus}
use cloudrun.Api.Deployer.{ContainerSpec, Deployer, common_status}
use cloudrun.Cluster.Outcome.{ok}
use cloudrun.Cluster.Workloads.{Container, PodTemplateSpec}
use cloudrun.Cluster.Client.{Cluster, deployer}
use cloudrun.Cluster.Crd.{Run, deployer_crd}
use cloudrun.Core.Context.{Context, object_key}
use cloudrun.Core.Status.{publish_status}
use cloudrun.Deploy.Names.{current_round}
use cloudrun.Deploy.Split.{
  HasQuantities, Parses, images, split_containers-images, to_container-image, wanted,
}
use cloudrun.Deploy.Template.{new_pod_spec, pod_meta, requirements, split_containers, to_container}
use cloudrun.Store.{IsStore, KeepsOthers}
use cloudrun.Store.Cleanup.{with_base}

module _ (K : Cluster) (S : IsStore K) where
  abbrev pub at : K.World → Deployer → CommonStatus → Run K.World Deployer
  at w o b = record { world = w; self = with_base o b }

  -- A deployer with any status, of which the store has the spec and the resource version, is stored
  -- with that status.
  pub publish_status-stored :
      (o p : Deployer) (b : CommonStatus) (w : K.World)
      → S.objects w deployer (object_key o) ≡ some p
      → o.meta.resource_version ≡ p.meta.resource_version
      → o.spec ≡ p.spec
      → (q : Deployer) × (v : K.World) × (publish_status K deployer deployer_crd none (at w o b)
          ≡ (ok tt, at v q b))
        × (S.objects v deployer (object_key o) ≡ some (with_base q b))
        × (q.spec ≡ o.spec)
        × (q.status.resource_pool ≡ o.status.resource_pool)
        × KeepsOthers (S.objects w) (S.objects v) deployer (object_key o)
  unfolding publish_status common_status
  publish_status-stored o p b w there same_version same_spec =
      let (q, v, written, stored, status, spec, others) =
        S.update_status-some deployer (with_base o b) p w there same_version same_spec in
      let same : q ≡ with_base q b =
        λ i. record q { status = record q.status { base = (status i).base } } in
      let done : publish_status K deployer deployer_crd none (at w o b)
          ≡ (ok tt, record { world = v; self = q }) =
        rw written refl in
      (
        q,
        v,
        done ∙ ap (λ d. (ok tt, record { world = v; self = d })) same,
        stored ∙ ap some same,
        spec,
        ap (λ st. st.resource_pool) status,
        others,
      )

  to_container-keeps :
      (c : ContainerSpec) (s : Run K.World Deployer)
      → HasQuantities K c
      → S.objects (to_container K c s).1.world ≡ S.objects s.world
  unfolding to_container requirements
  to_container-keeps c s ((_, cpu), (_, memory), (_, half_cpu), (_, half_memory)) =
      rw (cpu, memory, half_cpu, half_memory) (S.objects-range_map c.envs s.world)

  split_containers-keeps :
      (cs : List ContainerSpec)
      → Parses K cs
      → (inits mains : List Container) (s : Run K.World Deployer)
      → S.objects (split_containers K cs inits mains s).1.world ≡ S.objects s.world
  unfolding split_containers
  split_containers-keeps [] h inits mains s = refl
  split_containers-keeps (c ∷ cs) (h, hs) inits mains s =
      let (made, t, e, _, _, _) = to_container-image K c s h in
      let same : S.objects t.world ≡ S.objects s.world =
        ap (λ q. S.objects q.1.world) (sym e) ∙ to_container-keeps c s h in
      rw e (
        split_containers-keeps cs hs (if c.initial then inits ++ (made ∷ []) else inits)
          (if c.initial then mains else mains ++ (made ∷ [])) t
        ∙ same)

  -- The pod of a round is made, and no object of the store is touched.
  abbrev pub PodOf : Context → Bool → Deployer → CommonStatus → K.World → Type 0
  PodOf ctx is_service o b w =
      (pod : PodTemplateSpec) × (v : K.World) × (new_pod_spec K ctx is_service (at w o b)
        ≡ (ok pod, at v o b))
      × (pod.meta ≡ pod_meta K ctx is_service b.current_round)
      × (images pod.spec.init_containers ≡ wanted true o.spec.containers)
      × (images pod.spec.containers ≡ wanted false o.spec.containers)
      × (S.objects v ≡ S.objects w)

  pub new_pod_spec-PodOf :
      (ctx : Context) (is_service : Bool) (o : Deployer) (b : CommonStatus) (w : K.World)
      → Parses K o.spec.containers
      → PodOf ctx is_service o b w
  unfolding new_pod_spec current_round
  new_pod_spec-PodOf ctx is_service o b w h =
      let cs = o.spec.containers in
      let (is, ms, t, e, first, rest, still) = split_containers-images K cs h [] [] (at w o b) in
      let split : split_containers K cs [] [] (at w o b) ≡ (ok (is, ms), at t.world o b) =
        e ∙ ap (λ d. (ok (is, ms), record { world = t.world; self = d })) still in
      (
        record {
          meta = pod_meta K ctx is_service b.current_round;
          spec = record {
            volumes = [];
            init_containers = is;
            containers = ms;
            restart_policy = "";
          };
        },
        t.world,
        rw split refl,
        refl,
        first,
        rest,
        ap (λ q. S.objects q.1.world) (sym e) ∙ split_containers-keeps cs h [] [] (at w o b),
      )
