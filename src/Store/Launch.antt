-- ===== src/Store/Launch.antt =====
-- A service in its round starts (controllers/deploy/service.go, controllers/deployer_controller.go) over a
-- store: its StatefulSet.
use cloudrun.Base.{Dict}
use cloudrun.Base.{ℕ, pos, ◌≡◌, ◌⊎◌, refl, sym, ap, subst, ◌∙◌, inl, true, false, some, none, arith}
use cloudrun.Types.{CommonStatus, NamespacedName, pending}
use cloudrun.Api.Meta.{OwnerReference}
use cloudrun.Api.Deployer.{ContainerSpec, Deployer, common_status, is_service}
use cloudrun.Api.Deployer as D
use cloudrun.Cluster.Outcome.{ok}
use cloudrun.Cluster.Workloads.{PodTemplateSpec, StatefulSet, StatefulSetSpec}
use cloudrun.Cluster.Client.{Cluster, IsLawful, Kind, deployer, stateful_set}
use cloudrun.Cluster.Crd.{Run}
use cloudrun.Core.Context.{Context, get_service_labels, object_key, set_owner_reference}
use cloudrun.Controllers.Deployer.{by_round, this_round}
use cloudrun.Controllers.Builder.Finish.{same-ltb}
use cloudrun.Controllers.Reconcile.{requeue}
use cloudrun.Deploy.Selectors.{get_service_labels-selects, selects}
use cloudrun.Deploy.Split.{Parses, images, wanted}
use cloudrun.Deploy.Template.{new_pod_spec, pod_meta}
use cloudrun.Store.{IsStore, KeepsOthers}
use cloudrun.Store.Cleanup.{round_key, with_base}
use cloudrun.Store.Create.{IsAdmitted-force, create_resource-Wrote, settled}
use cloudrun.Store.Others.{others_at}
use cloudrun.Store.Pod.{at, new_pod_spec-PodOf, publish_status-stored}
use cloudrun.Store.Sets.{
  deployer-ne-stateful_set, handle-steps, set_of, set_of-key, this_round-steps, touched,
}

module _ (K : Cluster) (S : IsStore K) (ctx : Context) (o : Deployer) (base : CommonStatus)
    (w : K.World) (n : ℕ) where
  -- What a service is, and what the store has, when it has been started.
  pub record Launched (t : Run K.World Deployer) : Type 0 where
    pub stored : S.objects t.world deployer (object_key o) ≡ some t.self
    pub status : t.self.status.base ≡ some (record base { status = pending })
    pub share : t.self.status.resource_pool ≡ o.status.resource_pool
    pub spec : t.self.spec ≡ o.spec
    pub made : StatefulSet
    pub made_there : S.objects t.world stateful_set (round_key ctx (pos n)) ≡ some made
    -- The spec that was sent.
    pub given : StatefulSetSpec
    pub filled : made.spec ≡ S.fill stateful_set given
    pub selector : Dict
    pub has_selector : given.selector ≡ some selector
    pub selected : selects selector given.template.meta.labels ≡ true
    pub first : images given.template.spec.init_containers ≡ wanted true o.spec.containers
    pub rest : images given.template.spec.containers ≡ wanted false o.spec.containers
    pub others :
        (j : Kind) (m : NamespacedName)
        → (S.objects t.world j m ≡ S.objects w j m)
          ⊎ ((j ≡ deployer) × (m ≡ object_key o))
          ⊎ ((j ≡ stateful_set) × (m ≡ round_key ctx (pos n)))

-- The server admits the StatefulSet of each round and pod that the code makes for the deployer.
abbrev pub AdmitsSet : (K : Cluster) → IsStore K → Context → Deployer → OwnerReference → Type 0
AdmitsSet K S ctx o owner =
    (r t : Run K.World Deployer) (b : CommonStatus) (pod : PodTemplateSpec)
    → r.self.spec ≡ o.spec
    → r.self.status.base ≡ some b
    → new_pod_spec K ctx true r ≡ (ok pod, t)
    → S.admits stateful_set none (set_owner_reference (set_of ctx b.current_round pod) owner) ≡ true

module _ (K : Cluster) (L : IsLawful K) (S : IsStore K) (ctx : Context) (owner : OwnerReference)
    (owned : ctx.get_owner_references ≡ ok owner) (o : Deployer)
    (parses : Parses K o.spec.containers) (base : CommonStatus) (w : K.World)
    (there : S.objects w deployer (object_key o) ≡ some (with_base o base))
    (service : o.spec.type ≡ D.service) (n : ℕ) (round : base.current_round ≡ pos n)
    (now : o.spec.round ≡ pos n) (no_set : S.objects w stateful_set (round_key ctx (pos n)) ≡ none)
    (admitted : AdmitsSet K S ctx o owner) where
  this_round-Launched :
      (t : Run K.World Deployer) × (this_round K ctx (at K S w o base) ≡ (ok (requeue 5), t))
      × Launched K S ctx o base w n t
  this_round-Launched =
      let b = record base { status = pending } in
      let key = object_key o in
      let rkey = round_key ctx (pos n) in
      let same_key : round_key ctx base.current_round ≡ rkey = ap (λ r. round_key ctx r) round in
      let (e, missing, looked) =
        S.get-none stateful_set (round_key ctx base.current_round) w
          (ap (λ m. S.objects w stateful_set m) same_key ∙ no_set) in
      let (q, v, published, there_v, spec, share, one) =
        publish_status-stored K S o (with_base o base) b w there refl refl in
      let (pod, u, made, meta, first, rest, still) =
        new_pod_spec-PodOf K S ctx true q b v
          (subst (λ sp. Parses K sp.containers) (sym spec) parses) in
      let set = set_of ctx base.current_round pod in
      let set_key : object_key set ≡ rkey = set_of-key ctx base.current_round pod ∙ same_key in
      let none_u : S.objects u stateful_set (object_key set) ≡ none =
        ap (λ m. S.objects u stateful_set m) set_key
        ∙ ap (λ f. f stateful_set rkey) still
        ∙ others_at (S.objects w) (S.objects v) deployer key stateful_set rkey one
            (inl (λ h. deployer-ne-stateful_set (sym h)))
        ∙ no_set in
      let (x, created, wrote) =
        create_resource-Wrote K L S ctx stateful_set set owner true false (at K S u q b) owned (
          IsAdmitted-force S stateful_set (set_owner_reference set owner)
            (S.objects u stateful_set (object_key set))
            (admitted (at K S v q b) (at K S u q b) b pod spec refl made)) in
      let two : KeepsOthers (S.objects v) (S.objects x) stateful_set rkey =
        subst (λ f. KeepsOthers f (S.objects x) stateful_set rkey) still
          (subst (λ m. KeepsOthers (S.objects u) (S.objects x) stateful_set m) set_key
            wrote.others) in
      let filled : wrote.stored.spec ≡ S.fill stateful_set set.spec =
        wrote.same_spec
        ∙ ap (λ p. settled stateful_set true false (S.fill stateful_set set.spec) p) none_u in
      let there_x : S.objects x deployer key ≡ some (with_base q b) =
        others_at (S.objects v) (S.objects x) stateful_set rkey deployer key two
          (inl deployer-ne-stateful_set)
        ∙ there_v in
      let q_key : object_key q ≡ key = S.objects-key deployer key v (with_base q b) there_v in
      let (r, y, published', there_y, spec', share', last) =
        publish_status-stored K S q (with_base q b) b x
          (ap (λ m. S.objects x deployer m) q_key ∙ there_x) refl refl in
      let three : KeepsOthers (S.objects x) (S.objects y) deployer key =
        subst (λ m. KeepsOthers (S.objects x) (S.objects y) deployer m) q_key last in
      let labels : selects (get_service_labels ctx base.current_round) pod.meta.labels ≡ true =
        ap (λ m. selects (get_service_labels ctx base.current_round) m.labels) meta
        ∙ ap (λ r. selects (get_service_labels ctx r) (pod_meta K ctx true r).labels) round
        ∙ (get_service_labels-selects K ctx n n true).1 (refl, refl) in
      (
        at K S y r b,
        this_round-steps K S ctx o base w q r x y service
            (handle-steps K S ctx o base w e q v u x pod looked missing published made created)
            published',
        record {
          stored = ap (λ m. S.objects y deployer m) (sym q_key) ∙ there_y;
          status = refl;
          share = share' ∙ share;
          spec = spec' ∙ spec;
          made = wrote.stored;
          made_there =
              others_at (S.objects x) (S.objects y) deployer key stateful_set rkey three
                (inl (λ h. deployer-ne-stateful_set (sym h)))
              ∙ ap (λ m. S.objects x stateful_set m) (sym set_key)
              ∙ wrote.there;
          given = set.spec;
          filled = filled;
          selector = get_service_labels ctx base.current_round;
          has_selector = refl;
          selected = labels;
          first = first ∙ ap (λ sp. wanted true sp.containers) spec;
          rest = rest ∙ ap (λ sp. wanted false sp.containers) spec;
          others =
              touched (S.objects w) (S.objects v) (S.objects x) (S.objects y) key rkey one two
                three;
        },
      )

  pub by_round-Launched :
      (t : Run K.World Deployer) × (by_round K ctx (at K S w o base) ≡ (ok (requeue 5), t))
      × Launched K S ctx o base w n t
  unfolding by_round common_status
  by_round-Launched =
      let (t, done, launched) = this_round-Launched in
      let before = same-ltb base.current_round o.spec.round (round ∙ sym now) in
      let behind = same-ltb o.spec.round base.current_round (now ∙ sym round) in
      (t, ground arith, launched)
