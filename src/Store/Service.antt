-- ===== src/Store/Service.antt =====
-- `createOrUpdateService` (controllers/deploy/service.go) over a store.
use cloudrun.Base.{
  ℕ, ◌≡◌, refl, sym, ap, subst, ◌∙◌, pos, show_int, Bool, true, false, Option, none, some, List, [],
  ◌∷◌, ◌↔◌, arith, Dict, insert,
}
use cloudrun.Types.{CommonStatus}
use cloudrun.Api.Meta.{OwnerReference}
use cloudrun.Api.Deployer.{Deployer}
use cloudrun.Cluster.Outcome.{Error, ok, err, is_not_found}
use cloudrun.Cluster.Workloads.{Service, ServicePort, ServiceSpec}
use cloudrun.Cluster.Client.{Cluster, IsLawful, service}
use cloudrun.Cluster.Crd.{Run}
use cloudrun.Core.Context.{
  Context, create_resource, get_service_labels, name, object_key, set_owner_reference,
}
use cloudrun.Deploy.Names.{current_round}
use cloudrun.Deploy.Ports.{all_exported_names, new_service_ports-names, port_names}
use cloudrun.Deploy.Selectors.{get_service_labels-selects, selects}
use cloudrun.Deploy.Service.{
  aim_service, create_or_update_service, fresh_service, new_service_ports,
}
use cloudrun.Deploy.Template.{pod_meta}
use cloudrun.Store.{IsStore, KeepsOthers}
use cloudrun.Store.Create.{IsAdmitted-force, create_resource-Wrote, settled}

settled-force :
    (given : ServiceSpec) (q : Option Service) → settled service true false given q ≡ given
settled-force given none = refl
settled-force given (some old) = refl

module _ (K : Cluster) (ctx : Context) (s : Run K.World Deployer) (base : CommonStatus)
    (has : s.self.status.base ≡ some base) where
  -- A service whose labels are there, with the ports, the selector and the label of the round.
  abbrev pub aimed : Service → Dict → Service
  aimed svc labels = record svc {
    meta = record svc.meta { labels = some (insert "round" (show_int base.current_round) labels) };
    spec = record svc.spec {
      ports = new_service_ports K svc.spec.ports s.self.spec.containers;
      selector = some (get_service_labels ctx base.current_round);
    };
  }

  abbrev first_labels : Dict
  first_labels = ("owner.name", name ctx) ∷ ("round", show_int base.current_round) ∷ []

  abbrev first : Service
  first = aimed (fresh_service K ctx base.current_round) first_labels

  found-steps :
      (svc q : Service) (labels : Dict) (v : K.World)
      → K.get service ctx.namespaced_name s.world ≡ (ok svc, s.world)
      → svc.meta.labels ≡ some labels
      → K.update service (aimed svc labels) s.world ≡ (ok q, v)
      → create_or_update_service K ctx s ≡ (ok tt, record s { world = v })
  unfolding create_or_update_service current_round aim_service
  found-steps svc q labels v looked labelled updated = rw (looked, has, labelled, updated) refl

  missing-steps :
      (e : Error) (v : K.World)
      → K.get service ctx.namespaced_name s.world ≡ (err e, s.world)
      → is_not_found e ≡ true
      → create_resource K ctx service first true false s ≡ (ok tt, record s { world = v })
      → create_or_update_service K ctx s ≡ (ok tt, record s { world = v })
  unfolding create_or_update_service current_round aim_service
  missing-steps e v looked missing created = ground arith

  -- The server admits the service that the code sends: the stored one with the ports, the selector and
  -- the label of the round, or else a fresh one.
  abbrev pub AdmitsService : IsStore K → OwnerReference → Type 0
  AdmitsService S owner =
      (S.admits service none (set_owner_reference first owner) ≡ true)
      × ((svc : Service) (labels : Dict)
          → S.objects s.world service ctx.namespaced_name ≡ some svc
          → svc.meta.labels ≡ some labels
          → S.admits service (some svc) (aimed svc labels) ≡ true)

  module _ (L : IsLawful K) (S : IsStore K) (owner : OwnerReference)
      (owned : ctx.get_owner_references ≡ ok owner)
      (labelled : (svc : Service)
        → S.objects s.world service ctx.namespaced_name ≡ some svc
        → (labels : Dict) × (svc.meta.labels ≡ some labels))
      (admitted : AdmitsService S owner) where
    -- The service behind the call has the round's selector, and the ports of the deployer's spec.
    abbrev Aimed : K.World → Type 0
    Aimed v =
        (olds : List ServicePort) × (q : Service) × (given : ServiceSpec)
        × (create_or_update_service K ctx s ≡ (ok tt, record s { world = v }))
        × (S.objects v service ctx.namespaced_name ≡ some q)
        × (q.spec ≡ S.fill service given)
        × (given.ports ≡ new_service_ports K olds s.self.spec.containers)
        × (given.selector ≡ some (get_service_labels ctx base.current_round))
        × KeepsOthers (S.objects s.world) (S.objects v) service ctx.namespaced_name

    create_or_update_service-Aimed : (v : K.World) × Aimed v
    create_or_update_service-Aimed = by_lookup (S.objects s.world service ctx.namespaced_name) refl
      where
        by_lookup :
            (p : Option Service)
            → S.objects s.world service ctx.namespaced_name ≡ p
            → (v : K.World) × Aimed v
        by_lookup none there =
            let (e, missing, looked) = S.get-none service ctx.namespaced_name s.world there in
            let (v, created, wrote) =
              create_resource-Wrote K L S ctx service first owner true false s owned (
                IsAdmitted-force S service (set_owner_reference first owner)
                  (S.objects s.world service (object_key first)) admitted.0) in
            (
              v,
              (
                [],
                wrote.stored,
                first.spec,
                missing-steps e v looked missing created,
                wrote.there,
                wrote.same_spec ∙ settled-force (S.fill service first.spec) _,
                refl,
                refl,
                wrote.others,
              ),
            )
        by_lookup (some svc) there =
            let (labels, has_labels) = labelled svc there in
            let looked = S.get-some service ctx.namespaced_name s.world svc there in
            let key = S.objects-key service ctx.namespaced_name s.world svc there in
            let (q, v, updated, wrote) =
              S.update-some service (aimed svc labels) svc s.world
                (ap (λ n. S.objects s.world service n) key ∙ there) refl
                (admitted.1 svc labels there has_labels) in
            (
              v,
              (
                svc.spec.ports,
                wrote.stored,
                (aimed svc labels).spec,
                found-steps svc q labels v looked has_labels updated,
                ap (λ n. S.objects v service n) (sym key) ∙ wrote.there,
                wrote.same_spec,
                refl,
                refl,
                subst (λ n. KeepsOthers (S.objects s.world) (S.objects v) service n) key
                    wrote.others,
              ),
            )

    -- Over a store, with retries as documented and a known owner, for a deployer in the round n of
    -- its status, where the service of its name has labels, if it is there, and where the server admits
    -- the service that is sent: createOrUpdateService succeeds and keeps the deployer; the service of
    -- the deployer's name is there then, with a selector that fits the pods that the deployer makes for
    -- a service in the round n and no others of its pods, and with what the server makes of a spec
    -- whose ports have the names of the exported ports of the deployer's spec, in order; and no other
    -- object is touched.
    pub create_or_update_service-selects :
        (n : ℕ)
        → base.current_round ≡ pos n
        → (v : K.World) × (q : Service) × (given : ServiceSpec) × (selector : Dict)
          × (create_or_update_service K ctx s ≡ (ok tt, record s { world = v }))
          × (S.objects v service ctx.namespaced_name ≡ some q)
          × (q.spec ≡ S.fill service given)
          × (q.spec.selector ≡ some selector)
          × ((m : ℕ) (is_service : Bool)
              → (selects selector (pod_meta K ctx is_service (pos m)).labels ≡ true)
                ↔ ((n ≡ m) × (is_service ≡ true)))
          × (port_names given.ports ≡ all_exported_names K s.self.spec.containers)
          × KeepsOthers (S.objects s.world) (S.objects v) service ctx.namespaced_name
    create_or_update_service-selects n round =
        let (v, (olds, q, given, done, there, filled, ports, selector, others)) =
          create_or_update_service-Aimed in
        (
          v,
          q,
          given,
          get_service_labels ctx (pos n),
          done,
          there,
          filled,
          ap (λ sp. sp.selector) filled
              ∙ S.fill-selector given
              ∙ selector
              ∙ ap (λ r. some (get_service_labels ctx r)) round,
          get_service_labels-selects K ctx n,
          ap port_names ports ∙ new_service_ports-names K olds s.self.spec.containers,
          others,
        )
