-- ===== src/Tests/Served.antt =====
-- The theorems on a service and on a workflow over a store, applied to the cluster in memory.
use cloudrun.Base.{ℕ, pos, none, Bool, ◌↔◌, Dict, ◌≡◌, refl, true, some, List, [], ◌∷◌, arith}
use cloudrun.Types.{doing}
use cloudrun.Cluster.Outcome.{ok}
use cloudrun.Cluster.Client.{Kind, Obj, builder, deployer}
use cloudrun.Api.Meta.{new_meta, no_type}
use cloudrun.Cluster.Client as Client
use cloudrun.Cluster.Workloads.{Service, ServiceSpec}
use cloudrun.Deploy.Ports.{all_exported_names, port_names}
use cloudrun.Deploy.Selectors.{selects}
use cloudrun.Deploy.Service.{create_or_update_service}
use cloudrun.Deploy.Template.{pod_meta}
use cloudrun.Store.Service.{create_or_update_service-selects}
use cloudrun.Store.{KeepsOthers}
use cloudrun.Tests.Memory.{Store, memory, memory-IsLawful}
use cloudrun.Tests.Stored.{memory-IsStore, stored}
use cloudrun.Tests.Samples.{a_deployer, ctx, empty, in_round, no_objects, run}
use cloudrun.Tests.Stores.{holder}

abbrev before_labels : Dict
before_labels = ("owner.name", "site") ∷ ("round", "0") ∷ []

-- The service as the round 0 left it.
abbrev led : Service
led = record {
  type_meta = no_type;
  meta = record (new_meta "site" "team") { labels = some before_labels };
  spec = record { selector = none; ports = []; type = "NodePort" };
  status = tt;
}

-- The server with a service.
abbrev serving : Store
serving = record empty { shelf = shelf }
  where
    shelf : (k : Kind) → List (Obj k)
    shelf Client.service = led ∷ []
    shelf k = no_objects k

serving-labels :
    (svc : Service)
    → memory-IsStore.objects serving Client.service ctx.namespaced_name ≡ some svc
    → (labels : Dict) × (svc.meta.labels ≡ some labels)
unfolding memory-IsStore
serving-labels svc e = (before_labels, ground arith)

create_or_update_service-selects_example :
    (v : Store) × (q : Service) × (given : ServiceSpec) × (selector : Dict)
    × (create_or_update_service memory ctx (run serving a_deployer) ≡ (ok tt, run v a_deployer))
    × (stored v Client.service ctx.namespaced_name ≡ some q)
    × (q.spec ≡ given)
    × (q.spec.selector ≡ some selector)
    × ((m : ℕ) (is_service : Bool)
        → (selects selector (pod_meta memory ctx is_service (pos m)).labels ≡ true)
          ↔ ((1 ≡ m) × (is_service ≡ true)))
    × (port_names given.ports ≡ all_exported_names memory a_deployer.spec.containers)
    × KeepsOthers (stored serving) (stored v) Client.service ctx.namespaced_name
unfolding memory-IsStore
create_or_update_service-selects_example =
    create_or_update_service-selects memory ctx (run serving a_deployer) (in_round 1 doing) refl
      memory-IsLawful memory-IsStore holder refl serving-labels
      (refl, λ svc labels there labelled. refl) 1 refl
