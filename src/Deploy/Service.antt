-- ===== src/Deploy/Service.antt =====
-- controllers/deploy/service.go: the stateful set of a round, and the service that leads to it.
use cloudrun.Base.{
  ℤ, pos, show_int, String, ◌===◌, Bool, true, false, ◌||◌, Option, none, some, List, [], ◌∷◌, ◌++◌,
  Dict, insert, if◌then◌else◌,
}
use cloudrun.Types.{Status, is_doing, is_done, is_failed, pending}
use cloudrun.Api.Meta.{new_meta, no_type}
use cloudrun.Api.Deployer.{ContainerSpec, Port}
use cloudrun.Cluster.Outcome.{
  Action, gets, nil_map, panics, pure, attempt, done, or_wrap, ◌>>=◌, ◌>>◌,
}
use cloudrun.Cluster.Workloads.{Service, ServicePort, StatefulSet}
use cloudrun.Cluster.Client.{Cluster, deployer, deployment, stateful_set}
use cloudrun.Cluster.Client as Client
use cloudrun.Cluster.Crd.{deployer_crd, on_world, set_status}
use cloudrun.Core.Context.{
  Context, create_resource, get_service_labels, get_sub_resource, name, namespace, new_object_meta,
  owner_list, unless_missing,
}
use cloudrun.Core.Status.{publish_status}
use cloudrun.Core.Pod.{get_status_from_pod}
use cloudrun.Core.Job.{note_end, note_pod}
use cloudrun.Deploy.Names.{current_round}
use cloudrun.Deploy.Resources.{Deploying}
use cloudrun.Deploy.Template.{build_container_port, new_pod_spec}

-- `searchInSvcPorts`: the service's port of that name.
unfoldable pub search_ports : String → List ServicePort → Option ServicePort
search_ports n [] = none
search_ports n (p ∷ ps) = if p.name === n then some p else search_ports n ps

module _ (K : Cluster) where
  -- A port that the service has stays as it is, with the node's port that the server gave it.
  unfoldable pub service_port : List ServicePort → Port → ServicePort
  service_port olds p =
      let c = build_container_port K p in
      elim (search_ports c.name olds) [
        | some old ↦ old
        | none ↦ record {
          name = c.name;
          protocol = c.protocol;
          port = c.container_port;
          target_port = c.container_port;
          node_port = pos 0;
        }
      ]

  -- The inner loop, over a container's ports: those that are exported.
  unfoldable pub export_ports : List ServicePort → List Port → List ServicePort
  export_ports olds [] = []
  export_ports olds (p ∷ ps) =
      let rest = export_ports olds ps in if p.exported then service_port olds p ∷ rest else rest

  unfoldable pub new_service_ports : List ServicePort → List ContainerSpec → List ServicePort
  new_service_ports olds [] = []
  new_service_ports olds (c ∷ cs) = export_ports olds c.ports ++ new_service_ports olds cs

  module _ (ctx : Context) where
    abbrev pub fresh_service : ℤ → Service
    fresh_service round = record {
      type_meta = no_type;
      meta = record (new_meta (name ctx) (namespace ctx)) {
        labels = some (("owner.name", name ctx) ∷ ("round", show_int round) ∷ []);
        owner_references = owner_list ctx;
      };
      spec = record {
        selector = some (get_service_labels ctx round);
        ports = [];
        type = "NodePort";
      };
      status = tt;
    }

    -- `service.Labels["round"] = ...`
    abbrev pub set_round_label : {S : Type 0} → ℤ → Option Dict → Action S (Option Dict)
    set_round_label round none = panics nil_map
    set_round_label round (some labels) = pure (some (insert "round" (show_int round) labels))

    -- The service with this round's ports, selector and label.
    unfoldable pub aim_service : {S : Type 0} → ℤ → List ContainerSpec → Service → Action S Service
    aim_service round containers svc = do
      labels ← set_round_label round svc.meta.labels
      pure (record svc {
        meta = record svc.meta { labels = labels };
        spec = record svc.spec {
          ports = new_service_ports svc.spec.ports containers;
          selector = some (get_service_labels ctx round);
        };
      })

    abbrev pub put_service : Option Service → Service → Deploying K (Unit {0})
    put_service none svc = create_resource K ctx Client.service svc true false
    put_service (some _) svc = do
      or_wrap "failed to update service for service type" (on_world (K.update Client.service svc))
      done

    unfoldable pub create_or_update_service : Deploying K (Unit {0})
    create_or_update_service = do
      reply ← attempt (on_world (K.get Client.service ctx.namespaced_name))
      found ← unless_missing "failed to get service for service type" reply
      round ← current_round
      d ← gets (λ s. s.self)
      svc ←
          aim_service round d.spec.containers
            (elim found [ none ↦ fresh_service round | some svc ↦ svc ])
      put_service found svc

    unfoldable pub create_stateful_set : Deploying K (Unit {0})
    create_stateful_set = do
      round ← current_round
      template ← new_pod_spec K ctx true
      let set : StatefulSet = record {
        type_meta = no_type;
        meta = new_object_meta ctx round;
        spec = record {
          replicas = some (pos 1);
          selector = some (get_service_labels ctx round);
          template = template;
        };
        status = tt;
      }
      create_resource K ctx stateful_set set true false

    -- The steps behind the lookup of the stateful set.
    unfoldable pub start_service : Deploying K (Unit {0})
    start_service = do
      set_status K deployer deployer_crd (λ s. record s { status = pending })
      publish_status K deployer deployer_crd none
      or_wrap "failed to create deployment for service type" create_stateful_set

    abbrev pub ends_watch : Status → Bool
    ends_watch s = is_done s || is_failed s || is_doing s

    unfoldable pub watch_service : StatefulSet → Deploying K (Unit {0})
    watch_service set = do
      or_wrap "failed to create or update service for service type" create_or_update_service
      report ←
          or_wrap "failed to get status from pod for service type"
            (get_status_from_pod K set.spec.selector)
      note_pod K deployer deployer_crd ctx report.pod
      set_status K deployer deployer_crd
          (λ s. record s { status = report.status; message = report.message })
      if ends_watch report.status then note_end K deployer deployer_crd ctx else done

    abbrev pub start_or_watch : Option StatefulSet → Deploying K (Unit {0})
    start_or_watch none = start_service
    start_or_watch (some set) = watch_service set

    unfoldable pub handle_service : Deploying K (Unit {0})
    handle_service = do
      round ← current_round
      found ←
          or_wrap "failed to get deployment for service type"
            (get_sub_resource K ctx stateful_set round)
      start_or_watch found

    abbrev delete_found : Option (Client.Obj deployment) → Deploying K (Unit {0})
    delete_found none = done
    delete_found (some o) =
        or_wrap "failed to delete deployment for service type" (on_world (K.delete deployment o))

    unfoldable pub delete_deployment : Deploying K (Unit {0})
    delete_deployment = do
      round ← current_round
      found ← get_sub_resource K ctx deployment round
      delete_found found
