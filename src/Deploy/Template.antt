-- ===== src/Deploy/Template.antt =====
-- controllers/deploy/deployer.go, `newPodSpec` and `newJob`: the pods of a deployer.
use cloudrun.Base.{
  ℤ, half, show_int, String, ◌<>◌, Bool, none, some, List, [], ◌∷◌, ◌++◌, map, insert,
  if◌then◌else◌,
}
use cloudrun.Api.Meta.{ObjectMeta, no_type}
use cloudrun.Api.Deployer.{ContainerResource, ContainerSpec, Deployer, Port}
use cloudrun.Cluster.Outcome.{Action, gets, pure, lift, ◌>>=◌}
use cloudrun.Cluster.Workloads.{
  Container, ContainerPort, EnvVar, Job, PodTemplateSpec, ResourceRequirements, new_container,
}
use cloudrun.Cluster.Client.{Cluster}
use cloudrun.Cluster.Crd.{Run, sample}
use cloudrun.Core.Context.{Context, new_object_meta}
use cloudrun.Deploy.Names.{current_round}

abbrev pub env_var : String × String → EnvVar
env_var (k, v) = record { name = k; value = v }

-- A label in a header, whose map is there.
abbrev pub set_label : String → String → ObjectMeta → ObjectMeta
set_label k v m = elim m.labels [
  | none ↦ m
  | some labels ↦ record m { labels = some (insert k v labels) }
]

module _ (K : Cluster) where
  unfoldable pub build_container_port : Port → ContainerPort
  build_container_port p = record {
    name = K.to_lower p.protocol <> ("-" <> show_int p.port);
    container_port = p.port;
    protocol = K.to_upper p.protocol;
  }

  -- `convertOriginPort2ContainerPort`
  unfoldable pub convert_ports : List Port → List ContainerPort
  convert_ports = map build_container_port

  -- The limits are what is asked for, and the requests half of it.
  unfoldable pub requirements : {S : Type 0} → ContainerResource → Action S ResourceRequirements
  requirements r = do
    cpu_limit ← lift (K.must_parse (show_int r.cpu <> "m"))
    memory_limit ← lift (K.must_parse (show_int r.memory <> "Mi"))
    cpu_request ← lift (K.must_parse (show_int (half r.cpu) <> "m"))
    memory_request ← lift (K.must_parse (show_int (half r.memory) <> "Mi"))
    pure (record {
      cpu_limit = cpu_limit;
      memory_limit = memory_limit;
      cpu_request = cpu_request;
      memory_request = memory_request;
    })

  -- `newContainer`
  unfoldable pub to_container : ContainerSpec → Action (Run K.World Deployer) Container
  to_container c = do
    envs ← sample (K.range_map c.envs)
    r ← requirements c.resource
    pure (record (new_container c.name c.image) {
      image_pull_policy = "Always";
      working_dir = c.working_dir;
      command = c.command;
      args = c.args;
      env = map env_var envs;
      ports = convert_ports c.ports;
      resources = some r;
    })

  -- The loop that sorts the containers: first those that run before the others.
  unfoldable pub split_containers :
      List ContainerSpec
      → List Container
      → List Container
      → Action (Run K.World Deployer) (List Container × List Container)
  split_containers [] inits mains = pure (inits, mains)
  split_containers (c ∷ cs) inits mains = do
    made ← to_container c
    split_containers cs (if c.initial then inits ++ (made ∷ []) else inits)
        (if c.initial then mains else mains ++ (made ∷ []))

  module _ (ctx : Context) where
    -- The header of the pods of a round, with `podSpec.Labels["type"]` set.
    abbrev pub pod_meta : Bool → ℤ → ObjectMeta
    pod_meta is_service round =
        set_label "type" (if is_service then "service" else "job") (new_object_meta ctx round)

    unfoldable pub new_pod_spec : Bool → Action (Run K.World Deployer) PodTemplateSpec
    new_pod_spec is_service = do
      d ← gets (λ s. s.self)
      (inits, mains) ← split_containers d.spec.containers [] []
      round ← current_round
      pure (record {
        meta = pod_meta is_service round;
        spec = record {
          volumes = [];
          init_containers = inits;
          containers = mains;
          restart_policy = "";
        };
      })

    unfoldable pub new_job : Action (Run K.World Deployer) Job
    new_job = do
      round ← current_round
      template ← new_pod_spec Bool.false
      pure (record {
        type_meta = no_type;
        meta = new_object_meta ctx round;
        spec = record { selector = none; template = template; backoff_limit = none };
        status = tt;
      })
