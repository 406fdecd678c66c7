-- ===== src/Tests/Samples.antt =====
-- The objects that the tests run on.
use cloudrun.Base.{ℕ, pos, String, true, false, none, some, List, [], ◌∷◌}
use cloudrun.Types.{CommonStatus, Resource, Status, new_status, doing}
use cloudrun.Api.Meta.{TypeMeta, new_meta}
use cloudrun.Api.Builder.{Builder, BuilderContext, DeployerHook}
use cloudrun.Api.Deployer.{ContainerResource, ContainerSpec, Deployer, Port}
use cloudrun.Api.Deployer as D
use cloudrun.Api.ResourcePool.{ResourcePool, ResourceUsage}
use cloudrun.Api.Workflow.{BuildSpec, DeploySpec, Workflow, WorkflowStage}
use cloudrun.Cluster.Outcome.{ok}
use cloudrun.Cluster.Client.{
  Kind, Obj, builder, deployer, workflow, resource_pool, job, stateful_set, deployment, service,
  config_map,
}
use cloudrun.Cluster.Crd.{Run}
use cloudrun.Core.Context.{Context}
use cloudrun.Tests.Memory.{Store}

abbrev pub in_round : ℕ → Status → CommonStatus
in_round n s = record new_status { status = s; current_round = pos n }

abbrev pub type_of : String → TypeMeta
type_of kind = record { api_version = "cloudapi.scs.buaa.edu.cn/v1alpha1"; kind = kind }

abbrev pub no_context : BuilderContext
no_context = record { s3 = none; git = none; http = none; raw = none }

abbrev pub hook : DeployerHook
hook = record {
  deployer_name = "site";
  resource_pool = "pool";
  image = "";
  dynamic_image = true;
  force_round = true;
}

abbrev pub a_builder : ℕ → CommonStatus → Builder
a_builder round base = record {
  type_meta = type_of "Builder";
  meta = new_meta "site" "team";
  spec = record {
    context = no_context;
    workspace_path = "";
    dockerfile_path = "Dockerfile";
    destination = "registry/site:1";
    push_secret_name = "";
    round = pos round;
    deployer_hooks = hook ∷ [];
  };
  status = record { base = some base };
}

abbrev pub share : ContainerResource
share = record { cpu = pos 200; memory = pos 100 }

abbrev pub web_port : Port
web_port = record { port = pos 80; protocol = "tcp"; exported = true }

abbrev pub a_container : ContainerSpec
a_container = record {
  name = "main";
  image = "site:0";
  resource = share;
  initial = false;
  working_dir = "";
  command = [];
  args = [];
  envs = [];
  ports = web_port ∷ [];
}

abbrev pub a_deployer : Deployer
a_deployer = record {
  type_meta = type_of "Deployer";
  meta = new_meta "site" "team";
  spec = record {
    type = D.service;
    containers = a_container ∷ [];
    round = pos 1;
    resource_pool = "pool";
  };
  status = record { base = some (in_round 1 doing); resource_pool = "" };
}

-- The deployer that holds the pool.
abbrev pub a_holder : Deployer
a_holder = record a_deployer { status = record a_deployer.status { resource_pool = "pool" } }

abbrev pub amounts : ℕ → ℕ → Resource
amounts c m = record { cpu = pos c; memory = pos m }

abbrev pub usage_of : String → ResourceUsage
usage_of name = record {
  resource = some (amounts 200 100);
  type_meta = type_of "Deployer";
  namespaced_name = some (record { name = name; namespace = "team" });
  display_name = name;
}

abbrev pub a_pool : List ResourceUsage → Resource → ResourcePool
a_pool usage free = record {
  type_meta = type_of "ResourcePool";
  meta = new_meta "pool" "";
  spec = record { capacity = some (amounts 1000 1000) };
  status = record { usage = usage; free = some free };
}

-- A pool that is to be deleted.
abbrev pub leaving : List ResourceUsage → ResourcePool
leaving usage =
    let p = a_pool usage (amounts 800 900) in
    record p {
      meta = record p.meta {
        finalizers = "finalizer.cloudapi.scs.buaa.edu.cn" ∷ [];
        deletion_timestamp = some (pos 9);
      };
    }

abbrev pub a_build : BuildSpec
a_build = record {
  context = no_context;
  base_image = "golang";
  working_dir = none;
  command = none;
  registry_location = some "registry";
  push_secret_name = none;
}

abbrev pub a_deploy : DeploySpec
a_deploy = record {
  change_env = false;
  file_pair = none;
  base_image = none;
  command = none;
  resource_pool = "pool";
  resource = share;
  envs = [];
  working_dir = none;
  type = D.service;
  ports = web_port ∷ [];
  sidecar_list = [];
}

abbrev pub a_workflow : Workflow
a_workflow = record {
  type_meta = type_of "Workflow";
  meta = new_meta "site" "team";
  spec = record { round = pos 3; build = some a_build; deploy = some a_deploy };
  status = record { stage = WorkflowStage.pending; base = some (in_round 3 doing) };
}

abbrev pub no_objects : (k : Kind) → List (Obj k)
no_objects builder = []
no_objects deployer = []
no_objects workflow = []
no_objects resource_pool = []
no_objects job = []
no_objects stateful_set = []
no_objects deployment = []
no_objects service = []
no_objects config_map = []

abbrev pub empty : Store
empty = record { shelf = no_objects; pods = []; clock = 5; ids = 0 }

-- The server with one pool.
abbrev pub with_pool : ResourcePool → Store
with_pool p = record empty { shelf = shelf }
  where
    shelf : (k : Kind) → List (Obj k)
    shelf resource_pool = p ∷ []
    shelf k = no_objects k

abbrev pub ctx : Context
ctx = record {
  namespaced_name = record { name = "site"; namespace = "team" };
  get_owner_references = ok (record {
    api_version = "v1";
    kind = "Builder";
    name = "site";
    uid = "u";
    block_owner_deletion = some true;
  });
}

abbrev pub run : {M : Type 0} → Store → M → Run Store M
run w o = record { world = w; self = o }
