-- ===== src/Tests/Startup.antt =====
-- The start of the process over a runtime that keeps a log.
use cloudrun.Base.{◌≡◌, ◌↔◌, String, List, [], ◌∷◌, ◌++◌}
use cloudrun.Cluster.Outcome.{ok, Action}
use cloudrun.Startup.{
  Custom, Runtime, application, builder, deployer, process, resource_pool, returned, workflow,
}
use cloudrun.Startup.Order.{Started, process-returned}

abbrev name_of : Custom → String
name_of application = "application"
name_of builder = "builder"
name_of deployer = "deployer"
name_of resource_pool = "pool"
name_of workflow = "workflow"

abbrev note : String → Action (List String) (Unit {0})
note text log = (ok tt, log ++ (text ∷ []))

abbrev logging : Runtime
logging = record {
  World = List String;
  Manager = Unit {0};
  parse = λ f log. (f, log);
  add_client_go = note "client-go";
  add_to_scheme = λ version types. note version.group;
  new_manager = λ options. note "manager";
  complete = λ m c. note (name_of c);
  add_healthz_check = λ m text. note text;
  add_readyz_check = λ m text. note text;
  start = λ m. note "start";
}

abbrev log : List String
log =
    "client-go" ∷ "cloudapi.scs.buaa.edu.cn" ∷ "manager" ∷ "application" ∷ "builder" ∷ "deployer"
    ∷ "workflow" ∷ "pool" ∷ "healthz" ∷ "readyz" ∷ "start" ∷ []

process-returned_example : (process logging [] ≡ (returned, log)) ↔ Started logging [] log
process-returned_example = process-returned logging [] log
