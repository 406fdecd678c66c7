-- ===== src/Startup.antt =====
-- main.go, the functions SetupWithManager of controllers/*_controller.go, and the registrations of
-- api/v1alpha1: how the process starts. The runtime that main calls is a parameter; its log is left
-- out.
pub mod Order
use cloudrun.Base.{ℕ, String, Bool, true, false, List, [], ◌∷◌, ◌++◌}
use cloudrun.Cluster.Outcome.{Outcome, ok, err, panic, Error, Action, ◌>>◌}

-- The custom resources, by the names of their Go types.
pub data Custom : Type 0 where
  application builder deployer resource_pool workflow : Custom

-- A Go type that a scheme knows: that of one resource, or that of a list of them.
pub data Registered : Type 0 where
  one many : Custom → Registered

-- `GroupVersion`
pub record GroupVersion : Type 0 where
  pub group : String
  pub version : String

abbrev pub group_version : GroupVersion
group_version = record { group = "cloudapi.scs.buaa.edu.cn"; version = "v1alpha1" }

-- What the `init` functions of the package register, in the order of the files.
abbrev pub register_application : List Registered → List Registered
register_application types = types ++ (one application ∷ many application ∷ [])

abbrev pub register_builder : List Registered → List Registered
register_builder types = types ++ (one builder ∷ many builder ∷ [])

abbrev pub register_deployer : List Registered → List Registered
register_deployer types = types ++ (one deployer ∷ many deployer ∷ [])

abbrev pub register_resource_pool : List Registered → List Registered
register_resource_pool types = types ++ (one resource_pool ∷ many resource_pool ∷ [])

abbrev pub register_workflow : List Registered → List Registered
register_workflow types = types ++ (one workflow ∷ many workflow ∷ [])

abbrev pub scheme_builder : List Registered
scheme_builder =
    register_workflow
      (register_resource_pool (register_deployer (register_builder (register_application []))))

-- The flags, and what `ctrl.NewManager` is given of them.
pub record Flags : Type 0 where
  pub metrics_addr : String
  pub probe_addr : String
  pub enable_leader_election : Bool

pub record Options : Type 0 where
  pub metrics_bind_address : String
  pub port : ℕ
  pub health_probe_bind_address : String
  pub leader_election : Bool
  pub leader_election_id : String

abbrev pub default_flags : Flags
default_flags = record {
  metrics_addr = ":8080";
  probe_addr = ":8081";
  enable_leader_election = false;
}

unfoldable pub options_of : Flags → Options
options_of f = record {
  metrics_bind_address = f.metrics_addr;
  port = 9443;
  health_probe_bind_address = f.probe_addr;
  leader_election = f.enable_leader_election;
  leader_election_id = "acf06a82.scs.buaa.edu.cn";
}

-- What the code calls of controller-runtime, client-go and flag.
pub record Runtime : Type 1 where
  pub World : Type 0
  pub Manager : Type 0
  -- `flag.Parse`, from the defaults
  pub parse : Flags → World → Flags × World
  -- `clientgoscheme.AddToScheme`, and `AddToScheme` of a scheme builder
  pub add_client_go : Action World (Unit {0})
  pub add_to_scheme : GroupVersion → List Registered → Action World (Unit {0})
  -- `ctrl.NewManager` with the process's configuration
  pub new_manager : Options → Action World Manager
  -- `ctrl.NewControllerManagedBy(mgr).For(...).Complete(r)`
  pub complete : Manager → Custom → Action World (Unit {0})
  pub add_healthz_check : Manager → String → Action World (Unit {0})
  pub add_readyz_check : Manager → String → Action World (Unit {0})
  -- `mgr.Start`, which blocks until the process is told to stop
  pub start : Manager → Action World (Unit {0})

-- How `main` ends.
pub data Exit : Type 0 where
  returned : Exit
  exited : ℕ → Exit
  crashed : Error → Exit

module _ {W A : Type 0} where
  abbrev exits_or : (A → W → Exit × W) → Outcome A × W → Exit × W
  exits_or f (ok a, w) = f a w
  exits_or f (err e, w) = (exited 1, w)
  exits_or f (panic e, w) = (crashed e, w)

  -- `if err != nil { os.Exit(1) }`, and what follows.
  unfoldable pub or_exit : Action W A → (A → W → Exit × W) → W → Exit × W
  or_exit m f w = exits_or f (m w)

  -- `utilruntime.Must`
  abbrev must_of : Outcome A × W → Outcome A × W
  must_of (ok a, w) = (ok a, w)
  must_of (err e, w) = (panic e, w)
  must_of (panic e, w) = (panic e, w)

  unfoldable pub must : Action W A → Action W A
  must m w = must_of (m w)

module _ (R : Runtime) where
  -- `SetupWithManager`, for the kind of each reconciler
  unfoldable pub setup_application : R.Manager → Action R.World (Unit {0})
  setup_application m = R.complete m application

  unfoldable pub setup_builder : R.Manager → Action R.World (Unit {0})
  setup_builder m = R.complete m builder

  unfoldable pub setup_deployer : R.Manager → Action R.World (Unit {0})
  setup_deployer m = R.complete m deployer

  unfoldable pub setup_workflow : R.Manager → Action R.World (Unit {0})
  setup_workflow m = R.complete m workflow

  unfoldable pub setup_resource_pool : R.Manager → Action R.World (Unit {0})
  setup_resource_pool m = R.complete m resource_pool

  -- `init`
  unfoldable pub init : Action R.World (Unit {0})
  init = must R.add_client_go >> must (R.add_to_scheme group_version scheme_builder)

  abbrev return_ : Unit {0} → R.World → Exit × R.World
  return_ _ w = (returned, w)

  -- From the manager on.
  unfoldable pub run_manager : R.Manager → R.World → Exit × R.World
  run_manager m = or_exit (setup_application m) λ _. or_exit (setup_builder m) λ _.
      or_exit (setup_deployer m) λ _. or_exit (setup_workflow m) λ _.
        or_exit (setup_resource_pool m) λ _.
          or_exit (R.add_healthz_check m "healthz")
            λ _. or_exit (R.add_readyz_check m "readyz") λ _. or_exit (R.start m) return_

  unfoldable pub main : R.World → Exit × R.World
  main w =
      let (flags, v) = R.parse default_flags w in
      or_exit (R.new_manager (options_of flags)) run_manager v

  -- The process: `init` runs before `main`.
  abbrev after_init : Outcome (Unit {0}) × R.World → Exit × R.World
  after_init (ok _, w) = main w
  after_init (err e, w) = (crashed e, w)
  after_init (panic e, w) = (crashed e, w)

  unfoldable pub process : R.World → Exit × R.World
  process w = after_init (init w)
