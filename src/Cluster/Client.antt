-- ===== src/Cluster/Client.antt =====
-- The API server behind `client.Client`, the clock, and the libraries that the controllers call:
-- a record of operations over an unknown world. Its laws stand in `IsLawful`.
use cloudrun.Base.{ℤ, ◌≡◌, String, Bool, true, false, List, Dict}
use cloudrun.Types.{NamespacedName, Status}
use cloudrun.Api.Meta.{Object, ObjectMeta}
use cloudrun.Api.Builder.{BuilderSpec, BuilderStatus}
use cloudrun.Api.Deployer.{DeployerSpec, DeployerStatus}
use cloudrun.Api.Workflow.{WorkflowSpec, WorkflowStatus}
use cloudrun.Api.ResourcePool.{ResourcePoolSpec, ResourcePoolStatus}
use cloudrun.Cluster.Outcome.{Outcome, ok, err, Error, is_conflict, is_panic}
use cloudrun.Cluster.Workloads.{ConfigMapContents, JobSpec, Pod, ServiceSpec, StatefulSetSpec}

-- The kinds of object that the controllers name.
pub data Kind : Type 0 where
  builder deployer workflow resource_pool job stateful_set deployment service config_map : Kind

abbrev pub Spec : Kind → Type 0
Spec builder = BuilderSpec
Spec deployer = DeployerSpec
Spec workflow = WorkflowSpec
Spec resource_pool = ResourcePoolSpec
Spec job = JobSpec
Spec stateful_set = StatefulSetSpec
Spec deployment = Unit
Spec service = ServiceSpec
Spec config_map = ConfigMapContents

abbrev pub State : Kind → Type 0
State builder = BuilderStatus
State deployer = DeployerStatus
State workflow = WorkflowStatus
State resource_pool = ResourcePoolStatus
State _ = Unit

abbrev pub Obj : Kind → Type 0
Obj k = Object (Spec k) (State k)

-- `core.History`
pub record History (T : Type 0) : Type 0 where
  pub round : ℤ
  pub status : Status
  pub spec : T
  pub start_time : ℤ
  pub end_time : ℤ

pub record Cluster : Type 1 where
  pub World : Type 0
  -- `client.Client`: a call reads or changes the world; a write returns the object as the server
  -- has it then, which the client copies into the caller's.
  pub get : (k : Kind) → NamespacedName → World → Outcome (Obj k) × World
  pub list_pods : Dict → World → Outcome (List Pod) × World
  pub create : (k : Kind) → Obj k → World → Outcome (Obj k) × World
  pub update : (k : Kind) → Obj k → World → Outcome (Obj k) × World
  pub update_status : (k : Kind) → Obj k → World → Outcome (Obj k) × World
  pub delete : (k : Kind) → Obj k → World → Outcome (Unit {0}) × World
  -- `apiutil.GVKForObject`: the kind under which an object is registered
  pub gvk_for_object : Kind → Outcome Kind
  -- `retry.RetryOnConflict` with `retry.DefaultRetry`
  pub retry_on_conflict : (S : Type 0) → (S → Outcome (Unit {0}) × S) → S → Outcome (Unit {0}) × S
  -- `controllerutil`
  pub contains_finalizer : ObjectMeta → String → Bool
  pub add_finalizer : ObjectMeta → String → ObjectMeta
  pub remove_finalizer : ObjectMeta → String → ObjectMeta
  -- `time.Now().Unix()` and `uuid.NewString()`
  pub now : World → ℤ × World
  pub new_uuid : World → String × World
  -- the order in which `range` visits a map
  pub range_map : Dict → World → Dict × World
  -- `json.Marshal` of the history of an object
  pub marshal : (k : Kind) → History (Spec k) → Outcome String
  -- `url.Parse`, `filepath.Join` and `path.Join`, `strings.ToLower`, `strings.ToUpper`
  pub parse_url : String → Outcome (Unit {0})
  pub join : String → String → String
  pub to_lower : String → String
  pub to_upper : String → String
  -- `resource.MustParse`
  pub must_parse : String → Outcome String

-- How `RetryOnConflict` may run: it ends with the first result that is no conflict, or gives up
-- with a conflict, and each round starts from what the one before left.
pub data Runs {S : Type 0} (f : S → Outcome (Unit {0}) × S) (r : Outcome (Unit {0})) (t : S)
    : S → Type 0 where
  last : {s : S} → f s ≡ (r, t) → Runs f r t s
  again :
      {s : S} (e : Error) (u : S)
      → f s ≡ (err e, u)
      → is_conflict e ≡ true
      → Runs f r t u
      → Runs f r t s

-- The documented behaviour that proofs rely on.
pub record IsLawful (K : Cluster) : Type 1 where
  pub retries :
      (S : Type 0) (f : S → Outcome (Unit {0}) × S) (s : S)
      → Runs f (K.retry_on_conflict S f s).0 (K.retry_on_conflict S f s).1 s

-- `Status().Update` answers with the status that it was given.
pub record KeepsStatus (K : Cluster) : Type 1 where
  pub update_status-status :
      (k : Kind) (o o' : Obj k) (w w' : K.World)
      → K.update_status k o w ≡ (ok o', w')
      → o'.status ≡ o.status

-- The calls that look an object up and write its status report what goes wrong as an error.
pub record IsCalm (K : Cluster) : Type 1 where
  pub get-is_panic :
      (k : Kind) (n : NamespacedName) (w : K.World) → is_panic (K.get k n w).0 ≡ false
  pub update_status-is_panic :
      (k : Kind) (o : Obj k) (w : K.World) → is_panic (K.update_status k o w).0 ≡ false
