-- ===== src/Lib.antt =====
-- A model of the controllers of cloudrun: four reconcilers on custom resources of Kubernetes, which
-- build images, run jobs and services, and share out CPU and memory.
--
-- The parts and how they interact. A workflow (controllers/workflow_controller.go) makes a builder
-- and a deployer (controllers/workflow/workflow.go). A builder (controllers/builder_controller.go,
-- controllers/build) runs a job that builds an image, and at its first success starts a round of
-- the deployers that its hooks name. A deployer (controllers/deployer_controller.go,
-- controllers/deploy) takes its share of a resource pool and runs a job or a service. A resource
-- pool (controllers/resourcepool_controller.go) accounts for what its deployers use. Each resource
-- has a round in its spec and one in its status, and works when the first is ahead. What all share
-- (contexts, jobs, pods, status, history) is controllers/core.
--
-- The files:
--   Base         numbers, machine integers, texts and maps that Go's types stand for
--   Types        types/status.go, types/resource.go, types/types.go as values; Types/Heap and
--                Types/Copy have the same structs with their pointers, for the DeepCopy functions
--   Api          api/v1alpha1: builder_types.go, deployer_types.go, workflow_types.go,
--                resourcepool_types.go, application_types.go; a spec and a status are records, and
--                Schema has the defaults that the markers of the types give
--   Cluster      the API server, the clock and the libraries as a record of operations (Client),
--                the outcome of a call (Outcome: a value, an error or a panic, and the state that
--                is left), the objects of Kubernetes that the code makes (Workloads), and the
--                interface CloudRunCRD of types/crd.go (Crd)
--   Core         controllers/core; Context, Status, History, Pod and Job for the files of the
--                package (GetSubResource is get_sub_resource, CreateAndWatchJob is
--                create_and_watch_job, and so on for all names)
--   Build        controllers/build: Names and Job for builder.go with Trigger for its
--                TriggerDeployer, Fetch for s3.go, http.go and git.go, Raw for raw.go
--   Deploy       controllers/deploy: Resources for ReleaseResource and BegResource, Template for the
--                pods, Handle for the rest of deployer.go, Service for service.go
--   Workflow     controllers/workflow/workflow.go: Dockerfile for getDockerfile, Workload for the rest
--   Finalize     controllers/finalize/finalize.go
--   Controllers  the four reconcilers, and that of an application, which does nothing; Reconcile has
--                the lookup, the recovery from a panic and the finalizer, which they repeat
--   Shares       a resource pool under a sequence of writes of several deployers and its controller:
--                the grants of BegResource, the releases of ReleaseResource, the accounts
--   Store        the API server as a store of objects by kind and name (IsStore), and what the calls do
--                to it: CreateResource (Create), TriggerDeployer (Trigger, Hooks, and Unhooked for
--                what it leaves), GenerateWorkload (Generate, Workload), the two of them after each
--                other (Delivery), the next round of a builder (Round), of a workflow (Worked) and
--                of a deployer (Restart; Cleanup and Share for what it deletes, releases and
--                takes), the job of a builder (Made, Start) and its end (Finish), the start of a
--                service (Pod, Sets, Launch), createOrUpdateService (Service), two grants without
--                the accounts between them (Overrun), and the reconcilers as wholes (Reconcile)
--   Startup      main.go, the functions SetupWithManager, and the registrations of api/v1alpha1
--   Tests        a cluster in memory, and the theorems at concrete inputs
-- The other modules hold proofs and are named for what they are about.
--
-- State. A reconciliation runs on the world of the cluster and the object under reconciliation (Run);
-- the Go code holds a pointer to that object in several places, and here all parts read and write
-- the one copy. An action takes the state and returns an outcome and the state that is left, also
-- when it fails. A call of the client that writes returns the object as the server has it then,
-- which replaces the copy. A Reconcile as a whole takes a name and a world.
--
-- Assumptions. The record Cluster has the operations of the libraries that the code calls, and its
-- world is unknown. IsLawful says of RetryOnConflict that it runs its function, again while that
-- ends in a conflict, and returns the last result. KeepsStatus says that a write of the status is
-- answered by that status. IsCalm says that a lookup and a write of the status end in a value or an
-- error, not in a panic. IsStore says that a lookup answers with what is stored; that an update and a
-- create of what is there, or is not, succeed where the server admits the object, and change that one
-- object only; that a write of the status and a deletion do so too; that a builder and a deployer are
-- stored with the defaults of their schemas (Api/Schema, from the markers in api/v1alpha1) for what is
-- left out, while what the server makes of the specs of its own kinds is left open but for the
-- selector of a service; that a write of the status changes of the header the resource version alone;
-- that a deletion takes effect at once; and that nobody else writes between the calls of one run. What
-- the server admits is unknown, and a theorem that needs it says of which objects; only a deployer that
-- is stored may always get another round, image, pool and status, since its schema asks nothing of
-- these. The texts that are URLs or quantities are unknown too. A panic has an error as its value, as
-- those of the runtime and of resource.MustParse have. A theorem that needs an assumption has it as
-- a hypothesis; Tests/Memory has a cluster for which the first three hold, and Tests/Stored shows
-- the fourth of it.
--
-- Numbers. int, int32 and int64 are integers over the native naturals, and sums are wrapped where
-- the code adds. The text of a number n is made with n + 1 digits of fuel, of which it needs fewer.
-- All loops of the code run over lists; the only fuel else is that of the cluster in memory.
--
-- Sharing. Only the DeepCopy functions of types are about memory, and they stand on a heap of three
-- kinds of cells (Types/Heap), where a slice is the whole of an array. In Shares a pool is what the
-- server has, and each step is one accepted write of it; its grants are those of deployers that
-- ask for amounts, between two of which the accounts run, since BegResource does not lower what is
-- free. Startup has the runtime of the process as a record of operations.
--
-- Not modelled: logging and its flags, the generated copies (api/v1alpha1/zz_generated.deepcopy.go),
-- the types of lists of resources, and concurrent writes within one call to the server.
pub mod Base
pub mod Types
pub mod Api
pub mod Cluster
pub mod Core
pub mod Build
pub mod Deploy
pub mod Workflow
pub mod Finalize
pub mod Controllers
pub mod Shares
pub mod Startup
pub mod Store
mod Tests
