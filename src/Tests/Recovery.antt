-- ===== src/Tests/Recovery.antt =====
-- The theorems on how a reconciliation ends at concrete inputs.
use cloudrun.Base.{
  none, true, show_int, pos, ◌≡◌, refl, ◌||◌, false, some, List, [], ◌∷◌, if◌then◌else◌,
}
use cloudrun.Types.{NamespacedName, done, doing, is_done, is_failed}
use cloudrun.Api.Builder.{Builder, common_status, get_round}
use cloudrun.Api.Workflow.{Workflow}
use cloudrun.Workflow.Workload.{generate_workload, new_builder}
use cloudrun.Workflow.Dockerfile.{compile_stage, first_stage, get_dockerfile, second_stage}
use cloudrun.Core.History.{backup_state, common_history}
use cloudrun.Api.Meta.{new_meta, no_type}
use cloudrun.Cluster.Outcome.{ok, is_panic, Outcome}
use cloudrun.Cluster.Client.{Kind, Obj, builder, job, workflow}
use cloudrun.Cluster.Crd.{Reconciling, Run, builder_crd}
use cloudrun.Cluster.CrdLaws.{base_of, builder_crd-IsPointer}
use cloudrun.Cluster.Workloads.{Job, Pod, pod_running, pod_succeeded}
use cloudrun.Controllers.Builder as BuilderController
use cloudrun.Controllers.Builder.Requeue.{this_round-requeues}
use cloudrun.Controllers.Deployer as DeployerController
use cloudrun.Controllers.Workflow as WorkflowController
use cloudrun.Controllers.Reconcile.{no_requeue, requeue}
use cloudrun.Controllers.Recovery.{reconcile-is_panic}
use cloudrun.Core.Context.{get_sub_resource, sub_name}
use cloudrun.Core.Job.{create_and_watch_job, finish_watch, get_job, note_end, note_pod, watch_job}
use cloudrun.Core.Pod.{get_status_from_pod, phase_status, report_pods}
use cloudrun.Core.Status.{is_done_or_failed}
use cloudrun.Core.Job.Failure.{at_hook}
use cloudrun.Core.Job.Progress.{create_and_watch_job-done}
use cloudrun.Build.Job.{new_job}
use cloudrun.Tests.Memory.{memory, memory-IsCalm, memory-KeepsStatus, Store}
use cloudrun.Tests.Samples.{a_builder, a_workflow, ctx, empty, in_round, run}

abbrev site : NamespacedName
site = record { name = "site"; namespace = "team" }

-- A workflow with a build and without a deploy part.
abbrev halved : Workflow
halved = record a_workflow {
  meta = record a_workflow.meta { finalizers = "finalizer.cloudapi.scs.buaa.edu.cn" ∷ [] };
  spec = record a_workflow.spec { deploy = none };
  status = record a_workflow.status { base = some (in_round 0 done) };
}

-- The server with that workflow.
abbrev crashing : Store
crashing = record empty { shelf = shelf }
  where
    shelf : (k : Kind) → List (Obj k)
    shelf workflow = halved ∷ []
    shelf k = empty.shelf k

-- The work on it panics.
halved-is_panic : is_panic (WorkflowController.by_round memory ctx (run crashing halved)).0 ≡ true
unfolding WorkflowController.by_round WorkflowController.next_round generate_workload new_builder
    get_dockerfile common_status backup_state common_history first_stage second_stage compile_stage
    cloudrun.Api.Workflow.common_status
halved-is_panic = refl

reconcile-is_panic_example :
    (is_panic (BuilderController.reconcile memory site crashing).0 ≡ false)
    × (is_panic (DeployerController.reconcile memory site crashing).0 ≡ false)
    × (is_panic (WorkflowController.reconcile memory site crashing).0 ≡ false)
reconcile-is_panic_example = reconcile-is_panic memory memory-IsCalm site crashing

-- A server on which the round's job has succeeded.
abbrev pub the_job : Job
the_job = record {
  type_meta = no_type;
  meta = new_meta "site-2" "team";
  spec = record {
    selector = some (("job", "site-2") ∷ []);
    template = record {
      meta = new_meta "site-2" "team";
      spec = record {
        volumes = [];
        init_containers = [];
        containers = [];
        restart_policy = "Never";
      };
    };
    backoff_limit = some (pos 0);
  };
  status = tt;
}

abbrev pub the_pod : Pod
the_pod = record {
  type_meta = no_type;
  meta = new_meta "site-2-x" "team";
  spec = the_job.spec.template.spec;
  status = record { phase = pod_succeeded; message = "" };
}

abbrev pub ended : Store
ended = record empty { shelf = shelf; pods = the_pod ∷ [] }
  where
    shelf : (k : Kind) → List (Obj k)
    shelf job = the_job ∷ []
    shelf k = empty.shelf k

abbrev at_work : Run Store Builder
at_work = run ended (a_builder 2 (in_round 2 doing))

abbrev idle_hook : Reconciling memory builder (Unit {0})
idle_hook s = (ok tt, s)

abbrev run_once : Outcome (Unit {0}) × Run Store Builder
run_once =
    create_and_watch_job memory builder builder_crd ctx (new_job memory ctx) false (some idle_hook)
      at_work

-- The pod's worker is noted, and then the end.
abbrev noted : Run Store Builder
noted =
    at_hook memory builder builder_crd builder_crd-IsPointer ctx
      (note_pod memory builder builder_crd ctx (some the_pod) at_work).1

create_and_watch_job-done_example :
    (u : Run Store Builder) × (run_once ≡ (ok tt, u))
    × ((base_of memory builder builder_crd builder_crd-IsPointer u).status ≡ done)
    × (u.world ≡ ended)
unfolding common_status get_round sub_name show_int note_end note_pod
create_and_watch_job-done_example =
    create_and_watch_job-done memory builder builder_crd builder_crd-IsPointer ctx idle_hook
      (new_job memory ctx) the_job (("job", "site-2") ∷ []) the_pod [] ended ended at_work noted
      refl refl refl refl refl refl

abbrev busy : Store
busy = record ended {
  pods = record the_pod { status = record { phase = pod_running; message = "" } } ∷ [];
}

abbrev watching : Run Store Builder
watching = run busy (a_builder 2 (in_round 2 doing))

abbrev watched : Run Store Builder
watched = (BuilderController.watch memory ctx watching).1

this_round-requeues_example :
    let status = (base_of memory builder builder_crd builder_crd-IsPointer watched).status in
    (BuilderController.this_round memory ctx watching).0
    ≡ ok (if is_done status || is_failed status then no_requeue else requeue 5)
unfolding BuilderController.watch common_status get_round sub_name show_int create_and_watch_job
    is_done_or_failed get_job get_sub_resource watch_job get_status_from_pod note_pod report_pods
    phase_status finish_watch
this_round-requeues_example =
    this_round-requeues memory memory-IsCalm memory-KeepsStatus ctx watching watched refl
