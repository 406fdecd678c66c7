-- ===== src/Tests/Pods.antt =====
-- The theorems on the pods that are made at concrete inputs.
use cloudrun.Base.{ℕ, ◌≡◌, refl, ◌↔◌, pos, String, true, false, none, some}
use cloudrun.Types.{doing}
use cloudrun.Api.Builder.{Builder}
use cloudrun.Cluster.Outcome.{ok}
use cloudrun.Cluster.Workloads.{ConfigMap, Job, PodTemplateSpec}
use cloudrun.Cluster.Client as Client
use cloudrun.Cluster.Crd.{Run}
use cloudrun.Core.Context.{get_service_labels, set_owner_reference}
use cloudrun.Api.Meta.{OwnerReference}
use cloudrun.Build.Raw.{dockerfile_configmap}
use cloudrun.Deploy.Selectors.{get_service_labels-selects, selects}
use cloudrun.Deploy.Split.{images, new_pod_spec-images, wanted}
use cloudrun.Deploy.Template.{new_pod_spec, pod_meta}
use cloudrun.Api.Deployer.{Deployer}
use cloudrun.Workflow.Dockerfile.{get_dockerfile}
use cloudrun.Workflow.Failure.{ending, expected, get_dockerfile-ending}
use cloudrun.Tests.Memory.{memory, Store}
use cloudrun.Tests.Samples.{
  a_builder, a_deployer, a_workflow, ctx, empty, no_context, in_round, run,
}

new_pod_spec-images_example :
    (pod : PodTemplateSpec) × (t : Run Store Deployer) × (new_pod_spec memory ctx true
        (run empty a_deployer)
      ≡ (ok pod, t))
    × (images pod.spec.init_containers ≡ wanted true a_deployer.spec.containers)
    × (images pod.spec.containers ≡ wanted false a_deployer.spec.containers)
new_pod_spec-images_example =
    new_pod_spec-images memory ctx true (run empty a_deployer) (in_round 1 doing)
      (((_, refl), (_, refl), (_, refl), (_, refl)), tt) refl

get_service_labels-selects_example :
    (selects (get_service_labels ctx (pos 2)) (pod_meta memory ctx true (pos 2)).labels ≡ true)
    ↔ ((◌≡◌ {A = ℕ} 2 2) × (true ≡ true))
get_service_labels-selects_example = get_service_labels-selects memory ctx 2 2 true

abbrev holder : OwnerReference
holder = record {
  api_version = "v1";
  kind = "Builder";
  name = "site";
  uid = "u";
  block_owner_deletion = some true;
}

-- The config map as it goes to the server.
abbrev owned : String → String → ConfigMap
owned dockerfile path = set_owner_reference (dockerfile_configmap ctx dockerfile path) holder

-- A builder that fetches a git repository.
abbrev of_git : Builder
of_git = record (a_builder 2 (in_round 2 doing)) {
  spec = record (a_builder 2 (in_round 2 doing)).spec {
    context = record no_context {
      git = some (record { url_with_auth = "https://git.example.org/site.git"; ref = none });
    };
  };
}

get_dockerfile-ending_example :
    (ending (get_dockerfile memory a_workflow.spec (run empty a_workflow)).0
      ≡ expected a_workflow.spec)
    × ((get_dockerfile memory a_workflow.spec (run empty a_workflow)).1 ≡ run empty a_workflow)
get_dockerfile-ending_example = get_dockerfile-ending memory a_workflow.spec (run empty a_workflow)
