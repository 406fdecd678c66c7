-- ===== src/Workflow/Failure.antt =====
-- When a workflow has a Dockerfile (controllers/workflow/workflow.go, `getDockerfile`).
use cloudrun.Base.{◌≡◌, refl, String, Option, none, some, arith, if◌then◌else◌}
use cloudrun.Api.Workflow.{BuildSpec, DeploySpec, FilePair, WorkflowSpec}
use cloudrun.Cluster.Outcome.{Outcome, ok, err, panic}
use cloudrun.Cluster.Client.{Cluster}
use cloudrun.Workflow.Dockerfile.{get_dockerfile, second_stage}

pub data Ending : Type 0 where
  made refused crashed : Ending

abbrev pub ending : {A : Type 0} → Outcome A → Ending
ending (ok _) = made
ending (err _) = refused
ending (panic _) = crashed

-- By the image of the second stage, and the files that it takes over.
abbrev with_image : Option String → Option FilePair → Ending
with_image none files = refused
with_image (some _) none = crashed
with_image (some _) (some _) = made

-- By the deploy part.
abbrev with_deploy : Option DeploySpec → Ending
with_deploy none = crashed
with_deploy (some d) = if d.change_env then with_image d.base_image d.file_pair else made

-- A Dockerfile takes both parts of the workflow; a change of the environment takes an image and the
-- files to copy.
abbrev pub expected : WorkflowSpec → Ending
expected spec = elim spec.build [ none ↦ crashed | some _ ↦ with_deploy spec.deploy ]

-- The Dockerfile of a workflow is made exactly where it has a build and a deploy part, and where an
-- environment that changes has an image and a pair of files; it is refused with an error exactly
-- where it has both parts and the environment changes without an image; in all other cases the code
-- runs into a nil pointer. The state stays as it is.
pub get_dockerfile-ending :
    (K : Cluster) {S : Type 0} (spec : WorkflowSpec) (s : S)
    → (ending (get_dockerfile K spec s).0 ≡ expected spec) × ((get_dockerfile K spec s).1 ≡ s)
unfolding get_dockerfile second_stage
get_dockerfile-ending K spec s = by_parts spec.build spec.deploy
  where
    by_parts :
        (build : Option BuildSpec) (deploy : Option DeploySpec)
        → let spec' : WorkflowSpec = record {
          round = spec.round;
          build = build;
          deploy = deploy;
        } in
          (ending (get_dockerfile K spec' s).0 ≡ expected spec')
          × ((get_dockerfile K spec' s).1 ≡ s)
    by_parts none deploy = (refl, refl)
    by_parts (some b) none = (refl, refl)
    by_parts (some b) (some d) = ground arith
