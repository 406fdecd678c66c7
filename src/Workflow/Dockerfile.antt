-- ===== src/Workflow/Dockerfile.antt =====
-- controllers/workflow/workflow.go, `getDockerfile`: the Dockerfile of a workflow's image, in a stage
-- that compiles and, where the environment changes, a stage that takes the result over.
use cloudrun.Base.{String, ◌<>◌, Bool, true, false, Option, none, some}
use cloudrun.Api.Workflow.{BuildSpec, DeploySpec, WorkflowSpec}
use cloudrun.Cluster.Outcome.{Action, deref, fail, new_error, pure, ◌>>=◌}
use cloudrun.Cluster.Client.{Cluster}

abbrev pub workspace_abs_path : String
workspace_abs_path = "/workspace"

-- `dockerfileCompileStageTemplate` with its three fields filled in.
unfoldable pub compile_stage : String → String → String → String
compile_stage base_image working_dir command =
    "\nFROM "
    <> (base_image
        <> ("\nWORKDIR " <> (working_dir <> ("\nCOPY . .\nRUN " <> (command <> "\n\n")))))

-- `dockerfileBuildStageTemplate` with its three fields filled in.
unfoldable pub build_stage : String → String → String → String
build_stage base_image source target =
    "\nFROM " <> (base_image <> ("\nCOPY --from=0 " <> (source <> (" " <> (target <> "\n")))))

abbrev pub or_default : String → Option String → String
or_default d none = d
or_default d (some s) = s

-- What `deploy.ChangeEnv` adds.
abbrev change_env : {S : Type 0} → DeploySpec → Option String → Action S String
change_env d none = fail (new_error "base image is required when change env")
change_env d (some base_image) = do
  pair ← deref d.file_pair
  pure (build_stage base_image pair.source pair.target <> "\n")

unfoldable pub second_stage : {S : Type 0} → DeploySpec → Bool → Action S String
second_stage d true = change_env d d.base_image
second_stage d false = pure ""

abbrev pub start_command : Option String → String
start_command none = ""
start_command (some c) = "CMD " <> c

module _ (K : Cluster) where
  abbrev pub build_dir : Option String → String
  build_dir none = workspace_abs_path
  build_dir (some dir) = K.join workspace_abs_path dir

  -- The first stage; the templates are well formed, so that executing them cannot fail.
  unfoldable pub first_stage : BuildSpec → String
  first_stage b =
      compile_stage b.base_image (build_dir b.working_dir) (or_default "true" b.command) <> "\n"

  unfoldable pub get_dockerfile : {S : Type 0} → WorkflowSpec → Action S String
  get_dockerfile spec = do
    b ← deref spec.build
    d ← deref spec.deploy
    second ← second_stage d d.change_env
    pure ((first_stage b <> second) <> start_command d.command)
