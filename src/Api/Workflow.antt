-- ===== src/Api/Workflow.antt =====
-- api/v1alpha1/workflow_types.go
use cloudrun.Base.{ℤ, String, Bool, Option, none, some, List, Dict}
use cloudrun.Types.{CommonStatus, new_status}
use cloudrun.Api.Meta.{Object}
use cloudrun.Api.Builder.{BuilderContext}
use cloudrun.Api.Deployer.{ContainerResource, ContainerSpec, DeployType, Port}

-- `WorkflowStage` is a Go string; `unset` is its zero value "".
pub data WorkflowStage : Type 0 where
  unset pending building deploying serving : WorkflowStage

pub record BuildSpec : Type 0 where
  pub context : BuilderContext
  pub base_image : String
  pub working_dir : Option String
  pub command : Option String
  pub registry_location : Option String
  pub push_secret_name : Option String

pub record FilePair : Type 0 where
  pub source : String
  pub target : String

pub record DeploySpec : Type 0 where
  pub change_env : Bool
  pub file_pair : Option FilePair
  pub base_image : Option String
  pub command : Option String
  pub resource_pool : String
  pub resource : ContainerResource
  pub envs : Dict
  pub working_dir : Option String
  pub type : DeployType
  pub ports : List Port
  pub sidecar_list : List ContainerSpec

pub record WorkflowSpec : Type 0 where
  pub round : ℤ  -- int
  pub build : Option BuildSpec
  pub deploy : Option DeploySpec

pub record WorkflowStatus : Type 0 where
  pub stage : WorkflowStage
  pub base : Option CommonStatus

abbrev pub Workflow : Type 0
Workflow = Object WorkflowSpec WorkflowStatus

-- `(*Workflow).CommonStatus`: the status, made first where there is none.
unfoldable pub common_status : WorkflowStatus → WorkflowStatus × CommonStatus
common_status s = elim s.base [
  | none ↦ (record s { base = some new_status }, new_status)
  | some base ↦ (s, base)
]

-- `(*Workflow).GetRound`
unfoldable pub get_round : WorkflowSpec → ℤ
get_round s = s.round
