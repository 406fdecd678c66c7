-- ===== src/Api/Deployer.antt =====
-- api/v1alpha1/deployer_types.go
use cloudrun.Base.{ℤ, String, Bool, Option, none, some, List, Dict}
use cloudrun.Types.{CommonStatus, new_status}
use cloudrun.Api.Meta.{Object}

-- `DeployType` is a Go string; `other` is any that is not a constant of the source.
pub data DeployType : Type 0 where
  job service : DeployType
  other : String → DeployType

-- The text of a `DeployType`.
abbrev pub type_text : DeployType → String
type_text job = "job"
type_text service = "service"
type_text (other t) = t

abbrev pub is_service : DeployType → Bool
is_service service = Bool.true
is_service _ = Bool.false

pub record Port : Type 0 where
  pub port : ℤ  -- int32
  pub protocol : String
  pub exported : Bool

-- CPU in thousandths of a core and memory in Mi, each an int32.
pub record ContainerResource : Type 0 where
  pub cpu : ℤ
  pub memory : ℤ

pub record ContainerSpec : Type 0 where
  pub name : String
  pub image : String
  pub resource : ContainerResource
  pub initial : Bool
  pub working_dir : String
  pub command : List String
  pub args : List String
  pub envs : Dict
  pub ports : List Port

pub record DeployerSpec : Type 0 where
  pub type : DeployType
  pub containers : List ContainerSpec
  pub round : ℤ  -- int
  pub resource_pool : String

pub record DeployerStatus : Type 0 where
  pub base : Option CommonStatus
  pub resource_pool : String

abbrev pub Deployer : Type 0
Deployer = Object DeployerSpec DeployerStatus

-- `(*Deployer).CommonStatus`: the status, made first where there is none.
unfoldable pub common_status : DeployerStatus → DeployerStatus × CommonStatus
common_status s = elim s.base [
  | none ↦ (record s { base = some new_status }, new_status)
  | some base ↦ (record s { base = some base }, base)
]

-- `(*Deployer).GetRound`
unfoldable pub get_round : DeployerSpec → ℤ
get_round s = s.round
