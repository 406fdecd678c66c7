-- ===== src/Api/Builder.antt =====
-- api/v1alpha1/builder_types.go
use cloudrun.Base.{ℤ, String, Bool, Option, none, some, List}
use cloudrun.Types.{CommonStatus, new_status}
use cloudrun.Api.Meta.{Object}

-- `ContextFileType`, read by nothing in the controllers.
pub data ContextFileType : Type 0 where
  unset tar tar_gz zip rar dir : ContextFileType

pub record BuilderContextS3 : Type 0 where
  pub endpoint : String
  pub bucket : String
  pub region : String
  pub scheme : String
  pub access_key_id : String
  pub access_secret_key : String
  pub object_key : String
  pub file_type : ContextFileType

pub record BuildContextGit : Type 0 where
  pub url_with_auth : String
  pub ref : Option String

pub record BuildContextHttp : Type 0 where
  pub url : String

pub record BuilderContext : Type 0 where
  pub s3 : Option BuilderContextS3
  pub git : Option BuildContextGit
  pub http : Option BuildContextHttp
  pub raw : Option String

pub record DeployerHook : Type 0 where
  pub deployer_name : String
  pub resource_pool : String
  pub image : String
  pub dynamic_image : Bool
  pub force_round : Bool

pub record BuilderSpec : Type 0 where
  pub context : BuilderContext
  pub workspace_path : String
  pub dockerfile_path : String
  pub destination : String
  pub push_secret_name : String
  pub round : ℤ  -- int
  pub deployer_hooks : List DeployerHook

pub record BuilderStatus : Type 0 where
  pub base : Option CommonStatus

abbrev pub Builder : Type 0
Builder = Object BuilderSpec BuilderStatus

-- `(*Builder).CommonStatus`: the status, made first where there is none.
unfoldable pub common_status : BuilderStatus → BuilderStatus × CommonStatus
common_status s = elim s.base [
  | none ↦ (record { base = some new_status }, new_status)
  | some base ↦ (s, base)
]

-- `(*Builder).GetRound`
unfoldable pub get_round : BuilderSpec → ℤ
get_round s = s.round
