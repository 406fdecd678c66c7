-- ===== src/Api/Application.antt =====
-- api/v1alpha1/application_types.go
use cloudrun.Api.Meta.{Object}
use cloudrun.Api.Builder.{BuilderSpec}

pub record ApplicationSpec : Type 0 where
  pub build : BuilderSpec

abbrev pub ApplicationStatus : Type 0
ApplicationStatus = Unit {0}

abbrev pub Application : Type 0
Application = Object ApplicationSpec ApplicationStatus
