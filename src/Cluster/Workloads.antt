-- ===== src/Cluster/Workloads.antt =====
-- The objects of Kubernetes that the controllers make or read (`batchv1`, `appsv1`, `apiv1`), with
-- the fields that the code sets or uses. A field that it leaves out has the type's zero value.
use cloudrun.Base.{ℤ, String, Bool, Option, none, List, [], Dict}
use cloudrun.Api.Meta.{Object, ObjectMeta}

pub record VolumeMount : Type 0 where
  pub name : String
  pub mount_path : String
  pub sub_path : String

pub record EnvVar : Type 0 where
  pub name : String
  pub value : String

pub record ContainerPort : Type 0 where
  pub name : String
  pub container_port : ℤ
  pub protocol : String

-- A `resource.Quantity` stands here as the text that it was parsed from.
pub record ResourceRequirements : Type 0 where
  pub cpu_limit : String
  pub memory_limit : String
  pub cpu_request : String
  pub memory_request : String

pub record Container : Type 0 where
  pub name : String
  pub image : String
  pub image_pull_policy : String
  pub working_dir : String
  pub command : List String
  pub args : List String
  pub env : List EnvVar
  pub ports : List ContainerPort
  pub resources : Option ResourceRequirements
  pub privileged : Option Bool
  pub volume_mounts : List VolumeMount

-- `Container{Name: name, Image: image}`
abbrev pub new_container : String → String → Container
new_container name image = record {
  name = name;
  image = image;
  image_pull_policy = "";
  working_dir = "";
  command = [];
  args = [];
  env = [];
  ports = [];
  resources = none;
  privileged = none;
  volume_mounts = [];
}

pub data VolumeSource : Type 0 where
  empty_dir : VolumeSource
  -- the secret's name, and its keys with the paths that they go to
  secret : String → Dict → VolumeSource
  config_map : String → VolumeSource

pub record Volume : Type 0 where
  pub name : String
  pub source : VolumeSource

pub record PodSpec : Type 0 where
  pub volumes : List Volume
  pub init_containers : List Container
  pub containers : List Container
  pub restart_policy : String

pub record PodTemplateSpec : Type 0 where
  pub meta : ObjectMeta
  pub spec : PodSpec

-- `PodPhase`; `other` is any text that is not one of the four below.
pub data PodPhase : Type 0 where
  pod_pending pod_running pod_failed pod_succeeded other : PodPhase

pub record PodStatus : Type 0 where
  pub phase : PodPhase
  pub message : String

abbrev pub Pod : Type 0
Pod = Object PodSpec PodStatus

-- A selector is a pointer to a struct that holds the labels to match.
pub record JobSpec : Type 0 where
  pub selector : Option Dict
  pub template : PodTemplateSpec
  pub backoff_limit : Option ℤ

abbrev pub Job : Type 0
Job = Object JobSpec (Unit {0})

pub record StatefulSetSpec : Type 0 where
  pub replicas : Option ℤ
  pub selector : Option Dict
  pub template : PodTemplateSpec

abbrev pub StatefulSet : Type 0
StatefulSet = Object StatefulSetSpec (Unit {0})

pub record ServicePort : Type 0 where
  pub name : String
  pub protocol : String
  pub port : ℤ
  pub target_port : ℤ
  -- set by the API server, and kept by the code
  pub node_port : ℤ

pub record ServiceSpec : Type 0 where
  pub selector : Option Dict
  pub ports : List ServicePort
  pub type : String

abbrev pub Service : Type 0
Service = Object ServiceSpec (Unit {0})

-- A `ConfigMap` has no spec: its `Immutable` and `Data` stand in that place.
pub record ConfigMapContents : Type 0 where
  pub immutable : Option Bool
  pub contents : Dict

abbrev pub ConfigMap : Type 0
ConfigMap = Object ConfigMapContents (Unit {0})
