-- ===== src/Api/ResourcePool.antt =====
-- api/v1alpha1/resourcepool_types.go
use cloudrun.Base.{String, Option, List}
use cloudrun.Types.{NamespacedName, Resource}
use cloudrun.Api.Meta.{Object, TypeMeta}

pub record ResourceUsage : Type 0 where
  pub resource : Option Resource
  pub type_meta : TypeMeta
  pub namespaced_name : Option NamespacedName
  pub display_name : String

pub record ResourcePoolSpec : Type 0 where
  pub capacity : Option Resource

-- A nil list of usages is the empty one, from which no code tells it apart.
pub record ResourcePoolStatus : Type 0 where
  pub usage : List ResourceUsage
  pub free : Option Resource

abbrev pub ResourcePool : Type 0
ResourcePool = Object ResourcePoolSpec ResourcePoolStatus
