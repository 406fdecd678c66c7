-- ===== src/Api/Meta.antt =====
-- The header that every Kubernetes object has (`metav1.TypeMeta`, `metav1.ObjectMeta`), and an
-- object as a header, a spec and a status. Of the header only the fields that the code uses are here.
use cloudrun.Base.{ℤ, String, Bool, Option, none, List, [], Dict}

pub record TypeMeta : Type 0 where
  pub api_version : String
  pub kind : String

abbrev pub no_type : TypeMeta
no_type = record { api_version = ""; kind = "" }

pub record OwnerReference : Type 0 where
  pub api_version : String
  pub kind : String
  pub name : String
  pub uid : String
  pub block_owner_deletion : Option Bool

pub record ObjectMeta : Type 0 where
  pub name : String
  pub namespace : String
  pub uid : String
  pub resource_version : String
  pub labels : Option Dict
  pub annotations : Option Dict
  pub owner_references : List OwnerReference
  pub finalizers : List String
  pub deletion_timestamp : Option ℤ

-- `ObjectMeta{Name: name, Namespace: namespace}`
abbrev pub new_meta : String → String → ObjectMeta
new_meta name namespace = record {
  name = name;
  namespace = namespace;
  uid = "";
  resource_version = "";
  labels = none;
  annotations = none;
  owner_references = [];
  finalizers = [];
  deletion_timestamp = none;
}

pub record Object (Spec Status : Type 0) : Type 0 where
  pub type_meta : TypeMeta
  pub meta : ObjectMeta
  pub spec : Spec
  pub status : Status
