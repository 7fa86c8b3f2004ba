-- ===== src/Api/Template.antt =====
-- api/v1alpha1/environmenttemplate_types.go
use kube_ephemerals.Prelude.{ℕ, String, Bool, Option, List}
use kube_ephemerals.Api.Types.{Time, Json, ObjectMeta, Condition}

pub record ComponentSpec : Type 0 where
  pub name : String
  pub repository : String
  pub chart : String
  pub version : String
  pub service_name : String
  pub service_port : ℕ
  pub values : Json
  pub primary : Bool

pub record GatewayDefaults : Type 0 where
  pub name : String
  pub namespace : String

pub record EnvironmentTemplateSpec : Type 0 where
  pub display_name : String
  pub description : String
  pub icon : String
  pub tags : List String
  pub components : List ComponentSpec
  pub default_ttl : String
  pub default_gateway : Option GatewayDefaults

-- The counter is an `int32` that the program only reads.
pub record EnvironmentTemplateStatus : Type 0 where
  pub usage_count : ℕ
  pub last_used_time : Option Time
  pub conditions : List Condition

pub record EnvironmentTemplate : Type 0 where
  pub metadata : ObjectMeta
  pub spec : EnvironmentTemplateSpec
  pub status : EnvironmentTemplateStatus
