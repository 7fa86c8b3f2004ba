-- ===== src/Api/Types.antt =====
-- api/v1alpha1/ephemeralenv_types.go. Ports are `int32` fields whose range 1 to 65535 is enforced
-- by the resource's schema, so they are plain numbers here.
use kube_ephemerals.Prelude.{ℕ, ℤ, String, Bool, Option, List, Labels}

-- An instant, in nanoseconds from a fixed origin, and a `time.Duration`, in nanoseconds.
abbrev pub Time : Type 0
Time = ℤ

abbrev pub Duration : Type 0
Duration = ℤ

-- `*apiextensionsv1.JSON`: the raw bytes, if the pointer is not nil.
abbrev pub Json : Type 0
Json = Option String

-- The fields of `metav1.ObjectMeta` that the program reads, with the resource version that a
-- write carries. The API server sets `deletion_timestamp` to a time that is not zero.
pub record ObjectMeta : Type 0 where
  pub name : String
  pub namespace : String
  pub resource_version : String
  pub labels : Labels
  pub creation_timestamp : Time
  pub deletion_timestamp : Option Time
  pub finalizers : List String

pub data ConditionStatus : Type 0 where
  condition_true condition_false condition_unknown : ConditionStatus

-- `metav1.Condition`; the field `Type` is `kind`.
pub record Condition : Type 0 where
  pub kind : String
  pub status : ConditionStatus
  pub reason : String
  pub message : String
  pub last_transition_time : Time

pub record DeployedComponentSpec : Type 0 where
  pub name : String
  pub repository : String
  pub chart : String
  pub version : String
  pub service_name : String
  pub service_port : ℕ
  pub values : Json
  pub primary : Bool

pub record TemplateReference : Type 0 where
  pub name : String
  pub namespace : String

pub record HelmSpec : Type 0 where
  pub repository : String
  pub chart : String
  pub version : String
  pub values : Json

pub record GatewaySpec : Type 0 where
  pub name : String
  pub namespace : String
  pub domain_prefix : String
  pub service_name : String
  pub target_port : ℕ

pub record EphemeralEnvSpec : Type 0 where
  pub helm : Option HelmSpec
  pub components : List DeployedComponentSpec
  pub template_ref : Option TemplateReference
  pub ttl : String
  pub isolation : Option Bool
  pub service_port : Option ℕ
  pub gateway : GatewaySpec

-- `EphemeralEnvPhase`; `unset` is the empty string, and the schema admits no other value.
pub data EphemeralEnvPhase : Type 0 where
  unset pending active failed expired : EphemeralEnvPhase

pub record ComponentStatus : Type 0 where
  pub name : String
  pub release_name : String
  pub status : String
  pub last_deployed : Option Time
  pub message : String

pub record EphemeralEnvStatus : Type 0 where
  pub phase : EphemeralEnvPhase
  pub active_namespace : String
  pub access_url : String
  pub admin_url : String
  pub expiration_time : Option Time
  pub helm_release : String
  pub component_statuses : List ComponentStatus
  pub last_reconcile_time : Option Time
  pub message : String
  pub conditions : List Condition

abbrev pub condition_type_namespace_ready : String
condition_type_namespace_ready = "NamespaceReady"

abbrev pub condition_type_network_policy_applied : String
condition_type_network_policy_applied = "NetworkPolicyApplied"

abbrev pub condition_type_helm_deployed : String
condition_type_helm_deployed = "HelmDeployed"

abbrev pub condition_type_httproute_ready : String
condition_type_httproute_ready = "HTTPRouteReady"

abbrev pub condition_type_environment_expired : String
condition_type_environment_expired = "EnvironmentExpired"

pub record EphemeralEnv : Type 0 where
  pub metadata : ObjectMeta
  pub spec : EphemeralEnvSpec
  pub status : EphemeralEnvStatus
