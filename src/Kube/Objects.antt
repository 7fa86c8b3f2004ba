-- ===== src/Kube/Objects.antt =====
-- The objects that the controller creates: the fields of the Kubernetes and Gateway API types that
-- internal/controller/ephemeralenv_controller.go reads or writes.
use kube_ephemerals.Prelude.{ℕ, String, List, Option, Labels}
use kube_ephemerals.Api.Types.{Time}

pub record ObjectKey : Type 0 where
  pub name : String
  pub namespace : String

pub data Kind : Type 0 where
  namespace_kind service_account_kind role_kind role_binding_kind : Kind
  network_policy_kind httproute_kind reference_grant_kind : Kind

pub record PolicyRule : Type 0 where
  pub api_groups : List String
  pub resources : List String
  pub verbs : List String

pub record Subject : Type 0 where
  pub kind : String
  pub name : String
  pub namespace : String

pub record RoleRef : Type 0 where
  pub api_group : String
  pub kind : String
  pub name : String

pub data PolicyType : Type 0 where
  ingress_type egress_type : PolicyType

-- The selector's labels, and the rules in serialised form: the program writes empty lists only.
pub record NetworkPolicySpec : Type 0 where
  pub pod_selector : Labels
  pub policy_types : List PolicyType
  pub ingress : List String
  pub egress : List String

pub record ParentReference : Type 0 where
  pub name : String
  pub namespace : String

pub record BackendRef : Type 0 where
  pub name : String
  pub namespace : String
  pub port : ℕ

pub record HttprouteSpec : Type 0 where
  pub parent_refs : List ParentReference
  pub hostnames : List String
  -- one list of backends for each rule
  pub rules : List (List BackendRef)

pub record ReferenceGrantFrom : Type 0 where
  pub group : String
  pub kind : String
  pub namespace : String

pub record ReferenceGrantTo : Type 0 where
  pub group : String
  pub kind : String

pub data Body : Type 0 where
  namespace_body service_account_body : Body
  role_body : List PolicyRule → Body
  role_binding_body : List Subject → RoleRef → Body
  network_policy_body : NetworkPolicySpec → Body
  httproute_body : HttprouteSpec → Body
  reference_grant_body : List ReferenceGrantFrom → List ReferenceGrantTo → Body

-- A cluster-wide object has the empty namespace.
pub record Object : Type 0 where
  pub key : ObjectKey
  pub labels : Labels
  pub deletion_timestamp : Option Time
  pub body : Body

abbrev pub kind_of : Body → Kind
kind_of namespace_body = namespace_kind
kind_of service_account_body = service_account_kind
kind_of (role_body _) = role_kind
kind_of (role_binding_body _ _) = role_binding_kind
kind_of (network_policy_body _) = network_policy_kind
kind_of (httproute_body _) = httproute_kind
kind_of (reference_grant_body _ _) = reference_grant_kind

pub data ServiceType : Type 0 where
  cluster_ip node_port load_balancer external_name : ServiceType

-- `corev1.Service`; a headless service has the cluster IP "None".
pub record Service : Type 0 where
  pub name : String
  pub cluster_ip : String
  pub type : ServiceType
  pub ports : List ℕ
