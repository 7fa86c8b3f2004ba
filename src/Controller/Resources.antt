-- ===== src/Controller/Resources.antt =====
-- `ensureNamespace`, `ensureDeveloperAccessRBAC` and `ensureNetworkPolicy`.
pub mod Frame
pub mod Isolated
use kube_ephemerals.Prelude.{String, ◌<>◌, ◌==◌, none, List, [], ◌∷◌, Labels, if◌then◌else◌}
use kube_ephemerals.Exec.{Exec, pure, gets, wrapping, ◌>>=◌, ◌>>◌}
use kube_ephemerals.Api.Types.{
  EphemeralEnv, condition_true, condition_type_namespace_ready,
  condition_type_network_policy_applied,
}
use kube_ephemerals.Api.Helpers.{get_namespace_name, is_isolation_enabled}
use kube_ephemerals.Kube.Objects.{
  Object, Body, PolicyRule, Subject, RoleRef, NetworkPolicySpec, namespace_body,
  service_account_body, role_body, role_binding_body, network_policy_body, ingress_type,
  egress_type,
}
use kube_ephemerals.Controller.Base.{
  Reconciler, Session, World, label_managed_by, label_owner, managed_by_value, developer_access_sa,
  ns_admin_role_name, developer_access_binding_name, own, call, set_status, set_condition,
}

abbrev pub owner_labels : String → Labels
owner_labels owner = (label_managed_by, managed_by_value) ∷ (label_owner, owner) ∷ []

-- An object literal that is handed to `CreateOrUpdate`.
abbrev pub new_object : String → String → String → Body → Object
new_object owner name namespace body = record {
  key = record { name = name; namespace = namespace };
  labels = owner_labels owner;
  deletion_timestamp = none;
  body = body;
}

-- `role.Rules`: everything in the namespace
abbrev pub admin_rules : List PolicyRule
admin_rules = record { api_groups = "*" ∷ []; resources = "*" ∷ []; verbs = "*" ∷ [] } ∷ []

abbrev pub developer_subjects : String → List Subject
developer_subjects namespace =
    record { kind = "ServiceAccount"; name = developer_access_sa; namespace = namespace } ∷ []

abbrev pub ns_admin_ref : RoleRef
ns_admin_ref = record {
  api_group = "rbac.authorization.k8s.io";
  kind = "Role";
  name = ns_admin_role_name;
}

abbrev pub deny_all : NetworkPolicySpec
deny_all = record {
  pod_selector = [];
  policy_types = ingress_type ∷ egress_type ∷ [];
  ingress = [];
  egress = [];
}

-- `env.Status.ActiveNamespace`, or the computed name where that is empty
abbrev pub effective_namespace : EphemeralEnv → String
effective_namespace env =
    if env.status.active_namespace == ""
    then get_namespace_name env
    else env.status.active_namespace

-- The mutate function of the role.
abbrev pub mutate_role : String → Object → Object
mutate_role owner o = record (own owner o) { body = role_body admin_rules }

-- The mutate function of the role binding.
abbrev pub mutate_role_binding : String → String → Object → Object
mutate_role_binding owner namespace o = record (own owner o) {
  body = role_binding_body (developer_subjects namespace) ns_admin_ref;
}

module _ (r : Reconciler) where
  -- `controllerutil.CreateOrUpdate`
  unfoldable pub create_or_update : Object → (Object → Object) → Exec (Session (World r)) (Unit {0})
  create_or_update object mutate = call (r.client.create_or_update object mutate)

  unfoldable pub ensure_namespace : Exec (Session (World r)) (Unit {0})
  ensure_namespace = do
    env ← gets (λ s. s.env)
    let name = get_namespace_name env
    let owner = env.metadata.name
    wrapping ("failed to create/update namespace " <> name <> ": ")
        (create_or_update (new_object owner name "" namespace_body) (own owner))
    set_status (λ st. record st { active_namespace = name })
    set_condition r condition_type_namespace_ready condition_true "NamespaceCreated"
        ("Namespace " <> name <> " is ready")

  unfoldable pub ensure_developer_access_rbac : Exec (Session (World r)) (Unit {0})
  ensure_developer_access_rbac = do
    env ← gets (λ s. s.env)
    let name = effective_namespace env
    let owner = env.metadata.name
    wrapping ("failed to create/update ServiceAccount " <> developer_access_sa <> ": ") (
        create_or_update (new_object owner developer_access_sa name service_account_body)
          (own owner))
    wrapping ("failed to create/update Role " <> ns_admin_role_name <> ": ") (
        create_or_update (new_object owner ns_admin_role_name name (role_body admin_rules))
          (mutate_role owner))
    wrapping ("failed to create/update RoleBinding " <> developer_access_binding_name <> ": ") (
        create_or_update
          (new_object owner developer_access_binding_name name
            (role_binding_body (developer_subjects name) ns_admin_ref))
          (mutate_role_binding owner name))

  -- The mutate function sets the labels and not the spec.
  unfoldable pub apply_network_policy : Exec (Session (World r)) (Unit {0})
  apply_network_policy = do
    env ← gets (λ s. s.env)
    let owner = env.metadata.name
    wrapping "failed to create/update NetworkPolicy: " (
        create_or_update
          (new_object owner "deny-all" env.status.active_namespace (network_policy_body deny_all))
          (own owner))
    set_condition r condition_type_network_policy_applied condition_true "NetworkPolicyCreated"
        "Deny-all NetworkPolicy has been applied"

  unfoldable pub ensure_network_policy : Exec (Session (World r)) (Unit {0})
  unfolding apply_network_policy
  ensure_network_policy = do
    env ← gets (λ s. s.env)
    if is_isolation_enabled env.spec then apply_network_policy else pure tt
