-- ===== src/Controller/Routes.antt =====
-- `ensureHTTPRoute`, `ensureAdminHTTPRoute` and `ensureReferenceGrant`.
pub mod Frame
use kube_ephemerals.Prelude.{
  ℕ, String, ◌<>◌, ◌==◌, none, some, List, [], ◌∷◌, set_label, if◌then◌else◌,
}
use kube_ephemerals.Exec.{Exec, pure, gets, wrapping, ◌>>=◌, ◌>>◌}
use kube_ephemerals.Api.Types.{
  EphemeralEnv, GatewaySpec, condition_true, condition_type_httproute_ready,
}
use kube_ephemerals.Api.Helpers.{get_httproute_name}
use kube_ephemerals.Kube.Objects.{
  Object, HttprouteSpec, BackendRef, ReferenceGrantFrom, ReferenceGrantTo, httproute_body,
  reference_grant_body,
}
use kube_ephemerals.Controller.Base.{
  Reconciler, Session, World, base_domain, label_route_type, route_type_admin, own, set_status,
  set_condition,
}
use kube_ephemerals.Controller.Resources.{create_or_update, new_object}

-- The spec of both routes: one parent, one host name, one backend.
abbrev pub route_spec : GatewaySpec → String → BackendRef → HttprouteSpec
route_spec gateway hostname backend = record {
  parent_refs = record { name = gateway.name; namespace = gateway.namespace } ∷ [];
  hostnames = hostname ∷ [];
  rules = (backend ∷ []) ∷ [];
}

abbrev pub empty_route : HttprouteSpec
empty_route = record { parent_refs = []; hostnames = []; rules = [] }

-- `ServicePort` if it is set, otherwise `Gateway.TargetPort`
abbrev pub target_port : EphemeralEnv → ℕ
target_port env = elim env.spec.service_port [ some p ↦ p | none ↦ env.spec.gateway.target_port ]

abbrev pub app_hostname : EphemeralEnv → String
app_hostname env = env.spec.gateway.domain_prefix <> "." <> base_domain

abbrev pub admin_hostname : EphemeralEnv → String
admin_hostname env = "admin." <> env.spec.gateway.domain_prefix <> "." <> base_domain

abbrev pub app_backend : EphemeralEnv → String → BackendRef
app_backend env service_name = record {
  name = service_name;
  namespace = env.status.active_namespace;
  port = target_port env;
}

abbrev pub mutate_route : EphemeralEnv → String → Object → Object
mutate_route env service_name o = record (own env.metadata.name o) {
  body =
      httproute_body
        (route_spec env.spec.gateway (app_hostname env) (app_backend env service_name));
}

abbrev pub admin_route_name : EphemeralEnv → String
admin_route_name env = "admin-route-" <> env.metadata.name

abbrev pub admin_backend : String → String → BackendRef
admin_backend service namespace = record { name = service; namespace = namespace; port = 8080 }

abbrev route_type : Object → Object
route_type o = record o { labels = set_label label_route_type route_type_admin o.labels }

abbrev pub mutate_admin_route : EphemeralEnv → String → String → Object → Object
mutate_admin_route env service namespace o = record (route_type (own env.metadata.name o)) {
  body =
      httproute_body
        (route_spec env.spec.gateway (admin_hostname env) (admin_backend service namespace));
}

-- Routes of the gateway's namespace may name services of the environment's.
abbrev pub grant_from : EphemeralEnv → List ReferenceGrantFrom
grant_from env =
    record {
      group = "gateway.networking.k8s.io";
      kind = "HTTPRoute";
      namespace = env.spec.gateway.namespace;
    }
    ∷ []

abbrev pub grant_to : List ReferenceGrantTo
grant_to = record { group = ""; kind = "Service" } ∷ []

abbrev pub mutate_grant : EphemeralEnv → Object → Object
mutate_grant env o = record (own env.metadata.name o) {
  body = reference_grant_body (grant_from env) grant_to;
}

module _ (r : Reconciler) where
  unfoldable pub ensure_httproute : String → Exec (Session (World r)) (Unit {0})
  ensure_httproute service_name = do
    env ← gets (λ s. s.env)
    let name = get_httproute_name env
    let namespace = env.spec.gateway.namespace
    wrapping ("failed to create/update HTTPRoute " <> namespace <> "/" <> name <> ": ") (
        create_or_update r
          (new_object env.metadata.name name namespace (httproute_body empty_route))
          (mutate_route env service_name))
    set_status (λ st. record st { access_url = "https://" <> app_hostname env })
    set_condition r condition_type_httproute_ready condition_true "HTTPRouteCreated"
        ("HTTPRoute " <> name <> " is ready")

  -- The literal of the admin route has the route type among its labels.
  unfoldable pub ensure_admin_httproute : String → String → Exec (Session (World r)) (Unit {0})
  ensure_admin_httproute service operator_namespace = do
    env ← gets (λ s. s.env)
    let name = admin_route_name env
    let namespace = env.spec.gateway.namespace
    wrapping ("failed to create/update admin HTTPRoute " <> namespace <> "/" <> name <> ": ") (
        create_or_update r
          (route_type (new_object env.metadata.name name namespace (httproute_body empty_route)))
          (mutate_admin_route env service operator_namespace))
    set_status (λ st. record st { admin_url = "https://" <> admin_hostname env })

  unfoldable pub write_grant : Exec (Session (World r)) (Unit {0})
  write_grant = do
    env ← gets (λ s. s.env)
    let name = "grant-" <> env.metadata.name
    let namespace = env.status.active_namespace
    wrapping ("failed to create/update ReferenceGrant " <> namespace <> "/" <> name <> ": ") (
        create_or_update r
          (new_object env.metadata.name name namespace (reference_grant_body [] []))
          (mutate_grant env))

  unfoldable pub ensure_reference_grant : Exec (Session (World r)) (Unit {0})
  unfolding write_grant
  ensure_reference_grant = do
    env ← gets (λ s. s.env)
    if env.spec.gateway.namespace == env.status.active_namespace then pure tt else write_grant
