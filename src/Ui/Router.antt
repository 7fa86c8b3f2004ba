-- ===== src/Ui/Router.antt =====
-- `setupRouter` of internal/ui/server.go: the routes with their hosts, methods and paths, and the
-- handler of each. The matching of a request by a route is gorilla/mux's, an argument.
pub mod Admin
use kube_ephemerals.Prelude.{
  ℕ, String, ◌<>◌, ◌==◌, Bool, true, false, ◌&&◌, ◌||◌, Option, none, some, List, [], ◌∷◌, ◌++◌,
  any, ◌≡◌, refl,
}
use kube_ephemerals.Ui.Http.{Request}
use kube_ephemerals.Ui.Config.{Config}
use kube_ephemerals.Ui.Respond.{Server, Exchange, Handler, env_context_middleware}
use kube_ephemerals.Ui.Envs.{
  handle_global_dashboard, handle_list_envs, handle_create_env, handle_delete_env, handle_get_env,
  handle_env_dashboard, handle_env_dashboard_by_name, handle_env_status,
}
use kube_ephemerals.Ui.Kubeconfig.Download.{handle_kubeconfig_by_name}
use kube_ephemerals.Ui.Pods.{handle_env_pods, handle_env_pods_by_name, handle_restart_pod}
use kube_ephemerals.Ui.Logs.{
  handle_pod_logs, handle_pod_logs_by_name, handle_pod_logs_stream, handle_pod_logs_stream_by_name,
}
use kube_ephemerals.Ui.Ttl.{handle_extend_ttl, handle_extend_ttl_by_name}
use kube_ephemerals.Ui.Templates.{
  handle_list_templates, handle_get_template, handle_delete_template,
}
use kube_ephemerals.Ui.Templates.Create.{handle_create_template}

-- The methods of `Server` that are registered as handlers, and the handler of the static files.
pub data Endpoint : Type 0 where
  static_files global_dashboard list_envs create_env delete_env get_env kubeconfig_by_name
        env_dashboard env_status env_pods restart_pod pod_logs pod_logs_stream extend_ttl
        env_dashboard_by_name env_pods_by_name pod_logs_by_name pod_logs_stream_by_name
        extend_ttl_by_name list_templates create_template get_template delete_template :
      Endpoint

-- A route: `host` if the route is restricted to one, and no method where all are accepted.
pub record Route : Type 0 where
  pub host : Option String
  pub method : Option String
  pub path : String
  pub endpoint : Endpoint

abbrev on_host : Option String → String → String → Endpoint → Route
on_host host method path endpoint = record {
  host = host;
  method = some method;
  path = path;
  endpoint = endpoint;
}

abbrev any_method : Option String → String → Endpoint → Route
any_method host path endpoint = record {
  host = host;
  method = none;
  path = path;
  endpoint = endpoint;
}

unfoldable pub platform_routes : Config → List Route
platform_routes cfg =
    let host = some cfg.platform_domain in
    on_host host "GET" "/" global_dashboard
    ∷ on_host host "GET" "/api/envs" list_envs
    ∷ on_host host "POST" "/api/envs" create_env
    ∷ on_host host "DELETE" "/api/envs/{name}" delete_env
    ∷ on_host host "GET" "/api/envs/{name}" get_env
    ∷ on_host host "GET" "/api/envs/{name}/kubeconfig" kubeconfig_by_name
    ∷ []

-- The subrouter with `envContextMiddleware`
unfoldable pub admin_routes : Config → List Route
admin_routes cfg =
    let host = some (cfg.admin_prefix <> ".{env:[a-z0-9-]+}." <> cfg.base_domain) in
    on_host host "GET" "/" env_dashboard
    ∷ on_host host "GET" "/api/status" env_status
    ∷ on_host host "GET" "/api/pods" env_pods
    ∷ on_host host "POST" "/api/pods/{pod}/restart" restart_pod
    ∷ on_host host "GET" "/api/logs/{pod}" pod_logs
    ∷ any_method host "/api/logs/{pod}/stream" pod_logs_stream
    ∷ on_host host "POST" "/api/extend-ttl" extend_ttl
    ∷ []

unfoldable pub fallback_routes : List Route
fallback_routes =
    on_host none "GET" "/" global_dashboard
    ∷ on_host none "GET" "/env/{name}" env_dashboard_by_name
    ∷ on_host none "GET" "/api/envs" list_envs
    ∷ on_host none "POST" "/api/envs" create_env
    ∷ on_host none "DELETE" "/api/envs/{name}" delete_env
    ∷ on_host none "GET" "/api/envs/{name}" get_env
    ∷ on_host none "GET" "/api/envs/{name}/pods" env_pods_by_name
    ∷ on_host none "GET" "/api/envs/{name}/pods/{pod}/logs" pod_logs_by_name
    ∷ any_method none "/api/envs/{name}/pods/{pod}/logs/stream" pod_logs_stream_by_name
    ∷ on_host none "POST" "/api/envs/{name}/extend-ttl" extend_ttl_by_name
    ∷ on_host none "GET" "/api/envs/{name}/kubeconfig" kubeconfig_by_name
    ∷ on_host none "GET" "/api/templates" list_templates
    ∷ on_host none "POST" "/api/templates" create_template
    ∷ on_host none "GET" "/api/templates/{id}" get_template
    ∷ on_host none "DELETE" "/api/templates/{id}" delete_template
    ∷ []

-- In the order in which they are registered.
unfoldable pub setup_router : Config → List Route
setup_router cfg =
    any_method none "/static/" static_files
    ∷ (platform_routes cfg ++ admin_routes cfg ++ fallback_routes)

module _ (s : Server) (serve_static : Request → Handler s.World) where
  -- A handler that always returns, as one that may use up its fuel.
  abbrev total : Handler s.World → Exchange s.World → Option (Exchange s.World)
  total h x = some (h x)

  -- The admin routes go through the middleware. The streams are read with fuel, and give `none`
  -- without it.
  unfoldable pub handler_of : Endpoint → ℕ → Request → Exchange s.World → Option (Exchange s.World)
  handler_of static_files fuel = λ r. total (serve_static r)
  handler_of global_dashboard fuel = λ r. total (handle_global_dashboard s)
  handler_of list_envs fuel = λ r. total (handle_list_envs s)
  handler_of create_env fuel = λ r. total (handle_create_env s r)
  handler_of delete_env fuel = λ r. total (handle_delete_env s r)
  handler_of get_env fuel = λ r. total (handle_get_env s r)
  handler_of kubeconfig_by_name fuel = λ r. total (handle_kubeconfig_by_name s r)
  handler_of env_dashboard fuel = env_context_middleware s (λ r. total (handle_env_dashboard s r))
  handler_of env_status fuel = env_context_middleware s (λ r. total (handle_env_status s r))
  handler_of env_pods fuel = env_context_middleware s (λ r. total (handle_env_pods s r))
  handler_of restart_pod fuel = env_context_middleware s (λ r. total (handle_restart_pod s r))
  handler_of pod_logs fuel = env_context_middleware s (λ r. total (handle_pod_logs s r))
  handler_of pod_logs_stream fuel = env_context_middleware s (handle_pod_logs_stream s fuel)
  handler_of extend_ttl fuel = env_context_middleware s (λ r. total (handle_extend_ttl s r))
  handler_of env_dashboard_by_name fuel = λ r. total (handle_env_dashboard_by_name s r)
  handler_of env_pods_by_name fuel = λ r. total (handle_env_pods_by_name s r)
  handler_of pod_logs_by_name fuel = λ r. total (handle_pod_logs_by_name s r)
  handler_of pod_logs_stream_by_name fuel = λ r. handle_pod_logs_stream_by_name s fuel r
  handler_of extend_ttl_by_name fuel = λ r. total (handle_extend_ttl_by_name s r)
  handler_of list_templates fuel = λ r. total (handle_list_templates s r)
  handler_of create_template fuel = λ r. total (handle_create_template s r)
  handler_of get_template fuel = λ r. total (handle_get_template s r)
  handler_of delete_template fuel = λ r. total (handle_delete_template s r)
