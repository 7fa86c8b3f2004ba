-- ===== src/Ui/Router/Admin.antt =====
-- The dashboard of one environment by its host, and by its name in the path.
use kube_ephemerals.Prelude.{ℕ, String, ◌==◌, false, Option, some, ◌≡◌, ◌∙◌, refl}
use kube_ephemerals.Ui.Http.{Request, value_at}
use kube_ephemerals.Ui.Respond.{
  Server, Exchange, Handler, env_context_middleware, get_env_from_context,
}
use kube_ephemerals.Ui.Envs.{handle_env_dashboard, handle_env_dashboard_by_name}
use kube_ephemerals.Ui.Pods.{handle_env_pods, handle_env_pods_by_name}
use kube_ephemerals.Ui.Logs.{handle_pod_logs, handle_pod_logs_by_name}
use kube_ephemerals.Ui.Ttl.{extend_ttl, handle_extend_ttl, handle_extend_ttl_by_name}
use kube_ephemerals.Ui.Router.{
  extend_ttl as extend_ttl_by_host, env_dashboard, env_dashboard_by_name, env_pods,
  env_pods_by_name, pod_logs, pod_logs_by_name, extend_ttl_by_name, handler_of,
}

-- The middleware passes the name of the host's route on.
env_context_middleware-route :
    (s : Server) {Served : Type 0} (next : Request → Served) (r : Request) (name : String)
    → value_at "env" r.vars ≡ name
    → (name == "") ≡ false
    → env_context_middleware s next r ≡ next (record r { env_name = some name })
unfolding env_context_middleware
env_context_middleware-route s next r name by_host given = rw (by_host, given) (rw given refl)

-- A request on an admin route, whose host names an environment, is handled as the request on the
-- fallback route whose path names it, if both have the same body and name the same pod: the
-- dashboard, the pods, the logs and the extension of the lifetime.
pub handler_of-admin :
    (s : Server) (serve_static : Request → Handler s.World) (fuel : ℕ) (r r' : Request)
    (name : String)
    → value_at "env" r.vars ≡ name
    → (name == "") ≡ false
    → value_at "name" r'.vars ≡ name
    → value_at "pod" r.vars ≡ value_at "pod" r'.vars
    → r.body ≡ r'.body
    → (handler_of s serve_static env_dashboard fuel r
        ≡ handler_of s serve_static env_dashboard_by_name fuel r')
      × (handler_of s serve_static env_pods fuel r
          ≡ handler_of s serve_static env_pods_by_name fuel r')
      × (handler_of s serve_static pod_logs fuel r
          ≡ handler_of s serve_static pod_logs_by_name fuel r')
      × (handler_of s serve_static extend_ttl_by_host fuel r
          ≡ handler_of s serve_static extend_ttl_by_name fuel r')
unfolding handler_of handle_env_dashboard handle_env_dashboard_by_name handle_env_pods
    handle_env_pods_by_name handle_pod_logs handle_pod_logs_by_name handle_extend_ttl
    handle_extend_ttl_by_name get_env_from_context extend_ttl
handler_of-admin s serve_static fuel r r' name by_host given by_path same_pod same_body = (
  routed (λ q. total (handle_env_dashboard s q)) ∙ rw by_path refl,
  routed (λ q. total (handle_env_pods s q)) ∙ rw by_path refl,
  routed (λ q. total (handle_pod_logs s q)) ∙ rw (by_path, same_pod) refl,
  routed (λ q. total (handle_extend_ttl s q)) ∙ rw (by_path, same_body) refl,
)
  where
    routed :
        (next : Request → Exchange s.World → Option (Exchange s.World))
        → env_context_middleware s next r ≡ next (record r { env_name = some name })
    routed next = env_context_middleware-route s next r name by_host given

    total : Handler s.World → Exchange s.World → Option (Exchange s.World)
    total h x = some (h x)
