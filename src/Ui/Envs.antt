-- ===== src/Ui/Envs.antt =====
-- The handlers of internal/ui/server.go for environments.
pub mod Created
use kube_ephemerals.Prelude.{
  ℕ, ℤ, pos, negsuc, suc, ◌+◌, ◌-◌, ◌*◌, ◌%◌, String, ◌<>◌, ◌==◌, Option, none, some, List, ltb,
  if◌then◌else◌, [],
}
use kube_ephemerals.Exec.{Failure, ok, err}
use kube_ephemerals.Api.Types.{Time, Duration, EphemeralEnv}
use kube_ephemerals.Controller.Reconcile.{time_until, saturated}
use kube_ephemerals.Ui.Http.{
  Request, write_header, value_at, status_created, status_no_content, status_bad_request,
  status_not_found, status_internal_server_error,
}
use kube_ephemerals.Ui.Services.{Pod}
use kube_ephemerals.Ui.Respond.{
  Server, Handler, Exchange, EnvStatusView, envs, env, env_status, global_dashboard, env_dashboard,
  answer, calling, settle, checked, json_response, json_error, http_error, get_env_from_context,
  render_template, default_key, with_env,
}

-- `d.Round(time.Second)`: to the nearest second, and away from zero in the middle; it saturates.
abbrev round_up : ℕ → ℕ
round_up n = let r = n % 1000000000 in if ltb (r + r) 1000000000 then n - r else n - r + 1000000000

abbrev negative : ℕ → ℤ
negative n = if ltb 0 n then negsuc (n - 1) else pos 0

abbrev pub round_second : Duration → Duration
round_second (pos n) = saturated (pos (round_up n))
round_second (negsuc n) = saturated (negative (round_up (suc n)))

module _ (s : Server) where
  -- `time.Until(t).Round(time.Second).String()` at an instant, and that of `time.Since(t)`
  abbrev pub remaining : Time → Time → String
  remaining t now = s.encoding.format_duration (round_second (time_until t now))

  abbrev pub elapsed : Time → Time → String
  elapsed t now = s.encoding.format_duration (round_second (time_until now t))

  unfoldable pub handle_global_dashboard : Handler s.World
  handle_global_dashboard =
      calling s.client.list_envs
        (λ e. answer (http_error "Failed to list environments" status_internal_server_error))
        (λ items. answer (
          render_template s "global_dashboard.html"
            (global_dashboard "Ephemeral Environments" items s.config)))

  unfoldable pub handle_list_envs : Handler s.World
  handle_list_envs =
      calling s.client.list_envs
        (λ e. answer (json_error "Failed to list environments" status_internal_server_error))
        (λ items. answer (json_response (envs items)))

  abbrev pub in_default : EphemeralEnv → EphemeralEnv
  in_default e =
      if e.metadata.namespace == ""
      then record e { metadata = record e.metadata { namespace = "default" } }
      else e

  abbrev pub creation_failed : Failure → Handler s.World
  creation_failed e =
      answer (json_error ("Failed to create environment: " <> e.text) status_internal_server_error)

  -- The status is written before the header's field is set.
  abbrev pub created : EphemeralEnv → Handler s.World
  created stored = answer (λ w. json_response (env stored) (write_header status_created w))

  abbrev pub create_decoded : EphemeralEnv → Handler s.World
  create_decoded decoded =
      calling (s.client.create_env (in_default decoded)) creation_failed created

  unfoldable pub handle_create_env : Request → Handler s.World
  handle_create_env r =
      checked (s.decode_env r.body)
        (λ e. answer (json_error "Invalid request body" status_bad_request)) create_decoded

  unfoldable pub handle_delete_env : Request → Handler s.World
  handle_delete_env r =
      calling (s.client.delete_env (default_key s (value_at "name" r.vars)))
        (λ e.
          answer
            (json_error ("Failed to delete environment: " <> e.text) status_internal_server_error))
        (λ _. answer (write_header status_no_content))

  unfoldable pub handle_get_env : Request → Handler s.World
  handle_get_env r = with_env s (value_at "name" r.vars) (λ e. answer (json_response (env e)))

  -- An error of the listing is logged, and the page is rendered with no pods.
  unfoldable pub render_env_dashboard : String → Handler s.World
  render_env_dashboard name =
      calling (s.client.get_env (default_key s name))
        (λ e. answer (http_error "Environment not found" status_not_found))
        (λ e.
          calling (s.client.list_pods e.status.active_namespace)
            (λ _. answer (
              render_template s "env_dashboard.html"
                (env_dashboard ("Environment: " <> name) e [] s.config)))
            (λ items. answer (
              render_template s "env_dashboard.html"
                (env_dashboard ("Environment: " <> name) e items s.config))))

  unfoldable pub handle_env_dashboard : Request → Handler s.World
  unfolding render_env_dashboard
  handle_env_dashboard r = render_env_dashboard (get_env_from_context r)

  unfoldable pub handle_env_dashboard_by_name : Request → Handler s.World
  unfolding render_env_dashboard
  handle_env_dashboard_by_name r = render_env_dashboard (value_at "name" r.vars)

  abbrev status_view : EphemeralEnv → Option String → EnvStatusView
  status_view e left = record {
    name = e.metadata.name;
    phase = e.status.phase;
    namespace = e.status.active_namespace;
    access_url = e.status.access_url;
    helm_release = e.status.helm_release;
    expiration_time = e.status.expiration_time;
    conditions = e.status.conditions;
    ttl_remaining = left;
  }

  abbrev answer_status : EphemeralEnv → Option Time → Handler s.World
  answer_status e none x = answer (json_response (env_status (status_view e none))) x
  answer_status e (some t) x =
      let (now, w) = s.now x.world in
      answer (json_response (env_status (status_view e (some (remaining t now)))))
        (record x { world = w })

  unfoldable pub get_env_status : String → Handler s.World
  get_env_status name = with_env s name (λ e. answer_status e e.status.expiration_time)

  unfoldable pub handle_env_status : Request → Handler s.World
  unfolding get_env_status
  handle_env_status r = get_env_status (get_env_from_context r)
