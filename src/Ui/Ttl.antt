-- ===== src/Ui/Ttl.antt =====
-- `extendTTL` of internal/ui/server.go.
pub mod Extended
use kube_ephemerals.Prelude.{ℤ, pos, ◌+ℤ◌, String, ◌<>◌, Option, none, some}
use kube_ephemerals.Exec.{Failure, Result, ok, err}
use kube_ephemerals.Api.Types.{Time, Duration, EphemeralEnv}
use kube_ephemerals.Ui.Http.{
  Request, Writer, value_at, status_bad_request, status_internal_server_error,
}
use kube_ephemerals.Ui.Respond.{
  Server, Handler, Exchange, Value, extended, answer, calling, settle, checked, json_response,
  json_error, get_env_from_context, with_env,
}
use kube_ephemerals.Ui.Envs.{remaining}

abbrev pub expiring_at : Time → EphemeralEnv → EphemeralEnv
expiring_at t e = record e { status = record e.status { expiration_time = some t } }

abbrev pub failed_extension : Failure → Writer Value → Writer Value
failed_extension f = json_error ("Failed to extend TTL: " <> f.text) status_internal_server_error

module _ (s : Server) where
  -- The time by which a duration is added: the expiration time, or now.
  abbrev pub extend_from :
      Option Time → Duration → EphemeralEnv → (EphemeralEnv → Handler s.World) → Handler s.World
  extend_from (some t) d e k x = k (expiring_at (t +ℤ d) e) x
  extend_from none d e k x =
      let (now, w) = s.now x.world in k (expiring_at (now +ℤ d) e) (record x { world = w })

  -- The response's text counts from the environment as the server stored it; without a time, which
  -- the pointer's use would panic at, nothing is written.
  abbrev pub answer_extended : Option Time → Handler s.World
  answer_extended none x = x
  answer_extended (some t) x =
      let (now, w) = s.now x.world in
      answer
        (json_response
          (extended (record { new_expiration = some t; ttl_remaining = remaining s t now })))
        (record x { world = w })

  abbrev pub update_expiration : EphemeralEnv → Handler s.World
  update_expiration e =
      calling (s.client.update_env_status e) (λ f. answer (failed_extension f))
        (λ stored. answer_extended stored.status.expiration_time)

  abbrev pub extend_by : Option Duration → String → Handler s.World
  extend_by none name = answer (json_error "Invalid duration format" status_bad_request)
  extend_by (some d) name =
      with_env s name (λ e. extend_from e.status.expiration_time d e update_expiration)

  unfoldable pub extend_ttl : Request → String → Handler s.World
  extend_ttl r name =
      checked (s.decode_duration r.body)
        (λ e. answer (json_error "Invalid request body" status_bad_request))
        (λ duration. extend_by (s.library.parse_duration duration) name)

  unfoldable pub handle_extend_ttl : Request → Handler s.World
  unfolding extend_ttl
  handle_extend_ttl r = extend_ttl r (get_env_from_context r)

  unfoldable pub handle_extend_ttl_by_name : Request → Handler s.World
  unfolding extend_ttl
  handle_extend_ttl_by_name r = extend_ttl r (value_at "name" r.vars)
