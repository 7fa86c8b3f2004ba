-- ===== src/Ui/Respond.antt =====
-- The server of internal/ui/server.go, what its handlers write, and the functions that write it.
use kube_ephemerals.Prelude.{ℕ, String, ◌<>◌, ◌==◌, Bool, Option, none, some, List, if◌then◌else◌}
use kube_ephemerals.Exec.{Failure, Result, ok, err, Exec}
use kube_ephemerals.Api.Types.{Time, EphemeralEnv, EphemeralEnvPhase, Condition}
use kube_ephemerals.Kube.Objects.{ObjectKey}
use kube_ephemerals.Kube.Library.{Library}
use kube_ephemerals.Ui.Http.{
  Request, Writer, set_field, write_header, write, or_empty, value_at, status_not_found,
  status_internal_server_error,
}
use kube_ephemerals.Ui.Config.{Config, RestConfig}
use kube_ephemerals.Ui.Services.{Pod, UiClient, KubeClient, Upgrader, Encoding}

-- `ComponentAPIResponse` and `TemplateAPIResponse` of internal/ui/templates.go. The values of a
-- component are raw JSON, `none` where they are nil.
pub record ComponentApiResponse : Type 0 where
  pub name : String
  pub repository : String
  pub chart : String
  pub version : String
  pub service_name : String
  pub service_port : ℕ
  pub values : Option String
  pub primary : Bool

pub record TemplateApiResponse : Type 0 where
  pub id : String
  pub display_name : String
  pub description : String
  pub namespace : String
  pub components : List ComponentApiResponse
  pub default_ttl : String
  pub icon : String
  pub tags : List String
  pub usage_count : ℕ

-- `CreateComponentRequest` and `CreateTemplateRequest` of internal/ui/templates.go
pub record CreateComponentRequest : Type 0 where
  pub name : String
  pub repository : String
  pub chart : String
  pub version : String
  pub service_name : String
  pub service_port : ℕ
  pub primary : Bool

pub record CreateTemplateRequest : Type 0 where
  pub name : String
  pub namespace : String
  pub display_name : String
  pub description : String
  pub icon : String
  pub tags : List String
  pub default_ttl : String
  pub components : List CreateComponentRequest

-- The maps that the handlers encode, by their keys. `ttl_remaining` may be left out.
pub record EnvStatusView : Type 0 where
  pub name : String
  pub phase : EphemeralEnvPhase
  pub namespace : String
  pub access_url : String
  pub helm_release : String
  pub expiration_time : Option Time
  pub conditions : List Condition
  pub ttl_remaining : Option String

pub record PodInfo : Type 0 where
  pub name : String
  pub namespace : String
  pub status : String
  pub ready : Bool
  pub restarts : ℕ
  pub age : String

pub record ExtendedView : Type 0 where
  pub new_expiration : Option Time
  pub ttl_remaining : String

-- What is written to a response: an encoded value, or a text.
pub data Value : Type 0 where
  envs : List EphemeralEnv → Value
  env : EphemeralEnv → Value
  env_status : EnvStatusView → Value
  pods : List PodInfo → Value
  restarting : String → Value
  extended : ExtendedView → Value
  template : TemplateApiResponse → Value
  templates : List TemplateApiResponse → Value
  error_message : String → Value
  text : String → Value

-- The cluster, and the response that is being written.
pub record Exchange (World : Type 0) : Type 0 where
  pub world : World
  pub writer : Writer Value

-- What the page templates are executed on, with the title first.
pub data Page : Type 0 where
  global_dashboard : String → List EphemeralEnv → Config → Page
  env_dashboard : String → EphemeralEnv → List Pod → Config → Page

-- `Server`, with what its handlers call. `lookup_template` finds a page template, which gives what
-- it writes and an error or not. `read_file` gives the bytes that are read, with an error or without.
-- `find_submatch` is the first group of a regular expression's match. The fields for the router and
-- for net/http's server are left out, and the registry of templates, which no handler reads.
pub record Server : Type 1 where
  pub World : Type 0
  pub Stream : Type 0
  pub Conn : Type 0
  pub config : Config
  pub client : UiClient World
  pub kube_client : Option (KubeClient World Stream)
  pub upgrader : Upgrader World (Exchange World) Conn
  pub now : World → Time × World
  pub in_cluster_config : Exec World RestConfig
  pub read_file : String → World → String × World
  pub library : Library
  pub encoding : Encoding
  pub lookup_template : String → Option (Page → String × Option Failure)
  pub find_submatch : String → String → Option String
  pub decode_env : String → Result EphemeralEnv
  pub decode_duration : String → Result String
  pub decode_template : String → Result CreateTemplateRequest

abbrev pub Handler : Type 0 → Type 0
Handler World = Exchange World → Exchange World

module _ {World : Type 0} where
  unfoldable pub answer : (Writer Value → Writer Value) → Handler World
  answer f x = record x { writer = f x.writer }

  module _ {A : Type 0} where
    abbrev pub settle :
        (Failure → Handler World)
        → (A → Handler World)
        → Writer Value
        → Result A × World
        → Exchange World
    settle failed done out (ok a, w) = done a (record { world = w; writer = out })
    settle failed done out (err e, w) = failed e (record { world = w; writer = out })

    -- `a, err := …; if err != nil { … return }`, and what follows
    unfoldable pub calling :
        Exec World A → (Failure → Handler World) → (A → Handler World) → Handler World
    calling m failed done x = settle failed done x.writer (m x.world)

    abbrev pub checked : Result A → (Failure → Handler World) → (A → Handler World) → Handler World
    checked (ok a) failed done x = done a x
    checked (err e) failed done x = failed e x

unfoldable pub json_response : Value → Writer Value → Writer Value
json_response v w = write v (set_field "Content-Type" "application/json" w)

unfoldable pub json_error : String → ℕ → Writer Value → Writer Value
json_error message code w =
    write (error_message message)
      (write_header code (set_field "Content-Type" "application/json" w))

-- `http.Error`
unfoldable pub http_error : String → ℕ → Writer Value → Writer Value
http_error message code w = write (text (message <> "\n")) (
    write_header code (
      set_field "X-Content-Type-Options" "nosniff"
        (set_field "Content-Type" "text/plain; charset=utf-8" w)))

-- `getEnvFromContext`
unfoldable pub get_env_from_context : Request → String
get_env_from_context r = or_empty r.env_name

module _ (s : Server) where
  abbrev rendered : String × Option Failure → Writer Value → Writer Value
  rendered (page, none) w = write (text page) w
  rendered (page, some e) w =
      http_error "Internal server error" status_internal_server_error (write (text page) w)

  abbrev execute : Option (Page → String × Option Failure) → Page → Writer Value → Writer Value
  execute none page w = http_error "Internal server error" status_internal_server_error w
  execute (some t) page w = rendered (t page) w

  unfoldable pub render_template : String → Page → Writer Value → Writer Value
  render_template name page w =
      execute (s.lookup_template name) page (set_field "Content-Type" "text/html; charset=utf-8" w)

  -- The middleware of the admin routes: the name by the route, or by the host's text.
  unfoldable pub env_context_middleware : {Served : Type 0} → (Request → Served) → Request → Served
  env_context_middleware next r =
      let by_route = value_at "env" r.vars in
      let by_host =
        or_empty (s.find_submatch (s.config.admin_prefix <> "\\.([a-z0-9-]+)\\.") r.host) in
      let env_name = if by_route == "" then by_host else by_route in
      if env_name == "" then next r else next (record r { env_name = some env_name })

  abbrev pub default_key : String → ObjectKey
  default_key name = record { name = name; namespace = "default" }

  -- The environment of a name in the default namespace, or the answer that it is not found.
  unfoldable pub with_env : String → (EphemeralEnv → Handler s.World) → Handler s.World
  with_env name =
      calling (s.client.get_env (default_key name))
        (λ e. answer (json_error "Environment not found" status_not_found))
