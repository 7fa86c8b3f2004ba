-- ===== src/Ui/Services.antt =====
-- What the server calls and what is not part of this repository: the Kubernetes clients, the
-- WebSocket library, the decoders and the page templates, as one parameter.
use kube_ephemerals.Prelude.{ℕ, ℤ, String, Bool, Option, List, Labels}
use kube_ephemerals.Exec.{Failure, Result, Exec}
use kube_ephemerals.Api.Types.{Time, Duration, EphemeralEnv, ConditionStatus}
use kube_ephemerals.Api.Template.{EnvironmentTemplate}
use kube_ephemerals.Kube.Objects.{ObjectKey}
use kube_ephemerals.Ui.Http.{Request}
use kube_ephemerals.Ui.Config.{KubeconfigOut, ParsedKubeconfig}

pub record PodCondition : Type 0 where
  pub kind : String
  pub status : ConditionStatus

-- A restart count is an `int32`, as its bit pattern below 2 ^ 32.
pub record Pod : Type 0 where
  pub name : String
  pub namespace : String
  pub phase : String
  pub creation_timestamp : Time
  pub conditions : List PodCondition
  pub restart_counts : List ℕ

-- `client.Client` as the server calls it. A list of pods in the namespace "" is that of all
-- namespaces, as `client.InNamespace` documents; a create decodes what the server stored.
pub record UiClient (World : Type 0) : Type 0 where
  pub list_envs : Exec World (List EphemeralEnv)
  pub get_env : ObjectKey → Exec World EphemeralEnv
  pub create_env : EphemeralEnv → Exec World EphemeralEnv
  pub delete_env : ObjectKey → Exec World (Unit {0})
  pub update_env_status : EphemeralEnv → Exec World EphemeralEnv
  pub list_pods : String → Exec World (List Pod)
  pub delete_pod : ObjectKey → Exec World (Unit {0})
  pub list_templates : Option String → Exec World (List EnvironmentTemplate)
  pub get_template : ObjectKey → Exec World EnvironmentTemplate
  pub create_template : EnvironmentTemplate → Exec World EnvironmentTemplate
  pub delete_template : ObjectKey → Exec World (Unit {0})

pub record TokenRequest : Type 0 where
  pub namespace : String
  pub service_account : String
  pub expiration_seconds : ℤ
  pub audiences : List String

pub record LogRequest : Type 0 where
  pub namespace : String
  pub pod : String
  pub tail_lines : Option ℕ
  pub follow : Bool

-- What one `Read` gives: the bytes, and an error beside them or not.
pub data ReadError : Type 0 where
  eof : ReadError
  failed : Failure → ReadError

pub record ReadResult : Type 0 where
  pub chunk : String
  pub error : Option ReadError

-- `kubernetes.Interface` as the server calls it, with the streams that it opens. `copy` is what
-- `io.Copy` has read from a stream when it ends.
pub record KubeClient (World Stream : Type 0) : Type 0 where
  pub get_config_map : ObjectKey → Exec World Labels
  pub create_token : TokenRequest → Exec World String
  pub open_logs : LogRequest → Exec World Stream
  pub read : Stream → World → ReadResult × World
  pub copy : Stream → World → String × World

-- The upgrade to a WebSocket, which answers the request itself when it fails, and a text message.
pub record Upgrader (World Response Conn : Type 0) : Type 0 where
  pub upgrade : Request → Exec Response Conn
  pub write_message : Conn → String → Exec World (Unit {0})

-- Encoders: YAML, base64, the text of a duration, `strings.TrimSpace`, and `%q`.
pub record Encoding : Type 0 where
  pub marshal_yaml : KubeconfigOut → Result String
  pub unmarshal_yaml : String → Result ParsedKubeconfig
  pub encode_base64 : String → String
  pub decode_base64 : String → Result String
  pub format_duration : Duration → String
  pub trim_space : String → String
  pub quote : String → String
