-- ===== src/Tests/Site.antt =====
-- A server of dashboards on a small cluster.
use kube_ephemerals.Prelude.{
  String, ◌<>◌, ◌==◌, Bool, none, some, List, [], ◌∷◌, ◌++◌, pos, if◌then◌else◌,
}
use kube_ephemerals.Exec.{Result, ok, err}
use kube_ephemerals.Api.Types.{EphemeralEnv, condition_true}
use kube_ephemerals.Api.Template.{EnvironmentTemplate}
use kube_ephemerals.Ui.Config.{ClusterEntry, Config, RestConfig, default_config}
use kube_ephemerals.Ui.Services.{
  Pod, UiClient, TokenRequest, ReadResult, eof, KubeClient, Upgrader, Encoding,
}
use kube_ephemerals.Ui.Respond.{CreateTemplateRequest, CreateComponentRequest, Exchange, Server}
use kube_ephemerals.Tests.Cluster.{library, missing, shop}

pub record Site : Type 0 where
  pub env : EphemeralEnv
  pub templates : List EnvironmentTemplate
  pub tokens : List TokenRequest
  pub reads : List ReadResult
  pub sent : List String

-- A marshaller for kubeconfigs of one cluster with the name and the certificate of the example.
abbrev pub marshal_cluster : List ClusterEntry → Result String
marshal_cluster (c ∷ []) =
    if c.name == "env-shop"
    then if c.cluster.certificate_authority_data == "Y2E=" then ok c.cluster.server else err missing
    else err missing
marshal_cluster _ = err missing

abbrev pub encoding : Encoding
encoding = record {
  marshal_yaml = λ k. marshal_cluster k.clusters;
  unmarshal_yaml = λ raw. ok (record {
    clusters =
        record {
          name = "env-shop";
          cluster = record { server = raw; certificate_authority_data = "Y2E=" };
        }
        ∷ [];
  });
  encode_base64 = λ s. s;
  decode_base64 = λ s. ok s;
  format_duration = λ d. "1h0m0s";
  trim_space = λ s. s;
  quote = λ s. "\"" <> s <> "\"";
}

abbrev pub web_pod : Pod
web_pod = record {
  name = "web-0";
  namespace = "env-shop";
  phase = "Running";
  creation_timestamp = pos 0;
  conditions = record { kind = "Ready"; status = condition_true } ∷ [];
  restart_counts = 2 ∷ 3 ∷ [];
}

abbrev pub client : UiClient Site
client = record {
  list_envs = λ w. (ok (w.env ∷ []), w);
  get_env = λ k w. (ok w.env, w);
  create_env = λ e w. (ok e, record w { env = e });
  delete_env = λ k w. (ok tt, w);
  update_env_status = λ e w. (ok e, record w { env = e });
  list_pods = λ ns w. (ok (web_pod ∷ []), w);
  delete_pod = λ k w. (ok tt, w);
  list_templates = λ ns w. (ok w.templates, w);
  get_template = λ k w. (err missing, w);
  create_template = λ t w. (ok t, record w { templates = t ∷ w.templates });
  delete_template = λ k w. (ok tt, w);
}

abbrev pub next_read : Site → List ReadResult → ReadResult × Site
next_read w [] = (record { chunk = ""; error = some eof }, w)
next_read w (r ∷ rs) = (r, record w { reads = rs })

abbrev pub kube_client : KubeClient Site (Unit {0})
kube_client = record {
  get_config_map = λ k w. (err missing, w);
  create_token = λ req w. (ok "token", record w { tokens = req ∷ w.tokens });
  open_logs = λ req w. (ok tt, w);
  read = λ st w. next_read w w.reads;
  copy = λ st w. ("log", w);
}

abbrev pub upgrader : Upgrader Site (Exchange Site) (Unit {0})
upgrader = record {
  upgrade = λ r x. (ok tt, x);
  write_message = λ conn m w. (ok tt, record w { sent = w.sent ++ m ∷ [] });
}

abbrev pub rest : RestConfig
rest = record { host = "https://10.0.0.1:6443"; ca_data = ""; ca_file = "/ca.crt" }

abbrev pub config : Config
config = record default_config { rest_config = some rest; operator_namespace = "system" }

abbrev pub web_component : CreateComponentRequest
web_component = record {
  name = "web";
  repository = "https://charts.example.com";
  chart = "web";
  version = "1.0.0";
  service_name = "web";
  service_port = 80;
  primary = Bool.true;
}

abbrev pub web_request : CreateTemplateRequest
web_request = record {
  name = "shop";
  namespace = "";
  display_name = "";
  description = "A shop";
  icon = "";
  tags = "demo" ∷ [];
  default_ttl = "";
  components = web_component ∷ [];
}

abbrev pub server : Server
server = record {
  World = Site;
  Stream = Unit {0};
  Conn = Unit {0};
  config = config;
  client = client;
  kube_client = some kube_client;
  upgrader = upgrader;
  now = λ w. (pos 1000, w);
  in_cluster_config = λ w. (err missing, w);
  read_file = λ path w. ("CA", w);
  library = library;
  encoding = encoding;
  lookup_template = λ name. none;
  find_submatch = λ re host. none;
  decode_env = λ body. ok shop;
  decode_duration = λ body. ok body;
  decode_template = λ body. ok web_request;
}

abbrev pub site : Site
site = record {
  env = shop;
  templates = [];
  tokens = [];
  reads =
      record { chunk = "one"; error = none }
      ∷ record { chunk = ""; error = none }
      ∷ record { chunk = "two"; error = some eof }
      ∷ [];
  sent = [];
}
