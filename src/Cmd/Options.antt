-- ===== src/Cmd/Options.antt =====
-- The options that cmd/main.go makes of the flags, for controller-runtime and for the UI server.
use kube_ephemerals.Prelude.{
  String, ◌==◌, len, Bool, Option, none, some, List, [], ◌∷◌, ltb, if◌then◌else◌,
}
use kube_ephemerals.Ui.Config.{Config, RestConfig}
use kube_ephemerals.Cmd.Flags.{Flags}

-- The field of `tls.Config` that the options set.
pub record TlsConfig : Type 0 where
  pub next_protos : List String

abbrev pub TlsOption : Type 0
TlsOption = TlsConfig → TlsConfig

pub record WebhookOptions : Type 0 where
  pub tls_opts : List TlsOption
  pub cert_dir : String
  pub cert_name : String
  pub key_name : String

-- `filters.WithAuthenticationAndAuthorization`
pub data FilterProvider : Type 0 where
  with_authentication_and_authorization : FilterProvider

pub record MetricsOptions : Type 0 where
  pub bind_address : String
  pub secure_serving : Bool
  pub tls_opts : List TlsOption
  pub filter_provider : Option FilterProvider
  pub cert_dir : String
  pub cert_name : String
  pub key_name : String

pub record ManagerOptions (Scheme WebhookServer : Type 0) : Type 0 where
  pub scheme : Scheme
  pub metrics : MetricsOptions
  pub webhook_server : WebhookServer
  pub health_probe_bind_address : String
  pub leader_election : Bool
  pub leader_election_id : String

abbrev disable_http2 : TlsOption
disable_http2 c = record c { next_protos = "http/1.1" ∷ [] }

unfoldable pub tls_opts : Flags → List TlsOption
tls_opts flags = if flags.enable_http2 then [] else disable_http2 ∷ []

unfoldable pub webhook_options : Flags → WebhookOptions
webhook_options flags =
    let options : WebhookOptions = record {
      tls_opts = tls_opts flags;
      cert_dir = "";
      cert_name = "";
      key_name = "";
    } in
    if ltb 0 (len flags.webhook_cert_path)
    then record options {
      cert_dir = flags.webhook_cert_path;
      cert_name = flags.webhook_cert_name;
      key_name = flags.webhook_cert_key;
    }
    else options

unfoldable pub metrics_options : Flags → MetricsOptions
metrics_options flags =
    let served : MetricsOptions = record {
      bind_address = flags.metrics_addr;
      secure_serving = flags.secure_metrics;
      tls_opts = tls_opts flags;
      filter_provider = none;
      cert_dir = "";
      cert_name = "";
      key_name = "";
    } in
    let guarded : MetricsOptions =
      if flags.secure_metrics
      then record served { filter_provider = some with_authentication_and_authorization }
      else served in
    if ltb 0 (len flags.metrics_cert_path)
    then record guarded {
      cert_dir = flags.metrics_cert_path;
      cert_name = flags.metrics_cert_name;
      key_name = flags.metrics_cert_key;
    }
    else guarded

unfoldable pub manager_options :
    {Scheme WebhookServer : Type 0}
    → Scheme
    → (WebhookOptions → WebhookServer)
    → Flags
    → ManagerOptions Scheme WebhookServer
manager_options scheme new_webhook_server flags = record {
  scheme = scheme;
  metrics = metrics_options flags;
  webhook_server = new_webhook_server (webhook_options flags);
  health_probe_bind_address = flags.probe_addr;
  leader_election = flags.enable_leader_election;
  leader_election_id = "3043b942.ephemeralenv.io";
}

-- `getenv` is `os.Getenv`: the empty text for a variable that is not set.
module _ (getenv : String → String) (flags : Flags) where
  unfoldable pub operator_ns : String
  operator_ns =
      let by_pod =
        if flags.operator_namespace == ""
        then getenv "POD_NAMESPACE"
        else flags.operator_namespace in
      if by_pod == "" then getenv "OPERATOR_NAMESPACE" else by_pod

  unfoldable pub ui_config : RestConfig → Config
  unfolding operator_ns
  ui_config rest_config = record {
    platform_domain = flags.ui_platform_domain;
    admin_prefix = "admin";
    base_domain = flags.ui_base_domain;
    listen_addr = flags.ui_addr;
    rest_config = some rest_config;
    kubeconfig_server_url = getenv "KUBECONFIG_SERVER_URL";
    operator_namespace = operator_ns;
    operator_kubeconfig_config_map_name = "";
    operator_kubeconfig_config_map_key = "";
  }
